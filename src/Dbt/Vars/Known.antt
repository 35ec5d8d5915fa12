-- ===== src/Dbt/Vars/Known.antt =====
-- The substitution of variables ends, with a text or with a variable that is not there
-- (crates/gcpx-dbt/src/preprocess.rs).
use pulumi_rs_provider_gcpx.Base.{
  ℕ, zero, suc, ◌≤◌, ◌<◌, ◌≡◌, refl, ap, not, List, [], ◌∷◌, ◌++◌, Option, none, some, Text, codes,
  length, contains, strip_prefix, split_once, trim_start, trim_start_with, is_whitespace, Result,
  ok, err, ◌⊎◌, inl, inr, arith, Bool-cases, IsCut, IsPrefix, IsShort, split_once-IsCut,
  strip_prefix-IsPrefix, cut_shorter, trim_start_with_le,
}
use pulumi_rs_provider_gcpx.Dbt.Preprocess.{PreprocessError, unknown_var}
use pulumi_rs_provider_gcpx.Dbt.Vars.{
  get_var, VarCall, quoted_at, opening_quote, closed_call, call_at, behind, var_loop, find_var_call,
  available, substituted, expand_loop, expand_vars,
}

abbrev IsShortQuote : ℕ → Option (ℕ × Text) → Type 0
IsShortQuote n none = Unit
IsShortQuote n (some q) = length q.1 ≤ n

opening-IsShortQuote : (s : Text) → IsShortQuote (length s) (opening_quote s)
unfolding opening_quote
opening-IsShortQuote s =
    single (strip_prefix (39 ∷ []) s) (strip_prefix-IsPrefix (39 ∷ []) s)
      (double (strip_prefix (34 ∷ []) s) (strip_prefix-IsPrefix (34 ∷ []) s))
  where
    double : (o : Option Text) → IsPrefix (34 ∷ []) s o → IsShortQuote (length s) (quoted_at 34 o)
    double none h = tt
    double (some r) h = omega (arith, ap length h)

    single :
        (o : Option Text)
        → IsPrefix (39 ∷ []) s o
        → IsShortQuote (length s) (quoted_at 34 (strip_prefix (34 ∷ []) s))
        → IsShortQuote (length s) (elim o [
          | some rest ↦ some (39, rest)
          | none ↦ quoted_at 34 (strip_prefix (34 ∷ []) s)
        ])
    single none h k = k
    single (some r) h k = omega (arith, ap length h)

closed_call-IsShort : (quote : ℕ) (rest : Text) → IsShort (length rest) (closed_call quote rest)
unfolding closed_call trim_start
closed_call-IsShort quote rest =
    found (split_once (quote ∷ []) rest) (split_once-IsCut (quote ∷ []) rest)
  where
    closing :
        (name after : Text) (o : Option Text)
        → IsPrefix (b')' ∷ []) (trim_start_with is_whitespace after) o
        → length after ≤ length rest
        → IsShort (length rest) (elim o [ none ↦ none | some a ↦ some (name, a) ])
    closing name after none h l = tt
    closing name after (some a) h l =
        omega (arith, ap length h, trim_start_with_le is_whitespace after, l)

    found :
        (o : Option (Text × Text))
        → IsCut (quote ∷ []) rest o
        → IsShort (length rest) (elim o [
          | none ↦ none
          | some found ↦ elim (strip_prefix (b')' ∷ []) (trim_start found.1)) [
            | none ↦ none
            | some after ↦ some (found.0, after)
          ]
        ])
    found none h = tt
    found (some p) h =
        closing p.0 p.1 (strip_prefix (b')' ∷ []) (trim_start_with is_whitespace p.1))
          (strip_prefix-IsPrefix (b')' ∷ []) (trim_start_with is_whitespace p.1))
          (omega (arith, cut_shorter (quote ∷ []) rest p h))

call_at-IsShort : (s : Text) → IsShort (length s) (call_at s)
unfolding call_at
call_at-IsShort s = from (opening_quote s) (opening-IsShortQuote s)
  where
    from :
        (o : Option (ℕ × Text))
        → IsShortQuote (length s) o
        → IsShort (length s) (elim o [ none ↦ none | some q ↦ closed_call q.0 q.1 ])
    from none h = tt
    from (some q) h = weaken (closed_call q.0 q.1) (closed_call-IsShort q.0 q.1) h
      where
        weaken :
            (o : Option (Text × Text))
            → IsShort (length q.1) o
            → length q.1 ≤ length s
            → IsShort (length s) o
        weaken none a b = tt
        weaken (some r) a b = omega arith

-- The text behind a call is shorter than the text that was searched.
abbrev IsShorter : ℕ → Option VarCall → Type 0
IsShorter n none = Unit
IsShorter n (some c) = length c.after < n

behind-IsShorter :
    (front : Text) (n m : ℕ) (o : Option VarCall)
    → n ≤ m
    → IsShorter n o
    → IsShorter m (behind front o)
behind-IsShorter front n m none l h = tt
behind-IsShorter front n m (some c) l h = omega arith

call_or :
    (n : ℕ) (t before : Text) (later : Option VarCall) (o : Option (Text × Text))
    → length t < n
    → IsShort (length t) o
    → IsShorter n later
    → IsShorter n (elim o [
      | none ↦ later
      | some p ↦ some (record { before = before; name = p.0; after = p.1 })
    ])
call_or n t before later none l h k = k
call_or n t before later (some p) l h k = omega arith

module _ (s : Text) (search : Text → Option VarCall)
    (short : (t : Text) → IsShorter (length t) (search t)) where
  round-IsShorter :
      (o : Option (Text × Text))
      → IsCut (codes "var(") s o
      → IsShorter (length s) (elim o [
        | none ↦ none
        | some found ↦ elim (call_at found.1) [
          | none ↦ behind (found.0 ++ codes "var(") (search found.1)
          | some p ↦ some (record { before = found.0; name = p.0; after = p.1 })
        ]
      ])
  round-IsShorter none h = tt
  round-IsShorter (some q) h =
      let l = cut_shorter (codes "var(") s q h in
      call_or (length s) q.1 q.0 (behind (q.0 ++ codes "var(") (search q.1)) (call_at q.1)
        (omega (arith, l)) (call_at-IsShort q.1)
        (behind-IsShorter (q.0 ++ codes "var(") (length q.1) (length s) (search q.1)
          (omega (arith, l)) (short q.1))

var_loop-IsShorter : (fuel : ℕ) (s : Text) → IsShorter (length s) (var_loop fuel s)
unfolding var_loop
var_loop-IsShorter zero s = tt
var_loop-IsShorter (suc fuel) s =
    round-IsShorter s (var_loop fuel) (var_loop-IsShorter fuel) (split_once (codes "var(") s)
      (split_once-IsCut (codes "var(") s)

-- An expansion is a text, or the error that names a variable which is not there and all that are.
abbrev pub IsExpansion : List (Text × Text) → Option (Result Text PreprocessError) → Type 0
IsExpansion vars r =
    ((out : Text) × (r ≡ some (ok out)))
    ⊎ ((name : Text) × (get_var name vars ≡ none)
        × (r ≡ some (err (unknown_var name (available vars)))))

substituted-IsExpansion :
    (vars : List (Text × Text)) (before name : Text) (value : Option Text)
    (later : Option (Result Text PreprocessError))
    → get_var name vars ≡ value
    → IsExpansion vars later
    → IsExpansion vars (substituted before value name (available vars) later)
substituted-IsExpansion vars before name none later e h = inr (name, e, refl)
substituted-IsExpansion vars before name (some v) later e (inl (out, h)) =
    inl (before ++ (v ++ out), rw h refl)
substituted-IsExpansion vars before name (some v) later e (inr (n, k, h)) = inr (n, k, rw h refl)

expand_loop-IsExpansion :
    (fuel : ℕ) (vars : List (Text × Text)) (s : Text)
    → length s < fuel
    → IsExpansion vars (expand_loop fuel vars s)
unfolding expand_loop find_var_call
expand_loop-IsExpansion zero vars s h = elim h [ ]
expand_loop-IsExpansion (suc fuel) vars s h =
    from (var_loop (length s) s) (var_loop-IsShorter (length s) s)
      (λ t l. expand_loop-IsExpansion fuel vars t (omega arith))
  where
    from :
        (o : Option VarCall)
        → IsShorter (length s) o
        → ((t : Text) → length t < length s → IsExpansion vars (expand_loop fuel vars t))
        → IsExpansion vars (elim o [
          | none ↦ some (ok s)
          | some c ↦
              substituted c.before
                (get_var c.name vars)
                c.name
                (available vars)
                (expand_loop fuel vars c.after)
        ])
    from none l ih = inl (s, refl)
    from (some c) l ih =
        substituted-IsExpansion vars c.before c.name (get_var c.name vars)
          (expand_loop fuel vars c.after) refl (ih c.after l)

-- `expand_vars` always comes to a result: a text, or the error for a variable that is not defined,
-- which lists the defined ones.
pub expand_vars-IsExpansion :
    (sql : Text) (vars : List (Text × Text)) → IsExpansion vars (expand_vars sql vars)
unfolding expand_vars
expand_vars-IsExpansion sql vars = elim (Bool-cases (not (contains (codes "var(") sql))) [
  | inl h ↦ rw h (inl (sql, refl))
  | inr h ↦ rw h (expand_loop-IsExpansion (suc (length sql)) vars sql (omega arith))
]
