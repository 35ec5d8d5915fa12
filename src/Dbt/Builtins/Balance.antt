-- ===== src/Dbt/Builtins/Balance.antt =====
-- What the built-in macros read as their arguments, and that their expansion ends
-- (crates/gcpx-dbt/src/preprocess.rs).
use pulumi_rs_provider_gcpx.Base.{
  ℕ, zero, suc, ◌+◌, ◌-◌, ◌≤◌, ◌<◌, ◌≡◌, ◌==◌, refl, ap, subst, Bool, true, false, ◌&&◌, [], ◌∷◌,
  ◌++◌, if◌then◌else◌, Option, none, some, Text, codes, length, split_once, trim, arith, Bool-cases,
  inl, inr, leb, text_eq, IsCut, IsShort, split_once-IsCut, strip_prefix-IsPrefix, prefix-IsShort,
  cut_shorter,
}
use pulumi_rs_provider_gcpx.Dbt.Builtins.{
  Quote, outside, inside, escaped, in_string, cons_before, balanced, extract_balanced_args,
  split_top_level_args, expansion, listagg, surrogate, dateadd, datediff, after_surrogate,
  after_dateadd, after_datediff, try_expand_builtin, parse_surrogate_key_cols, put_front, once_loop,
  expand_builtins_once, expand_rounds, expand_builtins,
}

-- Cut at a closing parenthesis.
abbrev IsClosed : Text → Option (Text × Text) → Type 0
IsClosed s o = IsCut (b')' ∷ []) s o

cons-IsClosed :
    (c : ℕ) (s : Text) (o : Option (Text × Text))
    → IsClosed s o
    → IsClosed (c ∷ s) (cons_before c o)
cons-IsClosed c s none h = tt
cons-IsClosed c s (some p) h = ap (◌∷◌ c) h

-- What holds of both branches.
either_holds :
    {A : Type 0} (P : A → Type 0) (b : Bool) (x y : A)
    → (b ≡ true → P x)
    → P y
    → P (if b then x else y)
either_holds P true x y h k = h refl
either_holds P false x y h k = k

balanced-IsClosed : (q : Quote) (d b : ℕ) (s : Text) → IsClosed s (balanced q d b s)
unfolding balanced
balanced-IsClosed q d b [] = tt
balanced-IsClosed escaped d b (c ∷ s) = cons-IsClosed c s _ (balanced-IsClosed inside d b s)
balanced-IsClosed inside d b (c ∷ s) = cons-IsClosed c s _ (balanced-IsClosed (in_string c) d b s)
balanced-IsClosed outside d b (c ∷ s) =
    let P = IsClosed (c ∷ s) in
    let at =
      λ (q : Quote) (d b : ℕ). cons-IsClosed c s (balanced q d b s) (balanced-IsClosed q d b s) in
    either_holds P (c == b'(') _ _ (λ _. at outside (d + 1) b)
      (either_holds P (c == b')' && b == 0) _ _
        (λ h. either_holds P (leb d 1) _ _ (λ _. ground (arith, h)) (at outside (d - 1) b))
        (either_holds P (c == b'[') _ _ (λ _. at outside d (b + 1))
          (either_holds P (c == b']') _ _ (λ _. at outside d (b - 1))
            (either_holds P (c == 39) _ _ (λ _. at inside d b) (at outside d b)))))

-- What `extract_balanced_args` reads, a closing parenthesis and what it leaves are the text it was
-- given.
pub extract_balanced_args_lem :
    (s inner rest : Text) → extract_balanced_args s ≡ some (inner, rest) → inner ++ b')' ∷ rest ≡ s
unfolding extract_balanced_args
extract_balanced_args_lem s inner rest h = subst (IsClosed s) h (balanced-IsClosed outside 1 0 s)

expansion-IsShort :
    (n : ℕ) (o : Option Text) (after : Text) → length after ≤ n → IsShort n (expansion o after)
expansion-IsShort n none after h = tt
expansion-IsShort n (some t) after h = h

-- What is expanded from the arguments in front of `rest`.
args-IsShort :
    (f : Text → Option Text) (rest : Text) (o : Option (Text × Text))
    → IsClosed rest o
    → IsShort (length rest) (elim o [ none ↦ none | some p ↦ expansion (f p.0) p.1 ])
args-IsShort f rest none h = tt
args-IsShort f rest (some p) h =
    expansion-IsShort (length rest) (f p.0) p.1 (omega (arith, cut_shorter (b')' ∷ []) rest p h))

le-IsShort : (n m : ℕ) (o : Option (Text × Text)) → n ≤ m → IsShort n o → IsShort m o
le-IsShort n m none h k = tt
le-IsShort n m (some p) h k = omega arith

extracted-IsShort :
    (f : Text → Option Text) (n : ℕ) (rest : Text)
    → length rest ≤ n
    → IsShort n (elim (extract_balanced_args rest) [ none ↦ none | some p ↦ expansion (f p.0) p.1 ])
unfolding extract_balanced_args
extracted-IsShort f n rest h =
    le-IsShort (length rest) n _ h
      (args-IsShort f rest (balanced outside 1 0 rest) (balanced-IsClosed outside 1 0 rest))

module _ (to_uppercase : Text → Text) where
  try_expand_builtin-IsShort : (s : Text) → IsShort (length s) (try_expand_builtin to_uppercase s)
  unfolding try_expand_builtin after_datediff after_dateadd after_surrogate
  try_expand_builtin-IsShort s =
      let at = λ (p : Text). strip_prefix-IsPrefix p s in
      let n = length s in
      prefix-IsShort (codes "current_timestamp()") s _ _ _ (at (codes "current_timestamp()"))
        (λ r l. l)
        (prefix-IsShort (codes "datediff(") s _ _ _ (at (codes "datediff("))
          (extracted-IsShort (λ t. datediff to_uppercase (split_top_level_args t)) n)
          (prefix-IsShort (codes "dateadd(") s _ _ _ (at (codes "dateadd("))
            (extracted-IsShort (λ t. dateadd to_uppercase (split_top_level_args t)) n)
            (prefix-IsShort (codes "generate_surrogate_key(") s _ _ _
              (at (codes "generate_surrogate_key("))
              (extracted-IsShort (λ t. surrogate (parse_surrogate_key_cols (trim t))) n)
              (prefix-IsShort (codes "listagg(") s _ _ _ (at (codes "listagg("))
                (extracted-IsShort (λ t. listagg (split_top_level_args t)) n) tt))))

  abbrev Ends : Option Text → Type 0
  Ends o = (out : Text) × (o ≡ some out)

  put_front-Ends : (front : Text) (o : Option Text) → Ends o → Ends (put_front front o)
  put_front-Ends front o (out, h) = (front ++ out, rw h refl)

  module _ (s : Text) (next : Text → Option Text)
      (ends : (t : Text) → length t < length s → Ends (next t)) where
    expanded-Ends :
        (front kept t : Text) (o : Option (Text × Text))
        → length t < length s
        → IsShort (length t) o
        → Ends (elim o [
          | none ↦ put_front kept (next t)
          | some e ↦ put_front (front ++ e.0) (next e.1)
        ])
    expanded-Ends front kept t none l h = put_front-Ends kept (next t) (ends t l)
    expanded-Ends front kept t (some e) l h =
        put_front-Ends (front ++ e.0) (next e.1) (ends e.1 (omega arith))

    round-Ends :
        (o : Option (Text × Text))
        → IsCut (codes "dbt_utils.") s o
        → Ends (elim o [
          | none ↦ some s
          | some found ↦ elim (try_expand_builtin to_uppercase found.1) [
            | none ↦ put_front (found.0 ++ codes "dbt_utils.") (next found.1)
            | some e ↦ put_front (found.0 ++ e.0) (next e.1)
          ]
        ])
    round-Ends none h = (s, refl)
    round-Ends (some q) h =
        expanded-Ends q.0 (q.0 ++ codes "dbt_utils.") q.1 (try_expand_builtin to_uppercase q.1)
          (omega (arith, cut_shorter (codes "dbt_utils.") s q h)) (try_expand_builtin-IsShort q.1)

  once_loop-Ends : (fuel : ℕ) (s : Text) → length s < fuel → Ends (once_loop to_uppercase fuel s)
  unfolding once_loop
  once_loop-Ends zero s h = elim h [ ]
  once_loop-Ends (suc fuel) s h =
      round-Ends s (once_loop to_uppercase fuel) (λ t l. once_loop-Ends fuel t (omega arith))
        (split_once (codes "dbt_utils.") s) (split_once-IsCut (codes "dbt_utils.") s)

  rounds-Ends : (n : ℕ) (s : Text) → Ends (expand_rounds to_uppercase n s)
  unfolding expand_rounds expand_builtins_once
  rounds-Ends zero s = (s, refl)
  rounds-Ends (suc n) s =
      let (next, h) = once_loop-Ends (suc (length s)) s (omega arith) in
      let (out, k) = rounds-Ends n next in
      elim (Bool-cases (text_eq next s)) [
        | inl e ↦ (next, rw (expand_rounds, h, e) refl)
        | inr e ↦ (out, rw (expand_rounds, h, e) k)
      ]

  -- `expand_builtins` always comes to a text: each of its ten rounds ends.
  pub expand_builtins-Ends :
      (sql : Text) → (out : Text) × (expand_builtins to_uppercase sql ≡ some out)
  unfolding expand_builtins
  expand_builtins-Ends sql = rounds-Ends 10 sql
