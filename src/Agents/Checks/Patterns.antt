-- ===== src/Agents/Checks/Patterns.antt =====
-- Which patterns pass (crates/gcpx-agents/src/validate.rs).
use pulumi_rs_provider_gcpx.Base.{
  ℕ, zero, suc, ◌==◌, ◌≡◌, ◌≢◌, ◌↔◌, ◌⊎◌, is_empty, append-nil, refl, sym, ◌∙◌, ap, subst, Bool,
  true, false, ◌||◌, [], ◌∷◌, ◌++◌, append_assoc, none, Text, arith, Result, ok, err, Bool-cases,
  inl, inr,
}
use pulumi_rs_provider_gcpx.Agents.Checks.{
  PatternFailure, Walk, walk_char, and_walk, walk, new_walk, unfinished, at_end, validate_pattern,
}
use pulumi_rs_provider_gcpx.Agents.Checks.Walks.{
  outside, inside, step_inside, step_outside, step_open, walk-Pattern,
}
use pulumi_rs_provider_gcpx.Agents.Checks.Grammar.{
  Class, class_end, class_char, class_escape, Pattern, pattern_end, char, escape, class, group,
}

-- A text that is well formed behind so many groups that are still open.
abbrev Closes : ℕ → Text → Type 0
Closes zero s = Pattern s
Closes (suc d) s = (a rest : Text) × (a ++ b')' ∷ rest ≡ s) × Pattern a × Closes d rest

-- What `f` puts in front of a pattern, it puts in front of such a text.
in_front :
    (f : Text → Text)
    → ((p : Text) → Pattern p → Pattern (f p))
    → ((a b : Text) → f a ++ b ≡ f (a ++ b))
    → (d : ℕ) (s : Text) → Closes d s
    → Closes d (f s)
in_front f g e zero s h = g s h
in_front f g e (suc d) s (a, rest, q, p, later) =
    (f a, rest, e a (b')' ∷ rest) ∙ ap f q, g a p, later)

-- What is behind a walk that ends well, by whether it is behind a backslash and in a class.
abbrev Unescaped : ℕ → Bool → Text → Type 0
Unescaped d true s = (a r : Text) × (a ++ b']' ∷ r ≡ s) × Class a × Closes d r
Unescaped d false s = Closes d s

abbrev Behind : ℕ → Bool → Bool → Text → Type 0
Behind d true k s = (c : ℕ) × (r : Text) × (c ∷ r ≡ s) × Unescaped d k r
Behind d false k s = Unescaped d k s

abbrev depth_of : Result Walk PatternFailure → ℕ
depth_of r = elim r [ ok w ↦ w.depth | err e ↦ 0 ]

abbrev is_open : Result Walk PatternFailure → Bool
is_open r = elim r [ ok w ↦ w.is_escaped || w.in_class | err e ↦ false ]

abbrev Ends : ℕ → Bool → Bool → Text → Type 0
Ends d e k s = walk (record { depth = d; is_escaped = e; in_class = k }) s ≡ ok new_walk

module _ (s : Text) (d : ℕ) (read : (d : ℕ) (e k : Bool) → Ends d e k s → Behind d e k s) where
  after_step : (w v : Walk) (c : ℕ) → walk_char w c ≡ ok v → walk w (c ∷ s) ≡ walk v s
  unfolding walk
  after_step w v c h = ap (λ r. and_walk r (λ u. walk u s)) h

  class_slash : Ends d false true (92 ∷ s) → Behind d false true (92 ∷ s)
  unfolding walk walk_char
  class_slash h =
      let (c, r, e, (a, rest, q, body, later)) = read d true true h in
      (92 ∷ c ∷ a, rest, ap (λ t. 92 ∷ c ∷ t) q ∙ ap (λ t. 92 ∷ t) e, class_escape c body, later)

  class_close : Ends d false true (b']' ∷ s) → Behind d false true (b']' ∷ s)
  unfolding walk walk_char
  class_close h = ([], s, refl, class_end, read d false false h)

  class_other :
      (c : ℕ) → c ≢ 92 → c ≢ b']' → Ends d false true (c ∷ s) → Behind d false true (c ∷ s)
  class_other c k l h =
      let (a, rest, q, body, later) =
        read d false true (sym (after_step (inside d) (inside d) c (step_inside d c k l)) ∙ h) in
      (c ∷ a, rest, ap (λ t. c ∷ t) q, class_char c k l body, later)

  slash : Ends d false false (92 ∷ s) → Closes d (92 ∷ s)
  unfolding walk walk_char
  slash h =
      let (c, r, e, later) = read d true false h in
      subst (λ t. Closes d (92 ∷ t)) e
        (in_front (λ t. 92 ∷ c ∷ t) (λ p. escape c) (λ a b. refl) d r later)

  open_class : Ends d false false (b'[' ∷ s) → Closes d (b'[' ∷ s)
  unfolding walk walk_char
  open_class h =
      let (a, r, e, body, later) = read d false true h in
      subst (λ t. Closes d (b'[' ∷ t)) e
        (in_front (λ t. b'[' ∷ (a ++ b']' ∷ t)) (λ p. class body)
          (λ x y. ap (λ t. b'[' ∷ t) (append_assoc a (b']' ∷ x) y)) d r later)

  open_group : Ends d false false (b'(' ∷ s) → Closes d (b'(' ∷ s)
  open_group h =
      let (a, r, e, body, later) =
        read (suc d) false false
          (sym (after_step (outside d) (outside (suc d)) b'(' (step_open d)) ∙ h) in
      subst (λ t. Closes d (b'(' ∷ t)) e
        (in_front (λ t. b'(' ∷ (a ++ b')' ∷ t)) (λ p. group body)
          (λ x y. ap (λ t. b'(' ∷ t) (append_assoc a (b')' ∷ x) y)) d r later)

  other :
      (c : ℕ)
      → c ≢ 92
      → c ≢ b'['
      → c ≢ b'('
      → c ≢ b')'
      → Ends d false false (c ∷ s)
      → Closes d (c ∷ s)
  other c k l m n h =
      in_front (λ t. c ∷ t) (λ p. char c k l m n) (λ a b. refl) d s
        (read d false false
          (sym (after_step (outside d) (outside d) c (step_outside d c k l m n)) ∙ h))

shut_group :
    (d : ℕ) (s : Text)
    → ((d : ℕ) (e k : Bool) → Ends d e k s → Behind d e k s)
    → Ends d false false (b')' ∷ s)
    → Closes d (b')' ∷ s)
unfolding walk walk_char
shut_group zero s read h = ground (arith, h)
shut_group (suc d) s read h = ([], s, refl, pattern_end, read d false false h)

same_or_not : (c n : ℕ) → (c ≡ n) ⊎ (c ≢ n)
same_or_not c n = elim (Bool-cases (c == n)) [
  | inl e ↦ inl (ground (arith, e))
  | inr e ↦ inr (λ h. ground (arith, e, h))
]

-- The claim for a character `c` from the claim for the character it is.
at {ℓ} : {n c : ℕ} (P : ℕ → Type ℓ) → c ≡ n → P n → P c
at P e p = subst P (sym e) p

read_class :
    (s : Text) (d : ℕ)
    → ((d : ℕ) (e k : Bool) → Ends d e k s → Behind d e k s)
    → (c : ℕ) → Ends d false true (c ∷ s)
    → Behind d false true (c ∷ s)
read_class s d read c = elim (same_or_not c 92) [
  | inl e ↦
      at (λ n. Ends d false true (n ∷ s) → Behind d false true (n ∷ s)) e (class_slash s d read)
  | inr k ↦ elim (same_or_not c b']') [
    | inl e ↦
        at (λ n. Ends d false true (n ∷ s) → Behind d false true (n ∷ s)) e (class_close s d read)
    | inr l ↦ class_other s d read c k l
  ]
]

read_char :
    (s : Text) (d : ℕ)
    → ((d : ℕ) (e k : Bool) → Ends d e k s → Behind d e k s)
    → (c : ℕ) → Ends d false false (c ∷ s)
    → Closes d (c ∷ s)
read_char s d read c = elim (same_or_not c 92) [
  | inl e ↦ at (λ n. Ends d false false (n ∷ s) → Closes d (n ∷ s)) e (slash s d read)
  | inr k ↦ elim (same_or_not c b'[') [
    | inl e ↦ at (λ n. Ends d false false (n ∷ s) → Closes d (n ∷ s)) e (open_class s d read)
    | inr l ↦ elim (same_or_not c b'(') [
      | inl e ↦ at (λ n. Ends d false false (n ∷ s) → Closes d (n ∷ s)) e (open_group s d read)
      | inr m ↦ elim (same_or_not c b')') [
        | inl e ↦ at (λ n. Ends d false false (n ∷ s) → Closes d (n ∷ s)) e (shut_group d s read)
        | inr n ↦ other s d read c k l m n
      ]
    ]
  ]
]

read-Behind : (s : Text) (d : ℕ) (e k : Bool) → Ends d e k s → Behind d e k s
unfolding walk walk_char
read-Behind [] zero false false h = pattern_end
read-Behind [] (suc d) false false h = ground (arith, ap depth_of h)
read-Behind [] d true k h = ground (arith, ap is_open h)
read-Behind [] d false true h = ground (arith, ap is_open h)
read-Behind (c ∷ s) d true k h = (c, s, refl, read-Behind s d false k h)
read-Behind (c ∷ s) d false true h = read_class s d (read-Behind s) c h
read-Behind (c ∷ s) d false false h = read_char s d (read-Behind s) c h

-- A walk that is not unfinished is where it began.
unfinished_lem : (w : Walk) → unfinished w ≡ none → w ≡ new_walk
unfinished_lem w h = from w.depth w.is_escaped w.in_class h
  where
    from :
        (d : ℕ) (e c : Bool)
        → unfinished (record { depth = d; is_escaped = e; in_class = c }) ≡ none
        → record { depth = d; is_escaped = e; in_class = c } ≡ new_walk
    from zero false false k = refl
    from (suc d) false false k = ground (arith, k)
    from d true c k = ground (arith, k)
    from d false true k = ground (arith, k)

at_end_lem : (r : Result Walk PatternFailure) → at_end r ≡ none → r ≡ ok new_walk
at_end_lem (ok w) h = ap ok (unfinished_lem w h)
at_end_lem (err e) h = ground (arith, h)

passes_lem : (c : ℕ) (s : Text) → validate_pattern (c ∷ s) ≡ none → Pattern (c ∷ s)
unfolding validate_pattern
passes_lem c s h = read-Behind (c ∷ s) 0 false false (at_end_lem (walk new_walk (c ∷ s)) h)

formed_lem : (c : ℕ) (s : Text) → Pattern (c ∷ s) → validate_pattern (c ∷ s) ≡ none
unfolding validate_pattern walk
formed_lem c s h = ap at_end (ap (walk new_walk) (sym (append-nil (c ∷ s))) ∙ walk-Pattern 0 [] h)

-- A pattern passes exactly where it is not empty and is a sequence of characters, escapes, classes
-- and groups: each closing parenthesis outside a class closes a group, and no group, class or
-- escape is left open.
pub validate_pattern-Pattern : (p : Text) → (validate_pattern p ≡ none) ↔ ((p ≢ []) × Pattern p)
unfolding validate_pattern
validate_pattern-Pattern [] = (λ h. ground (arith, h), λ h. elim (h.0 refl) [ ])
validate_pattern-Pattern (c ∷ s) =
    (λ h. (λ e. ground (arith, ap is_empty e), passes_lem c s h), λ h. formed_lem c s h.1)
