-- ===== src/Agents/Checks/Walks.antt =====
-- What the loop of `validate_pattern` does on a well-formed text (crates/gcpx-agents/src/validate.rs).
use pulumi_rs_provider_gcpx.Base.{
  ℕ, suc, ◌≡◌, ◌≢◌, refl, ◌∙◌, ap, true, false, ◌∷◌, ◌++◌, append_assoc, Text, arith, ok,
}
use pulumi_rs_provider_gcpx.Agents.Checks.{Walk, walk_char, and_walk, walk}
use pulumi_rs_provider_gcpx.Agents.Checks.Grammar.{
  Class, class_end, class_char, class_escape, Pattern, pattern_end, char, escape, class, group,
}

abbrev pub outside : ℕ → Walk
outside d = record { depth = d; is_escaped = false; in_class = false }

abbrev pub inside : ℕ → Walk
inside d = record { depth = d; is_escaped = false; in_class = true }

-- One character in each of the states.
module _ (d c : ℕ) where
  pub step_inside : c ≢ 92 → c ≢ b']' → walk_char (inside d) c ≡ ok (inside d)
  unfolding walk_char
  step_inside h k = ground (arith, h, k)

  pub step_outside :
      c ≢ 92 → c ≢ b'[' → c ≢ b'(' → c ≢ b')' → walk_char (outside d) c ≡ ok (outside d)
  unfolding walk_char
  step_outside h k l m = ground (arith, h, k, l, m)

pub step_open : (d : ℕ) → walk_char (outside d) b'(' ≡ ok (outside (suc d))
unfolding walk_char
step_open d = ap (λ n. ok (outside n)) (omega arith)

-- A class, read from inside to its closing bracket.
walk-Class :
    (d : ℕ) {a : Text} (s : Text) → Class a → walk (inside d) (a ++ b']' ∷ s) ≡ walk (outside d) s
unfolding walk walk_char
walk-Class d s class_end = refl
walk-Class d s (class_char {s = a} c h k more) =
    ap (λ r. and_walk r (λ v. walk v (a ++ b']' ∷ s))) (step_inside d c h k) ∙ walk-Class d s more
walk-Class d s (class_escape c more) = walk-Class d s more

-- A well-formed pattern leaves no trace on what is behind it.
pub walk-Pattern :
    (d : ℕ) {p : Text} (s : Text) → Pattern p → walk (outside d) (p ++ s) ≡ walk (outside d) s
unfolding walk walk_char
walk-Pattern d s pattern_end = refl
walk-Pattern d s (char {s = p} c h k l m more) =
    ap (λ r. and_walk r (λ v. walk v (p ++ s))) (step_outside d c h k l m) ∙ walk-Pattern d s more
walk-Pattern d s (escape c more) = walk-Pattern d s more
walk-Pattern d s (class {a = a} {s = p} body more) =
    ap (walk (inside d)) (append_assoc a (b']' ∷ p) s)
    ∙ walk-Class d (p ++ s) body
    ∙ walk-Pattern d s more
walk-Pattern d s (group {a = a} {s = p} body more) =
    ap (λ r. and_walk r (λ v. walk v ((a ++ b')' ∷ p) ++ s))) (step_open d)
    ∙ ap (walk (outside (suc d))) (append_assoc a (b')' ∷ p) s)
    ∙ walk-Pattern (suc d) (b')' ∷ (p ++ s)) body
    ∙ walk-Pattern d s more
