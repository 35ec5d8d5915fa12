-- ===== src/Agents/Checks/Grammar.antt =====
-- Well-formed patterns, as a grammar (crates/gcpx-agents/src/validate.rs).
use pulumi_rs_provider_gcpx.Base.{ℕ, ◌≢◌, [], ◌∷◌, ◌++◌, Text}

-- The text of a class behind its opening bracket, up to and without the closing one: a backslash
-- takes the next character with it.
pub data Class : Text → Type 0 where
  class_end : Class []
  class_char : {s : Text} (c : ℕ) → c ≢ 92 → c ≢ b']' → Class s → Class (c ∷ s)
  class_escape : {s : Text} (c : ℕ) → Class s → Class (92 ∷ c ∷ s)

-- A sequence of characters, escapes, classes and groups, each group a sequence again.
pub data Pattern : Text → Type 0 where
  pattern_end : Pattern []
  char : {s : Text} (c : ℕ) → c ≢ 92 → c ≢ b'[' → c ≢ b'(' → c ≢ b')' → Pattern s → Pattern (c ∷ s)
  escape : {s : Text} (c : ℕ) → Pattern s → Pattern (92 ∷ c ∷ s)
  class : {a s : Text} → Class a → Pattern s → Pattern (b'[' ∷ (a ++ b']' ∷ s))
  group : {a s : Text} → Pattern a → Pattern s → Pattern (b'(' ∷ (a ++ b')' ∷ s))
