-- ===== src/Agents/Checks.antt =====
-- crates/gcpx-agents/src/validate.rs: resource ids and patterns. A reason is structured data in place of
-- its text.
pub mod Ids
pub mod Grammar
pub mod Walks
pub mod Patterns
use pulumi_rs_provider_gcpx.Base.{
  ℕ, zero, suc, ◌+◌, ◌==◌, Bool, true, false, not, ◌||◌, ◌&&◌, List, [], ◌∷◌, Option, none, some,
  Text, byte_len, is_empty, all, is_digit, leb, ltb, if◌then◌else◌, Result, ok, err,
}

abbrev pub max_id_len : ℕ
max_id_len = 63

pub data IdFailure : Type 0 where
  too_long : ℕ → IdFailure
  bad_character bad_start : IdFailure

abbrev pub is_lowercase : ℕ → Bool
is_lowercase c = leb b'a' c && leb c b'z'

abbrev pub is_id_char : ℕ → Bool
is_id_char c = is_lowercase c || (is_digit c || (c == b'-' || c == b'_'))

abbrev pub starts_lowercase : Text → Bool
starts_lowercase [] = false
starts_lowercase (c ∷ s) = is_lowercase c

unfoldable pub invalid_resource_id : Text → Option IdFailure
unfolding byte_len
invalid_resource_id id =
    if is_empty id
    then none
    else if ltb max_id_len (byte_len id)
    then some (too_long (byte_len id))
    else if not (all is_id_char id)
    then some bad_character
    else if not (starts_lowercase id)
    then some bad_start
    else none

pub data PatternFailure : Type 0 where
  empty_pattern unopened trailing_backslash unterminated_class unclosed : PatternFailure

-- The variables of the loop. The depth stays below the length of the pattern.
pub record Walk : Type 0 where
  pub depth : ℕ
  pub is_escaped : Bool
  pub in_class : Bool

-- A closing parenthesis outside a class.
abbrev pub close_group : Walk → ℕ → Result Walk PatternFailure
close_group w zero = err unopened
close_group w (suc n) = ok (record w { depth = n })

-- One character.
unfoldable pub walk_char : Walk → ℕ → Result Walk PatternFailure
walk_char w c =
    if w.is_escaped
    then ok (record w { is_escaped = false })
    else if c == 92
    then ok (record w { is_escaped = true })
    else if c == b'[' && not w.in_class
    then ok (record w { in_class = true })
    else if c == b']' && w.in_class
    then ok (record w { in_class = false })
    else if c == b'(' && not w.in_class
    then ok (record w { depth = w.depth + 1 })
    else if c == b')' && not w.in_class
    then close_group w w.depth
    else ok w

abbrev pub and_walk :
    Result Walk PatternFailure → (Walk → Result Walk PatternFailure) → Result Walk PatternFailure
and_walk (ok w) next = next w
and_walk (err e) next = err e

unfoldable pub walk : Walk → Text → Result Walk PatternFailure
unfolding walk_char
walk w [] = ok w
walk w (c ∷ s) = and_walk (walk_char w c) (λ v. walk v s)

abbrev pub new_walk : Walk
new_walk = record { depth = 0; is_escaped = false; in_class = false }

-- What is wrong at the end, where anything is.
abbrev pub unfinished : Walk → Option PatternFailure
unfinished w =
    if w.is_escaped
    then some trailing_backslash
    else if w.in_class
    then some unterminated_class
    else if not (w.depth == 0)
    then some unclosed
    else none

abbrev pub at_end : Result Walk PatternFailure → Option PatternFailure
at_end (err e) = some e
at_end (ok w) = unfinished w

-- The error of `validate_pattern`, where there is one.
unfoldable pub validate_pattern : Text → Option PatternFailure
unfolding walk
validate_pattern [] = some empty_pattern
validate_pattern (c ∷ s) = at_end (walk new_walk (c ∷ s))
