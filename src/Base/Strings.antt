-- ===== src/Base/Strings.antt =====
-- Searching, cutting and replacing in texts: the `str` methods that the program calls.
use Prim.Native.Nat.{ℕ, zero, suc, ◌+◌, ◌-◌, ◌≤◌}
use mathlib.Core.Path.{◌≡◌, refl, ap, sym, ◌∙◌}
use mathlib.Core.Logic.{inl, inr}
use mathlib.Core.List.{List, [], ◌∷◌, ◌++◌}
use mathlib.Core.Option.{Option, none, some}
use mathlib.Core.Bool.{Bool, false, ◌||◌, ◌&&◌}
use native.Mathlib.Omega.{arith}
use pulumi_rs_provider_gcpx.Base.Tests.{leb, ◌==◌, if◌then◌else◌, Bool-cases}
use pulumi_rs_provider_gcpx.Base.Lists.{any, length, is_empty, length-append}
use pulumi_rs_provider_gcpx.Base.Texts.{Text, strip_prefix, starts_with, has_char}

-- `char::is_whitespace`: Unicode's `White_Space`.
unfoldable pub is_whitespace : ℕ → Bool
is_whitespace c =
    (leb 9 c && leb c 13)
    || (leb 0x2000 c && leb c 0x200a)
    || any (λ d. c == d)
        (32 ∷ 0x85 ∷ 0xa0 ∷ 0x1680 ∷ 0x2028 ∷ 0x2029 ∷ 0x202f ∷ 0x205f ∷ 0x3000 ∷ [])

-- `trim_start_matches` and `trim_end_matches` of a test on characters.
unfoldable pub trim_start_with : (ℕ → Bool) → Text → Text
trim_start_with p [] = []
trim_start_with p (c ∷ s) = let later = trim_start_with p s in if p c then later else c ∷ s

unfoldable pub trim_end_with : (ℕ → Bool) → Text → Text
trim_end_with p [] = []
trim_end_with p (c ∷ s) =
    let later = trim_end_with p s in if is_empty later && p c then [] else c ∷ later

unfoldable pub trim_start : Text → Text
unfolding trim_start_with is_whitespace
trim_start s = trim_start_with is_whitespace s

unfoldable pub trim : Text → Text
unfolding trim_start_with trim_end_with is_whitespace
trim s = trim_end_with is_whitespace (trim_start_with is_whitespace s)

-- `trim_matches` of a character.
unfoldable pub trim_matches : ℕ → Text → Text
unfolding trim_start_with trim_end_with
trim_matches d s = trim_end_with (λ c. c == d) (trim_start_with (λ c. c == d) s)

unfoldable pub ends_with_char : ℕ → Text → Bool
ends_with_char d [] = false
ends_with_char d (c ∷ []) = c == d
ends_with_char d (c ∷ e ∷ s) = ends_with_char d (e ∷ s)

-- `find` and the slices around what it finds: the text before the first `p`, and that behind it.
abbrev pub first_split : ℕ → Option Text → Option (Text × Text) → Option (Text × Text)
first_split c (some after) later = some ([], after)
first_split c none none = none
first_split c none (some (before, after)) = some (c ∷ before, after)

abbrev pub empty_split : Option Text → Option (Text × Text)
empty_split none = none
empty_split (some after) = some ([], after)

unfoldable pub split_once : Text → Text → Option (Text × Text)
split_once p [] = empty_split (strip_prefix p [])
split_once p (c ∷ s) = first_split c (strip_prefix p (c ∷ s)) (split_once p s)

-- `replace`: every `p`, from the left, none of them overlapping. `skip` characters of a match are
-- still to be left out. The pattern is not empty.
unfoldable pub replace_from : ℕ → Text → Text → Text → Text
replace_from skip p by [] = []
replace_from (suc skip) p by (c ∷ s) = replace_from skip p by s
replace_from zero p by (c ∷ s) =
    let matched = by ++ replace_from (length p - 1) p by s in
    let other = c ∷ replace_from 0 p by s in if starts_with p (c ∷ s) then matched else other

unfoldable pub replace : Text → Text → Text → Text
unfolding replace_from starts_with
replace p by s = replace_from 0 p by s

-- `split` at a character.
abbrev pub onto_first : ℕ → List Text → List Text
onto_first c [] = (c ∷ []) ∷ []
onto_first c (s ∷ ss) = (c ∷ s) ∷ ss

unfoldable pub split_on : ℕ → Text → List Text
split_on d [] = [] ∷ []
split_on d (c ∷ s) = let later = split_on d s in if c == d then [] ∷ later else onto_first c later

-- `join`.
unfoldable pub joined_by : Text → List Text → Text
joined_by sep [] = []
joined_by sep (a ∷ []) = a
joined_by sep (a ∷ b ∷ rest) = a ++ (sep ++ joined_by sep (b ∷ rest))

-- What a search in `s` came to is a cut of `s`.
abbrev pub IsCut : Text → Text → Option (Text × Text) → Type 0
IsCut p s none = Unit
IsCut p s (some q) = q.0 ++ (p ++ q.1) ≡ s

abbrev pub IsPrefix : Text → Text → Option Text → Type 0
IsPrefix p s none = Unit
IsPrefix p s (some after) = p ++ after ≡ s

consed-IsPrefix :
    (c d : ℕ) (p s : Text) (o : Option Text)
    → IsPrefix p s o
    → IsPrefix (c ∷ p) (d ∷ s) (if c == d then o else none)
consed-IsPrefix c d p s none h = ground arith
consed-IsPrefix c d p s (some after) h = elim (Bool-cases (c == d)) [
  | inl e ↦ rw e (ground (arith, h))
  | inr e ↦ rw e tt
]

pub strip_prefix-IsPrefix : (p s : Text) → IsPrefix p s (strip_prefix p s)
unfolding strip_prefix
strip_prefix-IsPrefix [] s = refl
strip_prefix-IsPrefix (c ∷ p) [] = tt
strip_prefix-IsPrefix (c ∷ p) (d ∷ s) =
    consed-IsPrefix c d p s (strip_prefix p s) (strip_prefix-IsPrefix p s)

empty-IsCut : (p : Text) (o : Option Text) → IsPrefix p [] o → IsCut p [] (empty_split o)
empty-IsCut p none h = tt
empty-IsCut p (some after) h = h

first-IsCut :
    (c : ℕ) (p s : Text) (o : Option Text) (later : Option (Text × Text))
    → IsPrefix p (c ∷ s) o
    → IsCut p s later
    → IsCut p (c ∷ s) (first_split c o later)
first-IsCut c p s (some after) later h k = h
first-IsCut c p s none none h k = tt
first-IsCut c p s none (some q) h k = ap (◌∷◌ c) k

-- The text before a match, the match and the text behind it are the text that was searched.
pub split_once-IsCut : (p s : Text) → IsCut p s (split_once p s)
unfolding split_once
split_once-IsCut p [] = empty-IsCut p (strip_prefix p []) (strip_prefix-IsPrefix p [])
split_once-IsCut p (c ∷ s) =
    first-IsCut c p s (strip_prefix p (c ∷ s)) (split_once p s) (strip_prefix-IsPrefix p (c ∷ s))
      (split_once-IsCut p s)

strip_prefix_self : (p s : Text) → strip_prefix p (p ++ s) ≡ some s
unfolding strip_prefix
strip_prefix_self [] s = refl
strip_prefix_self (c ∷ p) s = ground (arith, strip_prefix_self p s)

other_char :
    (c d : ℕ) (a : Text) → has_char c (d ∷ a) ≡ false → ((c == d) ≡ false) × (has_char c a ≡ false)
other_char c d a h = ground arith

other_prefix : (c d : ℕ) (p s : Text) → (c == d) ≡ false → strip_prefix (c ∷ p) (d ∷ s) ≡ none
unfolding strip_prefix
other_prefix c d p s h = rw h refl

-- A pattern that starts with a character which the text before it does not hold is found there.
pub split_once_found :
    (c : ℕ) (p a b : Text)
    → has_char c a ≡ false
    → split_once (c ∷ p) (a ++ (c ∷ p ++ b)) ≡ some (a, b)
unfolding split_once
split_once_found c p [] b h = rw (strip_prefix_self (c ∷ p) b) refl
split_once_found c p (d ∷ a) b h =
    let (e, k) = other_char c d a h in
    rw (other_prefix c d p (a ++ (c ∷ p ++ b)) e, split_once_found c p a b k) refl

pub split_once_absent : (c : ℕ) (p a : Text) → has_char c a ≡ false → split_once (c ∷ p) a ≡ none
unfolding split_once strip_prefix
split_once_absent c p [] h = refl
split_once_absent c p (d ∷ a) h =
    let (e, k) = other_char c d a h in rw (e, split_once_absent c p a k) refl

pub trim_start_with_le : (p : ℕ → Bool) (s : Text) → length (trim_start_with p s) ≤ length s
unfolding trim_start_with
trim_start_with_le p [] = omega arith
trim_start_with_le p (c ∷ s) = ground (arith, trim_start_with_le p s)

pub trim_end_with_le : (p : ℕ → Bool) (s : Text) → length (trim_end_with p s) ≤ length s
unfolding trim_end_with
trim_end_with_le p [] = omega arith
trim_end_with_le p (c ∷ s) = ground (arith, trim_end_with_le p s)

pub trim_le : (s : Text) → length (trim s) ≤ length s
unfolding trim
trim_le s = omega (
  arith,
  trim_end_with_le is_whitespace (trim_start_with is_whitespace s),
  trim_start_with_le is_whitespace s,
)

-- The text behind a cut of `s` is at most `n` characters long.
abbrev pub IsShort : ℕ → Option (Text × Text) → Type 0
IsShort n none = Unit
IsShort n (some q) = length q.1 ≤ n

-- What is taken from the text behind a prefix is as short as from that text.
pub prefix-IsShort :
    (p s : Text) (o : Option Text) (next : Text → Option (Text × Text))
    (other : Option (Text × Text))
    → IsPrefix p s o
    → ((rest : Text) → length rest ≤ length s → IsShort (length s) (next rest))
    → IsShort (length s) other
    → IsShort (length s) (elim o [ some rest ↦ next rest | none ↦ other ])
prefix-IsShort p s none next other h k l = l
prefix-IsShort p s (some rest) next other h k l =
    k rest (omega (arith, length-append p rest, ap length h))

pub cut_shorter :
    (p s : Text) (q : Text × Text) → IsCut p s (some q) → length q.1 + length p ≤ length s
cut_shorter p s q h =
    omega (arith, sym (length-append q.0 (p ++ q.1)) ∙ ap length h, length-append p q.1)
