-- ===== src/Base/Texts.antt =====
-- Texts as lists of characters (Unicode scalar values), and the string functions that the
-- program calls on them.
use Prim.Native.Nat.{ℕ, ◌+◌}
use Prim.Native.Char.{code}
use Prim.Native.String.{String}
use mathlib.Core.Path.{◌≡◌, refl, sym, ◌∙◌}
use mathlib.Core.Logic.{◌↔◌}
use mathlib.Core.List.{List, [], ◌∷◌, ◌++◌, map}
use mathlib.Core.Option.{Option, none, some}
use mathlib.Core.Bool.{Bool, true, false, ◌||◌, ◌&&◌}
use native.Mathlib.Omega.{arith}
use pulumi_rs_provider_gcpx.Base.Tests.{ltb, leb, ◌==◌, if◌then◌else◌}
use pulumi_rs_provider_gcpx.Base.Lists.{any}

abbrev pub Text : Type 0
Text = List ℕ

-- The characters of a literal.
abbrev pub codes : String → Text
codes String.[] = []
codes (String.◌∷◌ c s) = code c ∷ codes s

-- `==` on texts.
unfoldable pub text_eq : Text → Text → Bool
text_eq [] [] = true
text_eq (a ∷ s) (b ∷ t) = (a == b) && text_eq s t
text_eq _ _ = false

pub text_eq_iff : (s t : Text) → (text_eq s t ≡ true) ↔ (s ≡ t)
unfolding text_eq
text_eq_iff (a ∷ s) (b ∷ t) = ground (arith, text_eq_iff s t)
text_eq_iff _ _ = ground arith

-- `u8::to_ascii_lowercase`, through which ASCII case is ignored.
abbrev pub lower : ℕ → ℕ
lower c = if leb b'A' c && leb c b'Z' then c + 32 else c

-- `str::eq_ignore_ascii_case`.
unfoldable pub eq_ignore_case : Text → Text → Bool
eq_ignore_case [] [] = true
eq_ignore_case (a ∷ s) (b ∷ t) = (lower a == lower b) && eq_ignore_case s t
eq_ignore_case _ _ = false

pub eq_ignore_case_iff : (s t : Text) → (eq_ignore_case s t ≡ true) ↔ (map lower s ≡ map lower t)
unfolding eq_ignore_case
eq_ignore_case_iff (a ∷ s) (b ∷ t) = ground (arith, eq_ignore_case_iff s t)
eq_ignore_case_iff _ _ = ground arith

pub eq_ignore_case_self : (s : Text) → eq_ignore_case s s ≡ true
eq_ignore_case_self s = (eq_ignore_case_iff s s).1 refl

pub eq_ignore_case_sym : (s t : Text) → eq_ignore_case s t ≡ true → eq_ignore_case t s ≡ true
eq_ignore_case_sym s t h = (eq_ignore_case_iff t s).1 (sym ((eq_ignore_case_iff s t).0 h))

pub eq_ignore_case_trans :
    (s t u : Text)
    → eq_ignore_case s t ≡ true
    → eq_ignore_case t u ≡ true
    → eq_ignore_case s u ≡ true
eq_ignore_case_trans s t u h k =
    (eq_ignore_case_iff s u).1 ((eq_ignore_case_iff s t).0 h ∙ (eq_ignore_case_iff t u).0 k)

-- `str::len`: how many bytes the characters take in UTF-8.
abbrev pub utf8_len : ℕ → ℕ
utf8_len c = if ltb c 0x80 then 1 else if ltb c 0x800 then 2 else if ltb c 0x10000 then 3 else 4

unfoldable pub byte_len : Text → ℕ
byte_len [] = 0
byte_len (c ∷ s) = utf8_len c + byte_len s

pub byte_len-append : (s t : Text) → byte_len (s ++ t) ≡ byte_len s + byte_len t
unfolding byte_len
byte_len-append [] t = omega arith
byte_len-append (c ∷ s) t = omega (arith, byte_len-append s t)

-- `strip_prefix` and `starts_with` of a literal.
unfoldable pub strip_prefix : Text → Text → Option Text
strip_prefix [] s = some s
strip_prefix (p ∷ ps) [] = none
strip_prefix (p ∷ ps) (c ∷ s) = let rest = strip_prefix ps s in if p == c then rest else none

unfoldable pub starts_with : Text → Text → Bool
starts_with [] s = true
starts_with (p ∷ ps) [] = false
starts_with (p ∷ ps) (c ∷ s) = (p == c) && starts_with ps s

-- `contains` of a literal.
unfoldable pub contains : Text → Text → Bool
unfolding starts_with
contains p [] = starts_with p []
contains p (c ∷ s) = starts_with p (c ∷ s) || contains p s

-- `contains` of a character.
abbrev pub has_char : ℕ → Text → Bool
has_char c = any (λ d. c == d)

abbrev pub is_digit : ℕ → Bool
is_digit c = leb b'0' c && leb c b'9'

abbrev pub is_alphabetic : ℕ → Bool
is_alphabetic c = (leb b'A' c && leb c b'Z') || (leb b'a' c && leb c b'z')

abbrev pub is_alphanumeric : ℕ → Bool
is_alphanumeric c = is_alphabetic c || is_digit c

-- `u8::is_ascii_whitespace`: space, tab, line feed, form feed, carriage return.
abbrev pub is_ascii_space : ℕ → Bool
is_ascii_space c = c == 32 || c == 9 || c == 10 || c == 12 || c == 13
