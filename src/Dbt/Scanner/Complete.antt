-- ===== src/Dbt/Scanner/Complete.antt =====
-- The scanner ends, and its spans make up the template.
use pulumi_rs_provider_gcpx.Base.{
  ℕ, zero, suc, ◌+◌, ◌<◌, ◌≡◌, refl, sym, ap, ◌∙◌, Bool, true, false, List, [], ◌∷◌, ◌++◌,
  append_assoc, append-nil, ◌==◌, ◌&&◌, if◌then◌else◌, Option, none, some, Text, codes, length,
  length-append, arith, Bool-cases, inl, inr,
}
use pulumi_rs_provider_gcpx.Dbt.Scanner.{
  Span, plain, template, DbtScanner, new_scanner, until_brace, find_closing_braces, at_template,
  at_brace, next_span, spans, scan_spans,
}

-- A segment as it stands in the template.
unfoldable pub text_of : Span → Text
text_of (plain s) = s
text_of (template s) = codes "{{" ++ (s ++ codes "}}")

unfoldable pub text_of_all : List Span → Text
unfolding text_of
text_of_all [] = []
text_of_all (x ∷ xs) = text_of x ++ text_of_all xs

-- What is left to scan.
abbrev left : DbtScanner → Text
left d = if d.is_done then [] else d.rest

-- Steps that are left at most.
abbrev steps : DbtScanner → ℕ
steps d = if d.is_done then 0 else suc (length d.rest)

until_brace_split : (s : Text) → (until_brace s).0 ++ (until_brace s).1 ≡ s
unfolding until_brace
until_brace_split [] = refl
until_brace_split (c ∷ s) = elim (Bool-cases (c == b'{')) [
  | inl h ↦ rw h refl
  | inr h ↦ rw h (ap (◌∷◌ c) (until_brace_split s))
]

-- What a step gives is what it takes off.
abbrev IsStep : DbtScanner → Option (Span × DbtScanner) → Type 0
IsStep d none = left d ≡ []
IsStep d (some (x, e)) = (text_of x ++ left e ≡ left d) × (steps e < steps d)

Closes : Text → Option (Text × Text) → Type 0
Closes s none = Unit
Closes s (some p) = p.0 ++ (codes "}}" ++ p.1) ≡ s

later-Closes :
    (c : ℕ) (t : Text) (r : Option (Text × Text))
    → Closes t r
    → Closes (c ∷ t) (elim r [ none ↦ none | some p ↦ some (c ∷ p.0, p.1) ])
unfolding Closes
later-Closes c t none h = tt
later-Closes c t (some p) h = ap (◌∷◌ c) h

both-Closes :
    (c d : ℕ) (s : Text) → (c == b'}' && d == b'}') ≡ true → Closes (c ∷ d ∷ s) (some ([], s))
unfolding Closes
both-Closes c d s h = ground (arith, h)

find_closing_braces-Closes : (s : Text) → Closes s (find_closing_braces s)
unfolding find_closing_braces
find_closing_braces-Closes [] = unfold Closes in tt
find_closing_braces-Closes (c ∷ []) = unfold Closes in tt
find_closing_braces-Closes (c ∷ d ∷ s) = elim (Bool-cases (c == b'}' && d == b'}')) [
  | inl h ↦ rw h (both-Closes c d s h)
  | inr h ↦
      rw h
        (later-Closes c (d ∷ s) (find_closing_braces (d ∷ s)) (find_closing_braces-Closes (d ∷ s)))
]

IsOpen : Text → Type 0
IsOpen [] = Unit
IsOpen (c ∷ s) = c ≡ b'{'

until_brace-IsOpen : (s : Text) → IsOpen (until_brace s).1
unfolding until_brace IsOpen
until_brace-IsOpen [] = tt
until_brace-IsOpen (c ∷ s) = elim (Bool-cases (c == b'{')) [
  | inl h ↦ rw h (ground (arith, h))
  | inr h ↦ rw h (until_brace-IsOpen s)
]

abbrev at_rest : Text → DbtScanner
at_rest s = record { rest = s; is_done = false }

length_parts : (p q s : Text) → p ++ q ≡ s → length p + length q ≡ length s
length_parts p q s h = sym (length-append p q) ∙ ap length h

at_template-IsStep :
    (s before t : Text) (c d : ℕ) (closed : Option (Text × Text))
    → c ≡ b'{'
    → d ≡ b'{'
    → before ++ (c ∷ d ∷ t) ≡ s
    → Closes t closed
    → IsStep (at_rest s) (at_template s before (c ∷ d ∷ t) closed)
unfolding at_template text_of Closes
at_template-IsStep s [] t c d none oc od e h = (append-nil s, omega arith)
at_template-IsStep s [] t c d (some p) oc od e h =
    let whole : b'{' ∷ b'{' ∷ t ≡ s = cc (oc, od, e) in
    (
      ap (λ q. b'{' ∷ b'{' ∷ q) (append_assoc p.0 (codes "}}") p.1 ∙ h) ∙ whole,
      omega (arith, length_parts p.0 (codes "}}" ++ p.1) t h, ap length whole),
    )
at_template-IsStep s (x ∷ b) t c d closed oc od e h =
    (e, omega (arith, length_parts (x ∷ b) (c ∷ d ∷ t) s e))

at_brace-IsStep :
    (s before from : Text)
    → before ++ from ≡ s
    → IsOpen from
    → IsStep (at_rest s) (at_brace s before from)
unfolding at_brace IsOpen text_of
at_brace-IsStep [] before [] e o = refl
at_brace-IsStep (x ∷ s) before [] e o = (append-nil (x ∷ s), omega arith)
at_brace-IsStep s before (c ∷ []) e o =
    (append-nil (before ++ c ∷ []) ∙ e, omega (arith, length_parts before (c ∷ []) s e))
at_brace-IsStep s before (c ∷ d ∷ t) e o = elim (Bool-cases (d == b'{')) [
  | inl h ↦ rw h (
      at_template-IsStep s before t c d (find_closing_braces t) o (ground (arith, h)) e
        (find_closing_braces-Closes t))
  | inr h ↦
      rw h (
        append_assoc before (c ∷ []) (d ∷ t) ∙ e,
        omega (arith, length_parts before (c ∷ d ∷ t) s e),
      )
]

next_span-IsStep :
    (s : Text) (b : Bool)
    → IsStep (record { rest = s; is_done = b }) (next_span (record { rest = s; is_done = b }))
unfolding next_span
next_span-IsStep s true = refl
next_span-IsStep s false =
    at_brace-IsStep s (until_brace s).0 (until_brace s).1 (until_brace_split s)
      (until_brace-IsOpen s)

-- What scanning with this fuel gives.
IsComplete : ℕ → DbtScanner → Type 0
IsComplete fuel d = (xs : List Span) × (spans fuel d ≡ some xs) × (text_of_all xs ≡ left d)

collected :
    (fuel : ℕ) (d : DbtScanner) (o : Option (Span × DbtScanner))
    → ((e : DbtScanner) → steps e < fuel → IsComplete fuel e)
    → IsStep d o
    → steps d < suc fuel
    → (xs : List Span) × ((elim o [
      | none ↦ some []
      | some p ↦ elim (spans fuel p.1) [ none ↦ none | some later ↦ some (p.0 ∷ later) ]
    ])
        ≡ some xs)
      × (text_of_all xs ≡ left d)
unfolding text_of_all IsComplete
collected fuel d none ih h l = ([], refl, sym h)
collected fuel d (some (x, e)) ih h l =
    let (xs, q, r) = ih e (omega (arith, h.1, l)) in
    (x ∷ xs, rw q refl, ap (λ t. text_of x ++ t) r ∙ h.0)

spans-IsComplete : (fuel : ℕ) (d : DbtScanner) → steps d < fuel → IsComplete fuel d
unfolding IsComplete spans
spans-IsComplete zero d h = elim h [ ]
spans-IsComplete (suc fuel) d h =
    collected fuel d (next_span d) (spans-IsComplete fuel) (next_span-IsStep d.rest d.is_done) h

-- Scanning a template ends within its fuel, and the spans written one after another, each
-- template between its braces, are the template that was scanned: no character is lost.
pub text_of_all-scan_spans :
    (input : Text) → (xs : List Span) × (scan_spans input ≡ some xs) × (text_of_all xs ≡ input)
unfolding scan_spans IsComplete new_scanner
text_of_all-scan_spans input =
    spans-IsComplete (suc (suc (length input))) (new_scanner input) (omega arith)
