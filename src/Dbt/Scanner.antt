-- ===== src/Dbt/Scanner.antt =====
-- crates/gcpx-dbt/src/scanner.rs: cutting a template into SQL and the texts between braces. Braces
-- are ASCII, so byte offsets next to them are positions of characters. `pos` is modelled by the
-- text behind it. A single brace always ends a segment, so the loop's `continue` is not reached.
-- A step first cuts a span off, and a template's span is then classified.
pub mod Complete
use pulumi_rs_provider_gcpx.Base.{
  ℕ, zero, suc, ◌+◌, Bool, true, false, List, [], ◌∷◌, ◌++◌, ◌==◌, ◌&&◌, if◌then◌else◌, Option,
  none, some, Text, codes, length, is_empty, map, any, leb, ◌||◌, lower, strip_prefix,
}

-- What a step cuts off: SQL, or the text between the braces of a template.
pub data Span : Type 0 where
  plain : Text → Span
  template : Text → Span

pub record DbtScanner : Type 0 where
  pub rest : Text
  pub is_done : Bool

unfoldable pub new_scanner : Text → DbtScanner
new_scanner input = record { rest = input; is_done = false }

-- The text before the first `{`, and the text from it on.
unfoldable pub until_brace : Text → Text × Text
until_brace [] = ([], [])
until_brace (c ∷ s) =
    let (before, from) = until_brace s in if c == b'{' then ([], c ∷ s) else (c ∷ before, from)

-- The text before the first `}}`, and the text behind it.
unfoldable pub find_closing_braces : Text → Option (Text × Text)
find_closing_braces [] = none
find_closing_braces (c ∷ []) = none
find_closing_braces (c ∷ d ∷ s) =
    let later = find_closing_braces (d ∷ s) in
    if c == b'}' && d == b'}'
    then some ([], s)
    else elim later [ none ↦ none | some p ↦ some (c ∷ p.0, p.1) ]

-- At `{{`: the SQL before it, else the template, else all that is left.
unfoldable pub at_template : Text → Text → Text → Option (Text × Text) → Option (Span × DbtScanner)
at_template whole before from closed =
    if is_empty before
    then (elim closed [
      | some p ↦ some (template p.0, record { rest = p.1; is_done = false })
      | none ↦ some (plain whole, record { rest = []; is_done = true })
    ])
    else some (plain before, record { rest = from; is_done = false })

unfoldable pub at_brace : Text → Text → Text → Option (Span × DbtScanner)
unfolding at_template
at_brace whole before [] =
    if is_empty whole then none else some (plain whole, record { rest = []; is_done = true })
at_brace whole before (c ∷ []) =
    some (plain (before ++ c ∷ []), record { rest = []; is_done = false })
at_brace whole before (c ∷ d ∷ s) =
    let found = at_template whole before (c ∷ d ∷ s) (find_closing_braces s) in
    if d == b'{'
    then found
    else some (plain (before ++ c ∷ []), record { rest = d ∷ s; is_done = false })

-- The span that a call of `next` gives, before it is classified.
unfoldable pub next_span : DbtScanner → Option (Span × DbtScanner)
unfolding at_brace
next_span scanner =
    let (before, from) = until_brace scanner.rest in
    if scanner.is_done then none else at_brace scanner.rest before from

-- All the spans; `none` when the fuel runs out.
unfoldable pub spans : ℕ → DbtScanner → Option (List Span)
unfolding next_span
spans zero scanner = none
spans (suc fuel) scanner = elim (next_span scanner) [
  | none ↦ some []
  | some p ↦ elim (spans fuel p.1) [ none ↦ none | some later ↦ some (p.0 ∷ later) ]
]

unfoldable pub scan_spans : Text → Option (List Span)
unfolding spans new_scanner
scan_spans input = spans (suc (suc (length input))) (new_scanner input)
