-- ===== src/Dbt/Templates.antt =====
-- crates/gcpx-dbt/src/scanner.rs: what a template's text stands for, and the scanner's segments.
use pulumi_rs_provider_gcpx.Base.{
  ℕ, List, [], ◌∷◌, ◌==◌, if◌then◌else◌, Option, none, some, Text, codes, is_empty, map, lower,
  strip_prefix, trim,
}
use pulumi_rs_provider_gcpx.Dbt.Scanner.{Span, plain, template, DbtScanner, next_span, scan_spans}

infixl 20 ◌>>=◌
abbrev ◌>>=◌ : {A B : Type 0} → Option A → (A → Option B) → Option B
none >>= f = none
some a >>= f = f a

pub data DbtSegment : Type 0 where
  sql : Text → DbtSegment
  config : Text → DbtSegment
  ref : Text → DbtSegment
  source : Text → Text → DbtSegment
  call : Text → Text → DbtSegment

unfoldable pub strip_prefix_ci : Text → Text → Option Text
strip_prefix_ci [] s = some s
strip_prefix_ci (p ∷ ps) [] = none
strip_prefix_ci (p ∷ ps) (c ∷ s) =
    let later = strip_prefix_ci ps s in if lower c == lower p then later else none

-- `strip_suffix` of one character.
unfoldable pub strip_last : ℕ → Text → Option Text
strip_last b [] = none
strip_last b (c ∷ []) = if c == b then some [] else none
strip_last b (c ∷ d ∷ s) = elim (strip_last b (d ∷ s)) [ none ↦ none | some t ↦ some (c ∷ t) ]

-- The texts before and behind the first `b`.
unfoldable pub split_at_char : ℕ → Text → Option (Text × Text)
split_at_char b [] = none
split_at_char b (c ∷ s) =
    let later = split_at_char b s in
    if c == b then some ([], s) else elim later [ none ↦ none | some p ↦ some (c ∷ p.0, p.1) ]

unfoldable pub extract_single_quoted : Text → Option Text
unfolding trim strip_last strip_prefix
extract_single_quoted s = elim (strip_prefix (39 ∷ []) (trim s)) [
  | none ↦ none
  | some t ↦ strip_last 39 t
]

-- The first of `splitn(2, ',')` is read before the second is looked for; both are needed.
unfoldable pub extract_two_quoted : Text → Option (Text × Text)
unfolding extract_single_quoted split_at_char trim
extract_two_quoted s = do
  parts ← split_at_char b',' s
  first ← extract_single_quoted (trim parts.0)
  second ← extract_single_quoted (trim parts.1)
  some (first, second)

-- The arguments of `name(...)`, where `name` is matched in any case.
unfoldable pub arguments_of : Text → Text → Option Text
unfolding strip_prefix_ci strip_last
arguments_of name inner = elim (strip_prefix_ci name inner) [
  | none ↦ none
  | some rest ↦ strip_last b')' rest
]

unfoldable pub as_call : Text → Option DbtSegment
unfolding split_at_char strip_last trim
as_call inner = do
  parts ← split_at_char b'(' inner
  args ← strip_last b')' parts.1
  if is_empty (trim parts.0) then none else some (call (trim parts.0) args)

unfoldable pub as_source : Text → Option DbtSegment
unfolding arguments_of extract_two_quoted
as_source inner = do
  args ← arguments_of (codes "source(") inner
  both ← extract_two_quoted args
  some (source both.0 both.1)

unfoldable pub as_ref : Text → Option DbtSegment
unfolding arguments_of extract_single_quoted
as_ref inner = do
  args ← arguments_of (codes "ref(") inner
  model ← extract_single_quoted args
  some (ref model)

unfoldable pub as_config : Text → Option DbtSegment
unfolding arguments_of
as_config inner = do args ← arguments_of (codes "config(") inner; some (config args)

abbrev pub or_else : Option DbtSegment → DbtSegment → DbtSegment
or_else none s = s
or_else (some t) s = t

unfoldable pub classify_template : Text → DbtSegment
unfolding as_config as_ref as_source as_call
classify_template inner =
    or_else (as_config inner)
      (or_else (as_ref inner) (or_else (as_source inner) (or_else (as_call inner) (sql inner))))

unfoldable pub segment_of : Span → DbtSegment
unfolding classify_template trim
segment_of (plain s) = sql s
segment_of (template s) = classify_template (trim s)

-- `Iterator::next`.
unfoldable pub next : DbtScanner → Option (DbtSegment × DbtScanner)
unfolding next_span segment_of
next scanner = elim (next_span scanner) [ none ↦ none | some p ↦ some (segment_of p.0, p.1) ]

-- The segments of a template, `next` called until it gives none.
unfoldable pub scan : Text → Option (List DbtSegment)
unfolding scan_spans segment_of
scan input = elim (scan_spans input) [ none ↦ none | some xs ↦ some (map segment_of xs) ]
