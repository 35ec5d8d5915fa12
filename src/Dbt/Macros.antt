-- ===== src/Dbt/Macros.antt =====
-- crates/gcpx-dbt/src/macros.rs: the calls of declared macros in a model's SQL. A loop over the rest
-- of the text runs on fuel, and `none` says that it ran out.
pub mod Arguments
pub mod Rounds
pub mod Settled
use pulumi_rs_provider_gcpx.Base.{
  ℕ, zero, suc, ◌==◌, Bool, true, false, not, ◌||◌, List, [], ◌∷◌, ◌++◌, if◌then◌else◌, Option,
  none, some, Text, codes, length, is_empty, byte_len, strip_prefix, split_once, trim,
  trim_start_with, replace, ltb, map_get, Result, ok, err,
}
use pulumi_rs_provider_gcpx.Dbt.Templates.{DbtSegment, config, ref, source, call, scan}

pub record MacroDef : Type 0 where
  pub args : List Text
  pub sql : Text

pub data MacroError : Type 0 where
  unknown : Text → MacroError
  arg_count : Text → ℕ → ℕ → MacroError
  recursion_limit : ℕ → MacroError
  input_too_large : ℕ → ℕ → MacroError

abbrev pub max_input_size : ℕ
max_input_size = 1048576

abbrev pub max_iterations : ℕ
max_iterations = 10

abbrev pub push : Text → Option (List Text) → Option (List Text)
push a none = none
push a (some rest) = some (a ∷ rest)

-- One argument of `remaining`, trimmed, and those that `later` reads from the text behind it.
unfoldable pub one_arg : (Text → Option (List Text)) → Text → Option (List Text)
unfolding strip_prefix split_once trim trim_start_with
one_arg later remaining = elim (strip_prefix (39 ∷ []) remaining) [
  | some rest ↦ elim (split_once (39 ∷ []) rest) [
    | some found ↦ push found.0 (later (trim (trim_start_with (λ c. c == b',') found.1)))
    | none ↦ some (remaining ∷ [])
  ]
  | none ↦ elim (split_once (b',' ∷ []) remaining) [
    | some found ↦ push (trim found.0) (later found.1)
    | none ↦ some (trim remaining ∷ [])
  ]
]

-- The `while` loop.
unfoldable pub args_loop : ℕ → Text → Option (List Text)
unfolding one_arg trim
args_loop zero remaining = none
args_loop (suc fuel) [] = some []
args_loop (suc fuel) (c ∷ s) = one_arg (args_loop fuel) (trim (c ∷ s))

unfoldable pub parse_call_args : Text → Option (List Text)
unfolding args_loop trim strip_prefix
parse_call_args raw_args =
    let trimmed = trim raw_args in
    if is_empty trimmed then some [] else (elim (strip_prefix (39 ∷ []) trimmed) [
      | some rest ↦ args_loop (suc (length trimmed)) trimmed
      | none ↦ some (trimmed ∷ [])
    ])

unfoldable pub substitute_args : Text → List Text → List Text → Text
unfolding replace
substitute_args sql [] values = sql
substitute_args sql (name ∷ names) [] = sql
substitute_args sql (name ∷ names) (value ∷ values) =
    let spaced = replace (codes "{{ " ++ (name ++ codes " }}")) value sql in
    substitute_args (replace (codes "{{" ++ (name ++ codes "}}")) value spaced) names values

-- A segment that is no call of a declared macro is written out again.
abbrev pub rewritten : DbtSegment → Text
rewritten (DbtSegment.sql s) = s
rewritten (config raw_args) = codes "{{ config(" ++ (raw_args ++ codes ") }}")
rewritten (ref model) = codes "{{ ref('" ++ (model ++ codes "') }}")
rewritten (source s table) =
    codes "{{ source('" ++ (s ++ (codes "', '" ++ (table ++ codes "') }}")))
rewritten (call name raw_args) = codes "{{ " ++ (name ++ (b'(' ∷ (raw_args ++ codes ") }}")))

-- The text of a segment, and whether it is an expansion.
abbrev pub Piece : Type 0
Piece = Option (Result (Text × Bool) MacroError)

abbrev pub applied : Text → MacroDef → Option (List Text) → Piece
applied name d none = none
applied name d (some values) =
    if length values == length d.args
    then some (ok (substitute_args d.sql d.args values, true))
    else some (err (arg_count name (length d.args) (length values)))

module _ (macros : List (Text × MacroDef)) where
  unfoldable pub expand_segment : DbtSegment → Piece
  unfolding map_get parse_call_args substitute_args
  expand_segment (call name raw_args) = elim (map_get name macros) [
    | some d ↦ applied name d (parse_call_args raw_args)
    | none ↦ some (ok (rewritten (call name raw_args), false))
  ]
  expand_segment (DbtSegment.sql s) = some (ok (s, false))
  expand_segment (config raw_args) = some (ok (rewritten (config raw_args), false))
  expand_segment (ref model) = some (ok (rewritten (ref model), false))
  expand_segment (source s table) = some (ok (rewritten (source s table), false))

-- The first error ends the round.
abbrev pub and_next : Piece → Piece → Piece
and_next none later = none
and_next (some (err e)) later = some (err e)
and_next (some (ok p)) none = none
and_next (some (ok p)) (some (err e)) = some (err e)
and_next (some (ok p)) (some (ok q)) = some (ok (p.0 ++ q.0, p.1 || q.1))

module _ (macros : List (Text × MacroDef)) where
  -- The `for` loop over the segments.
  unfoldable pub expand_segments : List DbtSegment → Piece
  unfolding expand_segment
  expand_segments [] = some (ok ([], false))
  expand_segments (s ∷ rest) = and_next (expand_segment macros s) (expand_segments rest)

  unfoldable pub expand_round : Text → Piece
  unfolding scan expand_segments
  expand_round current = elim (scan current) [
    | none ↦ none
    | some segments ↦ expand_segments segments
  ]

-- What follows a round, where `later` continues with the text it came to.
abbrev pub after_round :
    ℕ → Piece → (Text → Option (Result Text MacroError)) → Option (Result Text MacroError)
after_round left none later = none
after_round left (some (err e)) later = some (err e)
after_round left (some (ok p)) later =
    if not p.1
    then some (ok p.0)
    else if ltb max_input_size (byte_len p.0)
    then some (err (input_too_large (byte_len p.0) max_input_size))
    else if left == 0
    then some (err (recursion_limit max_iterations))
    else later p.0

module _ (macros : List (Text × MacroDef)) where
  -- The iterations that are left.
  unfoldable pub expand_iterations : ℕ → Text → Option (Result Text MacroError)
  unfolding expand_round byte_len
  expand_iterations zero current = some (ok current)
  expand_iterations (suc left) current =
      after_round left (expand_round macros current) (λ next. expand_iterations left next)

unfoldable pub expand_macros : Text → List (Text × MacroDef) → Option (Result Text MacroError)
unfolding expand_iterations byte_len
expand_macros sql macros =
    if ltb max_input_size (byte_len sql)
    then some (err (input_too_large (byte_len sql) max_input_size))
    else if is_empty macros
    then some (ok sql)
    else expand_iterations macros max_iterations sql
