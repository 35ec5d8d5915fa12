-- ===== src/Dbt/Builtins.antt =====
-- crates/gcpx-dbt/src/preprocess.rs: the built-in `dbt_utils` macros. The walks over bytes look for
-- ASCII bytes only, so they are walks over characters. `to_uppercase` of the standard library follows
-- Unicode's tables and is a parameter.
pub mod Balance
use pulumi_rs_provider_gcpx.Base.{
  ℕ, zero, suc, ◌+◌, ◌-◌, ◌==◌, Bool, true, false, not, ◌&&◌, List, [], ◌∷◌, ◌++◌, if◌then◌else◌,
  Option, none, some, Text, codes, length, is_empty, strip_prefix, starts_with, ends_with_char,
  split_once, split_on, trim, trim_matches, map, filter, joined_by, text_eq, drop, ltb, leb,
}

-- Whether a walk is inside a quoted string, and there behind a backslash.
pub data Quote : Type 0 where
  outside inside escaped : Quote

abbrev pub in_string : ℕ → Quote
in_string c = if c == 39 then outside else if c == 92 then escaped else inside

-- What is in front of a cut.
abbrev pub cons_before : ℕ → Option (Text × Text) → Option (Text × Text)
cons_before c none = none
cons_before c (some p) = some (c ∷ p.0, p.1)

-- The `while` loop: `depth` open parentheses and `brackets` open brackets.
unfoldable pub balanced : Quote → ℕ → ℕ → Text → Option (Text × Text)
balanced q depth brackets [] = none
balanced escaped depth brackets (c ∷ s) = cons_before c (balanced inside depth brackets s)
balanced inside depth brackets (c ∷ s) = cons_before c (balanced (in_string c) depth brackets s)
balanced outside depth brackets (c ∷ s) =
    let opened = cons_before c (balanced outside (depth + 1) brackets s) in
    let closed = cons_before c (balanced outside (depth - 1) brackets s) in
    let bracket = cons_before c (balanced outside depth (brackets + 1) s) in
    let unbracket = cons_before c (balanced outside depth (brackets - 1) s) in
    let quoted = cons_before c (balanced inside depth brackets s) in
    let other = cons_before c (balanced outside depth brackets s) in
    if c == b'('
    then opened
    else if c == b')' && brackets == 0
    then (if leb depth 1 then some ([], s) else closed)
    else if c == b'['
    then bracket
    else if c == b']'
    then unbracket
    else if c == 39
    then quoted
    else other

unfoldable pub extract_balanced_args : Text → Option (Text × Text)
unfolding balanced
extract_balanced_args s = balanced outside 1 0 s

-- A character in front of the first piece.
abbrev pub cons_piece : ℕ → List Text → List Text
cons_piece c [] = (c ∷ []) ∷ []
cons_piece c (t ∷ ts) = (c ∷ t) ∷ ts

-- The pieces between commas at the top level. The last piece is left out where it is empty.
unfoldable pub pieces : Quote → ℕ → ℕ → Text → List Text
pieces q depth brackets [] = []
pieces escaped depth brackets (c ∷ s) = cons_piece c (pieces inside depth brackets s)
pieces inside depth brackets (c ∷ s) = cons_piece c (pieces (in_string c) depth brackets s)
pieces outside depth brackets (c ∷ s) =
    let opened = cons_piece c (pieces outside (depth + 1) brackets s) in
    let closed = cons_piece c (pieces outside (depth - 1) brackets s) in
    let bracket = cons_piece c (pieces outside depth (brackets + 1) s) in
    let unbracket = cons_piece c (pieces outside depth (brackets - 1) s) in
    let quoted = cons_piece c (pieces inside depth brackets s) in
    let other = cons_piece c (pieces outside depth brackets s) in
    let cut = [] ∷ pieces outside depth brackets s in
    if c == b'('
    then opened
    else if c == b')'
    then closed
    else if c == b'['
    then bracket
    else if c == b']'
    then unbracket
    else if c == 39
    then quoted
    else if c == b',' && depth == 0 && brackets == 0
    then cut
    else other

unfoldable pub split_top_level_args : Text → List Text
unfolding pieces
split_top_level_args s = pieces outside 0 0 s

abbrev pub unquoted : Text → Text
unquoted s = trim_matches 34 (trim_matches 39 s)

-- Without its last character.
unfoldable pub without_last : Text → Text
without_last [] = []
without_last (c ∷ []) = []
without_last (c ∷ d ∷ s) = c ∷ without_last (d ∷ s)

unfoldable pub parse_surrogate_key_cols : Text → List Text
unfolding trim trim_matches starts_with ends_with_char without_last split_on
parse_surrogate_key_cols s =
    let trimmed = trim s in
    let inner =
      if starts_with (b'[' ∷ []) trimmed && ends_with_char b']' trimmed
      then without_last (drop 1 trimmed)
      else trimmed in
    filter (λ c. not (is_empty c)) (map (λ c. trim (unquoted (trim c))) (split_on b',' inner))

abbrev pub coalesced : Text → Text
coalesced c =
    codes "COALESCE(CAST(" ++ (c ++ codes " AS STRING), '_dbt_utils_surrogate_key_null_')")

abbrev pub concat_expr : List Text → Text
concat_expr [] = codes "CONCAT()"
concat_expr (a ∷ []) = a
concat_expr (a ∷ b ∷ rest) = codes "CONCAT(" ++ (joined_by (codes ", ") (a ∷ b ∷ rest) ++ codes ")")

abbrev pub listagg : List Text → Option Text
listagg [] = none
listagg (m ∷ []) = none
listagg (m ∷ d ∷ []) =
    some (codes "STRING_AGG(" ++ (trim m ++ (codes ", " ++ (trim d ++ codes ")"))))
listagg (m ∷ d ∷ o ∷ rest) = some (
    codes "STRING_AGG("
    ++ (trim m ++ (codes ", " ++ (trim d ++ (codes " ORDER BY " ++ (trim o ++ codes ")"))))))

abbrev pub surrogate : List Text → Option Text
surrogate [] = none
surrogate (c ∷ cs) =
    some (codes "TO_HEX(MD5(" ++ (concat_expr (map coalesced (c ∷ cs)) ++ codes "))"))

-- The replacement, where there is one, in front of the text behind the arguments. Each name begins
-- differently, so what does not match one is tried against the next without effect.
abbrev pub expansion : Option Text → Text → Option (Text × Text)
expansion none after = none
expansion (some t) after = some (t, after)

abbrev pub with_args : (List Text → Option Text) → Text → Option (Text × Text)
with_args f rest = elim (extract_balanced_args rest) [
  | none ↦ none
  | some p ↦ expansion (f (split_top_level_args p.0)) p.1
]

unfoldable pub after_surrogate : Text → Option (Text × Text)
unfolding extract_balanced_args split_top_level_args trim strip_prefix
after_surrogate s = elim (strip_prefix (codes "listagg(") s) [
  | some rest ↦ with_args listagg rest
  | none ↦ none
]

unfoldable pub after_dateadd : Text → Option (Text × Text)
unfolding extract_balanced_args parse_surrogate_key_cols trim joined_by strip_prefix after_surrogate
after_dateadd s = elim (strip_prefix (codes "generate_surrogate_key(") s) [
  | some rest ↦ elim (extract_balanced_args rest) [
    | none ↦ none
    | some p ↦ expansion (surrogate (parse_surrogate_key_cols (trim p.0))) p.1
  ]
  | none ↦ after_surrogate s
]

abbrev pub put_front : Text → Option Text → Option Text
put_front front none = none
put_front front (some t) = some (front ++ t)

module _ (to_uppercase : Text → Text) where
  abbrev pub datediff : List Text → Option Text
  datediff (a ∷ b ∷ p ∷ []) = some (
      codes "TIMESTAMP_DIFF("
      ++ (trim b
          ++ (codes ", "
              ++ (trim a ++ (codes ", " ++ (to_uppercase (unquoted (trim p)) ++ codes ")"))))))
  datediff _ = none

  abbrev pub dateadd : List Text → Option Text
  dateadd (p ∷ n ∷ e ∷ []) = some (
      codes "TIMESTAMP_ADD("
      ++ (trim e
          ++ (codes ", INTERVAL "
              ++ (trim n ++ (codes " " ++ (to_uppercase (unquoted (trim p)) ++ codes ")"))))))
  dateadd _ = none

  unfoldable pub after_datediff : Text → Option (Text × Text)
  unfolding extract_balanced_args split_top_level_args trim trim_matches strip_prefix after_dateadd
  after_datediff s = elim (strip_prefix (codes "dateadd(") s) [
    | some rest ↦ with_args dateadd rest
    | none ↦ after_dateadd s
  ]

  unfoldable pub try_expand_builtin : Text → Option (Text × Text)
  unfolding extract_balanced_args split_top_level_args trim trim_matches strip_prefix after_datediff
  try_expand_builtin s = elim (strip_prefix (codes "current_timestamp()") s) [
    | some rest ↦ some (codes "CURRENT_TIMESTAMP()", rest)
    | none ↦ elim (strip_prefix (codes "datediff(") s) [
      | some rest ↦ with_args datediff rest
      | none ↦ after_datediff s
    ]
  ]

  -- The loop of one round; `none` says that the fuel ran out.
  unfoldable pub once_loop : ℕ → Text → Option Text
  unfolding split_once try_expand_builtin
  once_loop zero remaining = none
  once_loop (suc fuel) remaining = elim (split_once (codes "dbt_utils.") remaining) [
    | none ↦ some remaining
    | some found ↦
        (let kept = put_front (found.0 ++ codes "dbt_utils.") (once_loop fuel found.1) in
          elim (try_expand_builtin found.1) [
            | none ↦ kept
            | some e ↦ put_front (found.0 ++ e.0) (once_loop fuel e.1)
          ])
  ]

  unfoldable pub expand_builtins_once : Text → Option Text
  unfolding once_loop
  expand_builtins_once sql = once_loop (suc (length sql)) sql

  -- The rounds that are left.
  unfoldable pub expand_rounds : ℕ → Text → Option Text
  unfolding expand_builtins_once text_eq
  expand_rounds zero current = some current
  expand_rounds (suc rounds) current = elim (expand_builtins_once current) [
    | none ↦ none
    | some next ↦
        (let later = expand_rounds rounds next in if text_eq next current then some next else later)
  ]

  unfoldable pub expand_builtins : Text → Option Text
  unfolding expand_rounds
  expand_builtins sql = expand_rounds 10 sql
