-- ===== src/Bq/Schema/Types.antt =====
-- crates/gcpx-bq/src/schema/types.rs: schema fields, type names, modes and column names.
pub mod Normal
pub mod Names
use pulumi_rs_provider_gcpx.Base.{
  ℕ, zero, suc, ◌+◌, ◌-◌, ◌≤◌, ◌<◌, Bool, true, false, not, ◌&&◌, ◌||◌, List, [], ◌∷◌, ◌++◌, leb,
  ltb, ◌==◌, if◌then◌else◌, all, is_empty, Option, none, some, Text, codes, text_eq, eq_ignore_case,
  utf8_len, byte_len, is_alphabetic, is_alphanumeric, Outcome, done, panicked, stuck,
}

pub data AlterAction : Type 0 where
  rename insert delete : AlterAction

unfoldable pub parse_alter : Text → Option AlterAction
unfolding eq_ignore_case
parse_alter s =
    if eq_ignore_case s (codes "rename")
    then some rename
    else if eq_ignore_case s (codes "insert")
    then some insert
    else if eq_ignore_case s (codes "delete")
    then some delete
    else none

unfoldable pub display_alter : AlterAction → Text
display_alter rename = codes "rename"
display_alter insert = codes "insert"
display_alter delete = codes "delete"

-- A `SchemaField` but for its nested fields.
pub record FieldInfo : Type 0 where
  pub name : Text
  pub raw_type : Text
  pub canonical_type : Text
  pub mode : Text
  pub description : Text
  pub alter : Option AlterAction
  pub alter_raw : Option Text
  pub alter_from : Option Text
  pub default_value_expression : Option Text
  pub rounding_mode : Option Text

-- A field, and the list of its nested fields.
mutual
  pub data SchemaField : Type 0 where
    field : FieldInfo → Fields → SchemaField

  pub data Fields : Type 0 where
    no_fields : Fields
    nested : SchemaField → Fields → Fields

abbrev pub info : SchemaField → FieldInfo
info (field i fs) = i

abbrev pub fields_of : SchemaField → Fields
fields_of (field i fs) = fs

pub data DdlOp : Type 0 where
  drop_column : Text → DdlOp
  rename_column : Text → Text → DdlOp
  add_column : Text → Text → Text → Text → Option Text → Option Text → DdlOp
  set_description : Text → Text → DdlOp

pub data OwnedDdlOp : Type 0 where
  owned_rename : Text → Text → OwnedDdlOp

pub record DiffResult : Type 0 where
  pub ops : List DdlOp
  pub owned_ops : List OwnedDdlOp
  pub replace_keys : List Text
  pub has_schema_changes : Bool

-- The arms of the `match` in `normalize_type`: the length that selects one, and its tests in
-- order, what is compared and what is returned.
abbrev pub arms : List (ℕ × List (Text × Text))
arms =
    (3, (codes "INT", codes "INT64") ∷ [])
    ∷ (
      4,
      (codes "BOOL", codes "BOOL")
          ∷ (codes "DATE", codes "DATE")
          ∷ (codes "TIME", codes "TIME")
          ∷ (codes "JSON", codes "JSON")
          ∷ [],
    )
    ∷ (
      5,
      (codes "INT64", codes "INT64")
          ∷ (codes "BYTES", codes "BYTES")
          ∷ (codes "FLOAT", codes "FLOAT64")
          ∷ [],
    )
    ∷ (
      6,
      (codes "STRING", codes "STRING")
          ∷ (codes "STRUCT", codes "STRUCT")
          ∷ (codes "RECORD", codes "STRUCT")
          ∷ (codes "BIGINT", codes "INT64")
          ∷ [],
    )
    ∷ (
      7,
      (codes "FLOAT64", codes "FLOAT64")
          ∷ (codes "NUMERIC", codes "NUMERIC")
          ∷ (codes "INTEGER", codes "INT64")
          ∷ (codes "BOOLEAN", codes "BOOL")
          ∷ (codes "DECIMAL", codes "NUMERIC")
          ∷ (codes "BYTEINT", codes "INT64")
          ∷ [],
    )
    ∷ (8, (codes "DATETIME", codes "DATETIME") ∷ (codes "SMALLINT", codes "INT64") ∷ [])
    ∷ (9, (codes "TIMESTAMP", codes "TIMESTAMP") ∷ (codes "GEOGRAPHY", codes "GEOGRAPHY") ∷ [])
    ∷ (10, (codes "BIGNUMERIC", codes "BIGNUMERIC") ∷ (codes "BIGDECIMAL", codes "BIGNUMERIC") ∷ [])
    ∷ []

unfoldable pub select_arm : ℕ → List (ℕ × List (Text × Text)) → List (Text × Text)
select_arm len [] = []
select_arm len ((n, tests) ∷ rest) =
    let later = select_arm len rest in if len == n then tests else later

-- The first test that passes, or what comes behind the `match`.
unfoldable pub first_match : Text → List (Text × Text) → Text → Text
first_match t [] otherwise = otherwise
first_match t ((alias, canonical) ∷ rest) otherwise =
    let later = first_match t rest otherwise in if eq_ignore_case t alias then canonical else later

unfoldable pub normalize_type : Text → Text
normalize_type t =
    first_match t (select_arm (byte_len t) arms)
      (if eq_ignore_case t (codes "TINYINT") then codes "INT64" else codes "UNKNOWN")

unfoldable pub is_valid_type : Text → Bool
is_valid_type t = not (text_eq (normalize_type t) (codes "UNKNOWN"))

unfoldable pub is_valid_mode : Text → Bool
is_valid_mode m =
    eq_ignore_case m (codes "NULLABLE")
    || eq_ignore_case m (codes "REQUIRED")
    || eq_ignore_case m (codes "REPEATED")

unfoldable pub is_valid_name : Text → Bool
is_valid_name [] = false
is_valid_name (first ∷ chars) =
    if ltb 300 (byte_len (first ∷ chars))
    then false
    else if not (is_alphabetic first) && not (first == b'_')
    then false
    else all (λ c. is_alphanumeric c || c == b'_') chars

abbrev pub reserved_prefixes : List Text
reserved_prefixes =
    codes "_TABLE_"
    ∷ codes "_FILE_"
    ∷ codes "_PARTITION"
    ∷ codes "_ROW_TIMESTAMP"
    ∷ codes "_COLIDENTIFIER"
    ∷ []

-- `name[..n]` for an `n` of at most the text's bytes; `none` where byte `n` stands inside a
-- character, at which the slice panics.
unfoldable pub byte_prefix : ℕ → Text → Option Text
byte_prefix zero s = some []
byte_prefix (suc n) [] = none
byte_prefix (suc n) (c ∷ s) =
    let rest : Option Text = elim (byte_prefix (suc n - utf8_len c) s) [
      | none ↦ none
      | some q ↦ some (c ∷ q)
    ] in
    if leb (utf8_len c) (suc n) then rest else none

pub reserved_from : List Text → Text → Outcome Bool
reserved_from [] name = done false
reserved_from (p ∷ ps) name =
    let later = reserved_from ps name in
    if leb (byte_len p) (byte_len name)
    then elim (byte_prefix (byte_len p) name) [
      | none ↦ panicked
      | some q ↦ if eq_ignore_case q p then done true else later
    ]
    else later

unfoldable pub has_reserved_prefix : Text → Outcome Bool
unfolding reserved_from byte_prefix
has_reserved_prefix name = reserved_from reserved_prefixes name

unfoldable pub is_delete : Option AlterAction → Bool
is_delete (some delete) = true
is_delete (some rename) = false
is_delete (some insert) = false
is_delete none = false

abbrev pub clean_info : FieldInfo → FieldInfo
clean_info i = record i { alter = none; alter_raw = none; alter_from = none }

-- `clean_fields` on nested fields.
unfoldable pub clean_nested : Fields → Fields
clean_nested no_fields = no_fields
clean_nested (nested (field i gs) fs) =
    let rest = clean_nested fs in
    let kept = nested (field (clean_info i) (clean_nested gs)) rest in
    if is_delete i.alter then rest else kept

unfoldable pub clean_fields : List SchemaField → List SchemaField
unfolding clean_nested
clean_fields [] = []
clean_fields (field i gs ∷ fs) =
    let rest = clean_fields fs in
    if is_delete i.alter then rest else field (clean_info i) (clean_nested gs) ∷ rest
