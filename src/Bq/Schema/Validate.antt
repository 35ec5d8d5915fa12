-- ===== src/Bq/Schema/Validate.antt =====
-- crates/gcpx-bq/src/schema/validate.rs: the checks on a schema and on dropped columns. The
-- property of a failure is the path to what fails, and its reason a constructor for each message,
-- with the values that the message prints. The reserved-prefix test may panic, and so may a
-- validation.
pub mod Field
pub mod Accepted
pub mod Drops
use pulumi_rs_provider_gcpx.Base.{
  ℕ, zero, suc, ◌+◌, Bool, true, false, not, ◌&&◌, ◌||◌, List, [], ◌∷◌, ◌++◌, map, filter, any,
  is_empty, if◌then◌else◌, Option, none, some, Text, codes, text_eq, eq_ignore_case, Outcome, done,
  panicked, stuck, and_then,
}
use pulumi_rs_provider_gcpx.Bq.Schema.Types.{
  AlterAction, rename, insert, delete, FieldInfo, SchemaField, Fields, field, no_fields, nested,
  info, is_valid_name, is_valid_type, is_valid_mode, has_reserved_prefix, is_delete,
}

-- `schema[i].fields[j]…`: the indices from the outside in.
abbrev pub Place : Type 0
Place = List ℕ

pub data Part : Type 0 where
  name_part type_part mode_part alter_part alter_from_part rounding_mode_part fields_part : Part

pub data Property : Type 0 where
  schema : Property
  at : Place → Part → Property
  unique_keys_property partition_fields_property cluster_columns_property : Property

pub data Reason : Type 0 where
  no_field empty_type insert_required rename_on_create delete_on_create : Reason
  alter_from_missing alter_from_unexpected rounding_type rounding_value struct_empty : Reason
  duplicate invalid_name reserved invalid_type invalid_mode invalid_alter not_in_schema :
      Text → Reason
  unique_key partition_key cluster_column : Text → Reason

pub record CheckFailure : Type 0 where
  pub property : Property
  pub reason : Reason

-- `if test { failures.push(..) }`.
abbrev pub fail_if : Bool → Property → Reason → List CheckFailure
fail_if test p why = if test then (record { property = p; reason = why }) ∷ [] else []

-- Failures pushed one group after the other.
unfoldable pub joined : List (List CheckFailure) → List CheckFailure
joined [] = []
joined (xs ∷ rest) = xs ++ joined rest

abbrev pub is_some : {A : Type 0} → Option A → Bool
is_some none = false
is_some (some a) = true

unfoldable pub is_rename : Option AlterAction → Bool
is_rename (some rename) = true
is_rename (some insert) = false
is_rename (some delete) = false
is_rename none = false

unfoldable pub is_insert : Option AlterAction → Bool
is_insert (some insert) = true
is_insert (some rename) = false
is_insert (some delete) = false
is_insert none = false

unfoldable pub alter_failures : Place → FieldInfo → Bool → List CheckFailure
alter_failures at_ f is_create =
    elim f.alter_raw [
      | none ↦ []
      | some raw ↦ fail_if (not (is_some f.alter)) (at at_ alter_part) (invalid_alter raw)
    ]
    ++ (fail_if (is_create && is_rename f.alter) (at at_ alter_part) rename_on_create
        ++ (fail_if (is_create && is_delete f.alter) (at at_ alter_part) delete_on_create
            ++ (fail_if (is_rename f.alter && not (is_some f.alter_from)) (at at_ alter_from_part)
                  alter_from_missing
                ++ fail_if (is_some f.alter_from && not (is_rename f.alter))
                    (at at_ alter_from_part) alter_from_unexpected)))

unfoldable pub rounding_failures : Place → FieldInfo → Option Text → List CheckFailure
rounding_failures at_ f none = []
rounding_failures at_ f (some rm) =
    fail_if
      (not (
        text_eq f.canonical_type (codes "NUMERIC")
        || text_eq f.canonical_type (codes "BIGNUMERIC")))
      (at at_ rounding_mode_part) rounding_type
    ++ fail_if
        (not
          (text_eq rm (codes "ROUND_HALF_AWAY_FROM_ZERO") || text_eq rm (codes "ROUND_HALF_EVEN")))
        (at at_ rounding_mode_part) rounding_value

unfoldable pub type_failures : Place → FieldInfo → List CheckFailure
type_failures at_ f =
    if is_empty f.raw_type
    then fail_if true (at at_ type_part) empty_type
    else fail_if (not (is_valid_type f.raw_type)) (at at_ type_part) (invalid_type f.raw_type)

abbrev pub has_no_fields : Fields → Bool
has_no_fields no_fields = true
has_no_fields (nested f fs) = false

-- The checks of `validate_field` on the field itself, given what the reserved-prefix test said.
unfoldable pub own_failures : Place → FieldInfo → Bool → Fields → Bool → List CheckFailure
own_failures at_ f is_create fs is_reserved = joined (
    fail_if (not (is_valid_name f.name)) (at at_ name_part) (invalid_name f.name)
    ∷ fail_if is_reserved (at at_ name_part) (reserved f.name)
    ∷ type_failures at_ f
    ∷ fail_if (not (is_empty f.mode) && not (is_valid_mode f.mode)) (at at_ mode_part)
        (invalid_mode f.mode)
    ∷ fail_if (is_insert f.alter && eq_ignore_case f.mode (codes "REQUIRED")) (at at_ mode_part)
        insert_required
    ∷ alter_failures at_ f is_create
    ∷ rounding_failures at_ f f.rounding_mode
    ∷ fail_if (text_eq f.canonical_type (codes "STRUCT") && has_no_fields fs) (at at_ fields_part)
        struct_empty
    ∷ [])

-- Failures pushed behind those that are there.
abbrev pub then_push :
    Outcome (List CheckFailure) → Outcome (List CheckFailure) → Outcome (List CheckFailure)
then_push a b = and_then a (λ xs. and_then b (λ ys. done (xs ++ ys)))

-- The nested fields from index `j` on, each with its own nested fields.
unfoldable pub validate_nested : Place → ℕ → Fields → Bool → Outcome (List CheckFailure)
validate_nested at_ j no_fields is_create = done []
validate_nested at_ j (nested (field f gs) fs) is_create =
    let here = at_ ++ j ∷ [] in
    let deeper = validate_nested here 0 gs is_create in
    let later = validate_nested at_ (j + 1) fs is_create in
    then_push
      (then_push
        (and_then (has_reserved_prefix f.name) (λ r. done (own_failures here f is_create gs r)))
        deeper)
      later

unfoldable pub validate_field : Place → SchemaField → Bool → Outcome (List CheckFailure)
validate_field at_ (field f gs) is_create =
    then_push
      (and_then (has_reserved_prefix f.name) (λ r. done (own_failures at_ f is_create gs r)))
      (validate_nested at_ 0 gs is_create)

unfoldable pub validate_each : ℕ → List SchemaField → Bool → Outcome (List CheckFailure)
validate_each i [] is_create = done []
validate_each i (f ∷ fs) is_create =
    let later = validate_each (i + 1) fs is_create in
    then_push (validate_field (i ∷ []) f is_create) later

-- The names behind `name` that equal it up to case.
unfoldable pub duplicates_of : Text → List Text → List CheckFailure
duplicates_of name [] = []
duplicates_of name (other ∷ rest) =
    fail_if (eq_ignore_case name other) schema (duplicate other) ++ duplicates_of name rest

unfoldable pub duplicates : List Text → List CheckFailure
duplicates [] = []
duplicates (name ∷ rest) = duplicates_of name rest ++ duplicates rest

abbrev pub active_names : List SchemaField → List Text
active_names fs = map (λ f. (info f).name) (filter (λ f. not (is_delete (info f).alter)) fs)

unfoldable pub missing_failures : List SchemaField → ℕ → List SchemaField → List CheckFailure
missing_failures old i [] = []
missing_failures old i (f ∷ fs) =
    fail_if
      (not (is_some (info f).alter)
        && not (any (λ o. eq_ignore_case (info o).name (info f).name) old))
      (at (i ∷ []) name_part) (not_in_schema (info f).name)
    ++ missing_failures old (i + 1) fs

unfoldable pub against_old : Option (List SchemaField) → List SchemaField → List CheckFailure
against_old none fs = []
against_old (some old) fs = missing_failures old 0 fs

unfoldable pub validate :
    List SchemaField → Bool → Option (List SchemaField) → Outcome (List CheckFailure)
validate [] is_create old = done (fail_if true schema no_field)
validate (f ∷ fs) is_create old =
    then_push (validate_each 0 (f ∷ fs) is_create)
      (done (duplicates (active_names (f ∷ fs)) ++ against_old old (f ∷ fs)))

pub record ConsumerConstraints : Type 0 where
  pub unique_keys : List Text
  pub partition_fields : List Text
  pub cluster_columns : List Text

abbrev pub names_column : Text → List Text → Bool
names_column col = any (λ k. eq_ignore_case k col)

unfoldable pub validate_schema_drop_safety : List Text → ConsumerConstraints → List CheckFailure
validate_schema_drop_safety [] c = []
validate_schema_drop_safety (col ∷ cols) c =
    fail_if (names_column col c.unique_keys) unique_keys_property (unique_key col)
    ++ (fail_if (names_column col c.partition_fields) partition_fields_property (partition_key col)
        ++ (fail_if (names_column col c.cluster_columns) cluster_columns_property
              (cluster_column col)
            ++ validate_schema_drop_safety cols c))
