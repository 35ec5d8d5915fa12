-- ===== src/Dbt/Contract/Met.antt =====
-- When a model meets its schema (crates/gcpx-dbt/src/validate.rs).
use pulumi_rs_provider_gcpx.Base.{
  ◌≡◌, refl, ◌∙◌, Bool, true, false, ◌&&◌, ◌||◌, List, [], ◌∷◌, Option, none, some, Text, text_eq,
  eq_ignore_case, is_empty, is_empty-append, all, arith, Bool-cases, inl, inr,
}
use pulumi_rs_provider_gcpx.Bq.Schema.Types.{normalize_type}
use pulumi_rs_provider_gcpx.Bq.Schema.Drift.{BqField, live_info, find_live}
use pulumi_rs_provider_gcpx.Dbt.Ddl.{PartitionConfig}
use pulumi_rs_provider_gcpx.Dbt.Config.{ModelConfig}
use pulumi_rs_provider_gcpx.Dbt.Contract.{
  SchemaError, has_column, pushed, absent, given, config_errors, may_be_absent, undeclared,
  unproduced, type_error, contract_errors, validate_model_schema, unknown_key,
  unknown_composite_key, unknown_partition_field, unknown_cluster_column, available_columns,
}

abbrev pub all_of {ℓ} : {A : Type ℓ} → (A → Bool) → Option A → Bool
all_of f none = true
all_of f (some a) = f a

is_empty-absent : (b : Bool) (e : SchemaError) → is_empty (absent b e) ≡ b
is_empty-absent true e = refl
is_empty-absent false e = refl

is_empty-pushed {ℓ} :
    {A : Type ℓ} (f : A → List SchemaError) (p : A → Bool)
    → ((a : A) → is_empty (f a) ≡ p a)
    → (xs : List A) → is_empty (pushed f xs) ≡ all p xs
is_empty-pushed f p h [] = refl
is_empty-pushed f p h (a ∷ xs) =
    is_empty-append (f a) (pushed f xs) ∙ rw (h a, is_empty-pushed f p h xs) refl

is_empty-given {ℓ} :
    {A : Type ℓ} (f : A → List SchemaError) (p : A → Bool)
    → ((a : A) → is_empty (f a) ≡ p a)
    → (o : Option A) → is_empty (given f o) ≡ all_of p o
is_empty-given f p h none = refl
is_empty-given f p h (some a) = h a

module _ (columns : List BqField) where
  -- The columns that the configuration names are among the model's.
  abbrev pub names_columns : ModelConfig → Bool
  names_columns config =
      all_of (has_column columns) config.unique_key
      && (all_of (all (has_column columns)) config.unique_key_list
          && (all_of (λ p. has_column columns p.field) config.partition_by
              && all_of (all (has_column columns)) config.cluster_by))

  is_empty-config_errors :
      (config : ModelConfig) → is_empty (config_errors columns config) ≡ names_columns config
  unfolding config_errors
  is_empty-config_errors config =
      let av = available_columns columns in
      let key =
        is_empty-given (λ k. absent (has_column columns k) (unknown_key k av)) (has_column columns)
          (λ k. is_empty-absent (has_column columns k) (unknown_key k av)) config.unique_key in
      let keys =
        is_empty-given (pushed (λ k. absent (has_column columns k) (unknown_composite_key k av)))
          (all (has_column columns))
          (is_empty-pushed _ (has_column columns)
            (λ k. is_empty-absent (has_column columns k) (unknown_composite_key k av)))
          config.unique_key_list in
      let part =
        is_empty-given
          (λ (p : PartitionConfig).
            absent (has_column columns p.field) (unknown_partition_field p.field av))
          (λ p. has_column columns p.field)
          (λ p. is_empty-absent (has_column columns p.field) (unknown_partition_field p.field av))
          config.partition_by in
      let cols =
        is_empty-given (pushed (λ k. absent (has_column columns k) (unknown_cluster_column k av)))
          (all (has_column columns))
          (is_empty-pushed _ (has_column columns)
            (λ k. is_empty-absent (has_column columns k) (unknown_cluster_column k av)))
          config.cluster_by in
      simp (config_errors, is_empty-append, key, keys, part, cols)

-- The column is declared, with a type that normalizes to the same name.
abbrev pub declared_as : BqField → Option BqField → Bool
declared_as mc none = false
declared_as mc (some sf) =
    text_eq (normalize_type (live_info mc).field_type) (normalize_type (live_info sf).field_type)

module _ (to_uppercase : Text → Text) (columns : List BqField) where
  abbrev pub meets_schema : List BqField → Bool
  meets_schema schema =
      all (λ mc. declared_as mc (find_live (live_info mc).name schema)) columns
      && all (λ sf. may_be_absent to_uppercase sf || has_column columns (live_info sf).name) schema

  abbrev pub well_typed : List BqField → BqField → Bool
  well_typed schema mc = is_empty (type_error mc (find_live (live_info mc).name schema))

  unproduced_lem :
      (sf : BqField)
      → is_empty (unproduced to_uppercase columns sf)
        ≡ (may_be_absent to_uppercase sf || has_column columns (live_info sf).name)
  unproduced_lem sf = ground arith

find_live-has_column :
    (name : Text) (schema : List BqField)
    → has_column schema name ≡ (elim (find_live name schema) [ none ↦ false | some sf ↦ true ])
unfolding has_column find_live
find_live-has_column name [] = refl
find_live-has_column name (sf ∷ schema) =
    elim (Bool-cases (eq_ignore_case (live_info sf).name name)) [
      | inl h ↦ rw h refl
      | inr h ↦ rw h (find_live-has_column name schema)
    ]

typed_lem :
    (mc : BqField) (o : Option BqField)
    → ((elim o [ none ↦ false | some sf ↦ true ]) && is_empty (type_error mc o)) ≡ declared_as mc o
typed_lem mc none = refl
typed_lem mc (some sf) = is_empty-absent _ _

all_both {ℓ} :
    {A : Type ℓ} (p q r : A → Bool)
    → ((a : A) → (p a && q a) ≡ r a)
    → (xs : List A) → (all p xs && all q xs) ≡ all r xs
all_both p q r h [] = refl
all_both p q r h (a ∷ xs) = ground (arith, h a, all_both p q r h xs)

swapped : (a b c : Bool) → (a && (b && c)) ≡ ((a && c) && b)
swapped a b c = ground arith

module _ (to_uppercase : Text → Text) (columns : List BqField) where
  is_empty-contract_errors :
      (schema : List BqField)
      → is_empty (contract_errors to_uppercase columns schema)
        ≡ meets_schema to_uppercase columns schema
  unfolding contract_errors
  is_empty-contract_errors schema =
      let declared = λ (mc : BqField). has_column schema (live_info mc).name in
      let one =
        is_empty-pushed (undeclared columns schema) declared
          (λ mc. is_empty-absent (has_column schema (live_info mc).name) _) columns in
      let two =
        is_empty-pushed (unproduced to_uppercase columns) _ (unproduced_lem to_uppercase columns)
          schema in
      let three =
        is_empty-pushed (λ mc. type_error mc (find_live (live_info mc).name schema))
          (well_typed to_uppercase columns schema) (λ mc. refl) columns in
      let joined =
        all_both declared (well_typed to_uppercase columns schema)
          (λ mc. declared_as mc (find_live (live_info mc).name schema))
          (λ mc.
            rw (find_live-has_column (live_info mc).name schema)
              (typed_lem mc (find_live (live_info mc).name schema)))
          columns in
      simp (contract_errors, is_empty-append, one, two, three)
        (swapped (all declared columns)
            (all (λ sf. may_be_absent to_uppercase sf || has_column columns (live_info sf).name)
              schema)
            (all (well_typed to_uppercase columns schema) columns)
          ∙ rw joined refl)

  -- The check of a model's output reports nothing exactly where the columns that its configuration
  -- names are among the output, and, where a schema is declared: every output column is declared
  -- there with a type that normalizes to the same name, where any two types that are not known both
  -- normalize to UNKNOWN and so agree; and every declared column whose mode is not REPEATED and
  -- whose description does not mark it as added afterwards is in the output, one that is marked as
  -- deleted included.
  pub is_empty-validate_model_schema :
      (declared : Option (List BqField)) (config : ModelConfig)
      → is_empty (validate_model_schema to_uppercase columns declared config)
        ≡ (names_columns columns config && all_of (meets_schema to_uppercase columns) declared)
  unfolding validate_model_schema
  is_empty-validate_model_schema declared config =
      is_empty-append (config_errors columns config)
        (given (contract_errors to_uppercase columns) declared)
      ∙ rw
          (
            is_empty-config_errors columns config,
            is_empty-given (contract_errors to_uppercase columns)
                (meets_schema to_uppercase columns) is_empty-contract_errors declared,
          )
          refl
