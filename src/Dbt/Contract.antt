-- ===== src/Dbt/Contract.antt =====
-- crates/gcpx-dbt/src/validate.rs: a model's output columns against its configuration and a declared
-- schema. A reason is structured data in place of its text. `to_uppercase` follows Unicode's tables
-- and is a parameter.
pub mod Met
use pulumi_rs_provider_gcpx.Base.{
  Bool, true, false, not, ◌||◌, List, [], ◌∷◌, ◌++◌, map, Option, none, some, Text, codes, text_eq,
  eq_ignore_case, contains, any, if◌then◌else◌, joined_by,
}
use pulumi_rs_provider_gcpx.Bq.Schema.Types.{normalize_type}
use pulumi_rs_provider_gcpx.Bq.Schema.Drift.{BqField, live_info, find_live}
use pulumi_rs_provider_gcpx.Dbt.Ddl.{PartitionConfig}
use pulumi_rs_provider_gcpx.Dbt.Config.{ModelConfig}

-- The first four hold a column's name and the names that there are.
pub data SchemaError : Type 0 where
  unknown_key : Text → Text → SchemaError
  unknown_composite_key : Text → Text → SchemaError
  unknown_partition_field : Text → Text → SchemaError
  unknown_cluster_column : Text → Text → SchemaError
  undeclared_column : Text → Text → SchemaError
  unproduced_column : Text → Text → SchemaError
  type_mismatch : Text → Text → Text → SchemaError

unfoldable pub has_column : List BqField → Text → Bool
unfolding eq_ignore_case
has_column columns name = any (λ c. eq_ignore_case (live_info c).name name) columns

-- What a loop pushes.
abbrev pub pushed {ℓ} : {A : Type ℓ} → (A → List SchemaError) → List A → List SchemaError
pushed f [] = []
pushed f (a ∷ rest) = f a ++ pushed f rest

abbrev pub absent : Bool → SchemaError → List SchemaError
absent b e = if not b then e ∷ [] else []

abbrev pub given {ℓ} : {A : Type ℓ} → (A → List SchemaError) → Option A → List SchemaError
given f none = []
given f (some a) = f a

module _ (columns : List BqField) where
  unfoldable pub available_columns : Text
  unfolding joined_by
  available_columns = joined_by (codes ", ") (map (λ c. (live_info c).name) columns)

  unfoldable pub config_errors : ModelConfig → List SchemaError
  unfolding has_column available_columns
  config_errors config =
      given (λ k. absent (has_column columns k) (unknown_key k available_columns)) config.unique_key
      ++ (given
            (pushed
              (λ k. absent (has_column columns k) (unknown_composite_key k available_columns)))
            config.unique_key_list
          ++ (given
                (λ p.
                  absent (has_column columns p.field)
                    (unknown_partition_field p.field available_columns))
                config.partition_by
              ++ given
                  (pushed (λ k.
                    absent (has_column columns k) (unknown_cluster_column k available_columns)))
                  config.cluster_by))

  abbrev pub undeclared : List BqField → BqField → List SchemaError
  undeclared schema mc =
      absent (has_column schema (live_info mc).name)
        (undeclared_column (live_info mc).name (live_info mc).field_type)

module _ (to_uppercase : Text → Text) where
  -- Repeated fields, and columns that are added after the model writes, need not be produced.
  unfoldable pub may_be_absent : BqField → Bool
  unfolding text_eq contains
  may_be_absent sf =
      text_eq (to_uppercase (live_info sf).mode) (codes "REPEATED")
      || contains (codes "__gcpx_alter_insert__") (live_info sf).description

  abbrev pub unproduced : List BqField → BqField → List SchemaError
  unproduced columns sf =
      if may_be_absent sf
      then []
      else absent (has_column columns (live_info sf).name)
          (unproduced_column (live_info sf).name (live_info sf).field_type)

abbrev pub type_error : BqField → Option BqField → List SchemaError
type_error mc none = []
type_error mc (some sf) =
    let model_type = normalize_type (live_info mc).field_type in
    let schema_type = normalize_type (live_info sf).field_type in
    absent (text_eq model_type schema_type)
      (type_mismatch (live_info mc).name model_type schema_type)

module _ (to_uppercase : Text → Text) (columns : List BqField) where
  unfoldable pub contract_errors : List BqField → List SchemaError
  unfolding has_column may_be_absent find_live normalize_type text_eq
  contract_errors schema =
      pushed (undeclared columns schema) columns
      ++ (pushed (unproduced to_uppercase columns) schema
          ++ pushed (λ mc. type_error mc (find_live (live_info mc).name schema)) columns)

  unfoldable pub validate_model_schema : Option (List BqField) → ModelConfig → List SchemaError
  unfolding config_errors contract_errors
  validate_model_schema declared config =
      config_errors columns config ++ given contract_errors declared
