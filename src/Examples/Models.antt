-- ===== src/Examples/Models.antt =====
-- crates/gcpx-dbt/src/validate.rs at concrete inputs.
use pulumi_rs_provider_gcpx.Base.{◌≡◌, ◌&&◌, List, [], ◌∷◌, none, some, Text, codes, is_empty}
use pulumi_rs_provider_gcpx.Bq.Schema.Drift.{BqField, bq_field, no_live}
use pulumi_rs_provider_gcpx.Dbt.Macros.{expand_macros}
use pulumi_rs_provider_gcpx.Dbt.Options.{TableOptions}
use pulumi_rs_provider_gcpx.Dbt.Config.{ModelConfig}
use pulumi_rs_provider_gcpx.Dbt.Conflicts.{diff_options}
use pulumi_rs_provider_gcpx.Dbt.Conflicts.Agreed.{agreed_options, is_empty-diff_options}
use pulumi_rs_provider_gcpx.Dbt.Contract.{validate_model_schema}
use pulumi_rs_provider_gcpx.Dbt.Contract.Met.{
  all_of, names_columns, meets_schema, is_empty-validate_model_schema,
}
use pulumi_rs_provider_gcpx.Dbt.Validate.{CheckFailure}
use pulumi_rs_provider_gcpx.Dbt.Model.{ProjectContext, validate_model}
use pulumi_rs_provider_gcpx.Dbt.Model.Checked.{IsChecked, validate_model-IsChecked}

abbrev table_config : ModelConfig
table_config = record {
  materialization = codes "table";
  unique_key = some (codes "ID");
  unique_key_list = none;
  incremental_strategy = none;
  partition_by = none;
  cluster_by = none;
  require_partition_filter = none;
  partition_expiration_days = some 30;
  friendly_name = none;
  description = some (codes "orders");
  labels = (codes "env", codes "prod") ∷ [];
  kms_key_name = none;
  default_collation_name = none;
  enable_refresh = none;
  refresh_interval_minutes = none;
  max_staleness = none;
}

abbrev declared_options : TableOptions
declared_options = record {
  require_partition_filter = none;
  partition_expiration_days = some 30;
  friendly_name = none;
  description = some (codes "orders");
  labels = (codes "env", codes "test") ∷ [];
  kms_key_name = none;
  default_collation_name = none;
  enable_refresh = none;
  refresh_interval_minutes = none;
  max_staleness = none;
}

is_empty-diff_options_example :
    is_empty (diff_options table_config declared_options)
    ≡ agreed_options table_config declared_options
is_empty-diff_options_example = is_empty-diff_options table_config declared_options

abbrev id_column : BqField
id_column =
    bq_field
      (record { name = codes "id"; field_type = codes "INTEGER"; mode = []; description = [] })
      no_live

abbrev id_schema : List BqField
id_schema =
    bq_field
      (record {
        name = codes "ID";
        field_type = codes "INT64";
        mode = codes "REQUIRED";
        description = [];
      })
      no_live
    ∷ []

is_empty-validate_model_schema_example :
    is_empty (validate_model_schema (λ s. s) (id_column ∷ []) (some id_schema) table_config) ≡ (
      names_columns (id_column ∷ []) table_config
      && all_of (meets_schema (λ s. s) (id_column ∷ [])) (some id_schema))
is_empty-validate_model_schema_example =
    is_empty-validate_model_schema (λ s. s) (id_column ∷ []) (some id_schema) table_config

abbrev orders_context : ProjectContext
orders_context = record {
  gcp_project = codes "p";
  dataset = codes "d";
  sources = [];
  declared_models = codes "orders" ∷ [];
  declared_macros = [];
  vars = [];
}

abbrev orders_sql : Text
orders_sql = codes "{{ config(materialized='table') }} SELECT {{ var('x') }}"

validate_model-IsChecked_example :
    (fs : List CheckFailure) × (validate_model
        (codes "orders")
        orders_sql
        table_config
        orders_context
        []
        []
      ≡ some fs)
    × IsChecked
        (codes "orders")
        orders_sql
        table_config
        orders_context
        []
        []
        (expand_macros orders_sql [])
        fs
validate_model-IsChecked_example =
    validate_model-IsChecked (codes "orders") orders_sql table_config orders_context [] []
