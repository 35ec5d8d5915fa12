-- ===== src/Dbt/Model.antt =====
-- crates/gcpx-dbt/src/validate.rs and types.rs: the checks on a model. `none` says that a loop ran out
-- of fuel.
pub mod Rules
pub mod Checked
use pulumi_rs_provider_gcpx.Base.{
  ℕ, ◌+◌, ◌==◌, Bool, true, false, not, ◌||◌, ◌&&◌, List, [], ◌∷◌, ◌++◌, map, Option, none, some,
  Text, codes, length, is_empty, any, text_eq, contains, starts_with, if◌then◌else◌, leb, ltb,
  map_get, Result, ok, err,
}
use pulumi_rs_provider_gcpx.Dbt.Templates.{DbtSegment, config, ref, source, call, scan}
use pulumi_rs_provider_gcpx.Dbt.Preprocess.{is_entirely_raw}
use pulumi_rs_provider_gcpx.Dbt.Macros.{MacroDef, MacroError, expand_macros}
use pulumi_rs_provider_gcpx.Dbt.Options.{is_none}
use pulumi_rs_provider_gcpx.Dbt.Resolver.{SourceDef, ModelRefData, is_some}
use pulumi_rs_provider_gcpx.Dbt.Ddl.{PartitionConfig}
use pulumi_rs_provider_gcpx.Dbt.Config.{ModelConfig, ConfigEntry, config_entries}
use pulumi_rs_provider_gcpx.Dbt.Validate.{
  Reason, CheckFailure, fail_if, entirely_raw, empty_model_name, empty_model_sql, reserved_cte,
  several_configs, undeclared_model, macro_failed, unknown_model, not_wired, unknown_source_name,
  undeclared_table, unknown_call, invalid_materialization, invalid_strategy, no_unique_key,
  no_partition_field, filter_without_partition, expiration_without_partition, refresh_of_other,
  interval_without_refresh, no_materialized, too_many_clusters,
}

pub record ProjectContext : Type 0 where
  pub gcp_project : Text
  pub dataset : Text
  pub sources : List (Text × SourceDef)
  pub declared_models : List Text
  pub declared_macros : List Text
  pub vars : List (Text × Text)

unfoldable pub is_listed : Text → List Text → Bool
unfolding text_eq
is_listed name names = any (λ m. text_eq m name) names

unfoldable pub is_builtin_call : Text → Bool
unfolding text_eq starts_with
is_builtin_call name = text_eq name (codes "var") || starts_with (codes "dbt_utils.") name

abbrev pub keys {ℓ} : {A : Type ℓ} → List (Text × A) → List Text
keys m = map (λ e. e.0) m

abbrev pub sql_failure : Bool → Reason → List CheckFailure
sql_failure b r = fail_if b (codes "sql") r

abbrev pub source_failure :
    List (Text × SourceDef) → Text → Text → Option SourceDef → List CheckFailure
source_failure sources s table none = sql_failure true (unknown_source_name s (keys sources))
source_failure sources s table (some d) =
    sql_failure (not (is_listed table d.tables)) (undeclared_table s table d.tables)

module _ (context : ProjectContext) (model_refs : List (Text × ModelRefData))
    (macros : List (Text × MacroDef)) where
  -- What the loop over the segments pushes for one of them.
  unfoldable pub segment_failures : DbtSegment → List CheckFailure
  unfolding is_listed is_builtin_call map_get contains
  segment_failures (config raw_args) = []
  segment_failures (ref model) =
      let declared = is_listed model context.declared_models in
      sql_failure (not declared) (unknown_model model context.declared_models)
      ++ fail_if (not (is_some (map_get model model_refs)) && declared) (codes "modelRefs")
          (not_wired model)
  segment_failures (source s table) =
      source_failure context.sources s table (map_get s context.sources)
  segment_failures (call name raw_args) =
      sql_failure (not (is_some (map_get name macros)) && not (is_builtin_call name))
        (unknown_call name (keys macros))
  segment_failures (DbtSegment.sql s) = sql_failure (contains (codes "__dbt__cte__") s) reserved_cte

  unfoldable pub segments_failures : List DbtSegment → List CheckFailure
  unfolding segment_failures
  segments_failures [] = []
  segments_failures (s ∷ rest) = segment_failures s ++ segments_failures rest

-- The number of config blocks.
unfoldable pub config_count : List DbtSegment → ℕ
config_count [] = 0
config_count (config raw_args ∷ rest) = 1 + config_count rest
config_count (_ ∷ rest) = config_count rest

abbrev pub either_key : Option (List ConfigEntry) → Option Bool → Option Bool
either_key none later = none
either_key (some es) none = none
either_key (some es) (some b) = some (any (λ e. text_eq e.key (codes "materialized")) es || b)

-- Whether one of them has the key `materialized`.
unfoldable pub has_materialized_key : List DbtSegment → Option Bool
unfolding config_entries text_eq
has_materialized_key [] = some false
has_materialized_key (config raw_args ∷ rest) =
    either_key (config_entries raw_args) (has_materialized_key rest)
has_materialized_key (_ ∷ rest) = has_materialized_key rest

abbrev pub is_true : Option Bool → Bool
is_true none = false
is_true (some b) = b

abbrev pub strategy_failure : Option Text → List CheckFailure
strategy_failure none = []
strategy_failure (some s) =
    sql_failure (not (is_listed s (codes "merge" ∷ codes "delete+insert" ∷ codes "append" ∷ [])))
      (invalid_strategy s)

abbrev pub partition_failure : Option PartitionConfig → List CheckFailure
partition_failure none = []
partition_failure (some p) = sql_failure (is_empty p.field) no_partition_field

abbrev pub cluster_failure : Option (List Text) → List CheckFailure
cluster_failure none = []
cluster_failure (some cols) = sql_failure (ltb 4 (length cols)) (too_many_clusters (length cols))

abbrev pub materializations : List Text
materializations =
    codes "table"
    ∷ codes "view"
    ∷ codes "materialized_view"
    ∷ codes "ephemeral"
    ∷ codes "incremental"
    ∷ []

unfoldable pub rule_failures : ModelConfig → List CheckFailure
unfolding is_listed text_eq
rule_failures c =
    let mat = c.materialization in
    sql_failure (not (is_listed mat materializations)) (invalid_materialization mat)
    ++ (sql_failure
          (text_eq mat (codes "incremental") && (is_none c.unique_key && is_none c.unique_key_list))
          no_unique_key
        ++ (strategy_failure c.incremental_strategy
            ++ (partition_failure c.partition_by
                ++ (cluster_failure c.cluster_by
                    ++ (sql_failure (is_true c.require_partition_filter && is_none c.partition_by)
                          filter_without_partition
                        ++ (sql_failure
                              (is_some c.partition_expiration_days && is_none c.partition_by)
                              expiration_without_partition
                            ++ (sql_failure
                                  (is_true c.enable_refresh
                                    && not (text_eq mat (codes "materialized_view")))
                                  refresh_of_other
                                ++ sql_failure
                                    (is_some c.refresh_interval_minutes
                                      && not (is_true c.enable_refresh))
                                    interval_without_refresh)))))))

unfoldable pub config_failures : ℕ → Bool → ModelConfig → List CheckFailure
unfolding rule_failures
config_failures count has_key c =
    if leb 1 count && has_key
    then rule_failures c
    else sql_failure (count == 1 && not has_key) no_materialized

module _ (name sql : Text) (model_config : ModelConfig) (context : ProjectContext)
    (model_refs : List (Text × ModelRefData)) (macros : List (Text × MacroDef)) where
  -- Those that are pushed before the macros are expanded.
  unfoldable pub early_failures : List CheckFailure
  unfolding is_listed
  early_failures =
      fail_if (is_empty name) (codes "name") empty_model_name
      ++ (sql_failure (is_empty sql) empty_model_sql
          ++ fail_if
              (not (is_empty context.declared_models)
                && not (is_listed name context.declared_models))
              (codes "name") (undeclared_model name))

  unfoldable pub late_failures : List DbtSegment → Bool → List CheckFailure
  unfolding segments_failures config_count config_failures is_entirely_raw
  late_failures segments has_key =
      segments_failures context model_refs macros segments
      ++ (sql_failure (ltb 1 (config_count segments)) several_configs
          ++ (config_failures (config_count segments) has_key model_config
              ++ sql_failure (is_entirely_raw sql) entirely_raw))

  abbrev pub after_scan : List DbtSegment → Option Bool → Option (List CheckFailure)
  after_scan segments none = none
  after_scan segments (some has_key) = some (early_failures ++ late_failures segments has_key)

  abbrev pub after_macros : Option (Result Text MacroError) → Option (List CheckFailure)
  after_macros none = none
  after_macros (some (err e)) = some (early_failures ++ sql_failure true (macro_failed e))
  after_macros (some (ok expanded)) = elim (scan expanded) [
    | none ↦ none
    | some segments ↦ after_scan segments (has_materialized_key segments)
  ]

  unfoldable pub validate_model : Option (List CheckFailure)
  unfolding early_failures late_failures has_materialized_key scan expand_macros
  validate_model = after_macros (expand_macros sql macros)
