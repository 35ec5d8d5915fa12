-- ===== src/Bq/Checks.antt =====
-- crates/gcpx-bq/src/table/validate.rs, dataset/validate.rs and routine/validate.rs: the checks on the
-- inputs of tables, datasets and routines. A reason is structured data in place of its text.
pub mod Accepted
use pulumi_rs_provider_gcpx.Base.{
  ℕ, ℤ, pos, negsuc, Bool, true, false, not, ◌||◌, ◌&&◌, List, [], ◌∷◌, ◌++◌, Option, none, some,
  Text, codes, text_eq, length, is_empty, if◌then◌else◌, ltb, leb, ◌==◌,
}
use pulumi_rs_provider_gcpx.Bq.Table.{
  TableInputs, ViewInputs, MaterializedViewInputs, ExternalDataConfig,
}
use pulumi_rs_provider_gcpx.Bq.Dataset.{DatasetInputs}
use pulumi_rs_provider_gcpx.Bq.Routine.{RoutineInputs}

pub data Reason : Type 0 where
  empty_input : Reason
  view_and_materialized_view partitioned_twice too_many_clusterings : Reason
  empty_view_query empty_materialized_view_query unknown_billing_model : Reason
  staleness_of_other view_partitioned view_clustered : Reason
  external_view external_materialized_view no_source_uris refresh_of_external : Reason
  expiration_bypasses_protection time_travel_out_of_range : Reason
  unknown_routine_type unknown_language unknown_determinism libraries_for_sql : Reason

pub record CheckFailure : Type 0 where
  pub property : Text
  pub reason : Reason

-- A failure where the test says so.
abbrev pub fail_if : Bool → Text → Reason → List CheckFailure
fail_if b p r = if b then record { property = p; reason = r } ∷ [] else []

abbrev pub present {ℓ} : {A : Type ℓ} → Option A → Bool
present none = false
present (some a) = true

-- `if let Some(a) = o` with a test on `a`.
abbrev pub present_and {ℓ} : {A : Type ℓ} → (A → Bool) → Option A → Bool
present_and f none = false
present_and f (some a) = f a

abbrev pub is_set : Bool → Bool
is_set b = b

unfoldable pub is_billing_model : Text → Bool
unfolding text_eq
is_billing_model s = text_eq s (codes "LOGICAL") || text_eq s (codes "PHYSICAL")

unfoldable pub validate_table : TableInputs → List CheckFailure
unfolding is_billing_model
validate_table i =
    fail_if (is_empty i.project) (codes "project") empty_input
    ++ (fail_if (is_empty i.dataset) (codes "dataset") empty_input
        ++ (fail_if (is_empty i.table_id) (codes "tableId") empty_input
            ++ (fail_if (present i.view && present i.materialized_view) (codes "view")
                  view_and_materialized_view
                ++ (fail_if (present_and (λ v. is_empty v.query) i.view) (codes "view.query")
                      empty_view_query
                    ++ (fail_if (present_and (λ v. is_empty v.query) i.materialized_view)
                          (codes "materializedView.query") empty_materialized_view_query
                        ++ (fail_if (present i.time_partitioning && present i.range_partitioning)
                              (codes "timePartitioning") partitioned_twice
                            ++ (fail_if (ltb 4 (length i.clusterings)) (codes "clusterings")
                                  too_many_clusterings
                                ++ (fail_if
                                      (present_and (λ s. not (is_billing_model s))
                                        i.storage_billing_model)
                                      (codes "storageBillingModel") unknown_billing_model
                                    ++ (fail_if
                                          (present i.max_staleness
                                            && not (present i.materialized_view))
                                          (codes "maxStaleness") staleness_of_other
                                        ++ (fail_if
                                              (present i.view
                                                && (present i.time_partitioning
                                                    || present i.range_partitioning))
                                              (codes "view") view_partitioned
                                            ++ (fail_if
                                                  (present i.view && not (is_empty i.clusterings))
                                                  (codes "view") view_clustered
                                                ++ (fail_if
                                                      (present i.external_data_config
                                                        && present i.view)
                                                      (codes "externalDataConfiguration")
                                                      external_view
                                                    ++ (fail_if
                                                          (present i.external_data_config
                                                            && present i.materialized_view)
                                                          (codes "externalDataConfiguration")
                                                          external_materialized_view
                                                        ++ (fail_if
                                                            (present_and
                                                            (λ e. is_empty e.source_uris)
                                                            i.external_data_config)
                                                            (codes
                                                            "externalDataConfiguration.sourceUris")
                                                            no_source_uris
                                                            ++ (fail_if
                                                            (present_and
                                                            (λ v.
                                                            present_and is_set v.enable_refresh)
                                                            i.materialized_view
                                                            && present i.external_data_config)
                                                            (codes "materializedView.enableRefresh")
                                                            refresh_of_external
                                                            ++ fail_if
                                                            (present_and is_set
                                                            i.deletion_protection
                                                            && present i.expiration_time)
                                                            (codes "deletionProtection")
                                                            expiration_bypasses_protection)))))))))))))))

-- `!(48..=168).contains(&hours) && hours != 0`.
abbrev pub out_of_range : ℤ → Bool
out_of_range (negsuc n) = true
out_of_range (pos n) = not (leb 48 n && leb n 168) && not (n == 0)

unfoldable pub validate_dataset : DatasetInputs → List CheckFailure
unfolding is_billing_model
validate_dataset i =
    fail_if (is_empty i.project) (codes "project") empty_input
    ++ (fail_if (is_empty i.dataset_id) (codes "datasetId") empty_input
        ++ (fail_if (is_empty i.location) (codes "location") empty_input
            ++ (fail_if (present_and (λ s. not (is_billing_model s)) i.storage_billing_model)
                  (codes "storageBillingModel") unknown_billing_model
                ++ fail_if (present_and out_of_range i.max_time_travel_hours)
                    (codes "maxTimeTravelHours") time_travel_out_of_range)))

unfoldable pub is_routine_type : Text → Bool
unfolding text_eq
is_routine_type s =
    text_eq s (codes "SCALAR_FUNCTION")
    || (text_eq s (codes "TABLE_VALUED_FUNCTION") || text_eq s (codes "PROCEDURE"))

unfoldable pub is_language : Text → Bool
unfolding text_eq
is_language s = text_eq s (codes "SQL") || text_eq s (codes "JAVASCRIPT")

unfoldable pub is_determinism_level : Text → Bool
unfolding text_eq
is_determinism_level s =
    text_eq s (codes "DETERMINISM_LEVEL_UNSPECIFIED")
    || (text_eq s (codes "DETERMINISTIC") || text_eq s (codes "NOT_DETERMINISTIC"))

unfoldable pub validate_routine : RoutineInputs → List CheckFailure
unfolding is_routine_type is_language is_determinism_level text_eq
validate_routine i =
    fail_if (is_empty i.project) (codes "project") empty_input
    ++ (fail_if (is_empty i.dataset) (codes "dataset") empty_input
        ++ (fail_if (is_empty i.routine_id) (codes "routineId") empty_input
            ++ (fail_if (not (is_routine_type i.routine_type)) (codes "routineType")
                  unknown_routine_type
                ++ (fail_if (not (is_language i.language)) (codes "language") unknown_language
                    ++ (fail_if (is_empty i.definition_body) (codes "definitionBody") empty_input
                        ++ (fail_if
                              (present_and (λ s. not (is_determinism_level s)) i.determinism_level)
                              (codes "determinismLevel") unknown_determinism
                            ++ fail_if
                                (text_eq i.language (codes "SQL")
                                  && not (is_empty i.imported_libraries))
                                (codes "importedLibraries") libraries_for_sql))))))
