-- ===== src/Examples/Resources.antt =====
-- The comparison and the checks of tables at concrete inputs.
use pulumi_rs_provider_gcpx.Base.{is_empty, ◌≡◌, ◌↔◌, true, false, [], ◌∷◌, codes, some, none, pos}
use pulumi_rs_provider_gcpx.Core.Resource.{has_changes}
use pulumi_rs_provider_gcpx.Bq.Checks.{validate_table}
use pulumi_rs_provider_gcpx.Bq.Checks.Accepted.{valid_table, is_empty-validate_table}
use pulumi_rs_provider_gcpx.Bq.Table.{TableInputs, compute_table_diff}
use pulumi_rs_provider_gcpx.Bq.Table.Exact.{compute_table_diff_exact}

abbrev table : TableInputs
table = record {
  project = codes "p";
  dataset = codes "d";
  table_id = codes "t";
  description = none;
  friendly_name = none;
  labels = [];
  view = none;
  materialized_view = none;
  time_partitioning = none;
  range_partitioning = none;
  clusterings = [];
  deletion_protection = some true;
  expiration_time = none;
  encryption_kms_key = none;
  storage_billing_model = none;
  max_staleness = none;
  external_data_config = none;
}

compute_table_diff_exact_example :
    (has_changes (compute_table_diff table (record table { clusterings = codes "c" ∷ [] })) ≡ false)
    ↔ (table ≡ record table { clusterings = codes "c" ∷ [] })
compute_table_diff_exact_example =
    compute_table_diff_exact table (record table { clusterings = codes "c" ∷ [] })

is_empty-validate_table_example :
    is_empty (validate_table (record table { expiration_time = some (pos 1) }))
    ≡ valid_table (record table { expiration_time = some (pos 1) })
is_empty-validate_table_example =
    is_empty-validate_table (record table { expiration_time = some (pos 1) })
