-- ===== src/Bq/Dataset.antt =====
-- crates/gcpx-bq/src/dataset: the inputs of a dataset and the diff of two of them. Labels, a
-- `BTreeMap`, are the sorted list of their entries; an `i64` is an integer.
pub mod Exact
use pulumi_rs_provider_gcpx.Base.{
  Bool, List, [], ◌∷◌, Option, Text, codes, ℤ, neb, text_instance, option_eq, int_eq, labels_eq,
}
use pulumi_rs_provider_gcpx.Core.Resource.{DiffResult, pushed}

pub record DatasetInputs : Type 0 where
  pub project : Text
  pub dataset_id : Text
  pub location : Text
  pub description : Option Text
  pub friendly_name : Option Text
  pub labels : List (Text × Text)
  pub default_table_expiration_ms : Option ℤ
  pub default_partition_expiration_ms : Option ℤ
  pub storage_billing_model : Option Text
  pub max_time_travel_hours : Option ℤ

abbrev pub replace_tests : DatasetInputs → DatasetInputs → List (Bool × Text)
replace_tests old new =
    (neb old.project new.project, codes "project")
    ∷ (neb old.dataset_id new.dataset_id, codes "datasetId")
    ∷ (neb old.location new.location, codes "location")
    ∷ []

abbrev pub update_tests : DatasetInputs → DatasetInputs → List (Bool × Text)
update_tests old new =
    (neb old.description new.description, codes "description")
    ∷ (neb old.friendly_name new.friendly_name, codes "friendlyName")
    ∷ (neb old.labels new.labels, codes "labels")
    ∷ (
      neb old.default_table_expiration_ms new.default_table_expiration_ms,
      codes "defaultTableExpirationMs",
    )
    ∷ (
      neb old.default_partition_expiration_ms new.default_partition_expiration_ms,
      codes "defaultPartitionExpirationMs",
    )
    ∷ (neb old.storage_billing_model new.storage_billing_model, codes "storageBillingModel")
    ∷ (neb old.max_time_travel_hours new.max_time_travel_hours, codes "maxTimeTravelHours")
    ∷ []

unfoldable pub compute_dataset_diff : DatasetInputs → DatasetInputs → DiffResult
compute_dataset_diff old new = record {
  replace_keys = pushed (replace_tests old new);
  update_keys = pushed (update_tests old new);
}
