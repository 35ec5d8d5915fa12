-- ===== src/Bq/Table.antt =====
-- crates/gcpx-bq/src/table: the inputs of a table and the diff of two of them.
pub mod Exact
use pulumi_rs_provider_gcpx.Base.{
  Bool, false, true, not, ◌||◌, List, [], ◌∷◌, Option, none, some, Text, codes, ℤ, neb,
  text_instance, option_eq, int_eq, bool_eq, texts_eq, labels_eq,
}
use pulumi_rs_provider_gcpx.Core.Resource.{DiffResult, pushed}

pub record ExternalDataConfig : Type 0 where
  pub source_uris : List Text
  pub source_format : Text
  pub autodetect : Option Bool
  pub connection_id : Option Text
  pub csv_skip_leading_rows : Option ℤ

pub record ViewInputs : Type 0 where
  pub query : Text
  pub use_legacy_sql : Option Bool

pub record MaterializedViewInputs : Type 0 where
  pub query : Text
  pub enable_refresh : Option Bool
  pub refresh_interval_ms : Option ℤ
  pub max_staleness : Option Text

pub record TimePartitioningInputs : Type 0 where
  pub partition_type : Text
  pub field : Option Text
  pub expiration_ms : Option ℤ

pub record RangePartitioningInputs : Type 0 where
  pub field : Text
  pub start : ℤ
  pub end : ℤ
  pub interval : ℤ

pub record TableInputs : Type 0 where
  pub project : Text
  pub dataset : Text
  pub table_id : Text
  pub description : Option Text
  pub friendly_name : Option Text
  pub labels : List (Text × Text)
  pub view : Option ViewInputs
  pub materialized_view : Option MaterializedViewInputs
  pub time_partitioning : Option TimePartitioningInputs
  pub range_partitioning : Option RangePartitioningInputs
  pub clusterings : List Text
  pub deletion_protection : Option Bool
  pub expiration_time : Option ℤ
  pub encryption_kms_key : Option Text
  pub storage_billing_model : Option Text
  pub max_staleness : Option Text
  pub external_data_config : Option ExternalDataConfig

-- `a.is_some() != b.is_some()`.
abbrev pub toggled : {A : Type 0} → Option A → Option A → Bool
toggled none none = false
toggled (some a) (some b) = false
toggled none (some b) = true
toggled (some a) none = true

-- `if let (Some(a), Some(b)) = (x, y)` with a test on both.
abbrev pub both : {A : Type 0} → (A → A → Bool) → Option A → Option A → Bool
both test (some a) (some b) = test a b
both test none none = false
both test none (some b) = false
both test (some a) none = false

-- A change where one of the two is absent, or where both are there and the test finds one.
abbrev pub either : {A : Type 0} → (A → A → Bool) → Option A → Option A → Bool
either test none none = false
either test (some a) (some b) = test a b
either test none (some b) = true
either test (some a) none = true

abbrev pub partition_differs : TimePartitioningInputs → TimePartitioningInputs → Bool
partition_differs o n = neb o.partition_type n.partition_type || neb o.field n.field

abbrev pub range_differs : RangePartitioningInputs → RangePartitioningInputs → Bool
range_differs o n =
    neb o.field n.field || neb o.start n.start || neb o.end n.end || neb o.interval n.interval

abbrev pub external_differs : ExternalDataConfig → ExternalDataConfig → Bool
external_differs o n =
    neb o.source_uris n.source_uris
    || neb o.source_format n.source_format
    || neb o.autodetect n.autodetect
    || neb o.connection_id n.connection_id
    || neb o.csv_skip_leading_rows n.csv_skip_leading_rows

-- The pushes to `replace_keys`, in order.
abbrev pub replace_tests : TableInputs → TableInputs → List (Bool × Text)
replace_tests old new =
    (neb old.project new.project, codes "project")
    ∷ (neb old.dataset new.dataset, codes "dataset")
    ∷ (neb old.table_id new.table_id, codes "tableId")
    ∷ (toggled old.view new.view, codes "view")
    ∷ (toggled old.materialized_view new.materialized_view, codes "materializedView")
    ∷ (both (λ o n. neb o.query n.query) old.view new.view, codes "view.query")
    ∷ (
      both (λ o n. neb o.use_legacy_sql n.use_legacy_sql) old.view new.view,
      codes "view.useLegacySql",
    )
    ∷ (
      both (λ o n. neb o.query n.query) old.materialized_view new.materialized_view,
      codes "materializedView.query",
    )
    ∷ (
      either partition_differs old.time_partitioning new.time_partitioning,
      codes "timePartitioning",
    )
    ∷ (
      either range_differs old.range_partitioning new.range_partitioning,
      codes "rangePartitioning",
    )
    ∷ (neb old.encryption_kms_key new.encryption_kms_key, codes "encryptionKmsKey")
    ∷ (
      either external_differs old.external_data_config new.external_data_config,
      codes "externalDataConfiguration",
    )
    ∷ []

-- The pushes to `update_keys`, in order.
abbrev pub update_tests : TableInputs → TableInputs → List (Bool × Text)
update_tests old new =
    (
      both (λ o n. neb o.expiration_ms n.expiration_ms) old.time_partitioning new.time_partitioning,
      codes "timePartitioning.expirationMs",
    )
    ∷ (neb old.description new.description, codes "description")
    ∷ (neb old.friendly_name new.friendly_name, codes "friendlyName")
    ∷ (neb old.labels new.labels, codes "labels")
    ∷ (neb old.expiration_time new.expiration_time, codes "expirationTime")
    ∷ (neb old.deletion_protection new.deletion_protection, codes "deletionProtection")
    ∷ (neb old.clusterings new.clusterings, codes "clusterings")
    ∷ (neb old.storage_billing_model new.storage_billing_model, codes "storageBillingModel")
    ∷ (neb old.max_staleness new.max_staleness, codes "maxStaleness")
    ∷ (
      both (λ o n. neb o.enable_refresh n.enable_refresh) old.materialized_view
          new.materialized_view,
      codes "materializedView.enableRefresh",
    )
    ∷ (
      both (λ o n. neb o.refresh_interval_ms n.refresh_interval_ms) old.materialized_view
          new.materialized_view,
      codes "materializedView.refreshIntervalMs",
    )
    ∷ (
      both (λ o n. neb o.max_staleness n.max_staleness) old.materialized_view new.materialized_view,
      codes "materializedView.maxStaleness",
    )
    ∷ []

unfoldable pub compute_table_diff : TableInputs → TableInputs → DiffResult
compute_table_diff old new = record {
  replace_keys = pushed (replace_tests old new);
  update_keys = pushed (update_tests old new);
}
