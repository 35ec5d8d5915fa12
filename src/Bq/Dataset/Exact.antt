-- ===== src/Bq/Dataset/Exact.antt =====
-- The diff of two datasets reports a change exactly when they differ.
use pulumi_rs_provider_gcpx.Base.{
  ◌≡◌, ◌↔◌, false, subst, eq_of_neb, neb_self, text_instance, option_eq, int_eq, labels_eq,
}
use pulumi_rs_provider_gcpx.Core.Resource.Exact.{has_changes_same, same_has_changes, AllSame}
use pulumi_rs_provider_gcpx.Core.Resource.{has_changes}
use pulumi_rs_provider_gcpx.Bq.Dataset.{
  DatasetInputs, compute_dataset_diff, replace_tests, update_tests,
}

self_same : (x : DatasetInputs) → AllSame (replace_tests x x) × AllSame (update_tests x x)
self_same x = (
  (neb_self x.project, (neb_self x.dataset_id, (neb_self x.location, tt))),
  (
    neb_self x.description,
    (
      neb_self x.friendly_name,
      (
        neb_self x.labels,
        (
          neb_self x.default_table_expiration_ms,
          (
            neb_self x.default_partition_expiration_ms,
            (neb_self x.storage_billing_model, (neb_self x.max_time_travel_hours, tt)),
          ),
        ),
      ),
    ),
  ),
)

same_eq :
    (old new : DatasetInputs)
    → AllSame (replace_tests old new)
    → AllSame (update_tests old new)
    → old ≡ new
same_eq old new (a, (b, (c, _))) (d, (e, (f, (g, (h, (i, (j, _))))))) = λ k. record {
  project = eq_of_neb old.project new.project a k;
  dataset_id = eq_of_neb old.dataset_id new.dataset_id b k;
  location = eq_of_neb old.location new.location c k;
  description = eq_of_neb old.description new.description d k;
  friendly_name = eq_of_neb old.friendly_name new.friendly_name e k;
  labels = eq_of_neb old.labels new.labels f k;
  default_table_expiration_ms =
      eq_of_neb old.default_table_expiration_ms new.default_table_expiration_ms g k;
  default_partition_expiration_ms =
      eq_of_neb old.default_partition_expiration_ms new.default_partition_expiration_ms h k;
  storage_billing_model = eq_of_neb old.storage_billing_model new.storage_billing_model i k;
  max_time_travel_hours = eq_of_neb old.max_time_travel_hours new.max_time_travel_hours j k;
}

-- The diff of two sets of dataset inputs has no changes exactly when they are equal: no field of
-- a dataset escapes the comparison, and equal inputs never cause an update.
pub compute_dataset_diff_exact :
    (old new : DatasetInputs) → (has_changes (compute_dataset_diff old new) ≡ false) ↔ (old ≡ new)
unfolding compute_dataset_diff
compute_dataset_diff_exact old new = (
  λ h.
      let (r, u) = has_changes_same (replace_tests old new) (update_tests old new) h in
      same_eq old new r u,
  λ e.
      subst (λ x. has_changes (compute_dataset_diff old x) ≡ false) e
        (let (r, u) = self_same old in
          same_has_changes (replace_tests old old) (update_tests old old) r u),
)
