-- ===== src/Bq/Table/Exact.antt =====
-- The diff of two tables reports a change exactly when they differ.
use pulumi_rs_provider_gcpx.Base.{
  ◌≡◌, refl, ◌↔◌, Bool, false, ◌||◌, arith, Option, none, some, subst, eq_of_neb, neb, neb_self,
  text_instance, option_eq, int_eq, bool_eq, texts_eq, labels_eq,
}
use pulumi_rs_provider_gcpx.Core.Resource.Exact.{has_changes_same, same_has_changes, AllSame}
use pulumi_rs_provider_gcpx.Core.Resource.{has_changes}
use pulumi_rs_provider_gcpx.Bq.Table.{
  TableInputs, ViewInputs, MaterializedViewInputs, TimePartitioningInputs, RangePartitioningInputs,
  ExternalDataConfig, toggled, both, either, partition_differs, range_differs, external_differs,
  replace_tests, update_tests, compute_table_diff,
}

view_eq :
    (x y : Option ViewInputs)
    → toggled x y ≡ false
    → both (λ o n. neb o.query n.query) x y ≡ false
    → both (λ o n. neb o.use_legacy_sql n.use_legacy_sql) x y ≡ false
    → x ≡ y
view_eq none none a b c = refl
view_eq none (some y) a b c = cc
view_eq (some x) none a b c = cc
view_eq (some x) (some y) a b c = λ k. some (record {
  query = eq_of_neb x.query y.query b k;
  use_legacy_sql = eq_of_neb x.use_legacy_sql y.use_legacy_sql c k;
})

materialized_eq :
    (x y : Option MaterializedViewInputs)
    → toggled x y ≡ false
    → both (λ o n. neb o.query n.query) x y ≡ false
    → both (λ o n. neb o.enable_refresh n.enable_refresh) x y ≡ false
    → both (λ o n. neb o.refresh_interval_ms n.refresh_interval_ms) x y ≡ false
    → both (λ o n. neb o.max_staleness n.max_staleness) x y ≡ false
    → x ≡ y
materialized_eq none none a b c d e = refl
materialized_eq none (some y) a b c d e = cc
materialized_eq (some x) none a b c d e = cc
materialized_eq (some x) (some y) a b c d e = λ k. some (record {
  query = eq_of_neb x.query y.query b k;
  enable_refresh = eq_of_neb x.enable_refresh y.enable_refresh c k;
  refresh_interval_ms = eq_of_neb x.refresh_interval_ms y.refresh_interval_ms d k;
  max_staleness = eq_of_neb x.max_staleness y.max_staleness e k;
})

or_left : (a b : Bool) → (a || b) ≡ false → a ≡ false
or_left a b h = ground arith

or_right : (a b : Bool) → (a || b) ≡ false → b ≡ false
or_right a b h = ground arith

partition_eq :
    (x y : Option TimePartitioningInputs)
    → either partition_differs x y ≡ false
    → both (λ o n. neb o.expiration_ms n.expiration_ms) x y ≡ false
    → x ≡ y
partition_eq none none a b = refl
partition_eq none (some y) a b = cc
partition_eq (some x) none a b = cc
partition_eq (some x) (some y) a b = λ k. some (record {
  partition_type = eq_of_neb x.partition_type y.partition_type (or_left _ _ a) k;
  field = eq_of_neb x.field y.field (or_right _ _ a) k;
  expiration_ms = eq_of_neb x.expiration_ms y.expiration_ms b k;
})

range_eq : (x y : Option RangePartitioningInputs) → either range_differs x y ≡ false → x ≡ y
range_eq none none a = refl
range_eq none (some y) a = cc
range_eq (some x) none a = cc
range_eq (some x) (some y) a = λ k. some (record {
  field = eq_of_neb x.field y.field (or_left _ _ (or_left _ _ (or_left _ _ a))) k;
  start = eq_of_neb x.start y.start (or_right _ _ (or_left _ _ (or_left _ _ a))) k;
  end = eq_of_neb x.end y.end (or_right _ _ (or_left _ _ a)) k;
  interval = eq_of_neb x.interval y.interval (or_right _ _ a) k;
})

external_eq : (x y : Option ExternalDataConfig) → either external_differs x y ≡ false → x ≡ y
external_eq none none a = refl
external_eq none (some y) a = cc
external_eq (some x) none a = cc
external_eq (some x) (some y) a =
    let u : neb x.source_uris y.source_uris ≡ false = ground arith in
    let f : neb x.source_format y.source_format ≡ false = ground arith in
    let d : neb x.autodetect y.autodetect ≡ false = ground arith in
    let c : neb x.connection_id y.connection_id ≡ false = ground arith in
    let r : neb x.csv_skip_leading_rows y.csv_skip_leading_rows ≡ false = ground arith in
    λ k. some (record {
      source_uris = eq_of_neb x.source_uris y.source_uris u k;
      source_format = eq_of_neb x.source_format y.source_format f k;
      autodetect = eq_of_neb x.autodetect y.autodetect d k;
      connection_id = eq_of_neb x.connection_id y.connection_id c k;
      csv_skip_leading_rows = eq_of_neb x.csv_skip_leading_rows y.csv_skip_leading_rows r k;
    })

toggled_self : {A : Type 0} (x : Option A) → toggled x x ≡ false
toggled_self none = refl
toggled_self (some x) = refl

both_self :
    {A : Type 0} (test : A → A → Bool) (x : Option A)
    → ((a : A) → test a a ≡ false)
    → both test x x ≡ false
both_self test none h = refl
both_self test (some x) h = h x

either_self :
    {A : Type 0} (test : A → A → Bool) (x : Option A)
    → ((a : A) → test a a ≡ false)
    → either test x x ≡ false
either_self test none h = refl
either_self test (some x) h = h x

partition_self : (a : TimePartitioningInputs) → partition_differs a a ≡ false
partition_self a = ground (arith, neb_self a.partition_type, neb_self a.field)

range_self : (a : RangePartitioningInputs) → range_differs a a ≡ false
range_self a =
    ground (arith, neb_self a.field, neb_self a.start, neb_self a.end, neb_self a.interval)

external_self : (a : ExternalDataConfig) → external_differs a a ≡ false
external_self a = ground (
  arith,
  neb_self a.source_uris,
  neb_self a.source_format,
  neb_self a.autodetect,
  neb_self a.connection_id,
  neb_self a.csv_skip_leading_rows,
)

replace_self : (x : TableInputs) → AllSame (replace_tests x x)
replace_self x = (
  neb_self x.project,
  (
    neb_self x.dataset,
    (
      neb_self x.table_id,
      (
        toggled_self x.view,
        (
          toggled_self x.materialized_view,
          (
            both_self _ x.view (λ a. neb_self a.query),
            (
              both_self _ x.view (λ a. neb_self a.use_legacy_sql),
              (
                both_self _ x.materialized_view (λ a. neb_self a.query),
                (
                  either_self _ x.time_partitioning partition_self,
                  (
                    either_self _ x.range_partitioning range_self,
                    (
                      neb_self x.encryption_kms_key,
                      (either_self _ x.external_data_config external_self, tt),
                    ),
                  ),
                ),
              ),
            ),
          ),
        ),
      ),
    ),
  ),
)

update_self : (x : TableInputs) → AllSame (update_tests x x)
update_self x = (
  both_self _ x.time_partitioning (λ a. neb_self a.expiration_ms),
  (
    neb_self x.description,
    (
      neb_self x.friendly_name,
      (
        neb_self x.labels,
        (
          neb_self x.expiration_time,
          (
            neb_self x.deletion_protection,
            (
              neb_self x.clusterings,
              (
                neb_self x.storage_billing_model,
                (
                  neb_self x.max_staleness,
                  (
                    both_self _ x.materialized_view (λ a. neb_self a.enable_refresh),
                    (
                      both_self _ x.materialized_view (λ a. neb_self a.refresh_interval_ms),
                      (both_self _ x.materialized_view (λ a. neb_self a.max_staleness), tt),
                    ),
                  ),
                ),
              ),
            ),
          ),
        ),
      ),
    ),
  ),
)

same_eq :
    (old new : TableInputs)
    → AllSame (replace_tests old new)
    → AllSame (update_tests old new)
    → old ≡ new
same_eq old new (a, (b, (c, (d, (e, (f, (g, (h, (i, (j, (l, (m, _))))))))))))
      (n, (o, (p, (q, (r, (s, (t, (u, (v, (w, (x, (y, _)))))))))))) =
    λ k. record {
      project = eq_of_neb old.project new.project a k;
      dataset = eq_of_neb old.dataset new.dataset b k;
      table_id = eq_of_neb old.table_id new.table_id c k;
      description = eq_of_neb old.description new.description o k;
      friendly_name = eq_of_neb old.friendly_name new.friendly_name p k;
      labels = eq_of_neb old.labels new.labels q k;
      view = view_eq old.view new.view d f g k;
      materialized_view = materialized_eq old.materialized_view new.materialized_view e h w x y k;
      time_partitioning = partition_eq old.time_partitioning new.time_partitioning i n k;
      range_partitioning = range_eq old.range_partitioning new.range_partitioning j k;
      clusterings = eq_of_neb old.clusterings new.clusterings t k;
      deletion_protection = eq_of_neb old.deletion_protection new.deletion_protection s k;
      expiration_time = eq_of_neb old.expiration_time new.expiration_time r k;
      encryption_kms_key = eq_of_neb old.encryption_kms_key new.encryption_kms_key l k;
      storage_billing_model = eq_of_neb old.storage_billing_model new.storage_billing_model u k;
      max_staleness = eq_of_neb old.max_staleness new.max_staleness v k;
      external_data_config = external_eq old.external_data_config new.external_data_config m k;
    }

-- The diff of two sets of table inputs has no changes exactly when they are equal: no field, also
-- inside a view, a partitioning or an external data configuration, escapes the comparison, and
-- equal inputs never cause an update or a replacement.
pub compute_table_diff_exact :
    (old new : TableInputs) → (has_changes (compute_table_diff old new) ≡ false) ↔ (old ≡ new)
unfolding compute_table_diff
compute_table_diff_exact old new = (
  λ h.
      let (r, u) = has_changes_same (replace_tests old new) (update_tests old new) h in
      same_eq old new r u,
  λ e.
      subst (λ x. has_changes (compute_table_diff old x) ≡ false) e
        (same_has_changes (replace_tests old old) (update_tests old old) (replace_self old)
          (update_self old)),
)
