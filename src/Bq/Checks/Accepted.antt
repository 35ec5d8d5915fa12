-- ===== src/Bq/Checks/Accepted.antt =====
-- Which inputs of tables are accepted (crates/gcpx-bq/src/table/validate.rs).
use pulumi_rs_provider_gcpx.Base.{
  ap, ℕ, ◌≡◌, refl, sym, ◌∙◌, Bool, true, false, not, ◌||◌, ◌&&◌, Option, none, some, Text, length,
  is_empty, is_empty-append, ltb, leb, arith,
}
use pulumi_rs_provider_gcpx.Bq.Table.{
  TableInputs, ViewInputs, MaterializedViewInputs, ExternalDataConfig,
}
use pulumi_rs_provider_gcpx.Bq.Checks.{
  Reason, fail_if, present, present_and, is_set, is_billing_model, validate_table,
}

is_empty-fail_if : (b : Bool) (p : Text) (r : Reason) → is_empty (fail_if b p r) ≡ not b
is_empty-fail_if true p r = refl
is_empty-fail_if false p r = refl

-- What each kind asks for: `stale` says that a staleness is given, `split` that the table is
-- partitioned, and `bare` that it is not clustered.
abbrev pub fits :
    Option ViewInputs
    → Option MaterializedViewInputs
    → Option ExternalDataConfig
    → Bool
    → Bool
    → Bool
    → Bool
fits none none none stale split bare = not stale
fits (some v) none none stale split bare =
    not (is_empty v.query) && (not stale && (not split && bare))
fits none (some m) none stale split bare = not (is_empty m.query)
fits none none (some e) stale split bare = not (is_empty e.source_uris) && not stale
fits _ _ _ stale split bare = false

-- The tests of the code that are about the kind.
abbrev late_tests :
    Option ViewInputs
    → Option MaterializedViewInputs
    → Option ExternalDataConfig
    → Bool
    → Bool
    → Bool
    → Bool
late_tests v m e stale split bare =
    not (stale && not (present m))
    && (not (present v && split)
        && (not (present v && not bare)
            && (not (present e && present v)
                && (not (present e && present m)
                    && (not (present_and (λ d. is_empty d.source_uris) e)
                        && not (
                            present_and (λ d. present_and is_set d.enable_refresh) m
                            && present e))))))

kind_lem :
    (v : Option ViewInputs) (m : Option MaterializedViewInputs) (e : Option ExternalDataConfig)
    (stale split bare : Bool)
    → (not (present v && present m)
        && (not (present_and (λ d. is_empty d.query) v)
            && (not (present_and (λ d. is_empty d.query) m) && late_tests v m e stale split bare)))
      ≡ fits v m e stale split bare
kind_lem none none none stale split bare = ground arith
kind_lem (some v) none none stale split bare = ground arith
kind_lem none (some m) none stale split bare = ground arith
kind_lem none none (some e) stale split bare = ground arith
kind_lem (some v) (some m) none stale split bare = ground arith
kind_lem (some v) none (some e) stale split bare = ground arith
kind_lem none (some m) (some e) stale split bare = ground arith
kind_lem (some v) (some m) (some e) stale split bare = ground arith

abbrev pub valid_table : TableInputs → Bool
valid_table i =
    not (is_empty i.project)
    && (not (is_empty i.dataset)
        && (not (is_empty i.table_id)
            && (fits i.view i.materialized_view i.external_data_config (present i.max_staleness)
                  (present i.time_partitioning || present i.range_partitioning)
                  (is_empty i.clusterings)
                && (not (present i.time_partitioning && present i.range_partitioning)
                    && (leb (length i.clusterings) 4
                        && (not
                              (present_and (λ s. not (is_billing_model s)) i.storage_billing_model)
                            && not (
                                present_and is_set i.deletion_protection
                                && present i.expiration_time)))))))

and_assoc : (a b c : Bool) → ((a && b) && c) ≡ (a && (b && c))
and_assoc a b c = ground arith

-- The tests about the kind, put together.
regrouped :
    (a b c p q r k s : Bool)
    → (a && (b && (c && (p && (q && (r && (k && s)))))))
      ≡ ((a && (b && (c && k))) && (p && (q && (r && s))))
regrouped a b c p q r k s = ground arith

seven :
    (a b c d e f g s : Bool)
    → (a && (b && (c && (d && (e && (f && (g && s)))))))
      ≡ ((a && (b && (c && (d && (e && (f && g)))))) && s)
seven a b c d e f g s = sym (simp and_assoc)

rest_lem :
    (a b c p q r k l m n o t u s f v : Bool)
    → q ≡ v
    → (a && (b && (c && (k && (l && (m && (n && (o && (t && u))))))))) ≡ f
    → (a && (b && (c && (p && (q && (r && (k && (l && (m && (n && (o && (t && (u && s)))))))))))))
      ≡ (f && (p && (v && (r && s))))
rest_lem a b c p q r k l m n o t u s f v g h =
    ap (λ x. a && (b && (c && (p && (q && (r && x)))))) (seven k l m n o t u s)
    ∙ regrouped a b c p q r (k && (l && (m && (n && (o && (t && u)))))) s
    ∙ rw (h, g) refl

ltb-leb : (n : ℕ) → not (ltb 4 n) ≡ leb n 4
ltb-leb n = ground arith

-- A table is accepted exactly where its three names are given; it is a plain table, a view, a
-- materialized view or an external table, and no two of these; a view has a query and neither
-- partitions nor clusters, a materialized view a query, whatever its partitions and clusters, and an
-- external table a source; a
-- staleness is given for a materialized view only; there is one kind of partitioning at most,
-- there are four clustering fields at most, the billing model is known, and no expiration
-- bypasses the deletion protection.
pub is_empty-validate_table : (i : TableInputs) → is_empty (validate_table i) ≡ valid_table i
unfolding validate_table
is_empty-validate_table i =
    simp (validate_table, is_empty-append, is_empty-fail_if)
      (ap
        (λ t.
          not (is_empty i.project)
          && (not (is_empty i.dataset) && (not (is_empty i.table_id) && t)))
        (rest_lem (not (present i.view && present i.materialized_view))
          (not (present_and (λ d. is_empty d.query) i.view))
          (not (present_and (λ d. is_empty d.query) i.materialized_view))
          (not (present i.time_partitioning && present i.range_partitioning))
          (not (ltb 4 (length i.clusterings)))
          (not (present_and (λ b. not (is_billing_model b)) i.storage_billing_model))
          (not (present i.max_staleness && not (present i.materialized_view)))
          (not (present i.view && (present i.time_partitioning || present i.range_partitioning)))
          (not (present i.view && not (is_empty i.clusterings)))
          (not (present i.external_data_config && present i.view))
          (not (present i.external_data_config && present i.materialized_view))
          (not (present_and (λ d. is_empty d.source_uris) i.external_data_config))
          (not (
            present_and (λ d. present_and is_set d.enable_refresh) i.materialized_view
            && present i.external_data_config))
          (not (present_and is_set i.deletion_protection && present i.expiration_time)) _ _
          (ltb-leb (length i.clusterings))
          (kind_lem i.view i.materialized_view i.external_data_config (present i.max_staleness)
            (present i.time_partitioning || present i.range_partitioning)
            (is_empty i.clusterings))))
