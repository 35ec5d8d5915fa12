-- ===== src/Dbt/Ddl/Merge.antt =====
-- When a MERGE updates columns (crates/gcpx-dbt/src/resolver.rs).
use pulumi_rs_provider_gcpx.Base.{
  ◌≡◌, ◌↔◌, refl, ap, sym, ◌∙◌, true, false, not, List, [], ◌∷◌, ◌++◌, map, Text, codes, is_empty,
  all, filter, drop, get_or, joined_by, arith, Bool-cases, inl, inr,
}
use pulumi_rs_provider_gcpx.Dbt.Resolver.{ResolvedSql}
use pulumi_rs_provider_gcpx.Dbt.Ddl.{
  same_column, is_key, update_set, merge_head, generate_merge_ddl, generate_merge_ddl_placeholder,
}

append_cancel : (a b c : Text) → a ++ b ≡ a ++ c → b ≡ c
append_cancel [] b c h = h
append_cancel (x ∷ a) b c h = append_cancel a b c (ap (drop 1) h)

is_empty-joined_by :
    (c : Text) (cs : List Text)
    → is_empty (joined_by (codes ", ") (map same_column (c ∷ cs))) ≡ false
unfolding joined_by
is_empty-joined_by c [] = refl
is_empty-joined_by c (d ∷ cs) = refl

-- There is nothing to update exactly where every column is a key.
is_empty-update_set :
    (keys columns : List Text) → is_empty (update_set keys columns) ≡ all (is_key keys) columns
unfolding update_set joined_by
is_empty-update_set keys [] = refl
is_empty-update_set keys (c ∷ cs) = elim (Bool-cases (is_key keys c)) [
  | inl h ↦ rw (update_set, h) (is_empty-update_set keys cs)
  | inr h ↦ rw (update_set, h) (is_empty-joined_by c (filter (λ d. not (is_key keys d)) cs))
]

-- The MERGE of a table with known columns is the one that only inserts, exactly where every column is
-- a key, in whatever case.
pub generate_merge_ddl-generate_merge_ddl_placeholder :
    (project dataset name : Text) (keys columns : List Text) (resolved : ResolvedSql)
    → (generate_merge_ddl project dataset name keys columns resolved
        ≡ generate_merge_ddl_placeholder project dataset name keys resolved)
      ↔ (all (is_key keys) columns ≡ true)
unfolding generate_merge_ddl generate_merge_ddl_placeholder
generate_merge_ddl-generate_merge_ddl_placeholder project dataset name keys columns resolved =
    elim (Bool-cases (is_empty (update_set keys columns))) [
      | inl h ↦
          rw (generate_merge_ddl, h) ((λ e. sym (is_empty-update_set keys columns) ∙ h), λ e. refl)
      | inr h ↦
          rw (generate_merge_ddl, h)
            (
              (λ e. ground (
                arith,
                ap (λ s. get_or s 6 0)
                    (append_cancel (merge_head project dataset name keys resolved) _ _ e),
              )),
              λ e. ground (arith, h, e, is_empty-update_set keys columns),
            )
    ]
