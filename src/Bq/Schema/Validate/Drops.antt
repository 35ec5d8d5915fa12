-- ===== src/Bq/Schema/Validate/Drops.antt =====
-- The safety check on dropped columns (crates/gcpx-bq/src/schema/validate.rs).
use pulumi_rs_provider_gcpx.Base.{
  ◌≡◌, refl, Bool, not, ◌||◌, List, [], ◌∷◌, all, arith, is_empty, Text,
}
use pulumi_rs_provider_gcpx.Bq.Schema.Validate.{
  ConsumerConstraints, names_column, validate_schema_drop_safety,
}

-- Whether a column that is dropped is used by a consumer.
abbrev pub is_used : ConsumerConstraints → Text → Bool
is_used c col =
    names_column col c.unique_keys
    || names_column col c.partition_fields
    || names_column col c.cluster_columns

-- Dropping columns passes the safety check exactly when no dropped column is, up to case, a
-- unique key, a partition field or a cluster column of a consumer.
pub validate_schema_drop_safety_exact :
    (drops : List Text) (c : ConsumerConstraints)
    → is_empty (validate_schema_drop_safety drops c) ≡ all (λ col. not (is_used c col)) drops
unfolding validate_schema_drop_safety
validate_schema_drop_safety_exact [] c = refl
validate_schema_drop_safety_exact (col ∷ cols) c =
    ground (arith, validate_schema_drop_safety_exact cols c)
