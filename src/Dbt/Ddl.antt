-- ===== src/Dbt/Ddl.antt =====
-- crates/gcpx-dbt/src/resolver.rs and types.rs: the statements for a resolved model. Unicode's case
-- tables are not in the repository: `to_lowercase` and `to_uppercase` are parameters.
pub mod Merge
use pulumi_rs_provider_gcpx.Base.{
  ℕ, Bool, true, false, not, ◌||◌, List, [], ◌∷◌, ◌++◌, map, Option, none, some, Text, codes,
  text_eq, eq_ignore_case, is_empty, any, filter, if◌then◌else◌, joined_by,
}
use pulumi_rs_provider_gcpx.Core.Sanitize.{bq_table_ref, bq_col_ref}
use pulumi_rs_provider_gcpx.Dbt.Options.{TableOptions, has_no_options, options_ddl}
use pulumi_rs_provider_gcpx.Dbt.Resolver.{ResolvedSql}

abbrev pub cte_text : Text × Text → Text
cte_text e = e.0 ++ (codes " AS (" ++ (e.1 ++ codes ")"))

unfoldable pub to_sql : ResolvedSql → Text
unfolding joined_by
to_sql r =
    if is_empty r.ctes
    then r.body
    else codes "WITH " ++ (joined_by (codes ", ") (map cte_text r.ctes) ++ (b' ' ∷ r.body))

pub record PartitionConfig : Type 0 where
  pub field : Text
  pub data_type : Text
  pub granularity : Option Text

abbrev pub text_or : Text → Option Text → Text
text_or d none = d
text_or d (some s) = s

module _ (to_lowercase to_uppercase : Text → Text) where
  abbrev pub truncated : Text → PartitionConfig → Text
  truncated name p =
      name
      ++ (b'('
          ∷ (p.field
              ++ (codes ", " ++ (to_uppercase (text_or (codes "DAY") p.granularity) ++ codes ")"))))

  unfoldable pub partition_ddl : PartitionConfig → Text
  unfolding text_eq
  partition_ddl p =
      let t = to_lowercase p.data_type in
      if text_eq t (codes "timestamp")
      then truncated (codes "TIMESTAMP_TRUNC") p
      else if text_eq t (codes "datetime")
      then truncated (codes "DATETIME_TRUNC") p
      else p.field

-- A line of its own, where there is something to write.
abbrev pub own_line : Text → Text
own_line s = if is_empty s then [] else 10 ∷ s

abbrev pub cluster_line : Option (List Text) → Text
cluster_line none = []
cluster_line (some cols) =
    if is_empty cols then [] else 10 ∷ (codes "CLUSTER BY " ++ joined_by (codes ", ") cols)

unfoldable pub options_clause : Option TableOptions → Text
unfolding has_no_options options_ddl
options_clause none = []
options_clause (some o) = if has_no_options o then [] else options_ddl o

module _ (to_lowercase to_uppercase : Text → Text) where
  abbrev pub partition_line : Option PartitionConfig → Text
  partition_line none = []
  partition_line (some p) =
      10 ∷ (codes "PARTITION BY " ++ partition_ddl to_lowercase to_uppercase p)

  unfoldable pub generate_ddl :
      Text
      → Text
      → Text
      → Text
      → ResolvedSql
      → Option PartitionConfig
      → Option (List Text)
      → Option TableOptions
      → Text
  unfolding bq_table_ref to_sql partition_ddl options_clause text_eq joined_by
  generate_ddl project dataset name materialization resolved partition_by cluster_by options =
      let table_ref = bq_table_ref project dataset name in
      let clause = own_line (options_clause options) in
      let tail = clause ++ (codes " AS " ++ to_sql resolved) in
      let is = λ (m : Text). text_eq materialization m in
      if is (codes "table") || is (codes "incremental")
      then codes "CREATE OR REPLACE TABLE "
        ++ (table_ref ++ (partition_line partition_by ++ (cluster_line cluster_by ++ tail)))
      else if is (codes "view")
      then codes "CREATE OR REPLACE VIEW " ++ (table_ref ++ tail)
      else if is (codes "materialized_view")
      then codes "CREATE MATERIALIZED VIEW " ++ (table_ref ++ tail)
      else []

abbrev pub same_column : Text → Text
same_column c = codes "T." ++ (bq_col_ref c ++ (codes " = S." ++ bq_col_ref c))

unfoldable pub on_clause : List Text → Text
unfolding joined_by bq_col_ref
on_clause unique_keys = joined_by (codes " AND ") (map same_column unique_keys)

unfoldable pub is_key : List Text → Text → Bool
unfolding eq_ignore_case
is_key unique_keys c = any (λ k. eq_ignore_case k c) unique_keys

unfoldable pub update_set : List Text → List Text → Text
unfolding joined_by bq_col_ref is_key
update_set unique_keys columns =
    joined_by (codes ", ") (map same_column (filter (λ c. not (is_key unique_keys c)) columns))

-- What both kinds of MERGE start with.
unfoldable pub merge_head : Text → Text → Text → List Text → ResolvedSql → Text
unfolding bq_table_ref to_sql on_clause
merge_head project dataset name unique_keys resolved =
    codes "MERGE "
    ++ (bq_table_ref project dataset name
        ++ (codes " T USING (" ++ (to_sql resolved ++ (codes ") S ON " ++ on_clause unique_keys))))

unfoldable pub generate_merge_ddl : Text → Text → Text → List Text → List Text → ResolvedSql → Text
unfolding merge_head update_set
generate_merge_ddl project dataset name unique_keys columns resolved =
    let head = merge_head project dataset name unique_keys resolved in
    let updates = update_set unique_keys columns in
    if is_empty updates
    then head ++ codes " WHEN NOT MATCHED THEN INSERT ROW"
    else head
      ++ (codes " WHEN MATCHED THEN UPDATE SET "
          ++ (updates ++ codes " WHEN NOT MATCHED THEN INSERT ROW"))

unfoldable pub generate_merge_ddl_placeholder : Text → Text → Text → List Text → ResolvedSql → Text
unfolding merge_head
generate_merge_ddl_placeholder project dataset name unique_keys resolved =
    merge_head project dataset name unique_keys resolved
    ++ codes " WHEN NOT MATCHED THEN INSERT ROW"

-- One key stands alone, and several (or none) in parentheses.
abbrev pub delete_where : List Text → Text
delete_where (k ∷ []) = k ++ (codes " IN (SELECT " ++ (k ++ codes " FROM __src)"))
delete_where keys =
    let tuple = joined_by (codes ", ") keys in
    b'(' ∷ (tuple ++ (codes ") IN (SELECT " ++ (tuple ++ codes " FROM __src)")))

unfoldable pub generate_delete_insert_ddl : Text → Text → Text → List Text → ResolvedSql → Text
unfolding bq_table_ref bq_col_ref to_sql joined_by
generate_delete_insert_ddl project dataset name unique_keys resolved =
    let table_ref = bq_table_ref project dataset name in
    codes "BEGIN\n  CREATE TEMP TABLE __src AS ("
    ++ (to_sql resolved
        ++ (codes ");\n  DELETE FROM "
            ++ (table_ref
                ++ (codes " WHERE "
                    ++ (delete_where (map bq_col_ref unique_keys)
                        ++ (codes ";\n  INSERT INTO "
                            ++ (table_ref
                                ++ codes " SELECT * FROM __src;\n  DROP TABLE __src;\nEND;")))))))

unfoldable pub generate_append_ddl : Text → Text → Text → ResolvedSql → Text
unfolding bq_table_ref to_sql
generate_append_ddl project dataset name resolved =
    codes "INSERT INTO " ++ (bq_table_ref project dataset name ++ (b' ' ∷ to_sql resolved))

unfoldable pub generate_merge_replace_ddl : Text → Text → Text → ResolvedSql → Text
unfolding bq_table_ref to_sql
generate_merge_replace_ddl project dataset name resolved =
    codes "MERGE "
    ++ (bq_table_ref project dataset name
        ++ (codes " T USING ("
            ++ (to_sql resolved
                ++ codes
                    ") S ON FALSE WHEN NOT MATCHED BY TARGET THEN INSERT ROW WHEN NOT MATCHED BY SOURCE THEN DELETE")))
