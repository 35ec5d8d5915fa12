-- ===== src/Dbt/Validate.antt =====
-- crates/gcpx-dbt/src/validate.rs and types.rs: the checks on a project's and a macro's inputs. A
-- reason is structured data in place of its text.
pub mod Accepted
use pulumi_rs_provider_gcpx.Base.{
  ℕ, ℤ, pos, negsuc, zero, suc, Bool, true, false, not, List, [], ◌∷◌, ◌++◌, map, Option, none,
  some, Text, codes, is_empty, any, eq_ignore_case, if◌then◌else◌,
}
use pulumi_rs_provider_gcpx.Dbt.Macros.{MacroError}

pub record SourceInputs : Type 0 where
  pub dataset : Text
  pub tables : List Text

pub record ProjectInputs : Type 0 where
  pub gcp_project : Text
  pub dataset : Text
  pub sources : List (Text × SourceInputs)
  pub declared_models : List Text
  pub declared_macros : List Text
  pub vars : List (Text × Text)

pub record MacroInputs : Type 0 where
  pub name : Text
  pub args : List Text
  pub sql : Text

pub data Reason : Type 0 where
  empty_project empty_dataset empty_macro_name empty_macro_sql : Reason
  empty_source_dataset : Text → Reason
  no_source_tables : Text → Reason
  duplicate_model : Text → Reason
  duplicate_macro : Text → Reason
  reserved_macro : Text → Reason
  collision : Text → Reason
  duplicate_arg : Text → Reason
  reserved_arg : Text → Reason
  limit_not_positive : ℤ → Reason
  entirely_raw empty_model_name empty_model_sql reserved_cte several_configs : Reason
  undeclared_model : Text → Reason
  macro_failed : MacroError → Reason
  unknown_model : Text → List Text → Reason
  not_wired : Text → Reason
  unknown_source_name : Text → List Text → Reason
  undeclared_table : Text → Text → List Text → Reason
  unknown_call : Text → List Text → Reason
  invalid_materialization invalid_strategy : Text → Reason
  no_unique_key no_partition_field filter_without_partition : Reason
  expiration_without_partition refresh_of_other interval_without_refresh no_materialized : Reason
  too_many_clusters : ℕ → Reason

pub record CheckFailure : Type 0 where
  pub property : Text
  pub reason : Reason

-- A failure where the test says so.
abbrev pub fail_if : Bool → Text → Reason → List CheckFailure
fail_if b p r = if b then record { property = p; reason = r } ∷ [] else []

abbrev pub reserved_names : List Text
reserved_names = codes "config" ∷ codes "ref" ∷ codes "source" ∷ []

unfoldable pub is_among : Text → List Text → Bool
unfolding eq_ignore_case
is_among m names = any (λ s. eq_ignore_case s m) names

unfoldable pub source_failures : List (Text × SourceInputs) → List CheckFailure
source_failures [] = []
source_failures (e ∷ rest) =
    fail_if (is_empty e.1.dataset) (codes "sources." ++ (e.0 ++ codes ".dataset"))
      (empty_source_dataset e.0)
    ++ (fail_if (is_empty e.1.tables) (codes "sources." ++ (e.0 ++ codes ".tables"))
          (no_source_tables e.0)
        ++ source_failures rest)

-- The loop over the models' names, with those that were seen.
unfoldable pub model_failures : List Text → List Text → List CheckFailure
unfolding is_among
model_failures seen [] = []
model_failures seen (m ∷ rest) =
    fail_if (is_among m seen) (codes "declaredModels") (duplicate_model m)
    ++ model_failures (seen ++ m ∷ []) rest

-- The loop over names that must not be reserved either.
unfoldable pub name_failures :
    Text → (Text → Reason) → (Text → Reason) → List Text → List Text → List CheckFailure
unfolding is_among
name_failures p duplicate reserved seen [] = []
name_failures p duplicate reserved seen (m ∷ rest) =
    fail_if (is_among m seen) p (duplicate m)
    ++ (fail_if (is_among m reserved_names) p (reserved m)
        ++ name_failures p duplicate reserved (seen ++ m ∷ []) rest)

unfoldable pub collision_failures : List Text → List Text → List CheckFailure
unfolding is_among
collision_failures macros [] = []
collision_failures macros (m ∷ rest) =
    fail_if (is_among m macros) (codes "declaredModels") (collision m)
    ++ collision_failures macros rest

unfoldable pub validate_project : ProjectInputs → List CheckFailure
unfolding source_failures model_failures name_failures collision_failures
validate_project i =
    fail_if (is_empty i.gcp_project) (codes "gcpProject") empty_project
    ++ (fail_if (is_empty i.dataset) (codes "dataset") empty_dataset
        ++ (source_failures i.sources
            ++ (model_failures [] i.declared_models
                ++ (name_failures (codes "declaredMacros") duplicate_macro reserved_macro []
                      i.declared_macros
                    ++ collision_failures i.declared_macros i.declared_models))))

unfoldable pub validate_macro : MacroInputs → List CheckFailure
unfolding name_failures is_among
validate_macro i =
    fail_if (is_empty i.name) (codes "name") empty_macro_name
    ++ (fail_if (is_empty i.sql) (codes "sql") empty_macro_sql
        ++ (fail_if (is_among i.name reserved_names) (codes "name") (reserved_macro i.name)
            ++ name_failures (codes "args") duplicate_arg reserved_arg [] i.args))

abbrev pub not_positive : ℤ → Bool
not_positive (pos zero) = true
not_positive (pos (suc n)) = false
not_positive (negsuc n) = true

unfoldable pub validate_max_bytes_billed : Option ℤ → List CheckFailure
validate_max_bytes_billed none = []
validate_max_bytes_billed (some limit) =
    fail_if (not_positive limit) (codes "maxBytesBilled") (limit_not_positive limit)
