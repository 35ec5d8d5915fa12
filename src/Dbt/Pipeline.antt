-- ===== src/Dbt/Pipeline.antt =====
-- crates/gcpx-dbt/src/preprocess.rs: the phases in their order. `none` says that a loop ran out of
-- fuel.
pub mod Total
use pulumi_rs_provider_gcpx.Base.{Bool, List, Option, none, some, Text, Result, ok, err}
use pulumi_rs_provider_gcpx.Dbt.Preprocess.{
  PreprocessError, protect_raw_regions, handle_incremental_blocks, replace_this,
}
use pulumi_rs_provider_gcpx.Dbt.Vars.{expand_vars}
use pulumi_rs_provider_gcpx.Dbt.Builtins.{expand_builtins}

abbrev pub and_phase :
    Option (Result Text PreprocessError)
    → (Text → Option (Result Text PreprocessError))
    → Option (Result Text PreprocessError)
and_phase none next = none
and_phase (some (err e)) next = some (err e)
and_phase (some (ok t)) next = next t

-- A phase that cannot fail.
abbrev pub as_phase : Option Text → Option (Result Text PreprocessError)
as_phase none = none
as_phase (some t) = some (ok t)

module _ (encode : Text → Text) (to_uppercase : Text → Text) where
  unfoldable pub preprocess :
      Text → List (Text × Text) → Text → Bool → Option (Result Text PreprocessError)
  unfolding protect_raw_regions handle_incremental_blocks replace_this expand_vars expand_builtins
  preprocess sql vars table_ref is_incremental =
      and_phase (protect_raw_regions encode sql) (λ protected.
        and_phase (as_phase (handle_incremental_blocks protected is_incremental)) (λ step1.
          and_phase (expand_vars (replace_this step1 table_ref) vars)
            (λ step3. as_phase (expand_builtins to_uppercase step3))))
