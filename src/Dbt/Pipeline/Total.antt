-- ===== src/Dbt/Pipeline/Total.antt =====
-- What the preprocessor comes to (crates/gcpx-dbt/src/preprocess.rs).
use pulumi_rs_provider_gcpx.Base.{
  suc, ◌++◌, ◌≡◌, refl, Bool, true, false, not, List, [], ◌∷◌, Option, none, some, Text, length,
  has_char, Result, ok, err, Bool-cases, inl, inr, arith,
}
use pulumi_rs_provider_gcpx.Dbt.Preprocess.{
  PreprocessError, unknown_var, unsupported_input, protect_raw_regions, handle_incremental_blocks,
  replace_this, contains_raw_tag, raw, end_raw, if_is_incremental, end_if, sentinel_prefix,
  sentinel_suffix,
}
use pulumi_rs_provider_gcpx.Dbt.Preprocess.Raw.{rewrite_regions_ends}
use pulumi_rs_provider_gcpx.Dbt.Vars.{expand_vars, get_var, available}
use pulumi_rs_provider_gcpx.Dbt.Vars.Known.{IsExpansion, expand_vars-IsExpansion}
use pulumi_rs_provider_gcpx.Dbt.Builtins.{expand_builtins}
use pulumi_rs_provider_gcpx.Dbt.Builtins.Balance.{expand_builtins-Ends}
use pulumi_rs_provider_gcpx.Dbt.Pipeline.{and_phase, as_phase, preprocess}

module _ (vars : List (Text × Text)) (sql : Text) where
  -- When each result is given.
  abbrev pub IsPreprocessed : Option (Result Text PreprocessError) → Type 0
  IsPreprocessed none = ⊥
  IsPreprocessed (some (ok out)) = has_char 0 sql ≡ false
  IsPreprocessed (some (err (unknown_var name names))) =
      (has_char 0 sql ≡ false) × (get_var name vars ≡ none) × (names ≡ available vars)
  IsPreprocessed (some (err (unsupported_input reason))) = has_char 0 sql ≡ true

  phase-IsPreprocessed :
      (o : Option Text) (next : Text → Option (Result Text PreprocessError))
      → (out : Text) × (o ≡ some out)
      → ((t : Text) → IsPreprocessed (next t))
      → IsPreprocessed (and_phase (as_phase o) next)
  phase-IsPreprocessed o next (out, h) k = rw h (k out)

  vars-IsPreprocessed :
      (o : Option (Result Text PreprocessError))
      (next : Text → Option (Result Text PreprocessError))
      → has_char 0 sql ≡ false
      → IsExpansion vars o
      → ((t : Text) → IsPreprocessed (next t))
      → IsPreprocessed (and_phase o next)
  vars-IsPreprocessed o next z (inl (out, h)) k = rw h (k out)
  vars-IsPreprocessed o next z (inr (name, e, h)) k = rw h (z, e, refl)

  module _ (encode : Text → Text) (next : Text → Option (Result Text PreprocessError)) where
    protect-IsPreprocessed :
        (has_char 0 sql ≡ false → (t : Text) → IsPreprocessed (next t))
        → IsPreprocessed (and_phase (protect_raw_regions encode sql) next)
    unfolding protect_raw_regions
    protect-IsPreprocessed k = elim (Bool-cases (has_char 0 sql)) [
      | inl nul ↦ rw (protect_raw_regions, nul) nul
      | inr z ↦ elim (Bool-cases (not (contains_raw_tag sql))) [
        | inl bare ↦ rw (protect_raw_regions, z, bare) (k z sql)
        | inr tagged ↦
            (let (out, h) =
                rewrite_regions_ends (suc (length sql)) raw end_raw
                  (λ body. sentinel_prefix ++ (encode body ++ sentinel_suffix ∷ [])) sql
                  (omega arith) in
              rw (protect_raw_regions, z, tagged, h) (k z out))
      ]
    ]

module _ (encode to_uppercase : Text → Text) where
  -- `preprocess` always comes to a result. It is a text, or the error for a variable that is not
  -- defined, where the SQL has no NUL character, and the error for unsupported input where it has
  -- one.
  pub preprocess-IsPreprocessed :
      (sql : Text) (vars : List (Text × Text)) (table_ref : Text) (is_incremental : Bool)
      → IsPreprocessed vars sql (preprocess encode to_uppercase sql vars table_ref is_incremental)
  unfolding preprocess handle_incremental_blocks
  preprocess-IsPreprocessed sql vars table_ref is_incremental =
      protect-IsPreprocessed vars sql encode _ (λ z protected.
        phase-IsPreprocessed vars sql (handle_incremental_blocks protected is_incremental) _
          (rewrite_regions_ends (suc (length protected)) if_is_incremental end_if _ protected
            (omega arith))
          (λ step1.
            vars-IsPreprocessed vars sql (expand_vars (replace_this step1 table_ref) vars) _ z
              (expand_vars-IsExpansion (replace_this step1 table_ref) vars)
              (λ step3.
                ends z (expand_builtins to_uppercase step3)
                  (expand_builtins-Ends to_uppercase step3))))
    where
      ends :
          (has_char 0 sql ≡ false)
          → (o : Option Text) → (out : Text) × (o ≡ some out)
          → IsPreprocessed vars sql (as_phase o)
      ends z o (out, h) = rw h z
