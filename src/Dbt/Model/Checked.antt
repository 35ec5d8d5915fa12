-- ===== src/Dbt/Model/Checked.antt =====
-- Which models are accepted (crates/gcpx-dbt/src/validate.rs).
use pulumi_rs_provider_gcpx.Base.{
  ◌≡◌, refl, ◌∙◌, Bool, true, false, not, ◌||◌, ◌&&◌, List, [], ◌∷◌, ◌++◌, Option, none, some, Text,
  codes, is_empty, is_empty-append, all, any, text_eq, contains, map_get, Result, ok, err, arith,
}
use pulumi_rs_provider_gcpx.Dbt.Templates.{DbtSegment, config, ref, source, call, scan}
use pulumi_rs_provider_gcpx.Dbt.Preprocess.{is_entirely_raw}
use pulumi_rs_provider_gcpx.Dbt.Macros.{MacroDef, MacroError, expand_macros}
use pulumi_rs_provider_gcpx.Dbt.Macros.Settled.{scan_ends, expand_macros_ends}
use pulumi_rs_provider_gcpx.Dbt.Resolver.{SourceDef, ModelRefData, is_some}
use pulumi_rs_provider_gcpx.Dbt.Config.{ModelConfig, ConfigEntry, config_entries}
use pulumi_rs_provider_gcpx.Dbt.Config.Entries.{config_entries_end}
use pulumi_rs_provider_gcpx.Dbt.Validate.Accepted.{is_empty-fail_if}
use pulumi_rs_provider_gcpx.Dbt.Validate.{CheckFailure, macro_failed}
use pulumi_rs_provider_gcpx.Dbt.Model.{
  ProjectContext, is_listed, is_builtin_call, sql_failure, source_failure, segment_failures,
  segments_failures, config_count, either_key, has_materialized_key, early_failures, late_failures,
  after_macros, validate_model,
}
use pulumi_rs_provider_gcpx.Dbt.Model.Rules.{
  valid_config, is_empty-config_failures, involutive, implied,
}

-- The table is one of the source's.
abbrev pub has_table : Text → Option SourceDef → Bool
has_table table none = false
has_table table (some d) = is_listed table d.tables

module _ (context : ProjectContext) (model_refs : List (Text × ModelRefData))
    (macros : List (Text × MacroDef)) where
  -- What a template may refer to.
  abbrev pub allowed : DbtSegment → Bool
  allowed (config raw_args) = true
  allowed (ref model) =
      is_listed model context.declared_models && is_some (map_get model model_refs)
  allowed (source s table) = has_table table (map_get s context.sources)
  allowed (call name raw_args) = is_some (map_get name macros) || is_builtin_call name
  allowed (DbtSegment.sql s) = not (contains (codes "__dbt__cte__") s)

  is_empty-source_failure :
      (s table : Text) (o : Option SourceDef)
      → is_empty (source_failure context.sources s table o) ≡ has_table table o
  is_empty-source_failure s table none = refl
  is_empty-source_failure s table (some d) = ground arith

  is_empty-segment_failures :
      (s : DbtSegment) → is_empty (segment_failures context model_refs macros s) ≡ allowed s
  unfolding segment_failures
  is_empty-segment_failures (config raw_args) = refl
  is_empty-segment_failures (ref model) = simp (is_empty-append, is_empty-fail_if) (ground arith)
  is_empty-segment_failures (source s table) =
      is_empty-source_failure s table (map_get s context.sources)
  is_empty-segment_failures (call name raw_args) = ground arith
  is_empty-segment_failures (DbtSegment.sql s) = ground arith

  is_empty-segments_failures :
      (xs : List DbtSegment)
      → is_empty (segments_failures context model_refs macros xs) ≡ all allowed xs
  unfolding segments_failures
  is_empty-segments_failures [] = refl
  is_empty-segments_failures (s ∷ rest) =
      is_empty-append (segment_failures context model_refs macros s)
        (segments_failures context model_refs macros rest)
      ∙ rw (is_empty-segment_failures s, is_empty-segments_failures rest) refl

and_last : (a b c d e : Bool) → (b && c) ≡ e → (a && (b && (c && d))) ≡ (a && (e && d))
and_last a b c d e h = ground (arith, h)

either_key_ends :
    (a : Option (List ConfigEntry)) (b : Option Bool)
    → (xs : List ConfigEntry) × (a ≡ some xs)
    → (k : Bool) × (b ≡ some k)
    → (k : Bool) × (either_key a b ≡ some k)
either_key_ends a b (xs, h) (k, g) =
    (any (λ e. text_eq e.key (codes "materialized")) xs || k, rw (h, g) refl)

has_materialized_key_ends : (xs : List DbtSegment) → (k : Bool) × (has_materialized_key xs ≡ some k)
unfolding has_materialized_key
has_materialized_key_ends [] = (false, refl)
has_materialized_key_ends (config raw_args ∷ rest) =
    either_key_ends (config_entries raw_args) (has_materialized_key rest)
      (config_entries_end raw_args) (has_materialized_key_ends rest)
has_materialized_key_ends (ref model ∷ rest) = has_materialized_key_ends rest
has_materialized_key_ends (source s table ∷ rest) = has_materialized_key_ends rest
has_materialized_key_ends (call name raw_args ∷ rest) = has_materialized_key_ends rest
has_materialized_key_ends (DbtSegment.sql s ∷ rest) = has_materialized_key_ends rest

module _ (name sql : Text) (model_config : ModelConfig) (context : ProjectContext)
    (model_refs : List (Text × ModelRefData)) (macros : List (Text × MacroDef)) where
  -- The name and the SQL are given, and the name is declared where names are.
  abbrev pub named : Bool
  named =
      not (is_empty name)
      && (not (is_empty sql)
          && (is_empty context.declared_models || is_listed name context.declared_models))

  abbrev pub valid_segments : List DbtSegment → Bool → Bool
  valid_segments xs has_key =
      all (allowed context model_refs macros) xs
      && (valid_config (config_count xs) has_key model_config && not (is_entirely_raw sql))

  -- The model with the result of its macro expansion.
  abbrev pub IsChecked : Option (Result Text MacroError) → List CheckFailure → Type 0
  IsChecked none fs = ⊥
  IsChecked (some (err e)) fs = is_empty fs ≡ false
  IsChecked (some (ok expanded)) fs =
      (xs : List DbtSegment) × (has_key : Bool) × (scan expanded ≡ some xs)
      × (has_materialized_key xs ≡ some has_key)
      × (is_empty fs ≡ (named && valid_segments xs has_key))

  is_empty-early_failures :
      is_empty (early_failures name sql model_config context model_refs macros) ≡ named
  unfolding early_failures
  is_empty-early_failures =
      simp (early_failures, is_empty-append, is_empty-fail_if, implied, involutive)

  is_empty-late_failures :
      (xs : List DbtSegment) (has_key : Bool)
      → is_empty (late_failures name sql model_config context model_refs macros xs has_key)
        ≡ valid_segments xs has_key
  unfolding late_failures
  is_empty-late_failures xs has_key =
      simp
        (
          late_failures,
          is_empty-append,
          is_empty-fail_if,
          is_empty-segments_failures context model_refs macros xs,
        )
        (and_last _ _ _ _ _ (is_empty-config_failures (config_count xs) has_key model_config))

  failed_lem :
      (e : MacroError)
      → is_empty (
          early_failures name sql model_config context model_refs macros
          ++ sql_failure true (macro_failed e))
        ≡ false
  failed_lem e =
      is_empty-append (early_failures name sql model_config context model_refs macros)
        (sql_failure true (macro_failed e))
      ∙ ground arith

  expanded_lem :
      (expanded : Text) (xs : List DbtSegment) (k : Bool)
      → scan expanded ≡ some xs
      → has_materialized_key xs ≡ some k
      → after_macros name sql model_config context model_refs macros (some (ok expanded))
        ≡ some (
            early_failures name sql model_config context model_refs macros
            ++ late_failures name sql model_config context model_refs macros xs k)
  expanded_lem expanded xs k h g = rw (after_macros, h, g) refl

  -- `validate_model` always comes to its list of failures. It has a failure where the macros cannot be
  -- expanded. Else it is empty exactly where the name and the SQL are given, the name is declared
  -- if any is, every reference, source and macro of the expanded template is known, the template
  -- has no reserved prefix, it has no config block or a single one that names a materialization
  -- and follows the rules, and it is not entirely raw.
  pub validate_model-IsChecked :
      (fs : List CheckFailure) × (validate_model name sql model_config context model_refs macros
        ≡ some fs)
      × IsChecked (expand_macros sql macros) fs
  unfolding validate_model
  validate_model-IsChecked =
      let (r, h) = expand_macros_ends sql macros in rw (validate_model, h) (from r)
    where
      from :
          (r : Result Text MacroError)
          → (fs : List CheckFailure) × (after_macros name sql model_config context model_refs macros
                (some r)
              ≡ some fs)
            × IsChecked (some r) fs
      from (err e) = (
        early_failures name sql model_config context model_refs macros
            ++ sql_failure true (macro_failed e),
        refl,
        failed_lem e,
      )
      from (ok expanded) =
          let (xs, h) = scan_ends expanded in
          let (k, g) = has_materialized_key_ends xs in
          let early = early_failures name sql model_config context model_refs macros in
          let late = late_failures name sql model_config context model_refs macros xs k in
          (
            early ++ late,
            expanded_lem expanded xs k h g,
            (
              xs,
              k,
              h,
              g,
              is_empty-append early late
                  ∙ rw (is_empty-early_failures, is_empty-late_failures xs k) refl,
            ),
          )
