-- ===== src/Examples/Dbt.antt =====
-- crates/gcpx-dbt/src at concrete inputs.
use pulumi_rs_provider_gcpx.Base.{
  ◌<◌, ◌≤◌, ◌⊎◌, err, byte_len, is_empty, ◌≡◌, ◌↔◌, refl, true, false, List, [], ◌∷◌, ◌++◌, all,
  Option, none, some, Text, codes, map, map_get, text_eq, ok, ap, arith, has_char, zero, suc, ℕ,
  subst, Bool-cases, inl, inr, text_eq_iff,
}
use pulumi_rs_provider_gcpx.Dbt.Preprocess.{protect_raw_regions, restore_raw_regions}
use pulumi_rs_provider_gcpx.Dbt.Preprocess.Regions.{Unmarked}
use pulumi_rs_provider_gcpx.Dbt.Preprocess.Raw.{restore_raw_regions-protect_raw_regions}
use pulumi_rs_provider_gcpx.Dbt.Vars.{expand_vars}
use pulumi_rs_provider_gcpx.Dbt.Vars.Known.{IsExpansion, expand_vars-IsExpansion}
use pulumi_rs_provider_gcpx.Dbt.Builtins.{expand_builtins}
use pulumi_rs_provider_gcpx.Dbt.Builtins.Balance.{expand_builtins-Ends}
use pulumi_rs_provider_gcpx.Dbt.Pipeline.{preprocess}
use pulumi_rs_provider_gcpx.Dbt.Pipeline.Total.{IsPreprocessed, preprocess-IsPreprocessed}
use pulumi_rs_provider_gcpx.Dbt.Validate.{ProjectInputs, MacroInputs, validate_project}
use pulumi_rs_provider_gcpx.Dbt.Validate.Accepted.{valid_project, is_empty-validate_project}
use pulumi_rs_provider_gcpx.Dbt.Macros.{MacroDef, expand_macros, input_too_large, max_input_size}
use pulumi_rs_provider_gcpx.Dbt.Macros.Rounds.{IsOutcome}
use pulumi_rs_provider_gcpx.Dbt.Macros.Settled.{expand_macros-IsOutcome}
use pulumi_rs_provider_gcpx.Dbt.Resolver.{
  ModelRefData, ResolvedSql, resolve, cte_name, upstream_ctes,
}
use pulumi_rs_provider_gcpx.Dbt.Resolver.Known.{IsAcyclic}
use pulumi_rs_provider_gcpx.Dbt.Resolver.Ctes.{names_cte}
use pulumi_rs_provider_gcpx.Dbt.Resolver.Outcome.{IsResolved, resolve-IsResolved}
use pulumi_rs_provider_gcpx.Dbt.Options.{TableOptions, escape_ddl_string, merge_options, or_base}
use pulumi_rs_provider_gcpx.Dbt.Options.Clause.{read_double, read_double-escape_ddl_string}
use pulumi_rs_provider_gcpx.Dbt.Options.Merged.{HasUniqueKeys, map_get-merge_options}
use pulumi_rs_provider_gcpx.Dbt.Ddl.{is_key, generate_merge_ddl, generate_merge_ddl_placeholder}
use pulumi_rs_provider_gcpx.Dbt.Ddl.Merge.{generate_merge_ddl-generate_merge_ddl_placeholder}

abbrev two_vars : List (Text × Text)
two_vars = (codes "day", codes "'2026-01-01'") ∷ (codes "top", codes "10") ∷ []

expand_vars-IsExpansion_example :
    IsExpansion two_vars (expand_vars (codes "LIMIT {{ var('top') }}") two_vars)
expand_vars-IsExpansion_example = expand_vars-IsExpansion (codes "LIMIT {{ var('top') }}") two_vars

expand_builtins-Ends_example :
    (out : Text) × (expand_builtins (λ s. s) (codes "dbt_utils.datediff(a, f(b, c), 'DAY')")
      ≡ some out)
expand_builtins-Ends_example =
    expand_builtins-Ends (λ s. s) (codes "dbt_utils.datediff(a, f(b, c), 'DAY')")

abbrev cents : List (Text × MacroDef)
cents = (codes "cents", record { args = codes "c" ∷ []; sql = codes "({{ c }} / 100)" }) ∷ []

abbrev cents_sql : Text
cents_sql = codes "SELECT {{ cents('x') }} FROM {{ ref('a') }}"

expand_macros-IsOutcome_example :
    ((max_input_size < byte_len cents_sql)
      × (expand_macros cents_sql cents
          ≡ some (err (input_too_large (byte_len cents_sql) max_input_size))))
    ⊎ ((byte_len cents_sql ≤ max_input_size)
        × IsOutcome cents 9 cents_sql (expand_macros cents_sql cents))
expand_macros-IsOutcome_example = expand_macros-IsOutcome cents_sql cents refl

abbrev ephemeral_a : ModelRefData
ephemeral_a = record {
  materialization = codes "ephemeral";
  resolved_ctes_json = codes "[[\"__dbt__cte__b\",\"SELECT 2\"]]";
  resolved_body = codes "SELECT 1";
  table_ref = [];
  resolved_ddl = [];
  resolved_sql = [];
  workflow_yaml = [];
}

abbrev one_cte : Text → Option (List (Text × Text))
one_cte s = some ((codes "__dbt__cte__b", codes "SELECT 2") ∷ [])

abbrev refs_a : List (Text × ModelRefData)
refs_a = (codes "a", ephemeral_a) ∷ []

refs_a-IsAcyclic : IsAcyclic one_cte refs_a
unfolding map_get upstream_ctes text_eq
refs_a-IsAcyclic model d h = elim (Bool-cases (text_eq (codes "a") model)) [
  | inl e ↦
      subst (λ m. names_cte (cte_name m) (upstream_ctes one_cte d) ≡ false)
        ((text_eq_iff (codes "a") model).0 e) (ground arith)
  | inr e ↦ ground (arith, e, h)
]

resolve-IsResolved_example :
    IsResolved one_cte
      (codes "p")
      []
      refs_a
      refs_a-IsAcyclic
      (expand_macros (codes "SELECT * FROM {{ ref('a') }}") [])
      (resolve one_cte (λ s. s) (codes "p") [] refs_a (codes "SELECT * FROM {{ ref('a') }}") [])
resolve-IsResolved_example =
    resolve-IsResolved one_cte (codes "p") [] refs_a refs_a-IsAcyclic (λ s. s)
      (codes "SELECT * FROM {{ ref('a') }}") []

abbrev no_options : TableOptions
no_options = record {
  require_partition_filter = none;
  partition_expiration_days = none;
  friendly_name = none;
  description = none;
  labels = [];
  kms_key_name = none;
  default_collation_name = none;
  enable_refresh = none;
  refresh_interval_minutes = none;
  max_staleness = none;
}

abbrev labelled : TableOptions
labelled = record no_options { labels = (codes "env", codes "prod") ∷ [] }

map_get-merge_options_example :
    map_get (codes "env") (merge_options no_options labelled).labels
    ≡ or_base (map_get (codes "env") labelled.labels) (map_get (codes "env") no_options.labels)
unfolding HasUniqueKeys map_get
map_get-merge_options_example = map_get-merge_options no_options labelled (codes "env") (refl, tt)

read_double-escape_ddl_string_example :
    read_double (escape_ddl_string (codes "a\"b\\") ++ 34 ∷ codes ")")
    ≡ some (codes "a\"b\\", codes ")")
read_double-escape_ddl_string_example = read_double-escape_ddl_string (codes "a\"b\\") (codes ")")

abbrev plain_sql : ResolvedSql
plain_sql = record { ctes = []; body = codes "SELECT 1" }

generate_merge_ddl-generate_merge_ddl_placeholder_example :
    (generate_merge_ddl
        (codes "p")
        (codes "d")
        (codes "t")
        (codes "id" ∷ [])
        (codes "ID" ∷ codes "n" ∷ [])
        plain_sql
      ≡ generate_merge_ddl_placeholder
          (codes "p")
          (codes "d")
          (codes "t")
          (codes "id" ∷ [])
          plain_sql)
    ↔ (all (is_key (codes "id" ∷ [])) (codes "ID" ∷ codes "n" ∷ []) ≡ true)
generate_merge_ddl-generate_merge_ddl_placeholder_example =
    generate_merge_ddl-generate_merge_ddl_placeholder (codes "p") (codes "d") (codes "t")
      (codes "id" ∷ []) (codes "ID" ∷ codes "n" ∷ []) plain_sql

-- A stand-in for base64 that moves each character up by one.
abbrev shifted : Text → Text
shifted t = map suc t

abbrev one_less : ℕ → ℕ
one_less zero = zero
one_less (suc n) = n

abbrev unshifted : Text → Text
unshifted t = map one_less t

unshifted-shifted : (t : Text) → unshifted (shifted t) ≡ t
unshifted-shifted [] = refl
unshifted-shifted (c ∷ t) = ap (◌∷◌ c) (unshifted-shifted t)

has_char-shifted : (t : Text) → has_char 0 (shifted t) ≡ false
has_char-shifted [] = refl
has_char-shifted (c ∷ t) = ground (arith, has_char-shifted t)

abbrev half_raw : Text
half_raw = codes "a {% raw %}{{ b }}{% endraw %} {% raw %} c"

restore_raw_regions-protect_raw_regions_example :
    (out final : Text) × (protect_raw_regions shifted half_raw ≡ some (ok out))
    × Unmarked half_raw final
    × (restore_raw_regions unshifted out ≡ some final)
restore_raw_regions-protect_raw_regions_example =
    restore_raw_regions-protect_raw_regions shifted unshifted unshifted-shifted has_char-shifted
      half_raw refl

preprocess-IsPreprocessed_example :
    IsPreprocessed two_vars half_raw
      (preprocess shifted (λ s. s) half_raw two_vars (codes "`t`") true)
preprocess-IsPreprocessed_example =
    preprocess-IsPreprocessed shifted (λ s. s) half_raw two_vars (codes "`t`") true

abbrev shop : ProjectInputs
shop = record {
  gcp_project = codes "p";
  dataset = codes "d";
  sources = (codes "raw", record { dataset = codes "r"; tables = codes "t" ∷ [] }) ∷ [];
  declared_models = codes "a" ∷ codes "A" ∷ [];
  declared_macros = codes "m" ∷ [];
  vars = [];
}

is_empty-validate_project_example : is_empty (validate_project shop) ≡ valid_project shop
is_empty-validate_project_example = is_empty-validate_project shop

abbrev twice : MacroInputs
twice = record { name = codes "twice"; args = codes "x" ∷ codes "ref" ∷ []; sql = codes "{{ x }}" }
