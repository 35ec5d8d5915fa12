-- ===== src/Dbt/Config.antt =====
-- crates/gcpx-dbt/src/scanner.rs and types.rs: the arguments of a config block, and the configuration
-- of a model.
pub mod Entries
use pulumi_rs_provider_gcpx.Base.{
  ℕ, zero, suc, Bool, true, false, List, [], ◌∷◌, ◌++◌, Option, none, some, Text, codes, length,
  is_empty, drop, if◌then◌else◌, strip_prefix, starts_with, split_once, split_on, trim,
  trim_matches, eq_ignore_case, map_extend,
}
use pulumi_rs_provider_gcpx.Dbt.Templates.{extract_single_quoted}
use pulumi_rs_provider_gcpx.Dbt.Builtins.{unquoted}
use pulumi_rs_provider_gcpx.Dbt.Options.{TableOptions}
use pulumi_rs_provider_gcpx.Dbt.Ddl.{PartitionConfig}

pub data ConfigValue : Type 0 where
  str : Text → ConfigValue
  boolean : Bool → ConfigValue
  list : List Text → ConfigValue
  dict : List (Text × Text) → ConfigValue

pub record ConfigEntry : Type 0 where
  pub key : Text
  pub value : ConfigValue

-- What is left behind a value, its comma included.
unfoldable pub behind_comma : Text → Text
unfolding trim strip_prefix
behind_comma s =
    let rest = trim s in elim (strip_prefix (b',' ∷ []) rest) [ none ↦ trim rest | some t ↦ trim t ]

-- The values that `f` reads.
abbrev pub read_all {ℓ} : {A : Type ℓ} → (Text → Option A) → List Text → List A
read_all f [] = []
read_all f (s ∷ rest) = elim (f s) [ none ↦ read_all f rest | some a ↦ a ∷ read_all f rest ]

unfoldable pub key_value : Text → Option (Text × Text)
unfolding split_once trim trim_matches
key_value pair = elim (split_once (b':' ∷ []) pair) [
  | none ↦ none
  | some kv ↦
      (let k = unquoted (trim kv.0) in if is_empty k then none else some (k, unquoted (trim kv.1)))
]

-- The text up to a closing character, and what is left behind it.
abbrev pub up_to : (Text → ConfigValue) → Text → Option (Text × Text) → Option (ConfigEntry × Text)
up_to value key none = none
up_to value key (some q) = some (record { key = key; value = value q.0 }, behind_comma q.1)

unfoldable pub word_value : Text → ConfigValue
unfolding eq_ignore_case
word_value s =
    if eq_ignore_case s (codes "true")
    then boolean true
    else if eq_ignore_case s (codes "false")
    then boolean false
    else str s

-- The value behind `key=`, trimmed.
unfoldable pub read_value : Text → Text → Option (ConfigEntry × Text)
unfolding strip_prefix starts_with split_once split_on behind_comma key_value word_value
    extract_single_quoted trim
read_value key after_eq = elim (strip_prefix (39 ∷ []) after_eq) [
  | some stripped ↦ up_to str key (split_once (39 ∷ []) stripped)
  | none ↦
      (if starts_with (b'{' ∷ []) after_eq
        then up_to (λ t. dict (read_all key_value (split_on b',' (drop 1 t)))) key
            (split_once (b'}' ∷ []) after_eq)
        else if starts_with (b'[' ∷ []) after_eq
        then up_to
            (λ t. list (read_all (λ s. extract_single_quoted (trim s)) (split_on b',' (drop 1 t))))
            key (split_once (b']' ∷ []) after_eq)
        else (elim (split_once (b',' ∷ []) after_eq) [
          | some q ↦ some (record { key = key; value = word_value (trim q.0) }, trim q.1)
          | none ↦ some (record { key = key; value = word_value (trim after_eq) }, [])
        ]))
]

-- `Iterator::next` on the rest of the arguments.
unfoldable pub next_entry : Text → Option (ConfigEntry × Text)
unfolding split_once trim read_value
next_entry [] = none
next_entry (c ∷ s) = elim (split_once (b'=' ∷ []) (c ∷ s)) [
  | none ↦ none
  | some p ↦ read_value (trim p.0) (trim p.1)
]

-- The iterator run to its end; `none` says that the fuel ran out.
unfoldable pub entries : ℕ → Text → Option (List ConfigEntry)
unfolding next_entry
entries zero remaining = none
entries (suc fuel) remaining = elim (next_entry remaining) [
  | none ↦ some []
  | some p ↦ elim (entries fuel p.1) [ none ↦ none | some rest ↦ some (p.0 ∷ rest) ]
]

unfoldable pub config_entries : Text → Option (List ConfigEntry)
unfolding entries trim
config_entries raw_args = entries (suc (length raw_args)) (trim raw_args)

pub record ModelConfig : Type 0 where
  pub materialization : Text
  pub unique_key : Option Text
  pub unique_key_list : Option (List Text)
  pub incremental_strategy : Option Text
  pub partition_by : Option PartitionConfig
  pub cluster_by : Option (List Text)
  pub require_partition_filter : Option Bool
  pub partition_expiration_days : Option ℕ
  pub friendly_name : Option Text
  pub description : Option Text
  pub labels : List (Text × Text)
  pub kms_key_name : Option Text
  pub default_collation_name : Option Text
  pub enable_refresh : Option Bool
  pub refresh_interval_minutes : Option ℕ
  pub max_staleness : Option Text

unfoldable pub to_table_options : ModelConfig → TableOptions
unfolding map_extend
to_table_options c = record {
  require_partition_filter = c.require_partition_filter;
  partition_expiration_days = c.partition_expiration_days;
  friendly_name = c.friendly_name;
  description = c.description;
  labels = map_extend [] c.labels;
  kms_key_name = c.kms_key_name;
  default_collation_name = c.default_collation_name;
  enable_refresh = c.enable_refresh;
  refresh_interval_minutes = c.refresh_interval_minutes;
  max_staleness = c.max_staleness;
}

unfoldable pub override_options : TableOptions → ModelConfig → ModelConfig
override_options yaml c = record c {
  require_partition_filter = yaml.require_partition_filter;
  partition_expiration_days = yaml.partition_expiration_days;
  friendly_name = yaml.friendly_name;
  description = yaml.description;
  labels = yaml.labels;
  kms_key_name = yaml.kms_key_name;
  default_collation_name = yaml.default_collation_name;
  enable_refresh = yaml.enable_refresh;
  refresh_interval_minutes = yaml.refresh_interval_minutes;
  max_staleness = yaml.max_staleness;
}
