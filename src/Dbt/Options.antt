-- ===== src/Dbt/Options.antt =====
-- crates/gcpx-dbt/src/options.rs: the options of a table and their OPTIONS clause. The owned and the
-- borrowed struct of the source are one record.
pub mod Clause
pub mod Merged
use pulumi_rs_provider_gcpx.Base.{
  ℕ, ◌*◌, Bool, true, false, ◌&&◌, List, [], ◌∷◌, ◌++◌, map, Option, none, some, Text, codes,
  is_empty, if◌then◌else◌, decimal, joined_by, map_extend,
}
use pulumi_rs_provider_gcpx.Core.Sanitize.{replace_char}

pub record TableOptions : Type 0 where
  pub require_partition_filter : Option Bool
  pub partition_expiration_days : Option ℕ
  pub friendly_name : Option Text
  pub description : Option Text
  pub labels : List (Text × Text)
  pub kms_key_name : Option Text
  pub default_collation_name : Option Text
  pub enable_refresh : Option Bool
  pub refresh_interval_minutes : Option ℕ
  pub max_staleness : Option Text

abbrev pub is_none {ℓ} : {A : Type ℓ} → Option A → Bool
is_none none = true
is_none (some a) = false

unfoldable pub has_no_options : TableOptions → Bool
has_no_options o =
    is_none o.require_partition_filter
    && (is_none o.partition_expiration_days
        && (is_none o.friendly_name
            && (is_none o.description
                && (is_empty o.labels
                    && (is_none o.kms_key_name
                        && (is_none o.default_collation_name
                            && (is_none o.enable_refresh
                                && (is_none o.refresh_interval_minutes
                                    && (is_none o.max_staleness)))))))))

unfoldable pub escape_ddl_string : Text → Text
unfolding replace_char
escape_ddl_string s = replace_char 34 (92 ∷ 34 ∷ []) (replace_char 92 (92 ∷ 92 ∷ []) s)

abbrev pub bool_text : Bool → Text
bool_text true = codes "true"
bool_text false = codes "false"

-- A part of the clause where the option is given.
abbrev pub part {ℓ} : {A : Type ℓ} → (A → Text) → Option A → List Text
part f none = []
part f (some a) = f a ∷ []

abbrev pub quoted : Text → Text → Text
quoted key s = key ++ (codes " = \"" ++ (escape_ddl_string s ++ codes "\""))

abbrev pub label_pair : Text × Text → Text
label_pair e =
    codes "(\""
    ++ (escape_ddl_string e.0 ++ (codes "\", \"" ++ (escape_ddl_string e.1 ++ codes "\")")))

abbrev pub labels_part : List (Text × Text) → List Text
labels_part [] = []
labels_part (e ∷ rest) =
    (codes "labels = [" ++ (joined_by (codes ", ") (map label_pair (e ∷ rest)) ++ codes "]")) ∷ []

-- The factor is the source's: the number of milliseconds of a day.
unfoldable pub option_parts : TableOptions → List Text
unfolding escape_ddl_string decimal joined_by
option_parts o =
    part (λ v. codes "require_partition_filter = " ++ bool_text v) o.require_partition_filter
    ++ (part (λ days. codes "partition_expiration_days = " ++ decimal (days * 86400000))
          o.partition_expiration_days
        ++ (part (quoted (codes "friendly_name")) o.friendly_name
            ++ (part (quoted (codes "description")) o.description
                ++ (labels_part o.labels
                    ++ (part (quoted (codes "kms_key_name")) o.kms_key_name
                        ++ (part (quoted (codes "default_collation_name")) o.default_collation_name
                            ++ (part (λ v. codes "enable_refresh = " ++ bool_text v)
                                  o.enable_refresh
                                ++ (part (λ n. codes "refresh_interval_minutes = " ++ decimal n)
                                      o.refresh_interval_minutes
                                    ++ part
                                        (λ s.
                                          codes "max_staleness = INTERVAL \""
                                          ++ (escape_ddl_string s ++ codes "\""))
                                        o.max_staleness))))))))

unfoldable pub options_ddl : TableOptions → Text
unfolding option_parts joined_by
options_ddl o =
    let parts = option_parts o in
    if is_empty parts then [] else codes "OPTIONS(" ++ (joined_by (codes ", ") parts ++ codes ")")

-- `Option::or`.
abbrev pub or_base {ℓ} : {A : Type ℓ} → Option A → Option A → Option A
or_base none base = base
or_base (some a) base = some a

unfoldable pub merge_options : TableOptions → TableOptions → TableOptions
unfolding map_extend
merge_options base overrides = record {
  require_partition_filter =
      or_base overrides.require_partition_filter base.require_partition_filter;
  partition_expiration_days =
      or_base overrides.partition_expiration_days base.partition_expiration_days;
  friendly_name = or_base overrides.friendly_name base.friendly_name;
  description = or_base overrides.description base.description;
  labels =
      if is_empty overrides.labels then base.labels else map_extend base.labels overrides.labels;
  kms_key_name = or_base overrides.kms_key_name base.kms_key_name;
  default_collation_name = or_base overrides.default_collation_name base.default_collation_name;
  enable_refresh = or_base overrides.enable_refresh base.enable_refresh;
  refresh_interval_minutes =
      or_base overrides.refresh_interval_minutes base.refresh_interval_minutes;
  max_staleness = or_base overrides.max_staleness base.max_staleness;
}
