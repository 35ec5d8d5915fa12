-- ===== src/Dbt/Conflicts/Agreed.antt =====
-- When the options of a config block agree with the declared ones (crates/gcpx-dbt/src/validate.rs).
use pulumi_rs_provider_gcpx.Base.{
  text_eq_sym, ◌≡◌, refl, Bool, true, false, ◌&&◌, List, [], ◌∷◌, Option, none, some, Text,
  is_empty, is_empty-append, all, map_get, map_extend, arith, Eq, eqb, nat_eq, text_instance,
  bool_eq,
}
use pulumi_rs_provider_gcpx.Dbt.Options.{TableOptions}
use pulumi_rs_provider_gcpx.Dbt.Config.{ModelConfig}
use pulumi_rs_provider_gcpx.Dbt.Conflicts.{diff_field, diff_label, diff_labels, diff_options}

-- What the SQL sets is set to the same value in the YAML.
module _ {A : Type 0} ⦃e : Eq A⦄ where
  abbrev pub agrees : Option A → Option A → Bool
  agrees none yaml = true
  agrees (some a) none = false
  agrees (some a) (some b) = eqb a b

  is_empty-diff_field :
      (shown : A → Text) (key : Text) (sql yaml : Option A)
      → is_empty (diff_field shown key sql yaml) ≡ agrees sql yaml
  is_empty-diff_field shown key none yaml = refl
  is_empty-diff_field shown key (some a) none = refl
  is_empty-diff_field shown key (some a) (some b) = ground arith

-- A label with the value that the YAML gives it.
abbrev pub agreed_label : List (Text × Text) → Text × Text → Bool
agreed_label yaml l = agrees (some l.1) (map_get l.0 yaml)

is_empty-diff_label :
    (l : Text × Text) (o : Option Text) → is_empty (diff_label l o) ≡ agrees (some l.1) o
is_empty-diff_label l none = refl
is_empty-diff_label l (some v) = ground (arith, text_eq_sym v l.1)

is_empty-diff_labels :
    (sql yaml : List (Text × Text)) → is_empty (diff_labels sql yaml) ≡ all (agreed_label yaml) sql
unfolding diff_labels
is_empty-diff_labels [] yaml = refl
is_empty-diff_labels (l ∷ rest) yaml = simp (
  diff_labels,
  is_empty-append,
  is_empty-diff_label l (map_get l.0 yaml),
  is_empty-diff_labels rest yaml,
)

abbrev pub agreed_options : ModelConfig → TableOptions → Bool
agreed_options c y =
    agrees c.require_partition_filter y.require_partition_filter
    && (agrees c.partition_expiration_days y.partition_expiration_days
        && (agrees c.friendly_name y.friendly_name
            && (agrees c.description y.description
                && (agrees c.kms_key_name y.kms_key_name
                    && (agrees c.default_collation_name y.default_collation_name
                        && (agrees c.enable_refresh y.enable_refresh
                            && (agrees c.refresh_interval_minutes y.refresh_interval_minutes
                                && (agrees c.max_staleness y.max_staleness
                                    && all (agreed_label y.labels) (map_extend [] c.labels)))))))))

-- The comparison finds no conflict exactly where every option that the config block sets, and every
-- label, is declared with the same value for the resource.
pub is_empty-diff_options :
    (c : ModelConfig) (y : TableOptions) → is_empty (diff_options c y) ≡ agreed_options c y
unfolding diff_options
is_empty-diff_options c y = simp (
  diff_options,
  is_empty-append,
  is_empty-diff_field,
  is_empty-diff_labels (map_extend [] c.labels) y.labels,
)
