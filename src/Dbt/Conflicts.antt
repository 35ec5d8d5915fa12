-- ===== src/Dbt/Conflicts.antt =====
-- crates/gcpx-dbt/src/validate.rs: the options of a model's config block against those declared for
-- the resource. A reason is structured data in place of its text.
pub mod Agreed
use pulumi_rs_provider_gcpx.Base.{
  ℕ, Bool, true, false, List, [], ◌∷◌, ◌++◌, Option, none, some, Text, codes, if◌then◌else◌,
  decimal, map_get, map_extend, Eq, neb, nat_eq, text_instance, bool_eq,
}
use pulumi_rs_provider_gcpx.Dbt.Options.{TableOptions, bool_text}
use pulumi_rs_provider_gcpx.Dbt.Config.{ModelConfig}

-- The key and the value of the SQL, and the value of the YAML where there is one.
pub data Conflict : Type 0 where
  option_undeclared : Text → Text → Conflict
  option_differs : Text → Text → Text → Conflict
  label_undeclared : Text → Text → Conflict
  label_differs : Text → Text → Text → Conflict

-- The macro `diff_field`.
module _ {A : Type 0} ⦃e : Eq A⦄ where
  abbrev pub diff_field : (A → Text) → Text → Option A → Option A → List Conflict
  diff_field shown key none yaml = []
  diff_field shown key (some a) none = option_undeclared key (shown a) ∷ []
  diff_field shown key (some a) (some b) =
      if neb a b then option_differs key (shown a) (shown b) ∷ [] else []

abbrev pub diff_label : Text × Text → Option Text → List Conflict
diff_label l none = label_undeclared l.0 l.1 ∷ []
diff_label l (some v) = if neb v l.1 then label_differs l.0 l.1 v ∷ [] else []

unfoldable pub diff_labels : List (Text × Text) → List (Text × Text) → List Conflict
unfolding map_get
diff_labels [] yaml = []
diff_labels (l ∷ rest) yaml = diff_label l (map_get l.0 yaml) ++ diff_labels rest yaml

abbrev pub as_written : Text → Text
as_written s = s

unfoldable pub diff_options : ModelConfig → TableOptions → List Conflict
unfolding diff_labels map_extend decimal
diff_options c y =
    diff_field bool_text (codes "require_partition_filter") c.require_partition_filter
      y.require_partition_filter
    ++ (diff_field decimal (codes "partition_expiration_days") c.partition_expiration_days
          y.partition_expiration_days
        ++ (diff_field as_written (codes "friendly_name") c.friendly_name y.friendly_name
            ++ (diff_field as_written (codes "description") c.description y.description
                ++ (diff_field as_written (codes "kms_key_name") c.kms_key_name y.kms_key_name
                    ++ (diff_field as_written (codes "default_collation_name")
                          c.default_collation_name y.default_collation_name
                        ++ (diff_field bool_text (codes "enable_refresh") c.enable_refresh
                              y.enable_refresh
                            ++ (diff_field decimal (codes "refresh_interval_minutes")
                                  c.refresh_interval_minutes y.refresh_interval_minutes
                                ++ (diff_field as_written (codes "max_staleness") c.max_staleness
                                      y.max_staleness
                                    ++ diff_labels (map_extend [] c.labels) y.labels))))))))
