-- ===== src/Bq/Schema/Diff/Quiet.antt =====
-- When a diff has no operation.
use pulumi_rs_provider_gcpx.Base.{
  ◌≡◌, refl, ◌∙◌, false, List, [], ◌∷◌, All, arith, Option, none, some, Text, text_eq_iff,
}
use pulumi_rs_provider_gcpx.Bq.Schema.Types.{SchemaField, info, DiffResult}
use pulumi_rs_provider_gcpx.Bq.Schema.Diff.{
  find_field, Groups, describe, push_field, push_fields, compute_diff, break_rename_cycles,
  no_groups, assemble, replace_keys_of, with_owned,
}

-- A field that asks for nothing: unmarked, with the description that it has in the old schema, if
-- it is there.
abbrev pub IsQuiet : List SchemaField → SchemaField → Type 0
IsQuiet old f =
    ((info f).alter ≡ none)
    × ((o : SchemaField)
        → find_field old (info f).name ≡ some o
        → (info o).description ≡ (info f).description)

describe_quiet :
    (o : Option SchemaField) (f : SchemaField) (g : Groups)
    → ((x : SchemaField) → o ≡ some x → (info x).description ≡ (info f).description)
    → describe o (info f) g ≡ g
unfolding describe
describe_quiet none f g h = refl
describe_quiet (some o) f g h =
    ground (arith, h o refl, text_eq_iff (info o).description (info f).description)

push_fields_quiet :
    (old fs : List SchemaField) (g : Groups) → All (IsQuiet old) fs → push_fields old fs g ≡ g
unfolding push_fields
push_fields_quiet old [] g h = refl
push_fields_quiet old (f ∷ fs) g h =
    push_fields_quiet old fs (push_field old (info f).alter (info f) g) h.1 ∙ same
  where
    same : push_field old (info f).alter (info f) g ≡ g
    same = rw h.0.0 (unfold push_field in describe_quiet (find_field old (info f).name) f g h.0.1)

-- A new schema whose fields are all unmarked and described as in the old one leads to no operation
-- and no temporary rename, so to no schema change.
pub compute_diff_quiet :
    (p p' d d' t t' : Text) (old new : List SchemaField)
    → All (IsQuiet old) new
    → (r : DiffResult) × (compute_diff p p' d d' t t' old new ≡ some r)
      × (r.ops ≡ [])
      × (r.owned_ops ≡ [])
      × (r.has_schema_changes ≡ false)
unfolding compute_diff break_rename_cycles with_owned
compute_diff_quiet p p' d d' t t' old new h = (
  assemble (replace_keys_of p p' d d' t t') no_groups [],
  rw (push_fields_quiet old new no_groups h),
  refl,
  refl,
  refl,
)
