-- ===== src/Bq/Schema/Diff/Reference.antt =====
-- The loop of `compute_diff` against a reading of each field on its own.
use pulumi_rs_provider_gcpx.Base.{
  ◌≢◌, ◌≡◌, refl, ◌∙◌, List, [], ◌∷◌, ◌++◌, append_assoc, append-nil, arith, if◌then◌else◌, Option,
  none, some, Text, text_eq,
}
use pulumi_rs_provider_gcpx.Bq.Schema.Types.{
  AlterAction, rename, insert, delete, FieldInfo, SchemaField, info, DdlOp, drop_column,
  rename_column, add_column, set_description, DiffResult, OwnedDdlOp,
}
use pulumi_rs_provider_gcpx.Bq.Schema.Diff.{
  in_schema, find_field, Groups, describe, rename_from, push_field, push_fields, compute_diff,
  break_rename_cycles, no_groups, assemble, replace_keys_of, with_owned,
}
use pulumi_rs_provider_gcpx.Bq.Schema.Diff.Cycles.{break_rename_cycles-ne-none}

-- The operations that a field asks for, by kind.
abbrev pub drop_of : List SchemaField → FieldInfo → Option AlterAction → List DdlOp
drop_of old f (some delete) = if in_schema old f.name then drop_column f.name ∷ [] else []
drop_of old f (some rename) = []
drop_of old f (some insert) = []
drop_of old f none = []

abbrev pub rename_to : List SchemaField → FieldInfo → Option Text → List DdlOp
rename_to old f none = []
rename_to old f (some from) = if in_schema old from then rename_column from f.name ∷ [] else []

abbrev pub rename_of : List SchemaField → FieldInfo → Option AlterAction → List DdlOp
rename_of old f (some delete) = []
rename_of old f (some rename) = rename_to old f f.alter_from
rename_of old f (some insert) = []
rename_of old f none = []

abbrev pub add_of : List SchemaField → FieldInfo → Option AlterAction → List DdlOp
add_of old f (some delete) = []
add_of old f (some rename) = []
add_of old f (some insert) =
    if in_schema old f.name
    then []
    else add_column f.name f.canonical_type f.mode f.description f.default_value_expression
        f.rounding_mode
      ∷ []
add_of old f none = []

abbrev pub describe_from : FieldInfo → Option SchemaField → List DdlOp
describe_from f none = []
describe_from f (some o) =
    if text_eq (info o).description f.description
    then []
    else set_description f.name f.description ∷ []

abbrev pub description_of : List SchemaField → FieldInfo → Option AlterAction → List DdlOp
description_of old f (some delete) = []
description_of old f (some rename) = []
description_of old f (some insert) = []
description_of old f none = describe_from f (find_field old f.name)

-- What `of` reads from the fields, in their order.
abbrev pub each : (FieldInfo → Option AlterAction → List DdlOp) → List SchemaField → List DdlOp
each of [] = []
each of (f ∷ fs) = of (info f) (info f).alter ++ each of fs

rename_from_lem :
    (old : List SchemaField) (from : Option Text) (f : FieldInfo) (g : Groups)
    → rename_from old from f g ≡ record g { renames = g.renames ++ rename_to old f from }
unfolding rename_from
rename_from_lem old none f g = ground (arith, append-nil g.renames)
rename_from_lem old (some from) f g = ground (arith, append-nil g.renames)

describe_lem :
    (o : Option SchemaField) (f : FieldInfo) (g : Groups)
    → describe o f g ≡ record g { descriptions = g.descriptions ++ describe_from f o }
unfolding describe
describe_lem none f g = ground (arith, append-nil g.descriptions)
describe_lem (some o) f g = ground (arith, append-nil g.descriptions)

push_field_lem :
    (old : List SchemaField) (a : Option AlterAction) (f : FieldInfo) (g : Groups)
    → push_field old a f g ≡ record {
      drops = g.drops ++ drop_of old f a;
      renames = g.renames ++ rename_of old f a;
      adds = g.adds ++ add_of old f a;
      descriptions = g.descriptions ++ description_of old f a;
    }
unfolding push_field
push_field_lem old (some delete) f g = ground (
  arith,
  append-nil g.drops,
  append-nil g.renames,
  append-nil g.adds,
  append-nil g.descriptions,
  rename_from_lem old f.alter_from f g,
  describe_lem (find_field old f.name) f g,
)
push_field_lem old (some rename) f g = ground (
  arith,
  append-nil g.drops,
  append-nil g.renames,
  append-nil g.adds,
  append-nil g.descriptions,
  rename_from_lem old f.alter_from f g,
  describe_lem (find_field old f.name) f g,
)
push_field_lem old (some insert) f g = ground (
  arith,
  append-nil g.drops,
  append-nil g.renames,
  append-nil g.adds,
  append-nil g.descriptions,
  rename_from_lem old f.alter_from f g,
  describe_lem (find_field old f.name) f g,
)
push_field_lem old none f g = ground (
  arith,
  append-nil g.drops,
  append-nil g.renames,
  append-nil g.adds,
  append-nil g.descriptions,
  rename_from_lem old f.alter_from f g,
  describe_lem (find_field old f.name) f g,
)

-- What the loop gathers from the fields.
gathered : List SchemaField → List SchemaField → Groups → Groups
gathered old fs g = record {
  drops = g.drops ++ each (drop_of old) fs;
  renames = g.renames ++ each (rename_of old) fs;
  adds = g.adds ++ each (add_of old) fs;
  descriptions = g.descriptions ++ each (description_of old) fs;
}

push_fields_lem :
    (old fs : List SchemaField) (g : Groups) → push_fields old fs g ≡ gathered old fs g
unfolding push_fields gathered
push_fields_lem old [] g =
    ground (
      arith,
      append-nil g.drops,
      append-nil g.renames,
      append-nil g.adds,
      append-nil g.descriptions,
    )
push_fields_lem old (f ∷ fs) g =
    let a = (info f).alter in
    let i = info f in
    rw (push_field_lem old a i g) (
      push_fields_lem old fs _
      ∙ cc (
        append_assoc g.drops (drop_of old i a) (each (drop_of old) fs),
        append_assoc g.renames (rename_of old i a) (each (rename_of old) fs),
        append_assoc g.adds (add_of old i a) (each (add_of old) fs),
        append_assoc g.descriptions (description_of old i a) (each (description_of old) fs),
      ))

owned_result :
    (keys : List Text) (g : Groups) (o : Option (List OwnedDdlOp))
    → o ≢ none
    → (r : DiffResult) × (with_owned keys g o ≡ some r)
      × (r.ops ≡ g.drops ++ (g.renames ++ (g.adds ++ g.descriptions)))
unfolding with_owned
owned_result keys g none h = absurd (h refl)
owned_result keys g (some owned) h = (assemble keys g owned, refl, refl)

-- `compute_diff` always has a result. Its operations are exactly those that the fields of the new
-- schema ask for, each field read on its own against the old schema: the drops in the fields'
-- order, then the renames, then the additions, then the descriptions.
pub compute_diff_reference :
    (p p' d d' t t' : Text) (old new : List SchemaField)
    → (r : DiffResult) × (compute_diff p p' d d' t t' old new ≡ some r)
      × (r.ops
          ≡ each (drop_of old) new
            ++ (each (rename_of old) new
                ++ (each (add_of old) new ++ each (description_of old) new)))
unfolding compute_diff gathered
compute_diff_reference p p' d d' t t' old new = rw (push_fields_lem old new no_groups) (
    owned_result (replace_keys_of p p' d d' t t') (gathered old new no_groups)
      (break_rename_cycles (each (rename_of old) new))
      (break_rename_cycles-ne-none (each (rename_of old) new)))
