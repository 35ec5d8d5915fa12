-- ===== src/Examples/Schema.antt =====
-- crates/gcpx-bq/src/schema at concrete inputs.
use pulumi_rs_provider_gcpx.Base.{
  ◌≡◌, ◌≢◌, refl, ap, subst, Bool, true, false, ◌&&◌, List, [], ◌∷◌, ◌++◌, arith, Text, codes, All,
  all, done, byte_len, Option, some, none, text_eq, eq_ignore_case, has_char, if◌then◌else◌,
}
use pulumi_rs_provider_gcpx.Bq.Schema.Types.{
  delete, FieldInfo, SchemaField, field, no_fields, info, DdlOp, OwnedDdlOp, owned_rename,
  rename_column, DiffResult, normalize_type, first_match, select_arm, is_valid_name, is_valid_type,
  is_valid_mode, has_reserved_prefix, is_delete,
}
use pulumi_rs_provider_gcpx.Bq.Schema.Diff.{break_rename_cycles, compute_diff, find_field}
use pulumi_rs_provider_gcpx.Bq.Schema.Diff.Cycles.{break_rename_cycles-ne-none}
use pulumi_rs_provider_gcpx.Bq.Schema.Diff.Quiet.{IsQuiet}
use pulumi_rs_provider_gcpx.Bq.Schema.Diff.Reference.{
  each, drop_of, rename_of, add_of, description_of, compute_diff_reference,
}
use pulumi_rs_provider_gcpx.Bq.Schema.Ddl.{escape_description, build_batch_ddl}
use pulumi_rs_provider_gcpx.Bq.Schema.Ddl.Literals.{read_literal, read_literal-escape_description}
use pulumi_rs_provider_gcpx.Bq.Schema.Ddl.Among.{Among}
use pulumi_rs_provider_gcpx.Bq.Schema.Drift.{
  bq_field, no_live, BqField, is_clean, detect_drift, find_live, is_declared,
}
use pulumi_rs_provider_gcpx.Bq.Schema.Drift.Clean.{agrees, is_clean-detect_drift}
use pulumi_rs_provider_gcpx.Bq.Schema.Validate.{
  is_insert, is_rename, validate, validate_each, validate_field, validate_nested, own_failures,
  joined, type_failures, alter_failures, rounding_failures, duplicates, duplicates_of, against_old,
  active_names,
}
use pulumi_rs_provider_gcpx.Bq.Schema.Validate.Accepted.{
  FieldAccepted, AreDistinct, AllKnown, validate_accepted,
}

abbrev plain : Text → Text → FieldInfo
plain n t = record {
  name = n;
  raw_type = t;
  canonical_type = t;
  mode = codes "NULLABLE";
  description = [];
  alter = none;
  alter_raw = none;
  alter_from = none;
  default_value_expression = none;
  rounding_mode = none;
}

abbrev column : Text → Text → SchemaField
column n t = field (plain n t) no_fields

abbrev dropped : Text → SchemaField
dropped n =
    field
      (record (plain n (codes "STRING")) { alter = some delete; alter_raw = some (codes "DELETE") })
      no_fields

abbrev live : Text → Text → BqField
live n t = bq_field (record { name = n; field_type = t; mode = []; description = [] }) no_live

normalizes : normalize_type (codes "integer") ≡ codes "INT64"
unfolding normalize_type first_match select_arm byte_len eq_ignore_case
normalizes = refl

valid_name : is_valid_name (codes "user_id") ≡ true
unfolding is_valid_name byte_len
valid_name = refl

abbrev swap : List DdlOp
swap = rename_column (codes "a") (codes "b") ∷ rename_column (codes "b") (codes "a") ∷ []

break_rename_cycles-ne-none_example : break_rename_cycles swap ≢ none
break_rename_cycles-ne-none_example = break_rename_cycles-ne-none swap

-- A table that is the test for a column's being there.
abbrev Columns : Type 0
Columns = Text → Bool

abbrev rename_in : Text → Text → Columns → Option Columns
rename_in old new t =
    if t new
    then none
    else some
        (λ n. if eq_ignore_case new n then true else if eq_ignore_case old n then false else t n)

abbrev a_and_b : Columns
a_and_b n = if eq_ignore_case (codes "a") n then true else eq_ignore_case (codes "b") n

rename_in_taken : (old new : Text) (t : Columns) → t new ≡ true → rename_in old new t ≡ none
rename_in_taken old new t h = ground arith

rename_in_kept :
    (old new name : Text) (t t' : Columns)
    → rename_in old new t ≡ some t'
    → eq_ignore_case old name ≡ false
    → t name ≡ true
    → t' name ≡ true
rename_in_kept old new name t t' h o k = from (t new) h
  where
    from :
        (b : Bool)
        → ◌≡◌ {A = Option Columns}
            (if b
              then none
              else some (λ n.
                if eq_ignore_case new n then true else if eq_ignore_case old n then false else t n))
            (some t')
        → t' name ≡ true
    from true e = cc
    from false e =
        subst (λ o. o name ≡ true)
          (ap {A = Option Columns} (λ c. elim c [ none ↦ t | some u ↦ u ]) e) (ground arith)

apart : eq_ignore_case (codes "a") (codes "b") ≡ false
unfolding eq_ignore_case
apart = refl

b_there : a_and_b (codes "b") ≡ true
unfolding eq_ignore_case
b_there = refl

abbrev before : List SchemaField
before = column (codes "a") (codes "INT64") ∷ column (codes "b") (codes "STRING") ∷ []

abbrev after : List SchemaField
after = column (codes "a") (codes "INT64") ∷ dropped (codes "b") ∷ []

compute_diff_reference_example :
    (r : DiffResult) × (compute_diff
        (codes "p")
        (codes "p")
        (codes "d")
        (codes "d")
        (codes "t")
        (codes "t")
        before
        after
      ≡ some r)
    × (r.ops
        ≡ each (drop_of before) after
          ++ (each (rename_of before) after
              ++ (each (add_of before) after ++ each (description_of before) after)))
compute_diff_reference_example =
    compute_diff_reference (codes "p") (codes "p") (codes "d") (codes "d") (codes "t") (codes "t")
      before after

quiet : All (IsQuiet before) before
unfolding find_field eq_ignore_case
quiet = ((refl, λ o e. cc), ((refl, λ o e. cc), tt))

abbrev found : List BqField
found = live (codes "A") (codes "INTEGER") ∷ live (codes "b") (codes "STRING") ∷ []

is_clean-detect_drift_example : is_clean (detect_drift before found) ≡ (
    all (λ df. agrees df (find_live (info df).name found)) before && all (is_declared before) found)
is_clean-detect_drift_example = is_clean-detect_drift before found

accepts : validate before true none ≡ done []
unfolding validate validate_each validate_field validate_nested own_failures joined type_failures
    alter_failures rounding_failures duplicates duplicates_of against_old has_reserved_prefix
    is_valid_name is_valid_type is_valid_mode byte_len eq_ignore_case text_eq normalize_type
    first_match select_arm is_insert is_rename is_delete
accepts = refl

validate_accepted_example :
    (before ≢ [])
    × All (FieldAccepted true) before
    × AreDistinct (active_names before)
    × AllKnown none before
validate_accepted_example = validate_accepted before true none accepts

abbrev one_owned : List OwnedDdlOp
one_owned = owned_rename (codes "a") (codes "b") ∷ []

abbrev swap_ddl : List Text
swap_ddl = build_batch_ddl (codes "p") (codes "d") (codes "t") swap one_owned

no_backslash : has_char 92 (codes "it's") ≡ false
no_backslash = refl

read_literal-escape_description_example :
    read_literal (escape_description (codes "it's") ++ 39 ∷ codes ")")
    ≡ some (codes "it's", codes ")")
read_literal-escape_description_example =
    read_literal-escape_description (codes "it's") (codes ")") no_backslash
