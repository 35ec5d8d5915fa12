-- ===== src/Bq/Schema/Validate/Accepted.antt =====
-- What an accepted schema satisfies (crates/gcpx-bq/src/schema/validate.rs).
use pulumi_rs_provider_gcpx.Base.{
  ℕ, ◌+◌, ◌≡◌, ◌≢◌, Bool, true, false, not, ◌&&◌, ◌||◌, List, [], ◌∷◌, ◌++◌, any, All, arith,
  Option, none, some, Text, eq_ignore_case, Outcome, done,
}
use pulumi_rs_provider_gcpx.Bq.Schema.Types.{SchemaField, Fields, field, no_fields, nested, info}
use pulumi_rs_provider_gcpx.Bq.Schema.Validate.{
  CheckFailure, schema, at, name_part, duplicate, not_in_schema, no_field, fail_if, Place,
  validate_nested, validate_field, validate_each, duplicates_of, duplicates, active_names,
  missing_failures, against_old, validate, is_some,
}
use pulumi_rs_provider_gcpx.Bq.Schema.Validate.Field.{
  append_nil_left, append_nil_right, then_push_none, IsAccepted, fail_if_none, own-IsAccepted,
}

abbrev pub AreAccepted : Bool → Fields → Type 0
AreAccepted is_create no_fields = Unit
AreAccepted is_create (nested (field f gs) fs) =
    IsAccepted f is_create gs × AreAccepted is_create gs × AreAccepted is_create fs

nested_accepted :
    (at_ : Place) (j : ℕ) (fs : Fields) (is_create : Bool)
    → validate_nested at_ j fs is_create ≡ done []
    → AreAccepted is_create fs
unfolding validate_nested
nested_accepted at_ j no_fields is_create h = tt
nested_accepted at_ j (nested (field f gs) fs) is_create h =
    let (both, later) = then_push_none _ _ h in
    let (own, deeper) = then_push_none _ _ both in
    (
      own-IsAccepted (at_ ++ j ∷ []) f is_create gs own,
      nested_accepted (at_ ++ j ∷ []) 0 gs is_create deeper,
      nested_accepted at_ (j + 1) fs is_create later,
    )

abbrev pub FieldAccepted : Bool → SchemaField → Type 0
FieldAccepted is_create (field f gs) = IsAccepted f is_create gs × AreAccepted is_create gs

each_accepted :
    (i : ℕ) (fs : List SchemaField) (is_create : Bool)
    → validate_each i fs is_create ≡ done []
    → All (FieldAccepted is_create) fs
unfolding validate_each validate_field
each_accepted i [] is_create h = tt
each_accepted i (field f gs ∷ fs) is_create h =
    let (here, later) = then_push_none _ _ h in
    let (own, deeper) = then_push_none _ _ here in
    (
      (own-IsAccepted (i ∷ []) f is_create gs own, nested_accepted (i ∷ []) 0 gs is_create deeper),
      each_accepted (i + 1) fs is_create later,
    )

-- Names that differ from one another in more than case.
abbrev pub AreDistinct : List Text → Type 0
AreDistinct [] = Unit
AreDistinct (n ∷ ns) = All (λ m. eq_ignore_case n m ≡ false) ns × AreDistinct ns

none_of :
    (n : Text) (ns : List Text) → duplicates_of n ns ≡ [] → All (λ m. eq_ignore_case n m ≡ false) ns
unfolding duplicates_of
none_of n [] h = tt
none_of n (m ∷ ns) h = (
  fail_if_none _ _ _
      (append_nil_left (fail_if (eq_ignore_case n m) schema (duplicate m)) (duplicates_of n ns) h),
  none_of n ns
      (append_nil_right (fail_if (eq_ignore_case n m) schema (duplicate m)) (duplicates_of n ns) h),
)

distinct : (ns : List Text) → duplicates ns ≡ [] → AreDistinct ns
unfolding duplicates
distinct [] h = tt
distinct (n ∷ ns) h = (
  none_of n ns (append_nil_left (duplicates_of n ns) (duplicates ns) h),
  distinct ns (append_nil_right (duplicates_of n ns) (duplicates ns) h),
)

-- An unmarked field is in the old schema.
abbrev pub IsKnown : List SchemaField → SchemaField → Type 0
IsKnown old f =
    (is_some (info f).alter || any (λ o. eq_ignore_case (info o).name (info f).name) old) ≡ true

known :
    (old : List SchemaField) (i : ℕ) (fs : List SchemaField)
    → missing_failures old i fs ≡ []
    → All (IsKnown old) fs
unfolding missing_failures
known old i [] h = tt
known old i (f ∷ fs) h =
    let test =
      not (is_some (info f).alter)
      && not (any (λ o. eq_ignore_case (info o).name (info f).name) old) in
    let here = fail_if test (at (i ∷ []) name_part) (not_in_schema (info f).name) in
    let e = fail_if_none test _ _ (append_nil_left here (missing_failures old (i + 1) fs) h) in
    (
      ground (arith, e),
      known old (i + 1) fs (append_nil_right here (missing_failures old (i + 1) fs) h),
    )

abbrev pub AllKnown : Option (List SchemaField) → List SchemaField → Type 0
AllKnown none fs = Unit
AllKnown (some old) fs = All (IsKnown old) fs

old_known :
    (old : Option (List SchemaField)) (fs : List SchemaField)
    → against_old old fs ≡ []
    → AllKnown old fs
unfolding against_old
old_known none fs h = tt
old_known (some old) fs h = known old 0 fs h

done_injective : {A : Type 0} {a b : A} → ◌≡◌ {A = Outcome A} (done a) (done b) → a ≡ b
done_injective h = cc

-- A schema that `validate` accepts, returning no failure, has a field; every field, at any depth,
-- has a valid name without a reserved prefix, a valid type, no invalid mode, a known mark, none
-- for renaming or deleting on a creation, a source exactly when it is renamed, no required mode
-- when it is inserted, and nested fields when it is a struct; the top-level names that are not
-- deleted differ in more than case; and, given an old schema, every unmarked top-level field is
-- in it.
pub validate_accepted :
    (fs : List SchemaField) (is_create : Bool) (old : Option (List SchemaField))
    → validate fs is_create old ≡ done []
    → (fs ≢ []) × All (FieldAccepted is_create) fs × AreDistinct (active_names fs) × AllKnown old fs
unfolding validate
validate_accepted [] is_create old h = absurd (nonempty h)
  where
    nonempty :
        ◌≡◌ {A = Outcome (List CheckFailure)} (done (fail_if true schema no_field)) (done []) → ⊥
    nonempty h = cc
validate_accepted (f ∷ fs) is_create old h =
    let (each, cross) =
      then_push_none _ (done (duplicates (active_names (f ∷ fs)) ++ against_old old (f ∷ fs))) h in
    let e : duplicates (active_names (f ∷ fs)) ++ against_old old (f ∷ fs) ≡ [] =
      done_injective cross in
    (
      λ x. cc,
      each_accepted 0 (f ∷ fs) is_create each,
      distinct (active_names (f ∷ fs))
          (append_nil_left (duplicates (active_names (f ∷ fs))) (against_old old (f ∷ fs)) e),
      old_known old (f ∷ fs)
          (append_nil_right (duplicates (active_names (f ∷ fs))) (against_old old (f ∷ fs)) e),
    )
