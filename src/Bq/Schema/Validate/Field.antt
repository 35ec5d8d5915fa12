-- ===== src/Bq/Schema/Validate/Field.antt =====
-- What the checks on one field establish (crates/gcpx-bq/src/schema/validate.rs).
use pulumi_rs_provider_gcpx.Base.{
  is_empty, ◌≡◌, refl, ap, ◌∙◌, Bool, true, false, not, ◌&&◌, ◌||◌, List, [], ◌∷◌, ◌++◌, All, arith,
  codes, text_eq, eq_ignore_case, Outcome, done, panicked, stuck, and_then,
}
use pulumi_rs_provider_gcpx.Bq.Schema.Types.{
  is_valid_mode, FieldInfo, Fields, is_valid_name, is_valid_type, has_reserved_prefix, is_delete,
}
use pulumi_rs_provider_gcpx.Bq.Schema.Validate.{
  CheckFailure, Property, Reason, fail_if, Place, own_failures, joined, type_failures,
  alter_failures, then_push, has_no_fields, is_some, is_rename, is_insert,
}

pub append_nil_left : {A : Type 0} (xs ys : List A) → xs ++ ys ≡ [] → xs ≡ []
append_nil_left [] ys h = refl
append_nil_left (x ∷ xs) ys h = cc

pub append_nil_right : {A : Type 0} (xs ys : List A) → xs ++ ys ≡ [] → ys ≡ []
append_nil_right [] ys h = h
append_nil_right (x ∷ xs) ys h = cc

-- A validation without failures is one of both of its parts.
pub then_push_none :
    (a b : Outcome (List CheckFailure)) → then_push a b ≡ done [] → (a ≡ done []) × (b ≡ done [])
then_push_none (done xs) (done ys) h =
    let e : xs ++ ys ≡ [] = cc in
    (ap done (append_nil_left xs ys e), ap done (append_nil_right xs ys e))
then_push_none (done xs) panicked h = cc
then_push_none (done xs) stuck h = cc
then_push_none panicked b h = cc
then_push_none stuck b h = cc

-- What the checks on one field establish.
pub record IsAccepted (f : FieldInfo) (is_create : Bool) (fs : Fields) : Type 0 where
  pub name_valid : is_valid_name f.name ≡ true
  pub name_free : has_reserved_prefix f.name ≡ done false
  pub type_valid : is_valid_type f.raw_type ≡ true
  pub mode_valid : (not (is_empty f.mode) && not (is_valid_mode f.mode)) ≡ false
  pub alter_known : (is_some f.alter_raw && not (is_some f.alter)) ≡ false
  pub create_plain : (is_create && (is_rename f.alter || is_delete f.alter)) ≡ false
  pub rename_from : is_rename f.alter ≡ is_some f.alter_from
  pub insert_optional : (is_insert f.alter && eq_ignore_case f.mode (codes "REQUIRED")) ≡ false
  pub struct_nested : (text_eq f.canonical_type (codes "STRUCT") && has_no_fields fs) ≡ false

joined_none : (ls : List (List CheckFailure)) → joined ls ≡ [] → All (λ l. l ≡ []) ls
unfolding joined
joined_none [] h = tt
joined_none (xs ∷ rest) h =
    (append_nil_left xs (joined rest) h, joined_none rest (append_nil_right xs (joined rest) h))

pub fail_if_none : (t : Bool) (p : Property) (why : Reason) → fail_if t p why ≡ [] → t ≡ false
fail_if_none true p why h = cc
fail_if_none false p why h = refl

type_accepted :
    (at_ : Place) (f : FieldInfo) → type_failures at_ f ≡ [] → is_valid_type f.raw_type ≡ true
unfolding type_failures
type_accepted at_ f h = ground arith

reserved_done :
    (at_ : Place) (f : FieldInfo) (is_create : Bool) (fs : Fields) (o : Outcome Bool)
    → and_then o (λ r. done (own_failures at_ f is_create fs r)) ≡ done []
    → (r : Bool) × (o ≡ done r) × (own_failures at_ f is_create fs r ≡ [])
reserved_done at_ f is_create fs (done r) h = (r, refl, cc)
reserved_done at_ f is_create fs panicked h = cc
reserved_done at_ f is_create fs stuck h = cc

module _ (at_ : Place) (f : FieldInfo) (is_create : Bool)
    (h : alter_failures at_ f is_create ≡ []) where
  alter_known_lem : (is_some f.alter_raw && not (is_some f.alter)) ≡ false
  unfolding alter_failures
  alter_known_lem = ground arith

  alter_create : (is_create && (is_rename f.alter || is_delete f.alter)) ≡ false
  unfolding alter_failures
  alter_create = ground arith

  alter_from_lem : is_rename f.alter ≡ is_some f.alter_from
  unfolding alter_failures
  alter_from_lem = ground arith

pub own-IsAccepted :
    (at_ : Place) (f : FieldInfo) (is_create : Bool) (fs : Fields)
    → and_then (has_reserved_prefix f.name) (λ r. done (own_failures at_ f is_create fs r))
      ≡ done []
    → IsAccepted f is_create fs
unfolding own_failures
own-IsAccepted at_ f is_create fs h =
    let (r, e, o) = reserved_done at_ f is_create fs (has_reserved_prefix f.name) h in
    let (name, (free, (types, (mode, (optional, (alters, (rounding, (struct, _)))))))) =
      joined_none _ o in
    let named = fail_if_none _ _ _ name in
    let inserted = fail_if_none _ _ _ optional in
    let structured = fail_if_none _ _ _ struct in
    record {
      name_valid = ground (arith, named);
      name_free = e ∙ ap done (fail_if_none _ _ _ free);
      type_valid = type_accepted at_ f types;
      mode_valid = fail_if_none _ _ _ mode;
      alter_known = alter_known_lem at_ f is_create alters;
      create_plain = alter_create at_ f is_create alters;
      rename_from = alter_from_lem at_ f is_create alters;
      insert_optional = ground (arith, inserted);
      struct_nested = ground (arith, structured);
    }
