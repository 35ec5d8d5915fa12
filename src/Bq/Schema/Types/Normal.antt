-- ===== src/Bq/Schema/Types/Normal.antt =====
-- What `normalize_type` and `clean_fields` normalise.
use pulumi_rs_provider_gcpx.Base.{
  ℕ, ◌≡◌, refl, ap, Bool, true, false, List, [], ◌∷◌, All, arith, Bool-cases, inl, inr, Text, codes,
  eq_ignore_case, eq_ignore_case_sym, eq_ignore_case_trans, eq_of_iff, lower, utf8_len, byte_len,
  ◌==◌, if◌then◌else◌,
}
use pulumi_rs_provider_gcpx.Bq.Schema.Types.{
  arms, select_arm, first_match, normalize_type, FieldInfo, SchemaField, Fields, field, nested,
  no_fields, clean_nested, clean_fields, clean_info, is_delete, info,
}

first_match_holds :
    (P : Text → Type 0) (t : Text) (table : List (Text × Text)) (d : Text)
    → All (λ e. P e.1) table
    → P d
    → P (first_match t table d)
unfolding first_match
first_match_holds P t [] d h k = k
first_match_holds P t ((a, c) ∷ rest) d h k = elim (Bool-cases (eq_ignore_case t a)) [
  | inl p ↦ rw p h.0
  | inr p ↦ rw p (first_match_holds P t rest d h.1 k)
]

same_case : (s t u : Text) → eq_ignore_case s t ≡ true → eq_ignore_case s u ≡ eq_ignore_case t u
same_case s t u h =
    eq_of_iff _ _ (eq_ignore_case_trans t s u (eq_ignore_case_sym s t h))
      (eq_ignore_case_trans s t u h)

abbrev IsFixed : Text → Type 0
IsFixed c = normalize_type c ≡ c

if_holds {ℓ κ} :
    {A : Type ℓ} (P : A → Type κ) (b : Bool) (x y : A) → P x → P y → P (if b then x else y)
if_holds P true x y h k = h
if_holds P false x y h k = k

abbrev AreFixed : List (Text × Text) → Type 0
AreFixed = All (λ e. IsFixed e.1)

select_arm-AreFixed :
    (n : ℕ) (table : List (ℕ × List (Text × Text)))
    → All (λ a. AreFixed a.1) table
    → AreFixed (select_arm n table)
unfolding select_arm
select_arm-AreFixed n [] h = tt
select_arm-AreFixed n ((m, tests) ∷ table) h =
    if_holds AreFixed (n == m) tests (select_arm n table) h.0 (select_arm-AreFixed n table h.1)

arms-AreFixed : All (λ a. AreFixed a.1) arms
unfolding normalize_type first_match select_arm eq_ignore_case byte_len
arms-AreFixed = (
  (refl, tt),
  (
    (refl, (refl, (refl, (refl, tt)))),
    (
      (refl, (refl, (refl, tt))),
      (
        (refl, (refl, (refl, (refl, tt)))),
        (
          (refl, (refl, (refl, (refl, (refl, (refl, tt)))))),
          ((refl, (refl, tt)), ((refl, (refl, tt)), ((refl, (refl, tt)), tt))),
        ),
      ),
    ),
  ),
)

otherwise-IsFixed :
    (t : Text)
    → IsFixed (if eq_ignore_case t (codes "TINYINT") then codes "INT64" else codes "UNKNOWN")
otherwise-IsFixed t =
    if_holds IsFixed (eq_ignore_case t (codes "TINYINT")) _ _
      (unfold normalize_type first_match select_arm eq_ignore_case byte_len in refl)
      (unfold normalize_type first_match select_arm eq_ignore_case byte_len in refl)

-- Normalising a type name twice is normalising it once, whatever the name.
pub normalize_type_idempotent : (t : Text) → normalize_type (normalize_type t) ≡ normalize_type t
normalize_type_idempotent t =
    unfold normalize_type in
    first_match_holds IsFixed t (select_arm (byte_len t) arms) _
      (select_arm-AreFixed (byte_len t) arms arms-AreFixed) (otherwise-IsFixed t)

lower_len : (c d : ℕ) → lower c ≡ lower d → utf8_len c ≡ utf8_len d
lower_len c d h = ground arith

byte_len_case : (s t : Text) → eq_ignore_case s t ≡ true → byte_len s ≡ byte_len t
unfolding byte_len eq_ignore_case
byte_len_case [] [] h = refl
byte_len_case [] (d ∷ t) h = cc
byte_len_case (c ∷ s) [] h = cc
byte_len_case (c ∷ s) (d ∷ t) h = ground (arith, lower_len c d, byte_len_case s t)

first_match_case :
    (s t : Text) (table : List (Text × Text)) (a b : Text)
    → eq_ignore_case s t ≡ true
    → a ≡ b
    → first_match s table a ≡ first_match t table b
unfolding first_match
first_match_case s t [] a b h e = e
first_match_case s t ((alias, c) ∷ rest) a b h e =
    ground (arith, same_case s t alias h, first_match_case s t rest a b h e)

-- Type names that differ only in the case of their letters normalise alike.
pub normalize_type_case :
    (s t : Text) → eq_ignore_case s t ≡ true → normalize_type s ≡ normalize_type t
unfolding normalize_type
normalize_type_case s t h = rw (byte_len_case s t h) (
    first_match_case s t (select_arm (byte_len t) arms) _ _ h
      (ap (λ b. if b then codes "INT64" else codes "UNKNOWN") (same_case s t (codes "TINYINT") h)))

-- Marked for deletion.
abbrev deleted : SchemaField → Bool
deleted f = is_delete (info f).alter

clean_info_fixed : (i : FieldInfo) → clean_info (clean_info i) ≡ clean_info i
clean_info_fixed i = refl

clean_nested_idempotent : (fs : Fields) → clean_nested (clean_nested fs) ≡ clean_nested fs
unfolding clean_nested is_delete
clean_nested_idempotent no_fields = refl
clean_nested_idempotent (nested (field i gs) fs) =
    ground (arith, clean_nested_idempotent gs, clean_nested_idempotent fs)

-- Cleaning a cleaned schema changes nothing: `clean_fields` leaves no field, at any depth, that
-- it would drop or strip again.
pub clean_fields_idempotent :
    (fs : List SchemaField) → clean_fields (clean_fields fs) ≡ clean_fields fs
unfolding clean_fields is_delete
clean_fields_idempotent [] = refl
clean_fields_idempotent (field i gs ∷ fs) =
    ground (arith, clean_nested_idempotent gs, clean_fields_idempotent fs)
