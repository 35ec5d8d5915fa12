-- ===== src/Bq/Schema/Drift.antt =====
-- crates/gcpx-bq/src/schema/drift.rs: declared fields against live ones.
pub mod Clean
use pulumi_rs_provider_gcpx.Base.{
  Bool, true, false, not, ◌&&◌, List, [], ◌∷◌, ◌++◌, any, find?, is_empty, if◌then◌else◌, Option,
  none, some, Text, text_eq, eq_ignore_case,
}
use pulumi_rs_provider_gcpx.Bq.Schema.Types.{SchemaField, info, normalize_type}

-- The fields of the struct `BqField` (crates/gcpx-bq/src/types.rs) but its nested list.
pub record LiveInfo : Type 0 where
  pub name : Text
  pub field_type : Text
  pub mode : Text
  pub description : Text

-- `BqField`, and a list of them.
mutual
  pub data BqField : Type 0 where
    bq_field : LiveInfo → BqFields → BqField

  pub data BqFields : Type 0 where
    no_live : BqFields
    more_live : BqField → BqFields → BqFields

abbrev pub live_info : BqField → LiveInfo
live_info (bq_field i fs) = i

pub record DriftReport : Type 0 where
  pub extra_in_bq : List Text
  pub missing_from_bq : List Text
  pub type_mismatches : List (Text × Text × Text)

unfoldable pub is_clean : DriftReport → Bool
is_clean r = is_empty r.extra_in_bq && is_empty r.missing_from_bq && is_empty r.type_mismatches

unfoldable pub find_live : Text → List BqField → Option BqField
find_live name live = find? (λ lf. eq_ignore_case (live_info lf).name name) live

-- One round of the loop over the declared fields.
pub check_declared : SchemaField → Option BqField → DriftReport → DriftReport
check_declared df none r = record r { missing_from_bq = r.missing_from_bq ++ (info df).name ∷ [] }
check_declared df (some lf) r =
    if not (text_eq (info df).canonical_type (normalize_type (live_info lf).field_type))
    then record r {
      type_mismatches =
          r.type_mismatches
          ++ ((info df).name, (info df).canonical_type, (live_info lf).field_type) ∷ [];
    }
    else r

pub check_all : List SchemaField → List BqField → DriftReport → DriftReport
check_all [] live r = r
check_all (df ∷ dfs) live r =
    check_all dfs live (check_declared df (find_live (info df).name live) r)

unfoldable pub is_declared : List SchemaField → BqField → Bool
is_declared declared lf = any (λ df. eq_ignore_case (info df).name (live_info lf).name) declared

pub find_extra : List SchemaField → List BqField → DriftReport → DriftReport
find_extra declared [] r = r
find_extra declared (lf ∷ lfs) r = find_extra declared lfs (
    if not (is_declared declared lf)
    then record r { extra_in_bq = r.extra_in_bq ++ (live_info lf).name ∷ [] }
    else r)

unfoldable pub detect_drift : List SchemaField → List BqField → DriftReport
unfolding check_all check_declared find_extra find_live is_declared
detect_drift declared live = find_extra declared live (
    check_all declared live
      (record { extra_in_bq = []; missing_from_bq = []; type_mismatches = [] }))
