-- ===== src/Bq/Schema/Drift/Clean.antt =====
-- When the drift report is clean.
use pulumi_rs_provider_gcpx.Base.{
  ◌≡◌, refl, Bool, true, false, ◌&&◌, List, [], ◌∷◌, ◌++◌, all, arith, is_empty, Option, none, some,
  Text, text_eq,
}
use pulumi_rs_provider_gcpx.Bq.Schema.Types.{SchemaField, info, normalize_type}
use pulumi_rs_provider_gcpx.Bq.Schema.Drift.{
  BqField, live_info, DriftReport, is_clean, find_live, check_declared, check_all, is_declared,
  find_extra, detect_drift,
}

-- A declared field is in step with what is found under its name.
abbrev pub agrees : SchemaField → Option BqField → Bool
agrees df none = false
agrees df (some lf) = text_eq (info df).canonical_type (normalize_type (live_info lf).field_type)

is_empty-snoc : {A : Type 0} (xs : List A) (x : A) → is_empty (xs ++ x ∷ []) ≡ false
is_empty-snoc [] x = refl
is_empty-snoc (y ∷ xs) x = refl

is_clean-check_declared :
    (df : SchemaField) (o : Option BqField) (r : DriftReport)
    → is_clean (check_declared df o r) ≡ (is_clean r && agrees df o)
unfolding is_clean check_declared
is_clean-check_declared df none r = ground (arith, is_empty-snoc r.missing_from_bq (info df).name)
is_clean-check_declared df (some lf) r = ground (
  arith,
  is_empty-snoc r.type_mismatches
      ((info df).name, (info df).canonical_type, (live_info lf).field_type),
)

is_clean-check_all :
    (dfs : List SchemaField) (live : List BqField) (r : DriftReport)
    → is_clean (check_all dfs live r)
      ≡ (is_clean r && all (λ df. agrees df (find_live (info df).name live)) dfs)
unfolding check_all
is_clean-check_all [] live r = ground arith
is_clean-check_all (df ∷ dfs) live r =
    let found = find_live (info df).name live in
    ground (
      arith,
      is_clean-check_all dfs live (check_declared df found r),
      is_clean-check_declared df found r,
    )

is_clean-extra :
    (name : Text) (r : DriftReport)
    → is_clean (record r { extra_in_bq = r.extra_in_bq ++ name ∷ [] }) ≡ false
unfolding is_clean
is_clean-extra name r = ground (arith, is_empty-snoc r.extra_in_bq name)

is_clean-find_extra :
    (declared : List SchemaField) (lfs : List BqField) (r : DriftReport)
    → is_clean (find_extra declared lfs r) ≡ (is_clean r && all (is_declared declared) lfs)
unfolding find_extra
is_clean-find_extra declared [] r = ground arith
is_clean-find_extra declared (lf ∷ lfs) r = ground (
  arith,
  is_clean-extra (live_info lf).name r,
  is_clean-find_extra declared lfs r,
  is_clean-find_extra declared lfs
      (record r { extra_in_bq = r.extra_in_bq ++ (live_info lf).name ∷ [] }),
)

abbrev start : DriftReport
start = record { extra_in_bq = []; missing_from_bq = []; type_mismatches = [] }

start_clean : is_clean start ≡ true
unfolding is_clean
start_clean = refl

-- The drift report is clean exactly when, up to the case of names, every declared field is found
-- live with a type that normalises to the declared one, and every live field is declared.
pub is_clean-detect_drift :
    (declared : List SchemaField) (live : List BqField)
    → is_clean (detect_drift declared live) ≡ (
        all (λ df. agrees df (find_live (info df).name live)) declared
        && all (is_declared declared) live)
unfolding detect_drift
is_clean-detect_drift declared live = ground (
  arith,
  is_clean-find_extra declared live (check_all declared live start),
  is_clean-check_all declared live start,
  start_clean,
)
