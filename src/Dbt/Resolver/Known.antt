-- ===== src/Dbt/Resolver/Known.antt =====
-- What a resolution comes to (crates/gcpx-dbt/src/resolver.rs).
use pulumi_rs_provider_gcpx.Base.{
  ℕ, zero, suc, ◌<◌, ◌≡◌, refl, ◌∙◌, false, List, [], ◌∷◌, ◌++◌, Option, none, some, Text, length,
  arith, map_get, drop, All, split_once, split_once-IsCut, cut_shorter, IsCut, Result, ok, err,
}
use pulumi_rs_provider_gcpx.Dbt.Templates.{DbtSegment, ref, source}
use pulumi_rs_provider_gcpx.Dbt.Preprocess.{
  restore_loop, restore_raw_regions, sentinel_prefix, sentinel_suffix,
}
use pulumi_rs_provider_gcpx.Dbt.Resolver.{
  ResolveError, macro_expansion, unknown_ref, unknown_source, SourceDef, ModelRefData, ResolvedSql,
  Resolving, upstream_ctes, cte_name, restore_ctes,
}
use pulumi_rs_provider_gcpx.Dbt.Resolver.Ctes.{HasUniqueNames, names_cte, Inv}

abbrev pub Ends : Option Text → Type 0
Ends o = (out : Text) × (o ≡ some out)

module _ (decode : Text → Text) (next : Text → Option Text) (s before rest : Text)
    (ends : (t : Text) → length t < length s → Ends (next t)) where
  payload-Ends :
      (o : Option (Text × Text))
      → length rest < length s
      → IsCut (sentinel_suffix ∷ []) rest o
      → Ends (elim o [
        | none ↦ some (before ++ drop (length before) s)
        | some payload ↦ elim (next payload.1) [
          | none ↦ none
          | some later ↦ some (before ++ (decode payload.0 ++ later))
        ]
      ])
  payload-Ends none l c = (before ++ drop (length before) s, refl)
  payload-Ends (some payload) l c =
      let (out, h) =
        ends payload.1 (omega (arith, cut_shorter (sentinel_suffix ∷ []) rest payload c)) in
      (before ++ (decode payload.0 ++ out), rw h refl)

-- A loop that restores raw regions ends.
restore-Ends :
    (decode : Text → Text) (fuel : ℕ) (s : Text)
    → length s < fuel
    → Ends (restore_loop fuel decode s)
unfolding restore_loop
restore-Ends decode zero s h = elim h [ ]
restore-Ends decode (suc fuel) s h =
    from (split_once sentinel_prefix s) (split_once-IsCut sentinel_prefix s)
      (λ t l. restore-Ends decode fuel t (omega arith))
  where
    from :
        (o : Option (Text × Text))
        → IsCut sentinel_prefix s o
        → ((t : Text) → length t < length s → Ends (restore_loop fuel decode t))
        → Ends (elim o [
          | none ↦ some s
          | some found ↦ elim (split_once (sentinel_suffix ∷ []) found.1) [
            | none ↦ some (found.0 ++ drop (length found.0) s)
            | some payload ↦ elim (restore_loop fuel decode payload.1) [
              | none ↦ none
              | some later ↦ some (found.0 ++ (decode payload.0 ++ later))
            ]
          ]
        ])
    from none c ih = (s, refl)
    from (some found) c ih =
        payload-Ends decode (restore_loop fuel decode) s found.0 found.1 ih
          (split_once (sentinel_suffix ∷ []) found.1)
          (omega (arith, cut_shorter sentinel_prefix s found c))
          (split_once-IsCut (sentinel_suffix ∷ []) found.1)

pub restore_raw_regions_ends :
    (decode : Text → Text) (s : Text) → (out : Text) × (restore_raw_regions decode s ≡ some out)
unfolding restore_raw_regions
restore_raw_regions_ends decode s = restore-Ends decode (suc (length s)) s (omega arith)

-- The restored CTEs have the names that they had.
pub restore_ctes_ends :
    (decode : Text → Text) (ctes : List (Text × Text))
    → (out : List (Text × Text)) × (restore_ctes decode ctes ≡ some out)
      × ((k : Text) → names_cte k out ≡ names_cte k ctes)
      × (HasUniqueNames ctes → HasUniqueNames out)
unfolding restore_ctes HasUniqueNames
restore_ctes_ends decode [] = ([], refl, (λ k. refl), λ u. u)
restore_ctes_ends decode (e ∷ rest) =
    let (sql, h) = restore_raw_regions_ends decode e.1 in
    let (out, k, same, unique) = restore_ctes_ends decode rest in
    (
      (e.0, sql) ∷ out,
      rw (restore_ctes, h, k) refl,
      (λ n. rw (same n) refl),
      λ u. (same e.0 ∙ u.0, unique u.1),
    )

module _ (sources : List (Text × SourceDef)) (model_refs : List (Text × ModelRefData)) where
  -- A reference that is declared, or no reference.
  abbrev pub IsKnown : DbtSegment → Type 0
  IsKnown (ref model) = (d : ModelRefData) × (map_get model model_refs ≡ some d)
  IsKnown (source s table) = (d : SourceDef) × (map_get s sources ≡ some d)
  IsKnown _ = Unit

  -- The error for the first reference that is not declared.
  abbrev pub IsUnknown : List DbtSegment → ResolveError → Type 0
  IsUnknown segments (macro_expansion e) = ⊥
  IsUnknown segments (unknown_ref model) =
      (front : List DbtSegment) × (behind : List DbtSegment) × (segments
        ≡ front ++ ref model ∷ behind)
      × All IsKnown front
      × (map_get model model_refs ≡ none)
  IsUnknown segments (unknown_source s table) =
      (front : List DbtSegment) × (behind : List DbtSegment) × (segments
        ≡ front ++ source s table ∷ behind)
      × All IsKnown front
      × (map_get s sources ≡ none)

  -- What the resolution of a template comes to.
  abbrev pub IsResolution : List DbtSegment → Option (Result ResolvedSql ResolveError) → Type 0
  IsResolution segments none = ⊥
  IsResolution segments (some (err e)) = IsUnknown segments e
  IsResolution segments (some (ok out)) = All IsKnown segments × HasUniqueNames out.ctes

  abbrev pub IsStep : List DbtSegment → Result Resolving ResolveError → Type 0
  IsStep segments (err e) = IsUnknown segments e
  IsStep segments (ok r) = All IsKnown segments × Inv r

module _ (parse_ctes : Text → Option (List (Text × Text)))
    (model_refs : List (Text × ModelRefData)) where
  -- No ephemeral model has itself among the CTEs of its own references.
  abbrev pub IsAcyclic : Type 0
  IsAcyclic =
      (model : Text) (d : ModelRefData)
      → map_get model model_refs ≡ some d
      → names_cte (cte_name model) (upstream_ctes parse_ctes d) ≡ false
