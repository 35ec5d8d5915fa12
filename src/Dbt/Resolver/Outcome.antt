-- ===== src/Dbt/Resolver/Outcome.antt =====
-- The references of a resolved template are declared and its CTEs have different names
-- (crates/gcpx-dbt/src/resolver.rs).
use pulumi_rs_provider_gcpx.Base.{
  ◌≡◌, refl, ap, List, [], ◌∷◌, Option, none, some, Text, codes, text_eq, if◌then◌else◌, Bool-cases,
  inl, inr, map_get, trim, Result, ok, err,
}
use pulumi_rs_provider_gcpx.Core.Sanitize.{bq_table_ref}
use pulumi_rs_provider_gcpx.Dbt.Macros.Settled.{scan_ends, expand_macros_ends}
use pulumi_rs_provider_gcpx.Dbt.Templates.{DbtSegment, config, ref, source, call, scan}
use pulumi_rs_provider_gcpx.Dbt.Macros.{MacroDef, MacroError, expand_macros, rewritten}
use pulumi_rs_provider_gcpx.Dbt.Resolver.{
  ResolveError, macro_expansion, unknown_ref, unknown_source, SourceDef, ModelRefData, ResolvedSql,
  Resolving, push_body, push_ephemeral, resolve_segment, resolve_segments, new_resolving, restored,
  resolve_expanded, resolve,
}
use pulumi_rs_provider_gcpx.Dbt.Resolver.Ctes.{
  Inv, push_ephemeral-Inv, push_body-Inv, new_resolving-Inv,
}
use pulumi_rs_provider_gcpx.Dbt.Resolver.Known.{
  restore_ctes_ends, restore_raw_regions_ends, IsKnown, IsUnknown, IsResolution, IsStep, IsAcyclic,
}

module _ (parse_ctes : Text → Option (List (Text × Text))) (project : Text)
    (sources : List (Text × SourceDef)) (model_refs : List (Text × ModelRefData))
    (acyclic : IsAcyclic parse_ctes model_refs) where
  abbrev IsSegment : DbtSegment → List DbtSegment → Result Resolving ResolveError → Type 0
  IsSegment s rest (err e) = IsUnknown sources model_refs (s ∷ rest) e
  IsSegment s rest (ok r) = IsKnown sources model_refs s × Inv r

  ref-IsSegment :
      (model : Text) (rest : List DbtSegment) (r : Resolving) (o : Option ModelRefData)
      → map_get model model_refs ≡ o
      → Inv r
      → IsSegment (ref model) rest (elim o [
        | none ↦ err (unknown_ref model)
        | some d ↦ ok (
            if text_eq d.materialization (codes "ephemeral")
            then push_ephemeral parse_ctes model d r
            else push_body d.table_ref r)
      ])
  ref-IsSegment model rest r none h inv = ([], rest, refl, tt, h)
  ref-IsSegment model rest r (some d) h inv = (
    (d, h),
    elim (Bool-cases (text_eq d.materialization (codes "ephemeral"))) [
      | inl e ↦ rw e (push_ephemeral-Inv parse_ctes model d r (acyclic model d h) inv)
      | inr e ↦ rw e (push_body-Inv d.table_ref r inv)
    ],
  )

  source-IsSegment :
      (s table : Text) (rest : List DbtSegment) (r : Resolving) (o : Option SourceDef)
      → map_get s sources ≡ o
      → Inv r
      → IsSegment (source s table) rest (elim o [
        | none ↦ err (unknown_source s table)
        | some d ↦ ok (push_body (bq_table_ref project d.dataset table) r)
      ])
  source-IsSegment s table rest r none h inv = ([], rest, refl, tt, h)
  source-IsSegment s table rest r (some d) h inv =
      ((d, h), push_body-Inv (bq_table_ref project d.dataset table) r inv)

  segment_lem :
      (s : DbtSegment) (rest : List DbtSegment) (r : Resolving)
      → Inv r
      → IsSegment s rest (resolve_segment parse_ctes project sources model_refs s r)
  unfolding resolve_segment
  segment_lem (config raw_args) rest r inv = (tt, inv)
  segment_lem (DbtSegment.sql s) rest r inv = (tt, push_body-Inv s r inv)
  segment_lem (ref model) rest r inv =
      ref-IsSegment model rest r (map_get model model_refs) refl inv
  segment_lem (source s table) rest r inv =
      source-IsSegment s table rest r (map_get s sources) refl inv
  segment_lem (call name raw_args) rest r inv =
      (tt, push_body-Inv (rewritten (call name raw_args)) r inv)

  consed-IsStep :
      (s : DbtSegment) (rest : List DbtSegment) (o : Result Resolving ResolveError)
      → IsKnown sources model_refs s
      → IsStep sources model_refs rest o
      → IsStep sources model_refs (s ∷ rest) o
  consed-IsStep s rest (ok r) k (known, inv) = ((k, known), inv)
  consed-IsStep s rest (err (macro_expansion e)) k h = elim h [ ]
  consed-IsStep s rest (err (unknown_ref model)) k (front, behind, e, a, h) =
      (s ∷ front, behind, ap (◌∷◌ s) e, (k, a), h)
  consed-IsStep s rest (err (unknown_source t table)) k (front, behind, e, a, h) =
      (s ∷ front, behind, ap (◌∷◌ s) e, (k, a), h)

  segments-IsStep :
      (xs : List DbtSegment) (r : Resolving)
      → Inv r
      → IsStep sources model_refs xs (resolve_segments parse_ctes project sources model_refs xs r)
  unfolding resolve_segments
  segments-IsStep [] r inv = (tt, inv)
  segments-IsStep (s ∷ rest) r inv =
      from (resolve_segment parse_ctes project sources model_refs s r) (segment_lem s rest r inv)
        (λ next i. segments-IsStep rest next i)
    where
      from :
          (o : Result Resolving ResolveError)
          → IsSegment s rest o
          → ((next : Resolving)
              → Inv next
              → IsStep sources model_refs rest
                  (resolve_segments parse_ctes project sources model_refs rest next))
          → IsStep sources model_refs (s ∷ rest) (elim o [
            | err e ↦ err e
            | ok next ↦ resolve_segments parse_ctes project sources model_refs rest next
          ])
      from (err e) h ih = h
      from (ok next) h ih = consed-IsStep s rest _ h.0 (ih next h.1)

  restored-IsResolution :
      (decode : Text → Text) (xs : List DbtSegment) (o : Result Resolving ResolveError)
      → IsStep sources model_refs xs o
      → IsResolution sources model_refs xs
          (elim o [ err e ↦ some (err e) | ok r ↦ restored decode r ])
  unfolding restored
  restored-IsResolution decode xs (err e) h = h
  restored-IsResolution decode xs (ok r) (known, inv) =
      let (out, h, same, unique) = restore_ctes_ends decode r.ctes in
      let (body, k) = restore_raw_regions_ends decode (trim r.body) in
      rw (restored, h, k) (known, unique inv.1)

  expanded-IsResolution :
      (decode : Text → Text) (s : Text)
      → (xs : List DbtSegment) × (scan s ≡ some xs)
        × IsResolution sources model_refs xs
            (resolve_expanded parse_ctes decode project sources model_refs s)
  unfolding resolve_expanded scan
  expanded-IsResolution decode s =
      let (xs, h) = scan_ends s in
      (
        xs,
        h,
        rw (resolve_expanded, h)
            (restored-IsResolution decode xs
              (resolve_segments parse_ctes project sources model_refs xs new_resolving)
              (segments-IsStep xs new_resolving new_resolving-Inv)),
      )

  -- What `resolve` comes to for a result of the macro expansion.
  abbrev pub IsResolved :
      Option (Result Text MacroError) → Option (Result ResolvedSql ResolveError) → Type 0
  IsResolved none o = ⊥
  IsResolved (some (err e)) o = o ≡ some (err (macro_expansion e))
  IsResolved (some (ok expanded)) o =
      (xs : List DbtSegment) × (scan expanded ≡ some xs) × IsResolution sources model_refs xs o

  -- `resolve` always comes to a result. It is the error of the macro expansion where that fails. Else
  -- it is an error for the first reference to a model or a source that is not declared, or a
  -- resolution: every reference in the expanded template is declared then, and no two CTEs have
  -- the same name, provided no ephemeral model is among the CTEs of its own references.
  pub resolve-IsResolved :
      (decode : Text → Text) (sql : Text) (macros : List (Text × MacroDef))
      → IsResolved
          (expand_macros sql macros)
          (resolve parse_ctes decode project sources model_refs sql macros)
  unfolding resolve
  resolve-IsResolved decode sql macros =
      let (r, h) = expand_macros_ends sql macros in rw (resolve, h) (from r)
    where
      from :
          (r : Result Text MacroError)
          → IsResolved (some r) (elim r [
            | err e ↦ some (err (macro_expansion e))
            | ok expanded ↦ resolve_expanded parse_ctes decode project sources model_refs expanded
          ])
      from (err e) = refl
      from (ok expanded) = expanded-IsResolution decode expanded
