-- ===== src/Dbt/Resolver.antt =====
-- crates/gcpx-dbt/src/resolver.rs and types.rs: a model's SQL with its references resolved, and the
-- statements for it. The JSON parser and Unicode's case tables are not in the repository: they are
-- parameters, as are the base64 functions.
pub mod Ctes
pub mod Known
pub mod Outcome
use pulumi_rs_provider_gcpx.Base.{
  ℕ, Bool, true, false, not, ◌||◌, ◌&&◌, List, [], ◌∷◌, ◌++◌, map, Option, none, some, Text, codes,
  text_eq, eq_ignore_case, is_empty, length, any, filter, if◌then◌else◌, joined_by, map_get,
  map_insert, trim, Result, ok, err,
}
use pulumi_rs_provider_gcpx.Core.Sanitize.{bq_table_ref, bq_col_ref}
use pulumi_rs_provider_gcpx.Dbt.Templates.{DbtSegment, config, ref, source, call, scan}
use pulumi_rs_provider_gcpx.Dbt.Preprocess.{restore_raw_regions}
use pulumi_rs_provider_gcpx.Dbt.Macros.{MacroDef, MacroError, expand_macros, rewritten}
use pulumi_rs_provider_gcpx.Dbt.Options.{TableOptions, has_no_options, options_ddl}

pub data ResolveError : Type 0 where
  macro_expansion : MacroError → ResolveError
  unknown_ref : Text → ResolveError
  unknown_source : Text → Text → ResolveError

pub record SourceDef : Type 0 where
  pub dataset : Text
  pub tables : List Text

pub record ModelRefData : Type 0 where
  pub materialization : Text
  pub resolved_ctes_json : Text
  pub resolved_body : Text
  pub table_ref : Text
  pub resolved_ddl : Text
  pub resolved_sql : Text
  pub workflow_yaml : Text

pub record ResolvedSql : Type 0 where
  pub ctes : List (Text × Text)
  pub body : Text

-- The three variables that the loop over the segments changes.
pub record Resolving : Type 0 where
  pub ctes : List (Text × Text)
  pub body : Text
  pub seen_ctes : List (Text × ℕ)

abbrev pub is_some {ℓ} : {A : Type ℓ} → Option A → Bool
is_some none = false
is_some (some a) = true

unfoldable pub push_body : Text → Resolving → Resolving
push_body s r = record { ctes = r.ctes; body = r.body ++ s; seen_ctes = r.seen_ctes }

unfoldable pub push_cte : Text → Text → Resolving → Resolving
unfolding map_insert
push_cte name sql r = record {
  ctes = r.ctes ++ (name, sql) ∷ [];
  body = r.body;
  seen_ctes = map_insert name (length r.ctes) r.seen_ctes;
}

unfoldable pub has_cte : Text → Resolving → Bool
unfolding map_get
has_cte name r = is_some (map_get name r.seen_ctes)

-- The CTEs of an ephemeral model's own references.
unfoldable pub push_upstream : List (Text × Text) → Resolving → Resolving
unfolding push_cte has_cte
push_upstream [] r = r
push_upstream (e ∷ rest) r = push_upstream rest (if has_cte e.0 r then r else push_cte e.0 e.1 r)

abbrev pub cte_name : Text → Text
cte_name model = codes "__dbt__cte__" ++ model

module _ (parse_ctes : Text → Option (List (Text × Text))) where
  unfoldable pub upstream_ctes : ModelRefData → List (Text × Text)
  unfolding text_eq
  upstream_ctes d =
      if not (is_empty d.resolved_ctes_json) && not (text_eq d.resolved_ctes_json (codes "[]"))
      then (elim (parse_ctes d.resolved_ctes_json) [ none ↦ [] | some upstream ↦ upstream ])
      else []

  unfoldable pub push_ephemeral : Text → ModelRefData → Resolving → Resolving
  unfolding push_cte has_cte push_upstream upstream_ctes push_body
  push_ephemeral model d r = push_body (cte_name model) (
      if has_cte (cte_name model) r
      then r
      else push_cte (cte_name model) d.resolved_body (push_upstream (upstream_ctes d) r))

module _ (parse_ctes : Text → Option (List (Text × Text))) (project : Text)
    (sources : List (Text × SourceDef)) (model_refs : List (Text × ModelRefData)) where
  unfoldable pub resolve_segment : DbtSegment → Resolving → Result Resolving ResolveError
  unfolding map_get push_ephemeral push_body text_eq bq_table_ref
  resolve_segment (config raw_args) r = ok r
  resolve_segment (DbtSegment.sql s) r = ok (push_body s r)
  resolve_segment (ref model) r = elim (map_get model model_refs) [
    | none ↦ err (unknown_ref model)
    | some d ↦ ok (
        if text_eq d.materialization (codes "ephemeral")
        then push_ephemeral parse_ctes model d r
        else push_body d.table_ref r)
  ]
  resolve_segment (source s table) r = elim (map_get s sources) [
    | none ↦ err (unknown_source s table)
    | some d ↦ ok (push_body (bq_table_ref project d.dataset table) r)
  ]
  resolve_segment (call name raw_args) r = ok (push_body (rewritten (call name raw_args)) r)

  unfoldable pub resolve_segments : List DbtSegment → Resolving → Result Resolving ResolveError
  unfolding resolve_segment
  resolve_segments [] r = ok r
  resolve_segments (s ∷ rest) r = elim (resolve_segment s r) [
    | err e ↦ err e
    | ok next ↦ resolve_segments rest next
  ]

abbrev pub new_resolving : Resolving
new_resolving = record { ctes = []; body = []; seen_ctes = [] }

unfoldable pub restore_ctes : (Text → Text) → List (Text × Text) → Option (List (Text × Text))
unfolding restore_raw_regions
restore_ctes decode [] = some []
restore_ctes decode (e ∷ rest) = elim (restore_raw_regions decode e.1) [
  | none ↦ none
  | some sql ↦ elim (restore_ctes decode rest) [
    | none ↦ none
    | some later ↦ some ((e.0, sql) ∷ later)
  ]
]

-- The end of `resolve`.
unfoldable pub restored : (Text → Text) → Resolving → Option (Result ResolvedSql ResolveError)
unfolding restore_ctes restore_raw_regions trim
restored decode r = elim (restore_ctes decode r.ctes) [
  | none ↦ none
  | some cs ↦ elim (restore_raw_regions decode (trim r.body)) [
    | none ↦ none
    | some b ↦ some (ok (record { ctes = cs; body = b }))
  ]
]

module _ (parse_ctes : Text → Option (List (Text × Text))) (decode : Text → Text) (project : Text)
    (sources : List (Text × SourceDef)) (model_refs : List (Text × ModelRefData)) where
  -- After the macros. `none` says that a loop ran out of fuel.
  unfoldable pub resolve_expanded : Text → Option (Result ResolvedSql ResolveError)
  unfolding scan resolve_segments restored
  resolve_expanded expanded = elim (scan expanded) [
    | none ↦ none
    | some segments ↦
        elim (resolve_segments parse_ctes project sources model_refs segments new_resolving) [
          | err e ↦ some (err e)
          | ok r ↦ restored decode r
        ]
  ]

  unfoldable pub resolve : Text → List (Text × MacroDef) → Option (Result ResolvedSql ResolveError)
  unfolding expand_macros resolve_expanded
  resolve sql macros = elim (expand_macros sql macros) [
    | none ↦ none
    | some (err e) ↦ some (err (macro_expansion e))
    | some (ok expanded) ↦ resolve_expanded expanded
  ]
