-- ===== src/Dbt/Validate/Accepted.antt =====
-- Which inputs are accepted (crates/gcpx-dbt/src/validate.rs).
use pulumi_rs_provider_gcpx.Base.{
  is_empty-append, ◌≡◌, refl, Bool, true, false, not, ◌&&◌, ◌||◌, List, [], ◌∷◌, ◌++◌, Text, codes,
  is_empty, all, eq_ignore_case, eq_ignore_case_sym, arith,
}
use pulumi_rs_provider_gcpx.Dbt.Validate.{
  SourceInputs, ProjectInputs, MacroInputs, Reason, fail_if, reserved_names, is_among,
  source_failures, model_failures, name_failures, collision_failures, validate_project,
  validate_macro, duplicate_macro, reserved_macro, duplicate_arg, reserved_arg,
}

pub is_empty-fail_if : (b : Bool) (p : Text) (r : Reason) → is_empty (fail_if b p r) ≡ not b
is_empty-fail_if true p r = refl
is_empty-fail_if false p r = refl

-- No name occurs twice, in whatever case.
unfoldable pub distinct : List Text → Bool
distinct [] = true
distinct (m ∷ rest) = not (is_among m rest) && distinct rest

-- No name of the one list is among the other.
abbrev pub disjoint : List Text → List Text → Bool
disjoint names others = all (λ m. not (is_among m others)) names

abbrev pub valid_source : Text × SourceInputs → Bool
valid_source e = not (is_empty e.1.dataset) && not (is_empty e.1.tables)

is_empty-source_failures :
    (xs : List (Text × SourceInputs)) → is_empty (source_failures xs) ≡ all valid_source xs
unfolding source_failures
is_empty-source_failures [] = refl
is_empty-source_failures (e ∷ rest) =
    simp (source_failures, is_empty-append, is_empty-fail_if, is_empty-source_failures rest)
      (ground arith)

is_empty-collision_failures :
    (macros models : List Text)
    → is_empty (collision_failures macros models) ≡ disjoint models macros
unfolding collision_failures
is_empty-collision_failures macros [] = refl
is_empty-collision_failures macros (m ∷ rest) =
    simp
      (
        collision_failures,
        is_empty-append,
        is_empty-fail_if,
        is_empty-collision_failures macros rest,
      )
      (ground arith)

is_among-append :
    (m n : Text) (seen : List Text)
    → is_among m (seen ++ n ∷ []) ≡ (eq_ignore_case n m || is_among m seen)
unfolding is_among
is_among-append m n [] = refl
is_among-append m n (s ∷ seen) = ground (arith, is_among-append m n seen)

eq_ignore_case_comm : (s t : Text) → eq_ignore_case s t ≡ eq_ignore_case t s
eq_ignore_case_comm s t = ground (arith, eq_ignore_case_sym s t, eq_ignore_case_sym t s)

disjoint-append :
    (n : Text) (names seen : List Text)
    → disjoint names (seen ++ n ∷ []) ≡ (disjoint names seen && not (is_among n names))
unfolding is_among
disjoint-append n [] seen = refl
disjoint-append n (m ∷ names) seen =
    ground (arith, disjoint-append n names seen, is_among-append m n seen, eq_ignore_case_comm n m)

is_empty-model_failures :
    (seen names : List Text)
    → is_empty (model_failures seen names) ≡ (disjoint names seen && distinct names)
unfolding model_failures distinct
is_empty-model_failures seen [] = refl
is_empty-model_failures seen (m ∷ rest) =
    simp
      (
        model_failures,
        is_empty-append,
        is_empty-fail_if,
        is_empty-model_failures (seen ++ m ∷ []) rest,
        disjoint-append m rest seen,
      )
      (ground arith)

is_empty-name_failures :
    (p : Text) (d r : Text → Reason) (seen names : List Text)
    → is_empty (name_failures p d r seen names)
      ≡ (disjoint names seen && (distinct names && disjoint names reserved_names))
unfolding name_failures distinct
is_empty-name_failures p d r seen [] = refl
is_empty-name_failures p d r seen (m ∷ rest) =
    simp
      (
        name_failures,
        is_empty-append,
        is_empty-fail_if,
        is_empty-name_failures p d r (seen ++ m ∷ []) rest,
        disjoint-append m rest seen,
      )
      (ground arith)

none_seen : (names : List Text) → disjoint names [] ≡ true
unfolding is_among
none_seen [] = refl
none_seen (m ∷ names) = none_seen names

abbrev pub valid_project : ProjectInputs → Bool
valid_project i =
    not (is_empty i.gcp_project)
    && (not (is_empty i.dataset)
        && (all valid_source i.sources
            && (distinct i.declared_models
                && ((distinct i.declared_macros && disjoint i.declared_macros reserved_names)
                    && disjoint i.declared_models i.declared_macros))))

-- A project is accepted exactly where its project and dataset are given, every source has a dataset
-- and a table, no two models and no two macros have the same name in whatever case, no macro has a
-- reserved name, and no model the name of a macro.
pub is_empty-validate_project :
    (i : ProjectInputs) → is_empty (validate_project i) ≡ valid_project i
unfolding validate_project
is_empty-validate_project i = simp (
  validate_project,
  is_empty-append,
  is_empty-fail_if,
  is_empty-source_failures i.sources,
  is_empty-model_failures [] i.declared_models,
  is_empty-name_failures (codes "declaredMacros") duplicate_macro reserved_macro []
      i.declared_macros,
  is_empty-collision_failures i.declared_macros i.declared_models,
  none_seen i.declared_models,
  none_seen i.declared_macros,
)

abbrev pub valid_macro : MacroInputs → Bool
valid_macro i =
    not (is_empty i.name)
    && (not (is_empty i.sql)
        && (not (is_among i.name reserved_names)
            && (distinct i.args && disjoint i.args reserved_names)))

-- A macro is accepted exactly where its name and its SQL are given, its name is not reserved, and no
-- two of its arguments have the same name in whatever case, and none a reserved one.
pub is_empty-validate_macro : (i : MacroInputs) → is_empty (validate_macro i) ≡ valid_macro i
unfolding validate_macro
is_empty-validate_macro i = simp (
  validate_macro,
  is_empty-append,
  is_empty-fail_if,
  is_empty-name_failures (codes "args") duplicate_arg reserved_arg [] i.args,
  none_seen i.args,
)
