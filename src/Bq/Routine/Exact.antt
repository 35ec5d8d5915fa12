-- ===== src/Bq/Routine/Exact.antt =====
-- The diff of two routines reports a change exactly when they differ.
use pulumi_rs_provider_gcpx.Base.{
  ◌≡◌, refl, ◌↔◌, false, List, [], ◌∷◌, arith, subst, eq_of_neb, neb, neb_self, text_instance,
  option_eq, texts_eq,
}
use pulumi_rs_provider_gcpx.Core.Resource.Exact.{has_changes_same, same_has_changes, AllSame}
use pulumi_rs_provider_gcpx.Core.Resource.{has_changes}
use pulumi_rs_provider_gcpx.Bq.Routine.{
  RoutineArgument, RoutineInputs, args_differ, compute_routine_diff, replace_tests, update_tests,
}

args_differ_self : (xs : List RoutineArgument) → args_differ xs xs ≡ false
unfolding args_differ
args_differ_self [] = refl
args_differ_self (a ∷ xs) =
    ground (arith, neb_self a.name, neb_self a.data_type, neb_self a.mode, args_differ_self xs)

args_eq : (xs ys : List RoutineArgument) → args_differ xs ys ≡ false → xs ≡ ys
unfolding args_differ
args_eq [] [] h = refl
args_eq [] (b ∷ ys) h = ground arith
args_eq (a ∷ xs) [] h = ground arith
args_eq (a ∷ xs) (b ∷ ys) h =
    let n : neb a.name b.name ≡ false = ground arith in
    let t : neb a.data_type b.data_type ≡ false = ground arith in
    let m : neb a.mode b.mode ≡ false = ground arith in
    let rest = args_eq xs ys (ground arith) in
    let same : a ≡ b = λ k. record {
      name = eq_of_neb a.name b.name n k;
      data_type = eq_of_neb a.data_type b.data_type t k;
      mode = eq_of_neb a.mode b.mode m k;
    } in
    cc (same, rest)

self_same : (x : RoutineInputs) → AllSame (replace_tests x x) × AllSame (update_tests x x)
self_same x = (
  (
    neb_self x.project,
    (
      neb_self x.dataset,
      (neb_self x.routine_id, (neb_self x.routine_type, (neb_self x.language, tt))),
    ),
  ),
  (
    neb_self x.definition_body,
    (
      neb_self x.description,
      (
        neb_self x.return_type,
        (
          neb_self x.determinism_level,
          (neb_self x.imported_libraries, (args_differ_self x.arguments, tt)),
        ),
      ),
    ),
  ),
)

same_eq :
    (old new : RoutineInputs)
    → AllSame (replace_tests old new)
    → AllSame (update_tests old new)
    → old ≡ new
same_eq old new (a, (b, (c, (d, (e, _))))) (f, (g, (h, (i, (j, (l, _)))))) = λ k. record {
  project = eq_of_neb old.project new.project a k;
  dataset = eq_of_neb old.dataset new.dataset b k;
  routine_id = eq_of_neb old.routine_id new.routine_id c k;
  routine_type = eq_of_neb old.routine_type new.routine_type d k;
  language = eq_of_neb old.language new.language e k;
  definition_body = eq_of_neb old.definition_body new.definition_body f k;
  description = eq_of_neb old.description new.description g k;
  arguments = args_eq old.arguments new.arguments l k;
  return_type = eq_of_neb old.return_type new.return_type h k;
  imported_libraries = eq_of_neb old.imported_libraries new.imported_libraries j k;
  determinism_level = eq_of_neb old.determinism_level new.determinism_level i k;
}

-- The diff of two sets of routine inputs has no changes exactly when they are equal, arguments
-- included: comparing lengths and pairs misses no argument.
pub compute_routine_diff_exact :
    (old new : RoutineInputs) → (has_changes (compute_routine_diff old new) ≡ false) ↔ (old ≡ new)
unfolding compute_routine_diff
compute_routine_diff_exact old new = (
  λ h.
      let (r, u) = has_changes_same (replace_tests old new) (update_tests old new) h in
      same_eq old new r u,
  λ e.
      subst (λ x. has_changes (compute_routine_diff old x) ≡ false) e
        (let (r, u) = self_same old in
          same_has_changes (replace_tests old old) (update_tests old old) r u),
)
