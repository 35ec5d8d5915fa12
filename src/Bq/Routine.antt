-- ===== src/Bq/Routine.antt =====
-- crates/gcpx-bq/src/routine: the inputs of a routine and the diff of two of them.
pub mod Exact
use pulumi_rs_provider_gcpx.Base.{
  ℕ, Bool, false, true, not, ◌||◌, List, [], ◌∷◌, length, ◌==◌, Option, Text, codes, neb,
  text_instance, option_eq, texts_eq,
}
use pulumi_rs_provider_gcpx.Core.Resource.{DiffResult, pushed}

pub record RoutineArgument : Type 0 where
  pub name : Text
  pub data_type : Text
  pub mode : Option Text

pub record RoutineInputs : Type 0 where
  pub project : Text
  pub dataset : Text
  pub routine_id : Text
  pub routine_type : Text
  pub language : Text
  pub definition_body : Text
  pub description : Option Text
  pub arguments : List RoutineArgument
  pub return_type : Option Text
  pub imported_libraries : List Text
  pub determinism_level : Option Text

-- `a.iter().zip(b.iter()).any(..)`: the longer list's rest is not looked at.
pub zip_differs : List RoutineArgument → List RoutineArgument → Bool
zip_differs [] bs = false
zip_differs (a ∷ as') [] = false
zip_differs (a ∷ as') (b ∷ bs) =
    neb a.name b.name || neb a.data_type b.data_type || neb a.mode b.mode || zip_differs as' bs

unfoldable pub args_differ : List RoutineArgument → List RoutineArgument → Bool
unfolding zip_differs
args_differ old new = not (length old == length new) || zip_differs old new

abbrev pub replace_tests : RoutineInputs → RoutineInputs → List (Bool × Text)
replace_tests old new =
    (neb old.project new.project, codes "project")
    ∷ (neb old.dataset new.dataset, codes "dataset")
    ∷ (neb old.routine_id new.routine_id, codes "routineId")
    ∷ (neb old.routine_type new.routine_type, codes "routineType")
    ∷ (neb old.language new.language, codes "language")
    ∷ []

abbrev pub update_tests : RoutineInputs → RoutineInputs → List (Bool × Text)
update_tests old new =
    (neb old.definition_body new.definition_body, codes "definitionBody")
    ∷ (neb old.description new.description, codes "description")
    ∷ (neb old.return_type new.return_type, codes "returnType")
    ∷ (neb old.determinism_level new.determinism_level, codes "determinismLevel")
    ∷ (neb old.imported_libraries new.imported_libraries, codes "importedLibraries")
    ∷ (args_differ old.arguments new.arguments, codes "arguments")
    ∷ []

unfoldable pub compute_routine_diff : RoutineInputs → RoutineInputs → DiffResult
compute_routine_diff old new = record {
  replace_keys = pushed (replace_tests old new);
  update_keys = pushed (update_tests old new);
}
