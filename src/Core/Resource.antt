-- ===== src/Core/Resource.antt =====
-- crates/gcpx-core/src/resource.rs and handler_util.rs: validation failures and diff outcomes.
pub mod Detail
pub mod Exact
use pulumi_rs_provider_gcpx.Base.{
  ℕ, Bool, true, false, not, ◌||◌, List, [], ◌∷◌, ◌++◌, is_empty, if◌then◌else◌, Text, codes,
  text_eq, Option, none, some,
}

pub record CheckFailure : Type 0 where
  pub property : Text
  pub reason : Text

pub record DiffResult : Type 0 where
  pub replace_keys : List Text
  pub update_keys : List Text

unfoldable pub has_changes : DiffResult → Bool
has_changes d = not (is_empty d.replace_keys) || not (is_empty d.update_keys)

unfoldable pub needs_replace : DiffResult → Bool
needs_replace d = not (is_empty d.replace_keys)

unfoldable pub require_non_empty : List CheckFailure → Text → Text → List CheckFailure
require_non_empty failures property value =
    if is_empty value
    then failures
      ++ (record { property = property; reason = property ++ codes " must not be empty" }) ∷ []
    else failures

-- `if cond { keys.push(key) }`.
abbrev pub push_if : Bool → Text → List Text → List Text
push_if b key keys = if b then keys ++ key ∷ [] else keys

pub data DiffChanges : Type 0 where
  diff_none diff_some : DiffChanges

pub data Kind : Type 0 where
  update_replace update : Kind

-- `detailed_diff`, a `HashMap` from keys, as an association list; `input_diff` is always true.
pub record DiffResponse : Type 0 where
  pub changes : DiffChanges
  pub replaces : List Text
  pub detailed_diff : List (Text × Kind)

unfoldable pub insert : Text → Kind → List (Text × Kind) → List (Text × Kind)
insert k v [] = (k, v) ∷ []
insert k v ((j, w) ∷ m) =
    let rest = (j, w) ∷ insert k v m in if text_eq j k then (k, v) ∷ m else rest

unfoldable pub lookup : Text → List (Text × Kind) → Option Kind
lookup k [] = none
lookup k ((j, v) ∷ m) = if text_eq j k then some v else lookup k m

unfoldable pub insert_all : List Text → Kind → List (Text × Kind) → List (Text × Kind)
insert_all [] kind m = m
insert_all (k ∷ ks) kind m = insert_all ks kind (insert k kind m)

unfoldable pub build_diff_response : DiffResult → DiffResponse
build_diff_response d = record {
  changes = if has_changes d then diff_some else diff_none;
  replaces = d.replace_keys;
  detailed_diff = insert_all d.update_keys update (insert_all d.replace_keys update_replace []);
}

-- A run of `if changed { keys.push(key) }` on an empty list, in order.
unfoldable pub pushed : List (Bool × Text) → List Text
pushed [] = []
pushed ((changed, key) ∷ rest) = let keys = pushed rest in if changed then key ∷ keys else keys
