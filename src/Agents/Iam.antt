-- ===== src/Agents/Iam.antt =====
-- crates/gcpx-agents/src/validate.rs and types.rs: the access policy of an agent. A reason is structured
-- data in place of its text.
pub mod Merged
use pulumi_rs_provider_gcpx.Base.{
  ℕ, ℤ, ◌+◌, Bool, true, false, not, ◌||◌, ◌&&◌, List, [], ◌∷◌, ◌++◌, map, Text, codes, text_eq,
  is_empty, any, starts_with, if◌then◌else◌,
}

pub record IamBinding : Type 0 where
  pub role : Text
  pub members : List Text

pub record IamPolicyInputs : Type 0 where
  pub project : Text
  pub location : Text
  pub agent_id : Text
  pub bindings : List IamBinding
  pub authoritative : Bool

pub record IamPolicyMeta : Type 0 where
  pub etag : Text
  pub version : ℤ
  pub bindings : List (Text × List Text)

unfoldable pub has_member : Text → List Text → Bool
unfolding text_eq
has_member m members = any (λ n. text_eq n m) members

-- The members that are not there are pushed.
unfoldable pub add_members : List Text → List Text → List Text
unfolding has_member
add_members members [] = members
add_members members (m ∷ rest) =
    add_members (if has_member m members then members else members ++ m ∷ []) rest

-- One round of the loop over the declared bindings: the first binding with the role is extended.
unfoldable pub merge_binding : List IamBinding → IamBinding → List IamBinding
unfolding add_members text_eq
merge_binding [] b = b ∷ []
merge_binding (x ∷ xs) b =
    let later = x ∷ merge_binding xs b in
    if text_eq x.role b.role
    then record x { members = add_members x.members b.members } ∷ xs
    else later

unfoldable pub merge_all : List IamBinding → List IamBinding → List IamBinding
unfolding merge_binding
merge_all merged [] = merged
merge_all merged (b ∷ rest) = merge_all (merge_binding merged b) rest

abbrev pub live_bindings : IamPolicyMeta → List IamBinding
live_bindings current = map (λ e. record { role = e.0; members = e.1 }) current.bindings

unfoldable pub merge_bindings : IamPolicyMeta → List IamBinding → List IamBinding
unfolding merge_all
merge_bindings current declared = merge_all (live_bindings current) declared

abbrev pub member_prefixes : List Text
member_prefixes =
    codes "user:"
    ∷ codes "serviceAccount:"
    ∷ codes "group:"
    ∷ codes "domain:"
    ∷ codes "principal:"
    ∷ codes "principalSet:"
    ∷ []

unfoldable pub is_valid_iam_member : Text → Bool
unfolding text_eq starts_with
is_valid_iam_member member =
    text_eq member (codes "allUsers")
    || (text_eq member (codes "allAuthenticatedUsers")
        || any (λ p. starts_with p member) member_prefixes)

-- The number of the binding, its role, and a member where one is at fault.
pub data PolicyFailure : Type 0 where
  no_project no_agent_id : PolicyFailure
  not_a_role : ℕ → Text → PolicyFailure
  granted_to_nobody : ℕ → Text → PolicyFailure
  no_type_prefix : ℕ → Text → PolicyFailure

abbrev pub fault_if : Bool → PolicyFailure → List PolicyFailure
fault_if b f = if b then f ∷ [] else []

unfoldable pub member_failures : ℕ → List Text → List PolicyFailure
unfolding is_valid_iam_member
member_failures i [] = []
member_failures i (m ∷ rest) =
    fault_if (not (is_valid_iam_member m)) (no_type_prefix i m) ++ member_failures i rest

unfoldable pub binding_failures : ℕ → List IamBinding → List PolicyFailure
unfolding member_failures starts_with
binding_failures i [] = []
binding_failures i (b ∷ rest) =
    fault_if
      (not (starts_with (codes "roles/") b.role) && not (starts_with (codes "projects/") b.role))
      (not_a_role i b.role)
    ++ (fault_if (is_empty b.members) (granted_to_nobody i b.role)
        ++ (member_failures i b.members ++ binding_failures (i + 1) rest))

unfoldable pub validate_iam_policy : IamPolicyInputs → List PolicyFailure
unfolding binding_failures
validate_iam_policy i =
    fault_if (is_empty i.project) no_project
    ++ (fault_if (is_empty i.agent_id) no_agent_id ++ binding_failures 0 i.bindings)
