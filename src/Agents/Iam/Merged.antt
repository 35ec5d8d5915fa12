-- ===== src/Agents/Iam/Merged.antt =====
-- What a merged policy grants (crates/gcpx-agents/src/validate.rs).
use pulumi_rs_provider_gcpx.Base.{
  ◌≡◌, refl, sym, ap, ◌∙◌, subst, Bool, true, ◌||◌, ◌&&◌, List, [], ◌∷◌, ◌++◌, Text, text_eq,
  text_eq_iff, any, arith, Bool-cases, inl, inr,
}
use pulumi_rs_provider_gcpx.Agents.Iam.{
  IamBinding, IamPolicyMeta, has_member, add_members, merge_binding, merge_all, live_bindings,
  merge_bindings,
}

-- The role is granted to the member.
unfoldable pub grants : Text → Text → List IamBinding → Bool
unfolding text_eq has_member
grants role member bindings = any (λ b. text_eq b.role role && has_member member b.members) bindings

has_member-append :
    (m n : Text) (members : List Text)
    → has_member m (members ++ n ∷ []) ≡ (text_eq n m || has_member m members)
unfolding has_member
has_member-append m n [] = refl
has_member-append m n (x ∷ members) = ground (arith, has_member-append m n members)

absorbed :
    (m n : Text) (members : List Text)
    → has_member n members ≡ true
    → (text_eq n m || has_member m members) ≡ has_member m members
absorbed m n members h = elim (Bool-cases (text_eq n m)) [
  | inl e ↦ rw e (sym (subst (λ k. has_member k members ≡ true) ((text_eq_iff n m).0 e) h))
  | inr e ↦ rw e refl
]

has_member-add_members :
    (m : Text) (added members : List Text)
    → has_member m (add_members members added) ≡ (has_member m members || has_member m added)
unfolding add_members
has_member-add_members m [] members = ground arith
has_member-add_members m (n ∷ added) members =
    has_member-add_members m added _ ∙ elim (Bool-cases (has_member n members)) [
      | inl h ↦ rw h (ground (arith, absorbed m n members h))
      | inr h ↦ rw h (ground (arith, has_member-append m n members))
    ]

same_role : (r s t : Text) → text_eq r s ≡ true → text_eq r t ≡ text_eq s t
same_role r s t h = ap (λ k. text_eq k t) ((text_eq_iff r s).0 h)

grants-merge_binding :
    (role member : Text) (bindings : List IamBinding) (b : IamBinding)
    → grants role member (merge_binding bindings b)
      ≡ (grants role member bindings || (text_eq b.role role && has_member member b.members))
unfolding grants merge_binding
grants-merge_binding role member [] b = ground arith
grants-merge_binding role member (x ∷ xs) b = elim (Bool-cases (text_eq x.role b.role)) [
  | inl h ↦ rw h (
      ground
        (arith, has_member-add_members member b.members x.members, same_role x.role b.role role h))
  | inr h ↦ rw h (ground (arith, grants-merge_binding role member xs b))
]

grants-merge_all :
    (role member : Text) (bindings declared : List IamBinding)
    → grants role member (merge_all bindings declared)
      ≡ (grants role member bindings || grants role member declared)
unfolding merge_all grants
grants-merge_all role member bindings [] = ground arith
grants-merge_all role member bindings (b ∷ declared) =
    grants-merge_all role member (merge_binding bindings b) declared
    ∙ ground (arith, grants-merge_binding role member bindings b)

-- The merged policy grants a role to a member exactly where the live policy or a declared binding
-- does: no grant is lost, and none is added that is not declared.
pub grants-merge_bindings :
    (role member : Text) (current : IamPolicyMeta) (declared : List IamBinding)
    → grants role member (merge_bindings current declared)
      ≡ (grants role member (live_bindings current) || grants role member declared)
unfolding merge_bindings
grants-merge_bindings role member current declared =
    grants-merge_all role member (live_bindings current) declared
