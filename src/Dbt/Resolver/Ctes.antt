-- ===== src/Dbt/Resolver/Ctes.antt =====
-- The CTEs that a resolution collects (crates/gcpx-dbt/src/resolver.rs).
use pulumi_rs_provider_gcpx.Base.{
  ◌≡◌, refl, ap, sym, ◌∙◌, subst, Bool, false, ◌||◌, List, [], ◌∷◌, ◌++◌, Option, Text, length, any,
  text_eq, text_eq_self, text_eq_sym, text_eq_iff, arith, Bool-cases, inl, inr, map_get,
  map_get-map_insert, map_get_other,
}
use pulumi_rs_provider_gcpx.Dbt.Resolver.{
  ModelRefData, Resolving, is_some, push_body, push_cte, has_cte, push_upstream, cte_name,
  upstream_ctes, push_ephemeral, new_resolving,
}

abbrev pub names_cte : Text → List (Text × Text) → Bool
names_cte k ctes = any (λ e. text_eq e.0 k) ctes

-- No two CTEs have the same name.
unfoldable pub HasUniqueNames : List (Text × Text) → Type 0
HasUniqueNames [] = Unit
HasUniqueNames (e ∷ rest) = (names_cte e.0 rest ≡ false) × HasUniqueNames rest

-- The map of seen names has the names of the CTEs, and these are unique.
abbrev pub Inv : Resolving → Type 0
Inv r = ((k : Text) → has_cte k r ≡ names_cte k r.ctes) × HasUniqueNames r.ctes

names_cte-append :
    (k : Text) (xs : List (Text × Text)) (e : Text × Text)
    → names_cte k (xs ++ e ∷ []) ≡ (text_eq e.0 k || names_cte k xs)
names_cte-append k [] e = refl
names_cte-append k (x ∷ xs) e = ground (arith, names_cte-append k xs e)

append-HasUniqueNames :
    (xs : List (Text × Text)) (e : Text × Text)
    → names_cte e.0 xs ≡ false
    → HasUniqueNames xs
    → HasUniqueNames (xs ++ e ∷ [])
unfolding HasUniqueNames
append-HasUniqueNames [] e h u = (refl, tt)
append-HasUniqueNames (x ∷ xs) e h u = (
  ground (arith, names_cte-append x.0 xs e, h, u.0, text_eq_sym e.0 x.0),
  append-HasUniqueNames xs e (ground (arith, h)) u.1,
)

push_cte-Inv :
    (name sql : Text) (r : Resolving) → has_cte name r ≡ false → Inv r → Inv (push_cte name sql r)
unfolding push_cte has_cte
push_cte-Inv name sql r h (tracked, unique) = (
  λ k. elim (Bool-cases (text_eq name k)) [
    | inl e ↦
        subst (λ j. has_cte j (push_cte name sql r) ≡ names_cte j (r.ctes ++ (name, sql) ∷ []))
          ((text_eq_iff name k).0 e)
          (ap is_some (map_get-map_insert name (length r.ctes) r.seen_ctes)
            ∙ sym (names_cte-append name r.ctes (name, sql) ∙ rw (text_eq_self name) refl))
    | inr e ↦
        ap is_some (map_get_other k name (length r.ctes) r.seen_ctes e)
        ∙ tracked k
        ∙ sym (names_cte-append k r.ctes (name, sql) ∙ rw e refl)
  ],
  append-HasUniqueNames r.ctes (name, sql) (sym (tracked name) ∙ h) unique,
)

push_upstream-Inv :
    (upstream : List (Text × Text)) (r : Resolving) → Inv r → Inv (push_upstream upstream r)
unfolding push_upstream
push_upstream-Inv [] r h = h
push_upstream-Inv (e ∷ rest) r h = push_upstream-Inv rest _ (elim (Bool-cases (has_cte e.0 r)) [
  | inl seen ↦ rw seen h
  | inr unseen ↦ rw unseen (push_cte-Inv e.0 e.1 r unseen h)
])

has_cte-push_cte :
    (k name sql : Text) (r : Resolving)
    → text_eq name k ≡ false
    → has_cte k (push_cte name sql r) ≡ has_cte k r
unfolding has_cte push_cte
has_cte-push_cte k name sql r h = ap is_some (map_get_other k name _ r.seen_ctes h)

-- A name that no upstream CTE has is seen afterwards only where it was before.
has_cte-push_upstream :
    (k : Text) (upstream : List (Text × Text)) (r : Resolving)
    → names_cte k upstream ≡ false
    → has_cte k (push_upstream upstream r) ≡ has_cte k r
unfolding push_upstream
has_cte-push_upstream k [] r h = refl
has_cte-push_upstream k (e ∷ rest) r h =
    has_cte-push_upstream k rest _ (ground (arith, h)) ∙ elim (Bool-cases (has_cte e.0 r)) [
      | inl seen ↦ rw seen refl
      | inr unseen ↦ rw unseen (has_cte-push_cte k e.0 e.1 r (ground (arith, h)))
    ]

module _ (parse_ctes : Text → Option (List (Text × Text))) where
  pub push_ephemeral-Inv :
      (model : Text) (d : ModelRefData) (r : Resolving)
      → names_cte (cte_name model) (upstream_ctes parse_ctes d) ≡ false
      → Inv r
      → Inv (push_ephemeral parse_ctes model d r)
  unfolding push_ephemeral push_body has_cte
  push_ephemeral-Inv model d r h inv =
      let upstream = upstream_ctes parse_ctes d in
      elim (Bool-cases (has_cte (cte_name model) r)) [
        | inl seen ↦ rw seen inv
        | inr unseen ↦ rw unseen (
            push_cte-Inv (cte_name model) d.resolved_body (push_upstream upstream r)
              (has_cte-push_upstream (cte_name model) upstream r h ∙ unseen)
              (push_upstream-Inv upstream r inv))
      ]

pub push_body-Inv : (s : Text) (r : Resolving) → Inv r → Inv (push_body s r)
unfolding push_body has_cte
push_body-Inv s r inv = inv

pub new_resolving-Inv : Inv new_resolving
unfolding has_cte map_get HasUniqueNames
new_resolving-Inv = ((λ k. refl), tt)
