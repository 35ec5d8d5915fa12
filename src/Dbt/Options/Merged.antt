-- ===== src/Dbt/Options/Merged.antt =====
-- What the merged options are (crates/gcpx-dbt/src/options.rs).
use pulumi_rs_provider_gcpx.Base.{
  ◌≡◌, refl, ap, sym, ◌∙◌, false, ◌&&◌, List, [], ◌∷◌, Option, none, some, Text, text_eq,
  text_eq_iff, is_empty, if◌then◌else◌, arith, Bool-cases, inl, inr, map_get, map_insert,
  map_extend, map_get-map_insert, map_get_other,
}
use pulumi_rs_provider_gcpx.Dbt.Options.{
  TableOptions, is_none, has_no_options, or_base, merge_options,
}

-- The keys of a map are pairwise different.
unfoldable pub HasUniqueKeys : List (Text × Text) → Type 0
HasUniqueKeys [] = Unit
HasUniqueKeys (e ∷ m) = (map_get e.0 m ≡ none) × HasUniqueKeys m

map_get-map_extend :
    (k : Text) (m o : List (Text × Text))
    → HasUniqueKeys o
    → map_get k (map_extend m o) ≡ or_base (map_get k o) (map_get k m)
unfolding map_extend map_get HasUniqueKeys
map_get-map_extend k m [] h = refl
map_get-map_extend k m (e ∷ o) h = elim (Bool-cases (text_eq e.0 k)) [
  | inl g ↦
      (let same = (text_eq_iff e.0 k).0 g in
        map_get-map_extend k (map_insert e.0 e.1 m) o h.1
        ∙ rw
            (
              g,
              ap (λ x. map_get x o) (sym same) ∙ h.0,
              ap (λ x. map_get x (map_insert e.0 e.1 m)) (sym same) ∙ map_get-map_insert e.0 e.1 m,
            )
            refl)
  | inr g ↦
      map_get-map_extend k (map_insert e.0 e.1 m) o h.1 ∙ rw (g, map_get_other k e.0 e.1 m g) refl
]

-- A label of the merged options is the override's where it has that label, and else the base's.
pub map_get-merge_options :
    (base overrides : TableOptions) (k : Text)
    → HasUniqueKeys overrides.labels
    → map_get k (merge_options base overrides).labels
      ≡ or_base (map_get k overrides.labels) (map_get k base.labels)
unfolding merge_options map_get
map_get-merge_options base overrides k h = from overrides.labels h
  where
    from :
        (o : List (Text × Text))
        → HasUniqueKeys o
        → map_get k (if is_empty o then base.labels else map_extend base.labels o)
          ≡ or_base (map_get k o) (map_get k base.labels)
    from [] g = refl
    from (e ∷ o) g = map_get-map_extend k base.labels (e ∷ o) g

is_empty-map_insert : (k v : Text) (m : List (Text × Text)) → is_empty (map_insert k v m) ≡ false
unfolding map_insert
is_empty-map_insert k v [] = refl
is_empty-map_insert k v (e ∷ m) = ground arith

is_empty-map_extend :
    (m o : List (Text × Text)) → is_empty m ≡ false → is_empty (map_extend m o) ≡ false
unfolding map_extend
is_empty-map_extend m [] h = h
is_empty-map_extend m (e ∷ o) h =
    is_empty-map_extend (map_insert e.0 e.1 m) o (is_empty-map_insert e.0 e.1 m)

is_empty-merged :
    (m o : List (Text × Text))
    → is_empty (if is_empty o then m else map_extend m o) ≡ is_empty m && is_empty o
unfolding map_extend
is_empty-merged m [] = ground arith
is_empty-merged m (e ∷ o) =
    is_empty-map_extend (map_insert e.0 e.1 m) o (is_empty-map_insert e.0 e.1 m) ∙ ground arith

is_none-or_base {ℓ} : {A : Type ℓ} (o b : Option A) → is_none (or_base o b) ≡ is_none b && is_none o
is_none-or_base none none = refl
is_none-or_base none (some b) = refl
is_none-or_base (some a) none = refl
is_none-or_base (some a) (some b) = refl

-- The merged options are empty exactly where both are.
pub has_no_options-merge_options :
    (base overrides : TableOptions)
    → has_no_options (merge_options base overrides)
      ≡ has_no_options base && has_no_options overrides
unfolding merge_options has_no_options
has_no_options-merge_options base overrides =
    simp (has_no_options, is_empty-merged, is_none-or_base) (ground arith)
