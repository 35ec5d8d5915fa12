-- ===== src/Base/Maps.antt =====
-- `BTreeMap` with text keys: its entries in the order of their keys.
use mathlib.Core.Path.{◌≡◌, refl, sym, subst}
use mathlib.Core.Logic.{inl, inr}
use mathlib.Core.List.{List, [], ◌∷◌}
use mathlib.Core.Option.{Option, none, some}
use mathlib.Core.Bool.{Bool, true, false}
use native.Mathlib.Omega.{arith}
use pulumi_rs_provider_gcpx.Base.Tests.{ltb, ◌==◌, if◌then◌else◌, Bool-cases}
use pulumi_rs_provider_gcpx.Base.Texts.{Text, text_eq, text_eq_iff}

-- The order of texts.
unfoldable pub text_lt : Text → Text → Bool
text_lt s [] = false
text_lt [] (d ∷ t) = true
text_lt (c ∷ s) (d ∷ t) =
    let later = text_lt s t in if ltb c d then true else if c == d then later else false

module _ {A : Type 0} where
  unfoldable pub map_get : Text → List (Text × A) → Option A
  unfolding text_eq
  map_get k [] = none
  map_get k (e ∷ rest) = let later = map_get k rest in if text_eq e.0 k then some e.1 else later

  -- The later value of a key wins.
  unfoldable pub map_insert : Text → A → List (Text × A) → List (Text × A)
  unfolding text_eq text_lt
  map_insert k v [] = (k, v) ∷ []
  map_insert k v (e ∷ rest) =
      let later = e ∷ map_insert k v rest in
      if text_eq e.0 k then (k, v) ∷ rest else if text_lt k e.0 then (k, v) ∷ e ∷ rest else later

  unfoldable pub map_extend : List (Text × A) → List (Text × A) → List (Text × A)
  unfolding map_insert
  map_extend m [] = m
  map_extend m (e ∷ rest) = map_extend (map_insert e.0 e.1 m) rest

pub text_eq_self : (s : Text) → text_eq s s ≡ true
text_eq_self s = (text_eq_iff s s).1 refl

pub text_eq_sym : (s t : Text) → text_eq s t ≡ text_eq t s
unfolding text_eq
text_eq_sym [] [] = refl
text_eq_sym [] (d ∷ t) = refl
text_eq_sym (c ∷ s) [] = refl
text_eq_sym (c ∷ s) (d ∷ t) = ground (arith, text_eq_sym s t)

text_neq_trans : (a b c : Text) → text_eq a b ≡ true → text_eq b c ≡ false → text_eq a c ≡ false
text_neq_trans a b c h k = subst (λ (x : Text). text_eq x c ≡ false) (sym ((text_eq_iff a b).0 h)) k

module _ {A : Type 0} where
  pub map_get-map_insert :
      (k : Text) (v : A) (m : List (Text × A)) → map_get k (map_insert k v m) ≡ some v
  unfolding map_get map_insert
  map_get-map_insert k v [] = rw (text_eq_self k) refl
  map_get-map_insert k v (e ∷ m) = elim (Bool-cases (text_eq e.0 k)) [
    | inl h ↦ rw (h, text_eq_self k) refl
    | inr h ↦ elim (Bool-cases (text_lt k e.0)) [
      | inl l ↦ rw (h, l, text_eq_self k) refl
      | inr l ↦ rw (h, l, h) (map_get-map_insert k v m)
    ]
  ]

  pub map_get_other :
      (j k : Text) (v : A) (m : List (Text × A))
      → text_eq k j ≡ false
      → map_get j (map_insert k v m) ≡ map_get j m
  unfolding map_get map_insert
  map_get_other j k v [] h = rw h refl
  map_get_other j k v (e ∷ m) h = elim (Bool-cases (text_eq e.0 k)) [
    | inl g ↦ rw (g, h, text_neq_trans e.0 k j g h) refl
    | inr g ↦ elim (Bool-cases (text_lt k e.0)) [
      | inl l ↦ rw (g, l, h) refl
      | inr l ↦ rw (g, l, map_get_other j k v m h) refl
    ]
  ]
