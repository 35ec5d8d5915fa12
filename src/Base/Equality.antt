-- ===== src/Base/Equality.antt =====
-- Decided equality as an interface: what `==` and `!=` mean on the program's field types.
use Prim.Native.Nat.{ℕ}
use mathlib.Core.Path.{◌≡◌, refl}
use mathlib.Core.Logic.{◌↔◌}
use mathlib.Core.Bool.{Bool, true, false, ◌&&◌, not}
use mathlib.Core.Option.{Option, none, some}
use mathlib.Core.List.{List, [], ◌∷◌}
use native.Mathlib.Omega.{arith}
use pulumi_rs_provider_gcpx.Base.Tests.{◌==◌, ==_iff}
use pulumi_rs_provider_gcpx.Base.Texts.{Text, text_eq, text_eq_iff}

pub record Eq {ℓ} (A : Type ℓ) : Type ℓ where
  pub beq : A → A → Bool
  pub beq_iff : (a b : A) → (beq a b ≡ true) ↔ (a ≡ b)

abbrev pub eqb {ℓ} : {A : Type ℓ} ⦃e : Eq A⦄ → A → A → Bool
eqb ⦃e⦄ = e.beq

-- `a != b`.
abbrev pub neb {ℓ} : {A : Type ℓ} ⦃e : Eq A⦄ → A → A → Bool
neb ⦃e⦄ a b = not (e.beq a b)

pub eqb_self {ℓ} : {A : Type ℓ} ⦃e : Eq A⦄ (a : A) → eqb a a ≡ true
eqb_self ⦃e⦄ a = (e.beq_iff a a).1 refl

pub neb_self {ℓ} : {A : Type ℓ} ⦃e : Eq A⦄ (a : A) → neb a a ≡ false
neb_self a = ground (arith, eqb_self a)

pub eq_of_neb {ℓ} : {A : Type ℓ} ⦃e : Eq A⦄ (a b : A) → neb a b ≡ false → a ≡ b
eq_of_neb ⦃e⦄ a b h = (e.beq_iff a b).0 (ground arith)

instance abbrev pub nat_eq : Eq ℕ
nat_eq = record { beq = ◌==◌; beq_iff = ==_iff }

instance abbrev pub text_instance : Eq Text
text_instance = record { beq = text_eq; beq_iff = text_eq_iff }

-- A signed machine integer by its value; `negsuc n` is -(n + 1).
pub data ℤ : Type 0 where
  pos : ℕ → ℤ
  negsuc : ℕ → ℤ

abbrev bool_beq : Bool → Bool → Bool
bool_beq true b = b
bool_beq false b = not b

pub bool_beq_iff : (a b : Bool) → (bool_beq a b ≡ true) ↔ (a ≡ b)
bool_beq_iff a b = ground arith

instance abbrev pub bool_eq : Eq Bool
bool_eq = record { beq = bool_beq; beq_iff = bool_beq_iff }

abbrev int_beq : ℤ → ℤ → Bool
int_beq (pos a) (pos b) = a == b
int_beq (negsuc a) (negsuc b) = a == b
int_beq _ _ = false

pub int_beq_iff : (a b : ℤ) → (int_beq a b ≡ true) ↔ (a ≡ b)
int_beq_iff a b = ground arith

instance abbrev pub int_eq : Eq ℤ
int_eq = record { beq = int_beq; beq_iff = int_beq_iff }

module _ {ℓ} {A : Type ℓ} ⦃e : Eq A⦄ where
  abbrev option_beq : Option A → Option A → Bool
  option_beq none none = true
  option_beq (some a) (some b) = e.beq a b
  option_beq _ _ = false

  pub option_beq_iff : (a b : Option A) → (option_beq a b ≡ true) ↔ (a ≡ b)
  option_beq_iff (some a) (some b) = ground (arith, e.beq_iff a b)
  option_beq_iff _ _ = ground arith

  instance abbrev pub option_eq : Eq (Option A)
  option_eq = record { beq = option_beq; beq_iff = option_beq_iff }

  abbrev list_beq : List A → List A → Bool
  list_beq [] [] = true
  list_beq (a ∷ s) (b ∷ t) = e.beq a b && list_beq s t
  list_beq _ _ = false

  pub list_beq_iff : (s t : List A) → (list_beq s t ≡ true) ↔ (s ≡ t)
  list_beq_iff (a ∷ s) (b ∷ t) = ground (arith, e.beq_iff a b, list_beq_iff s t)
  list_beq_iff _ _ = ground arith

module _ {ℓ} {A B : Type ℓ} ⦃e : Eq A⦄ ⦃f : Eq B⦄ where
  abbrev pair_beq : A × B → A × B → Bool
  pair_beq (a, b) (c, d) = e.beq a c && f.beq b d

  pub pair_beq_iff : (p q : A × B) → (pair_beq p q ≡ true) ↔ (p ≡ q)
  pair_beq_iff (a, b) (c, d) = ground (arith, e.beq_iff a c, f.beq_iff b d)

  instance abbrev pub pair_eq : Eq (A × B)
  pair_eq = record { beq = pair_beq; beq_iff = pair_beq_iff }

-- `Vec<&str>`, and `BTreeMap<&str, &str>` as its sorted list of entries.
instance abbrev pub texts_eq : Eq (List Text)
texts_eq = record { beq = list_beq; beq_iff = list_beq_iff }

instance abbrev pub labels_eq : Eq (List (Text × Text))
labels_eq = record { beq = list_beq; beq_iff = list_beq_iff }
