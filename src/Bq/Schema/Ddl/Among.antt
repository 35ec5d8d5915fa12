-- ===== src/Bq/Schema/Ddl/Among.antt =====
-- The elements of a list and the parts of a text, and where the helpers of the DDL builder keep them
-- (crates/gcpx-bq/src/schema/ddl.rs).
use pulumi_rs_provider_gcpx.Base.{
  ◌≡◌, refl, sym, ap, ◌∙◌, subst, List, [], ◌∷◌, ◌++◌, append-nil, append_assoc, map, Option, arith,
  is_empty, none, some, Text, All,
}
use pulumi_rs_provider_gcpx.Bq.Schema.Ddl.{filter_map, comma_joined, alter_table, batched}

-- `x` stands in `xs`.
abbrev pub Among : {A : Type 0} → A → List A → Type 0
Among {A} x xs = (front back : List A) × (front ++ x ∷ back ≡ xs)

-- `part` stands in `whole`.
abbrev pub Within : Text → Text → Type 0
Within part whole = (front back : Text) × (front ++ (part ++ back) ≡ whole)

pub Among-left : {A : Type 0} (x : A) (xs ys : List A) → Among x xs → Among x (xs ++ ys)
Among-left x xs ys (front, back, e) =
    (front, back ++ ys, sym (append_assoc front (x ∷ back) ys) ∙ ap (λ t. t ++ ys) e)

pub Among-right : {A : Type 0} (x : A) (xs ys : List A) → Among x ys → Among x (xs ++ ys)
Among-right x xs ys (front, back, e) =
    (xs ++ front, back, append_assoc xs front (x ∷ back) ∙ ap (λ t. xs ++ t) e)

filter_map-append :
    {A B : Type 0} (f : A → Option B) (xs ys : List A)
    → filter_map f (xs ++ ys) ≡ filter_map f xs ++ filter_map f ys
unfolding filter_map
filter_map-append f [] ys = refl
filter_map-append {B = B} f (x ∷ xs) ys = from (f x) (filter_map-append f xs ys)
  where
    from :
        (o : Option B)
        → filter_map f (xs ++ ys) ≡ filter_map f xs ++ filter_map f ys
        → (elim o [ none ↦ filter_map f (xs ++ ys) | some b ↦ b ∷ filter_map f (xs ++ ys) ])
          ≡ (elim o [ none ↦ filter_map f xs | some b ↦ b ∷ filter_map f xs ]) ++ filter_map f ys
    from none ih = ih
    from (some b) ih = ap (λ t. b ∷ t) ih

pub Among-filter_map :
    {A B : Type 0} (f : A → Option B) (x : A) (b : B) (xs : List A)
    → f x ≡ some b
    → Among x xs
    → Among b (filter_map f xs)
unfolding filter_map
Among-filter_map f x b xs h (front, back, e) = (
  filter_map f front,
  filter_map f back,
  sym (filter_map-append f front (x ∷ back) ∙ rw (filter_map, h) refl) ∙ ap (filter_map f) e,
)

pub Among-map :
    {A B : Type 0} (f : A → B) (x : A) (xs : List A) → Among x xs → Among (f x) (map f xs)
Among-map {A = A} f x xs (front, back, e) = (map f front, map f back, go front ∙ ap (map f) e)
  where
    go : (zs : List A) → map f zs ++ f x ∷ map f back ≡ map f (zs ++ x ∷ back)
    go [] = refl
    go (z ∷ zs) = ap (λ t. f z ∷ t) (go zs)

behind_comma :
    (c a : Text) (rest : List Text)
    → Within c (comma_joined rest)
    → Within c (comma_joined (a ∷ rest))
unfolding comma_joined
behind_comma c a [] (front, back, e) =
    (a ++ front, back, append_assoc a front (c ++ back) ∙ ap (λ t. a ++ t) e ∙ append-nil a)
behind_comma c a (b ∷ rest) (front, back, e) = (
  a ++ (b',' ∷ front),
  back,
  append_assoc a (b',' ∷ front) (c ++ back) ∙ ap (λ t. a ++ (b',' ∷ t)) e,
)

first_joined : (c : Text) (back : List Text) → Within c (comma_joined (c ∷ back))
unfolding comma_joined
first_joined c [] = ([], [], append-nil c)
first_joined c (b ∷ back) = ([], b',' ∷ comma_joined (b ∷ back), refl)

pub Within-comma_joined : (c : Text) (cs : List Text) → Among c cs → Within c (comma_joined cs)
Within-comma_joined c cs (front, back, e) = subst (λ t. Within c (comma_joined t)) e (go front)
  where
    go : (front : List Text) → Within c (comma_joined (front ++ c ∷ back))
    go [] = first_joined c back
    go (a ∷ front) = behind_comma c a (front ++ c ∷ back) (go front)

-- A clause is in a statement that alters the table.
abbrev pub InAlter : Text → Text → List Text → Type 0
InAlter table_ref c sts = (body : Text) × Among (alter_table table_ref ++ body) sts × Within c body

pub InAlter-batched :
    (table_ref c : Text) (cs : List Text) → Among c cs → InAlter table_ref c (batched table_ref cs)
unfolding batched
InAlter-batched table_ref c [] ([], back, e) = ground (arith, ap is_empty e)
InAlter-batched table_ref c [] (a ∷ front, back, e) = ground (arith, ap is_empty e)
InAlter-batched table_ref c (d ∷ cs) h =
    (comma_joined (d ∷ cs), ([], [], refl), Within-comma_joined c (d ∷ cs) h)

-- Whatever holds of everything that stands in a list holds of all of it.
pub All-Among :
    {A : Type 0} (P : A → Type 0) (xs : List A) → ((x : A) → Among x xs → P x) → All P xs
All-Among P [] h = tt
All-Among P (x ∷ xs) h =
    (h x ([], xs, refl), All-Among P xs (λ y k. h y (Among-right y (x ∷ []) xs k)))
