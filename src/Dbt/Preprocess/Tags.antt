-- ===== src/Dbt/Preprocess/Tags.antt =====
-- What the search for a tag finds, and that it and the loop over regions end
-- (crates/gcpx-dbt/src/preprocess.rs).
use pulumi_rs_provider_gcpx.Base.{
  ℕ, zero, suc, ◌≤◌, ◌<◌, ◌≡◌, refl, sym, ap, ◌∙◌, subst, true, [], ◌∷◌, ◌++◌, append_assoc,
  length-append, arith, Bool-cases, inl, inr, Option, none, some, Text, codes, length, split_once,
  strip_prefix, split_once-IsCut, IsCut,
}
use pulumi_rs_provider_gcpx.Dbt.Preprocess.{
  TagKind, tag_matches, in_front, at_tag, tag_loop, split_at_tag,
}

-- A tag as it is written.
abbrev pub tag : Text → Text
tag inner = codes "{%" ++ (inner ++ codes "%}")

-- What a search for a tag came to: nothing, or a tag of that kind with the text around it.
abbrev pub IsFound : TagKind → Text → Option (Text × Text) → Type 0
IsFound kind input none = Unit
IsFound kind input (some p) =
    (inner : Text) × (tag_matches inner kind ≡ true) × (p.0 ++ (tag inner ++ p.1) ≡ input)

whole :
    (before inner after rest input : Text)
    → before ++ (codes "{%" ++ rest) ≡ input
    → inner ++ (codes "%}" ++ after) ≡ rest
    → before ++ (tag inner ++ after) ≡ input
whole before inner after rest input h k =
    ap (λ t. before ++ (b'{' ∷ b'%' ∷ t)) (append_assoc inner (codes "%}") after ∙ k) ∙ h

in_front-IsFound :
    (kind : TagKind) (front rest : Text) (o : Option (Text × Text))
    → IsFound kind rest o
    → IsFound kind (front ++ rest) (in_front front o)
in_front-IsFound kind front rest none h = tt
in_front-IsFound kind front rest (some p) h =
    (h.0, h.1, append_assoc front p.0 (tag h.0 ++ p.1) ∙ ap (λ t. front ++ t) h.2)

at_tag-IsFound :
    (kind : TagKind) (before inner after input : Text) (later : Option (Text × Text))
    → before ++ (tag inner ++ after) ≡ input
    → IsFound kind after later
    → IsFound kind input (at_tag kind before inner after later)
at_tag-IsFound kind before inner after input later h k =
    elim (Bool-cases (tag_matches inner kind)) [
      | inl e ↦ rw e (inner, e, h)
      | inr e ↦ rw e (
          subst (λ t. IsFound kind t (in_front (before ++ tag inner) later))
            (append_assoc before (tag inner) after ∙ h)
            (in_front-IsFound kind (before ++ tag inner) after later k))
    ]

-- One round of the loop, `search` being the rounds behind it.
module _ (kind : TagKind) (input : Text) (search : Text → Option (Text × Text))
    (found : (t : Text) → IsFound kind t (search t)) where
  closed-IsFound :
      (before rest : Text) (o : Option (Text × Text))
      → before ++ (codes "{%" ++ rest) ≡ input
      → IsCut (codes "%}") rest o
      → IsFound kind input (elim o [
        | none ↦ none
        | some closed ↦ at_tag kind before closed.0 closed.1 (search closed.1)
      ])
  closed-IsFound before rest none h k = tt
  closed-IsFound before rest (some q) h k =
      at_tag-IsFound kind before q.0 q.1 input (search q.1) (whole before q.0 q.1 rest input h k)
        (found q.1)

  opened-IsFound :
      (o : Option (Text × Text))
      → IsCut (codes "{%") input o
      → IsFound kind input (elim o [
        | none ↦ none
        | some opened ↦ elim (split_once (codes "%}") opened.1) [
          | none ↦ none
          | some closed ↦ at_tag kind opened.0 closed.0 closed.1 (search closed.1)
        ]
      ])
  opened-IsFound none h = tt
  opened-IsFound (some p) h =
      closed-IsFound p.0 p.1 (split_once (codes "%}") p.1) h (split_once-IsCut (codes "%}") p.1)

tag_loop-IsFound :
    (fuel : ℕ) (kind : TagKind) (input : Text) → IsFound kind input (tag_loop fuel kind input)
unfolding tag_loop
tag_loop-IsFound zero kind input = tt
tag_loop-IsFound (suc fuel) kind input =
    opened-IsFound kind input (tag_loop fuel kind) (tag_loop-IsFound fuel kind)
      (split_once (codes "{%") input) (split_once-IsCut (codes "{%") input)

pub split_at_tag-IsFound :
    (input : Text) (kind : TagKind) → IsFound kind input (split_at_tag input kind)
unfolding split_at_tag
split_at_tag-IsFound input kind = tag_loop-IsFound (length input) kind input

-- The text behind a tag is shorter.
pub found_shorter :
    (kind : TagKind) (input before after : Text)
    → IsFound kind input (some (before, after))
    → length after < length input
found_shorter kind input before after (inner, m, e) =
    let whole_length = sym (length-append before (tag inner ++ after)) ∙ ap length e in
    let tag_length = length-append (tag inner) after in omega (arith, whole_length, tag_length)

module _ (kind : TagKind) (input : Text) (search search' : Text → Option (Text × Text))
    (same : (t : Text) → length t < length input → search t ≡ search' t) where
  closed_same :
      (before rest : Text) (o : Option (Text × Text))
      → before ++ (codes "{%" ++ rest) ≡ input
      → IsCut (codes "%}") rest o
      → (elim o [
        | none ↦ none
        | some closed ↦ at_tag kind before closed.0 closed.1 (search closed.1)
      ])
        ≡ (elim o [
          | none ↦ none
          | some closed ↦ at_tag kind before closed.0 closed.1 (search' closed.1)
        ])
  closed_same before rest none h k = refl
  closed_same before rest (some q) h k =
      let outer = sym (length-append before (codes "{%" ++ rest)) ∙ ap length h in
      let inner = sym (length-append q.0 (codes "%}" ++ q.1)) ∙ ap length k in
      ap (at_tag kind before q.0 q.1) (same q.1 (omega (arith, outer, inner)))

  opened_same :
      (o : Option (Text × Text))
      → IsCut (codes "{%") input o
      → (elim o [
        | none ↦ none
        | some opened ↦ elim (split_once (codes "%}") opened.1) [
          | none ↦ none
          | some closed ↦ at_tag kind opened.0 closed.0 closed.1 (search closed.1)
        ]
      ])
        ≡ (elim o [
          | none ↦ none
          | some opened ↦ elim (split_once (codes "%}") opened.1) [
            | none ↦ none
            | some closed ↦ at_tag kind opened.0 closed.0 closed.1 (search' closed.1)
          ]
        ])
  opened_same none h = refl
  opened_same (some p) h =
      closed_same p.0 p.1 (split_once (codes "%}") p.1) h (split_once-IsCut (codes "%}") p.1)

-- As many rounds as the text has characters are enough: more change nothing.
pub tag_loop_enough :
    (kind : TagKind) (n m : ℕ) (input : Text)
    → length input ≤ n
    → length input ≤ m
    → tag_loop n kind input ≡ tag_loop m kind input
unfolding tag_loop split_once strip_prefix
tag_loop_enough kind zero zero [] h k = refl
tag_loop_enough kind zero (suc m) [] h k = refl
tag_loop_enough kind (suc n) zero [] h k = refl
tag_loop_enough kind (suc n) (suc m) [] h k = refl
tag_loop_enough kind zero m (c ∷ s) h k = elim h [ ]
tag_loop_enough kind (suc n) zero (c ∷ s) h k = elim k [ ]
tag_loop_enough kind (suc n) (suc m) (c ∷ s) h k =
    opened_same kind (c ∷ s) (tag_loop n kind) (tag_loop m kind)
      (λ t l. tag_loop_enough kind n m t (omega arith) (omega arith))
      (split_once (codes "{%") (c ∷ s)) (split_once-IsCut (codes "{%") (c ∷ s))
