-- ===== src/Dbt/Preprocess/Regions.antt =====
-- Tags and raw regions, as relations on texts (crates/gcpx-dbt/src/preprocess.rs).
use pulumi_rs_provider_gcpx.Base.{
  ℕ, zero, suc, ◌≤◌, ◌<◌, ◌≡◌, refl, sym, true, false, [], ◌∷◌, ◌++◌, arith, Bool-cases, inl, inr,
  Option, none, some, Text, codes, length, split_once, strip_prefix, split_once-IsCut, cut_shorter,
  subst, append_assoc, IsCut,
}
use pulumi_rs_provider_gcpx.Dbt.Preprocess.{
  TagKind, raw, end_raw, tag_matches, in_front, at_tag, tag_loop, split_at_tag,
}
use pulumi_rs_provider_gcpx.Dbt.Preprocess.Tags.{tag}

-- The text begins with `before`, which has no opening `{%`, and a tag of text `inner`.
abbrev pub BeginsWith : Text → Text → Text → Text → Type 0
BeginsWith before inner after s =
    (rest : Text) × (split_once (codes "{%") s ≡ some (before, rest))
    × (split_once (codes "%}") rest ≡ some (inner, after))

-- Read tag by tag, the text has none of that kind.
pub data NoTag (kind : TagKind) : Text → Type 0 where
  no_opening : (s : Text) → split_once (codes "{%") s ≡ none → NoTag kind s
  no_closing :
      (s before rest : Text)
      → split_once (codes "{%") s ≡ some (before, rest)
      → split_once (codes "%}") rest ≡ none
      → NoTag kind s
  none_behind :
      (s before inner after : Text)
      → BeginsWith before inner after s
      → tag_matches inner kind ≡ false
      → NoTag kind after
      → NoTag kind s

-- Read tag by tag, `s` is `before`, the first tag of that kind, and `after`.
pub data FirstTag (kind : TagKind) : Text → Text → Text → Type 0 where
  first :
      (s before inner after : Text)
      → BeginsWith before inner after s
      → tag_matches inner kind ≡ true
      → FirstTag kind s before after
  first_behind :
      (s front inner rest before after : Text)
      → BeginsWith front inner rest s
      → tag_matches inner kind ≡ false
      → FirstTag kind rest before after
      → FirstTag kind s (front ++ (tag inner ++ before)) after

-- `final` is the text without the tags of its closed raw regions.
pub data Unmarked : Text → Text → Type 0 where
  no_region : (s : Text) → NoTag raw s → Unmarked s s
  not_closed :
      (s before rest : Text) → FirstTag raw s before rest → NoTag end_raw rest → Unmarked s s
  region :
      (s before rest body after final : Text)
      → FirstTag raw s before rest
      → FirstTag end_raw rest body after
      → Unmarked after final
      → Unmarked s (before ++ (body ++ final))

abbrev pub IsFirst : TagKind → Text → Option (Text × Text) → Type 0
IsFirst kind s none = NoTag kind s
IsFirst kind s (some p) = FirstTag kind s p.0 p.1

-- One round of the search, `search` being the rounds behind it.
module _ (kind : TagKind) (s : Text) (search : Text → Option (Text × Text))
    (found : (t : Text) → length t < length s → IsFirst kind t (search t)) where
  behind-IsFirst :
      (before inner after : Text) (o : Option (Text × Text))
      → BeginsWith before inner after s
      → tag_matches inner kind ≡ false
      → IsFirst kind after o
      → IsFirst kind s (in_front (before ++ tag inner) o)
  behind-IsFirst before inner after none h k f = none_behind s before inner after h k f
  behind-IsFirst before inner after (some p) h k f =
      subst (λ t. FirstTag kind s t p.1) (sym (append_assoc before (tag inner) p.0))
        (first_behind s before inner after p.0 p.1 h k f)

  at_tag-IsFirst :
      (before inner after : Text)
      → length after < length s
      → BeginsWith before inner after s
      → IsFirst kind s (at_tag kind before inner after (search after))
  at_tag-IsFirst before inner after l h = elim (Bool-cases (tag_matches inner kind)) [
    | inl e ↦ rw e (first s before inner after h e)
    | inr e ↦ rw e (behind-IsFirst before inner after (search after) h e (found after l))
  ]

  closed-IsFirst :
      (before rest : Text) (o : Option (Text × Text))
      → split_once (codes "{%") s ≡ some (before, rest)
      → length rest < length s
      → split_once (codes "%}") rest ≡ o
      → IsCut (codes "%}") rest o
      → IsFirst kind s (elim o [
        | none ↦ none
        | some closed ↦ at_tag kind before closed.0 closed.1 (search closed.1)
      ])
  closed-IsFirst before rest none h l k c = no_closing s before rest h k
  closed-IsFirst before rest (some q) h l k c =
      at_tag-IsFirst before q.0 q.1 (omega (arith, l, cut_shorter (codes "%}") rest q c))
        (rest, h, k)

  opened-IsFirst :
      (o : Option (Text × Text))
      → split_once (codes "{%") s ≡ o
      → IsCut (codes "{%") s o
      → IsFirst kind s (elim o [
        | none ↦ none
        | some opened ↦ elim (split_once (codes "%}") opened.1) [
          | none ↦ none
          | some closed ↦ at_tag kind opened.0 closed.0 closed.1 (search closed.1)
        ]
      ])
  opened-IsFirst none h c = no_opening s h
  opened-IsFirst (some p) h c =
      closed-IsFirst p.0 p.1 (split_once (codes "%}") p.1) h
        (omega (arith, cut_shorter (codes "{%") s p c)) refl (split_once-IsCut (codes "%}") p.1)

tag_loop-IsFirst :
    (fuel : ℕ) (kind : TagKind) (s : Text) → length s ≤ fuel → IsFirst kind s (tag_loop fuel kind s)
unfolding tag_loop split_once strip_prefix
tag_loop-IsFirst zero kind [] h = no_opening [] refl
tag_loop-IsFirst zero kind (c ∷ s) h = elim h [ ]
tag_loop-IsFirst (suc fuel) kind s h =
    opened-IsFirst kind s (tag_loop fuel kind) (λ t l. tag_loop-IsFirst fuel kind t (omega arith))
      (split_once (codes "{%") s) refl (split_once-IsCut (codes "{%") s)

-- The search gives the first tag of its kind, and nothing only where there is none.
pub split_at_tag-IsFirst : (s : Text) (kind : TagKind) → IsFirst kind s (split_at_tag s kind)
unfolding split_at_tag
split_at_tag-IsFirst s kind = tag_loop-IsFirst (length s) kind s (omega arith)
