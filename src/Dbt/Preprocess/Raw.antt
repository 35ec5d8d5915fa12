-- ===== src/Dbt/Preprocess/Raw.antt =====
-- Raw regions come back as they were written (crates/gcpx-dbt/src/preprocess.rs).
use pulumi_rs_provider_gcpx.Base.{
  ℕ, zero, suc, ◌<◌, ◌≡◌, refl, sym, ap, ◌∙◌, subst, false, [], ◌∷◌, ◌++◌, append_assoc,
  length-append, arith, Option-cases, inl, inr, none, some, Text, codes, length, drop, has_char,
  split_once_found, split_once_absent, ◌||◌, ok,
}
use pulumi_rs_provider_gcpx.Dbt.Preprocess.{
  TagKind, raw, end_raw, split_at_tag, rewrite_regions, sentinel_prefix, sentinel_suffix,
  contains_raw_tag, protect_raw_regions, restore_loop, restore_raw_regions, as_ok,
}
use pulumi_rs_provider_gcpx.Dbt.Preprocess.Regions.{
  NoTag, FirstTag, Unmarked, no_region, not_closed, region, IsFirst, split_at_tag-IsFirst,
}
use pulumi_rs_provider_gcpx.Dbt.Preprocess.Tags.{tag, IsFound, split_at_tag-IsFound, found_shorter}

has_char-append : (d : ℕ) (a b : Text) → has_char d (a ++ b) ≡ (has_char d a || has_char d b)
has_char-append d [] b = refl
has_char-append d (c ∷ a) b = ground (arith, has_char-append d a b)

-- The parts of a text without `d` are without it.
has_char_parts :
    (d : ℕ) (a b s : Text)
    → a ++ b ≡ s
    → has_char d s ≡ false
    → (has_char d a ≡ false) × (has_char d b ≡ false)
has_char_parts d a b s e h =
    let whole = sym (has_char-append d a b) ∙ (ap (has_char d) e ∙ h) in ground (arith, whole)

drop_front : (a b : Text) → drop (length a) (a ++ b) ≡ b
drop_front [] b = refl
drop_front (c ∷ a) b = drop_front a b

-- The rest of a text that a cut leaves, put back behind what was before.
back_together : (a b s : Text) → a ++ b ≡ s → a ++ drop (length a) s ≡ s
back_together a b s e =
    subst (λ t. a ++ drop (length a) t ≡ t) e (ap (λ t. a ++ t) (drop_front a b))

-- What a search found, as a fact on its result.
found :
    (kind : TagKind) (s : Text) (p : Text × Text)
    → split_at_tag s kind ≡ some p
    → IsFound kind s (some p)
found kind s p e = subst (IsFound kind s) e (split_at_tag-IsFound s kind)

shorter :
    (kind : TagKind) (s : Text) (p : Text × Text)
    → split_at_tag s kind ≡ some p
    → length p.1 < length s
shorter kind s p e = found_shorter kind s p.0 p.1 (found kind s p e)

no_tag : (kind : TagKind) (s : Text) → split_at_tag s kind ≡ none → NoTag kind s
no_tag kind s e = subst (IsFirst kind s) e (split_at_tag-IsFirst s kind)

first_tag :
    (kind : TagKind) (s : Text) (p : Text × Text)
    → split_at_tag s kind ≡ some p
    → FirstTag kind s p.0 p.1
first_tag kind s p e = subst (IsFirst kind s) e (split_at_tag-IsFirst s kind)

-- The loop over the regions always ends, whatever they are rewritten to.
pub rewrite_regions_ends :
    (n : ℕ) (o c : TagKind) (f : Text → Text) (s : Text)
    → length s < n
    → (out : Text) × (rewrite_regions n o c f s ≡ some out)
unfolding rewrite_regions
rewrite_regions_ends zero o c f s h = elim h [ ]
rewrite_regions_ends (suc n) o c f s h = elim (Option-cases (split_at_tag s o)) [
  | inl e ↦ (s, rw (rewrite_regions, e) refl)
  | inr (p, e) ↦ (elim (Option-cases (split_at_tag p.1 c)) [
    | inl e' ↦ (p.0 ++ drop (length p.0) s, rw (rewrite_regions, e, e') refl)
    | inr (q, e') ↦
        (let (out, r) =
            rewrite_regions_ends n o c f q.1
              (omega (arith, h, shorter o s p e, shorter c p.1 q e')) in
          (p.0 ++ (f q.0 ++ out), rw (rewrite_regions, e, e', r) refl))
  ])
]

restore_plain :
    (m : ℕ) (decode : Text → Text) (s : Text)
    → has_char 0 s ≡ false
    → 0 < m
    → restore_loop m decode s ≡ some s
unfolding restore_loop
restore_plain zero decode s h l = elim l [ ]
restore_plain (suc m) decode s h l = rw (restore_loop, split_once_absent 0 (codes "RAW:") s h) refl

restore_region :
    (m : ℕ) (decode : Text → Text) (before payload later out : Text)
    → has_char 0 before ≡ false
    → has_char 0 payload ≡ false
    → restore_loop m decode later ≡ some out
    → restore_loop
        (suc m)
        decode
        (before ++ ((sentinel_prefix ++ (payload ++ sentinel_suffix ∷ [])) ++ later))
      ≡ some (before ++ (decode payload ++ out))
unfolding restore_loop
restore_region m decode before payload later out h k r =
    ap (λ t. restore_loop (suc m) decode (before ++ (sentinel_prefix ++ t)))
      (append_assoc payload (sentinel_suffix ∷ []) later)
    ∙ rw
        (
          restore_loop,
          split_once_found 0 (codes "RAW:") before (payload ++ sentinel_suffix ∷ later) h,
          split_once_found 0 [] payload later k,
          r,
        )
        refl

module _ (encode decode : Text → Text) (back : (t : Text) → decode (encode t) ≡ t)
    (plain : (t : Text) → has_char 0 (encode t) ≡ false) where
  abbrev protected : Text → Text
  protected body = sentinel_prefix ++ (encode body ++ sentinel_suffix ∷ [])

  abbrev IsRestored : ℕ → Text → Type 0
  IsRestored n s =
      (out final : Text) × (rewrite_regions n raw end_raw protected s ≡ some out)
      × Unmarked s final
      × ((m : ℕ) → length out < m → restore_loop m decode out ≡ some final)

  restored_behind :
      (before body out final : Text)
      → has_char 0 before ≡ false
      → ((m : ℕ) → length out < m → restore_loop m decode out ≡ some final)
      → (m : ℕ) → length (before ++ (protected body ++ out)) < m
      → restore_loop m decode (before ++ (protected body ++ out)) ≡ some (before ++ (body ++ final))
  restored_behind before body out final h again zero l = elim l [ ]
  restored_behind before body out final h again (suc m) l =
      let a = length-append before (protected body ++ out) in
      let b = length-append (protected body) out in
      restore_region m decode before (encode body) out final h (plain body)
        (again m (omega (arith, l, a, b)))
      ∙ ap (λ t. some (before ++ (t ++ final))) (back body)

  regions-IsRestored : (n : ℕ) (s : Text) → length s < n → has_char 0 s ≡ false → IsRestored n s
  unfolding rewrite_regions
  regions-IsRestored zero s h z = elim h [ ]
  regions-IsRestored (suc n) s h z = elim (Option-cases (split_at_tag s raw)) [
    | inl e ↦ (
      s,
      s,
      rw (rewrite_regions, e) refl,
      no_region s (no_tag raw s e),
      λ m l. restore_plain m decode s z (omega arith),
    )
    | inr (p, e) ↦
        (let (inner, t, whole) = found raw s p e in
          let same = back_together p.0 (tag inner ++ p.1) s whole in
          let (front, behind) = has_char_parts 0 p.0 (tag inner ++ p.1) s whole z in
          let rest = (has_char_parts 0 (tag inner) p.1 (tag inner ++ p.1) refl behind).1 in
          elim (Option-cases (split_at_tag p.1 end_raw)) [
            | inl e' ↦ (
              p.0 ++ drop (length p.0) s,
              s,
              rw (rewrite_regions, e, e') refl,
              not_closed s p.0 p.1 (first_tag raw s p e) (no_tag end_raw p.1 e'),
              λ m l. rw same (restore_plain m decode s z (omega arith)),
            )
            | inr (q, e') ↦
                (let (inner', t', whole') = found end_raw p.1 q e' in
                  let behind' = (has_char_parts 0 q.0 (tag inner' ++ q.1) p.1 whole' rest).1 in
                  let clean =
                    (has_char_parts 0 (tag inner') q.1 (tag inner' ++ q.1) refl behind').1 in
                  let (out, final, r, r', again) =
                    regions-IsRestored n q.1
                      (omega (arith, h, shorter raw s p e, shorter end_raw p.1 q e')) clean in
                  (
                    p.0 ++ (protected q.0 ++ out),
                    p.0 ++ (q.0 ++ final),
                    rw (rewrite_regions, e, e', r) refl,
                    region s p.0 p.1 q.0 q.1 final (first_tag raw s p e)
                        (first_tag end_raw p.1 q e') r',
                    restored_behind p.0 q.0 out final front again,
                  ))
          ])
  ]

  -- Where base64 decodes what it encodes and writes no NUL: a text without NUL is protected, and
  -- restoring the result gives the text with the two tags of each closed raw region gone and every
  -- other character as it was: region after region, the text in front of the first raw tag, what is
  -- between it and the first end tag behind it, and what the rest gives. A text without a raw tag,
  -- and the rest from a raw tag that nothing closes, stay as they are.
  pub restore_raw_regions-protect_raw_regions :
      (sql : Text)
      → has_char 0 sql ≡ false
      → (out final : Text) × (protect_raw_regions encode sql ≡ some (ok out))
        × Unmarked sql final
        × (restore_raw_regions decode out ≡ some final)
  unfolding protect_raw_regions restore_raw_regions contains_raw_tag
  restore_raw_regions-protect_raw_regions sql z = elim (Option-cases (split_at_tag sql raw)) [
    | inl e ↦ (
      sql,
      sql,
      rw (z, contains_raw_tag, e) refl,
      no_region sql (no_tag raw sql e),
      restore_plain (suc (length sql)) decode sql z (omega arith),
    )
    | inr (p, e) ↦
        (let (out, final, r, r', again) =
            regions-IsRestored (suc (length sql)) sql (omega arith) z in
          (
            out,
            final,
            rw (z, contains_raw_tag, e) (ap as_ok r),
            r',
            again (suc (length out)) (omega arith),
          ))
  ]
