-- ===== src/Core/Redact/Secrecy.antt =====
-- No credential marker is left in a scrubbed message.
use pulumi_rs_provider_gcpx.Base.{
  ◌⊎◌, stuck, panicked, ℕ, zero, suc, ◌≡◌, refl, sym, ap, subst, Bool, true, false, not, ◌&&◌, ◌||◌,
  List, [], ◌∷◌, ◌++◌, append_assoc, append-nil, ◌==◌, if◌then◌else◌, any, length, take, drop,
  arith, Bool-cases, inl, inr, Text, codes, utf8_len, leb, ◌-◌, byte_len, starts_with, has_char,
  contains, Outcome, done, is_ascii_space, All,
}
use pulumi_rs_provider_gcpx.Core.Redact.Bounds.{redact-ne-stuck}
use pulumi_rs_provider_gcpx.Core.Redact.{
  placeholder, max_len, credential_markers, is_credential, credential_run_len, has_marker, truncate,
  bearer_at, redact_loop, redact,
}

-- No marker begins in the text, where `rest` follows it.
abbrev IsClean : Text → Text → Type 0
IsClean [] rest = Unit
IsClean (c ∷ p) rest = (has_marker (c ∷ (p ++ rest)) ≡ false) × IsClean p rest

-- No marker begins anywhere in the text.
abbrev pub IsScrubbed : Text → Type 0
IsScrubbed [] = Unit
IsScrubbed (c ∷ s) = (has_marker (c ∷ s) ≡ false) × IsScrubbed s

IsClean-IsScrubbed : (p : Text) → IsClean p [] → IsScrubbed p
IsClean-IsScrubbed [] h = tt
IsClean-IsScrubbed (c ∷ p) h =
    (subst (λ q. has_marker (c ∷ q) ≡ false) (append-nil p) h.0, IsClean-IsScrubbed p h.1)

append-IsClean : (p x s : Text) → IsClean p (x ++ s) → IsClean x s → IsClean (p ++ x) s
append-IsClean [] x s h k = k
append-IsClean (c ∷ p) x s h k = (
  subst (λ q. has_marker (c ∷ q) ≡ false) (sym (append_assoc p x s)) h.0,
  append-IsClean p x s h.1 k,
)

split-IsClean : (p x s : Text) → IsClean (p ++ x) s → IsClean p (x ++ s)
split-IsClean [] x s h = tt
split-IsClean (c ∷ p) x s h =
    (subst (λ q. has_marker (c ∷ q) ≡ false) (append_assoc p x s) h.0, split-IsClean p x s h.1)

-- A marker without the character `b` that begins in front of a `b` ends in front of it.
starts_with_stop :
    (k p y z : Text) (b : ℕ)
    → has_char b k ≡ false
    → starts_with k (p ++ b ∷ y) ≡ true
    → starts_with k (p ++ z) ≡ true
unfolding starts_with
starts_with_stop [] p y z b h e = refl
starts_with_stop (a ∷ k) [] y z b h e = ground arith
starts_with_stop (a ∷ k) (c ∷ p) y z b h e = ground (arith, starts_with_stop k p y z b)

any_stop :
    (ks : List Text) (p y z : Text) (b : ℕ)
    → All (λ k. has_char b k ≡ false) ks
    → any (λ k. starts_with k (p ++ b ∷ y)) ks ≡ true
    → any (λ k. starts_with k (p ++ z)) ks ≡ true
any_stop [] p y z b h e = e
any_stop (k ∷ ks) p y z b h e =
    ground (arith, starts_with_stop k p y z b h.0, any_stop ks p y z b h.1)

contrapositive : (a b : Bool) → (a ≡ true → b ≡ true) → b ≡ false → a ≡ false
contrapositive true b h k = cc (h refl, k)
contrapositive false b h k = refl

stop-IsClean :
    (p y z : Text) (b : ℕ)
    → All (λ k. has_char b k ≡ false) credential_markers
    → IsClean p z
    → IsClean p (b ∷ y)
unfolding has_marker
stop-IsClean [] y z b h k = tt
stop-IsClean (c ∷ p) y z b h k = (
  contrapositive _ _ (any_stop credential_markers (c ∷ p) y z b h) k.0,
  stop-IsClean p y z b h k.1,
)

placeholder-IsClean : (s : Text) → IsClean placeholder s
unfolding has_marker starts_with
placeholder-IsClean s =
    (refl, (refl, (refl, (refl, (refl, (refl, (refl, (refl, (refl, (refl, tt))))))))))

ellipsis-IsClean : IsClean (0x2026 ∷ []) []
unfolding has_marker starts_with
ellipsis-IsClean = (refl, tt)

bearer-IsClean : (s : Text) → IsClean (codes "Bearer") s × IsClean (codes "bearer") s
unfolding has_marker starts_with
bearer-IsClean s = (
  (refl, (refl, (refl, (refl, (refl, (refl, tt)))))),
  (refl, (refl, (refl, (refl, (refl, (refl, tt)))))),
)

starts_with_split : (k m : Text) → starts_with k m ≡ true → m ≡ k ++ drop (length k) m
unfolding starts_with
starts_with_split [] m h = refl
starts_with_split (a ∷ k) [] h = cc
starts_with_split (a ∷ k) (c ∷ m) h = ground (arith, starts_with_split k m)

take_split : (n : ℕ) (s : Text) → take n s ++ drop n s ≡ s
take_split zero s = refl
take_split (suc n) [] = refl
take_split (suc n) (c ∷ s) = ap (◌∷◌ c) (take_split n s)

-- Copying the six characters of `Bearer`.
taken-IsClean : (m : Text) → bearer_at m ≡ true → IsClean (take 6 m) (drop 6 m)
unfolding bearer_at
taken-IsClean m h = elim (Bool-cases (starts_with (codes "Bearer") m)) [
  | inl b ↦
      subst (λ q. IsClean (take 6 q) (drop 6 q)) (sym (starts_with_split (codes "Bearer") m b))
        (bearer-IsClean (drop 6 m)).0
  | inr b ↦
      subst (λ q. IsClean (take 6 q) (drop 6 q))
        (sym (starts_with_split (codes "bearer") m (ground (arith, h, b))))
        (bearer-IsClean (drop 6 m)).1
]

truncate_prefix : (n : ℕ) (s : Text) → (r : Text) × (truncate n s ++ r ≡ s)
unfolding truncate
truncate_prefix n [] = ([], refl)
truncate_prefix n (c ∷ s) = elim (Bool-cases (leb (utf8_len c) n)) [
  | inl h ↦ (let (r, e) = truncate_prefix (n - utf8_len c) s in (r, rw h (ap (◌∷◌ c) e)))
  | inr h ↦ (c ∷ s, rw h refl)
]

truncated : (n : ℕ) (p s : Text) → IsClean p s → IsScrubbed (truncate n p ++ 0x2026 ∷ [])
truncated n p s h =
    let (r, e) = truncate_prefix n p in
    let whole = split-IsClean (truncate n p) r s (subst (λ q. IsClean q s) (sym e) h) in
    IsClean-IsScrubbed (truncate n p ++ 0x2026 ∷ []) (
      append-IsClean (truncate n p) (0x2026 ∷ []) []
        (stop-IsClean (truncate n p) [] (r ++ s) 0x2026
          (refl, (refl, (refl, (refl, (refl, (refl, (refl, (refl, tt)))))))) whole)
        ellipsis-IsClean)

scrubbed-IsClean : (p z s : Text) → IsClean p z → IsClean (p ++ placeholder) s
scrubbed-IsClean p z s h =
    append-IsClean p placeholder s
      (stop-IsClean p (codes "redacted]" ++ s) z b'['
        (refl, (refl, (refl, (refl, (refl, (refl, (refl, (refl, tt)))))))) h)
      (placeholder-IsClean s)

done_injective : (x y : Text) → ◌≡◌ {A = Outcome Text} (done x) (done y) → x ≡ y
done_injective x y h = cc

-- A conditional that returns a text returns it from one of its branches.
branches :
    (b : Bool) (x y : Outcome Text) (final : Text)
    → (b ≡ true → x ≡ done final → IsScrubbed final)
    → (b ≡ false → y ≡ done final → IsScrubbed final)
    → (if b then x else y) ≡ done final
    → IsScrubbed final
branches true x y final h k e = h refl e
branches false x y final h k e = k refl e

loop-IsScrubbed :
    (fuel : ℕ) (out : Text) (after : Bool) (m final : Text)
    → IsClean out m
    → redact_loop fuel out after m ≡ done final
    → IsScrubbed final
unfolding redact_loop
loop-IsScrubbed zero out after m final h e = cc
loop-IsScrubbed (suc fuel) out after [] final h e =
    subst IsScrubbed (done_injective out final e) (IsClean-IsScrubbed out h)
loop-IsScrubbed (suc fuel) out after (c ∷ s) final h e =
    let m = c ∷ s in
    let later = drop (credential_run_len m) m in
    let scrubbed =
      loop-IsScrubbed fuel (out ++ placeholder) false later final
        (scrubbed-IsClean out m later h) in
    branches (has_marker m) _ _ final (λ _. scrubbed)
      (λ clean.
        let copied = append-IsClean out (c ∷ []) s h (clean, tt) in
        branches (after && not (is_ascii_space c)) _ _ final
          (λ _.
            branches (is_credential c || utf8_len c == 1) _ _ final (λ _. scrubbed) (λ _ x. cc (x)))
          (λ _.
            branches (bearer_at m) _ _ final
              (λ b. loop-IsScrubbed fuel (out ++ take 6 m) true (drop 6 m) final (
                append-IsClean out (take 6 m) (drop 6 m)
                  (subst (IsClean out) (sym (take_split 6 m)) h) (taken-IsClean m b)))
              (λ _.
                branches (leb max_len (byte_len (out ++ c ∷ []))) _ _ final
                  (λ _ x.
                    subst IsScrubbed (done_injective _ final x)
                      (truncated max_len (out ++ c ∷ []) s copied))
                  (λ _. loop-IsScrubbed fuel (out ++ c ∷ []) after s final copied))))
      e

-- The test that each character passes.
abbrev unmarked : Text → Bool
unmarked [] = true
unmarked (c ∷ s) = not (has_marker (c ∷ s)) && unmarked s

unmarked-IsScrubbed : (s : Text) → unmarked s ≡ true → IsScrubbed s
unmarked-IsScrubbed [] h = tt
unmarked-IsScrubbed (c ∷ s) h = ground (arith, unmarked-IsScrubbed s)

key_message : IsScrubbed (codes "[redacted: message contained private key material]")
unfolding has_marker starts_with
key_message = unmarked-IsScrubbed (codes "[redacted: message contained private key material]") refl

done-IsScrubbed : (m out : Text) → redact m ≡ done out → IsScrubbed out
unfolding redact
done-IsScrubbed m out e =
    branches (contains (codes "-----BEGIN") m) _ _ out
      (λ _ x. subst IsScrubbed (done_injective _ out x) key_message)
      (λ _. loop-IsScrubbed (suc (length m)) [] false m out tt) e

-- Whatever the message, `redact` panics or returns a text in which no credential marker begins
-- anywhere.
pub redact-IsScrubbed :
    (m : Text) → (redact m ≡ panicked) ⊎ ((out : Text) × (redact m ≡ done out) × IsScrubbed out)
redact-IsScrubbed m = result (redact m) refl
  where
    result :
        (r : Outcome Text)
        → redact m ≡ r
        → (redact m ≡ panicked) ⊎ ((out : Text) × (redact m ≡ done out) × IsScrubbed out)
    result (done out) e = inr (out, e, done-IsScrubbed m out e)
    result panicked e = inl e
    result stuck e = absurd (redact-ne-stuck m e)
