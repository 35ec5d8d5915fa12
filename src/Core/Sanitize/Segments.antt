-- ===== src/Core/Sanitize/Segments.antt =====
-- An encoded path segment decodes to its bytes, and holds no delimiter.
use pulumi_rs_provider_gcpx.Base.{
  ℕ, ◌≡◌, refl, sym, ap, ◌∙◌, ◌⊎◌, ◌<◌, ◌+◌, ◌-◌, ◌*◌, ◌/◌, ◌%◌, true, false, List, [], ◌∷◌, ◌++◌,
  All, All-append, arith, Bool-cases, inl, inr, all, Text, ◌==◌, if◌then◌else◌, ltb,
}
use pulumi_rs_provider_gcpx.Core.Sanitize.{
  encode_path_segment, encode_bytes, encode_byte, is_plain, is_unreserved, hex_digit,
}

abbrev hex_value : ℕ → ℕ
hex_value c = if ltb c b'A' then c - b'0' else c - b'A' + 10

-- Percent-decoding.
unfoldable pub decode : Text → List ℕ
decode [] = []
decode (c ∷ []) = c ∷ []
decode (c ∷ d ∷ []) = c ∷ d ∷ []
decode (c ∷ d ∷ e ∷ s) =
    let skipped = (hex_value d * 16 + hex_value e) ∷ decode s in
    let kept = c ∷ decode (d ∷ e ∷ s) in if c == b'%' then skipped else kept

decode-plain : (c : ℕ) (s : Text) → (c == b'%') ≡ false → decode (c ∷ s) ≡ c ∷ decode s
unfolding decode
decode-plain c [] h = refl
decode-plain c (d ∷ []) h = refl
decode-plain c (d ∷ e ∷ s) h = rw h

hex_value-hex_digit : (d : ℕ) → d < 16 → hex_value (hex_digit d) ≡ d
hex_value-hex_digit d h = ground arith

hex_pair :
    (b : ℕ) → b < 256 → hex_value (hex_digit (b / 16)) * 16 + hex_value (hex_digit (b % 16)) ≡ b
hex_pair b h =
    rw (hex_value-hex_digit (b / 16) (omega arith), hex_value-hex_digit (b % 16) (omega arith))
      (omega arith)

decode-hex :
    (b : ℕ) (s : Text)
    → b < 256
    → decode (b'%' ∷ hex_digit (b / 16) ∷ hex_digit (b % 16) ∷ s) ≡ b ∷ decode s
unfolding decode
decode-hex b s h = ap (λ x. x ∷ decode s) (hex_pair b h)

unreserved_not_percent : (b : ℕ) → is_unreserved b ≡ true → (b == b'%') ≡ false
unfolding is_unreserved
unreserved_not_percent b h = ground arith

decode-encode_byte : (b : ℕ) (s : Text) → b < 256 → decode (encode_byte b ++ s) ≡ b ∷ decode s
unfolding encode_byte
decode-encode_byte b s h = elim (Bool-cases (is_unreserved b)) [
  | inl p ↦ rw p (decode-plain b s (unreserved_not_percent b p))
  | inr p ↦ rw p (decode-hex b s h)
]

decode-encode_bytes : (s : List ℕ) → All (λ b. b < 256) s → decode (encode_bytes s) ≡ s
unfolding encode_bytes
decode-encode_bytes [] h = unfold decode in refl
decode-encode_bytes (b ∷ s) h =
    decode-encode_byte b (encode_bytes s) h.0 ∙ ap (◌∷◌ b) (decode-encode_bytes s h.1)

plain-encode_byte : (b : ℕ) → is_plain b ≡ true → encode_byte b ≡ b ∷ []
unfolding is_plain encode_byte is_unreserved
plain-encode_byte b h = ground arith

plain-encode_bytes : (s : List ℕ) → all is_plain s ≡ true → encode_bytes s ≡ s
unfolding encode_bytes
plain-encode_bytes [] h = refl
plain-encode_bytes (b ∷ s) h =
    let parts : (is_plain b ≡ true) × (all is_plain s ≡ true) = ground arith in
    rw (plain-encode_byte b parts.0, plain-encode_bytes s parts.1)

-- The fast path returns what the encoding loop would.
encode_path_segment-encode_bytes : (s : List ℕ) → encode_path_segment s ≡ encode_bytes s
unfolding encode_path_segment
encode_path_segment-encode_bytes s = elim (Bool-cases (all is_plain s)) [
  | inl p ↦ rw p (sym (plain-encode_bytes s p))
  | inr p ↦ rw p
]

-- A character that may stand in a path segment of a URL: unreserved, or part of an escape.
abbrev IsSafe : ℕ → Type 0
IsSafe c = (is_unreserved c ≡ true) ⊎ (c ≡ b'%')

hex_digit-IsSafe : (d : ℕ) → d < 16 → is_unreserved (hex_digit d) ≡ true
unfolding is_unreserved
hex_digit-IsSafe d h = ground arith

encode_byte-IsSafe : (b : ℕ) → b < 256 → All IsSafe (encode_byte b)
unfolding encode_byte
encode_byte-IsSafe b h = elim (Bool-cases (is_unreserved b)) [
  | inl p ↦ rw p (inl p, tt)
  | inr p ↦ rw p (
    inr refl,
    (
      inl (hex_digit-IsSafe (b / 16) (omega arith)),
      (inl (hex_digit-IsSafe (b % 16) (omega arith)), tt),
    ),
  )
]

encode_bytes-IsSafe : (s : List ℕ) → All (λ b. b < 256) s → All IsSafe (encode_bytes s)
unfolding encode_bytes
encode_bytes-IsSafe [] h = tt
encode_bytes-IsSafe (b ∷ s) h =
    All-append IsSafe (encode_byte b) (encode_bytes s) (encode_byte-IsSafe b h.0)
      (encode_bytes-IsSafe s h.1)

-- For every list of bytes, the encoded segment decodes to those bytes, and each of its
-- characters is unreserved or a percent sign: no slash, query or fragment mark gets through.
pub decode-encode_path_segment :
    (s : List ℕ)
    → All (λ b. b < 256) s
    → (decode (encode_path_segment s) ≡ s)
      × All (λ c. (is_unreserved c ≡ true) ⊎ (c ≡ b'%')) (encode_path_segment s)
decode-encode_path_segment s h =
    rw (encode_path_segment-encode_bytes s) (decode-encode_bytes s h, encode_bytes-IsSafe s h)
