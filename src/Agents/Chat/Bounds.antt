-- ===== src/Agents/Chat/Bounds.antt =====
-- The parser's buffer is bounded (crates/gcpx-agents/src/chat.rs).
use pulumi_rs_provider_gcpx.Base.{
  ℕ, ◌+◌, ◌-◌, ◌≤◌, ◌≡◌, ◌==◌, refl, Bool, true, false, not, ◌||◌, ◌&&◌, List, [], ◌∷◌, Option,
  none, some, length, length-append, ltb, if◌then◌else◌, Result, ok, err, arith,
}
use pulumi_rs_provider_gcpx.Agents.Chat.{
  FrameParser, ChatError, max_frame_bytes, push_byte, accept_byte, close_value, string_byte,
  buffered, offset, is_idle, with_values, push_bytes, push_chunk,
}

-- The buffer holds a frame at most, and one byte more after an overflow; between two values it is
-- empty.
abbrev pub Inv : FrameParser → Type 0
Inv p =
    (p.overflowed ≡ false → length p.buf ≤ max_frame_bytes)
    × (length p.buf ≤ max_frame_bytes + 1)
    × (p.value_start ≡ none → p.buf ≡ [])

branch : {A : Type 0} (P : A → Type 0) (b : Bool) (x y : A) → P x → P y → P (if b then x else y)
branch P true x y h k = h
branch P false x y h k = k

branch_of :
    {A : Type 0} (P : A → Type 0) (b : Bool) (x y : A)
    → (b ≡ true → P x)
    → (b ≡ false → P y)
    → P (if b then x else y)
branch_of P true x y h k = h refl
branch_of P false x y h k = k refl

module _ {V : Type 0} (parse : List ℕ → Option V) where
  module _ (q : FrameParser) (n : ℕ) (started : q.value_start ≡ some n)
      (short : length q.buf ≤ max_frame_bytes) where
    here : (o : Option ℕ) → o ≡ some n → o ≡ none → q.buf ≡ []
    here o h k = ground (arith, h, k)

    abbrev P : FrameParser × List V → Type 0
    P r = Inv r.0

    kept :
        (q.overflowed ≡ false → length q.buf ≤ max_frame_bytes)
        × (length q.buf ≤ max_frame_bytes + 1)
        × (q.value_start ≡ none → q.buf ≡ [])
    kept = ((λ h. short), omega (arith, short), here q.value_start started)

    string_byte-Inv : (b : ℕ) → Inv (string_byte parse q b)
    string_byte-Inv b =
        branch Inv q.escaped _ _ kept
          (branch Inv (b == 92) _ _ kept (branch Inv (b == 34) _ _ kept kept))

    close_value-Inv : P (close_value parse q)
    unfolding close_value
    close_value-Inv =
        branch P (q.depth - 1 == 0) _ _ ((λ h. omega arith), omega arith, λ h. refl) kept

    accept_byte-Inv : (b : ℕ) → P (accept_byte parse q b)
    unfolding accept_byte
    accept_byte-Inv b = branch P q.in_string _ _ (string_byte-Inv b) (
        branch P (b == 34) _ _ kept (
          branch P (b == b'{' || b == b'[') _ _ kept
            (branch P (b == b'}' || b == b']') _ _ close_value-Inv kept)))

  push_byte-Inv :
      (p : FrameParser) (b : ℕ) → p.overflowed ≡ false → Inv p → Inv (push_byte parse p b).0
  unfolding push_byte
  push_byte-Inv p b ready (short, near, idle) =
      branch (λ (r : FrameParser × List V). Inv r.0) (is_idle parse p && not (b == b'{')) _ _
        (short, near, idle)
        (branch_of (λ (r : FrameParser × List V). Inv r.0)
          (ltb max_frame_bytes (length (buffered parse p b).buf)) _ _
          (λ large. (
            (λ h. ground (arith, h)),
            omega (arith, length-append p.buf (b ∷ []), short ready),
            λ h. ground (arith, h),
          ))
          (λ small.
            accept_byte-Inv (buffered parse p b) (offset p.value_start (length p.buf)) refl
              (ground (arith, small)) b))

  with_values-Inv :
      (vs : List V) (r : FrameParser × Result (List V) ChatError)
      → Inv r.0
      → Inv (with_values parse vs r).0
  with_values-Inv vs (p, ok ws) h = h
  with_values-Inv vs (p, err e) h = h

  push_bytes-Inv :
      (chunk : List ℕ) (p : FrameParser)
      → p.overflowed ≡ false
      → Inv p
      → Inv (push_bytes parse p chunk).0
  unfolding push_bytes
  push_bytes-Inv [] p ready inv = inv
  push_bytes-Inv (b ∷ chunk) p ready inv =
      let q = push_byte parse p b in
      branch_of (λ (r : FrameParser × Result (List V) ChatError). Inv r.0) q.0.overflowed _ _
        (λ large. push_byte-Inv p b ready inv)
        (λ small.
          with_values-Inv q.1 (push_bytes parse q.0 chunk)
            (push_bytes-Inv chunk q.0 small (push_byte-Inv p b ready inv)))

  -- Whatever the chunk holds, the parser keeps its invariant: the buffer holds a frame at most, one
  -- byte more after an overflow, and nothing between two values.
  pub push_chunk-Inv : (p : FrameParser) (chunk : List ℕ) → Inv p → Inv (push_chunk parse p chunk).0
  unfolding push_chunk
  push_chunk-Inv p chunk inv =
      branch_of (λ (r : FrameParser × Result (List V) ChatError). Inv r.0) p.overflowed _ _
        (λ large. inv) (λ ready. push_bytes-Inv chunk p ready inv)
