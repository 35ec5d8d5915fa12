-- ===== src/Agents/Chat.antt =====
-- crates/gcpx-agents/src/chat.rs: the parser that cuts JSON values out of a stream. `parse` stands for
-- the UTF-8 and JSON readers, which are not in the repository.
pub mod Chunks
pub mod Bounds
use pulumi_rs_provider_gcpx.Base.{
  ℕ, zero, suc, ◌+◌, ◌-◌, ◌==◌, Bool, true, false, not, ◌||◌, ◌&&◌, List, [], ◌∷◌, ◌++◌, Option,
  none, some, length, drop, ltb, if◌then◌else◌, Result, ok, err,
}

unfoldable pub max_frame_bytes : ℕ
max_frame_bytes = 8388608

pub record FrameParser : Type 0 where
  pub buf : List ℕ
  pub depth : ℕ
  pub in_string : Bool
  pub escaped : Bool
  pub value_start : Option ℕ
  pub overflowed : Bool

abbrev pub new_parser : FrameParser
new_parser = record {
  buf = [];
  depth = 0;
  in_string = false;
  escaped = false;
  value_start = none;
  overflowed = false;
}

-- The one error: a frame that is too large.
pub data ChatError : Type 0 where
  frame_too_large : ChatError

abbrev pub offset : Option ℕ → ℕ → ℕ
offset none d = d
offset (some n) d = n

module _ {V : Type 0} (parse : List ℕ → Option V) where
  abbrev pub parsed : List ℕ → List V
  parsed bytes = elim (parse bytes) [ none ↦ [] | some v ↦ v ∷ [] ]

  -- A closing brace or bracket.
  unfoldable pub close_value : FrameParser → FrameParser × List V
  close_value p =
      if p.depth - 1 == 0
      then (
        record p { depth = 0; value_start = none; buf = [] },
        parsed (drop (offset p.value_start 0) p.buf),
      )
      else (record p { depth = p.depth - 1 }, [])

  -- A byte inside a string.
  abbrev pub string_byte : FrameParser → ℕ → FrameParser
  string_byte p b =
      if p.escaped
      then record p { escaped = false }
      else if b == 92
      then record p { escaped = true }
      else if b == 34
      then record p { in_string = false }
      else p

  -- A byte that was pushed, and did not overflow the buffer.
  unfoldable pub accept_byte : FrameParser → ℕ → FrameParser × List V
  unfolding close_value
  accept_byte p b =
      if p.in_string
      then (string_byte p b, [])
      else if b == 34
      then (record p { in_string = true }, [])
      else if b == b'{' || b == b'['
      then (record p { depth = p.depth + 1 }, [])
      else if b == b'}' || b == b']'
      then close_value p
      else (p, [])

  abbrev pub buffered : FrameParser → ℕ → FrameParser
  buffered p b = record p {
    value_start = some (offset p.value_start (length p.buf));
    buf = p.buf ++ b ∷ [];
  }

  abbrev pub is_idle : FrameParser → Bool
  is_idle p = elim p.value_start [ none ↦ true | some n ↦ false ]

  -- One round of the loop over a chunk, with the values that it completes.
  unfoldable pub push_byte : FrameParser → ℕ → FrameParser × List V
  unfolding accept_byte max_frame_bytes
  push_byte p b =
      if is_idle p && not (b == b'{')
      then (p, [])
      else if ltb max_frame_bytes (length (buffered p b).buf)
      then (record (buffered p b) { overflowed = true }, [])
      else accept_byte (buffered p b) b

  abbrev pub with_values :
      List V → FrameParser × Result (List V) ChatError → FrameParser × Result (List V) ChatError
  with_values vs (p, ok ws) = (p, ok (vs ++ ws))
  with_values vs (p, err e) = (p, err e)

  unfoldable pub push_bytes : FrameParser → List ℕ → FrameParser × Result (List V) ChatError
  unfolding push_byte
  push_bytes p [] = (p, ok [])
  push_bytes p (b ∷ chunk) =
      let q = push_byte p b in
      let later = with_values q.1 (push_bytes q.0 chunk) in
      if q.0.overflowed then (q.0, err frame_too_large) else later

  unfoldable pub push_chunk : FrameParser → List ℕ → FrameParser × Result (List V) ChatError
  unfolding push_bytes
  push_chunk p chunk = if p.overflowed then (p, err frame_too_large) else push_bytes p chunk

  -- `is_mid_value`.
  abbrev pub is_mid_value : FrameParser → Bool
  is_mid_value p = not (is_idle p)
