-- ===== src/Core/Redact.antt =====
-- crates/gcpx-core/src/error.rs, `redact`: scrubbing credentials out of an upstream message.
-- A message is its list of characters. Runs and markers are ASCII, so a byte offset into them is
-- a count of characters; where the code steps one byte into a longer character, its next slice
-- panics, and the model says so.
pub mod Bounds
pub mod Secrecy
use pulumi_rs_provider_gcpx.Base.{
  ℕ, zero, suc, ◌+◌, ◌-◌, ◌≤◌, ◌<◌, Bool, true, false, not, ◌&&◌, ◌||◌, List, [], ◌∷◌, ◌++◌, leb,
  ◌==◌, if◌then◌else◌, any, length, take, drop, max, Text, codes, utf8_len, byte_len, starts_with,
  contains, Outcome, done, panicked, stuck, is_alphanumeric, is_ascii_space,
}

abbrev pub Redacted : Type 0
Redacted = Outcome Text

abbrev pub placeholder : Text
placeholder = codes "[redacted]"

abbrev pub max_len : ℕ
max_len = 512

abbrev pub credential_markers : List Text
credential_markers =
    codes "ya29."
    ∷ codes "AIza"
    ∷ codes "gho_"
    ∷ codes "ghp_"
    ∷ codes "ghs_"
    ∷ codes "ghu_"
    ∷ codes "eyJ"
    ∷ codes "1//"
    ∷ []

unfoldable pub is_credential : ℕ → Bool
is_credential c =
    is_alphanumeric c || c == b'-' || c == b'_' || c == b'.' || c == b'/' || c == b'+' || c == b'='

-- How many characters from the start are credential characters.
unfoldable pub credential_prefix : Text → ℕ
credential_prefix [] = 0
credential_prefix (c ∷ s) =
    let rest = suc (credential_prefix s) in if is_credential c then rest else 0

unfoldable pub credential_run_len : Text → ℕ
unfolding credential_prefix
credential_run_len s = max (credential_prefix s) 1

unfoldable pub has_marker : Text → Bool
unfolding starts_with
has_marker m = any (λ p. starts_with p m) credential_markers

-- `floor_char_boundary` and `truncate`: the longest prefix of at most `n` bytes.
unfoldable pub truncate : ℕ → Text → Text
truncate n [] = []
truncate n (c ∷ s) =
    let rest = c ∷ truncate (n - utf8_len c) s in if leb (utf8_len c) n then rest else []

unfoldable pub bearer_at : Text → Bool
unfolding starts_with
bearer_at m = starts_with (codes "Bearer") m || starts_with (codes "bearer") m

-- The `while` loop over the rest of the message, with `out` and `after_bearer`.
unfoldable pub redact_loop : ℕ → Text → Bool → Text → Redacted
redact_loop zero out after m = stuck
redact_loop (suc fuel) out after [] = done out
redact_loop (suc fuel) out after (c ∷ s) =
    let m = c ∷ s in
    let scrubbed = redact_loop fuel (out ++ placeholder) false (drop (credential_run_len m) m) in
    let kept = redact_loop fuel (out ++ take 6 m) true (drop 6 m) in
    let copied = redact_loop fuel (out ++ c ∷ []) after s in
    if has_marker m
    then scrubbed
    else if after && not (is_ascii_space c)
    then (if is_credential c || utf8_len c == 1 then scrubbed else panicked)
    else if bearer_at m
    then kept
    else if leb max_len (byte_len (out ++ c ∷ []))
    then done (truncate max_len (out ++ c ∷ []) ++ 0x2026 ∷ [])
    else copied

unfoldable pub redact : Text → Redacted
redact message =
    if contains (codes "-----BEGIN") message
    then done (codes "[redacted: message contained private key material]")
    else redact_loop (suc (length message)) [] false message
