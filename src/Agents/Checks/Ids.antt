-- ===== src/Agents/Checks/Ids.antt =====
-- An id that passes stands in a URL path as it is (crates/gcpx-agents/src/validate.rs,
-- crates/gcpx-core/src/sanitize.rs).
use pulumi_rs_provider_gcpx.Base.{
  ℕ, ◌≡◌, refl, ◌≤◌, true, [], ◌∷◌, none, Text, byte_len, all, ltb, arith, Bool-cases, inl, inr,
}
use pulumi_rs_provider_gcpx.Core.Sanitize.{encode_path_segment, is_plain}
use pulumi_rs_provider_gcpx.Agents.Checks.{is_id_char, invalid_resource_id, max_id_len}

id_char-is_plain : (c : ℕ) → is_id_char c ≡ true → is_plain c ≡ true
unfolding is_plain
id_char-is_plain c h = ground (arith, h)

id_chars-is_plain : (s : Text) → all is_id_char s ≡ true → all is_plain s ≡ true
id_chars-is_plain [] h = refl
id_chars-is_plain (c ∷ s) h = ground (arith, h, id_char-is_plain c, id_chars-is_plain s)

-- An id without a failure is percent-encoded to itself, and is at most 63 bytes long.
pub encode_path_segment-invalid_resource_id :
    (id : Text)
    → invalid_resource_id id ≡ none
    → (encode_path_segment id ≡ id) × (byte_len id ≤ max_id_len)
unfolding invalid_resource_id encode_path_segment byte_len
encode_path_segment-invalid_resource_id [] h = (refl, omega arith)
encode_path_segment-invalid_resource_id (c ∷ s) h =
    elim (Bool-cases (ltb max_id_len (byte_len (c ∷ s)))) [
      | inl large ↦ ground (arith, h, large)
      | inr small ↦ elim (Bool-cases (all is_id_char (c ∷ s))) [
        | inl good ↦
            (rw (encode_path_segment, id_chars-is_plain (c ∷ s) good) refl, ground (arith, small))
        | inr bad ↦ ground (arith, h, small, bad)
      ]
    ]
