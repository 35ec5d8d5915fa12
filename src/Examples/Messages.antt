-- ===== src/Examples/Messages.antt =====
-- crates/gcpx-core/src/error.rs, sanitize.rs and handler_util.rs at concrete inputs.
use pulumi_rs_provider_gcpx.Base.{
  ◌≡◌, refl, ◌⊎◌, true, ◌∷◌, ◌++◌, arith, Text, codes, All, done, panicked, contains, starts_with,
  some,
}
use pulumi_rs_provider_gcpx.Core.Redact.{
  redact_loop, has_marker, credential_run_len, credential_prefix, is_credential, redact,
}
use pulumi_rs_provider_gcpx.Core.Redact.Secrecy.{IsScrubbed, redact-IsScrubbed}
use pulumi_rs_provider_gcpx.Core.Errors.{gcp_api_error}
use pulumi_rs_provider_gcpx.Core.Sanitize.{bq_col_ref, encode_path_segment, is_unreserved}
use pulumi_rs_provider_gcpx.Core.Sanitize.Idents.{read_quoted, read_quoted-bq_col_ref}
use pulumi_rs_provider_gcpx.Core.Sanitize.Segments.{decode, decode-encode_path_segment}

scrubs : redact (codes "ya29.x") ≡ done (codes "[redacted]")
unfolding redact redact_loop contains starts_with has_marker credential_run_len credential_prefix
    is_credential
scrubs = refl

redact-IsScrubbed_example :
    (redact (codes "ya29.x") ≡ panicked)
    ⊎ ((out : Text) × (redact (codes "ya29.x") ≡ done out) × IsScrubbed out)
redact-IsScrubbed_example = redact-IsScrubbed (codes "ya29.x")

read_quoted-bq_col_ref_example :
    (quoted : Text) × (bq_col_ref (codes "a`b") ++ codes " DROP" ≡ b'`' ∷ quoted)
    × (read_quoted quoted ≡ some (codes "a`b", codes " DROP"))
read_quoted-bq_col_ref_example = read_quoted-bq_col_ref (codes "a`b") (codes " DROP")

encodes : encode_path_segment (codes "a/b") ≡ codes "a%2Fb"
unfolding encode_path_segment
encodes = refl

decode-encode_path_segment_example :
    (decode (encode_path_segment (codes "a/b")) ≡ codes "a/b")
    × All (λ c. (is_unreserved c ≡ true) ⊎ (c ≡ b'%')) (encode_path_segment (codes "a/b"))
decode-encode_path_segment_example =
    decode-encode_path_segment (codes "a/b") (omega arith, (omega arith, (omega arith, tt)))
