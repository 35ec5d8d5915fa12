-- ===== src/Core/Errors/Classify.antt =====
-- Which gRPC code a transport failure reaches the engine with.
use pulumi_rs_provider_gcpx.Base.{
  ℕ, ◌≡◌, refl, [], Text, contains, done, arith, if◌then◌else◌, ◌==◌,
}
use pulumi_rs_provider_gcpx.Core.Errors.{
  GcpError, http, auth, api, operation_timeout, operation_failed, Code, resource_exhausted,
  unauthenticated, code_permission_denied, code_not_found, internal, classify, code_of, upstream,
  gcp_api_error,
}
use pulumi_rs_provider_gcpx.Core.Redact.{redact, redact_loop}

-- What each transport failure is reported as.
abbrev pub expected_code : GcpError → Code
expected_code (auth e) = unauthenticated
expected_code (api s m) =
    if s == 401
    then unauthenticated
    else if s == 429
    then resource_exhausted
    else if s == 403
    then code_permission_denied
    else if s == 404
    then code_not_found
    else internal
expected_code (http e) = internal
expected_code (operation_timeout s w) = internal
expected_code (operation_failed m) = internal

-- A classified transport failure carries the code `unauthenticated` for a credential failure or
-- status 401, `resource_exhausted` for 429, `permission_denied` for 403, `not_found` for 404,
-- and `internal` for every other failure, whatever the API, project and resource.
pub code-classify :
    (e : GcpError) (api_name project resource : Text)
    → code_of (classify e api_name project resource) ≡ expected_code e
unfolding code_of classify
code-classify (api s m) a p r = ground arith
code-classify _ a p r = ground arith

-- A failure of the transport or of an operation, a timeout included, keeps nothing of its
-- message: it is classified as an upstream failure with no detail.
pub classify_no_detail :
    (text api_name project resource : Text) (waited : ℕ)
    → (classify (http text) api_name project resource ≡ upstream api_name (done []))
      × (classify (operation_timeout text waited) api_name project resource
          ≡ upstream api_name (done []))
      × (classify (operation_failed text) api_name project resource ≡ upstream api_name (done []))
unfolding classify redact redact_loop contains
classify_no_detail t a p r w = (refl, refl, refl)
