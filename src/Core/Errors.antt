-- ===== src/Core/Errors.antt =====
-- crates/gcpx-core/src/error.rs: transport errors, their classification, and the gRPC status.
-- `reqwest::Error` and `tonic` are not part of the repository: a transport or credential error
-- is carried as the text that it prints, and a `Status` as its code and message.
pub mod Classify
use pulumi_rs_provider_gcpx.Base.{
  ℕ, zero, suc, Bool, true, false, ◌&&◌, ◌||◌, List, [], ◌∷◌, ◌++◌, ◌==◌, if◌then◌else◌, Option,
  none, some, Text, codes, Result, map_err, decimal,
}
use pulumi_rs_provider_gcpx.Core.Redact.{Redacted, redact}

-- The trait `GcpApiError`, with the `to_string` of its supertrait.
pub record GcpApiError (E : Type 0) : Type 0 where
  pub is_conflict : E → Bool
  pub is_not_found : E → Bool
  pub is_rate_limited : E → Bool
  pub is_unauthenticated : E → Bool
  pub http_status : E → Option ℕ
  pub api_message : E → Text
  pub to_string : E → Text

pub data GcpError : Type 0 where
  http : Text → GcpError
  auth : Text → GcpError
  api : ℕ → Text → GcpError
  operation_timeout : Text → ℕ → GcpError
  operation_failed : Text → GcpError

abbrev pub has_status : ℕ → GcpError → Bool
has_status n (api status message) = status == n
has_status n (http e) = false
has_status n (auth e) = false
has_status n (operation_timeout s w) = false
has_status n (operation_failed m) = false

abbrev pub is_auth : GcpError → Bool
is_auth (auth e) = true
is_auth (http e) = false
is_auth (api s m) = false
is_auth (operation_timeout s w) = false
is_auth (operation_failed m) = false

abbrev pub status_of : GcpError → Option ℕ
status_of (api status message) = some status
status_of (http e) = none
status_of (auth e) = none
status_of (operation_timeout s w) = none
status_of (operation_failed m) = none

abbrev pub message_of : GcpError → Text
message_of (api status message) = message
message_of (http e) = []
message_of (auth e) = []
message_of (operation_timeout s w) = []
message_of (operation_failed m) = []

unfoldable pub display : GcpError → Text
display (http e) = codes "HTTP error: " ++ e
display (auth e) = codes "auth error: " ++ e
display (api status message) =
    codes "GCP API error (" ++ (decimal status ++ (codes "): " ++ message))
display (operation_timeout state waited_secs) =
    codes "operation did not complete within "
    ++ (decimal waited_secs ++ (codes "s (last state: " ++ (state ++ codes ")")))
display (operation_failed message) = codes "operation failed: " ++ message

instance abbrev pub gcp_api_error : GcpApiError GcpError
gcp_api_error = record {
  is_conflict = has_status 409;
  is_not_found = has_status 404;
  is_rate_limited = has_status 429;
  is_unauthenticated = λ e. has_status 401 e || is_auth e;
  http_status = status_of;
  api_message = message_of;
  to_string = display;
}

-- `detail` of `upstream` is what `redact` makes of a message.
pub data GcpxError : Type 0 where
  rate_limited : Text → Text → GcpxError
  schema_evolution_failed : Text → Text → Text → GcpxError
  dbt_resolution_failed : Text → Text → GcpxError
  auth_expired : GcpxError
  permission_denied : Text → Text → GcpxError
  not_found : Text → GcpxError
  timed_out : Text → ℕ → GcpxError
  upstream : Text → Redacted → GcpxError

classify_status : Option ℕ → Text → Text → Text → GcpxError
unfolding redact
classify_status none message api_name resource = upstream api_name (redact message)
classify_status (some s) message api_name resource =
    if s == 403
    then permission_denied resource api_name
    else if s == 404
    then not_found resource
    else upstream api_name (redact message)

unfoldable pub classify : {E : Type 0} ⦃i : GcpApiError E⦄ → E → Text → Text → Text → GcpxError
unfolding classify_status
classify ⦃i⦄ e api_name project resource =
    if i.is_unauthenticated e
    then auth_expired
    else if i.is_rate_limited e
    then rate_limited project api_name
    else classify_status (i.http_status e) (i.api_message e) api_name resource

-- The codes of `tonic::Code` that the program uses.
pub data Code : Type 0 where
  resource_exhausted failed_precondition invalid_argument unauthenticated : Code
  code_permission_denied code_not_found deadline_exceeded internal : Code

unfoldable pub code_of : GcpxError → Code
code_of (rate_limited project api_name) = resource_exhausted
code_of (schema_evolution_failed table reason suggestion) = failed_precondition
code_of (dbt_resolution_failed model missing_ref) = invalid_argument
code_of auth_expired = unauthenticated
code_of (permission_denied resource api_name) = code_permission_denied
code_of (not_found resource) = code_not_found
code_of (timed_out resource waited_secs) = deadline_exceeded
code_of (upstream api_name detail) = internal

pub record Status : Type 0 where
  pub code : Code
  pub message : Text
