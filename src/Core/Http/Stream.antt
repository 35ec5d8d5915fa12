-- ===== src/Core/Http/Stream.antt =====
-- How the streaming request treats the breaker.
use pulumi_rs_provider_gcpx.Base.{ℕ, ◌+◌, ◌<◌, ◌≤◌, ◌≡◌, ◌⊎◌, arith, Text, Result, ok, err}
use pulumi_rs_provider_gcpx.Core.Breaker.{Service, closed, opened, allow_request, record_failure}
use pulumi_rs_provider_gcpx.Core.Errors.{GcpError, api}
use pulumi_rs_provider_gcpx.Core.Http.{Client, admit, rejection, post_stream, stream_response}

-- From a closed breaker that is one failure below its threshold, a streaming request whose
-- response has any status outside 200 to 299, a client error such as 400 included, returns that
-- status and opens the breaker of the whole service.
pub post_stream_client_error :
    {W : Type 0} (now : W → ℕ) (token : W → W × Result Text GcpError)
    (send : Text → W → W × Result (ℕ × Text) GcpError) (service : Service) (c : Client) (w : W)
    (t text : Text) (status : ℕ)
    → c.breaker.state ≡ closed
    → c.breaker.failure_count + 1 ≡ c.breaker.failure_threshold
    → c.breaker.failure_threshold < 4294967296
    → (token w).1 ≡ ok t
    → (send t (token w).0).1 ≡ ok (status, text)
    → (status < 200) ⊎ (300 ≤ status)
    → ((post_stream now token send service (c, w)).1 ≡ err (api status text))
      × ((post_stream now token send service (c, w)).0.0.breaker.state ≡ opened)
unfolding post_stream admit rejection allow_request stream_response record_failure
post_stream_client_error now token send service c w t text status o f u ht hs r = ground arith
