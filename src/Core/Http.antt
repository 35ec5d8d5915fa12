-- ===== src/Core/Http.antt =====
-- crates/gcpx-core/src/http.rs: which failures are retried, the retry ladder under the circuit
-- breaker, and the streaming request. The request, the clock and the sleep act on the outside
-- world `W`; the client's state is its jitter word and,
-- of the breaker set, the breaker of the service at hand. One caller at a time: what a
-- concurrent caller does to the breaker while this one waits is not modelled.
pub mod Ladder
pub mod Outcomes
pub mod Stream
use Prim.Native.Nat.{bit_xor}
use pulumi_rs_provider_gcpx.Base.{
  ℕ, zero, suc, ◌+◌, ◌-◌, ◌*◌, ◌/◌, ◌%◌, ◌^◌, Bool, true, false, not, ◌&&◌, ◌||◌, List, [], ◌∷◌,
  ◌++◌, ◌==◌, if◌then◌else◌, Text, codes, contains, Result, ok, err, Outcome, done, panicked, stuck,
  and_then, decimal, any, ltb,
}
use pulumi_rs_provider_gcpx.Core.Breaker.{
  Service, big_query, workflows, scheduler, dataproc, data_agents, vertex, CircuitOpen,
  CircuitBreaker, allow_request, record_success, record_failure,
}
use pulumi_rs_provider_gcpx.Core.Errors.{
  GcpError, http, auth, api, operation_timeout, operation_failed,
}
use pulumi_rs_provider_gcpx.Core.Redact.{redact}

-- Milliseconds.
abbrev pub retry_delays : List ℕ
retry_delays = 2000 ∷ 4000 ∷ 8000 ∷ 16000 ∷ []

abbrev u64 : ℕ → ℕ
u64 n = n % 2 ^ 64

-- One advance of the jitter word.
unfoldable pub xorshift : ℕ → ℕ
xorshift x =
    let a = bit_xor x (u64 (x * 2 ^ 13)) in
    let b = bit_xor a (a / 2 ^ 7) in bit_xor b (u64 (b * 2 ^ 17))

-- The new jitter word and the jitter in milliseconds.
unfoldable pub next_jitter : ℕ → ℕ × ℕ
next_jitter x = let y = xorshift x in (y, y % 1000)

abbrev is_one_of : ℕ → List ℕ → Bool
is_one_of n = any (λ m. n == m)

unfoldable pub is_retryable : ℕ → Text → Bool
is_retryable status message =
    if is_one_of status (408 ∷ 429 ∷ 500 ∷ 502 ∷ 503 ∷ 504 ∷ [])
    then true
    else if is_one_of status (400 ∷ 403 ∷ [])
    then contains (codes "rateLimitExceeded") message
      || contains (codes "jobRateLimitExceeded") message
      || contains (codes "Job exceeded rate limits") message
      || contains (codes "backendError") message
    else if status == 409
    then contains (codes "not in ready state") message
      || contains (codes "ABORTED") message
      || contains (codes "try again") message
    else false

-- `CircuitOpen` as it prints.
unfoldable pub open_message : CircuitOpen → Text
open_message e =
    e.service
    ++ (codes " circuit breaker is open after repeated failures; retry in "
        ++ (decimal e.retry_in_secs ++ codes "s"))

pub record Client : Type 0 where
  pub breaker : CircuitBreaker
  pub jitter : ℕ

abbrev pub State : Type 0 → Type 0
State W = Client × W

-- The guard of the `match` arm for retryable failures.
unfoldable pub retried : GcpError → Bool
retried (api status message) = is_retryable status message
retried (http e) = false
retried (auth e) = false
retried (operation_timeout s t) = false
retried (operation_failed m) = false

-- `last_err`: the failure with its message scrubbed.
unfoldable pub scrubbed : GcpError → Outcome GcpError
scrubbed (api status message) = and_then (redact message) (λ m. done (api status m))
scrubbed (http e) = done (http e)
scrubbed (auth e) = done (auth e)
scrubbed (operation_timeout s t) = done (operation_timeout s t)
scrubbed (operation_failed m) = done (operation_failed m)

-- What follows a retryable failure whose scrubbed form is `e`.
pub on_failure :
    {W R : Type 0}
    → Outcome GcpError
    → State W
    → (GcpError → State W → State W × Outcome (Result R GcpError))
    → State W × Outcome (Result R GcpError)
on_failure (done e) st next = next e st
on_failure panicked st next = (st, panicked)
on_failure stuck st next = (st, stuck)

-- The `match` on an attempt's result; `next` is the rest of the loop.
pub conclude :
    {W R : Type 0}
    → State W
    → Result R GcpError
    → (GcpError → State W → State W × Outcome (Result R GcpError))
    → State W × Outcome (Result R GcpError)
conclude st (ok v) next = (st, done (ok v))
conclude st (err e) next = if retried e then on_failure (scrubbed e) st next else (st, done (err e))

-- `?` on an admission.
pub proceed :
    {W R : Type 0}
    → State W
    → Result (Unit {0}) GcpError
    → (State W → State W × Outcome (Result R GcpError))
    → State W × Outcome (Result R GcpError)
proceed st (ok u) next = next st
proceed st (err e) next = (st, done (err e))

-- What an attempt does to the breaker.
pub note : {R : Type 0} → ℕ → Result R GcpError → CircuitBreaker → CircuitBreaker
note now (ok v) b = record_success b
note now (err e) b = if retried e then record_failure now b else b

-- `map_err` of an admission: the rejection as the error that the caller sees.
pub rejection : Result (Unit {0}) CircuitOpen → Result (Unit {0}) GcpError
rejection (ok u) = ok tt
rejection (err e) = err (api 503 (open_message e))

pub admit : {W : Type 0} → (W → ℕ) → Service → State W → State W × Result (Unit {0}) GcpError
unfolding rejection open_message
admit now service (c, w) =
    let (b, r) = allow_request service (now w) c.breaker in
    ((record c { breaker = b }, w), rejection r)

-- `sleep(delay + self.next_jitter())`.
pub pause : {W : Type 0} → (ℕ → W → W) → ℕ → State W → State W
unfolding next_jitter xorshift
pause sleep delay (c, w) =
    let (x, j) = next_jitter c.jitter in (record c { jitter = x }, sleep (delay + j) w)

module _ {W R : Type 0} (now : W → ℕ) (sleep : ℕ → W → W) (op : W → W × Result R GcpError)
    (service : Service) where
  -- One attempt and its record in the breaker.
  pub attempt : State W → State W × Result R GcpError
  unfolding note
  attempt (c, w) = let (w', r) = op w in ((record c { breaker = note (now w') r c.breaker }, w'), r)

  -- The attempt at hand, and those with the given delays before them.
  pub ladder : List ℕ → State W → State W × Outcome (Result R GcpError)
  ladder [] st = let (st', r) = attempt st in conclude st' r (λ e s. (s, done (err e)))
  ladder (d ∷ ds) st =
      let (st', r) = attempt st in
      conclude st' r (λ e s.
        let (s', a) = admit now service s in proceed s' a (λ s''. ladder ds (pause sleep d s'')))

  unfoldable pub with_retry : State W → State W × Outcome (Result R GcpError)
  with_retry st = let (st', a) = admit now service st in proceed st' a (λ s. ladder retry_delays s)

abbrev is_success : ℕ → Bool
is_success status = ltb 199 status && ltb status 300

-- `send_json` and `delete_ok` on a response: its status, its text, and its body as JSON.
unfoldable pub json_response : {R : Type 0} → ℕ → Text → Result R GcpError → Result R GcpError
json_response status text json = if is_success status then json else err (api status text)

unfoldable pub delete_response : ℕ → Text → Result (Unit {0}) GcpError
delete_response status text =
    if not (is_success status) && not (status == 404) then err (api status text) else ok tt

-- A response is its status and its text.
unfoldable pub stream_response :
    {W : Type 0} → ℕ → State W → ℕ × Text → State W × Result (ℕ × Text) GcpError
stream_response now (c, w) (status, text) =
    if not (is_success status)
    then ((record c { breaker = record_failure now c.breaker }, w), err (api status text))
    else ((record c { breaker = record_success c.breaker }, w), ok (status, text))

module _ {W : Type 0} (now : W → ℕ) (token : W → W × Result Text GcpError)
    (send : Text → W → W × Result (ℕ × Text) GcpError) (service : Service) where
  stream_send : State W → Result Text GcpError → State W × Result (ℕ × Text) GcpError
  stream_send st (err e) = (st, err e)
  stream_send (c, w) (ok t) =
      let (w', r) = send t w in
      elim r [ err e ↦ ((c, w'), err e) | ok resp ↦ stream_response (now w') (c, w') resp ]

  stream_admitted : State W → Result (Unit {0}) GcpError → State W × Result (ℕ × Text) GcpError
  stream_admitted st (err e) = (st, err e)
  stream_admitted (c, w) (ok u) = let (w', t) = token w in stream_send (c, w') t

  unfoldable pub post_stream : State W → State W × Result (ℕ × Text) GcpError
  unfolding stream_admitted stream_send
  post_stream st = let (st', a) = admit now service st in stream_admitted st' a
