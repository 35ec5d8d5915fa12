-- ===== src/Core/Breaker/Schedule.antt =====
-- When a breaker opens, how long it rejects, and how it closes again.
use native.Mathlib.Decide.{dec_le}
use pulumi_rs_provider_gcpx.Base.{
  ℕ, zero, suc, ◌+◌, ◌-◌, ◌*◌, ◌/◌, ◌≤◌, ◌<◌, ◌≡◌, refl, ◌⊎◌, inl, inr, List, [], ◌∷◌, length,
  arith, ok, err, ltb, if◌then◌else◌,
}
use pulumi_rs_provider_gcpx.Core.Breaker.{
  Service, service_name, CircuitBreaker, closed, opened, half_open, new, allow_request,
  record_success, record_failure,
}

-- Failures at the given clocks, one after the other.
unfoldable pub failures : List ℕ → CircuitBreaker → CircuitBreaker
failures [] b = b
failures (now ∷ nows) b = failures nows (record_failure now b)

failures_opened :
    (nows : List ℕ) (b : CircuitBreaker) → b.state ≡ opened → (failures nows b).state ≡ opened
unfolding failures record_failure
failures_opened [] b h = h
failures_opened (now ∷ nows) b h = failures_opened nows (record_failure now b) (ground arith)

pub record_failure_closed :
    (now : ℕ) (b : CircuitBreaker)
    → b.state ≡ closed
    → b.failure_count < b.failure_threshold
    → b.failure_threshold < 4294967296
    → ((record_failure now b).failure_count ≡ b.failure_count + 1)
      × ((record_failure now b).failure_threshold ≡ b.failure_threshold)
      × ((record_failure now b).state
          ≡ (if ltb (b.failure_count + 1) b.failure_threshold then closed else opened))
unfolding record_failure
record_failure_closed now b c h w = ground arith

failures_closed :
    (nows : List ℕ) (b : CircuitBreaker)
    → b.state ≡ closed
    → b.failure_count < b.failure_threshold
    → b.failure_threshold < 4294967296
    → (failures nows b).state
      ≡ (if ltb (b.failure_count + length nows) b.failure_threshold then closed else opened)
unfolding failures
failures_closed [] b c h w = ground arith
failures_closed (now ∷ nows) b c h w =
    let (n, f, s) = record_failure_closed now b c h w in
    ground (
      arith,
      failures_closed nows (record_failure now b),
      failures_opened nows (record_failure now b),
    )

-- `n` consecutive failures of a fresh breaker, at any times, open it exactly when `n` reaches
-- the failure threshold (which is positive and fits in 32 bits).
pub failures_open :
    (f s t : ℕ) (nows : List ℕ)
    → 0 < f
    → f < 4294967296
    → (failures nows (new f s t)).state ≡ (if ltb (length nows) f then closed else opened)
unfolding new
failures_open f s t nows p w = ground (arith, failures_closed nows (new f s t))

-- While a breaker is open, `allow_request` at clock `now` lets the request through exactly when
-- the time since the last failure is at least the timeout, and then leaves the breaker
-- half-open with no successes counted. Otherwise it changes nothing and names the service and
-- the wait in seconds, which is the remaining time rounded up: it is long enough, and a second
-- less is not.
pub allow_request_opened :
    (v : Service) (now : ℕ) (b : CircuitBreaker)
    → b.state ≡ opened
    → ((b.timeout_ms ≤ now - b.last_failure_ms)
        × (allow_request v now b ≡ (record b { state = half_open; success_count = 0 }, ok tt)))
      ⊎ ((secs : ℕ) × (now - b.last_failure_ms < b.timeout_ms)
          × (allow_request v now b
              ≡ (b, err (record { service = service_name v; retry_in_secs = secs })))
          × (b.timeout_ms ≤ (now - b.last_failure_ms) + secs * 1000)
          × ((now - b.last_failure_ms) + secs * 1000 < b.timeout_ms + 1000))
unfolding allow_request
allow_request_opened v now b o = elim (dec_le b.timeout_ms (now - b.last_failure_ms)) [
  | yes p ↦ inl (p, ground arith)
  | no p ↦ inr (
    (b.timeout_ms - (now - b.last_failure_ms) + 999) / 1000,
    omega arith,
    ground arith,
    omega arith,
    omega arith,
  )
]

-- Any number of successes.
unfoldable pub successes : ℕ → CircuitBreaker → CircuitBreaker
successes zero b = b
successes (suc n) b = successes n (record_success b)

record_success_half_open :
    (b : CircuitBreaker)
    → b.state ≡ half_open
    → b.success_count + 1 < b.success_threshold
    → b.success_threshold < 4294967296
    → record_success b ≡ record b { success_count = b.success_count + 1 }
unfolding record_success
record_success_half_open b o h w = ground arith

record_success_last :
    (b : CircuitBreaker)
    → b.state ≡ half_open
    → b.success_count + 1 ≡ b.success_threshold
    → b.success_threshold < 4294967296
    → record_success b ≡ record b { state = closed; failure_count = 0; success_count = 0 }
unfolding record_success
record_success_last b o h w = ground arith

successes_below :
    (m : ℕ) (b : CircuitBreaker)
    → b.state ≡ half_open
    → b.success_count + m < b.success_threshold
    → b.success_threshold < 4294967296
    → (successes m b).state ≡ half_open
unfolding successes
successes_below zero b o h w = o
successes_below (suc m) b o h w =
    rw (record_success_half_open b o (omega arith) w, successes)
      (successes_below m (record b { success_count = b.success_count + 1 }) o (omega arith) w)

successes_last :
    (n : ℕ) (b : CircuitBreaker)
    → b.state ≡ half_open
    → b.success_count + suc n ≡ b.success_threshold
    → b.success_threshold < 4294967296
    → successes (suc n) b ≡ record b { state = closed; failure_count = 0; success_count = 0 }
unfolding successes
successes_last zero b o h w = record_success_last b o (omega arith) w
successes_last (suc n) b o h w =
    rw (record_success_half_open b o (omega arith) w, successes)
      (successes_last n (record b { success_count = b.success_count + 1 }) o (omega arith) w)

-- A half-open breaker with `n` + 1 successes missing to its success threshold (which fits in 32
-- bits) is closed by `n` + 1 successes in a row, and still half-open after `m` of them, any
-- fewer; closing it resets both counts.
pub successes_close :
    (m n : ℕ) (b : CircuitBreaker)
    → b.state ≡ half_open
    → b.success_count + suc n ≡ b.success_threshold
    → b.success_threshold < 4294967296
    → m ≤ n
    → (successes (suc n) b ≡ record b { state = closed; failure_count = 0; success_count = 0 })
      × ((successes m b).state ≡ half_open)
successes_close m n b o h w l = (successes_last n b o h w, successes_below m b o (omega arith) w)

-- A failure while half-open reopens the breaker at once, counting its wait from `now`.
pub record_failure_half_open :
    (now : ℕ) (b : CircuitBreaker)
    → b.state ≡ half_open
    → record_failure now b ≡ record b { state = opened; success_count = 0; last_failure_ms = now }
unfolding record_failure
record_failure_half_open now b o = ground arith

-- Requests one after the other, with no outcome recorded between them: how many get through.
unfoldable pub admitted : List (Service × ℕ) → CircuitBreaker → ℕ
admitted [] b = 0
admitted ((v, now) ∷ rs) b =
    admitted rs (allow_request v now b).0
    + (elim (allow_request v now b).1 [ ok _ ↦ 1 | err _ ↦ 0 ])

allow_request_half_open :
    (v : Service) (now : ℕ) (b : CircuitBreaker)
    → b.state ≡ half_open
    → allow_request v now b ≡ (b, ok tt)
unfolding allow_request
allow_request_half_open v now b o = ground arith

-- A half-open breaker lets every request through until an outcome is recorded, not one probe
-- only.
pub admitted_half_open :
    (rs : List (Service × ℕ)) (b : CircuitBreaker) → b.state ≡ half_open → admitted rs b ≡ length rs
unfolding admitted
admitted_half_open [] b o = refl
admitted_half_open ((v, now) ∷ rs) b o =
    rw (allow_request_half_open v now b o) (omega (arith, admitted_half_open rs b o))
