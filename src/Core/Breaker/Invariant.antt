-- ===== src/Core/Breaker/Invariant.antt =====
-- What holds of a breaker between two calls, over every sequence of calls.
use pulumi_rs_provider_gcpx.Base.{
  ℕ, ◌<◌, ◌≡◌, ◌≢◌, List, [], ◌∷◌, length, get_or-set_ne, get_or-set_self, length-set, arith, ◌∙◌,
}
use pulumi_rs_provider_gcpx.Core.Breaker.{
  Service, index, CircuitBreaker, closed, half_open, new, allow_request, record_success,
  record_failure, BreakerSet, get, put,
}

-- A closed breaker is below its failure threshold, a half-open one below its success threshold.
pub record Inv (b : CircuitBreaker) : Type 0 where
  pub failures_below : b.state ≡ closed → b.failure_count < b.failure_threshold
  pub successes_below : b.state ≡ half_open → b.success_count < b.success_threshold
  pub failures_word : b.failure_threshold < 4294967296
  pub successes_word : b.success_threshold < 4294967296
  pub failures_pos : 0 < b.failure_threshold
  pub successes_pos : 0 < b.success_threshold

pub new-Inv : (f s t : ℕ) → 0 < f → f < 4294967296 → 0 < s → s < 4294967296 → Inv (new f s t)
unfolding new
new-Inv f s t a b c d = ground arith

pub allow_request-Inv :
    (v : Service) (now : ℕ) (b : CircuitBreaker) → Inv b → Inv (allow_request v now b).0
unfolding allow_request
allow_request-Inv v now b h = ground arith

pub record_success-Inv : (b : CircuitBreaker) → Inv b → Inv (record_success b)
unfolding record_success
record_success-Inv b h = ground arith

pub record_failure-Inv : (now : ℕ) (b : CircuitBreaker) → Inv b → Inv (record_failure now b)
unfolding record_failure
record_failure-Inv now b h = ground arith

-- A call of one of the three methods, with the clock that it reads.
pub data Call : Type 0 where
  allow : Service → ℕ → Call
  success : Call
  failure : ℕ → Call

unfoldable pub apply : Call → CircuitBreaker → CircuitBreaker
apply (allow s now) b = (allow_request s now b).0
apply success b = record_success b
apply (failure now) b = record_failure now b

unfoldable pub run : List Call → CircuitBreaker → CircuitBreaker
run [] b = b
run (c ∷ cs) b = run cs (apply c b)

apply-Inv : (c : Call) (b : CircuitBreaker) → Inv b → Inv (apply c b)
unfolding apply
apply-Inv (allow s now) b h = allow_request-Inv s now b h
apply-Inv success b h = record_success-Inv b h
apply-Inv (failure now) b h = record_failure-Inv now b h

-- For every breaker in which a closed state means that the failure count is below the failure
-- threshold, a half-open state that the success count is below the success threshold, and both
-- thresholds are positive and fit in 32 bits, the same holds after any sequence of
-- `allow_request`, `record_success` and `record_failure` calls.
pub run-Inv : (cs : List Call) (b : CircuitBreaker) → Inv b → Inv (run cs b)
unfolding run
run-Inv [] b h = h
run-Inv (c ∷ cs) b h = run-Inv cs (apply c b) (apply-Inv c b h)

index-injective : (s t : Service) → index s ≡ index t → s ≡ t
unfolding index
index-injective s t h = ground arith

index-lt : (s : Service) → index s < 6
unfolding index
index-lt s = ground arith

-- In a set of six breakers, writing the breaker of service `s` is read back under `s`, leaves
-- the breaker of every other service as it was, and keeps the set's size.
pub get-put :
    (bs : BreakerSet) (s t : Service) (b : CircuitBreaker)
    → length bs ≡ 6
    → s ≢ t
    → (get (put bs s b) s ≡ b) × (get (put bs s b) t ≡ get bs t) × (length (put bs s b) ≡ 6)
unfolding get put
get-put bs s t b h ne = (
  get_or-set_self bs (index s) b _ (omega (arith, index-lt s)),
  get_or-set_ne bs (index s) (index t) b _ (λ e. ne (index-injective s t e)),
  length-set bs (index s) b ∙ h,
)
