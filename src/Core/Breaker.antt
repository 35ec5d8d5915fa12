-- ===== src/Core/Breaker.antt =====
-- crates/gcpx-core/src/breaker.rs: the circuit breaker of a service, and the set of them.
-- A method that stores into the atomics returns the new record, and `now` is the value of
-- `now_ms()` at the call. Each method is one step: the interleaving of two threads inside a
-- method is not modelled. The `u8` of `state` only ever holds the three constants.
pub mod Invariant
pub mod Schedule
use pulumi_rs_provider_gcpx.Base.{
  ℕ, zero, suc, ◌+◌, ◌-◌, ◌/◌, ◌%◌, ◌^◌, Bool, true, false, List, [], ◌∷◌, leb, if◌then◌else◌,
  get_or, set, Text, codes, Result, ok, err, replicate,
}

pub data Service : Type 0 where
  big_query workflows scheduler dataproc data_agents vertex : Service

unfoldable pub index : Service → ℕ
index big_query = 0
index workflows = 1
index scheduler = 2
index dataproc = 3
index data_agents = 4
index vertex = 5

unfoldable pub service_name : Service → Text
service_name big_query = codes "BigQuery"
service_name workflows = codes "Workflows"
service_name scheduler = codes "Cloud Scheduler"
service_name dataproc = codes "Dataproc"
service_name data_agents = codes "Conversational Analytics"
service_name vertex = codes "Vertex AI"

pub record CircuitOpen : Type 0 where
  pub service : Text
  pub retry_in_secs : ℕ

pub data State : Type 0 where
  closed opened half_open : State

pub record CircuitBreaker : Type 0 where
  pub failure_threshold : ℕ  -- u32
  pub success_threshold : ℕ  -- u32
  pub timeout_ms : ℕ  -- the `Duration`, read as milliseconds
  pub state : State
  pub failure_count : ℕ  -- u32
  pub success_count : ℕ  -- u32
  pub last_failure_ms : ℕ  -- u64

-- `fetch_add(1)` and the `+ 1` on what it returns wrap at 32 bits.
abbrev pub u32 : ℕ → ℕ
u32 n = n % 4294967296

unfoldable pub new : ℕ → ℕ → ℕ → CircuitBreaker
new failures successes timeout = record {
  failure_threshold = failures;
  success_threshold = successes;
  timeout_ms = timeout;
  state = closed;
  failure_count = 0;
  success_count = 0;
  last_failure_ms = 0;
}

unfoldable pub default_config : CircuitBreaker
unfolding new
default_config = new 5 2 30000

div_ceil : ℕ → ℕ → ℕ
div_ceil n d = (n + (d - 1)) / d

-- The `OPEN` arm of `allow_request`. Truncated subtraction is `saturating_sub`.
allow_open : Service → ℕ → CircuitBreaker → CircuitBreaker × Result (Unit {0}) CircuitOpen
unfolding div_ceil
allow_open s now b =
    let elapsed = now - b.last_failure_ms in
    if leb b.timeout_ms elapsed
    then (record b { state = half_open; success_count = 0 }, ok tt)
    else (
      b,
      err (record {
        service = service_name s;
        retry_in_secs = div_ceil (b.timeout_ms - elapsed) 1000;
      }),
    )

allow_in : State → Service → ℕ → CircuitBreaker → CircuitBreaker × Result (Unit {0}) CircuitOpen
unfolding allow_open
allow_in closed s now b = (b, ok tt)
allow_in half_open s now b = (b, ok tt)
allow_in opened s now b = allow_open s now b

unfoldable pub allow_request :
    Service → ℕ → CircuitBreaker → CircuitBreaker × Result (Unit {0}) CircuitOpen
unfolding allow_in
allow_request s now b = allow_in b.state s now b

success_in : State → CircuitBreaker → CircuitBreaker
success_in half_open b =
    let count = u32 (b.success_count + 1) in
    if leb b.success_threshold count
    then record b { state = closed; failure_count = 0; success_count = 0 }
    else record b { success_count = count }
success_in closed b = record b { failure_count = 0 }
success_in opened b = b

unfoldable pub record_success : CircuitBreaker → CircuitBreaker
unfolding success_in
record_success b = success_in b.state b

failure_in : State → CircuitBreaker → CircuitBreaker
failure_in closed b =
    let count = u32 (b.failure_count + 1) in
    if leb b.failure_threshold count
    then record b { failure_count = count; state = opened }
    else record b { failure_count = count }
failure_in half_open b = record b { state = opened; success_count = 0 }
failure_in opened b = b

unfoldable pub record_failure : ℕ → CircuitBreaker → CircuitBreaker
unfolding failure_in
record_failure now b = failure_in b.state (record b { last_failure_ms = now })

unfoldable pub is_open : CircuitBreaker → Bool
is_open b = elim b.state [ opened ↦ true | _ ↦ false ]

unfoldable pub is_closed : CircuitBreaker → Bool
is_closed b = elim b.state [ closed ↦ true | _ ↦ false ]

-- `BreakerSet`: one breaker per service, in the order of `index`.
abbrev pub BreakerSet : Type 0
BreakerSet = List CircuitBreaker

unfoldable pub new_set : BreakerSet
new_set = replicate 6 default_config

unfoldable pub get : BreakerSet → Service → CircuitBreaker
get bs s = get_or bs (index s) default_config

-- What a method called through `get` leaves behind: the atomics of that breaker are written.
unfoldable pub put : BreakerSet → Service → CircuitBreaker → BreakerSet
put bs s b = set bs (index s) b
