-- ===== src/Examples/Client.antt =====
-- crates/gcpx-core/src/http.rs, lro.rs and lifecycle.rs at concrete inputs.
use pulumi_rs_provider_gcpx.Base.{
  ℕ, ◌+◌, ◌*◌, ◌≤◌, ◌<◌, ◌≡◌, ◌≢◌, refl, Bool, true, false, arith, Result, ok, err, Text, codes,
  leb, Option, none, some, done, stuck, min, contains, byte_len,
}
use pulumi_rs_provider_gcpx.Core.Errors.{GcpError, api, Status, gcp_api_error}
use pulumi_rs_provider_gcpx.Core.Breaker.{vertex, CircuitBreaker, State, closed, opened}
use pulumi_rs_provider_gcpx.Core.Http.{Client, with_retry, retried, scrubbed, is_retryable}
use pulumi_rs_provider_gcpx.Core.Http.Ladder.{with_retry_bounds}
use pulumi_rs_provider_gcpx.Core.Http.Outcomes.{with_retry_open, with_retry_exhausts}
use pulumi_rs_provider_gcpx.Core.Lro.{Operation, quick, poll_operation, finish}
use pulumi_rs_provider_gcpx.Core.Lro.Settles.{poll_operation-ne-stuck, poll_operation_settled}
use pulumi_rs_provider_gcpx.Core.Lifecycle.{create_or_adopt}
use pulumi_rs_provider_gcpx.Core.Lifecycle.Laws.{create_in, patch_in, create_or_adopt_store}
use pulumi_rs_provider_gcpx.Core.Redact.{
  redact, redact_loop, has_marker, is_credential, bearer_at, truncate, credential_run_len,
}

-- A world of a count of requests and a clock.
abbrev World : Type 0
World = ℕ × ℕ

abbrev now : World → ℕ
now w = w.1

abbrev sleep : ℕ → World → World
sleep d (n, t) = (n, t + d)

abbrev failing : GcpError → World → World × Result Text GcpError
failing e (n, t) = ((n + 1, t), err e)

abbrev breaker_in : State → ℕ → CircuitBreaker
breaker_in s n = record {
  failure_threshold = 5;
  success_threshold = 2;
  timeout_ms = 30000;
  state = s;
  failure_count = n;
  success_count = 0;
  last_failure_ms = 1000;
}

abbrev client : State → ℕ → Client
client s n = record { breaker = breaker_in s n; jitter = 1 }

abbrev unavailable : GcpError
unavailable = api 503 (codes "busy")

abbrev invalid : GcpError
invalid = api 400 (codes "no such field")

with_retry_bounds_example :
    ((with_retry now sleep (failing unavailable) vertex (client closed 0, (0, 0))).0.1.0 ≤ 0 + 5)
    × ((with_retry now sleep (failing unavailable) vertex (client closed 0, (0, 0))).0.1.1
        < 0 + 34000)
with_retry_bounds_example =
    with_retry_bounds now sleep (failing unavailable) vertex (λ w. w.0) (λ w. w.1)
      (λ w. (refl, refl)) (λ d w. (refl, refl)) (client closed 0, (0, 0))

with_retry_open_example :
    (m : Text) × (with_retry now sleep (failing unavailable) vertex (client opened 5, (0, 2000))
      ≡ ((client opened 5, (0, 2000)), done (err (api 503 m))))
with_retry_open_example =
    with_retry_open now sleep (failing unavailable) vertex (client opened 5) (0, 2000) refl
      (omega arith)

not_retried : retried invalid ≡ false
unfolding retried is_retryable contains
not_retried = refl

is_retried : retried unavailable ≡ true
unfolding retried is_retryable
is_retried = refl

scrubbed_same : scrubbed unavailable ≡ done unavailable
unfolding scrubbed redact redact_loop has_marker is_credential bearer_at truncate credential_run_len
    contains byte_len
scrubbed_same = refl

with_retry_exhausts_example :
    ((with_retry now sleep (failing unavailable) vertex (client closed 0, (0, 0))).0.0.breaker.state
      ≡ opened)
    × ((with_retry now sleep (failing unavailable) vertex (client closed 0, (0, 0))).1
        ≡ done (err unavailable))
with_retry_exhausts_example =
    with_retry_exhausts now sleep (failing unavailable) vertex unavailable unavailable (λ w. refl)
      is_retried scrubbed_same (client closed 0) (0, 0) refl refl (omega arith)

-- An operation that a poll at clock 1000 or later finds finished.
abbrev operation : Bool → Operation ℕ
operation d = record {
  name = codes "operations/7";
  is_done = d;
  error = none;
  response = none;
  metadata = none;
}

abbrev tick : ℕ → ℕ → ℕ
tick d t = t + d

abbrev fetch : ℕ → ℕ × Result (Operation ℕ) GcpError
fetch t = (t, ok (operation (leb 1000 t)))

enough : quick.deadline ≤ 480 * min quick.initial_interval quick.max_interval
unfolding quick
enough = omega arith

poll_operation-ne-stuck_example :
    (poll_operation (λ t. t) tick fetch quick 481 (operation false) 0).1 ≢ stuck
poll_operation-ne-stuck_example =
    poll_operation-ne-stuck (λ t. t) tick fetch quick (λ d t. omega arith) 480 (operation false) 0
      enough

settles :
    (poll_operation (λ t. t) tick fetch quick 10 (operation false) 0).1 ≡ done (ok (operation true))
unfolding poll_operation quick finish
settles = refl

poll_operation_settled_example : (true ≡ true) × ((operation true).error ≡ none)
poll_operation_settled_example =
    poll_operation_settled (λ t. t) tick fetch quick 10 (operation false) (operation true) 0 settles

abbrev conflict : GcpError
conflict = api 409 (codes "exists")

abbrev missing : GcpError
missing = api 404 (codes "gone")

abbrev adopt : Option ℕ → Option ℕ × Result ℕ Status
adopt s = create_or_adopt (create_in conflict 8) (patch_in missing 8) (codes "dataset") s

create_or_adopt_store_example :
    (adopt (some 3) ≡ (some 8, ok 8)) × (adopt (adopt (some 3)).0 ≡ (some 8, ok 8))
create_or_adopt_store_example =
    create_or_adopt_store conflict missing 8 (codes "dataset") (some 3) refl

-- A delete whose polls, counted by the world, all find the resource.
