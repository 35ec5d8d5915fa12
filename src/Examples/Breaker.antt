-- ===== src/Examples/Breaker.antt =====
-- crates/gcpx-core/src/breaker.rs at concrete inputs.
use pulumi_rs_provider_gcpx.Base.{
  ℕ, ◌+◌, ◌-◌, ◌*◌, ◌≤◌, ◌<◌, ◌≡◌, refl, ◌⊎◌, [], ◌∷◌, length, arith, ok, err, codes, if◌then◌else◌,
  ltb,
}
use pulumi_rs_provider_gcpx.Core.Breaker.{
  big_query, vertex, CircuitBreaker, closed, opened, half_open, new, allow_request, new_set,
  service_name,
}
use pulumi_rs_provider_gcpx.Core.Breaker.Invariant.{
  Inv, new-Inv, run, run-Inv, allow, success, failure,
}
use pulumi_rs_provider_gcpx.Core.Breaker.Schedule.{
  failures, failures_open, allow_request_opened, successes, successes_close,
}

-- A breaker that a failure at clock 1000 has just opened, and the same on trial.
abbrev tripped : CircuitBreaker
tripped = record {
  failure_threshold = 5;
  success_threshold = 2;
  timeout_ms = 30000;
  state = opened;
  failure_count = 5;
  success_count = 0;
  last_failure_ms = 1000;
}

abbrev on_trial : CircuitBreaker
on_trial = record tripped { state = half_open }

-- Thirty seconds after its last failure an open breaker is tried again.
recovers : allow_request big_query 31000 tripped ≡ (on_trial, ok tt)
unfolding allow_request
recovers = refl

still_open :
    allow_request big_query 30999 tripped
    ≡ (tripped, err (record { service = codes "BigQuery"; retry_in_secs = 1 }))
unfolding allow_request service_name
still_open = refl

run-Inv_example : Inv (run (failure 10 ∷ failure 20 ∷ allow vertex 30 ∷ success ∷ []) (new 2 1 5))
run-Inv_example =
    run-Inv (failure 10 ∷ failure 20 ∷ allow vertex 30 ∷ success ∷ []) (new 2 1 5)
      (new-Inv 2 1 5 (omega arith) (omega arith) (omega arith) (omega arith))

length-new_set : length new_set ≡ 6
unfolding new_set
length-new_set = refl

failures_open_example :
    (failures (10 ∷ 20 ∷ 30 ∷ []) (new 3 2 1000)).state ≡ (if ltb 3 3 then closed else opened)
failures_open_example = failures_open 3 2 1000 (10 ∷ 20 ∷ 30 ∷ []) (omega arith) (omega arith)

allow_request_opened_example :
    ((30000 ≤ 2500 - 1000)
      × (allow_request vertex 2500 tripped
          ≡ (record tripped { state = half_open; success_count = 0 }, ok tt)))
    ⊎ ((secs : ℕ) × (2500 - 1000 < 30000)
        × (allow_request vertex 2500 tripped
            ≡ (tripped, err (record { service = service_name vertex; retry_in_secs = secs })))
        × (30000 ≤ (2500 - 1000) + secs * 1000)
        × ((2500 - 1000) + secs * 1000 < 30000 + 1000))
allow_request_opened_example = allow_request_opened vertex 2500 tripped refl

successes_close_example :
    (successes 2 on_trial
      ≡ record on_trial { state = closed; failure_count = 0; success_count = 0 })
    × ((successes 1 on_trial).state ≡ half_open)
successes_close_example = successes_close 1 1 on_trial refl refl (omega arith) (omega arith)
