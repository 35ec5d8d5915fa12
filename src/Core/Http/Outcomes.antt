-- ===== src/Core/Http/Outcomes.antt =====
-- What a call of `with_retry` comes to: rejected, refused by the service, or out of attempts.
use pulumi_rs_provider_gcpx.Base.{
  ℕ, ◌+◌, ◌-◌, ◌<◌, ◌≡◌, refl, ◌∙◌, ◌/◌, true, false, List, [], ◌∷◌, length, arith, Text, Result,
  ok, err, Outcome, done,
}
use pulumi_rs_provider_gcpx.Core.Breaker.{
  Service, service_name, opened, closed, record_failure, allow_request,
}
use pulumi_rs_provider_gcpx.Core.Breaker.Schedule.{record_failure_closed}
use pulumi_rs_provider_gcpx.Core.Errors.{GcpError, api}
use pulumi_rs_provider_gcpx.Core.Http.{
  State, Client, retried, scrubbed, on_failure, conclude, proceed, admit, pause, attempt, ladder,
  with_retry, retry_delays, rejection, open_message, note,
}

module _ {W R : Type 0} (now : W → ℕ) (sleep : ℕ → W → W) (op : W → W × Result R GcpError)
    (service : Service) where
  -- While the breaker is open and its timeout has not passed since the last failure, `with_retry`
  -- makes no request: it returns a 503 failure and leaves the client and the world as they were.
  pub with_retry_open :
      (c : Client) (w : W)
      → c.breaker.state ≡ opened
      → now w - c.breaker.last_failure_ms < c.breaker.timeout_ms
      → (m : Text) × (with_retry now sleep op service (c, w) ≡ ((c, w), done (err (api 503 m))))
  unfolding with_retry admit proceed allow_request rejection
  with_retry_open c w o h = (
    open_message (record {
      service = service_name service;
      retry_in_secs = (c.breaker.timeout_ms - (now w - c.breaker.last_failure_ms) + 999) / 1000;
    }),
    ground arith,
  )

  -- From a closed breaker, a failure that is not retryable is returned after one request as it
  -- is, and the client's state is untouched by it.
  pub with_retry_terminal :
      (c : Client) (w : W) (e : GcpError)
      → c.breaker.state ≡ closed
      → (op w).1 ≡ err e
      → retried e ≡ false
      → with_retry now sleep op service (c, w) ≡ ((c, (op w).0), done (err e))
  unfolding with_retry admit proceed allow_request rejection ladder attempt note conclude
  with_retry_terminal c w e o f h = ground arith

  after : Client → W → State W
  after c w = (record c { breaker = record_failure (now (op w).0) c.breaker }, (op w).0)

  admit_closed :
      (c : Client) (w : W) → c.breaker.state ≡ closed → admit now service (c, w) ≡ ((c, w), ok tt)
  unfolding admit rejection allow_request
  admit_closed c w o = ground arith

  module _ (e e' : GcpError) (fails : (w : W) → (op w).1 ≡ err e) (h : retried e ≡ true)
      (k : scrubbed e ≡ done e') where
    conclude_failure :
        (st : State W) (next : GcpError → State W → State W × Outcome (Result R GcpError))
        → conclude st (err e) next ≡ next e' st
    unfolding conclude on_failure
    conclude_failure st next = rw (h, k)

    attempt_fails : (c : Client) (w : W) → attempt now sleep op service (c, w) ≡ (after c w, err e)
    unfolding attempt note after
    attempt_fails c w = rw (fails w) (rw h)

    ladder-nil :
        (c : Client) (w : W) → ladder now sleep op service [] (c, w) ≡ (after c w, done (err e'))
    unfolding ladder
    ladder-nil c w = rw (attempt_fails c w) (conclude_failure _ _)

    ladder-cons :
        (d : ℕ) (ds : List ℕ) (c : Client) (w : W)
        → (after c w).0.breaker.state ≡ closed
        → ladder now sleep op service (d ∷ ds) (c, w)
          ≡ ladder now sleep op service ds (pause sleep d (after c w))
    unfolding ladder proceed
    ladder-cons d ds c w o =
        rw (attempt_fails c w)
          (conclude_failure _ _ ∙ rw (admit_closed (after c w).0 (after c w).1 o))

    ladder_exhausts :
        (ds : List ℕ) (c : Client) (w : W)
        → c.breaker.state ≡ closed
        → c.breaker.failure_count + length ds + 1 ≡ c.breaker.failure_threshold
        → c.breaker.failure_threshold < 4294967296
        → ((ladder now sleep op service ds (c, w)).0.0.breaker.state ≡ opened)
          × ((ladder now sleep op service ds (c, w)).1 ≡ done (err e'))
    unfolding after pause
    ladder_exhausts [] c w o f t =
        let (count, top, state) =
          record_failure_closed (now (op w).0) c.breaker o (omega arith) t in
        rw (ladder-nil c w) (ground (arith, count, top, state), refl)
    ladder_exhausts (d ∷ ds) c w o f t =
        let (count, top, state) =
          record_failure_closed (now (op w).0) c.breaker o (omega arith) t in
        let still : (record_failure (now (op w).0) c.breaker).state ≡ closed =
          ground (arith, state) in
        rw (ladder-cons d ds c w still) (
          ladder_exhausts ds (pause sleep d (after c w)).0 (pause sleep d (after c w)).1 still
            (omega arith) (omega arith))

    -- Where every request fails with the same retryable failure, and scrubbing that failure comes to
    -- a failure and does not panic: a `with_retry` that starts with a closed breaker five failures
    -- below its threshold, which fits 32 bits, returns the scrubbed failure and leaves the breaker
    -- open.
    pub with_retry_exhausts :
        (c : Client) (w : W)
        → c.breaker.state ≡ closed
        → c.breaker.failure_count + 5 ≡ c.breaker.failure_threshold
        → c.breaker.failure_threshold < 4294967296
        → ((with_retry now sleep op service (c, w)).0.0.breaker.state ≡ opened)
          × ((with_retry now sleep op service (c, w)).1 ≡ done (err e'))
    unfolding with_retry proceed
    with_retry_exhausts c w o f t =
        rw (admit_closed c w o) (ladder_exhausts retry_delays c w o (omega arith) t)
