-- ===== src/Core/Http/Ladder.antt =====
-- How often the retry ladder calls and how long it sleeps.
use pulumi_rs_provider_gcpx.Base.{
  ℕ, ◌+◌, ◌≤◌, ◌<◌, ◌≡◌, refl, ap, List, [], ◌∷◌, length, arith, Bool-cases, inl, inr, Result, ok,
  err, Outcome, done, panicked, stuck,
}
use pulumi_rs_provider_gcpx.Core.Breaker.{Service}
use pulumi_rs_provider_gcpx.Core.Errors.{GcpError}
use pulumi_rs_provider_gcpx.Core.Http.{
  State, retried, scrubbed, on_failure, conclude, proceed, admit, pause, attempt, ladder,
  with_retry, retry_delays, next_jitter, note,
}

-- The most that the pauses before these attempts sleep: each delay and a jitter below a second.
abbrev total : List ℕ → ℕ
total [] = 0
total (d ∷ ds) = d + 999 + total ds

jitter_lt : (x : ℕ) → (next_jitter x).1 < 1000
unfolding next_jitter
jitter_lt x = omega arith

-- What holds of both ways out of an attempt holds of what it comes to.
module _ {W R : Type 0} (Q : State W × Outcome (Result R GcpError) → Type 0) where
  on_failure_cases :
      (o : Outcome GcpError) (st : State W)
      (next : GcpError → State W → State W × Outcome (Result R GcpError))
      → ((o : Outcome (Result R GcpError)) → Q (st, o))
      → ((e : GcpError) → Q (next e st))
      → Q (on_failure o st next)
  unfolding on_failure
  on_failure_cases (done e) st next here later = later e
  on_failure_cases panicked st next here later = here panicked
  on_failure_cases stuck st next here later = here stuck

  conclude_cases :
      (st : State W) (r : Result R GcpError)
      (next : GcpError → State W → State W × Outcome (Result R GcpError))
      → ((o : Outcome (Result R GcpError)) → Q (st, o))
      → ((e : GcpError) → Q (next e st))
      → Q (conclude st r next)
  unfolding conclude
  conclude_cases st (ok v) next here later = here (done (ok v))
  conclude_cases st (err e) next here later = elim (Bool-cases (retried e)) [
    | inl p ↦ rw p (on_failure_cases (scrubbed e) st next here later)
    | inr p ↦ rw p (here (done (err e)))
  ]

  proceed_cases :
      (st : State W) (a : Result (Unit {0}) GcpError)
      (next : State W → State W × Outcome (Result R GcpError))
      → ((o : Outcome (Result R GcpError)) → Q (st, o))
      → Q (next st)
      → Q (proceed st a next)
  unfolding proceed
  proceed_cases st (ok u) next here later = later
  proceed_cases st (err e) next here later = here (done (err e))

admit_world :
    {W : Type 0} (now : W → ℕ) (service : Service) (st : State W)
    → (admit now service st).0.1 ≡ st.1
unfolding admit
admit_world now service (c, w) = refl

module _ {W R : Type 0} (now : W → ℕ) (sleep : ℕ → W → W) (op : W → W × Result R GcpError)
    (service : Service) (calls slept : W → ℕ) where
  abbrev Within : ℕ → ℕ → State W × Outcome (Result R GcpError) → Type 0
  Within n t p = (calls p.0.1 ≤ n) × (slept p.0.1 ≤ t)

  pause_bounds :
      ((d : ℕ) (w : W) → (calls (sleep d w) ≡ calls w) × (slept (sleep d w) ≡ slept w + d))
      → (d : ℕ) (st : State W)
      → (calls (pause sleep d st).1 ≡ calls st.1)
        × (slept (pause sleep d st).1 ≤ slept st.1 + (d + 999))
  unfolding pause
  pause_bounds hs d (c, w) =
      let below = jitter_lt c.jitter in
      let (kept, added) = hs (d + (next_jitter c.jitter).1) w in (kept, omega arith)

  ladder_bounds :
      ((w : W) → (calls (op w).0 ≡ calls w + 1) × (slept (op w).0 ≡ slept w))
      → ((d : ℕ) (w : W) → (calls (sleep d w) ≡ calls w) × (slept (sleep d w) ≡ slept w + d))
      → (ds : List ℕ) (st : State W) (n t : ℕ) → calls st.1 + length ds + 1 ≤ n
      → slept st.1 + total ds ≤ t
      → Within n t (ladder now sleep op service ds st)
  unfolding ladder attempt
  ladder_bounds ho hs [] (c, w) n t hn ht =
      let (one, none_slept) = ho w in
      conclude_cases (Within n t) _ _ _ (λ o. (omega arith, omega arith))
        (λ e. (omega arith, omega arith))
  ladder_bounds ho hs (d ∷ ds) (c, w) n t hn ht =
      let (one, none_slept) = ho w in
      let s : State W = (
        record { breaker = note (now (op w).0) (op w).1 c.breaker; jitter = c.jitter },
        (op w).0,
      ) in
      let s' = (admit now service s).0 in
      let same = admit_world now service s in
      let same_calls = ap calls same in
      let same_slept = ap slept same in
      let (kept, added) = pause_bounds hs d s' in
      conclude_cases (Within n t) _ _ _ (λ o. (omega arith, omega arith))
        (λ e.
          proceed_cases (Within n t) _ _ _ (λ o. (omega arith, omega arith))
            (ladder_bounds ho hs ds (pause sleep d s') n t (omega arith) (omega arith)))

  -- With a request that counts one call and no sleeping, and a sleep that counts no call and its
  -- own length, a call of `with_retry` makes at most five requests and sleeps less than 34
  -- seconds in all, whatever the request returns and the state of the breaker.
  pub with_retry_bounds :
      ((w : W) → (calls (op w).0 ≡ calls w + 1) × (slept (op w).0 ≡ slept w))
      → ((d : ℕ) (w : W) → (calls (sleep d w) ≡ calls w) × (slept (sleep d w) ≡ slept w + d))
      → (st : State W)
      → (calls (with_retry now sleep op service st).0.1 ≤ calls st.1 + 5)
        × (slept (with_retry now sleep op service st).0.1 < slept st.1 + 34000)
  unfolding with_retry
  with_retry_bounds ho hs st =
      let s = (admit now service st).0 in
      let same_calls = ap calls (admit_world now service st) in
      let same_slept = ap slept (admit_world now service st) in
      let (c, t) =
        proceed_cases (Within (calls st.1 + 5) (slept st.1 + 33996)) s (admit now service st).1 _
          (λ o. (omega arith, omega arith))
          (ladder_bounds ho hs retry_delays s (calls st.1 + 5) (slept st.1 + 33996) (omega arith)
            (omega arith)) in
      (c, omega arith)
