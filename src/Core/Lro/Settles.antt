-- ===== src/Core/Lro/Settles.antt =====
-- The polling loop ends, and what it returns as a success is a finished operation.
use pulumi_rs_provider_gcpx.Base.{
  ℕ, zero, suc, ◌+◌, ◌-◌, ◌*◌, ◌≤◌, ◌≡◌, ◌≢◌, refl, ◌∷◌, ◌++◌, codes, decimal_int, true, arith,
  Bool-cases, inl, inr, min, Option, none, some, Text, le→leb, Result, ok, err, Outcome, done,
  stuck, leb,
}
use pulumi_rs_provider_gcpx.Core.Errors.{GcpError}
use pulumi_rs_provider_gcpx.Core.Redact.Bounds.{redact-ne-stuck}
use pulumi_rs_provider_gcpx.Core.Lro.{
  Operation, OperationError, PollConfig, finish, finish_error, after_fetch, poll_loop,
  poll_operation,
}

finish-ne-stuck : {V : Type 0} (op : Operation V) → finish op ≢ stuck
unfolding finish
finish-ne-stuck op = error (op.error)
  where
    error : (e : Option OperationError) → finish_error op e ≢ stuck
    error none h = cc
    error (some e) h =
        ground (arith, redact-ne-stuck (b'[' ∷ (decimal_int e.code ++ (codes "] " ++ e.message))))

finish_error_done :
    {V : Type 0} (op op' : Operation V) (e : Option OperationError)
    → finish_error op e ≡ done (ok op')
    → (op' ≡ op) × (e ≡ none)
unfolding finish_error
finish_error_done op op' none h = (cc, refl)
finish_error_done op op' (some e) h = ground arith

after_fetch-ne-stuck :
    {W V : Type 0} (w : W) (again : W × Outcome (Result (Operation V) GcpError))
    (r : Result (Operation V) GcpError)
    → again.1 ≢ stuck
    → (after_fetch w again r).1 ≢ stuck
unfolding after_fetch
after_fetch-ne-stuck w again (err e) h = λ e. cc
after_fetch-ne-stuck w again (ok op) h = ground (arith, finish-ne-stuck op)

-- A returned success is finished, if the next round's is.
abbrev Settled : {V : Type 0} → Outcome (Result (Operation V) GcpError) → Type 0
Settled {V} o = (op : Operation V) → o ≡ done (ok op) → (op.is_done ≡ true) × (op.error ≡ none)

finish-Settled : {V : Type 0} (op : Operation V) → op.is_done ≡ true → Settled (finish op)
unfolding finish
finish-Settled op d op' h =
    let (same, fine) = finish_error_done op op' op.error h in ground (arith, same, fine)

after_fetch-Settled :
    {W V : Type 0} (w : W) (again : W × Outcome (Result (Operation V) GcpError))
    (r : Result (Operation V) GcpError)
    → Settled again.1
    → Settled (after_fetch w again r).1
unfolding after_fetch
after_fetch-Settled w again (err e) h = λ op p. cc
after_fetch-Settled w again (ok op) h = elim (Bool-cases op.is_done) [
  | inl d ↦ simp d (finish-Settled op d)
  | inr d ↦ simp d h
]

module _ {W V : Type 0} (now : W → ℕ) (sleep : ℕ → W → W)
    (fetch : W → W × Result (Operation V) GcpError) (config : PollConfig) where
  -- The time left to the deadline falls by at least `lo` in a round.
  poll_loop-ne-stuck :
      ((d : ℕ) (w : W) → now w + d ≤ now (fetch (sleep d w)).0)
      → (lo : ℕ) → lo ≤ config.max_interval
      → (fuel : ℕ) (name : Text) (started interval : ℕ) (w : W) → lo ≤ interval
      → started ≤ now w
      → config.deadline ≤ (now w - started) + fuel * lo
      → (poll_loop now sleep fetch config (suc fuel) name started interval w).1 ≢ stuck
  unfolding poll_loop
  poll_loop-ne-stuck law lo top zero name started interval w l s h =
      rw (le→leb config.deadline (now w - started) (omega arith)) (λ e. cc)
  poll_loop-ne-stuck law lo top (suc f) name started interval w l s h =
      let w' = (fetch (sleep interval w)).0 in
      let next = min (interval * 2) config.max_interval in
      let later = law interval w in
      elim (Bool-cases (leb config.deadline (now w - started))) [
        | inl late ↦ rw late (λ e. cc)
        | inr early ↦ rw early (
            after_fetch-ne-stuck w' (poll_loop now sleep fetch config (suc f) name started next w')
              (fetch (sleep interval w)).1
              (poll_loop-ne-stuck law lo top f name started next w' (omega arith) (omega arith)
                (omega arith)))
      ]

  poll_loop-Settled :
      (fuel : ℕ) (name : Text) (started interval : ℕ) (w : W)
      → Settled (poll_loop now sleep fetch config fuel name started interval w).1
  unfolding poll_loop
  poll_loop-Settled zero name started interval w = λ op h. cc
  poll_loop-Settled (suc f) name started interval w =
      let w' = (fetch (sleep interval w)).0 in
      let next = min (interval * 2) config.max_interval in
      elim (Bool-cases (leb config.deadline (now w - started))) [
        | inl late ↦ rw late (λ op h. cc)
        | inr early ↦ rw early (
            after_fetch-Settled w' (poll_loop now sleep fetch config f name started next w')
              (fetch (sleep interval w)).1 (poll_loop-Settled f name started next w'))
      ]

  -- Where a sleep of `d` and the fetch behind it move the clock by at least `d`, polling ends:
  -- `fuel` + 1 rounds are enough once `fuel` times the smaller of the two intervals reaches the
  -- deadline.
  pub poll_operation-ne-stuck :
      ((d : ℕ) (w : W) → now w + d ≤ now (fetch (sleep d w)).0)
      → (fuel : ℕ) (initial : Operation V) (w : W)
      → config.deadline ≤ fuel * min config.initial_interval config.max_interval
      → (poll_operation now sleep fetch config (suc fuel) initial w).1 ≢ stuck
  unfolding poll_operation
  poll_operation-ne-stuck law fuel initial w h = elim (Bool-cases initial.is_done) [
    | inl d ↦ simp d (finish-ne-stuck initial)
    | inr d ↦ simp d (
        poll_loop-ne-stuck law (min config.initial_interval config.max_interval) (omega arith) fuel
          initial.name (now w) config.initial_interval w (omega arith) (omega arith) (omega arith))
  ]

  -- What polling returns as a success is an operation that is done and carries no error, with
  -- any fuel and whatever the API answers.
  pub poll_operation_settled :
      (fuel : ℕ) (initial op : Operation V) (w : W)
      → (poll_operation now sleep fetch config fuel initial w).1 ≡ done (ok op)
      → (op.is_done ≡ true) × (op.error ≡ none)
  unfolding poll_operation
  poll_operation_settled fuel initial op w h = elim (Bool-cases initial.is_done) [
    | inl d ↦ finish-Settled initial d op (simp d at h)
    | inr d ↦ poll_loop-Settled fuel initial.name (now w) config.initial_interval w op (simp d at h)
  ]
