-- ===== src/Core/Lro.antt =====
-- crates/gcpx-core/src/lro.rs: polling a long-running operation until it settles or a deadline
-- passes. Times are in milliseconds. `now`, `sleep` and `fetch` act on the outside world `W`;
-- the clock is read once where the code reads it twice in a row.
pub mod Settles
use pulumi_rs_provider_gcpx.Base.{
  ℕ, zero, suc, ◌+◌, ◌-◌, ◌*◌, ◌/◌, Bool, true, false, List, [], ◌∷◌, ◌++◌, leb, min, is_empty,
  if◌then◌else◌, Option, none, some, Text, codes, Result, ok, err, Outcome, done, panicked, stuck,
  and_then, ℤ, decimal_int,
}
use pulumi_rs_provider_gcpx.Core.Errors.{GcpError, operation_timeout, operation_failed}
use pulumi_rs_provider_gcpx.Core.Redact.{redact}

pub record OperationError : Type 0 where
  pub code : ℤ
  pub message : Text

-- `V` is `serde_json::Value`.
pub record Operation (V : Type 0) : Type 0 where
  pub name : Text
  pub is_done : Bool
  pub error : Option OperationError
  pub response : Option V
  pub metadata : Option V

pub record PollConfig : Type 0 where
  pub initial_interval : ℕ
  pub max_interval : ℕ
  pub deadline : ℕ

unfoldable pub default_config : PollConfig
default_config = record { initial_interval = 500; max_interval = 10000; deadline = 600000 }

unfoldable pub quick : PollConfig
quick = record { initial_interval = 250; max_interval = 2000; deadline = 120000 }

unfoldable pub slow : PollConfig
slow = record { initial_interval = 2000; max_interval = 30000; deadline = 1800000 }

pub finish_error :
    {V : Type 0} → Operation V → Option OperationError → Outcome (Result (Operation V) GcpError)
finish_error op none = done (ok op)
finish_error op (some e) =
    and_then (redact (b'[' ∷ (decimal_int e.code ++ (codes "] " ++ e.message))))
      (λ m. done (err (operation_failed m)))

unfoldable pub finish : {V : Type 0} → Operation V → Outcome (Result (Operation V) GcpError)
unfolding finish_error
finish op = finish_error op op.error

-- The rest of a round, on what `fetch` returned; `again` is the next round.
pub after_fetch :
    {W V : Type 0}
    → W
    → W × Outcome (Result (Operation V) GcpError)
    → Result (Operation V) GcpError
    → W × Outcome (Result (Operation V) GcpError)
after_fetch w again (err e) = (w, done (err e))
after_fetch w again (ok op) = if op.is_done then (w, finish op) else again

module _ {W V : Type 0} (now : W → ℕ) (sleep : ℕ → W → W)
    (fetch : W → W × Result (Operation V) GcpError) (config : PollConfig) where
  unfoldable pub poll_loop : ℕ → Text → ℕ → ℕ → W → W × Outcome (Result (Operation V) GcpError)
  poll_loop zero name started interval w = (w, stuck)
  poll_loop (suc fuel) name started interval w =
      let waited = now w - started in
      let (w', r) = fetch (sleep interval w) in
      let again = poll_loop fuel name started (min (interval * 2) config.max_interval) w' in
      if leb config.deadline waited
      then (
        w,
        done (
            err (
              operation_timeout (if is_empty name then codes "pending" else name) (waited / 1000))),
      )
      else after_fetch w' again r

  unfoldable pub poll_operation : ℕ → Operation V → W → W × Outcome (Result (Operation V) GcpError)
  unfolding poll_loop after_fetch
  poll_operation fuel initial w =
      if initial.is_done
      then (w, finish initial)
      else poll_loop fuel initial.name (now w) config.initial_interval w
