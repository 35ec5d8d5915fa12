-- ===== src/Core/Lifecycle.antt =====
-- crates/gcpx-core/src/lifecycle.rs: create-or-adopt and verified delete. A future that the
-- caller hands over is a function on the outside world `W`, and so is a sleep.
pub mod Laws
use pulumi_rs_provider_gcpx.Base.{
  ℕ, zero, suc, Bool, true, false, List, [], ◌∷◌, ◌++◌, if◌then◌else◌, Text, codes, Result, ok, err,
}
use pulumi_rs_provider_gcpx.Core.Errors.{GcpApiError, Status, internal}

module _ {W E : Type 0} ⦃i : GcpApiError E⦄ where
  after_create : {M : Type 0} → (W → W × Result M E) → Text → W → Result M E → W × Result M Status
  after_create adopt context w (ok m) = (w, ok m)
  after_create adopt context w (err e) =
      if i.is_conflict e
      then (let (w', r) = adopt w in
          (
            w',
            elim r [
              | ok m ↦ ok m
              | err e' ↦ err (record {
                code = internal;
                message =
                    codes "409 auto-adopt " ++ (context ++ (codes " failed: " ++ i.to_string e'));
              })
            ],
          ))
      else (
        w,
        err (record {
          code = internal;
          message = codes "failed to create " ++ (context ++ (codes ": " ++ i.to_string e));
        }),
      )

  unfoldable pub create_or_adopt :
      {M : Type 0} → (W → W × Result M E) → (W → W × Result M E) → Text → W → W × Result M Status
  unfolding after_create
  create_or_adopt create adopt context w = let (w', r) = create w in after_create adopt context w' r

  -- The `for` loop over the attempts that are left.
  poll_gone : {T : Type 0} → (W → W × Result T E) → (W → W) → ℕ → W → W × Result (Unit {0}) Status
  poll_gone poll sleep zero w = (w, ok tt)
  poll_gone poll sleep (suc n) w =
      let (w', r) = poll (sleep w) in
      let rest = poll_gone poll sleep n w' in
      elim r [ ok t ↦ rest | err e ↦ if i.is_not_found e then (w', ok tt) else rest ]

  unfoldable pub verified_delete :
      {T : Type 0}
      → (W → W × Result (Unit {0}) E)
      → (W → W × Result T E)
      → (W → W)
      → ℕ
      → W
      → W × Result (Unit {0}) Status
  unfolding poll_gone
  verified_delete delete poll sleep max_attempts w =
      let (w', r) = delete w in
      elim r [
        | ok u ↦ poll_gone poll sleep max_attempts w'
        | err e ↦ (w', err (record { code = internal; message = i.to_string e }))
      ]
