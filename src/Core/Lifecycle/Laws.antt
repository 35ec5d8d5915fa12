-- ===== src/Core/Lifecycle/Laws.antt =====
-- What the lifecycle helpers guarantee over any API, and over a store of one resource.
use pulumi_rs_provider_gcpx.Base.{
  ℕ, zero, suc, ◌+◌, ◌≤◌, ◌≡◌, refl, true, arith, Option, none, some, Text, Result, ok, err,
  map_err,
}
use pulumi_rs_provider_gcpx.Core.Errors.{GcpApiError, internal}
use pulumi_rs_provider_gcpx.Core.Lifecycle.{create_or_adopt, poll_gone, verified_delete}

module _ {E : Type 0} ⦃i : GcpApiError E⦄ {M : Type 0} where
  -- An API over a store of at most one resource: creating one that is there is a conflict, and
  -- patching one that is not there fails.
  abbrev pub create_in : E → M → Option M → Option M × Result M E
  create_in conflict m none = (some m, ok m)
  create_in conflict m (some old) = (some old, err conflict)

  abbrev pub patch_in : E → M → Option M → Option M × Result M E
  patch_in missing m none = (none, err missing)
  patch_in missing m (some old) = (some m, ok m)

  -- Over a store of one resource whose conflict error is recognised as such, create-or-adopt
  -- succeeds and leaves the wanted resource there, whether or not one was there before; so a
  -- second run changes nothing.
  pub create_or_adopt_store :
      (conflict missing : E) (m : M) (context : Text) (s : Option M)
      → i.is_conflict conflict ≡ true
      → (create_or_adopt (create_in conflict m) (patch_in missing m) context s ≡ (some m, ok m))
        × (create_or_adopt
              (create_in conflict m)
              (patch_in missing m)
              context
              (create_or_adopt (create_in conflict m) (patch_in missing m) context s).0
            ≡ (some m, ok m))
  unfolding create_or_adopt
  create_or_adopt_store conflict missing m context none h = (refl, ground arith)
  create_or_adopt_store conflict missing m context (some old) h = (ground arith, ground arith)

module _ {W E T : Type 0} ⦃i : GcpApiError E⦄ where
  poll_gone_ok :
      (poll : W → W × Result T E) (sleep : W → W) (n : ℕ) (w : W)
      → (poll_gone poll sleep n w).1 ≡ ok tt
  unfolding poll_gone
  poll_gone_ok poll sleep zero w = refl
  poll_gone_ok poll sleep (suc n) w = ground (arith, poll_gone_ok poll sleep n (poll (sleep w)).0)

  -- `verified_delete` fails with the error of the delete call, and once that call succeeds it
  -- succeeds whatever the polls answer: also when every poll still finds the resource.
  pub verified_delete_unverified :
      (delete : W → W × Result (Unit {0}) E) (poll : W → W × Result T E) (sleep : W → W) (n : ℕ)
      (w : W)
      → (verified_delete delete poll sleep n w).1
        ≡ map_err (λ e. record { code = internal; message = i.to_string e }) (delete w).1
  unfolding verified_delete
  verified_delete_unverified delete poll sleep n w =
      ground (arith, poll_gone_ok poll sleep n (delete w).0)

  poll_gone_count :
      (poll : W → W × Result T E) (sleep : W → W) (polls : W → ℕ)
      → ((w : W) → polls (poll w).0 ≡ polls w + 1)
      → ((w : W) → polls (sleep w) ≡ polls w)
      → (n : ℕ) (w : W) → polls (poll_gone poll sleep n w).0 ≤ polls w + n
  unfolding poll_gone
  poll_gone_count poll sleep polls hp hs zero w = omega arith
  poll_gone_count poll sleep polls hp hs (suc n) w =
      ground
        (arith, hp (sleep w), hs w, poll_gone_count poll sleep polls hp hs n (poll (sleep w)).0)

  -- `verified_delete` polls at most `n` times, its `max_attempts`, counted by any measure of
  -- the world that grows by one with each poll and by nothing with the delete and the sleeps.
  pub verified_delete_count :
      (delete : W → W × Result (Unit {0}) E) (poll : W → W × Result T E) (sleep : W → W)
      (polls : W → ℕ)
      → ((w : W) → polls (poll w).0 ≡ polls w + 1)
      → ((w : W) → polls (sleep w) ≡ polls w)
      → ((w : W) → polls (delete w).0 ≡ polls w)
      → (n : ℕ) (w : W) → polls (verified_delete delete poll sleep n w).0 ≤ polls w + n
  unfolding verified_delete
  verified_delete_count delete poll sleep polls hp hs hd n w =
      ground (arith, hd w, poll_gone_count poll sleep polls hp hs n (delete w).0)
