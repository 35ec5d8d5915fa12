-- ===== src/Base/Decimal.antt =====
-- Numbers as `{}` prints them.
use Prim.Native.Nat.{ℕ, zero, suc, ◌+◌, ◌/◌, ◌%◌}
use mathlib.Core.List.{[], ◌∷◌}
use pulumi_rs_provider_gcpx.Base.Tests.{ltb, if◌then◌else◌}
use pulumi_rs_provider_gcpx.Base.Texts.{Text}
use pulumi_rs_provider_gcpx.Base.Equality.{ℤ, pos, negsuc}

-- The fuel is the number itself plus one, which is more than its digits.
decimal_from : ℕ → ℕ → Text → Text
decimal_from zero n out = out
decimal_from (suc fuel) n out =
    let digit = (b'0' + n % 10) ∷ out in
    let rest = decimal_from fuel (n / 10) digit in if ltb n 10 then digit else rest

unfoldable pub decimal : ℕ → Text
unfolding decimal_from
decimal n = decimal_from (suc n) n []

unfoldable pub decimal_int : ℤ → Text
unfolding decimal
decimal_int (pos n) = decimal n
decimal_int (negsuc n) = b'-' ∷ decimal (suc n)
