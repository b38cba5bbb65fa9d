-- ===== src/Common/Bits.antt =====
-- A test on every number below a bound, run by evaluation.
use Prim.Native.Nat.{ℕ, zero, suc, ◌+◌, ◌<◌}
use mathlib.Core.Path.{◌≡◌}
use mathlib.Core.Bool.{Bool, true}
use native.Mathlib.Omega.{arith}
use ovpn2ss.Common.Tests.{if◌then◌else◌}

-- How many numbers below the bound fail the test.
unfoldable pub failures : (ℕ → Bool) → ℕ → ℕ
failures test zero = 0
failures test (suc bound) = failures test bound + (if test bound then 0 else 1)

pub failures_lem :
    (test : ℕ → Bool) (bound i : ℕ) → i < bound → failures test bound ≡ 0 → test i ≡ true
unfolding failures
failures_lem test zero i below none_fails = absurd (omega arith)
failures_lem test (suc bound) i below none_fails = ground (arith, failures_lem test bound i)
