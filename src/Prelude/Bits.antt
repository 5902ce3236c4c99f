-- ===== src/Prelude/Bits.antt =====
-- Masks, shifts and unions of bits on one byte, each law a table checked by evaluation.
use Prim.Native.Nat.{ℕ, zero, suc, ◌*◌, ◌/◌, ◌%◌, ◌^◌, ◌<◌, bit_and}
use mathlib.Core.Path.{◌≡◌}
use mathlib.Core.Bool.{Bool, true, false}
use native.Mathlib.Omega.{arith}
use moergo_rmk.Prelude.Tests.{◌==◌, if◌then◌else◌}

-- A test that passes at every number under a bound.
unfoldable pub every_under : ℕ → (ℕ → Bool) → Bool
every_under zero test = true
every_under (suc k) test = if test k then every_under k test else false

pub every_under_lem :
    (bound : ℕ) (test : ℕ → Bool) (i : ℕ)
    → every_under bound test ≡ true
    → i < bound
    → test i ≡ true
unfolding every_under
every_under_lem zero test i passed below = absurd (omega arith)
every_under_lem (suc k) test i passed below = ground (arith, every_under_lem k test i)

-- `x << k` on a byte, and `x >> k`.
abbrev pub shl8 : ℕ → ℕ → ℕ
shl8 x k = x * 2 ^ k % 256

abbrev pub shr : ℕ → ℕ → ℕ
shr x k = x / 2 ^ k

-- `x & mask != 0`
abbrev pub has_bit : ℕ → ℕ → Bool
has_bit x mask = if bit_and x mask == 0 then false else true
