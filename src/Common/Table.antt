-- ===== src/Common/Table.antt =====
-- Over a small range, every value is checked by evaluation.
use Prim.Native.Nat.{ℕ, zero, suc, ◌<◌}
use mathlib.Core.Path.{◌≡◌}
use mathlib.Core.Bool.{Bool, true, ◌&&◌}
use native.Mathlib.Omega.{arith}

unfoldable pub all_below : ℕ → (ℕ → Bool) → Bool
all_below zero test = true
all_below (suc bound) test = test bound && all_below bound test

pub all_below_sound :
    (bound value : ℕ) (test : ℕ → Bool)
    → all_below bound test ≡ true
    → value < bound
    → test value ≡ true
unfolding all_below
all_below_sound zero value test checked inside = absurd (omega arith)
all_below_sound (suc bound) value test checked inside =
    ground (arith, all_below_sound bound value test)
