-- ===== src/Common/Wrap.antt =====
-- Where int64 arithmetic is exact.
use Prim.Native.Nat.{ℕ, ◌≤◌}
use mathlib.Core.Path.{◌≡◌}
use native.Mathlib.Omega.{arith}
use autostream_contracts.Common.Int.{
  ℤ, pos, ◌+ℤ◌, ltb_ℤ, ◌≤ℤ◌, ◌-ℤ◌, wrap64, add64, sub64, int_laws, +ℤ_parts,
}

-- A sum that lies in the range of an int64 does not wrap.
pub add64_exact :
    (a : ℤ) (k : ℕ) → pos 0 ≤ℤ a → a ≤ℤ pos 9007199254740991 → k ≤ 2 → add64 a (pos k) ≡ a +ℤ pos k
unfolding add64 wrap64 ltb_ℤ
add64_exact a k low high h = ground (arith, +ℤ_parts a (pos k))

plus_minus : (a : ℤ) (k : ℕ) → (a +ℤ pos k) -ℤ a ≡ pos k
plus_minus a k = omega int_laws

-- The difference of a sum that does not wrap.
pub sub64_exact : (a : ℤ) (k : ℕ) → k ≤ 2 → sub64 (a +ℤ pos k) a ≡ pos k
unfolding sub64 wrap64 ltb_ℤ
sub64_exact a k h = rw (plus_minus a k) (ground arith)
