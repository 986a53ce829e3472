-- ===== src/Prelude/Int.antt =====
-- The integers that an `int` of the code may be, and C's remainder.
use Prim.Native.Nat.{ℕ, zero, suc, ◌%◌}

-- `negsuc n` is -(n + 1).
pub data ℤ : Type 0 where
  pos : ℕ → ℤ
  negsuc : ℕ → ℤ

abbrev pub neg : ℕ → ℤ
neg zero = pos 0
neg (suc n) = negsuc n

-- The remainder has the sign of the number that is divided.
abbrev pub rem : ℤ → ℕ → ℤ
rem (pos n) k = pos (n % k)
rem (negsuc n) k = neg (suc n % k)
