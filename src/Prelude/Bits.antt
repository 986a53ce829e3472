-- ===== src/Prelude/Bits.antt =====
-- `x & (2^k - 1)` as a remainder, at every width.
use Prim.Native.Nat.{
  ℕ, zero, suc, ◌+◌, ◌-◌, ◌*◌, ◌/◌, ◌%◌, ◌^◌, ◌≤◌, ◌<◌, min, digits, bit_and, bit_and-bitwise,
}
use mathlib.Core.Path.{◌≡◌, sym, ap, ◌∙◌}
use native.Mathlib.Nat.{zero-mod, pow-suc, one-le-pow}
use native.Mathlib.Omega.{arith}

-- One digit more
pub mod_twice : (x m : ℕ) → 0 < m → x % (m * 2) ≡ (x / 2) % m * 2 + x % 2
mod_twice x m p = grind arith

abbrev cut : ℕ → ℕ → ℕ → ℕ
cut = digits (λ b. zero) min

ones_half : (k : ℕ) → ((2 ^ suc k - 1) / 2 ≡ 2 ^ k - 1) × ((2 ^ suc k - 1) % 2 ≡ 1)
ones_half k = omega (arith, pow-suc 2 k, one-le-pow k 2)

cut_ones : (k n x : ℕ) → x ≤ n → cut n x (2 ^ k - 1) ≡ x % 2 ^ k
cut_ones k zero zero h = sym (zero-mod (2 ^ k))
cut_ones k zero (suc x) h = absurd (omega arith)
cut_ones k (suc n) zero h = sym (zero-mod (2 ^ k))
cut_ones zero (suc n) (suc x) h = omega (arith, cut_ones 0 n (suc x / 2) (omega arith))
cut_ones (suc k) (suc n) (suc x) h =
    rw ((ones_half k).0, (ones_half k).1)
      (omega (
        arith,
        ap (λ (m : ℕ). suc x % m) (pow-suc 2 k),
        mod_twice (suc x) (2 ^ k) (one-le-pow k 2 (omega arith)),
        cut_ones k n (suc x / 2) (omega arith),
      ))

pub bit_and-ones : (x k : ℕ) → bit_and x (2 ^ k - 1) ≡ x % 2 ^ k
bit_and-ones x k = bit_and-bitwise x (2 ^ k - 1) ∙ cut_ones k x x (omega arith)
