-- ===== src/CircQueue/Power.antt =====
-- `ToPowerOf2` of sim_main/util.h.
use ml_rsim.Prelude.{
  ℕ, zero, suc, ◌+◌, ◌-◌, ◌*◌, ◌/◌, ◌^◌, ◌≤◌, ◌<◌, ◌≡◌, ap, ◌∙◌, inl, inr, arith, ◌==◌, ==_iff,
  Bool-cases, ne_zero,
}
use native.Mathlib.Nat.{zero-add, pow-suc}
use ml_rsim.CircQueue.{count_bits, to_power_of_2}

-- The place of the highest bit
record HighBit (n t r : ℕ) : Type 0 where
  bit : ℕ
  at : r ≡ t + bit
  low : 2 ^ bit ≤ n
  high : n < 2 ^ suc bit

count_bits-HighBit : (fuel n t : ℕ) → 0 < n → n < 2 ^ suc fuel → HighBit n t (count_bits fuel n t)
unfolding count_bits
count_bits-HighBit zero n t p h = record { bit = 0; at = omega arith; low = omega arith; high = h }
count_bits-HighBit (suc fuel) n t p h = elim (Bool-cases (n / 2 == 0)) [
  | inl last ↦ record {
    bit = 0;
    at = rw last (omega arith);
    low = p;
    high = omega (arith, (==_iff (n / 2) 0).0 last);
  }
  | inr more ↦
      let rest =
        count_bits-HighBit fuel (n / 2) (t + 1) (ground (arith, more))
          (omega (arith, pow-suc 2 (suc fuel))) in
      record {
        bit = suc rest.bit;
        at = rw more (omega (arith, rest.at));
        low = omega (arith, rest.low, pow-suc 2 rest.bit);
        high = omega (arith, rest.high, pow-suc 2 (suc rest.bit));
      }
]

pub record PowerAbove (n r : ℕ) : Type 0 where
  pub bit : ℕ
  pub at : r ≡ 2 ^ bit
  pub above : n ≤ r
  pub below : r < 2 * n

-- `ToPowerOf2` of a positive number is the least power of two that is not below it, for an `n` that fits twice into an `int`.
pub to_power_of_2-PowerAbove : (n : ℕ) → 0 < n → n ≤ 2 ^ 30 → PowerAbove n (to_power_of_2 n)
unfolding to_power_of_2
to_power_of_2-PowerAbove n p h =
    let b = count_bits-HighBit 31 (n + (n - 1)) 0 (omega arith) (omega arith) in
    let e : to_power_of_2 n ≡ 2 ^ b.bit =
      rw (ne_zero n p) (ap (λ k. 2 ^ k) (b.at ∙ zero-add b.bit)) in
    record {
      bit = b.bit;
      at = e;
      above = omega (arith, e, b.high, pow-suc 2 b.bit);
      below = omega (arith, e, b.low);
    }
