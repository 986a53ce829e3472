-- ===== src/Alu/Sums.antt =====
-- The carry and the overflow of sums and differences, in Processor/funcs.cc.
use ml_rsim.Prelude.{
  ℕ, ◌+◌, ◌%◌, ◌≤◌, ◌<◌, ◌≡◌, ◌↔◌, arith, true, false, not, ◌&&◌, ◌||◌, ltb, ◌==◌,
}
use ml_rsim.Alu.{modulus, half, plus, minus, sum_overflow, sum_carry, difference_overflow}
use ml_rsim.Alu.Flags.{biased}

module _ (a b c : ℕ) (p : a < modulus) (q : b < modulus) (u : c < 2) where
  abbrev pub sum : ℕ
  sum = plus (plus a b) c

  pub sum_value : sum ≡ (a + b + c) % modulus
  sum_value = omega (arith, p, q, u)

  pub sum_carry_lem : (sum_carry a b sum ≡ true) ↔ (modulus ≤ a + b + c)
  sum_carry_lem = ground (arith, p, q, u)

  pub sum_overflow_lem :
      (sum_overflow a b sum ≡ false)
      ↔ ((half ≤ biased a + biased b + c) × (biased a + biased b + c < half + modulus))
  sum_overflow_lem = ground (arith, p, q, u)

  abbrev pub difference : ℕ
  difference = minus (minus a b) c

  pub difference_value : (difference + b + c) % modulus ≡ a
  difference_value = omega (arith, p, q, u)

  pub difference_carry_lem : ((ltb a b || ((a == b) && not (c == 0))) ≡ true) ↔ (a < b + c)
  difference_carry_lem = ground (arith, p, q, u)

  pub difference_overflow_lem :
      (difference_overflow a b difference ≡ false)
      ↔ ((biased b + c ≤ biased a + half) × (biased a < biased b + c + half))
  difference_overflow_lem = ground (arith, p, q, u)
