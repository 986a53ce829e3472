-- ===== src/Alu/Flags.antt =====
-- The condition codes of Processor/funcs.cc: what a register of them holds, and what the tests see.
use ml_rsim.Prelude.{
  ℕ, ◌+◌, ◌-◌, ◌%◌, ◌≤◌, ◌<◌, ◌≡◌, ◌↔◌, refl, arith, Bool, true, false, if◌then◌else◌,
}
use ml_rsim.Alu.{modulus, half, negative, set_if, on, ic_carry, ic_overflow, ic_zero, ic_neg}

-- Each bit reads back as it was set.
pub record Reads (cc : ℕ) (n z v c : Bool) : Type 0 where
  pub neg : on cc ic_neg ≡ n
  pub zero : on cc ic_zero ≡ z
  pub overflow : on cc ic_overflow ≡ v
  pub carry : on cc ic_carry ≡ c

pub packed :
    (n z v c : Bool)
    → Reads
        (set_if c ic_carry (set_if v ic_overflow (set_if z ic_zero (set_if n ic_neg 0))))
        n
        z
        v
        c
packed true true true true = record { neg = refl; zero = refl; overflow = refl; carry = refl }
packed true true true false = record { neg = refl; zero = refl; overflow = refl; carry = refl }
packed true true false true = record { neg = refl; zero = refl; overflow = refl; carry = refl }
packed true true false false = record { neg = refl; zero = refl; overflow = refl; carry = refl }
packed true false true true = record { neg = refl; zero = refl; overflow = refl; carry = refl }
packed true false true false = record { neg = refl; zero = refl; overflow = refl; carry = refl }
packed true false false true = record { neg = refl; zero = refl; overflow = refl; carry = refl }
packed true false false false = record { neg = refl; zero = refl; overflow = refl; carry = refl }
packed false true true true = record { neg = refl; zero = refl; overflow = refl; carry = refl }
packed false true true false = record { neg = refl; zero = refl; overflow = refl; carry = refl }
packed false true false true = record { neg = refl; zero = refl; overflow = refl; carry = refl }
packed false true false false = record { neg = refl; zero = refl; overflow = refl; carry = refl }
packed false false true true = record { neg = refl; zero = refl; overflow = refl; carry = refl }
packed false false true false = record { neg = refl; zero = refl; overflow = refl; carry = refl }
packed false false false true = record { neg = refl; zero = refl; overflow = refl; carry = refl }
packed false false false false = record { neg = refl; zero = refl; overflow = refl; carry = refl }

-- The value of an int, with 2^31 added
abbrev pub biased : ℕ → ℕ
biased x = (x + half) % modulus

pub biased_split : (x : ℕ) → x < modulus → biased x ≡ (if negative x then x - half else x + half)
biased_split x h = ground arith

-- A result that is off by 2^32, above or below
abbrev pub Fits : ℕ → Bool → ℕ → Type 0
Fits low v total = (v ≡ false) ↔ ((low ≤ total) × (total < low + modulus))
