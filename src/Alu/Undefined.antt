-- ===== src/Alu/Undefined.antt =====
-- Processor/funcs.cc: shifts without a defined result, and the codes of a division.
use ml_rsim.Prelude.{
  ℕ, ◌-◌, ◌/◌, ◌%◌, ◌≤◌, ◌<◌, ◌≡◌, ◌≢◌, ◌↔◌, refl, inl, inr, arith, Bool, true, false, Bool-cases,
  fatal, ltb, ◌==◌, bit_and-ones,
}
use native.Mathlib.Nat.{zero-div}
use ml_rsim.Alu.{modulus, half, negative, Instance, operand, on, ic_zero}
use ml_rsim.Alu.Shift.{fn_sra, fn_sll, fn_srl}
use ml_rsim.Alu.Divide.{fn_udiv, dividend}

-- fnSRA has a result exactly where the first operand is not negative or the count, modulo 32, is not
-- 0: a negative number that is to be shifted by 0 makes it shift -1 by 32.
pub fn_sra-fatal : (i : Instance) → (fn_sra i ≡ fatal) ↔ ((half ≤ i.rs1vali) × (operand i % 32 ≡ 0))
unfolding fn_sra
fn_sra-fatal i =
    let n : ℕ = operand i % 32 in
    let small : ltb n 32 ≡ true = ground arith in
    rw (bit_and-ones (operand i) 5) (
      rw small (elim (Bool-cases (negative i.rs1vali)) [
        | inr e ↦ rw e (λ f. absurd (cc (f)), λ h. absurd (ground (arith, e, h.0)))
        | inl e ↦ rw e (elim (Bool-cases (ltb (32 - n) 32)) [
          | inl f ↦ rw f (λ g. absurd (cc (g)), λ h. absurd (ground (arith, f, h.1)))
          | inr f ↦ rw f (λ g. (ground (arith, e), ground (arith, f)), λ h. refl)
        ])
      ]))

-- fnSLL and fnSRL, which do not take the count modulo 32, have no result from 32 on.
pub shifts-fatal :
    (i : Instance)
    → ((fn_sll i ≡ fatal) ↔ (32 ≤ operand i)) × ((fn_srl i ≡ fatal) ↔ (32 ≤ operand i))
unfolding fn_sll fn_srl
shifts-fatal i = elim (Bool-cases (ltb (operand i) 32)) [
  | inl e ↦ rw e (
    (λ f. absurd (cc (f)), λ h. absurd (ground (arith, e, h))),
    (λ f. absurd (cc (f)), λ h. absurd (ground (arith, e, h))),
  )
  | inr e ↦ rw e ((λ f. ground (arith, e), λ h. refl), (λ f. ground (arith, e), λ h. refl))
]

-- The quotient of 64 bits by a word, held to 32 bits
pub record Quotient (i i' : Instance) : Type 0 where
  pub exact : dividend i / operand i < modulus → i'.rdvali ≡ dividend i / operand i
  pub too_large : modulus ≤ dividend i / operand i → i'.rdvali ≡ modulus - 1
  pub raises : i'.exception_code ≡ i.exception_code

-- fnUDIV by a number that is not 0 gives the quotient of Y and the first operand by it, or the largest
-- word if that is larger, and does not trap.
pub fn_udiv-Quotient : (b : Bool) (i : Instance) → operand i ≢ 0 → Quotient i (fn_udiv b i)
unfolding fn_udiv
fn_udiv-Quotient b i h =
    let e : (operand i == 0) ≡ false = ground (arith, h) in
    rw e
      (record { exact = λ l. ground (arith, l); too_large = λ l. ground (arith, l); raises = refl })

-- The division with condition codes of 0 by a number that is not 0 gives 0, and leaves the zero bit
-- unset: fnUDIV puts into the codes the bits of the dividend.
pub fn_udiv-zero :
    (i : Instance)
    → operand i ≢ 0
    → i.rsccvali ≡ 0
    → i.rs1vali ≡ 0
    → ((fn_udiv true i).rdvali ≡ 0) × (on (fn_udiv true i).rccvali ic_zero ≡ false)
unfolding fn_udiv
fn_udiv-zero i h y d =
    let e : (operand i == 0) ≡ false = ground (arith, h) in
    let v : dividend i ≡ 0 = omega (arith, y, d) in
    let q : 0 / operand i ≡ 0 = zero-div (operand i) in rw e (rw (v, q) (refl, refl))
