-- ===== src/Alu/Wide.antt =====
-- Processor/funcs.cc: sums and differences of 64 bits by two instructions, of which the second takes
-- the carry of the first.
use ml_rsim.Prelude.{
  ℕ, ◌+◌, ◌*◌, ◌%◌, ◌≡◌, ◌↔◌, ap, ◌∙◌, arith, true, false, leb, ltb, if◌then◌else◌, bit_and-ones,
}
use ml_rsim.Alu.{modulus, Instance, operand, on, ic_carry, fn_addcc, fn_subcc, fn_addc, fn_subc}
use ml_rsim.Alu.Codes.{Words, fns-IsArithmetic, carry_in, carry_bit}

-- The number with these two halves
abbrev pub wide : ℕ → ℕ → ℕ
wide high low = high * modulus + low

abbrev pub square : ℕ
square = 18446744073709551616

-- The second instruction takes the codes of the first.
pub record Follows (high done : Instance) : Type 0 where
  pub icc : high.rscc_xcc ≡ false
  pub chained : high.rsccvali ≡ done.rccvali

carry_on : (x : ℕ) → (on x ic_carry ≡ true) ↔ (x % 2 ≡ 1)
carry_on x = rw (bit_and-ones x 1) (ground arith)

taken_in : (high done : Instance) → Follows high done → carry_in high ≡ done.rccvali % 2
taken_in high done f = rw f.icc (ap (λ (x : ℕ). x % 2) f.chained)

module _ (low high : Instance) (w : Words low) (v : Words high) where
  low_carry :
      (fn_addcc low).rccvali % 2 ≡ (if leb modulus (low.rs1vali + operand low) then 1 else 0)
  low_carry =
      let s = (fns-IsArithmetic low w).add.carries in
      let t = carry_on (fn_addcc low).rccvali in ground (arith, s, t)

  low_borrow : (fn_subcc low).rccvali % 2 ≡ (if ltb low.rs1vali (operand low) then 1 else 0)
  low_borrow =
      let s = (fns-IsArithmetic low w).subtract.borrows in
      let t = carry_on (fn_subcc low).rccvali in ground (arith, s, t)

  add_wide :
      Follows high (fn_addcc low)
      → wide (fn_addc high).rdvali (fn_addcc low).rdvali
        ≡ (wide high.rs1vali low.rs1vali + wide (operand high) (operand low)) % square
  unfolding fn_addc
  add_wide f =
      let s = (fns-IsArithmetic low w).add.value in
      let c = taken_in high (fn_addcc low) f ∙ low_carry in
      rw (carry_bit high) (rw (c, s) (ground (arith, w.first, w.second, v.first, v.second)))

  subtract_wide :
      Follows high (fn_subcc low)
      → (wide (fn_subc high).rdvali (fn_subcc low).rdvali + wide (operand high) (operand low))
          % square
        ≡ wide high.rs1vali low.rs1vali
  unfolding fn_subc fn_subcc
  subtract_wide f =
      let c = taken_in high (fn_subcc low) f ∙ low_borrow in
      rw (carry_bit high) (rw c (ground (arith, w.first, w.second, v.first, v.second)))

-- For operands of 32 bits, fnADDcc of the low halves of two numbers of 64 bits and then fnADDC of the
-- high halves, with the codes of the first, leave the two halves of the sum modulo 2^64, and fnSUBcc
-- and then fnSUBC those of the difference.
pub wide-pairs :
    (low high high' : Instance)
    → Words low
    → Words high
    → Words high'
    → Follows high (fn_addcc low)
    → Follows high' (fn_subcc low)
    → (wide (fn_addc high).rdvali (fn_addcc low).rdvali
        ≡ (wide high.rs1vali low.rs1vali + wide (operand high) (operand low)) % square)
      × ((wide (fn_subc high').rdvali (fn_subcc low).rdvali + wide (operand high') (operand low))
            % square
          ≡ wide high'.rs1vali low.rs1vali)
wide-pairs low high high' w v v' f g = (add_wide low high w v f, subtract_wide low high' w v' g)
