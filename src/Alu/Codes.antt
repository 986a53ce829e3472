-- ===== src/Alu/Codes.antt =====
-- fnADDcc, fnADDCcc, fnSUBcc and fnSUBCcc of Processor/funcs.cc against the integers.
use ml_rsim.Prelude.{
  ℕ, ◌+◌, ◌%◌, ◌≤◌, ◌<◌, ◌≡◌, ◌↔◌, refl, sym, ap, ◌∙◌, subst, arith, Bool, true, false, not, ◌&&◌,
  ◌||◌, ltb, ◌==◌, bit_and, bit_and-ones, ==_iff,
}
use ml_rsim.Alu.{
  modulus, half, negative, plus, minus, sum_overflow, sum_carry, difference_overflow, Instance,
  operand, cc_of, codes, on, ic_carry, ic_overflow, ic_zero, ic_neg, fn_addcc, fn_addccc, fn_subcc,
  fn_subccc,
}
use ml_rsim.Alu.Flags.{biased, Reads, packed}
use ml_rsim.Alu.Sums

-- Both operands are words.
pub record Words (i : Instance) : Type 0 where
  pub first : i.rs1vali < modulus
  pub second : operand i < modulus

-- The carry that an instruction takes in
abbrev pub carry_in : Instance → ℕ
carry_in i = cc_of i % 2

pub carry_bit : (i : Instance) → bit_and (cc_of i) ic_carry ≡ carry_in i
carry_bit i = bit_and-ones (cc_of i) 1

-- The zero and the negative bit say what they mean of the result.
pub record Tells (i' : Instance) : Type 0 where
  pub zero_bit : (on i'.rccvali ic_zero ≡ true) ↔ (i'.rdvali ≡ 0)
  pub neg_bit : (on i'.rccvali ic_neg ≡ true) ↔ (half ≤ i'.rdvali)

-- The result is the sum of the operands and a carry, the carry bit is set where the sum of the
-- unsigned numbers leaves a word, and the overflow bit where the sum of the signed ones does.
pub record SumOf (c : ℕ) (i i' : Instance) : Type 0 where
  pub value : i'.rdvali ≡ (i.rs1vali + operand i + c) % modulus
  pub carries : (on i'.rccvali ic_carry ≡ true) ↔ (modulus ≤ i.rs1vali + operand i + c)
  pub in_range : (on i'.rccvali ic_overflow ≡ false) ↔ (
      (half ≤ biased i.rs1vali + biased (operand i) + c)
      × (biased i.rs1vali + biased (operand i) + c < half + modulus))
  pub tells : Tells i'

-- The same of the difference of the operands less a borrow
pub record DifferenceOf (c : ℕ) (i i' : Instance) : Type 0 where
  pub value : (i'.rdvali + operand i + c) % modulus ≡ i.rs1vali
  pub borrows : (on i'.rccvali ic_carry ≡ true) ↔ (i.rs1vali < operand i + c)
  pub in_range : (on i'.rccvali ic_overflow ≡ false) ↔ (
      (biased (operand i) + c ≤ biased i.rs1vali + half)
      × (biased i.rs1vali < biased (operand i) + c + half))
  pub tells : Tells i'

is_set : {P : Type 0} {b b' t : Bool} → b ≡ b' → (b' ≡ t) ↔ P → (b ≡ t) ↔ P
is_set {P} {b} {b'} {t} e h = subst (λ (x : Bool). (x ≡ t) ↔ P) (sym e) h

is_negative : (t : ℕ) → (negative t ≡ true) ↔ (half ≤ t)
is_negative t = ground arith

module _ (i' : Instance) (t : ℕ) (v c : Bool) (at : i'.rdvali ≡ t)
    (written : i'.rccvali ≡ codes t v c) where
  reads : Reads i'.rccvali (negative t) (t == 0) v c
  reads =
      subst (λ (x : ℕ). Reads x (negative t) (t == 0) v c) (sym written)
        (packed (negative t) (t == 0) v c)

  tells : Tells i'
  tells = rw at (record {
    zero_bit = is_set reads.zero (==_iff t 0);
    neg_bit = is_set reads.neg (is_negative t);
  })

module _ (i : Instance) (w : Words i) (c : ℕ) (u : c < 2) (i' : Instance) (t : ℕ)
    (at : i'.rdvali ≡ t) where
  sum_of :
      t ≡ plus (plus i.rs1vali (operand i)) c
      → i'.rccvali
        ≡ codes t (sum_overflow i.rs1vali (operand i) t) (sum_carry i.rs1vali (operand i) t)
      → SumOf c i i'
  sum_of e written =
      let a = i.rs1vali in
      let b = operand i in
      let r = reads i' t (sum_overflow a b t) (sum_carry a b t) at written in
      record {
        value = at ∙ e ∙ Sums.sum_value a b c w.first w.second u;
        carries =
            is_set (r.carry ∙ ap (sum_carry a b) e) (Sums.sum_carry_lem a b c w.first w.second u);
        in_range =
            is_set (r.overflow ∙ ap (sum_overflow a b) e)
              (Sums.sum_overflow_lem a b c w.first w.second u);
        tells = tells i' t (sum_overflow a b t) (sum_carry a b t) at written;
      }

  difference_of :
      (borrow : Bool)
      → t ≡ minus (minus i.rs1vali (operand i)) c
      → borrow ≡ (ltb i.rs1vali (operand i) || ((i.rs1vali == operand i) && not (c == 0)))
      → i'.rccvali ≡ codes t (difference_overflow i.rs1vali (operand i) t) borrow
      → DifferenceOf c i i'
  difference_of borrow e f written =
      let a = i.rs1vali in
      let b = operand i in
      let r = reads i' t (difference_overflow a b t) borrow at written in
      record {
        value =
            ap (λ (x : ℕ). (x + b + c) % modulus) (at ∙ e)
            ∙ Sums.difference_value a b c w.first w.second u;
        borrows = is_set (r.carry ∙ f) (Sums.difference_carry_lem a b c w.first w.second u);
        in_range =
            is_set (r.overflow ∙ ap (difference_overflow a b) e)
              (Sums.difference_overflow_lem a b c w.first w.second u);
        tells = tells i' t (difference_overflow a b t) borrow at written;
      }

-- The four instructions with condition codes
pub record IsArithmetic (i : Instance) : Type 0 where
  pub add : SumOf 0 i (fn_addcc i)
  pub add_carry : SumOf (carry_in i) i (fn_addccc i)
  pub subtract : DifferenceOf 0 i (fn_subcc i)
  pub subtract_borrow : DifferenceOf (carry_in i) i (fn_subccc i)

-- For operands of 32 bits, fnADDcc and fnADDCcc leave the sum of the operands, and of the carry bit
-- that they take in, modulo 2^32, fnSUBcc and fnSUBCcc the difference. Of that number the zero bit
-- tells that it is 0 and the negative bit that its highest bit is set. The carry bit is set exactly
-- where the sum of the unsigned operands needs more than 32 bits, or the difference is below 0, and
-- the overflow bit exactly where the sum or the difference of the signed ones has no signed 32 bits.
pub fns-IsArithmetic : (i : Instance) → Words i → IsArithmetic i
unfolding fn_addcc fn_addccc fn_subcc fn_subccc
fns-IsArithmetic i w =
    let u : carry_in i < 2 = omega arith in
    let bit = carry_bit i in
    record {
      add = sum_of i w 0 (omega arith) (fn_addcc i) _ refl (omega arith) refl;
      add_carry =
          sum_of i w (carry_in i) u (fn_addccc i) _ refl
            (ap (plus (plus i.rs1vali (operand i))) bit) refl;
      subtract =
          difference_of i w 0 (omega arith) (fn_subcc i) _ refl _ (omega arith) (ground arith) refl;
      subtract_borrow =
          difference_of i w (carry_in i) u (fn_subccc i) _ refl _
            (ap (minus (minus i.rs1vali (operand i))) bit)
            (ap (λ (c : ℕ). ltb i.rs1vali (operand i) || ((i.rs1vali == operand i) && not (c == 0)))
              bit)
            refl;
    }
