-- ===== src/Alu/Divide.antt =====
-- Processor/funcs.cc, multiplication and division of unsigned numbers, and the count of ones.
use ml_rsim.Prelude.{
  ℕ, zero, suc, ◌+◌, ◌-◌, ◌*◌, ◌/◌, ◌%◌, Bool, List, [], ◌∷◌, Checked, ok, fatal, deref, ◌>>=◌, ltb,
  ◌==◌, if◌then◌else◌, bit_and, get_elem?,
}
use Prim.Native.Nat.{bit_or}
use ml_rsim.Alu.{modulus, negative, Instance, operand, div0, ic_overflow, ic_zero, ic_neg}

unfoldable pub fn_mulx : Instance → Instance
fn_mulx i = record i { rdvali = i.rs1vali * operand i % modulus }

unfoldable pub fn_umul : Instance → Instance
fn_umul i =
    let destval = i.rs1vali * operand i in
    record i { rdvali = destval % modulus; rccvali = destval / modulus }

unfoldable pub fn_udivx : Instance → Instance
fn_udivx i =
    if operand i == 0
    then record i { exception_code = div0 }
    else record i { rdvali = i.rs1vali / operand i }

-- `inst->rccvali |= iccZERO` and its like: the macro stands for `(v1 & icZERO)`, with `v1` the dividend
abbrev pub set_from : Bool → ℕ → ℕ → ℕ → ℕ
set_from b v1 bit r = if b then bit_or r (bit_and v1 bit) else r

abbrev pub dividend : Instance → ℕ
dividend i = i.rsccvali * modulus + i.rs1vali

unfoldable pub fn_udiv : Bool → Instance → Instance
fn_udiv cc i =
    let v1 = dividend i in
    let quot = v1 / operand i in
    let large = ltb (modulus - 1) quot in
    let rd = if large then modulus - 1 else quot in
    let codes =
      set_from (negative rd) v1 ic_neg
        (set_from (rd == 0) v1 ic_zero (set_from large v1 ic_overflow 0)) in
    if operand i == 0
    then record i { rccvali = if cc then 0 else i.rccvali; exception_code = div0 }
    else record i { rdvali = rd; rccvali = if cc then codes else i.rccvali }

abbrev pub popc_arr : List ℕ
popc_arr = 0 ∷ 1 ∷ 1 ∷ 2 ∷ 1 ∷ 2 ∷ 2 ∷ 3 ∷ 1 ∷ 2 ∷ 2 ∷ 3 ∷ 2 ∷ 3 ∷ 3 ∷ 4 ∷ []

unfoldable pub popc_loop : ℕ → ℕ → ℕ → Checked ℕ
popc_loop zero v1 out = fatal
popc_loop (suc fuel) v1 out =
    let next : Checked ℕ =
      (deref (get_elem? popc_arr (bit_and v1 15)) >>= λ n. popc_loop fuel (v1 / 16) (out + n)) in
    if v1 == 0 then ok out else next

unfoldable pub fn_popc : Instance → Checked Instance
fn_popc i = popc_loop 9 (if i.immediate then i.imm else i.rs1vali) 0 >>= λ out.
    ok (record i { rdvali = out })
