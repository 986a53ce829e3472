-- ===== src/Alu.antt =====
-- Processor/funcs.cc, the instructions on integers. An int is its bit pattern, a number below 2^32.
pub mod Flags
pub mod Sums
pub mod Logic
pub mod Branch
pub mod Shift
pub mod Divide
pub mod Codes
pub mod Wide
pub mod Compare
pub mod Ones
pub mod Undefined
mod Tests
use ml_rsim.Prelude.{
  ℕ, zero, suc, ◌+◌, ◌-◌, ◌*◌, ◌/◌, ◌%◌, ◌^◌, Bool, true, false, not, ◌&&◌, ◌||◌, Option, none,
  some, Checked, ok, fatal, ltb, leb, ◌==◌, if◌then◌else◌, bit_and,
}
use Prim.Native.Nat.{bit_or, bit_xor}

abbrev pub modulus : ℕ
modulus = 4294967296

abbrev pub half : ℕ
half = 2147483648

-- `x < 0`
abbrev pub negative : ℕ → Bool
negative x = leb half x

abbrev pub plus : ℕ → ℕ → ℕ
plus a b = (a + b) % modulus

abbrev pub minus : ℕ → ℕ → ℕ
minus a b = (a + modulus - b) % modulus

abbrev pub complement : ℕ → ℕ
complement a = modulus - 1 - a

-- `bp_conds`
pub data Cond : Type 0 where
  nb eb leb_ lb leub csb negb vsb ab neb gb geb gub ccb posb vcb : Cond

-- `fp_conds`
pub data FpCond : Type 0 where
  nf nef lgf ulf lf ugf gf uf af ef uef gef ugef lef ulef of_ : FpCond

pub data Exception : Type 0 where
  ok_ div0 : Exception
  systrap : ℕ → Exception

-- What is read and written here and by the branch predictor of an instance and its decoded
-- instruction; `never` is `code.aux1 == 0`, and `hint` is `code.taken`.
pub record Instance : Type 0 where
  pub pc : ℕ
  pub newpc : ℕ
  pub rs1vali : ℕ
  pub rs2vali : ℕ
  pub rsccvali : ℕ
  pub rdvali : ℕ
  pub rccvali : ℕ
  pub imm : ℕ
  pub immediate : Bool
  pub rs1_xcc : Bool
  pub rscc_xcc : Bool
  pub on_fcc : Bool
  pub cond : Cond
  pub fcond : FpCond
  pub rcond : ℕ
  pub branch_pred : ℕ
  pub taken : ℕ
  pub mispredicted : Bool
  pub uncond_branch : ℕ
  pub cond_branch : Bool
  pub never : Bool
  pub hint : ℕ
  pub annul : Bool
  pub branchdep : ℕ
  pub exception_code : Exception

-- `inst->code.aux1 ? inst->code.imm : inst->rs2vali`
abbrev pub operand : Instance → ℕ
operand i = if i.immediate then i.imm else i.rs2vali

abbrev pub ic_carry : ℕ
ic_carry = 1

abbrev pub ic_overflow : ℕ
ic_overflow = 2

abbrev pub ic_zero : ℕ
ic_zero = 4

abbrev pub ic_neg : ℕ
ic_neg = 8

-- `xccTOicc(x)`, a shift that keeps the sign
abbrev pub xcc_to_icc : ℕ → ℕ
xcc_to_icc x = if negative x then (x / 65536) + 4294901760 else x / 65536

abbrev pub cc_of : Instance → ℕ
cc_of i = if i.rscc_xcc then xcc_to_icc i.rsccvali else i.rsccvali

-- The same of the first source register, where a branch finds its condition codes
abbrev pub cc_of_rs1 : Instance → ℕ
cc_of_rs1 i = if i.rs1_xcc then xcc_to_icc i.rs1vali else i.rs1vali

abbrev pub set_if : Bool → ℕ → ℕ → ℕ
set_if b bit r = if b then bit_or r bit else r

-- The bits that the instructions with condition codes write, in the order of the code
abbrev pub codes : ℕ → Bool → Bool → ℕ
codes tmp overflow carry =
    set_if carry ic_carry
      (set_if overflow ic_overflow (set_if (tmp == 0) ic_zero (set_if (negative tmp) ic_neg 0)))

unfoldable pub fn_add : Instance → Instance
fn_add i = record i { rdvali = plus i.rs1vali (operand i) }

unfoldable pub fn_sub : Instance → Instance
fn_sub i = record i { rdvali = minus i.rs1vali (operand i) }

unfoldable pub fn_addc : Instance → Instance
fn_addc i = record i { rdvali = plus (plus i.rs1vali (operand i)) (bit_and (cc_of i) ic_carry) }

unfoldable pub fn_subc : Instance → Instance
fn_subc i = record i { rdvali = minus (minus i.rs1vali (operand i)) (bit_and (cc_of i) ic_carry) }

-- The overflow and the carry of a sum
abbrev pub sum_overflow : ℕ → ℕ → ℕ → Bool
sum_overflow v1 v2 tmp =
    (not (negative v1) && not (negative v2) && negative tmp)
    || (negative v1 && negative v2 && not (negative tmp))

abbrev pub sum_carry : ℕ → ℕ → ℕ → Bool
sum_carry v1 v2 tmp =
    (negative v1 && negative v2) || (not (negative tmp) && (negative v1 || negative v2))

abbrev pub difference_overflow : ℕ → ℕ → ℕ → Bool
difference_overflow v1 v2 tmp =
    (not (negative v1) && negative v2 && negative tmp)
    || (negative v1 && not (negative v2) && not (negative tmp))

unfoldable pub fn_addcc : Instance → Instance
fn_addcc i =
    let tmp : ℕ = plus i.rs1vali (operand i) in
    record i {
      rdvali = tmp;
      rccvali =
          codes tmp (sum_overflow i.rs1vali (operand i) tmp) (sum_carry i.rs1vali (operand i) tmp);
    }

unfoldable pub fn_addccc : Instance → Instance
fn_addccc i =
    let tmp : ℕ = plus (plus i.rs1vali (operand i)) (bit_and (cc_of i) ic_carry) in
    record i {
      rdvali = tmp;
      rccvali =
          codes tmp (sum_overflow i.rs1vali (operand i) tmp) (sum_carry i.rs1vali (operand i) tmp);
    }

unfoldable pub fn_subcc : Instance → Instance
fn_subcc i =
    let tmp : ℕ = minus i.rs1vali (operand i) in
    record i {
      rdvali = tmp;
      rccvali =
          codes tmp (difference_overflow i.rs1vali (operand i) tmp) (ltb i.rs1vali (operand i));
    }

unfoldable pub fn_subccc : Instance → Instance
fn_subccc i =
    let bit : ℕ = bit_and (cc_of i) ic_carry in
    let tmp : ℕ = minus (minus i.rs1vali (operand i)) bit in
    record i {
      rdvali = tmp;
      rccvali =
          codes tmp (difference_overflow i.rs1vali (operand i) tmp)
            (ltb i.rs1vali (operand i) || ((i.rs1vali == operand i) && not (bit == 0)));
    }

-- The tests of the bits, and `Xor`
abbrev pub on : ℕ → ℕ → Bool
on v1 bit = not (bit_and v1 bit == 0)

abbrev pub xor : Bool → Bool → Bool
xor a b = (a || b) && not (a && b)

-- The switch on a condition that fnBPcc, fnTcc and fnMOVcc have
unfoldable pub holds : Cond → ℕ → Bool
holds ab v1 = true
holds nb v1 = false
holds eb v1 = on v1 ic_zero
holds neb v1 = not (on v1 ic_zero)
holds gb v1 = not (on v1 ic_zero || xor (on v1 ic_neg) (on v1 ic_overflow))
holds leb_ v1 = on v1 ic_zero || xor (on v1 ic_neg) (on v1 ic_overflow)
holds geb v1 = not (xor (on v1 ic_neg) (on v1 ic_overflow))
holds lb v1 = xor (on v1 ic_neg) (on v1 ic_overflow)
holds gub v1 = not (on v1 ic_carry || on v1 ic_zero)
holds leub v1 = on v1 ic_carry || on v1 ic_zero
holds ccb v1 = not (on v1 ic_carry)
holds csb v1 = on v1 ic_carry
holds posb v1 = not (on v1 ic_neg)
holds negb v1 = on v1 ic_neg
holds vcb v1 = not (on v1 ic_overflow)
holds vsb v1 = on v1 ic_overflow
