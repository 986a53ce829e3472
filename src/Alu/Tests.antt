-- ===== src/Alu/Tests.antt =====
-- Instructions of Processor/funcs.cc at small operands.
use ml_rsim.Prelude.{ℕ, ◌+◌, ◌%◌, ◌≡◌, refl, arith, true, false, ok}
use ml_rsim.Alu.{lb, nf, ok_, Instance, fn_addcc, fn_subcc, fn_addc, fn_subc}
use ml_rsim.Alu.Branch.{fn_bpcc}
use ml_rsim.Alu.Divide.{fn_popc}
use ml_rsim.Alu.Codes.{Words, IsArithmetic, fns-IsArithmetic}
use ml_rsim.Alu.Wide.{wide, square, wide-pairs}
use ml_rsim.Alu.Compare.{Says, Branches, fn_bpcc-subcc}
use ml_rsim.Alu.Ones.{fn_popc-ones}

-- An instruction on two registers
abbrev on_regs : ℕ → ℕ → Instance
on_regs a b = record {
  pc = 4096;
  newpc = 0;
  rs1vali = a;
  rs2vali = b;
  rsccvali = 0;
  rdvali = 0;
  rccvali = 0;
  imm = 4;
  immediate = false;
  rs1_xcc = false;
  rscc_xcc = false;
  on_fcc = false;
  cond = lb;
  fcond = nf;
  rcond = 0;
  branch_pred = 0;
  taken = 0;
  mispredicted = false;
  uncond_branch = 0;
  cond_branch = true;
  never = false;
  hint = 0;
  annul = false;
  branchdep = 0;
  exception_code = ok_;
}

-- -1 and 1
abbrev minus_one : Instance
minus_one = on_regs 4294967295 1

minus_one-Words : Words minus_one
minus_one-Words = record { first = omega arith; second = omega arith }

add_minus_one : (fn_addcc minus_one).rdvali ≡ 0
unfolding fn_addcc
add_minus_one = refl

add_minus_one_codes : (fn_addcc minus_one).rccvali ≡ 5
unfolding fn_addcc
add_minus_one_codes = refl

subtract_minus_one_codes : (fn_subcc minus_one).rccvali ≡ 8
unfolding fn_subcc
subtract_minus_one_codes = refl

fns-IsArithmetic_example : IsArithmetic minus_one
fns-IsArithmetic_example = fns-IsArithmetic minus_one minus_one-Words

-- The high halves, with the codes of the low ones
abbrev after_add : Instance
after_add = record (on_regs 2 3) { rsccvali = (fn_addcc minus_one).rccvali }

abbrev after_subtract : Instance
after_subtract = record (on_regs 2 3) { rsccvali = (fn_subcc minus_one).rccvali }

wide-pairs_example :
    (wide (fn_addc after_add).rdvali (fn_addcc minus_one).rdvali
      ≡ (wide 2 4294967295 + wide 3 1) % square)
    × ((wide (fn_subc after_subtract).rdvali (fn_subcc minus_one).rdvali + wide 3 1) % square
        ≡ wide 2 4294967295)
wide-pairs_example =
    wide-pairs minus_one after_add after_subtract minus_one-Words
      (record { first = omega arith; second = omega arith })
      (record { first = omega arith; second = omega arith }) (record { icc = refl; chained = refl })
      (record { icc = refl; chained = refl })

-- A branch if less, on the codes of the comparison
abbrev branch_less : Instance
branch_less = record (on_regs 0 0) { rs1vali = (fn_subcc minus_one).rccvali }

fn_bpcc-subcc_example : Branches branch_less (Says 4294967295 1 lb) (fn_bpcc branch_less)
fn_bpcc-subcc_example = fn_bpcc-subcc minus_one branch_less minus_one-Words refl refl

fn_popc-ones_example : fn_popc (on_regs 255 0) ≡ ok (record (on_regs 255 0) { rdvali = 8 })
fn_popc-ones_example = fn_popc-ones (on_regs 255 0) (omega arith)
