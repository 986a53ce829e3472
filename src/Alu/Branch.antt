-- ===== src/Alu/Branch.antt =====
-- Processor/funcs.cc, the instructions on a condition: branches, traps and conditional moves.
use ml_rsim.Prelude.{
  ℕ, ◌*◌, ◌%◌, Bool, true, false, not, ◌||◌, Option, none, some, ◌==◌, if◌then◌else◌,
}
use ml_rsim.Alu.{
  modulus, negative, plus, Cond, nb, FpCond, nf, nef, lgf, ulf, lf, ugf, gf, uf, af, ef, uef, gef,
  ugef, lef, ulef, of_, systrap, Instance, operand, cc_of, cc_of_rs1, holds,
}

-- A branch, with what it tells the branch predictor: whether it is taken
pub record Branched : Type 0 where
  pub inst : Instance
  pub complete : Option Bool

abbrev pub int_of : Bool → ℕ
int_of b = if b then 1 else 0

-- The end of the functions of branches
unfoldable pub branch : Instance → Bool → Bool → Branched
branch i taken never = record {
  inst = record i {
    newpc = if taken then plus i.pc (i.imm * 4) else plus i.pc 8;
    mispredicted = not (i.taken == int_of taken);
  };
  complete = if never then none else some taken;
}

abbrev pub is_nb : Cond → Bool
is_nb nb = true
is_nb c = false

unfoldable pub fn_bpcc : Instance → Branched
fn_bpcc i = branch i (holds i.cond (cc_of_rs1 i)) (is_nb i.cond)

-- The switch on the value of a register that fnBPr and fnMOVR have
unfoldable pub reg_holds : ℕ → ℕ → Bool
reg_holds cond v1 =
    if cond == 1
    then v1 == 0
    else if cond == 2
    then (v1 == 0) || negative v1
    else if cond == 3
    then negative v1
    else if cond == 5
    then not (v1 == 0)
    else if cond == 6
    then not ((v1 == 0) || negative v1)
    else if cond == 7
    then not (negative v1)
    else false

unfoldable pub fn_bpr : Instance → Branched
fn_bpr i = branch i (reg_holds i.rcond i.rs1vali) false

-- The switch on a floating-point condition that fnFBPfcc and fnMOVcc have
unfoldable pub fp_holds : FpCond → ℕ → Bool
fp_holds af v1 = true
fp_holds uf v1 = v1 == 3
fp_holds gf v1 = v1 == 2
fp_holds ugf v1 = (v1 == 3) || (v1 == 2)
fp_holds lf v1 = v1 == 1
fp_holds ulf v1 = (v1 == 3) || (v1 == 1)
fp_holds lgf v1 = (v1 == 1) || (v1 == 2)
fp_holds nef v1 = (v1 == 1) || (v1 == 2) || (v1 == 3)
fp_holds nf v1 = false
fp_holds ef v1 = v1 == 0
fp_holds uef v1 = (v1 == 0) || (v1 == 3)
fp_holds gef v1 = (v1 == 2) || (v1 == 0)
fp_holds ugef v1 = (v1 == 3) || (v1 == 2) || (v1 == 0)
fp_holds lef v1 = (v1 == 1) || (v1 == 0)
fp_holds ulef v1 = (v1 == 3) || (v1 == 1) || (v1 == 0)
fp_holds of_ v1 = (v1 == 0) || (v1 == 1) || (v1 == 2)

abbrev pub is_nf : FpCond → Bool
is_nf nf = true
is_nf c = false

unfoldable pub fn_fbpfcc : Instance → Branched
fn_fbpfcc i = branch i (fp_holds i.fcond i.rs1vali) (is_nf i.fcond)

unfoldable pub fn_tcc : Instance → Instance
fn_tcc i =
    let trap : ℕ = plus i.rs1vali (operand i) in
    record i {
      rdvali = trap;
      exception_code = if holds i.cond (cc_of i) then systrap trap else i.exception_code;
    }

unfoldable pub fn_movcc : Instance → Instance
fn_movcc i =
    let moves = if i.on_fcc then fp_holds i.fcond i.rsccvali else holds i.cond (cc_of i) in
    record i { rdvali = if moves then operand i else i.rs1vali }

unfoldable pub fn_movr : Instance → Instance
fn_movr i = record i { rdvali = if reg_holds i.rcond i.rsccvali then operand i else i.rs1vali }

unfoldable pub fn_call : Instance → Instance
fn_call i = record i { rdvali = i.pc }

-- fnRETURN, and what fnJMPL does besides
unfoldable pub fn_return : Instance → Instance
fn_return i =
    let target = plus i.rs1vali (operand i) in
    record i { newpc = target; mispredicted = not (target == i.branch_pred) }

unfoldable pub fn_jmpl : Instance → Instance
fn_jmpl i =
    let target = plus i.rs1vali (operand i) in
    record i { rdvali = i.pc; newpc = target; mispredicted = not (target == i.branch_pred) }

unfoldable pub fn_sethi : Instance → Instance
fn_sethi i = record i { rdvali = i.imm * 1024 % modulus }
