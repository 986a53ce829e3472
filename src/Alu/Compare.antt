-- ===== src/Alu/Compare.antt =====
-- Processor/funcs.cc: a branch on the codes of a comparison, which fnSUBcc makes.
use ml_rsim.Prelude.{
  ℕ, ◌+◌, ◌*◌, ◌≤◌, ◌<◌, ◌≡◌, ◌≢◌, ◌↔◌, refl, sym, ap, ◌∙◌, subst, arith, Bool, true, false, not,
  ltb, ◌==◌, if◌then◌else◌, some,
}
use ml_rsim.Alu.{
  modulus, half, negative, plus, minus, Cond, nb, eb, leb_, lb, leub, csb, negb, vsb, ab, neb, gb,
  geb, gub, ccb, posb, vcb, Instance, operand, cc_of_rs1, xcc_to_icc, holds, fn_subcc,
  difference_overflow,
}
use ml_rsim.Alu.Flags.{biased, Reads, packed}
use ml_rsim.Alu.Codes.{Words}
use ml_rsim.Alu.Branch.{Branched, branch, fn_bpcc, is_nb}

module _ (a b : ℕ) where
  -- The signed difference has 32 bits.
  abbrev pub InRange : Type 0
  InRange = (biased b ≤ biased a + half) × (biased a < biased b + half)

  -- What a condition says of the two numbers that were compared
  abbrev pub Says : Cond → Type 0
  Says ab = Unit
  Says nb = ⊥
  Says eb = a ≡ b
  Says neb = a ≢ b
  Says gb = biased b < biased a
  Says leb_ = biased a ≤ biased b
  Says geb = biased b ≤ biased a
  Says lb = biased a < biased b
  Says gub = b < a
  Says leub = a ≤ b
  Says ccb = b ≤ a
  Says csb = a < b
  Says posb = minus a b < half
  Says negb = half ≤ minus a b
  Says vcb = InRange
  Says vsb = InRange → ⊥

  module _ (p : a < modulus) (q : b < modulus) where
    abbrev diff : ℕ
    diff = minus a b

    module _ (icc : ℕ)
        (r : Reads icc (negative diff) (diff == 0) (difference_overflow a b diff) (ltb a b)) where
      pub holds-Says : (c : Cond) → (holds c icc ≡ true) ↔ Says c
      unfolding holds
      holds-Says ab = (λ e. tt, λ u. refl)
      holds-Says nb = (λ e. absurd (cc (e)), λ u. absurd u)
      holds-Says eb = rw r.zero (ground (arith, p, q))
      holds-Says neb = rw r.zero (ground (arith, p, q))
      holds-Says gb = rw (r.zero, r.neg, r.overflow) (ground (arith, p, q))
      holds-Says leb_ = rw (r.zero, r.neg, r.overflow) (ground (arith, p, q))
      holds-Says geb = rw (r.neg, r.overflow) (ground (arith, p, q))
      holds-Says lb = rw (r.neg, r.overflow) (ground (arith, p, q))
      holds-Says gub = rw (r.carry, r.zero) (ground (arith, p, q))
      holds-Says leub = rw (r.carry, r.zero) (ground (arith, p, q))
      holds-Says ccb = rw r.carry (ground (arith, p, q))
      holds-Says csb = rw r.carry (ground (arith, p, q))
      holds-Says posb = rw r.neg (ground (arith, p, q))
      holds-Says negb = rw r.neg (ground (arith, p, q))
      holds-Says vcb = rw r.overflow (ground (arith, p, q))
      holds-Says vsb = rw r.overflow (ground (arith, p, q))

-- What a branch does where `P` says that it is taken: the next instruction, the misprediction, and
-- what the branch predictor is told
pub record Branches (j : Instance) (P : Type 0) (r : Branched) : Type 0 where
  pub goes : P → r.inst.newpc ≡ plus j.pc (j.imm * 4)
  pub stays : (P → ⊥) → r.inst.newpc ≡ plus j.pc 8
  pub right : P → r.inst.mispredicted ≡ not (j.taken == 1)
  pub wrong : (P → ⊥) → r.inst.mispredicted ≡ not (j.taken == 0)
  pub told : j.cond ≢ nb → (t : Bool) × (r.complete ≡ some t) × ((t ≡ true) ↔ P)

branch_lem :
    (j : Instance) (P : Type 0) (t never : Bool)
    → (t ≡ true) ↔ P
    → (j.cond ≢ nb → never ≡ false)
    → Branches j P (branch j t never)
unfolding branch
branch_lem j P true never h u = record {
  goes = λ x. refl;
  stays = λ f. absurd (f (h.0 refl));
  right = λ x. refl;
  wrong = λ f. absurd (f (h.0 refl));
  told = λ n. rw (u n) (true, refl, h);
}
branch_lem j P false never h u = record {
  goes = λ x. absurd (cc (h.1 x));
  stays = λ f. refl;
  right = λ x. absurd (cc (h.1 x));
  wrong = λ f. refl;
  told = λ n. rw (u n) (false, refl, h);
}

only_nb : (c : Cond) → c ≢ nb → is_nb c ≡ false
only_nb nb n = absurd (n refl)
only_nb eb n = refl
only_nb leb_ n = refl
only_nb lb n = refl
only_nb leub n = refl
only_nb csb n = refl
only_nb negb n = refl
only_nb vsb n = refl
only_nb ab n = refl
only_nb neb n = refl
only_nb gb n = refl
only_nb geb n = refl
only_nb gub n = refl
only_nb ccb n = refl
only_nb posb n = refl
only_nb vcb n = refl

-- fnBPcc on the integer codes of an fnSUBcc of two words goes to the target of the branch exactly
-- where its condition holds of the two operands: equal, less or greater, of the numbers with or
-- without sign, or that the difference is negative or has no signed 32 bits. Else it goes on behind the
-- delay slot. It is mispredicted exactly where the prediction differs, and unless it is the branch
-- never, the branch predictor is told which it was.
pub fn_bpcc-subcc :
    (i j : Instance)
    → Words i
    → j.rs1_xcc ≡ false
    → j.rs1vali ≡ (fn_subcc i).rccvali
    → Branches j (Says i.rs1vali (operand i) j.cond) (fn_bpcc j)
unfolding fn_bpcc fn_subcc
fn_bpcc-subcc i j w f e =
    let a = i.rs1vali in
    let b = operand i in
    let tmp = minus a b in
    let r = packed (negative tmp) (tmp == 0) (difference_overflow a b tmp) (ltb a b) in
    let g : cc_of_rs1 j ≡ (fn_subcc i).rccvali =
      ap (λ (x : Bool). if x then xcc_to_icc j.rs1vali else j.rs1vali) f ∙ e in
    subst (λ (x : ℕ). Branches j (Says a b j.cond) (branch j (holds j.cond x) (is_nb j.cond)))
      (sym g)
      (branch_lem j (Says a b j.cond) (holds j.cond (fn_subcc i).rccvali) (is_nb j.cond)
        (holds-Says a b w.first w.second (fn_subcc i).rccvali r j.cond) (only_nb j.cond))
