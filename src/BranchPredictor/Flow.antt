-- ===== src/BranchPredictor/Flow.antt =====
-- Processor/branchpred.cc and branchpred.hh: where the fetch goes behind a branch, and that a branch
-- that is predicted right has gone there.
use ml_rsim.Prelude.{
  ℕ, ◌*◌, ◌≡◌, ◌≢◌, ◌⊎◌, inl, inr, sym, ap, ◌∙◌, subst, arith, Bool, true, false, not, Bool-cases,
  Checked, ok, ◌==◌, if◌then◌else◌,
}
use ml_rsim.Alu.{plus, Instance, cc_of_rs1, holds}
use ml_rsim.Alu.Branch.{branch, fn_bpcc, is_nb}
use ml_rsim.BranchPredictor.Decode.{
  Fetch, Started, start_ctl_xfer, Decoded, uncond_delayed, uncond_annulled, cond_delayed,
  cond_annulled, decode_started, decode_branch_instruction,
}
use ml_rsim.BranchPredictor.Ready.{Ready}
use ml_rsim.BranchPredictor.Starts.{Proper, start_ctl_xfer-Proper, start_conditional-aims}
use ml_rsim.BranchPredictor.Switches.{
  Lands, passes_delayed, passes_annulled, passes_branch, passes_taken, passes_untaken,
}

-- The instructions that run behind a branch: the delay slot and then those at the predicted address, or
-- the latter at once, where the branch annuls and is not a conditional one that is taken.
pub record Flows (i : Instance) (f : Fetch) (d : Decoded) : Type 0 where
  pub slot :
      (i.annul ≡ false) ⊎ ((i.uncond_branch ≡ 0) × (d.inst.taken ≡ 1))
      → (d.fetch.pc ≡ f.npc) × (d.fetch.npc ≡ d.inst.branch_pred)
  pub skip :
      i.annul ≡ true → (i.uncond_branch ≢ 0) ⊎ (d.inst.taken ≡ 0) → d.fetch.pc ≡ d.inst.branch_pred

module _ (i : Instance) (f : Fetch) (next : f.npc ≡ plus i.pc 4) (s : Started)
    (proper : Proper i f s) where
  after_two : plus s.fetch.npc 4 ≡ plus i.pc 8
  after_two = let e = proper.same_npc in omega (arith, next, e)

  Result : Checked Decoded → Type 0
  Result r = (d : Decoded) × (r ≡ ok d) × Flows i f d

  from_slot :
      (r : Checked Decoded)
      → (i.annul ≡ true → (i.uncond_branch ≢ 0) ⊎ (s.inst.taken ≡ 0) → ⊥)
      → Lands s.inst s.fetch.npc (λ d. d.fetch.npc ≡ s.inst.branch_pred) r
      → Result r
  unfolding Result
  from_slot r none_skips l = (
    l.decoded,
    l.returns,
    record {
      slot = λ c. (l.at ∙ proper.same_npc, l.rest ∙ sym l.target);
      skip = λ a c. absurd (none_skips a (elim c [ inl n ↦ inl n | inr e ↦ inr (sym l.same ∙ e) ]));
    },
  )

  from_skip :
      (r : Checked Decoded)
      → ((i.annul ≡ false) ⊎ ((i.uncond_branch ≡ 0) × (s.inst.taken ≡ 1)) → ⊥)
      → Lands s.inst s.inst.branch_pred (λ d. Unit {0}) r
      → Result r
  unfolding Result
  from_skip r none_runs l = (
    l.decoded,
    l.returns,
    record {
      slot =
          λ c. absurd (none_runs (elim c [ inl n ↦ inl n | inr (z, e) ↦ inr (z, sym l.same ∙ e) ]));
      skip = λ a c. l.at ∙ sym l.target;
    },
  )

  -- The switch that is taken
  abbrev switch : Bool → Bool → Checked Decoded
  switch conditional annul =
      if not conditional
      then (if annul then uncond_annulled s.inst s.fetch else uncond_delayed s.inst s.fetch)
      else if annul
      then cond_annulled s.inst s.fetch
      else cond_delayed s.inst s.fetch

  switched :
      (conditional annul : Bool)
      → (i.uncond_branch == 0) ≡ conditional
      → i.annul ≡ annul
      → decode_started s.inst s.fetch ≡ switch conditional annul
  unfolding decode_started
  switched conditional annul e a =
      ap (λ (b : Bool). switch b s.inst.annul) (ap (λ (k : ℕ). k == 0) proper.same_kind ∙ e)
      ∙ ap (switch conditional) (proper.same_annul ∙ a)

  decoded_jump : i.uncond_branch ≢ 0 → Result (decode_started s.inst s.fetch)
  decoded_jump n =
      let k : (i.uncond_branch == 0) ≡ false = ground (arith, n) in
      elim (Bool-cases i.annul) [
        | inl a ↦ subst Result (sym (switched false true k a)) (
            from_skip (uncond_annulled s.inst s.fetch)
              (λ c. elim c [ inl b ↦ cc (a, b) | inr (z, e) ↦ n z ])
              (passes_annulled s.inst s.fetch (proper.jumps n)))
        | inr a ↦ subst Result (sym (switched false false k a)) (
            from_slot (uncond_delayed s.inst s.fetch) (λ b c. cc (a, b))
              (passes_delayed s.inst s.fetch (proper.jumps n)))
      ]

  decoded_branch : i.uncond_branch ≡ 0 → Result (decode_started s.inst s.fetch)
  decoded_branch z =
      let k : (i.uncond_branch == 0) ≡ true = ground (arith, z) in
      elim (Bool-cases i.annul) [
        | inl a ↦ subst Result (sym (switched true true k a)) (elim (proper.branches z) [
          | inl t ↦
              from_slot (cond_annulled s.inst s.fetch)
                (λ b c. elim c [ inl n ↦ n z | inr e ↦ omega (arith, t, e) ])
                (passes_taken s.inst s.fetch t)
          | inr (t, e) ↦
              from_skip (cond_annulled s.inst s.fetch)
                (λ c. elim c [ inl b ↦ cc (a, b) | inr (y, o) ↦ omega (arith, t, o) ])
                (passes_untaken s.inst s.fetch t (e ∙ sym after_two))
        ])
        | inr a ↦ subst Result (sym (switched true false k a)) (
            from_slot (cond_delayed s.inst s.fetch) (λ b c. cc (a, b))
              (passes_branch s.inst s.fetch (elim (proper.branches z) [
                | inl t ↦ inl t
                | inr (t, e) ↦ inr (t, e ∙ sym after_two)
              ])))
      ]

  decoded : Result (decode_started s.inst s.fetch)
  decoded = elim (Bool-cases (i.uncond_branch == 0)) [
    | inl e ↦ decoded_branch (ground (arith, e))
    | inr e ↦ decoded_jump (λ z. ground (arith, e, z))
  ]

-- decode_branch_instruction of a branch at the fetch address, with the next instruction in its delay
-- slot, a stack of return addresses and an entry of the tables that is set up, and a hint of 0 or 1,
-- never meets a case that stops the simulator. What runs next is the delay slot and then the predicted
-- address, unless the branch annuls and is unconditional or predicted not taken, when it is the
-- predicted address at once.
pub decode_branch_instruction-Flows :
    (i : Instance) (f : Fetch)
    → Ready i f
    → f.npc ≡ plus i.pc 4
    → (d : Decoded) × (decode_branch_instruction i f ≡ ok d) × Flows i f d
unfolding decode_branch_instruction Result
decode_branch_instruction-Flows i f ready next =
    let (s, e, proper) = start_ctl_xfer-Proper i f ready in rw e (decoded i f next s proper)

branch-right :
    (j : Instance) (t never : Bool)
    → (branch j t never).inst.mispredicted ≡ false
    → (branch j t never).inst.newpc ≡ (if j.taken == 0 then plus j.pc 8 else plus j.pc (j.imm * 4))
unfolding branch
branch-right j true never e =
    let k : (j.taken == 0) ≡ false = ground (arith, e) in
    sym (ap (λ (b : Bool). if b then plus j.pc 8 else plus j.pc (j.imm * 4)) k)
branch-right j false never e =
    let k : (j.taken == 0) ≡ true = ground (arith, e) in
    sym (ap (λ (b : Bool). if b then plus j.pc 8 else plus j.pc (j.imm * 4)) k)

-- fnBPcc of a conditional branch with the prediction that StartCtlXfer has made for it, at whatever
-- codes the branch then has, goes on at the predicted address if it is not counted as mispredicted.
pub fn_bpcc-start_ctl_xfer :
    (i : Instance) (f : Fetch) (s : Started) (j : Instance)
    → i.uncond_branch ≡ 0
    → start_ctl_xfer i f ≡ ok s
    → (j.pc ≡ i.pc) × (j.imm ≡ i.imm) × (j.taken ≡ s.inst.taken)
    → (fn_bpcc j).inst.mispredicted ≡ false
    → (fn_bpcc j).inst.newpc ≡ s.inst.branch_pred
unfolding fn_bpcc
fn_bpcc-start_ctl_xfer i f s j z e (pc, imm, taken) right =
    let target = start_conditional-aims i f s z e in
    let t = holds j.cond (cc_of_rs1 j) in
    branch-right j t (is_nb j.cond) right
    ∙ ap (λ (n : ℕ). if n == 0 then plus j.pc 8 else plus j.pc (j.imm * 4)) taken
    ∙ ap (λ (n : ℕ). if s.inst.taken == 0 then plus n 8 else plus n (j.imm * 4)) pc
    ∙ ap (λ (n : ℕ). if s.inst.taken == 0 then plus i.pc 8 else plus i.pc (n * 4)) imm
    ∙ sym target
