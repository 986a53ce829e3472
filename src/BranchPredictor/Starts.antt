-- ===== src/BranchPredictor/Starts.antt =====
-- StartCtlXfer of Processor/branchpred.hh: what it leaves for the switches.
use ml_rsim.Prelude.{
  ℕ, zero, suc, ◌*◌, ◌<◌, ◌≡◌, ◌≢◌, ◌⊎◌, inl, inr, refl, sym, ap, ◌∙◌, subst, arith, Bool, true,
  false, ◌&&◌, ◌||◌, Bool-cases, Checked, ok, fatal, ◌>>=◌, ◌==◌, if◌then◌else◌,
}
use ml_rsim.Alu.{plus, Instance}
use ml_rsim.BranchPredictor.{Predictor, bpb_predict, ras_insert}
use ml_rsim.BranchPredictor.Decode.{
  Fetch, Started, aim, start_known, start_return, start_conditional, start_ctl_xfer,
}
use ml_rsim.BranchPredictor.Ready.{Ready, predict_bit, push_ok, pop_ok}

-- A start that the switches of decode_branch_instruction take
pub record Proper (i : Instance) (f : Fetch) (s : Started) : Type 0 where
  pub same_annul : s.inst.annul ≡ i.annul
  pub same_kind : s.inst.uncond_branch ≡ i.uncond_branch
  pub same_npc : s.fetch.npc ≡ f.npc
  pub jumps : i.uncond_branch ≢ 0 → (s.inst.taken ≡ 1) ⊎ ((s.inst.taken ≡ 2) ⊎ (s.inst.taken ≡ 3))
  pub branches :
      i.uncond_branch ≡ 0
      → (s.inst.taken ≡ 1) ⊎ ((s.inst.taken ≡ 0) × (s.inst.branch_pred ≡ plus i.pc 8))

module _ (i : Instance) (f : Fetch) where
  -- The case that StartCtlXfer takes
  abbrev choose : Bool → Bool → Bool → Bool → Checked Started
  choose a b c d =
      if a || b
      then start_known i f
      else if c
      then start_return i f
      else if d
      then start_conditional i f
      else ok (aim i f 3 4294967295)

  chosen :
      (a b c d : Bool)
      → (i.uncond_branch == 2) ≡ a
      → (i.uncond_branch == 3) ≡ b
      → (i.uncond_branch == 4) ≡ c
      → (i.uncond_branch == 0) ≡ d
      → start_ctl_xfer i f ≡ choose a b c d
  unfolding start_ctl_xfer
  chosen a b c d e g h k =
      ap
        (λ (x : Bool).
          choose x (i.uncond_branch == 3) (i.uncond_branch == 4) (i.uncond_branch == 0))
        e
      ∙ ap (λ (x : Bool). choose a x (i.uncond_branch == 4) (i.uncond_branch == 0)) g
      ∙ ap (λ (x : Bool). choose a b x (i.uncond_branch == 0)) h
      ∙ ap (λ (x : Bool). choose a b c x) k

  abbrev Good : Checked Started → Type 0
  Good r = (s : Started) × (r ≡ ok s) × Proper i f s

  jump_Proper :
      (s : Started)
      → s.inst.annul ≡ i.annul
      → s.inst.uncond_branch ≡ i.uncond_branch
      → s.fetch.npc ≡ f.npc
      → i.uncond_branch ≢ 0
      → (s.inst.taken ≡ 1) ⊎ ((s.inst.taken ≡ 2) ⊎ (s.inst.taken ≡ 3))
      → Proper i f s
  jump_Proper s a k n z t = record {
    same_annul = a;
    same_kind = k;
    same_npc = n;
    jumps = λ _. t;
    branches = λ y. absurd (z y);
  }

  known :
      Ready i f
      → i.uncond_branch ≢ 0
      → (b : Bool) → (i.uncond_branch == 3) ≡ b
      → Good (start_known i f)
  unfolding start_known
  known ready z true e =
      let (p, q) = push_ok i f ready (plus i.pc 8) in
      let g : start_known i f ≡ ok _ =
        ap
          (λ (x : Bool).
            (if x then ras_insert f.predictor (plus i.pc 8) else ok f.predictor)
            >>= (λ (p : Predictor). ok (
                aim (record i { newpc = plus f.pc (i.imm * 4) }) (record f { predictor = p }) 2
                  (plus f.pc (i.imm * 4)))))
          e
        ∙ ap
            (λ (x : Checked Predictor). x >>= (λ (p : Predictor). ok (
              aim (record i { newpc = plus f.pc (i.imm * 4) }) (record f { predictor = p }) 2
                (plus f.pc (i.imm * 4)))))
            q in
      (_, g, jump_Proper _ refl refl refl z (inr (inl refl)))
  known ready z false e =
      let g : start_known i f ≡ ok _ =
        ap
          (λ (x : Bool).
            (if x then ras_insert f.predictor (plus i.pc 8) else ok f.predictor)
            >>= (λ (p : Predictor). ok (
                aim (record i { newpc = plus f.pc (i.imm * 4) }) (record f { predictor = p }) 2
                  (plus f.pc (i.imm * 4)))))
          e in
      (_, g, jump_Proper _ refl refl refl z (inr (inl refl)))

  returning : Ready i f → i.uncond_branch ≢ 0 → Good (start_return i f)
  unfolding start_return
  returning ready z =
      let (x, p, q) = pop_ok i f ready in rw q (_, refl, jump_Proper _ refl refl refl z (inl refl))

  abbrev outcome : Checked ℕ
  outcome = if i.cond_branch && i.never then ok 1 else bpb_predict f.predictor i.pc i.hint

  abbrev aimed : ℕ → Started
  aimed r = aim i f r (if r == 0 then plus i.pc 8 else plus i.pc (i.imm * 4))

  conditional_as : start_conditional i f ≡ (outcome >>= (λ r. ok (aimed r)))
  unfolding start_conditional
  conditional_as = refl

  outcome_bit : Ready i f → (r : ℕ) × (outcome ≡ ok r) × (r < 2)
  outcome_bit ready =
      let (r, e, h) = predict_bit i f ready in
      let pick = λ (b : Bool). (if b then ok 1 else bpb_predict f.predictor i.pc i.hint) in
      elim (Bool-cases (i.cond_branch && i.never)) [
        | inl y ↦ (1, ap pick y, omega arith)
        | inr n ↦ (r, ap pick n ∙ e, h)
      ]

  aimed-Proper : (r : ℕ) → r < 2 → i.uncond_branch ≡ 0 → Proper i f (aimed r)
  aimed-Proper zero h z = record {
    same_annul = refl;
    same_kind = refl;
    same_npc = refl;
    jumps = λ n. absurd (n z);
    branches = λ y. inr (refl, refl);
  }
  aimed-Proper (suc zero) h z = record {
    same_annul = refl;
    same_kind = refl;
    same_npc = refl;
    jumps = λ n. absurd (n z);
    branches = λ y. inl refl;
  }
  aimed-Proper (suc (suc r)) h z = absurd (omega arith)

  conditional : Ready i f → i.uncond_branch ≡ 0 → Good (start_conditional i f)
  conditional ready z =
      let (r, e, h) = outcome_bit ready in
      (
        aimed r,
        conditional_as ∙ ap (λ (x : Checked ℕ). x >>= (λ r. ok (aimed r))) e,
        aimed-Proper r h z,
      )

  pub start_ctl_xfer-Proper : Ready i f → Good (start_ctl_xfer i f)
  start_ctl_xfer-Proper ready =
      by_kind (i.uncond_branch == 2) (i.uncond_branch == 3) (i.uncond_branch == 4)
        (i.uncond_branch == 0) refl refl refl refl
    where
      by_kind :
          (a b c d : Bool)
          → (i.uncond_branch == 2) ≡ a
          → (i.uncond_branch == 3) ≡ b
          → (i.uncond_branch == 4) ≡ c
          → (i.uncond_branch == 0) ≡ d
          → Good (start_ctl_xfer i f)
      by_kind true b c d e g h k =
          subst Good (sym (chosen true b c d e g h k)) (known ready (λ z. ground (arith, e, z)) b g)
      by_kind false true c d e g h k =
          subst Good (sym (chosen false true c d e g h k))
            (known ready (λ z. ground (arith, g, z)) true g)
      by_kind false false true d e g h k =
          subst Good (sym (chosen false false true d e g h k))
            (returning ready (λ z. ground (arith, h, z)))
      by_kind false false false true e g h k =
          subst Good (sym (chosen false false false true e g h k))
            (conditional ready (ground (arith, k)))
      by_kind false false false false e g h k =
          subst Good (sym (chosen false false false false e g h k))
            (_, refl, jump_Proper _ refl refl refl (λ z. ground (arith, k, z)) (inr (inr refl)))

  -- What a conditional branch is predicted to do, and where that leads
  pub start_conditional-aims :
      (s : Started)
      → i.uncond_branch ≡ 0
      → start_ctl_xfer i f ≡ ok s
      → (s.inst.branch_pred ≡ (if s.inst.taken == 0 then plus i.pc 8 else plus i.pc (i.imm * 4)))
  start_conditional-aims s z e = by_outcome outcome (
      sym (
        chosen false false false true (ground (arith, z)) (ground (arith, z)) (ground (arith, z))
          (ground (arith, z))
        ∙ conditional_as)
      ∙ e)
    where
      by_outcome :
          (x : Checked ℕ)
          → (x >>= (λ r. ok (aimed r))) ≡ ok s
          → s.inst.branch_pred ≡ (if s.inst.taken == 0 then plus i.pc 8 else plus i.pc (i.imm * 4))
      by_outcome fatal g = absurd (cc (g))
      by_outcome (ok r) g =
          let same : aimed r ≡ s = cc (g) in
          subst
            (λ (t : Started).
              t.inst.branch_pred
              ≡ (if t.inst.taken == 0 then plus i.pc 8 else plus i.pc (i.imm * 4)))
            same refl
