-- ===== src/BranchPredictor/Switches.antt =====
-- The switches on a prediction of decode_branch_instruction, in Processor/branchpred.cc.
use ml_rsim.Prelude.{ℕ, ◌≡◌, ◌⊎◌, inl, inr, refl, sym, ap, Checked, ok, ◌==◌}
use ml_rsim.Alu.{plus, Instance}
use ml_rsim.BranchPredictor.Decode.{
  Fetch, Decoded, uncond_delayed, uncond_annulled, cond_delayed, cond_annulled,
}

-- What one of the switches leaves
pub record Lands (j : Instance) (pc : ℕ) (more : Decoded → Type 0) (r : Checked Decoded)
    : Type 0 where
  pub decoded : Decoded
  pub returns : r ≡ ok decoded
  pub at : decoded.fetch.pc ≡ pc
  pub rest : more decoded
  pub target : decoded.inst.branch_pred ≡ j.branch_pred
  pub same : decoded.inst.taken ≡ j.taken

module _ (j : Instance) (g : Fetch) where
  abbrev pub Jumps : Type 0
  Jumps = (j.taken ≡ 1) ⊎ ((j.taken ≡ 2) ⊎ (j.taken ≡ 3))

  -- The tests of a switch at a known value
  is : (n m : ℕ) → j.taken ≡ n → (j.taken == m) ≡ (n == m)
  is n m e = ap (λ (k : ℕ). k == m) e

  pub passes_delayed : Jumps → Lands j g.npc (λ d. d.fetch.npc ≡ j.branch_pred) (uncond_delayed j g)
  unfolding uncond_delayed
  passes_delayed (inl e) =
      rw (is 1 1 e)
        (record { decoded = _; returns = refl; at = refl; rest = refl; target = refl; same = refl })
  passes_delayed (inr (inl e)) =
      rw (is 2 1 e, is 2 2 e)
        (record { decoded = _; returns = refl; at = refl; rest = refl; target = refl; same = refl })
  passes_delayed (inr (inr e)) =
      rw (is 3 1 e, is 3 2 e, is 3 3 e)
        (record { decoded = _; returns = refl; at = refl; rest = refl; target = refl; same = refl })

  pub passes_annulled : Jumps → Lands j j.branch_pred (λ d. Unit {0}) (uncond_annulled j g)
  unfolding uncond_annulled
  passes_annulled (inl e) =
      rw (is 1 1 e)
        (record { decoded = _; returns = refl; at = refl; rest = tt; target = refl; same = refl })
  passes_annulled (inr (inl e)) =
      rw (is 2 1 e, is 2 2 e)
        (record { decoded = _; returns = refl; at = refl; rest = tt; target = refl; same = refl })
  passes_annulled (inr (inr e)) =
      rw (is 3 1 e, is 3 2 e, is 3 3 e)
        (record { decoded = _; returns = refl; at = refl; rest = tt; target = refl; same = refl })

  pub passes_branch :
      (j.taken ≡ 1) ⊎ ((j.taken ≡ 0) × (j.branch_pred ≡ plus g.npc 4))
      → Lands j g.npc (λ d. d.fetch.npc ≡ j.branch_pred) (cond_delayed j g)
  unfolding cond_delayed
  passes_branch (inl e) =
      rw (is 1 0 e, is 1 1 e)
        (record { decoded = _; returns = refl; at = refl; rest = refl; target = refl; same = refl })
  passes_branch (inr (e, t)) =
      rw (is 0 0 e) (record {
        decoded = _;
        returns = refl;
        at = refl;
        rest = sym t;
        target = refl;
        same = refl;
      })

  pub passes_taken :
      j.taken ≡ 1 → Lands j g.npc (λ d. d.fetch.npc ≡ j.branch_pred) (cond_annulled j g)
  unfolding cond_annulled
  passes_taken e =
      rw (is 1 0 e, is 1 1 e)
        (record { decoded = _; returns = refl; at = refl; rest = refl; target = refl; same = refl })

  pub passes_untaken :
      j.taken ≡ 0
      → j.branch_pred ≡ plus g.npc 4
      → Lands j j.branch_pred (λ d. Unit {0}) (cond_annulled j g)
  unfolding cond_annulled
  passes_untaken e t =
      rw (is 0 0 e)
        (record { decoded = _; returns = refl; at = sym t; rest = tt; target = refl; same = refl })
