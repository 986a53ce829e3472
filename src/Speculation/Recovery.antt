-- ===== src/Speculation/Recovery.antt =====
-- Processor/branchpred.cc: what a misprediction restores, whatever has happened since the branch.
use ml_rsim.Prelude.{ℕ, ◌≡◌, refl, sym, subst, inl, some}
use ml_rsim.Speculation.{MapTable, Speculation, add_branch_q, copy_branch_q, flush_branch_q}
use ml_rsim.Speculation.Ordered.{Below, Ordered, older, exchange-older, Below-older, older-Ordered}
use ml_rsim.Speculation.Steps.{Steps, Saved, added, Saved-Steps}

-- What BadPrediction leaves of the queue and the mappers
pub record Restored (t : ℕ) (m : MapTable) (s : Speculation) : Type 0 where
  pub copied_to : Speculation
  pub copies : copy_branch_q t s ≡ some copied_to
  pub mappers : (flush_branch_q t copied_to).active ≡ m
  pub left : (flush_branch_q t copied_to).branchq ≡ older t s.branchq
  pub all_older : Below t (flush_branch_q t copied_to).branchq
  pub in_order : Ordered (flush_branch_q t copied_to).branchq

Saved-Restored : (t : ℕ) (m : MapTable) (s : Speculation) → Saved t m s → Restored t m s
unfolding copy_branch_q flush_branch_q
Saved-Restored t m s v =
    let (q', e, f) = exchange-older t s.active m s.branchq v.ordered v.has in
    record {
      copied_to = record s { active = m; branchq = q' };
      copies = rw (e, copy_branch_q) refl;
      mappers = refl;
      left = f;
      all_older = subst (Below t) (sym f) (Below-older t s.branchq);
      in_order = subst Ordered (sym f) (older-Ordered t s.branchq v.ordered);
    }

-- A branch that is the youngest in an ordered queue gets a shadow mapper. After any changes of the
-- mappers in use, any later branches that get a shadow mapper or wait, other branches that are
-- predicted right, and later ones that are predicted wrong, CopyBranchQ and FlushBranchQ of that branch
-- bring back the mappers as they were, and leave in the queue just the elements of older branches, in
-- order.
pub add_branch_q-Restored :
    (max_spec t : ℕ) (s s' s'' : Speculation)
    → Ordered s.branchq
    → Below t s.branchq
    → add_branch_q max_spec t s ≡ some s'
    → Steps max_spec t s' s''
    → Restored t s.active s''
add_branch_q-Restored max_spec t s s' s'' o b e steps = Saved-Restored t s.active s'' (
    Saved-Steps max_spec t s.active s' s'' steps (
      subst (Saved t s.active) (added max_spec t s s' e)
        (record { ordered = (b, o); has = inl (refl, refl) })))
