-- ===== src/BranchPredictor/Ready.antt =====
-- The tables of Processor/branchpred.hh answer StartCtlXfer without a fault.
use ml_rsim.Prelude.{ℕ, ◌<◌, ◌≡◌, refl, arith, List, [], ◌∷◌, ok}
use ml_rsim.Alu.{Instance}
use ml_rsim.BranchPredictor.{
  agree, BpType, two_bit, two_bit_agree, static, Predictor, position, bpb_predict, ras_insert,
  ras_predict,
}
use ml_rsim.BranchPredictor.Decode.{Fetch}
use ml_rsim.BranchPredictor.History.{State, s00, s01, s10, s11, bits, In}
use ml_rsim.BranchPredictor.Stack.{Holds}
use ml_rsim.BranchPredictor.Returns.{Holds-IsStack}

-- What the predictor and the branch need for a prediction
pub record Ready (i : Instance) (f : Fetch) : Type 0 where
  pub stack : List ℕ
  pub holds_stack : Holds f.predictor stack
  pub state : State
  pub entry : In f.predictor (position f.predictor i.pc) state
  pub hint_bit : i.hint < 2

bit : (s : State) → (bits s).0 < 2
bit s00 = omega arith
bit s01 = omega arith
bit s10 = omega arith
bit s11 = omega arith

module _ (i : Instance) (f : Fetch) where
  pub predict_bit : Ready i f → (r : ℕ) × (bpb_predict f.predictor i.pc i.hint ≡ ok r) × (r < 2)
  unfolding bpb_predict
  predict_bit ready = by_kind f.predictor.bpb_type refl
    where
      by_kind :
          (k : BpType)
          → f.predictor.bpb_type ≡ k
          → (r : ℕ) × (bpb_predict f.predictor i.pc i.hint ≡ ok r) × (r < 2)
      by_kind two_bit e = ((bits ready.state).0, rw e (rw ready.entry.0 refl), bit ready.state)
      by_kind two_bit_agree e =
          (agree (bits ready.state).0 i.hint, rw e (rw ready.entry.0 refl), ground arith)
      by_kind static e = (i.hint, rw e refl, ready.hint_bit)

  pub push_ok : Ready i f → (a : ℕ) → (p : Predictor) × (ras_insert f.predictor a ≡ ok p)
  push_ok ready a =
      let (p, e, h) = (Holds-IsStack f.predictor ready.stack ready.holds_stack).pushes a in (p, e)

  pub pop_ok : Ready i f → (x : ℕ) × (p : Predictor) × (ras_predict f.predictor ≡ ok (x, p))
  pop_ok ready = by_stack ready.stack refl
    where
      by_stack :
          (xs : List ℕ)
          → ready.stack ≡ xs
          → (x : ℕ) × (p : Predictor) × (ras_predict f.predictor ≡ ok (x, p))
      by_stack [] e =
          let (x, p, eq, rest, more) =
            (Holds-IsStack f.predictor ready.stack ready.holds_stack).guesses e in
          (x, p, eq)
      by_stack (x ∷ xs) e =
          let (p, eq, rest, more) =
            (Holds-IsStack f.predictor ready.stack ready.holds_stack).pops x xs e in
          (x, p, eq)
