-- ===== src/BranchPredictor/Tests.antt =====
-- Processor/branchpred.hh and branchpred.cc with small tables.
use ml_rsim.Prelude.{
  ℕ, zero, suc, ◌≡◌, ◌≢◌, refl, arith, true, false, some, [], ◌∷◌, ok, ◌>>=◌, get_elem?,
}
use ml_rsim.Alu.{holds, lb, nf, ok_, Instance}
use ml_rsim.Alu.Branch.{fn_bpcc, branch}
use ml_rsim.BranchPredictor.{
  two_bit, static, Predictor, bpb_setup, ras_setup, bpb_complete, bpb_predict,
}
use ml_rsim.BranchPredictor.Stack.{Holds, below}
use ml_rsim.BranchPredictor.Returns.{IsStack, Holds-IsStack}
use ml_rsim.BranchPredictor.History.{IsPredictor, s10}
use ml_rsim.BranchPredictor.Trained.{bpb_complete-trains}
use ml_rsim.BranchPredictor.Decode.{
  Fetch, Started, aim, start_ctl_xfer, start_conditional, Decoded, decode_branch_instruction,
}
use ml_rsim.BranchPredictor.Ready.{Ready}
use ml_rsim.BranchPredictor.Flow.{Flows, decode_branch_instruction-Flows}

-- Four entries as they are set up, and a full stack of two
abbrev predictor : Predictor
predictor = record {
  bpb_type = two_bit;
  bpb_size = 4;
  branch_pred = 1 ∷ 1 ∷ 1 ∷ 1 ∷ [];
  prev_pred = 0 ∷ 0 ∷ 0 ∷ 0 ∷ [];
  ras_stksz = 2;
  return_address_stack = 8 ∷ 16 ∷ [];
  rascnt = 2;
  rasptr = 0;
  ras_overflows = 0;
  ras_underflows = 0;
}

predictor-IsPredictor : IsPredictor predictor
predictor-IsPredictor = record { power = 2; size = refl; preds = refl; prevs = refl }

predictor-Holds : Holds predictor (16 ∷ 8 ∷ [])
predictor-Holds = record {
  room = omega arith;
  sized = refl;
  ptr = omega arith;
  count = refl;
  fits = omega arith;
  stored = stored;
}
  where
    stored :
        (i x : ℕ)
        → get_elem? (16 ∷ 8 ∷ []) i ≡ some x
        → get_elem? predictor.return_address_stack (below predictor i) ≡ some x
    stored zero x e = e
    stored (suc zero) x e = e
    stored (suc (suc i)) x e = absurd (cc (e))

set_up_entries : (bpb_setup predictor).branch_pred ≡ 1 ∷ 1 ∷ 1 ∷ 1 ∷ []
unfolding bpb_setup
set_up_entries = refl

set_up_stack : (ras_setup predictor).return_address_stack ≡ 0 ∷ 0 ∷ []
unfolding ras_setup
set_up_stack = refl

Holds-IsStack_example : IsStack predictor (16 ∷ 8 ∷ [])
Holds-IsStack_example = Holds-IsStack predictor (16 ∷ 8 ∷ []) predictor-Holds

not_static : two_bit ≢ static
not_static e = cc (e)

bpb_complete-trains_example :
    (bpb_complete predictor 4100 0 1
      >>= (λ q. bpb_complete q 4100 0 1)
      >>= (λ q. bpb_predict q 4100 1))
    ≡ ok 0
bpb_complete-trains_example =
    bpb_complete-trains predictor predictor-IsPredictor 4100 0 1 s10 not_static (omega arith)
      (omega arith) (refl, refl)

-- A conditional branch that annuls
abbrev annulling : Instance
annulling = record {
  pc = 4096;
  newpc = 0;
  rs1vali = 8;
  rs2vali = 0;
  rsccvali = 0;
  rdvali = 0;
  rccvali = 0;
  imm = 4;
  immediate = false;
  rs1_xcc = false;
  rscc_xcc = false;
  on_fcc = false;
  cond = lb;
  fcond = nf;
  rcond = 0;
  branch_pred = 0;
  taken = 0;
  mispredicted = false;
  uncond_branch = 0;
  cond_branch = true;
  never = false;
  hint = 1;
  annul = true;
  branchdep = 0;
  exception_code = ok_;
}

abbrev fetch : Fetch
fetch = record {
  pc = 4096;
  npc = 4100;
  copymappernext = false;
  unpredbranch = false;
  predictor = predictor;
}

fetch-Ready : Ready annulling fetch
fetch-Ready = record {
  stack = 16 ∷ 8 ∷ [];
  holds_stack = predictor-Holds;
  state = s10;
  entry = (refl, refl);
  hint_bit = omega arith;
}

decode_branch_instruction-Flows_example :
    (d : Decoded) × (decode_branch_instruction annulling fetch ≡ ok d) × Flows annulling fetch d
decode_branch_instruction-Flows_example =
    decode_branch_instruction-Flows annulling fetch fetch-Ready refl

-- What StartCtlXfer leaves, and the branch with it
abbrev started : Started
started = aim annulling fetch 1 4112

start : start_ctl_xfer annulling fetch ≡ ok started
unfolding start_ctl_xfer start_conditional bpb_predict
start = refl

right : (fn_bpcc started.inst).inst.mispredicted ≡ false
unfolding fn_bpcc branch holds
right = refl
