-- ===== src/BranchPredictor.antt =====
-- Processor/branchpred.hh and decode_branch_instruction of Processor/branchpred.cc: the predictor of
-- branches and the stack of return addresses. The tables are those that BPBSetup and RASSetup allocate.
pub mod Stack
pub mod History
pub mod Decode
pub mod Returns
pub mod Trained
pub mod Switches
pub mod Ready
pub mod Starts
pub mod Flow
mod Tests
use ml_rsim.Prelude.{
  ℕ, zero, suc, ◌+◌, ◌-◌, ◌*◌, ◌/◌, ◌%◌, Bool, true, false, not, ◌&&◌, ◌||◌, Option, none, some,
  List, Checked, ok, fatal, deref, ◌>>=◌, ltb, leb, ◌==◌, if◌then◌else◌, get_elem?, set, replicate,
  bit_and,
}
use ml_rsim.Alu.{plus, Instance}

-- `bptype`
pub data BpType : Type 0 where
  two_bit two_bit_agree static : BpType

-- The predictor of a `ProcState`, and its configuration
pub record Predictor : Type 0 where
  pub bpb_type : BpType
  pub bpb_size : ℕ
  pub branch_pred : List ℕ
  pub prev_pred : List ℕ
  pub ras_stksz : ℕ
  pub return_address_stack : List ℕ
  pub rascnt : ℕ
  pub rasptr : ℕ
  pub ras_overflows : ℕ
  pub ras_underflows : ℕ

unfoldable pub bpb_setup : Predictor → Predictor
bpb_setup p = elim p.bpb_type [
  | static ↦ p
  | _ ↦
      if ltb 0 p.bpb_size
      then record p { branch_pred = replicate p.bpb_size 1; prev_pred = replicate p.bpb_size 0 }
      else record p { bpb_type = static }
]

abbrev pub position : Predictor → ℕ → ℕ
position p bpc = bit_and (bpc / 4) (p.bpb_size - 1)

abbrev pub agree : ℕ → ℕ → ℕ
agree a b = if a == b then 1 else 0

unfoldable pub bpb_predict : Predictor → ℕ → ℕ → Checked ℕ
bpb_predict p bpc statpred = elim p.bpb_type [
  | two_bit ↦ deref (get_elem? p.branch_pred (position p bpc))
  | two_bit_agree ↦
      deref (get_elem? p.branch_pred (position p bpc)) >>= λ bit. ok (agree bit statpred)
  | static ↦ ok statpred
]

-- The end of BPBComplete, with `inbit`
unfoldable pub learn : Predictor → ℕ → ℕ → Checked Predictor
learn p posn inbit = do
  prev ← deref (get_elem? p.prev_pred posn)
  pred ← deref (get_elem? p.branch_pred posn)
  ok (record p {
    prev_pred = set p.prev_pred posn inbit;
    branch_pred = if prev == pred then p.branch_pred else set p.branch_pred posn inbit;
  })

unfoldable pub bpb_complete : Predictor → ℕ → ℕ → ℕ → Checked Predictor
bpb_complete p bpc taken statpred = elim p.bpb_type [
  | two_bit ↦ learn p (position p bpc) taken
  | two_bit_agree ↦ learn p (position p bpc) (agree taken statpred)
  | static ↦ ok p
]

unfoldable pub ras_setup : Predictor → Predictor
ras_setup p = record p {
  return_address_stack =
      if ltb 0 p.ras_stksz then replicate p.ras_stksz 0 else p.return_address_stack;
  rascnt = 0;
  rasptr = 0;
}

unfoldable pub ras_insert : Predictor → ℕ → Checked Predictor
ras_insert p retpc =
    if ltb 0 p.ras_stksz
    then (do
      old ← deref (get_elem? p.return_address_stack p.rasptr)
      let full = p.rascnt == p.ras_stksz
      ok (record p {
        return_address_stack = set p.return_address_stack p.rasptr retpc;
        ras_overflows = if full then p.ras_overflows + 1 else p.ras_overflows;
        rascnt = if full then p.rascnt else p.rascnt + 1;
        rasptr = (p.rasptr + 1) % p.ras_stksz;
      }))
    else ok p

-- The prediction, with what is left
unfoldable pub ras_predict : Predictor → Checked (ℕ × Predictor)
ras_predict p =
    if ltb 0 p.ras_stksz
    then (do
      let ptr : ℕ = (p.rasptr + p.ras_stksz - 1) % p.ras_stksz
      target ← deref (get_elem? p.return_address_stack ptr)
      ok (
        target,
        record p {
          ras_underflows = if p.rascnt == 0 then p.ras_underflows + 1 else p.ras_underflows;
          rascnt = if p.rascnt == 0 then p.rascnt else p.rascnt - 1;
          rasptr = ptr;
        },
      ))
    else ok (0, p)
