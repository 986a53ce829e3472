-- ===== src/BranchPredictor/Decode.antt =====
-- StartCtlXfer of Processor/branchpred.hh and decode_branch_instruction of Processor/branchpred.cc.
use ml_rsim.Prelude.{
  ℕ, ◌*◌, Bool, true, false, not, ◌&&◌, ◌||◌, Checked, ok, fatal, ◌>>=◌, ◌==◌, if◌then◌else◌,
}
use ml_rsim.Alu.{plus, Instance}
use ml_rsim.BranchPredictor.{Predictor, bpb_predict, ras_insert, ras_predict}

-- What the two functions use of a `ProcState`
pub record Fetch : Type 0 where
  pub pc : ℕ
  pub npc : ℕ
  pub copymappernext : Bool
  pub unpredbranch : Bool
  pub predictor : Predictor

pub record Started : Type 0 where
  pub inst : Instance
  pub fetch : Fetch

abbrev pub aim : Instance → Fetch → ℕ → ℕ → Started
aim i f taken target = record { inst = record i { taken = taken; branch_pred = target }; fetch = f }

-- A branch or a call to a known address
unfoldable pub start_known : Instance → Fetch → Checked Started
start_known i f = do
  let target : ℕ = plus f.pc (i.imm * 4)
  p ← (if i.uncond_branch == 3 then ras_insert f.predictor (plus i.pc 8) else ok f.predictor)
  ok (aim (record i { newpc = target }) (record f { predictor = p }) 2 target)

unfoldable pub start_return : Instance → Fetch → Checked Started
start_return i f = do r ← ras_predict f.predictor; ok (aim i (record f { predictor = r.1 }) 1 r.0)

unfoldable pub start_conditional : Instance → Fetch → Checked Started
start_conditional i f = do
  result ← (if i.cond_branch && i.never then ok 1 else bpb_predict f.predictor i.pc i.hint)
  ok (aim i f result (if result == 0 then plus i.pc 8 else plus i.pc (i.imm * 4)))

unfoldable pub start_ctl_xfer : Instance → Fetch → Checked Started
start_ctl_xfer i f =
    if (i.uncond_branch == 2) || (i.uncond_branch == 3)
    then start_known i f
    else if i.uncond_branch == 4
    then start_return i f
    else if i.uncond_branch == 0
    then start_conditional i f
    else ok (aim i f 3 4294967295)

-- What decode_branch_instruction returns, with what it leaves
pub record Decoded : Type 0 where
  pub stalls : Bool
  pub inst : Instance
  pub fetch : Fetch

abbrev pub go : Instance → Fetch → ℕ → ℕ → Decoded
go i f pc npc = record { stalls = false; inst = i; fetch = record f { pc = pc; npc = npc } }

-- The four switches on `inst->taken`
unfoldable pub uncond_delayed : Instance → Fetch → Checked Decoded
uncond_delayed i f =
    if i.taken == 1
    then ok (go i (record f { copymappernext = true }) f.npc i.branch_pred)
    else if i.taken == 2
    then ok (go i f f.npc i.branch_pred)
    else if i.taken == 3
    then ok (record {
      stalls = true;
      inst = record i { branchdep = 1 };
      fetch = record f { pc = f.npc; npc = i.branch_pred; unpredbranch = true };
    })
    else fatal

unfoldable pub uncond_annulled : Instance → Fetch → Checked Decoded
uncond_annulled i f =
    if i.taken == 1
    then ok (go (record i { branchdep = 2 }) f i.branch_pred (plus i.branch_pred 4))
    else if i.taken == 2
    then ok (go i f i.branch_pred (plus i.branch_pred 4))
    else if i.taken == 3
    then ok (record {
      stalls = false;
      inst = record i { branchdep = 1 };
      fetch = record f { pc = i.branch_pred; unpredbranch = true };
    })
    else fatal

unfoldable pub cond_delayed : Instance → Fetch → Checked Decoded
cond_delayed i f =
    if i.taken == 0
    then ok (go i (record f { copymappernext = true }) f.npc (plus f.npc 4))
    else if i.taken == 1
    then ok (go i (record f { copymappernext = true }) f.npc i.branch_pred)
    else fatal

unfoldable pub cond_annulled : Instance → Fetch → Checked Decoded
cond_annulled i f =
    if i.taken == 0
    then ok (go (record i { branchdep = 2 }) f (plus f.npc 4) (plus (plus f.npc 4) 4))
    else if i.taken == 1
    then ok (go (record i { branchdep = 2 }) f f.npc i.branch_pred)
    else fatal

unfoldable pub decode_started : Instance → Fetch → Checked Decoded
decode_started i f =
    if not (i.uncond_branch == 0)
    then (if i.annul then uncond_annulled i f else uncond_delayed i f)
    else if i.annul
    then cond_annulled i f
    else cond_delayed i f

unfoldable pub decode_branch_instruction : Instance → Fetch → Checked Decoded
decode_branch_instruction i f = start_ctl_xfer i f >>= λ s. decode_started s.inst s.fetch
