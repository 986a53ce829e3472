-- ===== src/Driver.antt =====
-- `DriverRun` of sim_main/main.c, the main simulation loop. The function that an event calls is a
-- parameter, `body`: every handler of the simulator stands there. `W` is the state of the modules that
-- the handlers change.
mod Tests
pub mod Clock
pub mod Edits
use ml_rsim.Prelude.{
  ℕ, zero, suc, Bool, true, false, Option, none, some, List, ◌∷◌, Checked, ok, fatal, deref, ◌>>=◌,
  ◌==◌, if◌then◌else◌,
}
use ml_rsim.EventList.{Sim, Status, limbo, running, update, get_head}

-- What one round of the loop did.
pub data Round (W : Type 0) : Type 0 where
  called : Sim → W → Round W
  advanced : Sim → W → Round W
  returned : Sim → W → Round W

-- `if (YS__ActEvnt->deleteflag == DELETE) YS__PoolReturnObj(...)`, for the event `v`
abbrev pub release : ℕ → Sim → Sim
release v s = if s.deleteflag v then record s { freed = v ∷ s.freed } else s

-- `YS__ActEvnt = actptr; YS__ActEvnt->status = RUNNING;`
unfoldable pub activate : ℕ → Sim → Sim
activate v s = record s { act_evnt = some v; status = update s.status v running }

-- The rest of the turn once the handler has returned.
unfoldable pub retire : ℕ → Sim → Sim
retire a s =
    let done = release a (record s { status = update s.status a limbo }) in
    record done { act_evnt = none }

module _ {W : Type 0} (body : ℕ → Sim → W → Checked (Sim × W)) where
  -- The inner loop's body: the first event becomes active, runs, and goes back to LIMBO.
  pub call : Sim → W → Checked (Sim × W)
  call s w = do
    let (first, taken) = get_head s
    v ← deref first
    (s', w') ← body v (activate v taken) w
    a ← deref s'.act_evnt
    ok (retire a s', w')

  -- One turn of either loop; `head` NULL stands for the head value -1.0.
  pub round : Sim → W → Checked (Round W)
  round s w = elim s.head [
    | none ↦ ok (returned s w)
    | some h ↦
        if s.time h == s.simtime
        then (call s w >>= λ t. ok (called t.0 t.1))
        else ok (advanced (record s { simtime = s.time h }) w)
  ]

  -- `DriverRun` for at most `turns` turns of its loops
  pub driver_run : ℕ → Sim → W → Checked (Sim × W)
  driver_run zero s w = fatal
  driver_run (suc turns) s w = do
    r ← round s w
    let on = λ (s' : Sim) (w' : W). driver_run turns s' w'
    elim r [ called s' w' ↦ on s' w' | advanced s' w' ↦ on s' w' | returned s' w' ↦ ok (s', w') ]
