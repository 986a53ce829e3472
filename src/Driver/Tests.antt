-- ===== src/Driver/Tests.antt =====
-- The main loop with a handler that asks for an event, as Bus_recv_arb_req asks for the arbitrator.
use ml_rsim.Prelude.{
  ◌==◌, ℕ, ◌≡◌, refl, [], none, some, Checked, ok, fatal, false, if◌then◌else◌, ◌>>=◌, max,
}
use ml_rsim.EventList.{Sim, limbo, schedule_event}
use ml_rsim.Driver.Edits.{Edits}

-- Event 5 is scheduled for the time at which the bus is free, unless it is scheduled.
abbrev asks : ℕ → Sim → ℕ → Checked (Sim × ℕ)
asks v s busy_until =
    let asked = schedule_event s 5 (max s.simtime busy_until) >>= λ t. ok (t, busy_until) in
    if s.scheduled 5 then ok (s, busy_until) else asked

abbrev both : ℕ → Sim → Checked (Sim × ℕ)
both w s = ok (s, w)

left_alone : (s t : Sim) (w w' : ℕ) → both w s ≡ both w' t → s ≡ t
left_alone s t w w' p = cc p

scheduled :
    (m : Checked Sim) (t : Sim) (w w' : ℕ)
    → (m >>= both w) ≡ both w' t
    → (u : Sim) × (m ≡ ok u) × (u ≡ t)
scheduled fatal t w w' p = absurd (cc p)
scheduled (ok u) t w w' p = (u, refl, left_alone u t w w' p)

-- Event 3 is due at 9; the time is 9.
abbrev one_event : Sim
one_event = record {
  next = λ v. none;
  time = λ v. 9;
  status = λ v. limbo;
  scheduled = λ v. v == 3;
  blkflg = λ v. 0;
  deleteflag = λ v. false;
  state = λ v. 0;
  head = some 3;
  tail = some 3;
  size = 1;
  simtime = 9;
  act_evnt = none;
  freed = [];
}
