-- ===== src/Driver/Clock.antt =====
-- A turn of the loops of `DriverRun`: the simulation clock never runs backwards.
use ml_rsim.Prelude.{ℕ, ◌<◌, ◌≡◌, List, [], ◌∷◌, Checked, ok, fatal}
use ml_rsim.EventList.{Sim, take_head}
use ml_rsim.Driver.{Round, called, advanced, returned, activate, retire}
use ml_rsim.Driver.Edits.{Timely, Edits}

module _ {W : Type 0} (body : ℕ → Sim → W → Checked (Sim × W)) where
  -- A handler that returns has changed the event list only by scheduling events.
  abbrev pub OnlyEdits : Type 0
  OnlyEdits = (v : ℕ) (s t : Sim) (w w' : W) → body v s w ≡ ok (t, w') → Edits s t

  -- What a turn does in a state with the events `ids`
  pub data TurnOf (s : Sim) (ids : List ℕ) (w : W) (r : Checked (Round W)) : Type 0 where
    -- the first event is due, and its handler stops the simulator
    stops :
        (i : ℕ) (is : List ℕ)
        → ids ≡ i ∷ is
        → s.time i ≡ s.simtime
        → body i (activate i (take_head s i)) w ≡ fatal
        → r ≡ fatal
        → TurnOf s ids w r
    -- the first event is due, and its handler returns
    calls :
        (i : ℕ) (is left : List ℕ) (t : Sim) (w' : W)
        → ids ≡ i ∷ is
        → s.time i ≡ s.simtime
        → body i (activate i (take_head s i)) w ≡ ok (t, w')
        → r ≡ ok (called (retire i t) w')
        → Timely (retire i t) left
        → (retire i t).simtime ≡ s.simtime
        → TurnOf s ids w r
    -- the first event is due later, and the clock advances to it
    advances :
        (i : ℕ) (is : List ℕ)
        → ids ≡ i ∷ is
        → s.simtime < s.time i
        → r ≡ ok (advanced (record s { simtime = s.time i }) w)
        → Timely (record s { simtime = s.time i }) ids
        → TurnOf s ids w r
    -- there is no event
    ends : ids ≡ [] → r ≡ ok (returned s w) → TurnOf s ids w r
