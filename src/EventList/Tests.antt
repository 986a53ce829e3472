-- ===== src/EventList/Tests.antt =====
-- The event list on concrete events.
use ml_rsim.Prelude.{ℕ, zero, suc, ◌≡◌, refl, [], ◌∷◌, Option, none, some, arith, true, false}
use ml_rsim.EventList.{Sim, limbo}
use ml_rsim.EventList.Chain.{place}
use ml_rsim.EventList.Contract.{IsSchedule, Holds-IsSchedule}
use ml_rsim.EventList.Schedule.{Due}

abbrev times : ℕ → ℕ
times zero = 5
times (suc zero) = 8
times (suc (suc n)) = 6

abbrev nexts : ℕ → Option ℕ
nexts zero = some 1
nexts (suc n) = none

-- Event 0 is due at 5 and event 1 at 8; the time is 4.
abbrev two_events : Sim
two_events = record {
  next = nexts;
  time = times;
  status = λ v. limbo;
  scheduled = λ v. true;
  blkflg = λ v. 0;
  deleteflag = λ v. false;
  state = λ v. 0;
  head = some 0;
  tail = some 1;
  size = 2;
  simtime = 4;
  act_evnt = none;
  freed = [];
}

two_events-Due : Due two_events (0 ∷ 1 ∷ [])
two_events-Due = (
  record {
    chain = (refl, (refl, refl));
    distinct = (((λ e. omega (arith, e)), tt), (tt, tt));
    sorted = ((omega arith, tt), (tt, tt));
    ends = refl;
    counted = omega arith;
  },
  (omega arith, (omega arith, tt)),
)

Holds-IsSchedule_example : IsSchedule two_events (0 ∷ 1 ∷ [])
Holds-IsSchedule_example = Holds-IsSchedule two_events (0 ∷ 1 ∷ []) two_events-Due.0

place-between : place times 2 (0 ∷ 1 ∷ []) ≡ 0 ∷ 2 ∷ 1 ∷ []
unfolding place
place-between = refl
