-- ===== src/EventList/Schedule.antt =====
-- `schedule_event`, `YS__RdyListAppend` and `EventSchedTime`: an event goes into the list at its time.
use ml_rsim.Prelude.{ℕ, ◌≤◌, ◌≡◌, sym, subst, List, Checked, ok, true}
use ml_rsim.EventList.{Sim, update, insert, schedule_event}
use ml_rsim.EventList.Chain.{
  Absent, From, Holds, place, update_self, From-update, Sorted-update, From-place,
}
use ml_rsim.EventList.Insert.{Inserted, insert-Inserted}

-- Every event of the list is due now or later.
abbrev pub Due : Sim → List ℕ → Type 0
Due s ids = Holds s ids × From s.time s.simtime ids

-- The state after scheduling `v`, with `time` the times that are then in force and the clock at
-- `now`: `v` stands behind all that are due no later.
pub record Scheduled (time : ℕ → ℕ) (now : ℕ) (ids : List ℕ) (v : ℕ) (r : Checked Sim)
    : Type 0 where
  pub after : Sim
  pub returns : r ≡ ok after
  pub times : after.time ≡ time
  pub clock : after.simtime ≡ now
  pub holds : Due after (place time v ids)

pub retimed :
    (s : Sim) (ids : List ℕ) (v t : ℕ)
    → Holds s ids
    → Absent v ids
    → Holds (record s { time = update s.time v t }) ids
retimed s ids v t h a = record {
  chain = h.chain;
  distinct = h.distinct;
  sorted = Sorted-update s.time v t ids a h.sorted;
  ends = h.ends;
  counted = h.counted;
}

insert-Scheduled :
    (s : Sim) (ids : List ℕ) (v t : ℕ)
    → Due s ids
    → Absent v ids
    → s.simtime ≤ t
    → Scheduled
        (update s.time v t)
        s.simtime
        ids
        v
        (insert (record s { time = update s.time v t }) v)
insert-Scheduled s ids v t d a le = record {
  after = i.after;
  returns = i.returns;
  times = i.times;
  clock = i.now;
  holds = (
    i.holds,
    subst (λ u. From u i.after.simtime (place (update s.time v t) v ids)) (sym i.times)
        (subst (λ u. From (update s.time v t) u (place (update s.time v t) v ids)) (sym i.now)
          later),
  );
}
  where
    i :
        Inserted
          (record s { time = update s.time v t })
          ids
          v
          (insert (record s { time = update s.time v t }) v)
    i = insert-Inserted (record s { time = update s.time v t }) ids v (retimed s ids v t d.0 a) a

    later : From (update s.time v t) s.simtime (place (update s.time v t) v ids)
    later =
        From-place (update s.time v t) v s.simtime ids
          (subst (λ u. s.simtime ≤ u) (sym (update_self s.time v t)) le)
          (From-update s.time v t s.simtime ids a d.1)

-- `schedule_event` with a time that has not passed always succeeds.
pub schedule_event-Scheduled :
    (s : Sim) (ids : List ℕ) (v abstime : ℕ)
    → Due s ids
    → Absent v ids
    → s.simtime ≤ abstime
    → Scheduled (update s.time v abstime) s.simtime ids v (schedule_event s v abstime)
unfolding schedule_event
schedule_event-Scheduled s ids v t d a le =
    insert-Scheduled (record s { scheduled = update s.scheduled v true }) ids v t d a le
