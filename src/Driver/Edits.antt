-- ===== src/Driver/Edits.antt =====
-- What handlers do to the event list: `schedule_event` and `IsNotScheduled` of sim_main/evlst.h.
use ml_rsim.Prelude.{
  ℕ, ◌≤◌, ◌≡◌, refl, sym, subst, ◌∙◌, inl, inr, Bool, true, false, List, [], ◌∷◌, arith, ok, ltb,
  Bool-cases,
}
use ml_rsim.EventList.{Sim, update, schedule_event, insert}
use ml_rsim.EventList.Chain.{Absent, place, update_self, update-ne}
use ml_rsim.EventList.Insert.{Inserted, insert-Inserted}
use ml_rsim.EventList.Schedule.{Due, Scheduled, retimed, schedule_event-Scheduled}

-- Every event of the list is marked as scheduled.
abbrev pub AllFlagged : (ℕ → Bool) → List ℕ → Type 0
AllFlagged f [] = Unit {0}
AllFlagged f (i ∷ is) = (f i ≡ true) × AllFlagged f is

-- Nothing is overdue, and IsNotScheduled holds of no event in the list.
abbrev pub Timely : Sim → List ℕ → Type 0
Timely s ids = Due s ids × AllFlagged s.scheduled ids

-- A handler between two states of the event list: it schedules events that are not scheduled, for
-- now or later, and stores its own fields.
pub data Edits : Sim → Sim → Type 0 where
  nothing : (s : Sim) → Edits s s
  schedules :
      (s s' t : Sim) (v abstime : ℕ)
      → s.scheduled v ≡ false
      → s.simtime ≤ abstime
      → schedule_event s v abstime ≡ ok s'
      → Edits s' t
      → Edits s t
  stores :
      (s t : Sim) (state blkflg : ℕ → ℕ)
      → Edits (record s { state = state; blkflg = blkflg }) t
      → Edits s t

Absent-unflagged :
    (f : ℕ → Bool) (v : ℕ) (ids : List ℕ) → AllFlagged f ids → f v ≡ false → Absent v ids
Absent-unflagged f v [] h e = tt
Absent-unflagged f v (i ∷ is) h e =
    (λ same. absurd (cc (h.0, e, same)), Absent-unflagged f v is h.1 e)

AllFlagged-mark :
    (f : ℕ → Bool) (v : ℕ) (ids : List ℕ) → AllFlagged f ids → AllFlagged (update f v true) ids
AllFlagged-mark f v [] h = tt
AllFlagged-mark f v (i ∷ is) h = (ground (arith, h.0), AllFlagged-mark f v is h.1)

pub AllFlagged-clear :
    (f : ℕ → Bool) (v : ℕ) (ids : List ℕ)
    → Absent v ids
    → AllFlagged f ids
    → AllFlagged (update f v false) ids
AllFlagged-clear f v [] a h = tt
AllFlagged-clear f v (i ∷ is) a h =
    (update-ne f v false i a.0 ∙ h.0, AllFlagged-clear f v is a.1 h.1)

AllFlagged-place :
    (f : ℕ → Bool) (time : ℕ → ℕ) (v : ℕ) (ids : List ℕ)
    → f v ≡ true
    → AllFlagged f ids
    → AllFlagged f (place time v ids)
unfolding place
AllFlagged-place f time v [] e h = (e, tt)
AllFlagged-place f time v (i ∷ is) e h = elim (Bool-cases (ltb (time v) (time i))) [
  | inl lt ↦ rw lt (e, h)
  | inr ge ↦ rw ge (h.0, AllFlagged-place f time v is e h.1)
]

same_state : {s t : Sim} → ok s ≡ ok t → s ≡ t
same_state e = cc

-- What a handler leaves
pub record Left (s t : Sim) : Type 0 where
  pub ids : List ℕ
  pub timely : Timely t ids
  pub clock : t.simtime ≡ s.simtime
  pub active : t.act_evnt ≡ s.act_evnt

schedule_event-Left :
    (s t : Sim) (ids : List ℕ) (v abstime : ℕ)
    → Timely s ids
    → s.scheduled v ≡ false
    → s.simtime ≤ abstime
    → schedule_event s v abstime ≡ ok t
    → Left s t
unfolding schedule_event
schedule_event-Left s t ids v abstime (d, h) free le e =
    subst (Left s) (sym (same_state (sym e ∙ i.returns))) (record {
      ids = place (update s.time v abstime) v ids;
      timely = (
        subst (λ u. Due u (place (update s.time v abstime) v ids))
            (same_state (sym r.returns ∙ i.returns)) r.holds,
        subst (λ f. AllFlagged f (place (update s.time v abstime) v ids)) (sym i.flags)
            (AllFlagged-place (update s.scheduled v true) (update s.time v abstime) v ids
              (update_self s.scheduled v true) (AllFlagged-mark s.scheduled v ids h)),
      );
      clock = i.now;
      active = i.active;
    })
  where
    a : Absent v ids
    a = Absent-unflagged s.scheduled v ids h free

    marked : Sim
    marked = record s { scheduled = update s.scheduled v true }

    timed : Sim
    timed = record marked { time = update s.time v abstime }

    i : Inserted timed ids v (insert timed v)
    i = insert-Inserted timed ids v (retimed marked ids v abstime d.0 a) a

    r : Scheduled (update s.time v abstime) s.simtime ids v (schedule_event s v abstime)
    r = schedule_event-Scheduled s ids v abstime d a le

pub Edits-Left : (s t : Sim) (ids : List ℕ) → Timely s ids → Edits s t → Left s t
Edits-Left s _ ids h (nothing _) = record { ids = ids; timely = h; clock = refl; active = refl }
Edits-Left s t ids h (schedules _ s' _ v abstime free le e rest) =
    let l = schedule_event-Left s s' ids v abstime h free le e in
    let m = Edits-Left s' t l.ids l.timely rest in
    record {
      ids = m.ids;
      timely = m.timely;
      clock = m.clock ∙ l.clock;
      active = m.active ∙ l.active;
    }
Edits-Left s t ids h (stores _ _ state blkflg rest) =
    let m = Edits-Left (record s { state = state; blkflg = blkflg }) t ids h rest in
    record { ids = m.ids; timely = m.timely; clock = m.clock; active = m.active }
