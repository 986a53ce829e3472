-- ===== src/EventList.antt =====
-- sim_main/evlst.c and evlst.h, the event list, and the driver loop of sim_main/main.c. An event is
-- a pointer, here a number, and each field of EVENT is a function of it. Times are
-- numbers of a unit that divides all of them. The name, the statistics and the trace output are left
-- out.
mod Tests
pub mod Chain
pub mod Walk
pub mod Insert
pub mod Erase
pub mod Remove
pub mod Schedule
pub mod Contract
use ml_rsim.Prelude.{
  ℕ, zero, suc, ◌+◌, ◌-◌, Bool, true, false, Option, none, some, List, [], ◌∷◌, Checked, ok, fatal,
  deref, ◌>>=◌, ltb, leb, ◌==◌, if◌then◌else◌, not, ◌&&◌,
}

-- `vptr->status`
pub data Status : Type 0 where
  limbo ready delayed running : Status

-- The heap of events with the globals `head`, `tail`, `size`, `YS__Simtime` and `YS__ActEvnt`.
pub record Sim : Type 0 where
  pub next : ℕ → Option ℕ
  pub time : ℕ → ℕ
  pub status : ℕ → Status
  pub scheduled : ℕ → Bool
  pub blkflg : ℕ → ℕ
  pub deleteflag : ℕ → Bool
  pub state : ℕ → ℕ
  pub head : Option ℕ
  pub tail : Option ℕ
  pub size : ℕ
  pub simtime : ℕ
  pub act_evnt : Option ℕ
  pub freed : List ℕ

abbrev pub update {ℓ} : {A : Type ℓ} → (ℕ → A) → ℕ → A → ℕ → A
update f i a j = if i == j then a else f j

-- `YS__EventListInit`
pub event_list_init : Sim → Sim
event_list_init s = record s { head = none; tail = none; size = 0 }

-- `while (vptr->time >= tp1->next->time) tp1 = tp1->next;`
pub walk : ℕ → (ℕ → Option ℕ) → (ℕ → ℕ) → ℕ → ℕ → Checked ℕ
walk zero next time w p = fatal
walk (suc fuel) next time w p = elim (next p) [
  | none ↦ fatal
  | some n ↦ let rest = walk fuel next time w n in if leb (time n) w then rest else ok p
]

-- `vptr->next = tp1->next; tp1->next = vptr;`
pub link : (ℕ → Option ℕ) → ℕ → ℕ → ℕ → Option ℕ
link next p v = update (update next v (next p)) p (some v)

-- `YS__EventListInsert` where the element goes in the middle; the walk takes fewer steps than `size`.
pub insert_middle : Sim → ℕ → ℕ → Checked Sim
insert_middle s v h = do
  p ← walk (s.size + 1) s.next s.time (s.time v) h
  ok (record s { size = s.size + 1; next = link s.next p v })

-- `YS__EventListInsert` on a queue that is not empty, with `head` and `tail`
pub insert_between : Sim → ℕ → ℕ → ℕ → Checked Sim
insert_between s v h t =
    if ltb (s.time v) (s.time h)
    then ok (record s { size = s.size + 1; next = update s.next v (some h); head = some v })
    else if leb (s.time t) (s.time v)
    then ok (record s {
      size = s.size + 1;
      next = update (update s.next t (some v)) v none;
      tail = some v;
    })
    else insert_middle s v h

-- `YS__EventListInsert`
pub insert : Sim → ℕ → Checked Sim
insert s v = elim s.head [
  | none ↦
      ok (record s { size = s.size + 1; head = some v; tail = some v; next = update s.next v none })
  | some h ↦ elim s.tail [ none ↦ fatal | some t ↦ insert_between s v h t ]
]

-- `while (e != NULL && e->next != NULL && e->next != vptr) e = e->next;` for `e` not NULL
pub seek : ℕ → (ℕ → Option ℕ) → ℕ → ℕ → Checked ℕ
seek zero next v e = fatal
seek (suc fuel) next v e = elim (next e) [
  | none ↦ ok e
  | some n ↦ let rest = seek fuel next v n in if n == v then ok e else rest
]

abbrev pub is : Option ℕ → ℕ → Bool
is none v = false
is (some h) v = h == v

-- `YS__EventListRemove`; it leaves `size` as it is.
pub remove : Sim → ℕ → Checked Sim
remove s v = if is s.head v then ok (record s { head = s.next v }) else do
  h ← deref s.head
  e ← seek (s.size + 1) s.next v h
  let next' = update s.next e (s.next v)
  ok (record s { next = next'; tail = if is s.tail v then some e else s.tail })

-- `if (head == 0) tail = 0;`
abbrev pub tail_behind : Option ℕ → Option ℕ → Option ℕ
tail_behind none t = none
tail_behind (some h) t = t

-- `YS__EventListGetHead` on a queue that is not empty
unfoldable pub take_head : Sim → ℕ → Sim
take_head s h = record s {
  size = s.size - 1;
  head = s.next h;
  next = update s.next h none;
  scheduled = update s.scheduled h false;
  tail = tail_behind (s.next h) s.tail;
}

-- `YS__EventListGetHead`, with the event that it returns
pub get_head : Sim → Option ℕ × Sim
get_head s = elim s.head [ none ↦ (none, s) | some h ↦ (some h, take_head s h) ]

-- `schedule_event` and `deschedule_event`
unfoldable pub schedule_event : Sim → ℕ → ℕ → Checked Sim
schedule_event s v abstime =
    insert (record s { scheduled = update s.scheduled v true; time = update s.time v abstime }) v

pub deschedule_event : Sim → ℕ → Checked Sim
deschedule_event s v = remove (record s { scheduled = update s.scheduled v false }) v

-- `YS__RdyListAppend` of main.c
pub rdy_list_append : Sim → ℕ → Checked Sim
rdy_list_append s v = do
  s' ← insert (record s { time = update s.time v s.simtime }) v
  ok (record s' { status = update s'.status v ready })

-- `double timeinc`
pub data Increment : Type 0 where
  ahead : ℕ → Increment
  -- below 0
  behind : Increment

-- The event that a call is about: its argument, or the active event if that is NULL.
pub target : Sim → Option ℕ → Checked ℕ
target s (some v) = ok v
target s none = do v ← deref s.act_evnt; if s.deleteflag v then fatal else ok v

abbrev pub idle : Status → Bool
idle running = true
idle limbo = true
idle ready = false
idle delayed = false

-- `EventSchedTime` once the event is known
pub sched_at : Sim → ℕ → Increment → Checked Sim
sched_at s v behind = fatal
sched_at s v (ahead zero) = rdy_list_append (record s { time = update s.time v s.simtime }) v
sched_at s v (ahead (suc n)) =
    insert
      (record s { time = update s.time v (s.simtime + suc n); status = update s.status v delayed })
      v

-- `EventSchedTime`
pub event_sched_time : Sim → Option ℕ → Increment → ℕ → Checked Sim
event_sched_time s actptr timeinc bflg = do
  v ← target s actptr
  let s' = record s { blkflg = update s.blkflg v bflg }
  if idle (s'.status v) then sched_at s' v timeinc else fatal

-- `EventSetState` and `EventGetState`
pub event_set_state : Sim → Option ℕ → ℕ → Checked Sim
event_set_state s (some v) st = ok (record s { state = update s.state v st })
event_set_state s none st = do v ← deref s.act_evnt; ok (record s { state = update s.state v st })

pub event_get_state : Sim → Checked ℕ
event_get_state s = do v ← deref s.act_evnt; ok (s.state v)
