-- ===== src/Bus.antt =====
-- Bus/bus.c, the arbitration for the system bus of a node, with the fields of BUS that it uses. Times are
-- in tenths of a cycle, as the program uses halves and tenths of cycles. The modules are numbered from 0, the
-- memory controller last.
mod Tests
pub mod Winner
pub mod Grant
pub mod Master
pub mod Wakeup
pub mod Counts
pub mod Sync
use ml_rsim.Prelude.{
  ℕ, zero, suc, ◌+◌, ◌-◌, ◌*◌, ◌/◌, ◌%◌, Bool, true, false, not, ◌&&◌, ◌||◌, Option, none, some,
  List, Checked, ok, fatal, deref, ◌>>=◌, ltb, leb, ◌==◌, if◌then◌else◌, get_elem?, set, max,
}

-- `req->type`
pub data ReqKind : Type 0 where
  request reply cohe cohe_reply writeback writepurge barrier : ReqKind

-- The fields of REQ that the arbitration reads; `write_uc` is req_type == WRITE_UC.
pub record Req : Type 0 where
  pub kind : ReqKind
  pub write_uc : Bool
  pub bus_cycles : ℕ

-- `ARBWAITER`
pub record Waiter : Type 0 where
  pub req : Option Req
  pub time : ℕ

-- The parameters of the bus; `num_modules` is both NUM_MODULES and MEM_CNTL.
pub record Params : Type 0 where
  pub num_modules : ℕ
  pub frequency : ℕ
  pub turnaround : ℕ
  pub arbdelay : ℕ
  pub mindelay : ℕ
  pub total_requests : ℕ

pub data BusState : Type 0 where
  idle arbitrating wakingup : BusState

-- `BUS`; `masters` is pstates == MASTER_STATE, `arbitrator` the time for which that event is scheduled.
pub record Bus : Type 0 where
  pub busy_until : ℕ
  pub state : BusState
  pub req_count : ℕ
  pub masters : List Bool
  pub arbwaiters : List Waiter
  pub arbwaiter_count : ℕ
  pub rr_index : ℕ
  pub cur_winner : ℕ
  pub next_winner : Option ℕ
  pub next_req : Option Req
  pub next_start_time : ℕ
  pub last_start_time : ℕ
  pub last_end_time : ℕ
  pub arbitrator : Option ℕ
  pub write_flowcontrol : Bool

-- The time of a number of whole cycles
abbrev pub ticks : ℕ → ℕ
ticks cycles = cycles * 10

-- `(long long)(t + 0.99)`, in whole cycles
abbrev pub whole : ℕ → ℕ
whole t = (10 * t + 99) / 100

-- `while (start % BUS_FREQUENCY) start++;`
unfoldable pub sync : ℕ → ℕ → ℕ → Checked ℕ
sync zero frequency start = fatal
sync (suc fuel) frequency start =
    let rest = sync fuel frequency (start + 1) in if start % frequency == 0 then ok start else rest

abbrev pub is_request : ReqKind → Bool
is_request request = true
is_request reply = false
is_request cohe = false
is_request cohe_reply = false
is_request writeback = false
is_request writepurge = false
is_request barrier = false

-- COHE_REPLY, WRITEBACK and WRITEPURGE
abbrev pub is_write : ReqKind → Bool
is_write request = false
is_write reply = false
is_write cohe = false
is_write cohe_reply = true
is_write writeback = true
is_write writepurge = true
is_write barrier = false

module _ (c : Params) where
  -- `Bus_recv_arb_req` from module `pid`
  unfoldable pub recv_arb_req : ℕ → Bus → ℕ → Req → ℕ → Checked Bus
  recv_arb_req now b pid req start_time = do
    w ← deref (get_elem? b.arbwaiters pid)
    start ← sync c.frequency c.frequency (whole start_time)
    let b' = record b {
      arbwaiters = set b.arbwaiters pid (record { req = some req; time = ticks start });
      arbwaiter_count = b.arbwaiter_count + 1;
    }
    let called = record b' { state = arbitrating; arbitrator = some (max now b.busy_until) }
    elim w.req [ some r ↦ fatal | none ↦ elim b.arbitrator [ none ↦ ok called | some t ↦ ok b' ] ]

  -- The two `continue`s of the search
  unfoldable pub held_back : Bus → Req → Bool
  held_back b r =
      ((b.req_count == c.total_requests) && (is_request r.kind && not r.write_uc))
      || (b.write_flowcontrol && is_write r.kind)

  -- `parb->time < start_time`, where `none` stands for 1e20
  abbrev pub sooner : ℕ → Option (ℕ × ℕ) → Bool
  sooner time none = true
  sooner time (some (i, start_time)) = ltb time start_time

  -- A turn of the search, with `next_winner` and its `start_time`
  unfoldable pub consider : Bus → ℕ → Waiter → Option (ℕ × ℕ) → Option (ℕ × ℕ)
  consider b i w best = elim w.req [
    | none ↦ best
    | some r ↦ if sooner w.time best && not (held_back b r) then some (i, w.time) else best
  ]

  -- The search through the next `k` modules from `i` on
  unfoldable pub seek : Bus → ℕ → ℕ → Option (ℕ × ℕ) → Checked (Option (ℕ × ℕ))
  seek b zero i best = ok best
  seek b (suc k) i best = do
    w ← deref (get_elem? b.arbwaiters i)
    seek b k (i + 1) (consider b i w best)

  -- Both loops, in round-robin order
  unfoldable pub round_robin : Bus → Checked (Option (ℕ × ℕ))
  round_robin b = do
    best ← seek b (c.num_modules - b.rr_index) b.rr_index none
    seek b b.rr_index 0 best

  -- `if (++pbus->rr_index == NUM_MODULES) pbus->rr_index = 0;`
  abbrev pub next_index : ℕ → ℕ
  next_index i = if i + 1 == c.num_modules then 0 else i + 1

  -- `time <= start_time`
  abbrev pub no_later : ℕ → Option (ℕ × ℕ) → Bool
  no_later time none = true
  no_later time (some (i, start_time)) = leb time start_time

  -- The memory controller goes first; the round-robin index.
  unfoldable pub prefer : Bus → Waiter → Option (ℕ × ℕ) → Option (ℕ × ℕ) × ℕ
  prefer b m best = elim m.req [
    | none ↦ (best, next_index b.rr_index)
    | some r ↦
        if no_later m.time best
        then (some (c.num_modules, m.time), b.rr_index)
        else (best, next_index b.rr_index)
  ]

  -- `next_start_time`
  unfoldable pub start_at : Bus → ℕ → ℕ → ℕ → ℕ
  start_at b winner start_time next_cycle =
      let gap = b.last_start_time + ticks (c.mindelay * c.frequency) in
      let same = max (max gap b.last_end_time) (ticks next_cycle) in
      let other =
        max (max gap (b.last_end_time + ticks (c.turnaround * c.frequency)))
          (max (start_time + ticks (c.arbdelay * c.frequency)) (ticks next_cycle)) in
      max (if winner == b.cur_winner then same else other) b.busy_until

  -- The rest of `Bus_arbitrator` for a winner that waits with `r`
  unfoldable pub grant : Bus → ℕ → ℕ → ℕ → ℕ → Waiter → Req → Bus
  grant b rr winner start_time next_cycle w r =
      let start = start_at b winner start_time next_cycle in
      record b {
        rr_index = rr;
        arbwaiter_count = b.arbwaiter_count - 1;
        next_winner = some winner;
        next_req = some r;
        arbwaiters = set b.arbwaiters winner (record w { req = none });
        next_start_time = start;
        last_start_time = start;
        last_end_time = start + ticks (r.bus_cycles * c.frequency);
        state = wakingup;
        arbitrator = some start;
      }

  -- `Bus_arbitrator` once the winner is known
  unfoldable pub settle : ℕ → Bus → ℕ → Option (ℕ × ℕ) → ℕ → Checked Bus
  settle now b next_cycle none rr =
      ok (record b { rr_index = rr; arbitrator = some (now + ticks c.frequency) })
  settle now b next_cycle (some (i, start_time)) rr = do
    w ← deref (get_elem? b.arbwaiters i)
    r ← deref w.req
    ok (grant b rr i start_time next_cycle w r)

  -- `Bus_arbitrator`
  unfoldable pub arbitrate : ℕ → Bus → Checked Bus
  arbitrate now b = if b.arbwaiter_count == 0 then ok b else do
    next_cycle ← sync c.frequency c.frequency (whole now)
    best ← round_robin b
    m ← deref (get_elem? b.arbwaiters c.num_modules)
    settle now b next_cycle (prefer b m best).0 (prefer b m best).1

  -- `Bus_wakeup_winner` up to the call of the winner
  unfoldable pub take_over : ℕ → Bus → Checked (Bus × Req)
  take_over now b = if ltb now b.busy_until then fatal else do
    next ← deref b.next_winner
    r ← deref b.next_req
    was ← deref (get_elem? b.masters b.cur_winner)
    is ← deref (get_elem? b.masters next)
    ok (
      record b {
        masters = set (set b.masters b.cur_winner false) next true;
        cur_winner = next;
        next_winner = none;
        busy_until = now + ticks (r.bus_cycles * c.frequency);
      },
      r,
    )

  -- The end of `Bus_wakeup_winner`
  unfoldable pub go_on : Bus → Bus
  go_on b = elim b.arbitrator [
    | some t ↦ b
    | none ↦
        if ltb 0 b.arbwaiter_count
        then record b { state = arbitrating; arbitrator = some b.busy_until }
        else record b { state = idle }
  ]

  module _ (in_master_state : ℕ → Req → Bus → Checked Bus) where
    -- `Bus_wakeup_winner`; the handlers of memory controller, caches and I/O modules are a parameter.
    unfoldable pub wakeup_winner : ℕ → Bus → Checked Bus
    wakeup_winner now b = do
      (b', r) ← take_over now b
      b'' ← in_master_state b'.cur_winner r b'
      ok (go_on b'')

    -- `Bus_main`, when the event list has taken the arbitrator's event off
    unfoldable pub bus_main : ℕ → Bus → Checked Bus
    bus_main now b =
        let b' = record b { arbitrator = none } in
        elim b.state [
          | arbitrating ↦ arbitrate now b'
          | wakingup ↦ wakeup_winner now b'
          | idle ↦ fatal
        ]
