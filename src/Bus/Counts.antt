-- ===== src/Bus/Counts.antt =====
-- The count of waiters of Bus/bus.c, through Bus_recv_arb_req and the grant of Bus_arbitrator.
use ml_rsim.Prelude.{ℕ, ◌+◌, ◌%◌, ◌<◌, ◌≤◌, ◌≡◌, none, some, ok, get_elem?, set}
use ml_rsim.Bus.{Req, Waiter, Params, Bus, ticks, recv_arb_req, grant}
use ml_rsim.Bus.Master.{Counted, recv_arb_req-Counted, grant-Counted}

-- What the two operations leave of a bus
pub record Accounts (c : Params) (b : Bus) : Type 0 where
  pub enters :
      (now pid start_time : ℕ) (r : Req) (w : Waiter)
      → get_elem? b.arbwaiters pid ≡ some w
      → w.req ≡ none
      → (b' : Bus) × (t u : ℕ) × (recv_arb_req c now b pid r start_time ≡ ok b')
        × Counted b'
        × (b'.arbitrator ≡ some u)
        × (b'.arbwaiters ≡ set b.arbwaiters pid (record { req = some r; time = ticks t }))
        × (t % c.frequency ≡ 0)
        × (start_time ≤ ticks t)
        × (ticks t < start_time + ticks c.frequency)
  pub grants :
      (rr i t cycle : ℕ) (w : Waiter) (r : Req)
      → get_elem? b.arbwaiters i ≡ some w
      → w.req ≡ some r
      → Counted (grant c b rr i t cycle w r)
        × ((b.busy_until ≤ (grant c b rr i t cycle w r).next_start_time)
            × (b.last_end_time ≤ (grant c b rr i t cycle w r).next_start_time)
            × (ticks cycle ≤ (grant c b rr i t cycle w r).next_start_time))

-- On a bus whose count is that of the modules that wait, Bus_recv_arb_req from a module that does not
-- wait enters its request with the first bus cycle that is not before the start time, and leaves the
-- arbitrator scheduled; a grant to a module that waits lets the next transaction start no earlier than
-- the bus is free, the last one ends, and the bus cycle of the arbitration. Both keep the count.
pub Counted-Accounts : (c : Params) (b : Bus) → 0 < c.frequency → Counted b → Accounts c b
Counted-Accounts c b p h = record {
  enters = λ now pid start_time r w at e. recv_arb_req-Counted c now b pid r start_time w at e p h;
  grants = λ rr i t cycle w r at e. grant-Counted c b rr i t cycle w r at e h;
}
