-- ===== src/Bus/Master.antt =====
-- `Bus_wakeup_winner` and `Bus_recv_arb_req` of Bus/bus.c: one master, and the count of waiters.
use ml_rsim.Prelude.{
  ℕ, zero, suc, ◌+◌, ◌*◌, ◌%◌, ◌<◌, ◌≤◌, ◌≡◌, refl, sym, ap, ◌∙◌, ◌≢◌, inl, inr, true, false,
  Option, none, some, List, [], ◌∷◌, arith, ok, ltb, ◌==◌, ==_iff, Bool-cases, Option-cases, length,
  get_elem?, set, get_elem?-some, length-set, get_elem?-set_self, get_elem?-set_ne, max,
}
use ml_rsim.Bus.{
  Req, Waiter, Params, Bus, arbitrating, ticks, whole, sync, recv_arb_req, take_over, grant,
  start_at,
}
use ml_rsim.Bus.Sync.{sync_lem}

-- The current winner is the only module in master state.
pub record OneMaster (b : Bus) : Type 0 where
  pub within : b.cur_winner < length b.masters
  pub only : (i : ℕ) → i < length b.masters → get_elem? b.masters i ≡ some (i == b.cur_winner)

module _ (c : Params) (now : ℕ) (b : Bus) (next : ℕ) (r : Req) where
  woken : Bus
  woken = record b {
    masters = set (set b.masters b.cur_winner false) next true;
    cur_winner = next;
    next_winner = none;
    busy_until = now + ticks (r.bus_cycles * c.frequency);
  }

  woken_size : length woken.masters ≡ length b.masters
  unfolding woken
  woken_size =
      length-set (set b.masters b.cur_winner false) next true
      ∙ length-set b.masters b.cur_winner false

  woken_only :
      OneMaster b
      → next < length b.masters
      → (i : ℕ) → i < length b.masters
      → get_elem? woken.masters i ≡ some (i == next)
  unfolding woken
  woken_only h p i lt = elim (Bool-cases (i == next)) [
    | inl hit ↦
        let q = (==_iff i next).0 hit in
        rw hit (
          ap (get_elem? woken.masters) q
          ∙ get_elem?-set_self (set b.masters b.cur_winner false) next true
              (omega (arith, p, length-set b.masters b.cur_winner false)))
    | inr miss ↦ rw miss (
        get_elem?-set_ne (set b.masters b.cur_winner false) next i true (λ q. apart miss (sym q))
        ∙ elim (Bool-cases (i == b.cur_winner)) [
          | inl was ↦
              let q = (==_iff i b.cur_winner).0 was in
              ap (get_elem? (set b.masters b.cur_winner false)) q
              ∙ get_elem?-set_self b.masters b.cur_winner false h.within
          | inr other ↦
              get_elem?-set_ne b.masters b.cur_winner i false (λ q. apart other (sym q))
              ∙ h.only i lt
              ∙ ap some other
        ])
  ]
    where
      apart : {x y : ℕ} → (x == y) ≡ false → x ≢ y
      apart m q = ground (arith, m, q)

  -- `Bus_wakeup_winner` at a time when the bus is free, with a next winner among the modules, makes that
  -- module the only master and keeps the bus busy for the cycles of its request.
  pub take_over-OneMaster :
      OneMaster b
      → b.next_winner ≡ some next
      → b.next_req ≡ some r
      → next < length b.masters
      → b.busy_until ≤ now
      → (b' : Bus) × (take_over c now b ≡ ok (b', r))
        × OneMaster b'
        × (b'.cur_winner ≡ next)
        × (b'.busy_until ≡ now + ticks (r.bus_cycles * c.frequency))
  unfolding take_over woken
  take_over-OneMaster h n q p free =
      let idle : ltb now b.busy_until ≡ false = ground (arith, free) in
      let (was, e) = get_elem?-some b.masters b.cur_winner h.within in
      let (is, e') = get_elem?-some b.masters next p in
      (
        woken,
        simp (idle, n, q, e, e'),
        record {
          within = omega (arith, woken_size, p);
          only = λ i lt. woken_only h p i (omega (arith, lt, woken_size));
        },
        refl,
        refl,
      )

-- How many modules wait.
abbrev pub count_req : Option Req → ℕ
count_req none = 0
count_req (some r) = 1

abbrev pub waits : Waiter → ℕ
waits w = count_req w.req

abbrev pub waiting : List Waiter → ℕ
waiting [] = 0
waiting (w ∷ ws) = waits w + waiting ws

same_waiter : {w w' : Waiter} → some w ≡ some w' → w ≡ w'
same_waiter e = cc

waiting-set :
    (ws : List Waiter) (i : ℕ) (w w' : Waiter)
    → get_elem? ws i ≡ some w
    → waiting (set ws i w') + waits w ≡ waiting ws + waits w'
waiting-set [] i w w' e = absurd (cc e)
waiting-set (x ∷ xs) zero w w' e = omega (arith, ap waits (same_waiter e))
waiting-set (x ∷ xs) (suc i) w w' e = omega (arith, waiting-set xs i w w' e)

-- The count is that of the modules that wait.
abbrev pub Counted : Bus → Type 0
Counted b = b.arbwaiter_count ≡ waiting b.arbwaiters

module _ (c : Params) (now : ℕ) (b : Bus) (pid : ℕ) (r : Req) (start_time : ℕ) where
  entered : ℕ → Bus
  entered t = record b {
    arbwaiters = set b.arbwaiters pid (record { req = some r; time = ticks t });
    arbwaiter_count = b.arbwaiter_count + 1;
  }

  recv_arb_req-pending :
      (t u : ℕ) (w : Waiter)
      → get_elem? b.arbwaiters pid ≡ some w
      → w.req ≡ none
      → sync c.frequency c.frequency (whole start_time) ≡ ok t
      → b.arbitrator ≡ some u
      → recv_arb_req c now b pid r start_time ≡ ok (entered t)
  unfolding recv_arb_req entered
  recv_arb_req-pending t u w at e s a = simp (at, e, s, a)

  recv_arb_req-called :
      (t : ℕ) (w : Waiter)
      → get_elem? b.arbwaiters pid ≡ some w
      → w.req ≡ none
      → sync c.frequency c.frequency (whole start_time) ≡ ok t
      → b.arbitrator ≡ none
      → recv_arb_req c now b pid r start_time
        ≡ ok (record (entered t) { state = arbitrating; arbitrator = some (max now b.busy_until) })
  unfolding recv_arb_req entered
  recv_arb_req-called t w at e s a = simp (at, e, s, a)

  entered-Counted :
      (t : ℕ) (w : Waiter)
      → get_elem? b.arbwaiters pid ≡ some w
      → w.req ≡ none
      → Counted b
      → Counted (entered t)
  unfolding entered
  entered-Counted t w at e h =
      let none_yet : waits w ≡ 0 = ap count_req e in
      omega (
        arith,
        h,
        none_yet,
        waiting-set b.arbwaiters pid w (record { req = some r; time = ticks t }) at,
      )

  -- `Bus_recv_arb_req` from a module that does not wait yet enters its request with the first bus cycle
  -- that is not before the start time, keeps the count of waiters, and leaves the arbitrator scheduled.
  pub recv_arb_req-Counted :
      (w : Waiter)
      → get_elem? b.arbwaiters pid ≡ some w
      → w.req ≡ none
      → 0 < c.frequency
      → Counted b
      → (b' : Bus) × (t u : ℕ) × (recv_arb_req c now b pid r start_time ≡ ok b')
        × Counted b'
        × (b'.arbitrator ≡ some u)
        × (b'.arbwaiters ≡ set b.arbwaiters pid (record { req = some r; time = ticks t }))
        × (t % c.frequency ≡ 0)
        × (start_time ≤ ticks t)
        × (ticks t < start_time + ticks c.frequency)
  unfolding entered
  recv_arb_req-Counted w at e f h =
      let (t, s, z, lo, hi) = sync_lem c.frequency (whole start_time) f in
      elim (Option-cases b.arbitrator) [
        | inl a ↦ (
          record (entered t) { state = arbitrating; arbitrator = some (max now b.busy_until) },
          t,
          max now b.busy_until,
          recv_arb_req-called t w at e s a,
          entered-Counted t w at e h,
          refl,
          refl,
          z,
          omega (arith, lo),
          omega (arith, hi),
        )
        | inr (u, a) ↦ (
          entered t,
          t,
          u,
          recv_arb_req-pending t u w at e s a,
          entered-Counted t w at e h,
          a,
          refl,
          z,
          omega (arith, lo),
          omega (arith, hi),
        )
      ]

-- When the next transaction starts.
start_at-late :
    (c : Params) (b : Bus) (i t cycle : ℕ)
    → (b.busy_until ≤ start_at c b i t cycle)
      × (b.last_end_time ≤ start_at c b i t cycle)
      × (ticks cycle ≤ start_at c b i t cycle)
unfolding start_at
start_at-late c b i t cycle = elim (Bool-cases (i == b.cur_winner)) [
  | inl e ↦ rw e (omega arith, omega arith, omega arith)
  | inr e ↦ rw e (omega arith, omega arith, omega arith)
]

-- A grant to a module that waits takes one waiter off and keeps the count, and the next transaction
-- starts no earlier than the bus is free, the last one ends, and the bus cycle of the arbitration.
pub grant-Counted :
    (c : Params) (b : Bus) (rr i t cycle : ℕ) (w : Waiter) (r : Req)
    → get_elem? b.arbwaiters i ≡ some w
    → w.req ≡ some r
    → Counted b
    → Counted (grant c b rr i t cycle w r)
      × ((b.busy_until ≤ (grant c b rr i t cycle w r).next_start_time)
          × (b.last_end_time ≤ (grant c b rr i t cycle w r).next_start_time)
          × (ticks cycle ≤ (grant c b rr i t cycle w r).next_start_time))
unfolding grant
grant-Counted c b rr i t cycle w r at e h =
    let one_waits : waits w ≡ 1 = ap count_req e in
    (
      omega (arith, h, one_waits, waiting-set b.arbwaiters i w (record w { req = none }) at),
      start_at-late c b i t cycle,
    )
