-- ===== src/Bus/Grant.antt =====
-- `Bus_arbitrator` of Bus/bus.c as a whole.
use ml_rsim.Prelude.{
  ℕ, ◌+◌, ◌-◌, ◌<◌, ◌≤◌, ◌≡◌, refl, sym, ap, ◌∙◌, ◌⊎◌, inl, inr, true, false, Option, none, some,
  arith, Checked, ok, ltb, leb, ◌==◌, Bool-cases, Option-cases, leb→le, leb_false→lt, ne_zero,
  length, get_elem?, get_elem?-some,
}
use ml_rsim.Bus.{
  Req, Waiter, Params, Bus, ticks, whole, sync, round_robin, next_index, no_later, prefer, grant,
  settle, arbitrate,
}
use ml_rsim.Bus.Sync.{sync_lem}
use ml_rsim.Bus.Winner.{MayGo, Best, nobody, first, Best-mono, seek-Best}

module _ (c : Params) (b : Bus) where
  round_robin-Best :
      b.rr_index ≤ c.num_modules
      → c.num_modules < length b.arbwaiters
      → (o : Option (ℕ × ℕ)) × (round_robin c b ≡ ok o) × Best c b (λ j. j < c.num_modules) o
  unfolding round_robin
  round_robin-Best h p =
      let n = c.num_modules in
      let (o, e, best) =
        seek-Best c b (n - b.rr_index) b.rr_index (λ j. ⊥) none (omega (arith, h, p))
          (nobody refl (λ j t s. absurd s)) in
      let (o', e', best') =
        seek-Best c b b.rr_index 0
          (λ j. ⊥ ⊎ ((b.rr_index ≤ j) × (j < b.rr_index + (n - b.rr_index)))) o
          (omega (arith, h, p)) best in
      (
        o',
        simp (e, e'),
        Best-mono c b
            (λ j s. elim s [
              | inl (inl none_yet) ↦ absurd none_yet
              | inl (inr (q, r)) ↦ omega (arith, r, h)
              | inr (q, r) ↦ omega (arith, r, h)
            ])
            (λ j s. elim (Bool-cases (ltb j b.rr_index)) [
              | inl lt ↦ inr (omega arith, ground (arith, lt))
              | inr ge ↦ inl (inr (ground (arith, ge), omega (arith, s, h)))
            ])
            best',
      )

  -- The outcome of an arbitration with a waiter: the memory controller, if no other module has waited
  -- longer; else the module that has waited longest of those whose request is not held back; and nobody
  -- only if the controller does not wait and all others are held back.
  pub data Granted (now : ℕ) (r : Checked Bus) : Type 0 where
    to_memory :
        (cycle : ℕ) (m : Waiter) (q : Req)
        → get_elem? b.arbwaiters c.num_modules ≡ some m
        → m.req ≡ some q
        → r ≡ ok (grant c b b.rr_index c.num_modules m.time cycle m q)
        → ((j t : ℕ) → j < c.num_modules → MayGo c b j t → m.time ≤ t)
        → Granted now r
    to_module :
        (cycle i t : ℕ) (g : MayGo c b i t)
        → i < c.num_modules
        → r ≡ ok (grant c b (next_index c b.rr_index) i t cycle g.waiter g.req)
        → ((j u : ℕ) → j < c.num_modules → MayGo c b j u → t ≤ u)
        → ((m : Waiter) (q : Req)
            → get_elem? b.arbwaiters c.num_modules ≡ some m
            → m.req ≡ some q
            → t < m.time)
        → Granted now r
    to_nobody :
        (m : Waiter)
        → get_elem? b.arbwaiters c.num_modules ≡ some m
        → m.req ≡ none
        → ((j t : ℕ) → j < c.num_modules → ¬ MayGo c b j t)
        → r
          ≡ ok (record b {
            rr_index = next_index c b.rr_index;
            arbitrator = some (now + ticks c.frequency);
          })
        → Granted now r

  module _ (now cycle : ℕ) (o : Option (ℕ × ℕ)) (m : Waiter)
      (waiting : (b.arbwaiter_count == 0) ≡ false)
      (synced : sync c.frequency c.frequency (whole now) ≡ ok cycle)
      (found : round_robin c b ≡ ok o)
      (memory : get_elem? b.arbwaiters c.num_modules ≡ some m) where
    arbitrate-settle :
        arbitrate c now b ≡ settle c now b cycle (prefer c b m o).0 (prefer c b m o).1
    unfolding arbitrate
    arbitrate-settle = simp (waiting, synced, found, memory)

    settle-grant :
        (i t rr : ℕ) (w : Waiter) (r : Req)
        → get_elem? b.arbwaiters i ≡ some w
        → w.req ≡ some r
        → settle c now b cycle (some (i, t)) rr ≡ ok (grant c b rr i t cycle w r)
    unfolding settle
    settle-grant i t rr w r at q = simp (at, q)

    arbitrate-grant :
        (i t rr : ℕ) (w : Waiter) (r : Req)
        → prefer c b m o ≡ (some (i, t), rr)
        → get_elem? b.arbwaiters i ≡ some w
        → w.req ≡ some r
        → arbitrate c now b ≡ ok (grant c b rr i t cycle w r)
    arbitrate-grant i t rr w r p at q =
        arbitrate-settle ∙ ap (λ x. settle c now b cycle x.0 x.1) p ∙ settle-grant i t rr w r at q

    arbitrate-nobody :
        (rr : ℕ)
        → prefer c b m o ≡ (none, rr)
        → arbitrate c now b
          ≡ ok (record b { rr_index = rr; arbitrator = some (now + ticks c.frequency) })
    unfolding settle
    arbitrate-nobody rr p = arbitrate-settle ∙ ap (λ x. settle c now b cycle x.0 x.1) p

    prefer-none : m.req ≡ none → prefer c b m o ≡ (o, next_index c b.rr_index)
    unfolding prefer
    prefer-none e = ground (arith, e)

    prefer-memory :
        (q : Req)
        → m.req ≡ some q
        → no_later c m.time o ≡ true
        → prefer c b m o ≡ (some (c.num_modules, m.time), b.rr_index)
    unfolding prefer
    prefer-memory q e h = ground (arith, e, h)

    prefer-module :
        (q : Req)
        → m.req ≡ some q
        → no_later c m.time o ≡ false
        → prefer c b m o ≡ (o, next_index c b.rr_index)
    unfolding prefer
    prefer-module q e h = ground (arith, e, h)

    same_waiter : {w w' : Waiter} → some w ≡ some w' → w ≡ w'
    same_waiter e = cc

    settled : Best c b (λ j. j < c.num_modules) o → Granted now (arbitrate c now b)
    settled (nobody e all) = elim (Option-cases m.req) [
      | inl idle ↦
          to_nobody m memory idle (λ j t lt. all j t lt)
            (arbitrate-nobody (next_index c b.rr_index)
              (prefer-none idle ∙ ap (λ x. (x, next_index c b.rr_index)) e))
      | inr (q, waits) ↦
          to_memory cycle m q memory waits
            (arbitrate-grant c.num_modules m.time b.rr_index m q
              (prefer-memory q waits (ap (no_later c m.time) e)) memory waits)
            (λ j t lt g. absurd (all j t lt g))
    ]
    settled (first i t e lt g all) = elim (Option-cases m.req) [
      | inl idle ↦
          to_module cycle i t g lt
            (arbitrate-grant i t (next_index c b.rr_index) g.waiter g.req
              (prefer-none idle ∙ ap (λ x. (x, next_index c b.rr_index)) e) g.listed g.waits)
            all
            (λ m' q at waits.
              absurd (differ (sym idle ∙ ap (λ x. x.req) (same_waiter (sym memory ∙ at)) ∙ waits)))
      | inr (q, waits) ↦ elim (Bool-cases (leb m.time t)) [
        | inl early ↦
            to_memory cycle m q memory waits
              (arbitrate-grant c.num_modules m.time b.rr_index m q
                (prefer-memory q waits (ap (no_later c m.time) e ∙ early)) memory waits)
              (λ j u lt' g'. omega (arith, all j u lt' g', leb→le m.time t early))
        | inr late ↦
            to_module cycle i t g lt
              (arbitrate-grant i t (next_index c b.rr_index) g.waiter g.req
                (prefer-module q waits (ap (no_later c m.time) e ∙ late)
                  ∙ ap (λ x. (x, next_index c b.rr_index)) e)
                g.listed g.waits)
              all
              (λ m' q' at waits'. omega (
                arith,
                leb_false→lt m.time t late,
                ap (λ x. x.time) (same_waiter (sym memory ∙ at)),
              ))
      ]
    ]
      where
        differ : {q : Req} → none ≡ some q → ⊥
        differ e = cc

  -- `Bus_arbitrator` with a waiter, on a bus with a waiter slot for each module and the controller and
  -- with a round-robin index in range, never faults. It grants the bus to the memory controller if that
  -- waits and no module that may go has waited longer, else to the module that has waited longest of
  -- those that may go, and to nobody only where none may go and the controller does not wait; it then
  -- tries again in the next bus cycle.
  pub arbitrate-Granted :
      (now : ℕ)
      → 0 < b.arbwaiter_count
      → 0 < c.frequency
      → b.rr_index ≤ c.num_modules
      → c.num_modules < length b.arbwaiters
      → Granted now (arbitrate c now b)
  arbitrate-Granted now p f h l =
      let (cycle, synced, _, _, _) = sync_lem c.frequency (whole now) f in
      let (o, found, best) = round_robin-Best h l in
      let (m, memory) = get_elem?-some b.arbwaiters c.num_modules l in
      settled now cycle o m (ne_zero b.arbwaiter_count p) synced found memory best
