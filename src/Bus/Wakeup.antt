-- ===== src/Bus/Wakeup.antt =====
-- `Bus_wakeup_winner` of Bus/bus.c as a whole, with the handler of the module that wins.
use ml_rsim.Prelude.{
  ℕ, ◌+◌, ◌*◌, ◌<◌, ◌≤◌, ◌≡◌, refl, ap, ◌∙◌, ◌⊎◌, inl, inr, true, none, some, arith, Checked, ok,
  fatal, ◌>>=◌, ltb, length, Bool-cases, Option-cases,
}
use ml_rsim.Bus.{Req, Params, Bus, ticks, take_over, go_on, wakeup_winner}
use ml_rsim.Bus.Master.{OneMaster, take_over-OneMaster}

-- A handler leaves it to the bus who is its master: only Bus/bus.c sets `pstates` and `cur_winner`.
abbrev pub LeavesMasters : (ℕ → Req → Bus → Checked Bus) → Type 0
LeavesMasters handler =
    (i : ℕ) (r : Req) (b d : Bus)
    → handler i r b ≡ ok d
    → (d.masters ≡ b.masters) × (d.cur_winner ≡ b.cur_winner)

-- The arbitrator is scheduled, or nobody waits for it.
abbrev pub IsAttended : Bus → Type 0
IsAttended b = (b.arbwaiter_count ≡ 0) ⊎ ((t : ℕ) × (b.arbitrator ≡ some t))

-- What waking up the module `next` with the request `r` leaves
pub data Woken (c : Params) (handler : ℕ → Req → Bus → Checked Bus) (now next : ℕ) (r : Req)
    (result : Checked Bus) : Type 0 where
  stopped :
      (b : Bus)
      → OneMaster b
      → b.cur_winner ≡ next
      → handler next r b ≡ fatal
      → result ≡ fatal
      → Woken c handler now next r result
  drives :
      (b d : Bus)
      → OneMaster b
      → b.cur_winner ≡ next
      → b.busy_until ≡ now + ticks (r.bus_cycles * c.frequency)
      → handler next r b ≡ ok d
      → result ≡ ok (go_on c d)
      → OneMaster (go_on c d)
      → (go_on c d).cur_winner ≡ next
      → IsAttended (go_on c d)
      → Woken c handler now next r result

module _ (c : Params) where
  go_on-masters :
      (d : Bus) → ((go_on c d).masters ≡ d.masters) × ((go_on c d).cur_winner ≡ d.cur_winner)
  unfolding go_on
  go_on-masters d = ground arith

  go_on-scheduled : (d : Bus) (t : ℕ) → d.arbitrator ≡ some t → (go_on c d).arbitrator ≡ some t
  unfolding go_on
  go_on-scheduled d t e = ground (arith, e)

  go_on-waits :
      (d : Bus)
      → d.arbitrator ≡ none
      → ltb 0 d.arbwaiter_count ≡ true
      → (go_on c d).arbitrator ≡ some d.busy_until
  unfolding go_on
  go_on-waits d e w = ground (arith, e, w)

  go_on-count : (d : Bus) → (go_on c d).arbwaiter_count ≡ d.arbwaiter_count
  unfolding go_on
  go_on-count d = ground arith

  go_on-IsAttended : (d : Bus) → IsAttended (go_on c d)
  go_on-IsAttended d = elim (Option-cases d.arbitrator) [
    | inr (t, e) ↦ inr (t, go_on-scheduled d t e)
    | inl e ↦ elim (Bool-cases (ltb 0 d.arbwaiter_count)) [
      | inl some_wait ↦ inr (d.busy_until, go_on-waits d e some_wait)
      | inr empty ↦ inl (go_on-count d ∙ ground (arith, empty))
    ]
  ]

  OneMaster-same :
      (b d : Bus) → d.masters ≡ b.masters → d.cur_winner ≡ b.cur_winner → OneMaster b → OneMaster d
  OneMaster-same b d m w h = record { within = rw (m, w) (h.within); only = rw (m, w) (h.only) }

  module _ (handler : ℕ → Req → Bus → Checked Bus) (now : ℕ) (b b' : Bus) (r : Req)
      (e : take_over c now b ≡ ok (b', r)) where
    calls : wakeup_winner c handler now b ≡ (handler b'.cur_winner r b' >>= λ d. ok (go_on c d))
    unfolding wakeup_winner
    calls = rw e refl

  handled : (m : Checked Bus) → (m ≡ fatal) ⊎ ((d : Bus) × (m ≡ ok d))
  handled fatal = inl refl
  handled (ok d) = inr (d, refl)

  -- `Bus_wakeup_winner` at a time when the bus is free, with a next winner among the modules, calls the
  -- handler of that module on a bus of which the module is the only master and which is busy for the
  -- cycles of its request. If the handler stops the simulator, so does `Bus_wakeup_winner`; if it
  -- returns, and has left it to the bus who is master, the module still is the only master, and the
  -- arbitrator is scheduled unless no module waits.
  pub wakeup_winner-OneMaster :
      (handler : ℕ → Req → Bus → Checked Bus) (now : ℕ) (b : Bus) (next : ℕ) (r : Req)
      → LeavesMasters handler
      → OneMaster b
      → b.next_winner ≡ some next
      → b.next_req ≡ some r
      → next < length b.masters
      → b.busy_until ≤ now
      → Woken c handler now next r (wakeup_winner c handler now b)
  wakeup_winner-OneMaster handler now b next r leaves h n q p free =
      let (b', e, one, win, busy) = take_over-OneMaster c now b next r h n q p free in
      let run = calls handler now b b' r e ∙ ap (λ i. handler i r b' >>= λ d. ok (go_on c d)) win in
      elim (handled (handler next r b')) [
        | inl f ↦ stopped b' one win f (run ∙ ap (λ m. m >>= λ d. ok (go_on c d)) f)
        | inr (d, f) ↦
            let (m, w) = leaves next r b' d f in
            let (gm, gw) = go_on-masters d in
            drives b' d one win busy f (run ∙ ap (λ m. m >>= λ d. ok (go_on c d)) f)
              (OneMaster-same b' (go_on c d) (gm ∙ m) (gw ∙ w) one) (gw ∙ w ∙ win)
              (go_on-IsAttended d)
      ]
