-- ===== src/Bus/Tests.antt =====
-- A bus with two processors and the memory controller.
use ml_rsim.Prelude.{
  ℕ, zero, suc, ◌+◌, ◌<◌, ◌≡◌, refl, sym, ap, Bool, true, false, none, some, List, [], ◌∷◌, arith,
  Checked, ok, fatal, ◌==◌, get_elem?,
}
use ml_rsim.Bus.{
  Req, request, Waiter, Params, Bus, arbitrating, whole, sync, arbitrate, wakeup_winner,
}
use ml_rsim.Bus.Grant.{Granted, arbitrate-Granted}
use ml_rsim.Bus.Counts.{Accounts, Counted-Accounts}
use ml_rsim.Bus.Master.{OneMaster}
use ml_rsim.Bus.Wakeup.{LeavesMasters, Woken, wakeup_winner-OneMaster}

abbrev params : Params
params = record {
  num_modules = 2;
  frequency = 4;
  turnaround = 1;
  arbdelay = 1;
  mindelay = 0;
  total_requests = 8;
}

abbrev read : Req
read = record { kind = request; write_uc = false; bus_cycles = 2 }

abbrev idle_slot : Waiter
idle_slot = record { req = none; time = 0 }

abbrev reading : Waiter
reading = record { req = some read; time = 120 }

-- Processor 1 waits, processor 0 is the master.
abbrev one_waits : Bus
one_waits = record {
  busy_until = 80;
  state = arbitrating;
  req_count = 0;
  masters = true ∷ false ∷ false ∷ [];
  arbwaiters = idle_slot ∷ reading ∷ idle_slot ∷ [];
  arbwaiter_count = 1;
  rr_index = 1;
  cur_winner = 0;
  next_winner = none;
  next_req = none;
  next_start_time = 0;
  last_start_time = 0;
  last_end_time = 80;
  arbitrator = none;
  write_flowcontrol = false;
}

-- The same bus when processor 1 has been granted it
abbrev granted : Bus
granted = record one_waits { next_winner = some 1; next_req = some read }

granted-OneMaster : OneMaster granted
granted-OneMaster = record { within = omega arith; only = each }
  where
    each : (i : ℕ) → i < 3 → get_elem? granted.masters i ≡ some (i == 0)
    each zero h = refl
    each (suc zero) h = refl
    each (suc (suc zero)) h = refl
    each (suc (suc (suc i))) h = absurd (omega (arith, h))

arbitrate-Granted_example : Granted params one_waits 120 (arbitrate params 120 one_waits)
arbitrate-Granted_example =
    arbitrate-Granted params one_waits 120 (omega arith) (omega arith) (omega arith) (omega arith)

-- A handler that begins its transaction at once
abbrev begins : ℕ → Req → Bus → Checked Bus
begins i r b = ok (record b { req_count = b.req_count + 1 })

begins-LeavesMasters : LeavesMasters begins
begins-LeavesMasters i r b d e = (sym (ap masters_of e), sym (ap winner_of e))
  where
    masters_of : Checked Bus → List Bool
    masters_of (ok x) = x.masters
    masters_of fatal = b.masters

    winner_of : Checked Bus → ℕ
    winner_of (ok x) = x.cur_winner
    winner_of fatal = b.cur_winner

wakeup_winner-OneMaster_example :
    Woken params begins 205 1 read (wakeup_winner params begins 205 granted)
wakeup_winner-OneMaster_example =
    wakeup_winner-OneMaster params begins 205 granted 1 read begins-LeavesMasters granted-OneMaster
      refl refl (omega arith) (omega arith)

-- A start time in the middle of a cycle is rounded up to the next bus cycle.
rounds_up : sync 4 4 (whole 85) ≡ ok 12
unfolding sync
rounds_up = refl

Counted-Accounts_example : Accounts params one_waits
Counted-Accounts_example = Counted-Accounts params one_waits (omega arith) refl
