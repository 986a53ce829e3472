-- ===== src/Pipeline.antt =====
-- Caches/pipeline.c and Caches/pipeline.h, the pipelines in front of a cache. A request is a pointer
-- that is only moved.
mod Tests
pub mod Queue
pub mod Ports
use ml_rsim.Prelude.{
  ℕ, ◌+◌, ◌-◌, ◌*◌, ◌%◌, Bool, true, false, Option, none, some, List, Checked, ok, fatal, deref,
  ◌>>=◌, ltb, leb, ◌==◌, if◌then◌else◌, bump, length, get_elem?, set, replicate,
}

-- `PipeElm`
pub record PipeElm {ℓ} (A : Type ℓ) : Type ℓ where
  pub elm : Option A
  pub time : ℕ

-- `YS__Pipeline`
pub record Pipeline {ℓ} (A : Type ℓ) : Type ℓ where
  pub ports : ℕ
  pub latency : ℕ
  pub repeat_rate : ℕ
  pub stages : ℕ
  pub count : ℕ
  pub elms : List (PipeElm A)
  pub head : ℕ
  pub tail : ℕ

module _ {ℓ} {A : Type ℓ} where
  -- What `RSIM_CALLOC` fills the array with.
  abbrev pub cleared : PipeElm A
  cleared = record { elm = none; time = 0 }

  -- `NewPipeline`; a division by 0 is a fault.
  unfoldable pub new_pipeline : ℕ → ℕ → ℕ → ℕ → Checked (Pipeline A)
  new_pipeline ports latency repeat_rate stages =
      if stages == 0
      then fatal
      else if ports == 0
      then fatal
      else if repeat_rate == 0
      then fatal
      else ok (record {
        ports = ports;
        latency = latency;
        repeat_rate = repeat_rate;
        stages = stages;
        count = 0;
        elms = replicate (stages * ports) cleared;
        head = 0;
        tail = 0;
      })

  -- The element that `AddToPipe` compares the time with.
  unfoldable pub port_index : Pipeline A → ℕ
  port_index p = (p.head + p.ports - 1) % (p.latency * p.ports)

  -- `(pline->count >= pline->ports) && (pline->elms[i].time + pline->repeat_rate > YS__Simtime)`
  unfoldable pub ports_busy : ℕ → Pipeline A → Checked Bool
  ports_busy now p =
      if leb p.ports p.count
      then (do e ← deref (get_elem? p.elms (port_index p)); ok (ltb now (e.time + p.repeat_rate)))
      else ok false

  -- The stores of `AddToPipe`
  unfoldable pub enter : ℕ → Pipeline A → A → Pipeline A
  enter now p req = record p {
    count = p.count + 1;
    elms = set p.elms p.head (record { elm = some req; time = now });
    head = bump p.head (p.stages * p.ports);
  }

  -- `AddToPipe` at time `now`; the remainder by 0 is a fault.
  unfoldable pub add_to_pipe : ℕ → Pipeline A → A → Checked (Pipeline A × Bool)
  add_to_pipe now p req =
      if leb (p.stages * p.ports) p.count
      then ok (p, false)
      else if p.latency * p.ports == 0
      then fatal
      else (ports_busy now p >>= λ busy. if busy then ok (p, false) else ok (enter now p req, true))

  -- `GetPipeElt`, with `none` for 0
  unfoldable pub get_pipe_elt : ℕ → Pipeline A → Checked (Option A)
  get_pipe_elt now p =
      if ltb 0 p.count
      then (do
        e ← deref (get_elem? p.elms p.tail)
        ok (if leb (e.time + p.latency) now then e.elm else none))
      else ok none

  -- `ClearPipeElt`
  unfoldable pub clear_pipe_elt : Pipeline A → Pipeline A
  clear_pipe_elt p = record p { count = p.count - 1; tail = bump p.tail (p.stages * p.ports) }

  -- `SetPipeElt`
  unfoldable pub set_pipe_elt : Pipeline A → A → Checked (Pipeline A)
  set_pipe_elt p req = do
    e ← deref (get_elem? p.elms p.tail)
    ok (record p { elms = set p.elms p.tail (record e { elm = some req }) })
