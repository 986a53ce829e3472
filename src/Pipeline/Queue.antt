-- ===== src/Pipeline/Queue.antt =====
-- A pipeline is a queue of requests with the times at which they came.
use ml_rsim.Prelude.{
  ℕ, ◌+◌, ◌*◌, ◌<◌, ◌≡◌, false, none, some, List, [], ◌∷◌, ◌++◌, arith, ok, leb, ◌==◌,
  if◌then◌else◌, lt→ltb, set, replicate, length-replicate, IsRing, IsRing-start, push-IsRing,
  pop-IsRing, replace_first-IsRing, oldest,
}
use native.Mathlib.Nat.{mul-pos}
use ml_rsim.Pipeline.{
  PipeElm, Pipeline, cleared, new_pipeline, enter, get_pipe_elt, clear_pipe_elt, set_pipe_elt,
}

module _ {ℓ} {A : Type ℓ} where
  -- The pipeline holds `xs`, oldest first: elements leave at `tail` and enter at `head`.
  abbrev pub Holds : Pipeline A → List (PipeElm A) → Type ℓ
  Holds p xs = IsRing p.elms p.tail p.head (p.stages * p.ports) p.count xs

  -- `NewPipeline` with at least one port, one stage and a repeat rate above 0 gives an empty pipeline.
  pub new_pipeline-Holds :
      (ports latency repeat_rate stages : ℕ)
      → 0 < ports
      → 0 < repeat_rate
      → 0 < stages
      → (p : Pipeline A) × (new_pipeline ports latency repeat_rate stages ≡ ok p) × Holds p []
  unfolding new_pipeline
  new_pipeline-Holds ports latency repeat_rate stages a b c = (
    record {
      ports = ports;
      latency = latency;
      repeat_rate = repeat_rate;
      stages = stages;
      count = 0;
      elms = replicate (stages * ports) cleared;
      head = 0;
      tail = 0;
    },
    simp (ne stages c, ne ports a, ne repeat_rate b),
    IsRing-start (stages * ports) (replicate (stages * ports) cleared) (mul-pos c a)
        (length-replicate (stages * ports) cleared),
  )
    where
      ne : (n : ℕ) → 0 < n → (n == 0) ≡ false
      ne n h = ground (arith, h)

  -- A request that enters the pipeline stands behind the others, with the current time.
  pub enter-Holds :
      (p : Pipeline A) {xs : List (PipeElm A)} (now : ℕ) (req : A)
      → Holds p xs
      → p.count < p.stages * p.ports
      → Holds (enter now p req) (xs ++ record { elm = some req; time = now } ∷ [])
  unfolding enter
  enter-Holds p now req h lt = push-IsRing (record { elm = some req; time = now }) h lt

  -- `GetPipeElt` gives the oldest request as soon as it has been in the pipeline for `latency` cycles,
  -- and no request before; `ClearPipeElt` removes that request and no other; `SetPipeElt` puts another
  -- in its place, with the same time.
  pub get_pipe_elt-Holds :
      (p : Pipeline A) {e : PipeElm A} {xs : List (PipeElm A)} (now : ℕ) (req : A)
      → Holds p (e ∷ xs)
      → (get_pipe_elt now p ≡ ok (if leb (e.time + p.latency) now then e.elm else none))
        × Holds (clear_pipe_elt p) xs
        × ((p' : Pipeline A) × (set_pipe_elt p req ≡ ok p')
            × Holds p' (record { elm = some req; time = e.time } ∷ xs))
  unfolding get_pipe_elt clear_pipe_elt set_pipe_elt
  get_pipe_elt-Holds p {e} {xs} now req h =
      let some_left : 0 < p.count = omega (arith, h.count) in
      let at = oldest h some_left in
      let next : PipeElm A = record { elm = some req; time = e.time } in
      (
        rw (lt→ltb 0 p.count some_left, at),
        pop-IsRing h,
        (record p { elms = set p.elms p.tail next }, rw at, replace_first-IsRing next h),
      )

  -- No request comes out of an empty pipeline.
  pub get_pipe_elt-empty : (p : Pipeline A) (now : ℕ) → Holds p [] → get_pipe_elt now p ≡ ok none
  unfolding get_pipe_elt
  get_pipe_elt-empty p now h = rw (← h.count)
