-- ===== src/Pipeline/Tests.antt =====
-- Pipelines of requests that are numbers.
use ml_rsim.Prelude.{
  ℕ, zero, suc, ◌+◌, ◌%◌, ◌<◌, ◌≡◌, refl, true, some, List, [], ◌∷◌, arith, ok, get_elem?,
}
use ml_rsim.Pipeline.{PipeElm, Pipeline, cleared, add_to_pipe, ports_busy, port_index, enter}
use ml_rsim.Pipeline.Queue.{Holds}
use ml_rsim.Pipeline.Ports.{Added, add_to_pipe-Added}

abbrev at : ℕ → ℕ → PipeElm ℕ
at req time = record { elm = some req; time = time }

-- Two ports and two stages: 5 and 6 are in the pipeline.
abbrev two_in : Pipeline ℕ
two_in = record {
  ports = 2;
  latency = 2;
  repeat_rate = 1;
  stages = 2;
  count = 2;
  elms = at 5 10 ∷ at 6 11 ∷ cleared ∷ cleared ∷ [];
  head = 2;
  tail = 0;
}

abbrev requests : List (PipeElm ℕ)
requests = at 5 10 ∷ at 6 11 ∷ []

two_in-Holds : Holds two_in requests
two_in-Holds = record {
  storage = refl;
  positive = omega arith;
  head_in = omega arith;
  count = refl;
  fits = omega arith;
  tail_at = refl;
  slots = same;
}
  where
    same : (i : ℕ) → i < 2 → get_elem? two_in.elms ((0 + i) % 4) ≡ get_elem? requests i
    same zero h = refl
    same (suc zero) h = refl
    same (suc (suc i)) h = absurd (omega (arith, h))

-- Three requests, with a latency of 4 cycles and a repeat rate of 2.
abbrev slow : Pipeline ℕ
slow = record {
  ports = 2;
  latency = 4;
  repeat_rate = 2;
  stages = 2;
  count = 3;
  elms = at 5 10 ∷ at 6 11 ∷ at 7 13 ∷ cleared ∷ [];
  head = 3;
  tail = 0;
}

abbrev slow_requests : List (PipeElm ℕ)
slow_requests = at 5 10 ∷ at 6 11 ∷ at 7 13 ∷ []

slow-Holds : Holds slow slow_requests
slow-Holds = record {
  storage = refl;
  positive = omega arith;
  head_in = omega arith;
  count = refl;
  fits = omega arith;
  tail_at = refl;
  slots = same;
}
  where
    same : (i : ℕ) → i < 3 → get_elem? slow.elms ((0 + i) % 4) ≡ get_elem? slow_requests i
    same zero h = refl
    same (suc zero) h = refl
    same (suc (suc zero)) h = refl
    same (suc (suc (suc i))) h = absurd (omega (arith, h))

-- A third request at time 11 is let in: the element that the time is compared with, 3, is empty.
third_in :
    (add_to_pipe 11 two_in 7)
    ≡ ok (
      record two_in { count = 3; head = 3; elms = at 5 10 ∷ at 6 11 ∷ at 7 11 ∷ cleared ∷ [] },
      true,
    )
unfolding add_to_pipe ports_busy port_index enter
third_in = refl

add_to_pipe-Added_example : Added 11 two_in requests 7 (add_to_pipe 11 two_in 7)
add_to_pipe-Added_example =
    add_to_pipe-Added 11 two_in requests 7 two_in-Holds (omega arith) (omega arith) (omega arith)
