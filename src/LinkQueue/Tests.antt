-- ===== src/LinkQueue/Tests.antt =====
-- Caches/lqueue.h on concrete queues.
use ml_rsim.Prelude.{ℕ, zero, suc, ◌+◌, ◌%◌, ◌<◌, ◌≡◌, refl, List, [], ◌∷◌, arith, ok, get_elem?}
use ml_rsim.LinkQueue.{LinkQueue, add}
use ml_rsim.LinkQueue.Fifo.{Holds}
use ml_rsim.LinkQueue.Contract.{IsQueue, Holds-IsQueue}

-- 7, then 8 and 9 round the end of the array
abbrev wrapped : LinkQueue ℕ
wrapped = record { head = 2; tail = 1; total = 3; size = 2; elemns = 8 ∷ 5 ∷ 7 ∷ [] }

abbrev two_items : List ℕ
two_items = 7 ∷ 8 ∷ []

wrapped-Holds : Holds wrapped (7 ∷ 8 ∷ [])
wrapped-Holds = record {
  storage = refl;
  positive = omega arith;
  head_in = omega arith;
  count = refl;
  fits = omega arith;
  tail_at = refl;
  slots = at;
}
  where
    at : (i : ℕ) → i < 2 → get_elem? wrapped.elemns ((2 + i) % 3) ≡ get_elem? two_items i
    at zero h = refl
    at (suc zero) h = refl
    at (suc (suc i)) h = absurd (omega (arith, h))

add-wrapped :
    add wrapped 9 ≡ ok (record { head = 2; tail = 2; total = 3; size = 3; elemns = 8 ∷ 9 ∷ 7 ∷ [] })
unfolding add
add-wrapped = refl

Holds-IsQueue_example : IsQueue wrapped (7 ∷ 8 ∷ [])
Holds-IsQueue_example = Holds-IsQueue wrapped (7 ∷ 8 ∷ []) wrapped-Holds
