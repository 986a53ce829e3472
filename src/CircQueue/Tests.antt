-- ===== src/CircQueue/Tests.antt =====
-- Processor/circq.h on concrete queues.
use ml_rsim.Prelude.{
  ℕ, zero, suc, ◌+◌, ◌*◌, ◌%◌, ◌<◌, ◌≡◌, refl, arith, some, List, [], ◌∷◌, get_elem?, ok, none,
}
use ml_rsim.CircQueue.{
  CircQueue, to_power_of_2, count_bits, start, insert, delete, search, search_loop, probe,
  insert_at_head,
}
use ml_rsim.CircQueue.Refine.{Holds}
use ml_rsim.CircQueue.Deque.{IsDeque, Holds-IsDeque}
use ml_rsim.CircQueue.Search.{InOrder, Finds, search-Finds}

powers :
    (to_power_of_2 1 ≡ 1)
    × (to_power_of_2 3 ≡ 4)
    × (to_power_of_2 64 ≡ 64)
    × (to_power_of_2 65 ≡ 128)
unfolding to_power_of_2 count_bits
powers = (refl, refl, refl, refl)

-- 5, then 7 round the end of the array; three places in an array of four
abbrev wrapped : CircQueue ℕ
wrapped = record {
  arr = 7 ∷ 1 ∷ 2 ∷ 5 ∷ [];
  sz = 4;
  mask = 3;
  head = 3;
  tail = 1;
  cnt = 2;
  max_cnt = 3;
}

-- Both are taken out.
abbrev drained : CircQueue ℕ
drained = record wrapped { head = 1; tail = 1; cnt = 0 }

abbrev two_items : List ℕ
two_items = 5 ∷ 7 ∷ []

from_start : (insert_at_head (insert (start 3 (1 ∷ 1 ∷ 2 ∷ 1 ∷ [])) 7).0 5).0 ≡ wrapped
unfolding insert insert_at_head start to_power_of_2 count_bits
from_start = refl

to_empty : (delete (delete wrapped).0).0 ≡ drained
unfolding delete
to_empty = refl

wrapped-Holds : Holds wrapped two_items
wrapped-Holds = record {
  bits = 2;
  narrow = omega arith;
  size = refl;
  ones = refl;
  bound = omega arith;
  within = omega arith;
  ring = record {
    storage = refl;
    positive = omega arith;
    head_in = omega arith;
    count = refl;
    fits = omega arith;
    tail_at = refl;
    slots = at;
  };
}
  where
    at : (i : ℕ) → i < 2 → get_elem? wrapped.arr ((3 + i) % 4) ≡ get_elem? two_items i
    at zero h = refl
    at (suc zero) h = refl
    at (suc (suc i)) h = absurd (omega (arith, h))

drained-Holds : Holds drained []
drained-Holds = record {
  bits = 2;
  narrow = omega arith;
  size = refl;
  ones = refl;
  bound = omega arith;
  within = omega arith;
  ring = record {
    storage = refl;
    positive = omega arith;
    head_in = omega arith;
    count = refl;
    fits = omega arith;
    tail_at = refl;
    slots = λ i h. elim h [ ];
  };
}

abbrev self : ℕ → ℕ
self x = x

tag_at : (i a : ℕ) → get_elem? two_items i ≡ some a → a ≡ 5 + 2 * i
tag_at zero a e = same e
  where
    same : some 5 ≡ some a → a ≡ 5
    same e = cc
tag_at (suc zero) a e = same e
  where
    same : some 7 ≡ some a → a ≡ 7
    same e = cc
tag_at (suc (suc i)) a e = absurd (cc e)

rising : InOrder self two_items
rising i j a b p u v = omega (arith, tag_at i a u, tag_at j b v, p)

Holds-IsDeque_example : IsDeque wrapped (5 ∷ 7 ∷ [])
Holds-IsDeque_example = Holds-IsDeque wrapped (5 ∷ 7 ∷ []) wrapped-Holds

search-Finds_example : Finds self (5 ∷ 7 ∷ []) 7 (search self wrapped 7)
search-Finds_example = search-Finds self wrapped (5 ∷ 7 ∷ []) wrapped-Holds 7 rising (omega arith)

searches :
    (search self wrapped 5 ≡ ok (some 5))
    × (search self wrapped 6 ≡ ok none)
    × (search self drained 2 ≡ ok (some 2))
unfolding search search_loop probe
searches = (refl, refl, refl)
