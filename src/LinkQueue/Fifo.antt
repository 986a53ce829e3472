-- ===== src/LinkQueue/Fifo.antt =====
-- Caches/lqueue.h refines a bounded list of pointers, oldest first.
use ml_rsim.Prelude.{
  ℕ, bump, ◌+◌, ◌-◌, ◌%◌, ◌<◌, ◌≡◌, refl, sym, List, [], ◌∷◌, ◌++◌, ok, deref, arith, ltb, leb,
  ◌==◌, Bool-cases, inl, inr, get_elem?, set, length, get_elem?-none, lt→ltb, ltb→lt, ltb_false→le,
}
use ml_rsim.Prelude.{IsRing, IsRing-start, push-IsRing, push_front-IsRing, pop-IsRing, oldest}
use ml_rsim.LinkQueue.{LinkQueue, init, full, empty, first, check, add, add_head, elem, remove, get}

module _ {ℓ} {A : Type ℓ} where
  -- The queue holds `xs`, oldest first.
  abbrev pub Holds : LinkQueue A → List A → Type ℓ
  Holds q xs = IsRing q.elemns q.head q.tail q.total q.size xs

  -- `lqueue_init` gives an empty queue, whatever the memory that `malloc` returns.
  pub init-Holds :
      (total : ℕ) (storage : List A)
      → 0 < total
      → length storage ≡ total
      → Holds (init total storage) []
  unfolding init
  init-Holds = IsRing-start

  module _ {q : LinkQueue A} {xs : List A} (x : A) (h : Holds q xs) (p : q.size < q.total) where
    -- `lqueue_add` with room stores the element behind the others.
    pub add-Holds : (q' : LinkQueue A) × (add q x ≡ ok q') × Holds q' (xs ++ x ∷ [])
    unfolding add
    add-Holds = (
      record q { elemns = set q.elemns q.tail x; tail = bump q.tail q.total; size = q.size + 1 },
      rw (lt→ltb q.size q.total p),
      push-IsRing x h p,
    )

    -- `lqueue_add_head` with room stores the element in front of the others.
    pub add_head-Holds : (q' : LinkQueue A) × (add_head q x ≡ ok q') × Holds q' (x ∷ xs)
    unfolding add_head
    add_head-Holds =
        let head = (q.head + (q.total - 1)) % q.total in
        (
          record q { head = head; elemns = set q.elemns head x; size = q.size + 1 },
          rw (lt→ltb q.size q.total p),
          push_front-IsRing x h p,
        )

  -- `lqueue_get` returns the oldest element and leaves the others in order.
  pub get-Holds :
      {q : LinkQueue A} {x : A} {xs : List A}
      → Holds q (x ∷ xs)
      → (get q ≡ ok (x, remove q)) × Holds (remove q) xs
  unfolding get remove
  get-Holds {q} {x} {xs} h = (rw (oldest h (omega (arith, h.count))), pop-IsRing h)

  -- `lqueue_elem` reads the element with that index, and stops the simulator at any other index.
  pub elem-Holds :
      {q : LinkQueue A} {xs : List A} (i : ℕ) → Holds q xs → elem q i ≡ deref (get_elem? xs i)
  unfolding elem
  elem-Holds {q} {xs} i h = elim (Bool-cases (ltb i q.size)) [
    | inl inside ↦ rw (inside, h.slots i (ltb→lt i q.size inside))
    | inr outside ↦
        rw (outside, get_elem?-none xs i (omega (arith, h.count, ltb_false→le i q.size outside)))
  ]

  -- The tests `lqueue_full`, `lqueue_empty`, `lqueue_head` and `lqueue_check` speak of the list.
  pub tests-Holds :
      {q : LinkQueue A} {xs : List A}
      → Holds q xs
      → (full q ≡ leb q.total (length xs))
        × (empty q ≡ (length xs == 0))
        × (first q ≡ get_elem? xs 0)
        × (check q + length xs ≡ q.total)
  unfolding full empty first check
  tests-Holds {q} {xs} h = (
    rw (h.count) refl,
    rw (h.count) refl,
    elim (Bool-cases (ltb 0 q.size)) [
      | inl some_left ↦ rw some_left (oldest h (ltb→lt 0 q.size some_left))
      | inr none_left ↦
          rw none_left
            (sym (get_elem?-none xs 0 (omega (arith, h.count, ltb_false→le 0 q.size none_left))))
    ],
    omega (arith, h.count, h.fits),
  )
