-- ===== src/LinkQueue/Contract.antt =====
-- The operations of the array queue of Caches/lqueue.h against those of a bounded list.
use ml_rsim.Prelude.{
  ℕ, ◌+◌, ◌<◌, ◌≡◌, arith, subst, false, List, [], ◌∷◌, ◌++◌, ok, fatal, deref, ltb, leb, ◌==◌,
  length, get_elem?,
}
use ml_rsim.LinkQueue.{LinkQueue, full, empty, first, check, add, add_head, elem, remove, get}
use ml_rsim.LinkQueue.Fifo.{Holds, add-Holds, add_head-Holds, get-Holds, elem-Holds, tests-Holds}

-- The operations on a queue that holds `xs` do what their names say of the list.
pub record IsQueue {ℓ} {A : Type ℓ} (q : LinkQueue A) (xs : List A) : Type ℓ where
  pub adds :
      (x : A)
      → length xs < q.total
      → (q' : LinkQueue A) × (add q x ≡ ok q') × Holds q' (xs ++ x ∷ [])
  pub fronts :
      (x : A)
      → length xs < q.total
      → (q' : LinkQueue A) × (add_head q x ≡ ok q') × Holds q' (x ∷ xs)
  pub stops : (x : A) → length xs ≡ q.total → (add q x ≡ fatal) × (add_head q x ≡ fatal)
  pub gets : (x : A) (ys : List A) → xs ≡ x ∷ ys → (get q ≡ ok (x, remove q)) × Holds (remove q) ys
  pub reads : (i : ℕ) → elem q i ≡ deref (get_elem? xs i)
  pub tests :
      (full q ≡ leb q.total (length xs))
      × (empty q ≡ (length xs == 0))
      × (first q ≡ get_elem? xs 0)
      × (check q + length xs ≡ q.total)

module _ {ℓ} {A : Type ℓ} (q : LinkQueue A) (xs : List A) (h : Holds q xs) where
  stopped : (x : A) → length xs ≡ q.total → (add q x ≡ fatal) × (add_head q x ≡ fatal)
  unfolding add add_head
  stopped x e =
      let full_up : ltb q.size q.total ≡ false = ground (arith, h.count, e) in
      (rw full_up, rw full_up)

  -- `lqueue_add`, `lqueue_add_head`, `lqueue_get` and `lqueue_elem` work on the list of the elements,
  -- the oldest first: they stop the simulator on a full queue or an index outside it. `lqueue_full`,
  -- `lqueue_empty`, `lqueue_head` and `lqueue_check` speak of that list.
  pub Holds-IsQueue : IsQueue q xs
  Holds-IsQueue = record {
    adds = λ x p. add-Holds x h (omega (arith, h.count, p));
    fronts = λ x p. add_head-Holds x h (omega (arith, h.count, p));
    stops = stopped;
    gets = λ x ys e. get-Holds (subst (Holds q) e h);
    reads = λ i. elem-Holds i h;
    tests = tests-Holds h;
  }
