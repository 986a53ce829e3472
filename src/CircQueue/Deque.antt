-- ===== src/CircQueue/Deque.antt =====
-- The operations of Processor/circq.h against those of a bounded list.
use ml_rsim.Prelude.{
  ℕ, ◌≤◌, ◌<◌, ◌≡◌, refl, ap, ◌∙◌, arith, true, false, none, some, List, [], ◌∷◌, ◌++◌, length,
  get_elem?, set, IsRing-start, oldest, ne_zero, ==_iff, le→leb,
}
use ml_rsim.CircQueue.{
  CircQueue, insert, insert_at_head, delete, delete_from_tail, peek_head, peek_elt, set_elt, reset,
}
use ml_rsim.CircQueue.Refine.{
  Holds, Gives, insert-Gives, insert_at_head-Gives, delete-Gives, delete_from_tail-Gives,
  set_elt-Gives, peek_elt-eq,
}

-- The operations on a queue that holds `xs` do what their names say of the list.
pub record IsDeque {ℓ} {A : Type ℓ} (q : CircQueue A) (xs : List A) : Type ℓ where
  pub inserts : (x : A) → length xs < q.max_cnt → Gives q (insert q x) (xs ++ x ∷ []) true
  pub fronts : (x : A) → length xs < q.max_cnt → Gives q (insert_at_head q x) (x ∷ xs) true
  pub refuses :
      (x : A)
      → length xs ≡ q.max_cnt
      → (insert q x ≡ (q, false)) × (insert_at_head q x ≡ (q, false))
  pub deletes : (y : A) (ys : List A) → xs ≡ y ∷ ys → Gives q (delete q) ys (some y)
  pub pops : (ys : List A) (y : A) → xs ≡ ys ++ y ∷ [] → Gives q (delete_from_tail q) ys (some y)
  pub ends : xs ≡ [] → (delete q ≡ (q, none)) × (delete_from_tail q ≡ (q, none))
  pub peeks : (i : ℕ) → peek_elt q i ≡ get_elem? xs i
  pub heads : peek_head q ≡ get_elem? xs 0
  pub sets : (y : A) (i : ℕ) → i < length xs → Gives q (set_elt q y i) (set xs i y) true
  pub keeps : (y : A) (i : ℕ) → length xs ≤ i → set_elt q y i ≡ (q, false)
  pub resets : Holds (reset q) []

module _ {ℓ} {A : Type ℓ} (q : CircQueue A) (xs : List A) (h : Holds q xs) where
  refused :
      (x : A)
      → length xs ≡ q.max_cnt
      → (insert q x ≡ (q, false)) × (insert_at_head q x ≡ (q, false))
  unfolding insert insert_at_head
  refused x e =
      let full = (==_iff q.cnt q.max_cnt).1 (omega (arith, h.ring.count, e)) in (rw full, rw full)

  ended : xs ≡ [] → (delete q ≡ (q, none)) × (delete_from_tail q ≡ (q, none))
  unfolding delete delete_from_tail
  ended e =
      let gone = (==_iff q.cnt 0).1 (omega (arith, h.ring.count, ap length e)) in (rw gone, rw gone)

  headed : (ys : List A) → xs ≡ ys → peek_head q ≡ get_elem? ys 0
  unfolding peek_head
  headed [] e = rw ((==_iff q.cnt 0).1 (omega (arith, h.ring.count, ap length e)))
  headed (y ∷ ys) e =
      rw (ne_zero q.cnt (omega (arith, h.ring.count, ap length e)))
        (oldest h.ring (omega (arith, h.ring.count, ap length e)) ∙ ap (λ l. get_elem? l 0) e)

  kept : (y : A) (i : ℕ) → length xs ≤ i → set_elt q y i ≡ (q, false)
  unfolding set_elt
  kept y i p = rw (le→leb q.cnt i (omega (arith, h.ring.count, p)))

  reset-Holds : Holds (reset q) []
  unfolding reset
  reset-Holds = record {
    bits = h.bits;
    narrow = h.narrow;
    size = h.size;
    ones = h.ones;
    bound = h.bound;
    within = omega arith;
    ring = IsRing-start q.sz q.arr h.ring.positive h.ring.storage;
  }

  -- The queue is a double-ended queue with at most `max` elements.
  pub Holds-IsDeque : IsDeque q xs
  Holds-IsDeque = record {
    inserts = insert-Gives q xs h;
    fronts = insert_at_head-Gives q xs h;
    refuses = refused;
    deletes = delete-Gives q xs h;
    pops = delete_from_tail-Gives q xs h;
    ends = ended;
    peeks = peek_elt-eq q xs h;
    heads = headed xs refl;
    sets = set_elt-Gives q xs h;
    keeps = kept;
    resets = reset-Holds;
  }
