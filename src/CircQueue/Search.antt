-- ===== src/CircQueue/Search.antt =====
-- The binary search of Processor/circq.h.
use ml_rsim.Prelude.{
  ℕ, zero, suc, ◌+◌, ◌-◌, ◌/◌, ◌%◌, ◌≤◌, ◌<◌, ◌≡◌, refl, sym, ap, ◌∙◌, ◌≢◌, inl, inr, arith, true,
  false, Bool-cases, Option, none, some, List, [], length, get_elem?, get_elem?-some, index_in, ltb,
  leb, ◌==◌, ==_iff, ltb→lt, lt→ltb, ltb_false→le, if◌then◌else◌, bit_and, bit_and-ones, mod_wrap,
  Checked, ok,
}
use ml_rsim.CircQueue.{CircQueue, equal, below, above, probe, search_loop, search}
use ml_rsim.CircQueue.Refine.{Holds}

beyond : (x key : ℕ) → (x == key) ≡ false → ltb x key ≡ false → key < x
beyond x key p q = ground (arith, p, q)

module _ {ℓ} {A : Type ℓ} (tag : A → ℕ) where
  -- The tags do not fall.
  abbrev pub InOrder : List A → Type ℓ
  InOrder xs =
      (i j : ℕ) (a b : A)
      → i ≤ j
      → get_elem? xs i ≡ some a
      → get_elem? xs j ≡ some b
      → tag a ≤ tag b

  -- What the search answers: an element with the tag, or that there is none.
  pub data Finds (xs : List A) (key : ℕ) (r : Checked (Option A)) : Type ℓ where
    hit : (i : ℕ) (d : A) → r ≡ ok (some d) → get_elem? xs i ≡ some d → tag d ≡ key → Finds xs key r
    none_has :
        r ≡ ok none → ((i : ℕ) (d : A) → get_elem? xs i ≡ some d → tag d ≢ key) → Finds xs key r

  -- The elements outside the range that is left do not have the tag.
  record Ruled (q : CircQueue A) (xs : List A) (key lo end : ℕ) : Type ℓ where
    from : q.head ≤ lo
    ordered : lo ≤ end
    to : end ≤ q.head + q.cnt
    before : (i : ℕ) (d : A) → q.head + i < lo → get_elem? xs i ≡ some d → tag d < key
    behind : (i : ℕ) (d : A) → end ≤ q.head + i → get_elem? xs i ≡ some d → key < tag d

  module _ (q : CircQueue A) (xs : List A) (h : Holds q xs) where
    slot_of :
        (mid : ℕ)
        → q.head ≤ mid
        → mid < q.head + q.cnt
        → get_elem? q.arr (bit_and mid q.mask) ≡ get_elem? xs (mid - q.head)
    slot_of mid p r =
        ap (get_elem? q.arr) (
          ap (bit_and mid) h.ones
          ∙ bit_and-ones mid h.bits
          ∙ ap (λ n. mid % n) (sym h.size)
          ∙ ap (λ x. x % q.sz) (omega arith))
        ∙ h.ring.slots (mid - q.head) (omega arith)

    module _ (key : ℕ) (sorted : InOrder xs) where
      middle : ℕ → ℕ → ℕ
      middle lo end = (lo + end - 1) / 2

      stops :
          (fuel lo end : ℕ) → ltb lo end ≡ false → search_loop tag q key (suc fuel) lo end ≡ ok none
      unfolding search_loop
      stops fuel lo end p = rw p refl

      stops_at :
          (fuel lo end : ℕ) (d : A)
          → ltb lo end ≡ true
          → probe tag q key (middle lo end) ≡ equal d
          → search_loop tag q key (suc fuel) lo end ≡ ok (some d)
      unfolding search_loop middle
      stops_at fuel lo end d p e = rw (p, e) refl

      goes_up :
          (fuel lo end : ℕ)
          → ltb lo end ≡ true
          → probe tag q key (middle lo end) ≡ below
          → search_loop tag q key (suc fuel) lo end
            ≡ search_loop tag q key fuel (middle lo end + 1) end
      unfolding search_loop middle
      goes_up fuel lo end p e = rw (p, e) refl

      goes_down :
          (fuel lo end : ℕ)
          → ltb lo end ≡ true
          → probe tag q key (middle lo end) ≡ above
          → search_loop tag q key (suc fuel) lo end ≡ search_loop tag q key fuel lo (middle lo end)
      unfolding search_loop middle
      goes_down fuel lo end p e = rw (p, e) refl

      module _ (mid : ℕ) (d : A) (at : get_elem? q.arr (bit_and mid q.mask) ≡ some d) where
        sees_equal : (tag d == key) ≡ true → probe tag q key mid ≡ equal d
        unfolding probe
        sees_equal e = rw (at, probe) (rw e refl)

        sees_below : (tag d == key) ≡ false → ltb (tag d) key ≡ true → probe tag q key mid ≡ below
        unfolding probe
        sees_below e p = rw (at, probe) (rw (e, p) refl)

        sees_above : (tag d == key) ≡ false → ltb (tag d) key ≡ false → probe tag q key mid ≡ above
        unfolding probe
        sees_above e p = rw (at, probe) (rw (e, p) refl)

      again : {r r' : Checked (Option A)} → r ≡ r' → Finds xs key r' → Finds xs key r
      again e (hit i d f g k) = hit i d (e ∙ f) g k
      again e (none_has f g) = none_has (e ∙ f) g

      outside :
          (lo end : ℕ)
          → Ruled q xs key lo end
          → end ≤ lo
          → (i : ℕ) (d : A) → get_elem? xs i ≡ some d
          → tag d ≢ key
      outside lo end c p i d e k = elim (Bool-cases (ltb (q.head + i) lo)) [
        | inl early ↦ absurd (omega (arith, c.before i d (ltb→lt _ _ early) e, k))
        | inr late ↦
            absurd (
              omega (arith, c.behind i d (omega (arith, ltb_false→le _ _ late, p, c.ordered)) e, k))
      ]

      middle_in : (lo end : ℕ) → lo < end → (lo ≤ middle lo end) × (middle lo end < end)
      unfolding middle
      middle_in lo end p = omega arith

      Ruled-up :
          (lo end mid : ℕ) (d : A)
          → Ruled q xs key lo end
          → lo ≤ mid
          → mid < end
          → get_elem? xs (mid - q.head) ≡ some d
          → tag d < key
          → Ruled q xs key (mid + 1) end
      Ruled-up lo end mid d c p r at less = record {
        from = omega (arith, c.from, p);
        ordered = omega (arith, r);
        to = c.to;
        before =
            λ i x s e. omega (arith, less, sorted i (mid - q.head) x d (omega (arith, s)) e at);
        behind = c.behind;
      }

      Ruled-down :
          (lo end mid : ℕ) (d : A)
          → Ruled q xs key lo end
          → lo ≤ mid
          → mid < end
          → get_elem? xs (mid - q.head) ≡ some d
          → key < tag d
          → Ruled q xs key lo mid
      Ruled-down lo end mid d c p r at more = record {
        from = c.from;
        ordered = p;
        to = omega (arith, c.to, r);
        before = c.before;
        behind =
            λ i x s e. omega (arith, more, sorted (mid - q.head) i d x (omega (arith, s)) at e);
      }

      search_loop-Finds :
          (fuel lo end : ℕ)
          → end < lo + fuel
          → Ruled q xs key lo end
          → Finds xs key (search_loop tag q key fuel lo end)
      search_loop-Finds zero lo end f c = absurd (omega (arith, f, c.ordered))
      search_loop-Finds (suc fuel) lo end f c = elim (Bool-cases (ltb lo end)) [
        | inr over ↦ none_has (stops fuel lo end over) (outside lo end c (ltb_false→le lo end over))
        | inl going ↦
            let mid = middle lo end in
            let (low, high) = middle_in lo end (ltb→lt lo end going) in
            let (d, at) =
              get_elem?-some xs (mid - q.head)
                (omega (arith, c.from, c.to, low, high, h.ring.count)) in
            let seen : get_elem? q.arr (bit_and mid q.mask) ≡ some d =
              slot_of mid (omega (arith, c.from, low)) (omega (arith, c.to, high)) ∙ at in
            elim (Bool-cases (tag d == key)) [
              | inl same ↦
                  hit (mid - q.head) d (stops_at fuel lo end d going (sees_equal mid d seen same))
                    at ((==_iff (tag d) key).0 same)
              | inr differ ↦ elim (Bool-cases (ltb (tag d) key)) [
                | inl less ↦ again (goes_up fuel lo end going (sees_below mid d seen differ less)) (
                    search_loop-Finds fuel (mid + 1) end (omega (arith, f, low))
                      (Ruled-up lo end mid d c low high at (ltb→lt _ _ less)))
                | inr more ↦
                    again (goes_down fuel lo end going (sees_above mid d seen differ more)) (
                      search_loop-Finds fuel lo mid (omega (arith, f, high))
                        (Ruled-down lo end mid d c low high at (beyond (tag d) key differ more)))
              ]
            ]
      ]

      -- `Search` of a queue that is not empty, whose tags do not fall, ends, stops_at an element that has
      -- the tag, and answers that there is none only where there is none.
      pub search-Finds : 0 < q.cnt → Finds xs key (search tag q key)
      unfolding search
      search-Finds p =
          search_loop-Finds (q.sz + 1) q.head (if leb q.tail q.head then q.tail + q.sz else q.tail)
            (omega (arith, upper, h.ring.fits))
            (record {
              from = omega arith;
              ordered = omega (arith, upper);
              to = omega (arith, upper);
              before = λ i d r e. absurd (omega arith);
              behind = λ i d r e. absurd (omega (arith, upper, r, index_in xs i e, h.ring.count));
            })
        where
          upper : (if leb q.tail q.head then q.tail + q.sz else q.tail) ≡ q.head + q.cnt
          upper = ground (
            arith,
            p,
            h.ring.tail_at,
            h.ring.head_in,
            h.ring.fits,
            mod_wrap (q.head + q.cnt) q.sz,
          )

    -- `Search` of an empty queue looks at slots that hold no element: it returns whatever the slot in
    -- the middle of the array, from `head` on, was left with.
    pub search-stale :
        (d : A)
        → xs ≡ []
        → get_elem? q.arr ((q.head + (q.sz - 1) / 2) % q.sz) ≡ some d
        → search tag q (tag d) ≡ ok (some d)
    unfolding search middle
    search-stale d e at =
        ap
          (λ f.
            search_loop tag q (tag d) f q.head
              (if leb q.tail q.head then q.tail + q.sz else q.tail))
          (omega arith)
        ∙ ap (search_loop tag q (tag d) (suc q.sz) q.head) whole
        ∙ stops_at (tag d) vacuous q.sz q.head (q.head + q.sz) d
            (lt→ltb q.head (q.head + q.sz) (omega (arith, h.ring.positive)))
            (sees_equal (tag d) vacuous (middle (tag d) vacuous q.head (q.head + q.sz)) d
              middle_slot ((==_iff (tag d) (tag d)).1 refl))
      where
        vacuous : InOrder xs
        vacuous i j a b p u v = absurd (omega (arith, index_in xs i u, ap length e))

        whole : (if leb q.tail q.head then q.tail + q.sz else q.tail) ≡ q.head + q.sz
        whole = ground (
          arith,
          h.ring.tail_at,
          h.ring.head_in,
          h.ring.count,
          ap length e,
          mod_wrap (q.head + q.cnt) q.sz,
        )

        middle_slot :
            get_elem? q.arr (bit_and (middle (tag d) vacuous q.head (q.head + q.sz)) q.mask)
            ≡ some d
        middle_slot =
            ap (get_elem? q.arr) (
              ap (bit_and (middle (tag d) vacuous q.head (q.head + q.sz))) h.ones
              ∙ bit_and-ones (middle (tag d) vacuous q.head (q.head + q.sz)) h.bits
              ∙ ap (λ n. middle (tag d) vacuous q.head (q.head + q.sz) % n) (sym h.size)
              ∙ ap (λ x. x % q.sz) (omega (arith, h.ring.positive)))
            ∙ at
