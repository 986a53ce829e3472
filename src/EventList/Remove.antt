-- ===== src/EventList/Remove.antt =====
-- `YS__EventListRemove` and `YS__EventListGetHead` on the list of events.
use ml_rsim.Prelude.{
  ℕ, zero, suc, ◌+◌, ◌<◌, ◌≡◌, refl, sym, subst, ◌≢◌, Option, none, some, List, [], ◌∷◌, arith,
  length, ◌==◌, ==_iff, if◌then◌else◌, Bool-cases, inl, inr, Checked, ok, false,
}
use ml_rsim.EventList.{Sim, update, is, seek, remove, get_head, take_head, tail_behind}
use ml_rsim.EventList.Chain.{
  Chain, Absent, Distinct, EndsIn, Holds, update_self, update-ne, Chain-update,
}
use ml_rsim.EventList.Walk.{EndsIn-ne}
use ml_rsim.EventList.Erase.{
  Present, erase, From-erase, Sorted-erase, Absent-erase, Distinct-erase, length-erase, erase-hit,
  erase-miss, EndsIn-tail,
}

-- The search stops in front of the event, and unlinking it there removes it.
record Unlinked (next : ℕ → Option ℕ) (v : ℕ) (t : Option ℕ) (i : ℕ) (ids : List ℕ) (r : Checked ℕ)
    : Type 0 where
  at : ℕ
  found : r ≡ ok at
  inside : (j : ℕ) → Absent j (i ∷ ids) → at ≢ j
  chain : Chain (update next at (next v)) (some i) (i ∷ erase v ids)
  ends : EndsIn (if is t v then some at else t) (i ∷ erase v ids)

ends-hit :
    (v i : ℕ) (t : Option ℕ) (ids : List ℕ)
    → Absent v ids
    → EndsIn t (v ∷ ids)
    → EndsIn (if is t v then some i else t) (i ∷ ids)
ends-hit v i t [] a e = rw (e, (==_iff v v).1 refl)
ends-hit v i none (j ∷ ids) a e = e
ends-hit v i (some u) (j ∷ ids) a e = elim (Bool-cases (u == v)) [
  | inl p ↦ absurd (EndsIn-ne u v j ids e a ((==_iff u v).0 p))
  | inr p ↦ subst (λ b. EndsIn (if b then some i else some u) (j ∷ ids)) (sym p) e
]

module _ (next : ℕ → Option ℕ) (v : ℕ) (t : Option ℕ) where
  seek-hit :
      (fuel i : ℕ) (ids : List ℕ)
      → Chain next (some i) (i ∷ v ∷ ids)
      → Distinct (i ∷ v ∷ ids)
      → EndsIn t (v ∷ ids)
      → Unlinked next v t i (v ∷ ids) (seek (suc fuel) next v i)
  unfolding seek
  seek-hit fuel i ids c d e = record {
    at = i;
    found = rw (c.1.0, seek) (rw ((==_iff v v).1 refl));
    inside = λ j b. b.0;
    chain = rw (erase-hit v ids) (
      refl,
      rw (update_self next i (next v)) (Chain-update next i (next v) (next v) ids d.0.1 c.1.1),
    );
    ends = rw (erase-hit v ids) (ends-hit v i t ids d.1.0 e);
  }

  Present-miss : (n : ℕ) (ids : List ℕ) → (n == v) ≡ false → Present v (n ∷ ids) → Present v ids
  Present-miss n ids miss (inl q) = absurd (ground (arith, q, miss))
  Present-miss n ids miss (inr q) = q

  seek-Unlinked :
      (fuel i : ℕ) (ids : List ℕ)
      → Chain next (some i) (i ∷ ids)
      → Distinct (i ∷ ids)
      → Present v ids
      → EndsIn t (i ∷ ids)
      → length ids < fuel
      → Unlinked next v t i ids (seek fuel next v i)
  unfolding seek
  seek-Unlinked zero i ids c d p e f = elim f [ ]
  seek-Unlinked (suc fuel) i [] c d p e f = absurd p
  seek-Unlinked (suc fuel) i (n ∷ ids) c d p e f = elim (Bool-cases (n == v)) [
    | inl hit ↦
        let q : v ≡ n = sym ((==_iff n v).0 hit) in
        subst (λ x. Unlinked next v t i (x ∷ ids) (seek (suc fuel) next v i)) q
          (seek-hit fuel i ids (subst (λ x. Chain next (some i) (i ∷ x ∷ ids)) (sym q) c)
            (subst (λ x. Distinct (i ∷ x ∷ ids)) (sym q) d)
            (subst (λ x. EndsIn t (x ∷ ids)) (sym q) e))
    | inr miss ↦
        let ih =
          seek-Unlinked fuel n ids (refl, c.1.1) d.1 (Present-miss n ids miss p) e (omega arith) in
        record {
          at = ih.at;
          found = rw (c.1.0, seek) (rw miss ih.found);
          inside = λ j b. ih.inside j b.1;
          chain = rw (erase-miss n v ids miss) (
            refl,
            rw (update-ne next ih.at (next v) i (λ q. ih.inside i d.0 (sym q)), c.1.0) ih.chain,
          );
          ends = rw (erase-miss n v ids miss) ih.ends;
        }
  ]

remove-first : (s : Sim) (v : ℕ) → s.head ≡ some v → remove s v ≡ ok (record s { head = s.next v })
unfolding remove
remove-first s v h = ground (arith, h)

abbrev pub unlinked : Sim → ℕ → ℕ → Sim
unlinked s v e = record s {
  next = update s.next e (s.next v);
  tail = if is s.tail v then some e else s.tail;
}

remove-later :
    (s : Sim) (v i e : ℕ)
    → s.head ≡ some i
    → (i == v) ≡ false
    → seek (s.size + 1) s.next v i ≡ ok e
    → remove s v ≡ ok (unlinked s v e)
unfolding remove
remove-later s v i e h miss found = ground (arith, h, miss, found)

-- `YS__EventListRemove` of an event in the list always succeeds and takes out that event alone. It
-- does not count down `size`.
pub remove-Holds :
    (s : Sim) (ids : List ℕ) (v : ℕ)
    → Holds s ids
    → Present v ids
    → (s' : Sim) × (remove s v ≡ ok s') × Holds s' (erase v ids) × (s'.size ≡ s.size)
remove-Holds s [] v h p = absurd p
remove-Holds s (i ∷ ids) v h p = elim (Bool-cases (i == v)) [
  | inl first ↦
      let q : v ≡ i = sym ((==_iff i v).0 first) in
      (
        record s { head = s.next v },
        remove-first s v (subst (λ x. s.head ≡ some x) (sym q) h.chain.0),
        subst (λ x. Holds (record s { head = s.next v }) (erase v (x ∷ ids))) q (rest-first q),
        refl,
      )
  | inr later ↦ (
    unlinked s v (found later).at,
    remove-later s v i (found later).at h.chain.0 later (found later).found,
    rest-later later,
    refl,
  )
]
  where
    rest-first : v ≡ i → Holds (record s { head = s.next v }) (erase v (v ∷ ids))
    rest-first q = rw (erase-hit v ids) (record {
      chain = subst (λ x. Chain s.next (s.next x) ids) (sym q) h.chain.1;
      distinct = h.distinct.1;
      sorted = h.sorted.1;
      ends = EndsIn-tail s.tail i ids h.ends;
      counted = omega (arith, h.counted);
    })

    found : (i == v) ≡ false → Unlinked s.next v s.tail i ids (seek (s.size + 1) s.next v i)
    found miss =
        seek-Unlinked s.next v s.tail (s.size + 1) i ids (refl, h.chain.1) h.distinct
          (Present-miss s.next v s.tail i ids miss p) h.ends (omega (arith, h.counted))

    rest-later :
        (miss : (i == v) ≡ false) → Holds (unlinked s v (found miss).at) (erase v (i ∷ ids))
    rest-later miss = rw (erase-miss i v ids miss) (record {
      chain =
          subst (λ x. Chain (update s.next (found miss).at (s.next v)) x (i ∷ erase v ids))
            (sym h.chain.0) (found miss).chain;
      distinct = (Absent-erase i v ids h.distinct.0, Distinct-erase v ids h.distinct.1);
      sorted =
          (From-erase s.time (s.time i) v ids h.sorted.0, Sorted-erase s.time v ids h.sorted.1);
      ends = (found miss).ends;
      counted = omega (arith, length-erase v ids, h.counted);
    })

take_head-tail :
    (s : Sim) (i : ℕ) (ids : List ℕ) → Holds s (i ∷ ids) → EndsIn (take_head s i).tail ids
unfolding take_head
take_head-tail s i [] h = tt
take_head-tail s i (j ∷ ids) h =
    subst (λ x. EndsIn (tail_behind x s.tail) (j ∷ ids)) (sym h.chain.1.0) h.ends

get_head-eq : (s : Sim) (i : ℕ) → s.head ≡ some i → get_head s ≡ (some i, take_head s i)
unfolding get_head
get_head-eq s i h = ground (arith, h)

-- `YS__EventListGetHead` returns the first event, marks it unscheduled and leaves the others.
pub get_head-Holds :
    (s : Sim) (i : ℕ) (ids : List ℕ)
    → Holds s (i ∷ ids)
    → (get_head s ≡ (some i, take_head s i))
      × Holds (take_head s i) ids
      × ((take_head s i).scheduled i ≡ false)
unfolding take_head
get_head-Holds s i ids h = (
  get_head-eq s i h.chain.0,
  record {
    chain = Chain-update s.next i none (s.next i) ids h.distinct.0 h.chain.1;
    distinct = h.distinct.1;
    sorted = h.sorted.1;
    ends = take_head-tail s i ids h;
    counted = omega (arith, h.counted);
  },
  update_self s.scheduled i false,
)
