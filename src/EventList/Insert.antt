-- ===== src/EventList/Insert.antt =====
-- `YS__EventListInsert` refines the insertion into a sorted list, first come first served.
use ml_rsim.Prelude.{
  le→leb, leb_false→lt, ℕ, ◌+◌, ◌≤◌, ◌<◌, ◌≡◌, refl, sym, subst, none, some, List, [], ◌∷◌, ◌++◌,
  arith, leb, ltb, Bool-cases, inl, inr, Checked, ok, false, ltb→lt, leb→le, ltb_false→le, lt→ltb,
}
use ml_rsim.EventList.{Sim, update, walk, link, insert, insert_middle, insert_between}
use ml_rsim.EventList.Chain.{
  Chain, Absent, EndsIn, Holds, place, update_self, Chain-update, Sorted-place, Distinct-place,
  length-place,
}
use ml_rsim.EventList.Walk.{
  Linked, place-later, place-here, walk-Linked, EndsIn-some, place-end, EndsIn-snoc, append,
  Chain-append,
}

-- What an insertion leaves: the event behind all that are due no later, and every time, every mark
-- of a scheduled event, the clock and the active event as they were.
pub record Inserted (s : Sim) (ids : List ℕ) (v : ℕ) (r : Checked Sim) : Type 0 where
  pub after : Sim
  pub returns : r ≡ ok after
  pub holds : Holds after (place s.time v ids)
  pub times : after.time ≡ s.time
  pub size : after.size ≡ s.size + 1
  pub now : after.simtime ≡ s.simtime
  pub flags : after.scheduled ≡ s.scheduled
  pub active : after.act_evnt ≡ s.act_evnt

module _ (s : Sim) (v : ℕ) where
  insert-empty : Holds s [] → Inserted s [] v (insert s v)
  unfolding insert place
  insert-empty h = record {
    after = record s {
      size = s.size + 1;
      head = some v;
      tail = some v;
      next = update s.next v none;
    };
    returns = rw (h.chain, insert);
    holds = record {
      chain = (refl, update_self s.next v none);
      distinct = (tt, tt);
      sorted = (tt, tt);
      ends = refl;
      counted = omega arith;
    };
    times = refl;
    size = refl;
    now = refl;
    flags = refl;
    active = refl;
  }

  module _ (i t : ℕ) (is : List ℕ) (h : Holds s (i ∷ is)) (a : Absent v (i ∷ is)) where
    -- The part of the invariant that does not depend on the pointers.
    placed :
        (after : Sim)
        → after.time ≡ s.time
        → after.size ≡ s.size + 1
        → Chain after.next after.head (place s.time v (i ∷ is))
        → EndsIn after.tail (place s.time v (i ∷ is))
        → Holds after (place s.time v (i ∷ is))
    placed after times size chain ends = record {
      chain = chain;
      distinct = Distinct-place s.time v (i ∷ is) a h.distinct;
      sorted = rw times (Sorted-place s.time v (i ∷ is) h.sorted);
      ends = ends;
      counted = omega (arith, length-place s.time v (i ∷ is), h.counted, size);
    }

    insert_between-front : s.time v < s.time i → Inserted s (i ∷ is) v (insert_between s v i t)
    unfolding insert_between
    insert_between-front lt = record {
      after = after;
      returns = rw (lt→ltb _ _ lt);
      holds =
          placed after refl refl
            (rw (place-here s.time v i is lt) (
              refl,
              rw (update_self s.next v (some i))
                  (Chain-update s.next v (some i) (some i) (i ∷ is) a (refl, h.chain.1)),
            ))
            (rw (place-here s.time v i is lt) h.ends);
      times = refl;
      size = refl;
      now = refl;
      flags = refl;
      active = refl;
    }
      where
        after : Sim
        after = record s { size = s.size + 1; next = update s.next v (some i); head = some v }

    insert_between-back :
        s.tail ≡ some t
        → ltb (s.time v) (s.time i) ≡ false
        → s.time t ≤ s.time v
        → Inserted s (i ∷ is) v (insert_between s v i t)
    unfolding insert_between append
    insert_between-back last front le = record {
      after = after;
      returns = rw (front, le→leb _ _ le);
      holds =
          placed after refl refl
            (rw here (Chain-append s.next v t s.head i is h.chain h.distinct a ends))
            (rw here (EndsIn-snoc v i is));
      times = refl;
      size = refl;
      now = refl;
      flags = refl;
      active = refl;
    }
      where
        after : Sim
        after = record s {
          size = s.size + 1;
          next = update (update s.next t (some v)) v none;
          tail = some v;
        }

        ends : EndsIn (some t) (i ∷ is)
        ends = subst (λ x. EndsIn x (i ∷ is)) last h.ends

        here : place s.time v (i ∷ is) ≡ i ∷ (is ++ v ∷ [])
        here = place-end s.time v t i is ends h.sorted le

    insert_between-middle :
        s.tail ≡ some t
        → ltb (s.time v) (s.time i) ≡ false
        → leb (s.time t) (s.time v) ≡ false
        → Inserted s (i ∷ is) v (insert_between s v i t)
    unfolding insert_between insert_middle
    insert_between-middle last front back = record {
      after = after;
      returns = rw (front, back, walked.found);
      holds =
          placed after refl refl (rw (h.chain.0, here) walked.chain)
            (rw here (walked.ends s.tail h.ends));
      times = refl;
      size = refl;
      now = refl;
      flags = refl;
      active = refl;
    }
      where
        walked : Linked s.next s.time v i is (walk (s.size + 1) s.next s.time (s.time v) i)
        walked =
            walk-Linked s.next s.time v (s.size + 1) i t is (refl, h.chain.1) h.distinct a
              (subst (λ x. EndsIn x (i ∷ is)) last h.ends) (leb_false→lt _ _ back)
              (ltb_false→le _ _ front) (omega (arith, h.counted))

        after : Sim
        after = record s { size = s.size + 1; next = link s.next walked.at v }

        here : place s.time v (i ∷ is) ≡ i ∷ place s.time v is
        here = place-later s.time v i is (le→leb _ _ (ltb_false→le _ _ front))

    insert_between-Inserted : s.tail ≡ some t → Inserted s (i ∷ is) v (insert_between s v i t)
    insert_between-Inserted last = elim (Bool-cases (ltb (s.time v) (s.time i))) [
      | inl front ↦ insert_between-front (ltb→lt _ _ front)
      | inr later ↦ elim (Bool-cases (leb (s.time t) (s.time v))) [
        | inl back ↦ insert_between-back last later (leb→le _ _ back)
        | inr middle ↦ insert_between-middle last later middle
      ]
    ]

insert-nonempty :
    (s : Sim) (v i t : ℕ) → s.head ≡ some i → s.tail ≡ some t → insert s v ≡ insert_between s v i t
unfolding insert
insert-nonempty s v i t p q = ground arith

-- `YS__EventListInsert` of an event that is not in the list always succeeds: it leaves the list with
-- the event behind all that are due no later and in front of the others, and changes no time.
pub insert-Inserted :
    (s : Sim) (ids : List ℕ) (v : ℕ) → Holds s ids → Absent v ids → Inserted s ids v (insert s v)
unfolding insert
insert-Inserted s [] v h a = insert-empty s v h
insert-Inserted s (i ∷ is) v h a =
    let (t, last) = EndsIn-some s.tail i is h.ends in
    subst (Inserted s (i ∷ is) v) (sym (insert-nonempty s v i t h.chain.0 last))
      (insert_between-Inserted s v i t is h a last)
