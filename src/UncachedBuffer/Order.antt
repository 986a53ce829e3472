-- ===== src/UncachedBuffer/Order.antt =====
-- `UBuffer_add_request` of Caches/ubuf.c as a whole: when it takes a request, and what it may pass.
use ml_rsim.Prelude.{
  ℕ, suc, ◌+◌, ◌<◌, ◌≡◌, ◌⊎◌, inl, inr, refl, ap, ◌∙◌, arith, true, false, Bool-cases, none, some,
  Checked, ok, ◌>>=◌, ltb, leb, ◌==◌, get_elem?, get_elem?-some, length-replicate, replicate, subst,
}
use ml_rsim.UncachedBuffer.{
  is_rmw, Req, Item, Buffer, may_combine, Added, place_request, find_top, add_req,
}
use ml_rsim.UncachedBuffer.Add.{
  Sized, Open, Hit, Reach, Place, inside, blocked, nowhere, find_top-Place,
}
use ml_rsim.UncachedBuffer.Put.{Put, insert_at}

module _ (b : Buffer) (r : Req) where
  -- Nothing that the request may go into
  abbrev pub NoPlace : Type 0
  NoPlace =
      (may_combine b r ≡ false)
      ⊎ ((m : ℕ) (it : Item)
          → m < b.num_entries
          → get_elem? b.entries m ≡ some it
          → Hit b r it
          → Open it r
          → Reach b r m b.num_entries
          → ⊥)

  pub data Outcome (res : Checked Added) : Type 0 where
    combined :
        (m : ℕ) (it : Item) (a : Added)
        → res ≡ ok a
        → may_combine b r ≡ true
        → m < b.num_entries
        → get_elem? b.entries m ≡ some it
        → Hit b r it
        → Open it r
        → Reach b r m b.num_entries
        → a.buffer.num_entries ≡ b.num_entries
        → Put b r m it.reqs a
        → Outcome res
    appended :
        (a : Added)
        → res ≡ ok a
        → b.num_entries < b.size
        → NoPlace
        → a.buffer.num_entries ≡ suc b.num_entries
        → Put b r b.num_entries (replicate b.entrysz none) a
        → Outcome res
    refused :
        (a : Added)
        → res ≡ ok a
        → b.num_entries ≡ b.size
        → NoPlace
        → a.consumed ≡ false
        → a.buffer ≡ record b { stall_ub_full = b.stall_ub_full + 1 }
        → Outcome res

  module _ (s : Sized b) where
    place_end : NoPlace → Outcome (place_request b r b.num_entries)
    unfolding place_request
    place_end unfit =
        let end : (b.num_entries == b.num_entries) ≡ true = ground arith in
        elim (Bool-cases (leb b.size b.num_entries)) [
          | inl full ↦
              rw (end, full) (refused _ refl (ground (arith, s.fits, full)) unfit refl refl)
          | inr free ↦
              let lt : b.num_entries < b.size = ground (arith, free) in
              let (it, at) = get_elem?-some b.entries b.num_entries (omega (arith, s.all, lt)) in
              let (a, e, f, put) =
                insert_at b r s b.num_entries lt it (replicate b.entrysz none) (suc b.num_entries)
                  at (rw end refl) (rw end (omega arith)) (length-replicate b.entrysz none)
                  (omega (arith, lt)) in
              rw (end, free) (appended a e lt unfit f put)
        ]

    place_inside :
        (m : ℕ) (it : Item)
        → may_combine b r ≡ true
        → m < b.num_entries
        → get_elem? b.entries m ≡ some it
        → Hit b r it
        → Open it r
        → Reach b r m b.num_entries
        → Outcome (place_request b r m)
    unfolding place_request
    place_inside m it may lt at hit open_ reach =
        let early : (m == b.num_entries) ≡ false = ground (arith, lt) in
        let (a, e, f, put) =
          insert_at b r s m (omega (arith, lt, s.fits)) it it.reqs b.num_entries at (rw early refl)
            (rw early refl) (s.items m it at) s.fits in
        rw early (combined m it a e may lt at hit open_ reach f put)

    no_passing :
        (m : ℕ) (it : Item)
        → get_elem? b.entries m ≡ some it
        → m < b.num_entries
        → (Open it r → ⊥)
        → Reach b r m b.num_entries
        → NoPlace
    no_passing m it at lt shut reach = inr (λ i it' p e h o w. elim (Bool-cases (ltb i m)) [
      | inl l ↦ shut (w.opens m it (ground (arith, l)) lt at)
      | inr l ↦ elim (Bool-cases (ltb m i)) [
        | inl g ↦ reach.misses i it' (ground (arith, g)) p e h
        | inr g ↦
            let same : i ≡ m = ground (arith, l, g) in
            let f : get_elem? b.entries i ≡ some it = ap (get_elem? b.entries) same ∙ at in
            let u : it' ≡ it = cc (e, f) in shut (subst (λ (x : Item). Open x r) u o)
      ]
    ])

    after_search :
        (p : Checked ℕ)
        → may_combine b r ≡ true
        → Place b r b.num_entries p
        → Outcome (p >>= λ top. place_request b r top)
    after_search p may (inside m it e lt at hit o w) = rw e (place_inside m it may lt at hit o w)
    after_search p may (blocked m it e lt at shut w) =
        rw e (place_end (no_passing m it at lt shut w))
    after_search p may (nowhere e all) =
        rw e (place_end (inr (λ i it q g h o w. (all i it q g).1 h)))

-- A read or a write at a buffer whose arrays have their sizes is handled without a fault in one of
-- three ways. It goes into an item in use of its kind and address, if combining is on and the request
-- is a word or a double word, and only where that item and all items behind it are of its kind, carry
-- no fence and are not being sent, and none behind it has the address. Where no item admits that, it
-- goes into a new last item of empty slots if there is room, and otherwise the buffer is as before but
-- for the count of refusals, and the request is not taken. Where it is taken, it stands in the slot
-- of its address in an open item with its address, the request that stood there is returned, no other
-- slot and no other item changes, a read is counted, and the arrays keep their sizes.
pub add_req-Outcome :
    (b : Buffer) (r : Req) (s : Sized b) → is_rmw r.kind ≡ false → Outcome b r (add_req b r)
unfolding add_req
add_req-Outcome b r s h = elim (Bool-cases (may_combine b r)) [
  | inl may ↦
      rw (h, may)
        (after_search b r s (find_top b r b.num_entries) may
          (find_top-Place b r b.num_entries (omega (arith, s.all, s.fits))))
  | inr may ↦ rw (h, may) (place_end b r s (inl may))
]
