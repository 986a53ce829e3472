-- ===== src/Coherence/Unique.antt =====
-- L2Cache_check_mshr of Caches/l2cache.c: every access leaves at most one MSHR to a line.
use ml_rsim.Prelude.{
  ℕ, ◌+◌, ◌≡◌, refl, sym, ap, ◌∙◌, inl, inr, Bool, true, false, not, ◌&&◌, ◌||◌, Option, none, some,
  ok, deref, ◌==◌, ==_iff, length, get_elem?, set, find_from-Sought, missing, sought, Bool-cases,
}
use ml_rsim.Req.{read, ◌is◌}
use ml_rsim.Cache.Line.{Line, Cache}
use ml_rsim.Cache.Recency.{ne_of_test}
use ml_rsim.Cache.Age.{hit_update}
use ml_rsim.Coherence.Snoop.{is_sh_cl}
use ml_rsim.Cache.Search.{Found, hit, search}
use ml_rsim.Coherence.{Mshr, L2, block, is_none}
use ml_rsim.Coherence.Misses.{
  Response, Access, is_found, new_mshr, lock, allocate, written, line_hit, store_mshr, coalesce,
  matched, mshr_of, unmatched, check_mshr,
}
use ml_rsim.Coherence.Holders.{in_use-none, OnePerLine, store-OnePerLine}
use ml_rsim.Coherence.Kept.{
  Reads, Keeps, Keeps-bind, lock-miss, all_in_use, Keeps-if, OnePerLine-if, in_cache, NoneFor,
  of_result, from_zero, not_valid, other_line, both_valid,
}

module _ (c : L2) (a : Access) (h : OnePerLine c) where
  -- An MSHR for the same line in its place
  same_line :
      (i : ℕ) (m n : Mshr)
      → get_elem? c.mshrs i ≡ some m
      → m.valid ≡ true
      → n.valid ≡ true
      → n.blocknum ≡ m.blocknum
      → OnePerLine (store_mshr c i n)
  same_line i m n at v w b =
      store-OnePerLine c (store_mshr c i n) i m n h at w
        (λ j k ne e u same. ne (h.apart i j m k at e v u (sym b ∙ sym same))) refl (rw v)

  matched-OnePerLine :
      (now max_coals i : ℕ) (m : Mshr)
      → get_elem? c.mshrs i ≡ some m
      → m.valid ≡ true
      → OnePerLine (matched now max_coals c a i m).0
  unfolding matched coalesce
  matched-OnePerLine now max_coals i m at v = OnePerLine-if m.pend_opers _ _ h (
      OnePerLine-if m.releasing _ _ h (
        OnePerLine-if m.stall_war _ _ h (
          OnePerLine-if (not (a.prcr_req_type is read) && m.main_reads) _ _
            (same_line i m (record m { stall_war = true }) at v v refl)
            (OnePerLine-if (length m.coal_req + 1 == max_coals) _ _ h
              (same_line i m (coalesce now a m) at v v refl)))))

  allocate-Keeps :
      (k locked : Cache) (code : Found) (j : ℕ) (starts : Bool)
      → lock code j k ≡ ok locked
      → NoneFor c a.paddr
      → Keeps (allocate c k a code j starts)
  unfolding allocate new_mshr
  allocate-Keeps k locked code j starts le free =
      elim (Bool-cases (c.mshr_count == length c.mshrs)) [
        | inl full ↦ rw full (in_cache c k h)
        | inr room ↦ elim (find_from-Sought (λ m. not m.valid) 0 c.mshrs) [
          | missing e all ↦ absurd (ne_of_test room (h.counted ∙ all_in_use c.mshrs all))
          | sought i m e at q ↦
              let idle = not_valid m.valid q in
              let d = record c {
                cache = locked;
                mshrs = set c.mshrs i (new_mshr c a code j);
                mshr_count = c.mshr_count + 1;
              } in
              rw (room, e ∙ ap (λ x. some (x, m)) (from_zero i))
                (Keeps-bind (lock code j k) _ locked le (
                  store-OnePerLine c d i m (new_mshr c a code j) h at refl
                    (λ x n ne f u. free x n f u) refl (rw idle)))
        ]
      ]

  line_hit-Keeps :
      (now : ℕ) (prefetch_on : Bool) (j : ℕ) (r : Cache × Bool) (l : Line)
      → hit_update now c.cache j (record { paddr = a.paddr; prefetch = a.prefetch }) ≡ ok r
      → get_elem? r.0.tags j ≡ some l
      → NoneFor c a.paddr
      → Keeps (line_hit now prefetch_on c a j)
  unfolding line_hit
  line_hit-Keeps now prefetch_on j r l e at free =
      let dirty = record r.0 { tags = set r.0.tags j (record l { state = written l.state }) } in
      let locked = record r.0 { tags = set r.0.tags j (record l { mshr_out = true }) } in
      Keeps-bind (hit_update now c.cache j (record { paddr = a.paddr; prefetch = a.prefetch })) _ r
        e
        (Keeps-bind (deref (get_elem? r.0.tags j)) _ l (ap deref at) (
          Keeps-if (a.prcr_req_type is read) _ _ (in_cache c r.0 h) (
            Keeps-if (is_sh_cl l.state) _ _
              (allocate-Keeps r.0 locked hit j (r.1 && prefetch_on) (rw at) free)
              (in_cache c dirty h))))

  unmatched-Keeps :
      (now : ℕ) (prefetch_on : Bool) (r : Reads now c a)
      → NoneFor c a.paddr
      → Keeps (unmatched now prefetch_on c a r.code r.index)
  unfolding unmatched
  unmatched-Keeps now prefetch_on r free = elim (Bool-cases (is_found r.code)) [
    | inl y ↦
        let (k, l, e, at) = r.ages y in rw y (line_hit-Keeps now prefetch_on r.index k l e at free)
    | inr n ↦ rw n (
        allocate-Keeps c.cache c.cache r.code r.index false (lock-miss r.code r.index c.cache n)
          free)
  ]

  -- What the search for the MSHR of the line says
  data Sighted (r : Option (ℕ × Mshr)) : Type 0 where
    unseen : r ≡ none → NoneFor c a.paddr → Sighted r
    seen :
        (i : ℕ) (m : Mshr)
        → r ≡ some (i, m)
        → get_elem? c.mshrs i ≡ some m
        → m.valid ≡ true
        → Sighted r

  sighted : Sighted (mshr_of c a.paddr)
  sighted = elim (Bool-cases (c.mshr_count == 0)) [
    | inl z ↦ unseen (rw z) (λ j k e v.
        absurd (cc (v, in_use-none c.mshrs (sym h.counted ∙ (==_iff c.mshr_count 0).0 z) j k e)))
    | inr z ↦ elim (find_from-Sought (λ m. m.valid && (block c a.paddr == m.blocknum)) 0 c.mshrs) [
      | missing e all ↦
          unseen (rw z e) (λ j k f v. other_line k.valid (block c a.paddr) k.blocknum (all j k f) v)
      | sought i m e at q ↦
          seen i m (rw z (e ∙ ap (λ x. some (x, m)) (from_zero i))) at
            (both_valid m.valid (block c a.paddr) m.blocknum q)
    ]
  ]

  check_mshr-Keeps :
      (now max_coals : ℕ) (prefetch_on : Bool)
      → Reads now c a
      → Keeps (check_mshr now max_coals prefetch_on c a)
  unfolding check_mshr
  check_mshr-Keeps now max_coals prefetch_on r =
      Keeps-bind (search c.cache a.vaddr a.paddr) _ (r.code, r.index) r.finds
        (Keeps-if ((a.prefetch == 8) && (not (is_none (mshr_of c a.paddr)) || is_found r.code)) _ _
          h
          (elim sighted [
            | unseen e free ↦ rw e (unmatched-Keeps now prefetch_on r free)
            | seen i m e at v ↦ rw e (matched-OnePerLine now max_coals i m at v)
          ]))

  -- `L2Cache_check_mshr` leaves the count of the MSHRs in use right, and at most one for a line.
  pub check_mshr-OnePerLine :
      (now max_coals : ℕ) (prefetch_on : Bool)
      → Reads now c a
      → (d : L2) × (b : Access) × (t : Response) × (starts : Bool) × (check_mshr now max_coals
            prefetch_on c a
          ≡ ok (d, b, t, starts))
        × OnePerLine d
  check_mshr-OnePerLine now max_coals prefetch_on r =
      of_result (check_mshr now max_coals prefetch_on c a)
        (check_mshr-Keeps now max_coals prefetch_on r)
