-- ===== src/DiskCache/Commit/Ranges.antt =====
-- What `DISK_cache_commit_write` leaves in the cache.
use ml_rsim.Prelude.{
  ℕ, zero, suc, ◌+◌, ◌<◌, ◌≤◌, ◌≡◌, sym, ap, ◌∙◌, subst, true, false, ◌&&◌, some, List, [], ◌∷◌,
  map, arith, Checked, ok, ltb, leb, length, get_elem?, get_elem?-map, get_elem?-some, index_in,
  length-map,
}
use ml_rsim.DiskCache.{Segment, DiskCache, contains}
use ml_rsim.DiskCache.Commit.{invalidate, commit, top, commit_write}
use ml_rsim.DiskCache.Commit.Loop.{Marked, same, marked, Kept, Filled, commit_loop-Kept, some_inj}

-- A block of a segment after the first loop was in it before; in a read segment, it is not in the range.
invalidate-contains :
    (a length b : ℕ) (s : Segment)
    → 0 < length
    → s.write ≡ false
    → contains b (invalidate a (a + length) s) ≡ true
    → (contains b s ≡ true)
      × (contains b (record s { start_block = a; end_block = a + length }) ≡ false)
unfolding invalidate
invalidate-contains a length b s p w h = ground (arith, p, w, h)

-- A write segment is left as it is by the first loop, and a read segment stays one.
invalidate-write : (a e : ℕ) (s : Segment) → (invalidate a e s).write ≡ s.write
unfolding invalidate
invalidate-write a e s = ground arith

invalidate-keeps : (a e : ℕ) (s : Segment) → s.write ≡ true → invalidate a e s ≡ s
unfolding invalidate
invalidate-keeps a e s w = rw w

-- What a committed write leaves: in a read segment, blocks of the cache before that are not in the range
-- that was written; in a write segment, all that was there, with the flag possibly set.
pub record Committed (d : DiskCache) (a length : ℕ) (r : Checked DiskCache) : Type 0 where
  pub after : DiskCache
  pub returns : r ≡ ok after
  pub reads :
      (i b : ℕ) (t : Segment)
      → get_elem? after.cache i ≡ some t
      → t.write ≡ false
      → contains b t ≡ true
      → (¬ ((a ≤ b) × (b < a + length)))
        × ((s : Segment) × (get_elem? d.cache i ≡ some s) × (contains b s ≡ true))
  pub writes :
      (i : ℕ) (t : Segment)
      → get_elem? after.cache i ≡ some t
      → t.write ≡ true
      → (s : Segment) × (get_elem? d.cache i ≡ some s) × Marked s t

-- No write segment is empty.
abbrev pub WritesFilled : List Segment → Type 0
WritesFilled cache =
    (i : ℕ) (s : Segment)
    → get_elem? cache i ≡ some s
    → s.write ≡ true
    → s.start_block < s.end_block

top-above :
    (i : ℕ) (s : Segment) (cache : List Segment)
    → get_elem? cache i ≡ some s
    → s.end_block ≤ top cache
unfolding top
top-above i s [] e = absurd (cc e)
top-above zero s (x ∷ xs) e = rw (← ap (λ y. y.end_block) (some_inj e)) (omega arith)
top-above (suc i) s (x ∷ xs) e = omega (arith, top-above i s xs e)

map-back :
    (f : Segment → Segment) (cache : List Segment) (i : ℕ) (t : Segment)
    → get_elem? (map f cache) i ≡ some t
    → (s : Segment) × (get_elem? cache i ≡ some s) × (t ≡ f s)
map-back f cache i t e =
    let (s, at) =
      get_elem?-some cache i (omega (arith, index_in (map f cache) i e, length-map f cache)) in
    (s, at, some_inj (sym e ∙ get_elem?-map f cache i at))

module _ (d : DiskCache) (a length : ℕ) (h : WritesFilled d.cache) where
  ranges : List Segment
  ranges = map (invalidate a (a + length)) d.cache

  ranges-Filled : Filled (top ranges) ranges
  unfolding ranges
  ranges-Filled = record {
    filled = λ i t e w.
        let (s, at, q) = map-back (invalidate a (a + length)) d.cache i t e in
        let was : s.write ≡ true =
          sym (invalidate-write a (a + length) s) ∙ ap (λ x. x.write) (sym q) ∙ w in
        let kept : t ≡ s = q ∙ invalidate-keeps a (a + length) s was in
        (rw kept (h i s at was), top-above i t ranges e);
  }

  -- A segment of the result, and where it comes from.
  traced :
      (cache' : List Segment) (i : ℕ) (t : Segment)
      → Kept ranges cache'
      → get_elem? cache' i ≡ some t
      → (s : Segment) × (get_elem? d.cache i ≡ some s) × Marked (invalidate a (a + length) s) t
  unfolding ranges
  traced cache' i t k e =
      let (u, f, m) = k i t e in
      let (s, at, q) = map-back (invalidate a (a + length)) d.cache i u f in
      (s, at, subst (λ x. Marked x t) q m)

  from_read :
      (b : ℕ) (s t : Segment)
      → 0 < length
      → Marked (invalidate a (a + length) s) t
      → t.write ≡ false
      → contains b t ≡ true
      → (¬ ((a ≤ b) × (b < a + length))) × (contains b s ≡ true)
  from_read b s t p (marked w e) r c = absurd (clash (sym r ∙ ap (λ x. x.write) e ∙ w))
    where
      clash : ¬ (false ≡ true)
      clash q = cc
  from_read b s t p (same e) r c =
      let was = sym (invalidate-write a (a + length) s) ∙ ap (λ x. x.write) (sym e) ∙ r in
      let (inside, outside) =
        invalidate-contains a length b s p was (ap (contains b) (sym e) ∙ c) in
      (λ q. out q outside, inside)
    where
      out : (a ≤ b) × (b < a + length) → (leb a b && ltb b (a + length)) ≡ false → ⊥
      out q h = ground (arith, q.0, q.1, h)

  from_write :
      (s t : Segment) → Marked (invalidate a (a + length) s) t → t.write ≡ true → Marked s t
  from_write s t (same e) w =
      let was = sym (invalidate-write a (a + length) s) ∙ ap (λ x. x.write) (sym e) ∙ w in
      same (e ∙ invalidate-keeps a (a + length) s was)
  from_write s t (marked w e) w' =
      let was = sym (invalidate-write a (a + length) s) ∙ w in
      marked was (e ∙ ap commit (invalidate-keeps a (a + length) s was))

  -- `DISK_cache_commit_write` of at least one block, where no write segment is empty, returns; then no
  -- block of the range is in a read segment, every block of a read segment was in the same segment
  -- before, and a write segment is as before but for its flag, which may be set.
  pub commit_write-Committed : 0 < length → Committed d a length (commit_write d a length)
  unfolding commit_write ranges
  commit_write-Committed p =
      let (cache', e, k) =
        commit_loop-Kept (top ranges) (top ranges + 2) a ranges ranges-Filled (omega arith)
          (omega arith) in
      record {
        after = record d { cache = cache' };
        returns = simp e;
        reads = λ i b t at r c.
            let (s, f, m) = traced cache' i t k at in
            let (out, inside) = from_read b s t p m r c in (out, (s, f, inside));
        writes = λ i t at w. let (s, f, m) = traced cache' i t k at in (s, f, from_write s t m w);
      }
