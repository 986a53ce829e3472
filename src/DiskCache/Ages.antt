-- ===== src/DiskCache/Ages.antt =====
-- The ages of the segments, `lru`, as an order of use: `DISK_cache_touch_segment` of IO/disk_cache.c.
use ml_rsim.Prelude.{
  ℕ, ◌-◌, ◌<◌, ◌≤◌, ◌≡◌, refl, sym, ap, ◌∙◌, ◌≢◌, inl, inr, some, List, map, arith, Checked, ok,
  ◌==◌, ==_iff, Bool-cases, length, get_elem?, set, get_elem?-some, index_in, length-set,
  length-map, get_elem?-map, get_elem?-set_self, get_elem?-set_ne, replicate, length-replicate,
  get_elem?-replicate,
}
use ml_rsim.DiskCache.{Segment, DiskCache, blank, init, older, touch_segment}

-- Ages are below the number of segments, and two segments have the same age only if it is 0, the age of
-- segments that were never used or whose blocks were overwritten.
pub record IsOrder (n : ℕ) (cache : List Segment) : Type 0 where
  pub size : length cache ≡ n
  pub range : (i : ℕ) (s : Segment) → get_elem? cache i ≡ some s → s.lru < n
  pub distinct :
      (i j : ℕ) (s t : Segment)
      → i ≢ j
      → get_elem? cache i ≡ some s
      → get_elem? cache j ≡ some t
      → s.lru ≡ t.lru
      → s.lru ≡ 0

some_inj : {s t : Segment} → some s ≡ some t → s ≡ t
some_inj e = cc

-- What a use of segment `k` leaves: it is the youngest, and no other segment changes but for its age,
-- in which no two others change their order.
pub record Touched (d : DiskCache) (k : ℕ) (s : Segment) (r : Checked DiskCache) : Type 0 where
  pub after : DiskCache
  pub returns : r ≡ ok after
  pub segments : after.cache_segments ≡ d.cache_segments
  pub kilobytes : after.cache_size ≡ d.cache_size
  pub order : IsOrder d.cache_segments after.cache
  pub self : get_elem? after.cache k ≡ some (record s { lru = d.cache_segments - 1 })
  pub others :
      (i : ℕ) (t : Segment)
      → i ≢ k
      → get_elem? d.cache i ≡ some t
      → get_elem? after.cache i ≡ some (older s.lru t)

-- `older` keeps the order of two ages.
pub older_mono : (old : ℕ) (s t : Segment) → s.lru ≤ t.lru → (older old s).lru ≤ (older old t).lru
older_mono old s t h = ground (arith, h)

module _ (n k : ℕ) (cache : List Segment) (s : Segment) (h : IsOrder n cache)
    (at : get_elem? cache k ≡ some s) where
  touched : List Segment
  touched = set (map (older s.lru) cache) k (record s { lru = n - 1 })

  inside : k < n
  inside = omega (arith, index_in cache k at, h.size)

  touched_self : get_elem? touched k ≡ some (record s { lru = n - 1 })
  unfolding touched
  touched_self =
      get_elem?-set_self (map (older s.lru) cache) k (record s { lru = n - 1 })
        (omega (arith, inside, h.size, length-map (older s.lru) cache))

  touched_other :
      (i : ℕ) (t : Segment)
      → i ≢ k
      → get_elem? cache i ≡ some t
      → get_elem? touched i ≡ some (older s.lru t)
  unfolding touched
  touched_other i t ne e =
      get_elem?-set_ne (map (older s.lru) cache) k i (record s { lru = n - 1 }) (λ q. ne (sym q))
      ∙ get_elem?-map (older s.lru) cache i e

  touched_size : length touched ≡ n
  unfolding touched
  touched_size =
      length-set (map (older s.lru) cache) k (record s { lru = n - 1 })
      ∙ length-map (older s.lru) cache
      ∙ h.size

  -- A segment comes from the one at the same place.
  data Comes (i : ℕ) (t : Segment) : Type 0 where
    youngest : i ≡ k → t.lru ≡ n - 1 → Comes i t
    aged :
        (u : Segment) → i ≢ k → get_elem? cache i ≡ some u → t.lru ≡ (older s.lru u).lru → Comes i t

  comes : (i : ℕ) (t : Segment) → get_elem? touched i ≡ some t → Comes i t
  comes i t e = elim (Bool-cases (i == k)) [
    | inl hit ↦
        let q = (==_iff i k).0 hit in
        youngest q (ap (λ x. x.lru) (some_inj (sym e ∙ ap (get_elem? touched) q ∙ touched_self)))
    | inr miss ↦
        let ne : i ≢ k = λ q. ground (arith, miss, q) in
        let (u, f) =
          get_elem?-some cache i (omega (arith, index_in touched i e, touched_size, h.size)) in
        aged u ne f (ap (λ x. x.lru) (some_inj (sym e ∙ touched_other i u ne f)))
  ]

  origin_range : (i : ℕ) (t : Segment) → Comes i t → t.lru < n
  origin_range i t (youngest q e) = omega (arith, e, inside)
  origin_range i t (aged u ne f e) = ground (arith, e, h.range i u f)

  origin_distinct :
      (i j : ℕ) (t u : Segment) → i ≢ j → Comes i t → Comes j u → t.lru ≡ u.lru → t.lru ≡ 0
  origin_distinct i j t u ne (youngest q e) (youngest r f) same = absurd (ne (q ∙ sym r))
  origin_distinct i j t u ne (youngest q e) (aged v nj f g) same =
      ground (arith, e, g, same, h.range j v f, h.range k s at, h.distinct j k v s nj f at)
  origin_distinct i j t u ne (aged v ni f g) (youngest q e) same =
      ground (arith, e, g, same, h.range i v f, h.range k s at, h.distinct i k v s ni f at)
  origin_distinct i j t u ne (aged v ni f g) (aged w nj f' g') same = ground (
    arith,
    g,
    g',
    same,
    h.distinct i j v w ne f f',
    h.distinct j k w s nj f' at,
    h.distinct i k v s ni f at,
  )

  touched-IsOrder : IsOrder n touched
  touched-IsOrder = record {
    size = touched_size;
    range = λ i t e. origin_range i t (comes i t e);
    distinct = λ i j t u ne e f same. origin_distinct i j t u ne (comes i t e) (comes j u f) same;
  }

-- `DISK_cache_touch_segment` of a segment of the cache makes it the youngest, keeps the ages an order of
-- use, and changes nothing else of any segment but its age, in an order-preserving way.
pub touch_segment-Touched :
    (d : DiskCache) (k : ℕ) (s : Segment)
    → IsOrder d.cache_segments d.cache
    → get_elem? d.cache k ≡ some s
    → Touched d k s (touch_segment d k)
unfolding touch_segment touched
touch_segment-Touched d k s h at = record {
  after = record d { cache = touched d.cache_segments k d.cache s h at };
  returns = rw at refl;
  segments = refl;
  kilobytes = refl;
  order = touched-IsOrder d.cache_segments k d.cache s h at;
  self = touched_self d.cache_segments k d.cache s h at;
  others = touched_other d.cache_segments k d.cache s h at;
}

blank_at :
    (n i : ℕ) (s : Segment) → get_elem? (replicate n blank) i ≡ some s → (i < n) × (s.lru ≡ 0)
blank_at n i s e =
    let lt = index_in (replicate n blank) i e in
    let lt' : i < n = omega (arith, lt, length-replicate n blank) in
    (lt', ap (λ x. x.lru) (some_inj (sym e ∙ get_elem?-replicate n blank i lt')))

-- The cache that `DISK_cache_init` makes.
pub init-IsOrder :
    (segments size write_segments : ℕ) → IsOrder segments (init segments size write_segments).cache
unfolding init
init-IsOrder n size write_segments = record {
  size = length-replicate n blank;
  range = λ i s e. let (lt, z) = blank_at n i s e in omega (arith, lt, z);
  distinct = λ i j s t ne e f same. (blank_at n i s e).1;
}
