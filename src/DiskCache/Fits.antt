-- ===== src/DiskCache/Fits.antt =====
-- `DISK_cache_insert` of IO/disk_cache.c: segments do not outgrow their size.
use ml_rsim.Prelude.{
  ℕ, ◌+◌, ◌-◌, ◌<◌, ◌≤◌, ◌≡◌, refl, sym, ap, ◌∙◌, subst, ◌≢◌, inl, inr, true, false, some, arith,
  Checked, ok, ltb, ◌==◌, ==_iff, if◌then◌else◌, Bool-cases, get_elem?, set, get_elem?-set_self,
  get_elem?-set_ne, get_elem?-some, index_in, length-set,
}
use ml_rsim.Prelude.{length as count}
use ml_rsim.DiskCache.{Segment, DiskCache, segment_size, contains, older, touch_segment}
use ml_rsim.DiskCache.Ages.{IsOrder, Touched, touch_segment-Touched}
use ml_rsim.DiskCache.Store.{room, fill, insert}

-- A segment ends behind its start, and has at most `size` blocks.
abbrev pub Fits : ℕ → Segment → Type 0
Fits size s = (s.start_block ≤ s.end_block) × (s.end_block ≤ s.start_block + size)

abbrev pub AllFit : DiskCache → Type 0
AllFit d = (i : ℕ) (s : Segment) → get_elem? d.cache i ≡ some s → Fits (segment_size d) s

cut :
    (size full length : ℕ)
    → full ≤ size
    → ((if ltb size (full + length) then size - full else length) + full ≤ size)
      × ((if ltb size (full + length) then size - full else length) ≤ length)
cut size full length h = ground (arith, h)

-- The blocks that are placed fit behind those that the segment has.
room_bound :
    (d : DiskCache) (s : Segment) (length : ℕ)
    → Fits (segment_size d) s
    → (room d s length + (s.end_block - s.start_block) ≤ segment_size d)
      × (room d s length ≤ length)
unfolding room
room_bound d s length f =
    cut (segment_size d) (s.end_block - s.start_block) length (omega (arith, f.1))

fill-Fits :
    (size start_block length : ℕ) (s : Segment)
    → Fits size s
    → length + (s.end_block - s.start_block) ≤ size
    → Fits size (fill start_block length s)
unfolding fill
fill-Fits size b length s f h = ground (arith, f.0, f.1, h)

fill-contains :
    (start_block length b : ℕ) (s : Segment)
    → s.start_block ≤ s.end_block
    → start_block ≤ b
    → b < start_block + length
    → contains b (fill start_block length s) ≡ true
unfolding fill
fill-contains start_block length b s f p q = ground (arith, f, p, q)

fill-lru : (b length : ℕ) (s : Segment) → (fill b length s).lru ≡ s.lru
unfolding fill
fill-lru b length s = ground arith

-- What an insertion of blocks leaves: the number of blocks that were placed, which are in the segment, and
-- every segment in its bounds.
pub record Placed (d : DiskCache) (start_block length k : ℕ) (s : Segment)
    (r : Checked (DiskCache × ℕ)) : Type 0 where
  pub after : DiskCache
  pub placed : ℕ
  pub returns : r ≡ ok (after, placed)
  pub room_left : placed ≡ (
      if ltb (segment_size d) ((s.end_block - s.start_block) + length)
      then segment_size d - (s.end_block - s.start_block)
      else length)
  pub inside :
      (b : ℕ)
      → start_block ≤ b
      → b < start_block + placed
      → (t : Segment) × (get_elem? after.cache k ≡ some t) × (contains b t ≡ true)
  pub fits : AllFit after
  pub others :
      (i : ℕ) (t : Segment)
      → i ≢ k
      → get_elem? d.cache i ≡ some t
      → get_elem? after.cache i ≡ some (older s.lru t)

some_inj : {s t : Segment} → some s ≡ some t → s ≡ t
some_inj e = cc

older-Fits : (size old : ℕ) (s : Segment) → Fits size s → Fits size (older old s)
older-Fits size old s f = ground (arith, f.0, f.1)

insert-eq :
    (d d' : DiskCache) (start_block length k : ℕ) (s s' : Segment)
    → get_elem? d.cache k ≡ some s
    → touch_segment d k ≡ ok d'
    → get_elem? d'.cache k ≡ some s'
    → insert d start_block length k
      ≡ ok (
        record d' { cache = set d'.cache k (fill start_block (room d s length) s') },
        room d s length,
      )
unfolding insert
insert-eq d d' start_block length k s s' e t e' = simp (e, t, e')

module _ (d : DiskCache) (b length k : ℕ) (s : Segment) (h : IsOrder d.cache_segments d.cache)
    (f : AllFit d) (at : get_elem? d.cache k ≡ some s) where
  used : Touched d k s (touch_segment d k)
  used = touch_segment-Touched d k s h at

  young : Segment
  young = record s { lru = d.cache_segments - 1 }

  result : DiskCache
  result = record (used.after) { cache = set used.after.cache k (fill b (room d s length) young) }

  same_size : segment_size result ≡ segment_size d
  unfolding result
  same_size = simp (used.segments, used.kilobytes) refl

  at_segment : get_elem? result.cache k ≡ some (fill b (room d s length) young)
  unfolding result young
  at_segment =
      get_elem?-set_self used.after.cache k (fill b (room d s length) young)
        (index_in used.after.cache k used.self)

  at_other :
      (i : ℕ) (t : Segment)
      → i ≢ k
      → get_elem? d.cache i ≡ some t
      → get_elem? result.cache i ≡ some (older s.lru t)
  unfolding result
  at_other i t ne e =
      get_elem?-set_ne used.after.cache k i (fill b (room d s length) young) (λ q. ne (sym q))
      ∙ used.others i t ne e

  placed-Fits : Fits (segment_size d) (fill b (room d s length) young)
  unfolding young
  placed-Fits =
      fill-Fits (segment_size d) b (room d s length) young (f k s at)
        (room_bound d s length (f k s at)).0

  result_length : (i : ℕ) (t : Segment) → get_elem? result.cache i ≡ some t → i < count d.cache
  unfolding result
  result_length i t e = omega (
    arith,
    index_in result.cache i e,
    length-set used.after.cache k (fill b (room d s length) young),
    used.order.size,
    h.size,
  )

  result-AllFit : AllFit result
  result-AllFit i t e = elim (Bool-cases (i == k)) [
    | inl hit ↦
        subst (λ z. Fits z t) (sym same_size)
          (subst (Fits (segment_size d))
            (some_inj (sym at_segment ∙ ap (get_elem? result.cache) (sym ((==_iff i k).0 hit)) ∙ e))
            placed-Fits)
    | inr miss ↦
        let ne : i ≢ k = λ q. apart miss q in
        let (u, g) = get_elem?-some d.cache i (result_length i t e) in
        subst (λ z. Fits z t) (sym same_size)
          (subst (Fits (segment_size d)) (some_inj (sym (at_other i u ne g) ∙ e))
            (older-Fits (segment_size d) s.lru u (f i u g)))
  ]
    where
      apart : {x y : ℕ} → (x == y) ≡ false → x ≢ y
      apart p q = ground (arith, p, q)

  -- `DISK_cache_insert` into a segment of a cache in order places the blocks for which the segment has
  -- room, counted from what it held before, leaves every segment in its bounds, and changes no other
  -- segment but for its age.
  pub insert-Placed : Placed d b length k s (insert d b length k)
  unfolding room result young
  insert-Placed = record {
    after = result;
    placed = room d s length;
    returns = insert-eq d used.after b length k s young at used.returns used.self;
    room_left = refl;
    inside = λ x p q. (
      fill b (room d s length) young,
      at_segment,
      fill-contains b (room d s length) x young (f k s at).0 p q,
    );
    fits = result-AllFit;
    others = at_other;
  }
