-- ===== src/DiskCache/Store.antt =====
-- IO/disk_cache.c: how blocks come into the cache, and how writes are committed.
use ml_rsim.Prelude.{
  ℕ, zero, suc, ◌+◌, ◌-◌, Bool, true, false, ◌&&◌, Option, none, some, List, [], ◌∷◌, Checked, ok,
  fatal, deref, ◌>>=◌, ltb, leb, ◌==◌, if◌then◌else◌, length, get_elem?, set, find_from,
}
use ml_rsim.DiskCache.{Segment, DiskCache, segment_size, contains, touch_segment, new_segment}

-- `if (segment_full + length > segment_size) length = segment_size - segment_full;`
unfoldable pub room : DiskCache → Segment → ℕ → ℕ
room d s length =
    let full = s.end_block - s.start_block in
    if ltb (segment_size d) (full + length) then segment_size d - full else length

-- The three ways in which `DISK_cache_insert` places `length` blocks in a segment
unfoldable pub fill : ℕ → ℕ → Segment → Segment
fill start_block length s =
    if start_block == s.end_block
    then record s { end_block = s.end_block + length; committed = true }
    else if contains start_block s && ltb s.end_block (start_block + length)
    then record s { end_block = start_block + length; committed = true }
    else record s { start_block = start_block; end_block = start_block + length; committed = true }

-- `DISK_cache_insert`
unfoldable pub insert : DiskCache → ℕ → ℕ → ℕ → Checked (DiskCache × ℕ)
insert d start_block length segment = do
  s ← deref (get_elem? d.cache segment)
  d' ← touch_segment d segment
  s' ← deref (get_elem? d'.cache segment)
  let length' = room d s length
  ok (record d' { cache = set d'.cache segment (fill start_block length' s') }, length')

-- A turn of the loop of `DISK_cache_touch` over the next `k` segments, from segment `n` on, with the
-- block from which to start again
unfoldable pub touch_turn : ℕ → ℕ → ℕ → ℕ → DiskCache → Checked (DiskCache × Option ℕ)
touch_turn start_block length zero n d = ok (d, none)
touch_turn start_block length (suc k) n d = do
  s ← deref (get_elem? d.cache n)
  let ends = touch_segment d n >>= λ d'. ok (d', some s.end_block)
  let covers = touch_segment d n >>= λ d'. touch_turn start_block length k (n + 1) d'
  let passes = touch_turn start_block length k (n + 1) d
  if contains start_block s && ltb s.end_block (start_block + length)
      then ends
      else (if contains start_block s && leb (start_block + length) s.end_block
          then covers
          else passes)

unfoldable pub touch_loop : ℕ → ℕ → ℕ → DiskCache → Checked DiskCache
touch_loop zero start_block length d = fatal
touch_loop (suc fuel) start_block length d = do
  (d', next) ← touch_turn start_block length d.cache_segments 0 d
  elim next [
    | none ↦ ok d'
    | some end_block ↦ touch_loop fuel end_block (length - (end_block - start_block)) d'
  ]

-- `DISK_cache_touch`
unfoldable pub touch : DiskCache → ℕ → ℕ → Checked DiskCache
touch d start_block length = touch_loop (length + 1) start_block length d

unfoldable pub count_writes : List Segment → ℕ
count_writes [] = 0
count_writes (s ∷ ss) = if s.write then count_writes ss + 1 else count_writes ss

-- One turn of the `do` loop of `DISK_cache_write`, with the number of blocks that it places
unfoldable pub write_segment : DiskCache → ℕ → ℕ → Checked (DiskCache × ℕ)
write_segment d start_block length = do
  (d1, found) ← new_segment d
  n ← deref found
  (d2, rc) ← insert d1 start_block length n
  s ← deref (get_elem? d2.cache n)
  ok (record d2 { cache = set d2.cache n (record s { write = true; committed = false }) }, rc)

-- The `do` loop, for at most `turns` turns
unfoldable pub write_loop : ℕ → DiskCache → ℕ → ℕ → ℕ → Checked (DiskCache × ℕ)
write_loop zero d start_block length current_length = ok (d, current_length)
write_loop (suc turns) d start_block length current_length = do
  (d', rc) ← write_segment d start_block length
  let rest = write_loop turns d' (start_block + rc) (length - rc) (current_length + rc)
  if ltb 0 (length - rc) then rest else ok (d', current_length + rc)

-- `DISK_cache_write`
unfoldable pub write : DiskCache → ℕ → ℕ → Checked (DiskCache × ℕ)
write d start_block length =
    let writes = count_writes d.cache in
    if leb d.cache_write_segments writes
    then ok (d, 0)
    else write_loop (d.cache_write_segments - writes) d start_block length 0

-- The test of `DISK_cache_getwsegment`
abbrev pub within : ℕ → ℕ → Segment → Bool
within start_block length s =
    s.write
    && (s.committed && (leb start_block s.start_block && leb s.end_block (start_block + length)))

-- `DISK_cache_getwsegment`: the segment, with its start block and length
unfoldable pub get_wsegment : DiskCache → ℕ → ℕ → Checked (DiskCache × Option (ℕ × ℕ × ℕ))
get_wsegment d start_block length = elim (find_from (within start_block length) 0 d.cache) [
  | none ↦ ok (d, none)
  | some (n, s) ↦
      touch_segment d n >>= λ d'. ok (d', some (n, s.start_block, s.end_block - s.start_block))
]

-- `DISK_cache_complete_write`
unfoldable pub complete_write : DiskCache → ℕ → Checked DiskCache
complete_write d segment = do
  s ← deref (get_elem? d.cache segment)
  ok (record d { cache = set d.cache segment (record s { write = false }) })

-- `DISK_cache_segment_full`
unfoldable pub segment_full : DiskCache → ℕ → Checked Bool
segment_full d segment = do
  s ← deref (get_elem? d.cache segment)
  ok (leb (segment_size d) (s.end_block - s.start_block))
