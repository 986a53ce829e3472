-- ===== src/DiskCache.antt =====
-- IO/disk_cache.c, the segmented cache of a SCSI disk, with the fields of SCSI_DISK that it uses. Block
-- numbers and ages are `int`s that are never negative; -1 as a segment is `none`, and a loop that
-- starts again (`n = -1; continue;`) runs on fuel, with `fatal` when that runs out.
mod Tests
pub mod Store
pub mod Hit
pub mod Readable
pub mod Ages
pub mod Free
pub mod Commit
pub mod Fits
pub mod Aged
pub mod TouchTurn
pub mod Touch
pub mod Choice
use ml_rsim.Prelude.{
  ℕ, zero, suc, ◌+◌, ◌-◌, ◌*◌, ◌/◌, Bool, true, false, not, ◌&&◌, ◌||◌, Option, none, some, List,
  [], ◌∷◌, map, Checked, ok, fatal, deref, ◌>>=◌, ltb, leb, ◌==◌, if◌then◌else◌, length, get_elem?,
  set, replicate, find_from,
}

-- `DISK_CACHE_SEGMENT`
pub record Segment : Type 0 where
  pub start_block : ℕ
  pub end_block : ℕ
  pub lru : ℕ
  pub write : Bool
  pub committed : Bool

pub record DiskCache : Type 0 where
  pub cache_segments : ℕ
  pub cache_size : ℕ
  pub cache_write_segments : ℕ
  pub cache : List Segment

abbrev pub blank : Segment
blank = record { start_block = 0; end_block = 0; lru = 0; write = false; committed = false }

-- `DISK_cache_init`
unfoldable pub init : ℕ → ℕ → ℕ → DiskCache
init segments size write_segments = record {
  cache_segments = segments;
  cache_size = size;
  cache_write_segments = write_segments;
  cache = replicate segments blank;
}

-- `segment_size`, in blocks of SCSI_BLOCK_SIZE
abbrev pub segment_size : DiskCache → ℕ
segment_size d = (d.cache_size * 1024) / (d.cache_segments * 512)

-- `start_block` is in the segment
abbrev pub contains : ℕ → Segment → Bool
contains b s = leb s.start_block b && ltb b s.end_block

-- The loop of `DISK_cache_touch_segment`
abbrev pub older : ℕ → Segment → Segment
older old_age s = if ltb old_age s.lru then record s { lru = s.lru - 1 } else s

-- `DISK_cache_touch_segment`
unfoldable pub touch_segment : DiskCache → ℕ → Checked DiskCache
touch_segment d n = do
  s ← deref (get_elem? d.cache n)
  let youngest = record s { lru = d.cache_segments - 1 }
  ok (record d { cache = set (map (older s.lru) d.cache) n youngest })

-- The first segment with an age
abbrev pub find_age : ℕ → List Segment → Option (ℕ × Segment)
find_age age cache = find_from (λ s. age == s.lru) 0 cache

-- The loop of `DISK_cache_newsegment`: a write segment starts it again with the next age.
unfoldable pub new_loop : ℕ → ℕ → List Segment → Checked (Option ℕ)
new_loop zero age cache = fatal
new_loop (suc fuel) age cache =
    let again = new_loop fuel (age + 1) cache in
    elim (find_age age cache) [
      | none ↦ ok none
      | some (n, s) ↦ if s.write then again else ok (some n)
    ]

-- `DISK_cache_newsegment`; the segment keeps its age.
unfoldable pub new_segment : DiskCache → Checked (DiskCache × Option ℕ)
new_segment d = do
  found ← new_loop (d.cache_segments + 1) 0 d.cache
  elim found [
    | none ↦ ok (d, none)
    | some n ↦ do
      s ← deref (get_elem? d.cache n)
      ok (record d { cache = set d.cache n (record blank { lru = s.lru }) }, some n)
  ]

-- What a turn through the segments says.
pub data Turn : Type 0 where
  at : ℕ → Turn
  -- start again from this block
  again : ℕ → ℕ → Turn
  nothing : Turn

-- The loop of `DISK_cache_getsegment` for a read, from segment `n` on
unfoldable pub read_turn : ℕ → ℕ → ℕ → ℕ → List Segment → Turn
read_turn size start_block length n [] = nothing
read_turn size start_block length n (s ∷ ss) =
    let rest = read_turn size start_block length (n + 1) ss in
    if contains start_block s && not s.write
    then at n
    else if leb s.start_block start_block
        && (leb start_block s.end_block && (ltb (s.end_block - s.start_block) size && not s.write))
    then at n
    else if contains start_block s && (ltb s.end_block (start_block + length) && not s.write)
    then again n s.end_block
    else rest

-- The loop of `DISK_cache_getsegment` for a write
unfoldable pub write_turn : ℕ → ℕ → List Segment → Turn
write_turn start_block n [] = nothing
write_turn start_block n (s ∷ ss) =
    let rest = write_turn start_block (n + 1) ss in
    if contains start_block s && (s.write && s.committed) then at n else rest

-- The end of `DISK_cache_getsegment`; segment -1 is outside the array.
unfoldable pub fresh_segment : DiskCache → Checked (DiskCache × ℕ)
fresh_segment d = do
  (d', found) ← new_segment d
  n ← deref found
  d'' ← touch_segment d' n
  ok (d'', n)

unfoldable pub read_loop : ℕ → DiskCache → ℕ → ℕ → Checked (DiskCache × ℕ)
read_loop zero d start_block length = fatal
read_loop (suc fuel) d start_block length =
    elim (read_turn (segment_size d) start_block length 0 d.cache) [
      | at n ↦ touch_segment d n >>= λ d'. ok (d', n)
      | again n end_block ↦ touch_segment d n >>= λ d'.
          read_loop fuel d' end_block (length - (end_block - start_block))
      | nothing ↦ fresh_segment d
    ]

-- `DISK_cache_getsegment`
unfoldable pub get_segment : DiskCache → ℕ → ℕ → Bool → Checked (DiskCache × ℕ)
get_segment d start_block length write =
    if not write
    then read_loop (length + 1) d start_block length
    else elim (write_turn start_block 0 d.cache) [
      | at n ↦ touch_segment d n >>= λ d'. ok (d', n)
      | again n end_block ↦ fatal
      | nothing ↦ fresh_segment d
    ]
