-- ===== src/DiskCache/Commit.antt =====
-- `DISK_cache_commit_write` of IO/disk_cache.c.
pub mod Loop
pub mod Ranges
use ml_rsim.Prelude.{
  ℕ, zero, suc, ◌+◌, ◌-◌, ◌<◌, ◌≤◌, ◌≡◌, refl, sym, ap, ◌∙◌, subst, ◌≢◌, inl, inr, Bool, true,
  false, not, ◌&&◌, ◌||◌, Option, none, some, List, [], ◌∷◌, map, arith, Checked, ok, fatal, deref,
  ◌>>=◌, ltb, leb, ◌==◌, ==_iff, if◌then◌else◌, Bool-cases, ltb→lt, ltb_false→le, length, get_elem?,
  set, max, find_from, Sought, find_from-Sought, missing, sought, get_elem?-set_self,
  get_elem?-set_ne, get_elem?-map, get_elem?-some, index_in, length-map,
}
use ml_rsim.DiskCache.{Segment, DiskCache, contains, blank}

-- A read segment whose blocks were overwritten: its age is reset as well.
abbrev pub dropped : Segment → Segment
dropped s = record s { start_block = 0; end_block = 0; committed = false; lru = 0 }

-- The first loop, for one segment and the range of blocks from `a` to `e` - 1.
unfoldable pub invalidate : ℕ → ℕ → Segment → Segment
invalidate a e s =
    if s.write
    then s
    else if leb a s.start_block && (ltb s.start_block e && ltb e s.end_block)
    then record s { start_block = e }
    else if ltb s.start_block a && leb e s.end_block
    then dropped s
    else if ltb s.start_block a && (leb a s.end_block && (ltb s.start_block e && leb s.end_block e))
    then record s { end_block = a }
    else (if leb a s.start_block && leb s.end_block e then dropped s else s)

-- What the second loop looks for
abbrev pub starts : ℕ → Segment → Bool
starts start_block s = (s.start_block == start_block) && s.write

abbrev pub commit : Segment → Segment
commit s = record s { committed = true }

-- The second loop, which starts again from the end of a segment; its `length` is not read.
unfoldable pub commit_loop : ℕ → ℕ → List Segment → Checked (List Segment)
commit_loop zero start_block cache = fatal
commit_loop (suc fuel) start_block cache = elim (find_from (starts start_block) 0 cache) [
  | none ↦ ok cache
  | some (n, s) ↦ commit_loop fuel s.end_block (set cache n (commit s))
]

-- The highest end of a segment
unfoldable pub top : List Segment → ℕ
top [] = 0
top (s ∷ ss) = max s.end_block (top ss)

-- `DISK_cache_commit_write`; the blocks at which the second loop starts again rise up to `top`, where
-- no write segment is empty.
unfoldable pub commit_write : DiskCache → ℕ → ℕ → Checked DiskCache
commit_write d start_block length = do
  let cache = map (invalidate start_block (start_block + length)) d.cache
  cache' ← commit_loop (top cache + 2) start_block cache
  ok (record d { cache = cache' })
