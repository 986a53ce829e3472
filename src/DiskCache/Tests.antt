-- ===== src/DiskCache/Tests.antt =====
-- A disk cache of two segments of four blocks each.
use ml_rsim.Prelude.{
  ℕ, zero, suc, ◌<◌, ◌≡◌, refl, sym, ◌∙◌, ◌≢◌, index_in, Bool, true, false, some, [], ◌∷◌, arith,
  Checked, ok, ◌>>=◌, get_elem?, find_from,
}
use ml_rsim.DiskCache.{
  Segment, DiskCache, init, new_loop, new_segment, fresh_segment, touch_segment, get_segment,
  read_loop, read_turn,
}
use ml_rsim.DiskCache.Store.{
  touch, touch_turn, touch_loop, insert, write, write_loop, write_segment, room, fill, count_writes,
}
use ml_rsim.DiskCache.Hit.{Answers, hit, hit-Answers}
use ml_rsim.DiskCache.Ages.{IsOrder}
use ml_rsim.DiskCache.Free.{IsStrict, GivesAway, new_segment-GivesAway}
use ml_rsim.DiskCache.Commit.{commit_write, commit_loop, invalidate, top}
use ml_rsim.DiskCache.Commit.Ranges.{Committed, WritesFilled, commit_write-Committed}
use ml_rsim.DiskCache.Touch.{Retouched, touch-Retouched}
use ml_rsim.DiskCache.Fits.{AllFit, Placed, insert-Placed}

abbrev segment : ℕ → ℕ → ℕ → Bool → Bool → Segment
segment start_block end_block lru write committed = record {
  start_block = start_block;
  end_block = end_block;
  lru = lru;
  write = write;
  committed = committed;
}

-- Blocks 10 and 11 can be read; 12 and 13 are a write that is not committed.
abbrev half_written : DiskCache
half_written = record {
  cache_segments = 2;
  cache_size = 4;
  cache_write_segments = 1;
  cache = segment 12 14 0 true false ∷ segment 10 12 1 false true ∷ [];
}

segments_equal : {s t : Segment} → some s ≡ some t → s ≡ t
segments_equal e = cc

ages : (i : ℕ) (s : Segment) → get_elem? half_written.cache i ≡ some s → s.lru ≡ i
ages zero s e = cc e
ages (suc zero) s e = cc e
ages (suc (suc i)) s e = absurd (cc e)

in_range : (i : ℕ) (s : Segment) → get_elem? half_written.cache i ≡ some s → i < 2
in_range i s e = index_in half_written.cache i e

half_written-IsOrder : IsOrder 2 half_written.cache
half_written-IsOrder = record {
  size = refl;
  range = λ i s e. omega (arith, ages i s e, in_range i s e);
  distinct = λ i j s t ne e f same. absurd (ne (sym (ages i s e) ∙ same ∙ ages j t f));
}

strict : IsStrict 2 half_written.cache
strict = record {
  range = half_written-IsOrder.range;
  distinct = λ i j s t e f same. sym (ages i s e) ∙ same ∙ ages j t f;
  held = at_age;
}
  where
    at_age :
        (a : ℕ)
        → a < 2
        → (i : ℕ) × (s : Segment) × (get_elem? half_written.cache i ≡ some s) × (s.lru ≡ a)
    at_age zero h = (0, segment 12 14 0 true false, refl, refl)
    at_age (suc zero) h = (1, segment 10 12 1 false true, refl, refl)
    at_age (suc (suc a)) h = absurd (omega (arith, h))

filled : WritesFilled half_written.cache
filled zero s e w = rw (← segments_equal e) (omega arith)
filled (suc zero) s e w = rw (← segments_equal e) (omega arith)
filled (suc (suc i)) s e w = absurd (cc e)

fit : AllFit half_written
fit zero s e = rw (← segments_equal e) (omega arith)
fit (suc zero) s e = rw (← segments_equal e) (omega arith)
fit (suc (suc i)) s e = absurd (cc e)

hit-Answers_example : Answers half_written.cache 10 4 (hit half_written 10 4)
hit-Answers_example = hit-Answers half_written 10 4 (omega arith)

new_segment-GivesAway_example : GivesAway half_written (new_segment half_written)
new_segment-GivesAway_example = new_segment-GivesAway half_written strict

commit_write-Committed_example : Committed half_written 11 3 (commit_write half_written 11 3)
commit_write-Committed_example = commit_write-Committed half_written 11 3 filled (omega arith)

insert-Placed_example :
    Placed half_written 12 5 1 (segment 10 12 1 false true) (insert half_written 12 5 1)
insert-Placed_example =
    insert-Placed half_written 12 5 1 (segment 10 12 1 false true) half_written-IsOrder fit refl

-- Block 11 is in the second segment and blocks 12 and 13 in the first.
both_touched :
    touch half_written 11 3
    ≡ ok (record half_written {
      cache = segment 12 14 1 true false ∷ segment 10 12 0 false true ∷ [];
    })
unfolding touch touch_loop touch_turn touch_segment
both_touched = refl

touch-Retouched_example : Retouched half_written 11 3 (touch half_written 11 3)
touch-Retouched_example = touch-Retouched half_written 11 3 half_written-IsOrder

-- A write of blocks 20 to 23, a read of the same blocks from the disk, and the end of the write
abbrev overlapping : Checked DiskCache
overlapping = do
  (d1, placed) ← write (init 2 4 1) 20 4
  (d2, n) ← get_segment d1 20 4 false
  (d3, rest) ← insert d2 20 4 n
  commit_write d3 20 4

abbrev both_oldest : DiskCache
both_oldest = record {
  cache_segments = 2;
  cache_size = 4;
  cache_write_segments = 1;
  cache = segment 20 24 0 true true ∷ segment 0 0 0 false false ∷ [];
}

overlapping-both_oldest : overlapping ≡ ok both_oldest
unfolding write write_loop write_segment count_writes init new_segment new_loop find_from insert
    room fill touch_segment get_segment read_loop read_turn fresh_segment commit_write commit_loop
    invalidate top
overlapping-both_oldest = refl

none_is_second : (i : ℕ) (t : Segment) → get_elem? both_oldest.cache i ≡ some t → t.lru ≢ 1
none_is_second zero t e = rw (← segments_equal e) (λ q. omega (arith, q))
none_is_second (suc zero) t e = rw (← segments_equal e) (λ q. omega (arith, q))
none_is_second (suc (suc i)) t e = absurd (cc e)
