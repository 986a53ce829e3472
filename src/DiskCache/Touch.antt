-- ===== src/DiskCache/Touch.antt =====
-- `DISK_cache_touch` of IO/disk_cache.c.
use ml_rsim.Prelude.{
  ℕ, zero, suc, ◌≤◌, ◌+◌, ◌-◌, ◌<◌, ◌≡◌, refl, sym, ap, ◌∙◌, subst, inl, inr, true, false, some,
  none, arith, Checked, ok, Option-cases, get_elem?, get_elem?-some,
}
use ml_rsim.Prelude.{length as count}
use ml_rsim.DiskCache.{Segment, DiskCache, contains}
use ml_rsim.DiskCache.Ages.{IsOrder}
use ml_rsim.DiskCache.Store.{touch_turn, touch_loop, touch}
use ml_rsim.DiskCache.Aged.{Aged, Aged-trans}
use ml_rsim.DiskCache.TouchTurn.{Youngest, Turned, turn-passes, touch_turn-Turned}

-- No segment has the block.
abbrev pub Missed : ℕ → DiskCache → Type 0
Missed start_block d =
    (i : ℕ) (s : Segment) → get_elem? d.cache i ≡ some s → contains start_block s ≡ false

touch_turn-none :
    (start_block length k n : ℕ) (d : DiskCache)
    → Missed start_block d
    → n + k ≡ count d.cache
    → touch_turn start_block length k n d ≡ ok (d, none)
unfolding touch_turn
touch_turn-none start_block length zero n d none_at m = refl
touch_turn-none start_block length (suc k) n d none_at m =
    let (s, at) = get_elem?-some d.cache n (omega (arith, m)) in
    turn-passes start_block length k n d s at (none_at n s at)
    ∙ touch_turn-none start_block length k (n + 1) d none_at (omega (arith, m))

module _ (fuel start_block length : ℕ) (d d' : DiskCache) where
  touch_loop-stops :
      touch_turn start_block length d.cache_segments 0 d ≡ ok (d', none)
      → touch_loop (suc fuel) start_block length d ≡ ok d'
  unfolding touch_loop
  touch_loop-stops h = rw h refl

  touch_loop-again :
      (e : ℕ)
      → touch_turn start_block length d.cache_segments 0 d ≡ ok (d', some e)
      → touch_loop (suc fuel) start_block length d
        ≡ touch_loop fuel e (length - (e - start_block)) d'
  unfolding touch_loop
  touch_loop-again e h = rw h refl

-- The loop ends, with other ages at most, and where a segment has the first block, the youngest has a
-- block of the range.
record Looped (lo hi start_block : ℕ) (d : DiskCache) (r : Checked DiskCache) : Type 0 where
  after : DiskCache
  returns : r ≡ ok after
  aged : Aged d after
  keeps : Youngest lo hi d → Youngest lo hi after
  used :
      (i : ℕ) (s : Segment)
      → get_elem? d.cache i ≡ some s
      → contains start_block s ≡ true
      → Youngest lo hi after

module _ (lo hi : ℕ) where
  touch_loop-Looped :
      (fuel start_block length : ℕ) (d : DiskCache)
      → IsOrder d.cache_segments d.cache
      → length < fuel
      → lo ≤ start_block
      → start_block + (length - 1) ≤ hi
      → Looped lo hi start_block d (touch_loop fuel start_block length d)
  unfolding touch_loop
  touch_loop-Looped zero start_block length d h f from to = elim f [ ]
  touch_loop-Looped (suc fuel) start_block length d h f from to = elim (Option-cases t.next) [
    | inl stops ↦ record {
      after = t.after;
      returns =
          touch_loop-stops fuel start_block length d t.after
            (t.returns ∙ ap (λ x. ok (t.after, x)) stops);
      aged = t.aged;
      keeps = t.keeps;
      used = λ i s. t.used i s (omega arith);
    }
    | inr (e, again) ↦
        let i = t.inside e again in
        let rest =
          touch_loop-Looped fuel e (length - (e - start_block)) t.after
            (subst (λ x. IsOrder x t.after.cache) (sym t.aged.segments) t.aged.order)
            (omega (arith, f, i.0, i.1)) (omega (arith, from, i.0)) (omega (arith, to, i.0, i.1)) in
        record {
          after = rest.after;
          returns =
              touch_loop-again fuel start_block length d t.after e
                (t.returns ∙ ap (λ x. ok (t.after, x)) again)
              ∙ rest.returns;
          aged = Aged-trans d t.after rest.after t.aged rest.aged;
          keeps = λ y. rest.keeps (t.keeps y);
          used = λ i s q c. rest.keeps (t.used i s (omega arith) q c);
        }
  ]
    where
      t : Turned lo hi start_block length 0 d (touch_turn start_block length d.cache_segments 0 d)
      t =
          touch_turn-Turned lo hi start_block length from (omega (arith, to)) d.cache_segments 0 d h
            (omega arith)

-- What `DISK_cache_touch` returns.
pub record Retouched (d : DiskCache) (start_block length : ℕ) (r : Checked DiskCache) : Type 0 where
  pub after : DiskCache
  pub returns : r ≡ ok after
  pub aged : Aged d after
  pub used :
      (i : ℕ) (s : Segment)
      → get_elem? d.cache i ≡ some s
      → contains start_block s ≡ true
      → Youngest start_block (start_block + (length - 1)) after
  pub missed : Missed start_block d → r ≡ ok d

-- Where the ages are an order of use, `DISK_cache_touch` returns for every range of blocks, changes
-- nothing of any segment but its age, and keeps the ages an order of use. Where a segment has the first
-- block, the youngest segment afterwards has a block of the range (the first one, if the length is 0);
-- where none has it, nothing changes.
pub touch-Retouched :
    (d : DiskCache) (start_block length : ℕ)
    → IsOrder d.cache_segments d.cache
    → Retouched d start_block length (touch d start_block length)
unfolding touch
touch-Retouched d start_block length h =
    let one_more : suc length ≡ length + 1 = omega arith in
    let l =
      touch_loop-Looped start_block (start_block + (length - 1)) (length + 1) start_block length d h
        (omega arith) (omega arith) (omega arith) in
    record {
      after = l.after;
      returns = l.returns;
      aged = l.aged;
      used = l.used;
      missed = λ none_at.
          subst (λ f. touch_loop f start_block length d ≡ ok d) one_more
            (touch_loop-stops length start_block length d d (
              touch_turn-none start_block length d.cache_segments 0 d none_at
                (omega (arith, h.size))));
    }
