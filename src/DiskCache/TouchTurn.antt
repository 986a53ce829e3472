-- ===== src/DiskCache/TouchTurn.antt =====
-- A turn of the loop of `DISK_cache_touch` in IO/disk_cache.c.
use ml_rsim.Prelude.{
  ℕ, zero, suc, ◌+◌, ◌-◌, ◌<◌, ◌≡◌, refl, sym, ap, ◌∙◌, subst, inl, inr, true, some, none, Option,
  arith, Checked, ok, ltb, leb, Bool-cases, ltb→lt, get_elem?, get_elem?-some, index_in, ◌≤◌, ◌≢◌,
  false,
}
use ml_rsim.DiskCache.{Segment, DiskCache, contains, touch_segment}
use ml_rsim.DiskCache.Ages.{IsOrder, Touched, touch_segment-Touched}
use ml_rsim.DiskCache.Store.{touch_turn}
use ml_rsim.DiskCache.Aged.{some_inj, Aged, Aged-refl, Aged-trans, Aged-touch_segment}

-- The youngest segment has a block from `lo` to `hi`.
pub record Youngest (lo hi : ℕ) (d : DiskCache) : Type 0 where
  index : ℕ
  segment : Segment
  block : ℕ
  at : get_elem? d.cache index ≡ some segment
  holds : contains block segment ≡ true
  from : lo ≤ block
  to : block ≤ hi
  age : segment.lru ≡ d.cache_segments - 1

-- What a turn of the loop leaves: other ages, and a block inside the range if it starts again. Where a
-- segment has the first block, the youngest has a block of the range.
pub record Turned (lo hi start_block length n : ℕ) (d : DiskCache)
    (r : Checked (DiskCache × Option ℕ)) : Type 0 where
  pub after : DiskCache
  pub next : Option ℕ
  pub returns : r ≡ ok (after, next)
  pub aged : Aged d after
  pub keeps : Youngest lo hi d → Youngest lo hi after
  pub used :
      (i : ℕ) (s : Segment)
      → n ≤ i
      → get_elem? d.cache i ≡ some s
      → contains start_block s ≡ true
      → Youngest lo hi after
  pub inside : (e : ℕ) → next ≡ some e → (start_block < e) × (e < start_block + length)

not_before : (x y : ℕ) → ltb x y ≡ false → leb y x ≡ true
not_before x y h = ground (arith, h)

starts_before : (b : ℕ) (s : Segment) → contains b s ≡ true → b < s.end_block
starts_before b s h = ground (arith, h)

ends_inside :
    (start_block length : ℕ) (s : Segment)
    → contains start_block s ≡ true
    → ltb s.end_block (start_block + length) ≡ true
    → (e : ℕ) → some s.end_block ≡ some e
    → (start_block < e) × (e < start_block + length)
ends_inside start_block length s h q e p =
    subst (λ x. (start_block < x) × (x < start_block + length)) (the_same p)
      (starts_before start_block s h, ltb→lt _ _ q)
  where
    the_same : some s.end_block ≡ some e → s.end_block ≡ e
    the_same r = cc

module _ (start_block length k n : ℕ) (d : DiskCache) (s : Segment)
    (at : get_elem? d.cache n ≡ some s) where
  pub turn-passes :
      contains start_block s ≡ false
      → touch_turn start_block length (suc k) n d ≡ touch_turn start_block length k (n + 1) d
  unfolding touch_turn
  turn-passes h = rw at (rw h refl)

  turn-ends :
      (d' : DiskCache)
      → touch_segment d n ≡ ok d'
      → contains start_block s ≡ true
      → ltb s.end_block (start_block + length) ≡ true
      → touch_turn start_block length (suc k) n d ≡ ok (d', some s.end_block)
  unfolding touch_turn
  turn-ends d' r h q = rw at (rw (h, q, r) refl)

  turn-covers :
      (d' : DiskCache)
      → touch_segment d n ≡ ok d'
      → contains start_block s ≡ true
      → ltb s.end_block (start_block + length) ≡ false
      → touch_turn start_block length (suc k) n d ≡ touch_turn start_block length k (n + 1) d'
  unfolding touch_turn
  turn-covers d' r h q = rw at (rw (h, q, r, not_before s.end_block (start_block + length) q) refl)

module _ (lo hi start_block length : ℕ) (from : lo ≤ start_block) (to : start_block ≤ hi) where
  abbrev AfterTurn : ℕ → ℕ → DiskCache → Type 0
  AfterTurn k n d = Turned lo hi start_block length n d (touch_turn start_block length k n d)

  touch_segment-Youngest :
      (d : DiskCache) (n : ℕ) (s : Segment)
      → (t : Touched d n s (touch_segment d n)) → contains start_block s ≡ true
      → Youngest lo hi t.after
  touch_segment-Youngest d n s t here = record {
    index = n;
    segment = record s { lru = d.cache_segments - 1 };
    block = start_block;
    at = t.self;
    holds = here;
    from = from;
    to = to;
    age = ap (λ x. x - 1) (sym t.segments);
  }

  pass :
      (k n : ℕ) (d : DiskCache) (s : Segment)
      → IsOrder d.cache_segments d.cache
      → get_elem? d.cache n ≡ some s
      → contains start_block s ≡ false
      → AfterTurn k (n + 1) d
      → AfterTurn (suc k) n d
  pass k n d s h at other t = record {
    after = t.after;
    next = t.next;
    returns = turn-passes start_block length k n d s at other ∙ t.returns;
    aged = t.aged;
    keeps = t.keeps;
    used = λ i u lt e c. t.used i u (omega (arith, lt, elsewhere i u e c)) e c;
    inside = t.inside;
  }
    where
      elsewhere :
          (i : ℕ) (u : Segment)
          → get_elem? d.cache i ≡ some u
          → contains start_block u ≡ true
          → i ≢ n
      elsewhere i u e c q =
          let same : u ≡ s = some_inj (sym e ∙ ap (get_elem? d.cache) q ∙ at) in
          cc (sym c ∙ ap (contains start_block) same ∙ other)

  cover :
      (k n : ℕ) (d : DiskCache) (s : Segment) (t : Touched d n s (touch_segment d n))
      → get_elem? d.cache n ≡ some s
      → contains start_block s ≡ true
      → ltb s.end_block (start_block + length) ≡ false
      → AfterTurn k (n + 1) t.after
      → AfterTurn (suc k) n d
  cover k n d s t at here longer later = record {
    after = later.after;
    next = later.next;
    returns =
        turn-covers start_block length k n d s at t.after t.returns here longer ∙ later.returns;
    aged = Aged-trans d t.after later.after (Aged-touch_segment d n s at t) later.aged;
    keeps = λ y. later.keeps (touch_segment-Youngest d n s t here);
    used = λ i u lt e c. later.keeps (touch_segment-Youngest d n s t here);
    inside = later.inside;
  }

  end_turn :
      (k n : ℕ) (d : DiskCache) (s : Segment) (t : Touched d n s (touch_segment d n))
      → get_elem? d.cache n ≡ some s
      → contains start_block s ≡ true
      → ltb s.end_block (start_block + length) ≡ true
      → AfterTurn (suc k) n d
  end_turn k n d s t at here shorter = record {
    after = t.after;
    next = some s.end_block;
    returns = turn-ends start_block length k n d s at t.after t.returns here shorter;
    aged = Aged-touch_segment d n s at t;
    keeps = λ y. touch_segment-Youngest d n s t here;
    used = λ i u lt e c. touch_segment-Youngest d n s t here;
    inside = ends_inside start_block length s here shorter;
  }

  pub touch_turn-Turned :
      (k n : ℕ) (d : DiskCache)
      → IsOrder d.cache_segments d.cache
      → n + k ≡ d.cache_segments
      → AfterTurn k n d
  unfolding touch_turn
  touch_turn-Turned zero n d h m = record {
    after = d;
    next = none;
    returns = refl;
    aged = Aged-refl d h;
    keeps = λ y. y;
    used = λ i u lt e c. absurd (omega (arith, lt, m, h.size, index_in d.cache i e));
    inside = λ e p. absurd (cc p);
  }
  touch_turn-Turned (suc k) n d h m =
      let (s, at) = get_elem?-some d.cache n (omega (arith, h.size, m)) in
      let t = touch_segment-Touched d n s h at in
      elim (Bool-cases (contains start_block s)) [
        | inl here ↦ elim (Bool-cases (ltb s.end_block (start_block + length))) [
          | inl shorter ↦ end_turn k n d s t at here shorter
          | inr longer ↦ cover k n d s t at here longer (
              touch_turn-Turned k (n + 1) t.after
                (subst (λ x. IsOrder x t.after.cache) (sym t.segments) t.order)
                (omega (arith, m, t.segments)))
        ]
        | inr other ↦ pass k n d s h at other (touch_turn-Turned k (n + 1) d h (omega (arith, m)))
      ]
