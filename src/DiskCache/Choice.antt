-- ===== src/DiskCache/Choice.antt =====
-- `DISK_cache_getsegment` of IO/disk_cache.c for a read: which segment is taken.
use ml_rsim.Prelude.{
  ℕ, zero, suc, ◌+◌, ◌-◌, ◌<◌, ◌≡◌, refl, sym, ap, ◌∙◌, subst, inl, inr, Bool, true, false, not,
  ◌&&◌, ◌||◌, some, List, [], ◌∷◌, arith, Checked, ok, ◌>>=◌, ltb, leb, Bool-cases, get_elem?,
}
use ml_rsim.DiskCache.{
  Segment, DiskCache, segment_size, touch_segment, Turn, at, nothing, read_turn, read_loop,
  get_segment, fresh_segment,
}

-- A read of blocks from `b` on may use the segment: it is no write segment and has the first block, or
-- it ends right in front of that block and is not full.
abbrev pub usable : ℕ → ℕ → Segment → Bool
usable size b s =
    not s.write
    && (leb s.start_block b
        && (leb b s.end_block && (ltb b s.end_block || ltb (s.end_block - s.start_block) size)))

-- The segment that a read takes: the first that is usable, and a new one only where none is.
data Turned (size b : ℕ) (n : ℕ) (cache : List Segment) (r : Turn) : Type 0 where
  takes :
      (k : ℕ) (s : Segment)
      → r ≡ at (n + k)
      → get_elem? cache k ≡ some s
      → usable size b s ≡ true
      → ((i : ℕ) (t : Segment) → i < k → get_elem? cache i ≡ some t → usable size b t ≡ false)
      → Turned size b n cache r
  takes_none :
      r ≡ nothing
      → ((i : ℕ) (t : Segment) → get_elem? cache i ≡ some t → usable size b t ≡ false)
      → Turned size b n cache r

module _ (size b length n : ℕ) (s : Segment) (ss : List Segment) where
  read_turn-usable : usable size b s ≡ true → read_turn size b length n (s ∷ ss) ≡ at n
  unfolding read_turn
  read_turn-usable h = ground (arith, h)

  read_turn-other :
      usable size b s ≡ false
      → read_turn size b length n (s ∷ ss) ≡ read_turn size b length (n + 1) ss
  unfolding read_turn
  read_turn-other h = ground (arith, h)

some_inj : {s t : Segment} → some s ≡ some t → s ≡ t
some_inj e = cc

read_turn-Turned :
    (size b length n : ℕ) (cache : List Segment)
    → Turned size b n cache (read_turn size b length n cache)
unfolding read_turn
read_turn-Turned size b length n [] = takes_none refl (λ i t e. absurd (cc e))
read_turn-Turned size b length n (s ∷ ss) = elim (Bool-cases (usable size b s)) [
  | inl yes_here ↦
      takes 0 s (read_turn-usable size b length n s ss yes_here ∙ ap at (omega arith)) refl yes_here
        (λ i t lt. elim lt [ ])
  | inr other ↦ elim (read_turn-Turned size b length (n + 1) ss) [
    | takes k t e f u first ↦
        takes (suc k) t (read_turn-other size b length n s ss other ∙ e ∙ ap at (omega arith)) f u
          (earlier k other first)
    | takes_none e all ↦
        takes_none (read_turn-other size b length n s ss other ∙ e) (nowhere other all)
  ]
]
  where
    earlier :
        (k : ℕ)
        → usable size b s ≡ false
        → ((i : ℕ) (t : Segment) → i < k → get_elem? ss i ≡ some t → usable size b t ≡ false)
        → (i : ℕ) (t : Segment) → i < suc k
        → get_elem? (s ∷ ss) i ≡ some t
        → usable size b t ≡ false
    earlier k other first zero t lt e = ap (usable size b) (sym (some_inj e)) ∙ other
    earlier k other first (suc i) t lt e = first i t (omega (arith, lt)) e

    nowhere :
        usable size b s ≡ false
        → ((i : ℕ) (t : Segment) → get_elem? ss i ≡ some t → usable size b t ≡ false)
        → (i : ℕ) (t : Segment) → get_elem? (s ∷ ss) i ≡ some t
        → usable size b t ≡ false
    nowhere other all zero t e = ap (usable size b) (sym (some_inj e)) ∙ other
    nowhere other all (suc i) t e = all i t e

-- What `DISK_cache_getsegment` does for a read.
pub data Chosen (d : DiskCache) (b : ℕ) (r : Checked (DiskCache × ℕ)) : Type 0 where
  reused :
      (k : ℕ) (s : Segment)
      → r ≡ (touch_segment d k >>= λ d'. ok (d', k))
      → get_elem? d.cache k ≡ some s
      → usable (segment_size d) b s ≡ true
      → ((i : ℕ) (t : Segment)
          → i < k
          → get_elem? d.cache i ≡ some t
          → usable (segment_size d) b t ≡ false)
      → Chosen d b r
  new :
      r ≡ fresh_segment d
      → ((i : ℕ) (t : Segment) → get_elem? d.cache i ≡ some t → usable (segment_size d) b t ≡ false)
      → Chosen d b r

module _ (fuel : ℕ) (d : DiskCache) (b length : ℕ) where
  read_loop-at :
      (k : ℕ)
      → read_turn (segment_size d) b length 0 d.cache ≡ at k
      → read_loop (suc fuel) d b length ≡ (touch_segment d k >>= λ d'. ok (d', k))
  unfolding read_loop
  read_loop-at k e = ground (arith, e)

  read_loop-nothing :
      read_turn (segment_size d) b length 0 d.cache ≡ nothing
      → read_loop (suc fuel) d b length ≡ fresh_segment d
  unfolding read_loop
  read_loop-nothing e = ground (arith, e)

read_loop-Chosen :
    (fuel : ℕ) (d : DiskCache) (b length : ℕ) → Chosen d b (read_loop (suc fuel) d b length)
read_loop-Chosen fuel d b length = elim (read_turn-Turned (segment_size d) b length 0 d.cache) [
  | takes k s e f u first ↦
      reused k s (read_loop-at fuel d b length k (e ∙ ap at (plus k))) f u first
  | takes_none e all ↦ new (read_loop-nothing fuel d b length e) all
]
  where
    plus : (k : ℕ) → 0 + k ≡ k
    plus k = omega arith

-- `DISK_cache_getsegment` for a read takes the first segment that is no write segment and has the first
-- block, or ends right in front of it and is not full, and makes it the youngest; where there is none, it
-- gets a new segment. Its search never starts again, so that its length is not used.
pub get_segment-Chosen :
    (d : DiskCache) (start_block length : ℕ)
    → Chosen d start_block (get_segment d start_block length false)
unfolding get_segment
get_segment-Chosen d b length =
    subst (λ fuel. Chosen d b (read_loop fuel d b length)) (plus_one length)
      (read_loop-Chosen length d b length)
  where
    plus_one : (n : ℕ) → suc n ≡ n + 1
    plus_one n = omega arith
