-- ===== src/DiskCache/Hit.antt =====
-- `DISK_cache_hit` of IO/disk_cache.c.
use ml_rsim.Prelude.{
  ℕ, zero, suc, ◌+◌, ◌-◌, ◌<◌, ◌≤◌, ◌≡◌, sym, subst, inl, inr, List, arith, Checked, ok, fatal, ltb,
  Bool-cases, ltb→lt, ltb_false→le,
}
use ml_rsim.DiskCache.{Segment, DiskCache}
use ml_rsim.DiskCache.Readable.{
  whole, onward, done, hit_turn, Present, AllPresent, turned_whole, turned_onward, turned_done,
  hit_turn-Turned,
}

-- DISK_CACHE_MISS, DISK_CACHE_HIT_PARTIAL and DISK_CACHE_HIT_FULL
pub data HitCode : Type 0 where
  miss partial full : HitCode

unfoldable pub hit_loop : ℕ → HitCode → ℕ → ℕ → List Segment → Checked HitCode
hit_loop zero rc start_block length cache = fatal
hit_loop (suc fuel) rc start_block length cache = elim (hit_turn start_block length cache) [
  | whole ↦ ok full
  | onward end_block ↦ hit_loop fuel partial end_block (length - (end_block - start_block)) cache
  | done ↦ ok rc
]

-- `DISK_cache_hit`: each start takes at least one block off `length`.
unfoldable pub hit : DiskCache → ℕ → ℕ → Checked HitCode
hit d start_block length = hit_loop (length + 1) miss start_block length d.cache

-- What an answer says of a range of at least one block.
pub data Answers (cache : List Segment) (start_block length : ℕ) (r : Checked HitCode)
    : Type 0 where
  hits : r ≡ ok full → AllPresent cache start_block length → Answers cache start_block length r
  hits_part :
      (b : ℕ)
      → r ≡ ok partial
      → Present cache start_block
      → start_block < b
      → b < start_block + length
      → ¬ Present cache b
      → Answers cache start_block length r
  misses : r ≡ ok miss → ¬ Present cache start_block → Answers cache start_block length r

-- After a start with part of the range found, an answer of a miss means a part.
data Partly (cache : List Segment) (start_block length : ℕ) (r : Checked HitCode) : Type 0 where
  rest_hits : r ≡ ok full → AllPresent cache start_block length → Partly cache start_block length r
  rest_ends :
      (b : ℕ)
      → r ≡ ok partial
      → start_block ≤ b
      → b < start_block + length
      → ¬ Present cache b
      → Partly cache start_block length r

Partly-onward :
    (cache : List Segment) (start_block length e : ℕ) (r : Checked HitCode)
    → start_block < e
    → e < start_block + length
    → ((b : ℕ) → start_block ≤ b → b < e → Present cache b)
    → Partly cache e (length - (e - start_block)) r
    → Partly cache start_block length r
Partly-onward cache start_block length e r p q all (rest_hits h rest) = rest_hits h (λ b u v.
    elim (Bool-cases (ltb b e)) [
      | inl early ↦ all b u (ltb→lt b e early)
      | inr late ↦ rest b (ltb_false→le b e late) (omega (arith, p, q, v))
    ])
Partly-onward cache start_block length e r p q all (rest_ends b h u v gap) =
    rest_ends b h (omega (arith, p, u)) (omega (arith, p, q, v)) gap

module _ (fuel : ℕ) (rc : HitCode) (start_block length : ℕ) (cache : List Segment) where
  hit_loop-whole :
      hit_turn start_block length cache ≡ whole
      → hit_loop (suc fuel) rc start_block length cache ≡ ok full
  unfolding hit_loop
  hit_loop-whole e = ground (arith, e)

  hit_loop-onward :
      (x : ℕ)
      → hit_turn start_block length cache ≡ onward x
      → hit_loop (suc fuel) rc start_block length cache
        ≡ hit_loop fuel partial x (length - (x - start_block)) cache
  unfolding hit_loop
  hit_loop-onward x e = ground (arith, e)

  hit_loop-done :
      hit_turn start_block length cache ≡ done
      → hit_loop (suc fuel) rc start_block length cache ≡ ok rc
  unfolding hit_loop
  hit_loop-done e = ground (arith, e)

-- The loop once part of the range was found.
hit_loop-Partly :
    (fuel start_block length : ℕ) (cache : List Segment)
    → 0 < length
    → length < fuel
    → Partly cache start_block length (hit_loop fuel partial start_block length cache)
unfolding hit_loop
hit_loop-Partly zero start_block length cache p h = absurd (omega (arith, h))
hit_loop-Partly (suc fuel) start_block length cache p h =
    elim (hit_turn-Turned start_block length cache) [
      | turned_whole e all ↦ rest_hits (hit_loop-whole fuel partial start_block length cache e) all
      | turned_onward x e a b all ↦ Partly-onward cache start_block length x _ a b all (
          subst (Partly cache x (length - (x - start_block)))
            (sym (hit_loop-onward fuel partial start_block length cache x e))
            (hit_loop-Partly fuel x (length - (x - start_block)) cache (omega (arith, a, b))
              (omega (arith, a, b, h))))
      | turned_done e gap ↦
          rest_ends start_block (hit_loop-done fuel partial start_block length cache e)
            (omega arith) (omega (arith, p)) gap
    ]

hit_loop-Answers :
    (fuel start_block length : ℕ) (cache : List Segment)
    → 0 < length
    → length ≤ fuel
    → Answers cache start_block length (hit_loop (suc fuel) miss start_block length cache)
hit_loop-Answers fuel start_block length cache p h =
    elim (hit_turn-Turned start_block length cache) [
      | turned_whole e all ↦ hits (hit_loop-whole fuel miss start_block length cache e) all
      | turned_onward x e a b all ↦ later x a b all (
          subst (Partly cache x (length - (x - start_block)))
            (sym (hit_loop-onward fuel miss start_block length cache x e))
            (hit_loop-Partly fuel x (length - (x - start_block)) cache (omega (arith, a, b))
              (omega (arith, a, b, h))))
      | turned_done e gap ↦ misses (hit_loop-done fuel miss start_block length cache e) gap
    ]
  where
    later :
        (x : ℕ)
        → start_block < x
        → x < start_block + length
        → ((b : ℕ) → start_block ≤ b → b < x → Present cache b)
        → Partly cache x
            (length - (x - start_block))
            (hit_loop (suc fuel) miss start_block length cache)
        → Answers cache start_block length (hit_loop (suc fuel) miss start_block length cache)
    later x a b all (rest_hits e rest) = hits e (λ k u v. elim (Bool-cases (ltb k x)) [
      | inl early ↦ all k u (ltb→lt k x early)
      | inr late ↦ rest k (ltb_false→le k x late) (omega (arith, a, b, v))
    ])
    later x a b all (rest_ends k e u v gap) =
        hits_part k e (all start_block (omega arith) a) (omega (arith, a, u))
          (omega (arith, a, b, v)) gap

-- `DISK_cache_hit` of at least one block returns DISK_CACHE_HIT_FULL where all blocks of the range are
-- in segments that can be read, DISK_CACHE_HIT_PARTIAL where the first is and a later one is not, and
-- DISK_CACHE_MISS where the first is not; the restarts end.
pub hit-Answers :
    (d : DiskCache) (start_block length : ℕ)
    → 0 < length
    → Answers d.cache start_block length (hit d start_block length)
unfolding hit
hit-Answers d start_block length p =
    subst
      (λ fuel. Answers d.cache start_block length (hit_loop fuel miss start_block length d.cache))
      (plus_one length) (hit_loop-Answers length start_block length d.cache p (omega arith))
  where
    plus_one : (n : ℕ) → suc n ≡ n + 1
    plus_one n = omega arith
