-- ===== src/DiskCache/Free.antt =====
-- `DISK_cache_newsegment` of IO/disk_cache.c: which segment is given away.
use ml_rsim.Prelude.{
  ℕ, zero, suc, ◌+◌, ◌-◌, ◌<◌, ◌≤◌, ◌≡◌, sym, ap, ◌∙◌, subst, ◌≢◌, inl, inr, true, false, Option,
  none, some, List, arith, Checked, ok, fatal, ltb, ◌==◌, ==_iff, Bool-cases, ltb→lt, ltb_false→le,
  get_elem?, set, find_from-Sought, missing, sought,
}
use ml_rsim.DiskCache.{Segment, DiskCache, blank, find_age, new_loop, new_segment, fresh_segment}

-- The ages are 0 to n - 1, each that of one segment.
pub record IsStrict (n : ℕ) (cache : List Segment) : Type 0 where
  pub range : (i : ℕ) (s : Segment) → get_elem? cache i ≡ some s → s.lru < n
  pub distinct :
      (i j : ℕ) (s t : Segment)
      → get_elem? cache i ≡ some s
      → get_elem? cache j ≡ some t
      → s.lru ≡ t.lru
      → i ≡ j
  pub held : (a : ℕ) → a < n → (i : ℕ) × (s : Segment) × (get_elem? cache i ≡ some s) × (s.lru ≡ a)

module _ (fuel age : ℕ) (cache : List Segment) where
  new_loop-missing : find_age age cache ≡ none → new_loop (suc fuel) age cache ≡ ok none
  unfolding new_loop
  new_loop-missing e = ground (arith, e)

  new_loop-write :
      (k : ℕ) (s : Segment)
      → find_age age cache ≡ some (k, s)
      → s.write ≡ true
      → new_loop (suc fuel) age cache ≡ new_loop fuel (age + 1) cache
  unfolding new_loop
  new_loop-write k s e w = ground (arith, e, w)

  new_loop-read :
      (k : ℕ) (s : Segment)
      → find_age age cache ≡ some (k, s)
      → s.write ≡ false
      → new_loop (suc fuel) age cache ≡ ok (some k)
  unfolding new_loop
  new_loop-read k s e w = ground (arith, e, w)

-- Every segment with an age below `age` is a write segment.
abbrev pub AllWrites : ℕ → List Segment → Type 0
AllWrites age cache =
    (i : ℕ) (t : Segment) → get_elem? cache i ≡ some t → t.lru < age → t.write ≡ true

-- Which segment the loop returns: the oldest that is no write segment, and none only where all are.
data Oldest (cache : List Segment) (r : Checked (Option ℕ)) : Type 0 where
  oldest_read :
      (k : ℕ) (s : Segment)
      → r ≡ ok (some k)
      → get_elem? cache k ≡ some s
      → s.write ≡ false
      → AllWrites s.lru cache
      → Oldest cache r
  all_writes :
      r ≡ ok none
      → ((i : ℕ) (t : Segment) → get_elem? cache i ≡ some t → t.write ≡ true)
      → Oldest cache r

Oldest-same :
    {cache : List Segment} {r r' : Checked (Option ℕ)} → r' ≡ r → Oldest cache r → Oldest cache r'
Oldest-same {cache} e o = subst (Oldest cache) (sym e) o

same_segment : {s t : Segment} {o : Option Segment} → o ≡ some s → o ≡ some t → s ≡ t
same_segment e f = cc

module _ (n : ℕ) (cache : List Segment) (h : IsStrict n cache) where
  more_writes :
      (age k : ℕ) (s : Segment)
      → AllWrites age cache
      → get_elem? cache k ≡ some s
      → s.lru ≡ age
      → s.write ≡ true
      → AllWrites (age + 1) cache
  more_writes age k s all at q w i t e lt = elim (Bool-cases (t.lru == age)) [
    | inl same ↦
        let p = h.distinct i k t s e at ((==_iff t.lru age).0 same ∙ sym q) in
        ap (λ x. x.write) (same_segment e (ap (get_elem? cache) p ∙ at)) ∙ w
    | inr other ↦ all i t e (below other lt)
  ]
    where
      below : {a : ℕ} → (a == age) ≡ false → a < age + 1 → a < age
      below p q = ground (arith, p, q)

  new_loop-Oldest :
      (fuel age : ℕ)
      → age ≤ n
      → n < age + fuel
      → AllWrites age cache
      → Oldest cache (new_loop fuel age cache)
  new_loop-Oldest zero age le g all = absurd (omega (arith, le, g))
  new_loop-Oldest (suc fuel) age le g all = elim (find_from-Sought (λ s. age == s.lru) 0 cache) [
    | missing e none_at ↦
        all_writes (new_loop-missing fuel age cache e)
          (λ i t at. all i t at (omega (arith, h.range i t at, le, top none_at)))
    | sought k s e at found ↦
        let q = sym ((==_iff age s.lru).0 found) in
        elim (Bool-cases (s.write)) [
          | inl w ↦ Oldest-same (new_loop-write fuel age cache (0 + k) s e w) (
              new_loop-Oldest fuel (age + 1) (omega (arith, h.range k s at, q)) (omega (arith, g))
                (more_writes age k s all at q w))
          | inr r ↦
              oldest_read (0 + k) s (new_loop-read fuel age cache (0 + k) s e r) (rw (plus k) at) r
                (rw q all)
        ]
  ]
    where
      differ : {a b : ℕ} → (a == b) ≡ false → b ≢ a
      differ h e = ground (arith, h, e)

      top : ((i : ℕ) (t : Segment) → get_elem? cache i ≡ some t → (age == t.lru) ≡ false) → age ≡ n
      top none_at = elim (Bool-cases (ltb age n)) [
        | inl lt ↦
            let (i, t, at, q) = h.held age (ltb→lt age n lt) in absurd (differ (none_at i t at) q)
        | inr ge ↦ omega (arith, le, ltb_false→le age n ge)
      ]

      plus : (k : ℕ) → 0 + k ≡ k
      plus k = omega arith

-- What `DISK_cache_newsegment` does where the ages are 0 to n - 1: it empties the oldest segment that is
-- not a write segment, and returns -1 only where all are write segments.
pub data GivesAway (d : DiskCache) (r : Checked (DiskCache × Option ℕ)) : Type 0 where
  given :
      (k : ℕ) (s : Segment)
      → r ≡ ok (record d { cache = set d.cache k (record blank { lru = s.lru }) }, some k)
      → get_elem? d.cache k ≡ some s
      → s.write ≡ false
      → AllWrites s.lru d.cache
      → GivesAway d r
  none_left :
      r ≡ ok (d, none)
      → ((i : ℕ) (t : Segment) → get_elem? d.cache i ≡ some t → t.write ≡ true)
      → GivesAway d r

module _ (d : DiskCache) where
  new_segment-given :
      (k : ℕ) (s : Segment)
      → new_loop (d.cache_segments + 1) 0 d.cache ≡ ok (some k)
      → get_elem? d.cache k ≡ some s
      → new_segment d
        ≡ ok (record d { cache = set d.cache k (record blank { lru = s.lru }) }, some k)
  unfolding new_segment
  new_segment-given k s e at = simp (e, at)

  new_segment-none :
      new_loop (d.cache_segments + 1) 0 d.cache ≡ ok none → new_segment d ≡ ok (d, none)
  unfolding new_segment
  new_segment-none e = simp e

  -- `DISK_cache_newsegment`, where the ages are 0 to n - 1, each that of one segment, returns and empties
  -- the oldest segment that is not a write segment, and returns -1 only where all are; its restarts end.
  pub new_segment-GivesAway : IsStrict d.cache_segments d.cache → GivesAway d (new_segment d)
  new_segment-GivesAway h =
      elim (new_loop-Oldest d.cache_segments d.cache h (d.cache_segments + 1) 0 (omega arith)
        (omega arith) (λ i t e lt. elim lt [ ])) [
          | oldest_read k s e at w all ↦ given k s (new_segment-given k s e at) at w all
          | all_writes e all ↦ none_left (new_segment-none e) all
        ]

  -- Where the first segment with age 0 is a write segment and no segment has age 1,
  -- `DISK_cache_newsegment` returns -1, and `DISK_cache_getsegment` then reads outside the array, whatever
  -- the other segments are.
  pub new_segment-stuck :
      (k : ℕ) (s : Segment)
      → 0 < d.cache_segments
      → find_age 0 d.cache ≡ some (k, s)
      → s.write ≡ true
      → ((i : ℕ) (t : Segment) → get_elem? d.cache i ≡ some t → t.lru ≢ 1)
      → (new_segment d ≡ ok (d, none)) × (fresh_segment d ≡ fatal)
  unfolding fresh_segment
  new_segment-stuck k s p first w gap =
      let m = d.cache_segments - 1 in
      let fuel : d.cache_segments + 1 ≡ suc (suc m) = omega (arith, p) in
      let e = new_segment-none (
        ap (λ x. new_loop x 0 d.cache) fuel
        ∙ new_loop-write (suc m) 0 d.cache k s first w
        ∙ no_second) in
      (e, simp e)
    where
      no_second : new_loop (suc (d.cache_segments - 1)) 1 d.cache ≡ ok none
      no_second = elim (find_from-Sought (λ s. 1 == s.lru) 0 d.cache) [
        | missing e all ↦ new_loop-missing (d.cache_segments - 1) 1 d.cache e
        | sought i t e at q ↦ absurd (gap i t at (sym ((==_iff 1 t.lru).0 q)))
      ]
