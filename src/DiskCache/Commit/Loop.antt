-- ===== src/DiskCache/Commit/Loop.antt =====
-- The second loop of `DISK_cache_commit_write`, which sets the flags of write segments.
use ml_rsim.Prelude.{
  ℕ, zero, suc, ◌+◌, ◌<◌, ◌≤◌, ◌≡◌, refl, sym, ap, ◌∙◌, ◌≢◌, inl, inr, true, false, none, some,
  List, arith, ok, ◌==◌, ==_iff, Bool-cases, get_elem?, set, find_from, find_from-Sought, missing,
  sought, get_elem?-set_self, get_elem?-set_ne, index_in,
}
use ml_rsim.DiskCache.{Segment}
use ml_rsim.DiskCache.Commit.{starts, commit, commit_loop}

-- What the second loop may do to a segment.
pub data Marked (s t : Segment) : Type 0 where
  same : t ≡ s → Marked s t
  marked : s.write ≡ true → t ≡ commit s → Marked s t

Marked-trans : (s t u : Segment) → Marked s t → Marked t u → Marked s u
Marked-trans s t u (same e) (same f) = same (f ∙ e)
Marked-trans s t u (same e) (marked w f) =
    marked (ap (λ x. x.write) (sym e) ∙ w) (f ∙ ap (λ x. commit x) e)
Marked-trans s t u (marked w e) (same f) = marked w (f ∙ e)
Marked-trans s t u (marked w e) (marked w' f) = marked w (f ∙ ap (λ x. commit x) e)

-- Every segment comes from the one at its place.
abbrev pub Kept : List Segment → List Segment → Type 0
Kept cache cache' =
    (i : ℕ) (t : Segment)
    → get_elem? cache' i ≡ some t
    → (s : Segment) × (get_elem? cache i ≡ some s) × Marked s t

Kept-trans :
    (cache cache' cache'' : List Segment)
    → Kept cache cache'
    → Kept cache' cache''
    → Kept cache cache''
Kept-trans cache cache' cache'' h k i u e =
    let (t, f, m) = k i u e in let (s, g, l) = h i t f in (s, g, Marked-trans s t u l m)

pub some_inj : {s t : Segment} → some s ≡ some t → s ≡ t
some_inj e = cc

Kept-set :
    (n : ℕ) (s : Segment) (cache : List Segment)
    → get_elem? cache n ≡ some s
    → s.write ≡ true
    → Kept cache (set cache n (commit s))
Kept-set n s cache at w i t e = elim (Bool-cases (n == i)) [
  | inl hit ↦
      let q = (==_iff n i).0 hit in
      (
        s,
        ap (get_elem? cache) (sym q) ∙ at,
        marked w (
            some_inj (
              sym e
              ∙ ap (get_elem? (set cache n (commit s))) (sym q)
              ∙ get_elem?-set_self cache n (commit s) (index_in cache n at))),
      )
  | inr miss ↦ (t, sym (get_elem?-set_ne cache n i (commit s) (λ q. apart miss q)) ∙ e, same refl)
]
  where
    apart : {a b : ℕ} → (a == b) ≡ false → a ≢ b
    apart h q = ground (arith, h, q)

-- No write segment is empty, and none ends above `m`.
pub record Filled (m : ℕ) (cache : List Segment) : Type 0 where
  pub filled :
      (i : ℕ) (s : Segment)
      → get_elem? cache i ≡ some s
      → s.write ≡ true
      → (s.start_block < s.end_block) × (s.end_block ≤ m)

Filled-Kept :
    (m : ℕ) (cache cache' : List Segment) → Kept cache cache' → Filled m cache → Filled m cache'
Filled-Kept m cache cache' k h = record {
  filled = λ i t e w. let (s, f, l) = k i t e in lift s t l w (h.filled i s f);
}
  where
    lift :
        (s t : Segment)
        → Marked s t
        → t.write ≡ true
        → (s.write ≡ true → (s.start_block < s.end_block) × (s.end_block ≤ m))
        → (t.start_block < t.end_block) × (t.end_block ≤ m)
    lift s t (same e) w g = rw e (g (ap (λ x. x.write) (sym e) ∙ w))
    lift s t (marked w' e) w g = rw e (g w')

module _ (fuel start_block : ℕ) (cache : List Segment) where
  commit_loop-end :
      find_from (starts start_block) 0 cache ≡ none
      → commit_loop (suc fuel) start_block cache ≡ ok cache
  unfolding commit_loop
  commit_loop-end e = ground (arith, e)

  commit_loop-step :
      (n : ℕ) (s : Segment)
      → find_from (starts start_block) 0 cache ≡ some (n, s)
      → commit_loop (suc fuel) start_block cache
        ≡ commit_loop fuel s.end_block (set cache n (commit s))
  unfolding commit_loop
  commit_loop-step n s e = ground (arith, e)

plus : (k : ℕ) → 0 + k ≡ k
plus k = omega arith

starts_at : (b : ℕ) (s : Segment) → starts b s ≡ true → (s.start_block ≡ b) × (s.write ≡ true)
starts_at b s h = ground (arith, h)

-- The second loop ends, and only sets the flag of write segments.
pub commit_loop-Kept :
    (m fuel start_block : ℕ) (cache : List Segment)
    → Filled m cache
    → 0 < fuel
    → m < start_block + fuel
    → (cache' : List Segment) × (commit_loop fuel start_block cache ≡ ok cache') × Kept cache cache'
commit_loop-Kept m zero b cache h p g = absurd (omega (arith, p))
commit_loop-Kept m (suc fuel) b cache h p g = elim (find_from-Sought (starts b) 0 cache) [
  | missing e all ↦ (cache, commit_loop-end fuel b cache e, λ i t at. (t, at, same refl))
  | sought n s e at q ↦
      let (begin, w) = starts_at b s q in
      let (filled, bound) = h.filled n s at w in
      let kept = Kept-set n s cache at w in
      let (cache', f, k) =
        commit_loop-Kept m fuel s.end_block (set cache n (commit s)) (Filled-Kept m cache _ kept h)
          (omega (arith, filled, begin, bound, g)) (omega (arith, filled, begin, bound, g)) in
      (
        cache',
        commit_loop-step fuel b cache n s (e ∙ ap (λ k. some (k, s)) (plus n)) ∙ f,
        Kept-trans cache _ cache' kept k,
      )
]
