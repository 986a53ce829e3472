-- ===== src/Coherence/Holders.antt =====
-- L2Cache_check_mshr of Caches/l2cache.c: a line has at most one MSHR.
use ml_rsim.Prelude.{
  ℕ, zero, suc, ◌+◌, ◌<◌, ◌≡◌, sym, ap, ◌∙◌, ◌≢◌, ◌⊎◌, inl, inr, true, false, some, List, [], ◌∷◌,
  ◌==◌, ==_iff, if◌then◌else◌, length, get_elem?, set, get_elem?-set_self, get_elem?-set_ne,
  index_in, Bool-cases, arith,
}
use ml_rsim.Cache.Recency.{ne_of_test}
use ml_rsim.Coherence.{Mshr, L2}

-- The number of MSHRs in use
abbrev pub in_use : List Mshr → ℕ
in_use [] = 0
in_use (m ∷ ms) = if m.valid then suc (in_use ms) else in_use ms

-- The count is that of the MSHRs in use, and no two of them are for one line.
pub record OnePerLine (c : L2) : Type 0 where
  pub counted : c.mshr_count ≡ in_use c.mshrs
  pub apart :
      (i j : ℕ) (m n : Mshr)
      → get_elem? c.mshrs i ≡ some m
      → get_elem? c.mshrs j ≡ some n
      → m.valid ≡ true
      → n.valid ≡ true
      → m.blocknum ≡ n.blocknum
      → i ≡ j

in_use-set :
    (ms : List Mshr) (i : ℕ) (m n : Mshr)
    → get_elem? ms i ≡ some m
    → n.valid ≡ true
    → in_use (set ms i n) ≡ (if m.valid then in_use ms else in_use ms + 1)
in_use-set [] i m n e v = absurd (cc e)
in_use-set (k ∷ ms) zero m n e v = ground arith
in_use-set (k ∷ ms) (suc i) m n e v = ground (arith, in_use-set ms i m n e v)

pub in_use-none :
    (ms : List Mshr)
    → in_use ms ≡ 0
    → (i : ℕ) (m : Mshr) → get_elem? ms i ≡ some m
    → m.valid ≡ false
in_use-none [] z i m e = absurd (cc e)
in_use-none (k ∷ ms) z zero m e = ground arith
in_use-none (k ∷ ms) z (suc i) m e = in_use-none ms (ground arith) i m e

at_set :
    (ms : List Mshr) (i x : ℕ) (n p : Mshr)
    → i < length ms
    → get_elem? (set ms i n) x ≡ some p
    → ((i ≡ x) × (p ≡ n)) ⊎ ((i ≢ x) × (get_elem? ms x ≡ some p))
at_set ms i x n p b e = elim (Bool-cases (i == x)) [
  | inl k ↦
      let eq = (==_iff i x).0 k in
      inl (eq, cc (e, ap (get_elem? (set ms i n)) eq, get_elem?-set_self ms i n b))
  | inr k ↦ let ne = ne_of_test k in inr (ne, sym (get_elem?-set_ne ms i x n ne) ∙ e)
]

-- Storing an MSHR for a line that no other MSHR has
module _ (c d : L2) (i : ℕ) (m n : Mshr) (h : OnePerLine c) (at : get_elem? c.mshrs i ≡ some m)
    (v : n.valid ≡ true)
    (free : (j : ℕ) (k : Mshr)
      → i ≢ j
      → get_elem? c.mshrs j ≡ some k
      → k.valid ≡ true
      → k.blocknum ≢ n.blocknum)
    (stored : d.mshrs ≡ set c.mshrs i n)
    (count : d.mshr_count ≡ (if m.valid then c.mshr_count else c.mshr_count + 1)) where
  store-apart :
      (x y : ℕ) (p q : Mshr)
      → get_elem? d.mshrs x ≡ some p
      → get_elem? d.mshrs y ≡ some q
      → p.valid ≡ true
      → q.valid ≡ true
      → p.blocknum ≡ q.blocknum
      → x ≡ y
  store-apart x y p q ex ey vp vq same =
      by_place (at_set c.mshrs i x n p (index_in c.mshrs i at) (rw stored at ex))
        (at_set c.mshrs i y n q (index_in c.mshrs i at) (rw stored at ey))
    where
      by_place :
          ((i ≡ x) × (p ≡ n)) ⊎ ((i ≢ x) × (get_elem? c.mshrs x ≡ some p))
          → ((i ≡ y) × (q ≡ n)) ⊎ ((i ≢ y) × (get_elem? c.mshrs y ≡ some q))
          → x ≡ y
      by_place (inl (a, b)) (inl (a', b')) = sym a ∙ a'
      by_place (inl (a, b)) (inr (a', b')) =
          absurd (free y q a' b' vq (sym same ∙ ap (λ k. k.blocknum) b))
      by_place (inr (a, b)) (inl (a', b')) =
          absurd (free x p a b vp (same ∙ ap (λ k. k.blocknum) b'))
      by_place (inr (a, b)) (inr (a', b')) = h.apart x y p q b b' vp vq same

  pub store-OnePerLine : OnePerLine d
  store-OnePerLine = record {
    counted =
        count ∙ ground (arith, h.counted, in_use-set c.mshrs i m n at v) ∙ ap in_use (sym stored);
    apart = store-apart;
  }
