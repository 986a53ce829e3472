-- ===== src/Cache/Scan.antt =====
-- The first loop of `Cache_miss_update` as a whole.
use ml_rsim.Prelude.{
  ℕ, zero, suc, ◌+◌, ◌≤◌, ◌<◌, ◌≡◌, refl, sym, ap, ◌∙◌, subst, inl, inr, some, List, arith, Checked,
  ok, Bool-cases, length, get_elem?, get_elem?-some, get_elem?-set_ne,
}
use ml_rsim.Cache.Line.{Line, minus_one}
use ml_rsim.Cache.Refresh.{SameAges, SameAges-refl, SameAges-trans, SameAges-set}
use ml_rsim.Cache.Victim.{damaging, Scan, scan_line, scan}
use ml_rsim.Cache.Best.{Kind, best_of, OldestIs, OldestIs-consider}

module _ (tags : List Line) (base n reqtag : ℕ) (present : base + n ≤ length tags) where
  -- What holds before the `i`-th line of the set is looked at.
  record SoFar (i : ℕ) (s : Scan) : Type 0 where
    ahead : (j : ℕ) → base + i ≤ j → get_elem? s.tags j ≡ get_elem? tags j
    best : (k : Kind) → OldestIs tags base i k (best_of k s.best)
    same : SameAges tags base n s.tags

  pub record Scanned (r : Checked Scan) : Type 0 where
    pub final : Scan
    pub returns : r ≡ ok final
    pub best : (k : Kind) → OldestIs tags base n k (best_of k final.best)
    pub same : SameAges tags base n final.tags

  line-SoFar :
      (i : ℕ) (s : Scan) (l : Line)
      → SoFar i s
      → i < n
      → get_elem? tags (base + i) ≡ some l
      → SoFar (i + 1) (scan_line reqtag i (base + i) l s)
  unfolding scan_line
  line-SoFar i s l h lt at = elim (Bool-cases (damaging reqtag l)) [
    | inl d ↦ record {
      ahead = λ j q. rw d (
          get_elem?-set_ne s.tags (base + i) j marked (λ e. absurd (omega (arith, e)))
          ∙ h.ahead j (omega arith));
      best = λ k. OldestIs-consider tags base k i l at s.best (h.best k);
      same = rw d (
          SameAges-trans h.same (
            SameAges-set s.tags base n (base + i) l marked (omega (arith, present, h.same.size))
              (omega arith, omega arith) (h.ahead (base + i) (omega arith) ∙ at) refl));
    }
    | inr d ↦ record {
      ahead = λ j q. rw d (h.ahead j (omega arith));
      best = λ k. OldestIs-consider tags base k i l at s.best (h.best k);
      same = rw d h.same;
    }
  ]
    where
      marked : Line
      marked = record l { pref_tag_repl = minus_one }

  scan-from : (m i : ℕ) (s : Scan) → i + m ≡ n → SoFar i s → Scanned (scan reqtag m i (base + i) s)
  unfolding scan
  scan-from zero i s e h = record {
    final = s;
    returns = refl;
    best = λ k. subst (λ x. OldestIs tags base x k (best_of k s.best)) (omega arith) (h.best k);
    same = h.same;
  }
  scan-from (suc m) i s e h =
      let (l, at) = get_elem?-some tags (base + i) (omega arith) in
      let rest =
        scan-from m (i + 1) (scan_line reqtag i (base + i) l s) (omega arith)
          (line-SoFar i s l h (omega arith) at) in
      let here : get_elem? s.tags (base + i) ≡ some l = h.ahead (base + i) (omega arith) ∙ at in
      let next : base + i + 1 ≡ base + (i + 1) = omega arith in
      record {
        final = rest.final;
        returns = simp (here, next, rest.returns);
        best = rest.best;
        same = rest.same;
      }

  -- The loop over the whole set.
  pub scan-Scanned :
      (s : Scan)
      → s.tags ≡ tags
      → ((k : Kind) → OldestIs tags base 0 k (best_of k s.best))
      → Scanned (scan reqtag n 0 base s)
  scan-Scanned s e b =
      subst (λ x. Scanned (scan reqtag n 0 x s)) (omega arith)
        (scan-from n 0 s (omega arith) (record {
          ahead = λ j q. ap (λ x. get_elem? x j) e;
          best = b;
          same = subst (SameAges tags base n) (sym e) (SameAges-refl tags base n);
        }))
