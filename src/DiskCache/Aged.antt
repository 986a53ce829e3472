-- ===== src/DiskCache/Aged.antt =====
-- Caches that differ in the ages of their segments, as before and after `DISK_cache_touch_segment`.
use ml_rsim.Prelude.{
  ℕ, ◌-◌, ◌≡◌, refl, sym, ap, ◌∙◌, subst, inl, inr, some, arith, ltb, ◌==◌, ==_iff, Bool-cases,
  get_elem?,
}
use ml_rsim.DiskCache.{Segment, DiskCache, older, touch_segment}
use ml_rsim.DiskCache.Ages.{IsOrder, Touched}

-- `d'` is `d` with other ages, which are an order of use again.
pub record Aged (d d' : DiskCache) : Type 0 where
  pub segments : d'.cache_segments ≡ d.cache_segments
  pub kilobytes : d'.cache_size ≡ d.cache_size
  pub order : IsOrder d.cache_segments d'.cache
  pub alike :
      (i : ℕ) (s : Segment)
      → get_elem? d.cache i ≡ some s
      → (age : ℕ) × (get_elem? d'.cache i ≡ some (record s { lru = age }))

pub Aged-refl : (d : DiskCache) → IsOrder d.cache_segments d.cache → Aged d d
Aged-refl d h = record { segments = refl; kilobytes = refl; order = h; alike = λ i s e. (s.lru, e) }

pub Aged-trans : (a b c : DiskCache) → Aged a b → Aged b c → Aged a c
Aged-trans a b c p q = record {
  segments = q.segments ∙ p.segments;
  kilobytes = q.kilobytes ∙ p.kilobytes;
  order = subst (λ n. IsOrder n c.cache) p.segments q.order;
  alike = λ i s e.
      let (x, f) = p.alike i s e in let (y, g) = q.alike i (record s { lru = x }) f in (y, g);
}

pub some_inj : {s t : Segment} → some s ≡ some t → s ≡ t
some_inj e = cc

older_alike : (old : ℕ) (s : Segment) → (age : ℕ) × (older old s ≡ record s { lru = age })
older_alike old s = elim (Bool-cases (ltb old s.lru)) [
  | inl e ↦ (s.lru - 1, rw e refl)
  | inr e ↦ (s.lru, rw e refl)
]

pub Aged-touch_segment :
    (d : DiskCache) (k : ℕ) (s : Segment)
    → get_elem? d.cache k ≡ some s
    → (t : Touched d k s (touch_segment d k)) → Aged d t.after
Aged-touch_segment d k s at t = record {
  segments = t.segments;
  kilobytes = t.kilobytes;
  order = t.order;
  alike = λ i u e. elim (Bool-cases (i == k)) [
    | inl q ↦
        let r = (==_iff i k).0 q in
        let us = some_inj (sym e ∙ ap (get_elem? d.cache) r ∙ at) in
        (
          d.cache_segments - 1,
          ap (get_elem? t.after.cache) r
              ∙ t.self
              ∙ ap {A = Segment} (λ x. some (record x { lru = d.cache_segments - 1 })) (sym us),
        )
    | inr q ↦
        let (age, f) = older_alike s.lru u in
        (age, t.others i u (λ p. ground (arith, p, q)) e ∙ ap some f)
  ];
}
