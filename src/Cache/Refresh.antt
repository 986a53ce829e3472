-- ===== src/Cache/Refresh.antt =====
-- `Cache_hit_update` and `Cache_pmiss_update` keep the order of use.
use ml_rsim.Prelude.{
  ℕ, ◌+◌, ◌^◌, ◌≤◌, ◌<◌, ◌≡◌, refl, sym, ap, ◌∙◌, subst, ◌≢◌, inl, inr, Bool, true, false, not,
  ◌&&◌, some, List, arith, Checked, ok, ltb, ◌==◌, ==_iff, if◌then◌else◌, Bool-cases, length,
  get_elem?, set, get_elem?-some, length-set, get_elem?-set_self, get_elem?-set_ne,
}
use ml_rsim.Cache.Line.{Line, minus_one, Cache, Request, set_base}
use ml_rsim.Cache.Age.{touch, next_age, demand_prefetched, hit_update, pmiss_line, pmiss_update}
use ml_rsim.Cache.Recency.{
  InSet, Mapped, for_lines-Mapped, IsLru, Touches, Touches-IsLru, ne_of_test, some_inj,
}

-- What an update leaves: the order of use with line `p` the youngest, two other lines of the set in
-- the order that they had, and every line of another set.
pub record Refreshed (tags : List Line) (base n p : ℕ) (tags' : List Line) : Type 0 where
  pub lru : IsLru tags' base n
  pub youngest : (l : Line) × (get_elem? tags' p ≡ some l) × (l.age ≡ 1)
  pub order :
      (i j : ℕ) (l m l' m' : Line)
      → InSet base n i
      → InSet base n j
      → i ≢ p
      → j ≢ p
      → get_elem? tags i ≡ some l
      → get_elem? tags j ≡ some m
      → get_elem? tags' i ≡ some l'
      → get_elem? tags' j ≡ some m'
      → l.age ≤ m.age
      → l'.age ≤ m'.age
  pub others : (i : ℕ) → ¬ InSet base n i → get_elem? tags' i ≡ get_elem? tags i

-- Two tag arrays that differ in the statistics of the lines of a set at most.
pub record SameAges (tags : List Line) (base n : ℕ) (tags' : List Line) : Type 0 where
  pub size : length tags' ≡ length tags
  pub inside :
      (i : ℕ) (l : Line)
      → InSet base n i
      → get_elem? tags i ≡ some l
      → (l' : Line) × (get_elem? tags' i ≡ some l') × (l'.age ≡ l.age)
  pub outside : (i : ℕ) → ¬ InSet base n i → get_elem? tags' i ≡ get_elem? tags i

pub SameAges-refl : (tags : List Line) (base n : ℕ) → SameAges tags base n tags
SameAges-refl tags base n = record {
  size = refl;
  inside = λ i k q e. (k, e, refl);
  outside = λ i q. refl;
}

pub SameAges-trans :
    {tags tags' tags'' : List Line} {base n : ℕ}
    → SameAges tags base n tags'
    → SameAges tags' base n tags''
    → SameAges tags base n tags''
SameAges-trans s t = record {
  size = t.size ∙ s.size;
  inside = λ i l q e.
      let (l', e', a) = s.inside i l q e in
      let (l'', e'', b) = t.inside i l' q e' in (l'', e'', b ∙ a);
  outside = λ i q. t.outside i q ∙ s.outside i q;
}

pub SameAges-set :
    (tags : List Line) (base n p : ℕ) (l l' : Line)
    → base + n ≤ length tags
    → InSet base n p
    → get_elem? tags p ≡ some l
    → l'.age ≡ l.age
    → SameAges tags base n (set tags p l')
SameAges-set tags base n p l l' present inset at same = record {
  size = length-set tags p l';
  inside = λ i k q e. elim (Bool-cases (p == i)) [
    | inl hit ↦
        let e' = (==_iff p i).0 hit in
        (
          l',
          ap (get_elem? (set tags p l')) (sym e')
              ∙ get_elem?-set_self tags p l' (omega (arith, inset.1, present)),
          same ∙ ap (λ x. x.age) (some_inj (sym at ∙ ap (get_elem? tags) e' ∙ e)),
        )
    | inr miss ↦ (k, get_elem?-set_ne tags p i l' (ne_of_test miss) ∙ e, refl)
  ];
  outside = λ i q.
      get_elem?-set_ne tags p i l' (λ e. q (omega (arith, e, inset.0), omega (arith, e, inset.1)));
}

pub IsLru-SameAges :
    {tags tags' : List Line} {base n : ℕ}
    → SameAges tags base n tags'
    → IsLru tags base n
    → IsLru tags' base n
IsLru-SameAges {tags} {tags'} {base} {n} s h = record {
  small = h.small;
  present = omega (arith, h.present, s.size);
  range = λ i m q e. let (k, e0, a) = before i m q e in rw a (h.range i k q e0);
  distinct = λ i j m k qi qj ei ej ne same.
      let (m0, e0, a) = before i m qi ei in
      let (k0, e1, b) = before j k qj ej in
      a ∙ h.distinct i j m0 k0 qi qj e0 e1 ne (sym a ∙ same ∙ b);
}
  where
    before :
        (i : ℕ) (m : Line)
        → InSet base n i
        → get_elem? tags' i ≡ some m
        → (k : Line) × (get_elem? tags i ≡ some k) × (m.age ≡ k.age)
    before i m q e =
        let (k, e0) = get_elem?-some tags i (omega (arith, q.1, h.present)) in
        let (m', e1, a) = s.inside i k q e0 in (k, e0, ap (λ x. x.age) (some_inj (sym e ∙ e1)) ∙ a)

aged_order :
    (old : ℕ) {a b a1 b1 a2 b2 n : ℕ}
    → old ≤ n
    → (1 ≤ a) × (a ≤ n)
    → (1 ≤ b) × (b ≤ n)
    → n < 2 ^ 16
    → a1 ≡ (if ltb a old then next_age a else a)
    → b1 ≡ (if ltb b old then next_age b else b)
    → a2 ≡ a1
    → b2 ≡ b1
    → a ≤ b
    → a2 ≤ b2
aged_order old bound ra rb small ea eb ea2 eb2 le = ground (arith, ea, eb, ea2, eb2)

module _ (tags : List Line) (base n p : ℕ) (l : Line) (at : get_elem? tags p ≡ some l)
    (inset : InSet base n p) (h : IsLru tags base n) where
  -- Changing a set by `f` after its statistics.
  pub Mapped-Refreshed :
      {f : ℕ → Line → Line} {r : Checked (List Line)} {tags1 : List Line}
      → Touches f p l.age
      → SameAges tags base n tags1
      → (m : Mapped f n base tags1 r) → Refreshed tags base n p m.lines
  Mapped-Refreshed {f} {r} {tags1} t s m =
      let (l1, at1, same) = s.inside p l inset at in
      record {
        lru =
            Touches-IsLru m (IsLru-SameAges s h)
              (record { self = t.self; other = λ i k ne. rw same (t.other i k ne) }) inset at1;
        youngest = (f p l1, m.inside p l1 inset at1, t.self l1);
        order = λ i j k k2 k' k2' qi qj ni nj e e2 e' e2' le.
            let (k1, e1, a1) = s.inside i k qi e in
            let (k3, e3, a3) = s.inside j k2 qj e2 in
            let a : k' ≡ f i k1 = some_inj (sym e' ∙ m.inside i k1 qi e1) in
            let b : k2' ≡ f j k3 = some_inj (sym e2' ∙ m.inside j k3 qj e3) in
            aged_order l.age (h.range p l inset at).1 (h.range i k qi e) (h.range j k2 qj e2)
              h.small
              (subst (λ u. (f i k1).age ≡ (if ltb u l.age then next_age u else u)) a1
                (t.other i k1 ni))
              (subst (λ u. (f j k3).age ≡ (if ltb u l.age then next_age u else u)) a3
                (t.other j k3 nj))
              (ap (λ x. x.age) a) (ap (λ x. x.age) b) le;
        others = λ i q. m.outside i q ∙ s.outside i q;
      }

module _ (c : Cache) (p base : ℕ) (l : Line) (at : get_elem? c.tags p ≡ some l)
    (inset : InSet base c.setsz p) (h : IsLru c.tags base c.setsz) where
  -- `Cache_pmiss_update` under LRU replacement makes the line with the present miss the youngest of
  -- its set, reverses the order of no two others, and touches no other set.
  pub pmiss_update-Refreshed :
      (now : ℕ) (req : Request) (prefonly : Bool)
      → c.lru ≡ true
      → c.infinite ≡ false
      → set_base c p ≡ base
      → (c' : Cache) × (pmiss_update now c req p prefonly ≡ ok c')
        × Refreshed c.tags base c.setsz p c'.tags
  unfolding pmiss_update
  pmiss_update-Refreshed now req prefonly lru finite b =
      let f = pmiss_line now p l.age prefonly req in
      let m = for_lines-Mapped f c.setsz base c.tags h.present in
      (
        record c { tags = m.lines },
        simp (lru, finite, at, b, m.returns),
        Mapped-Refreshed c.tags base c.setsz p l at inset h
            (record { self = λ k. ground arith; other = λ i k ne. ground arith })
            (SameAges-refl c.tags base c.setsz) m,
      )

  demand_prefetched-SameAges :
      (now : ℕ) (req : Request)
      → SameAges c.tags base c.setsz (demand_prefetched now p l req c).0.tags
  unfolding demand_prefetched
  demand_prefetched-SameAges now req =
      elim (Bool-cases (not (l.pref == 0) && (req.prefetch == 0))) [
        | inl e ↦ rw e (
            SameAges-set c.tags base c.setsz p l (record l { pref = 0; pref_tag_repl = minus_one })
              h.present inset at refl)
        | inr e ↦ rw e (SameAges-refl c.tags base c.setsz)
      ]

  -- `Cache_hit_update` under LRU replacement makes the line that is hit the youngest of its set,
  -- reverses the order of no two others, and touches no other set.
  pub hit_update-Refreshed :
      (now : ℕ) (req : Request)
      → c.lru ≡ true
      → c.infinite ≡ false
      → set_base c l.index ≡ base
      → (r : Cache × Bool) × (hit_update now c p req ≡ ok r)
        × Refreshed c.tags base c.setsz p r.0.tags
  unfolding hit_update
  hit_update-Refreshed now req lru finite b =
      let d = demand_prefetched now p l req c in
      let s = demand_prefetched-SameAges now req in
      let f = touch p l.age in
      let m = for_lines-Mapped f c.setsz base d.0.tags (IsLru-SameAges s h).present in
      (
        (record (d.0) { tags = m.lines }, d.1),
        simp (lru, finite, at, b, m.returns),
        Mapped-Refreshed c.tags base c.setsz p l at inset h
            (record { self = λ k. ground arith; other = λ i k ne. ground arith }) s m,
      )
