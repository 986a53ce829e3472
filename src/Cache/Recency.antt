-- ===== src/Cache/Recency.antt =====
-- The ages of a set as a least-recently-used order: cache.c on a hit and on a present miss.
use ml_rsim.Prelude.{
  ℕ, zero, suc, ◌+◌, ◌^◌, ◌≤◌, ◌<◌, ◌≡◌, refl, sym, ap, ◌∙◌, subst, ◌≢◌, inl, inr, false, some,
  List, arith, Checked, ok, ltb, ◌==◌, ==_iff, if◌then◌else◌, Bool-cases, length, get_elem?, set,
  length-set, get_elem?-set_self, get_elem?-set_ne, get_elem?-some,
}
use ml_rsim.Cache.Line.{Line, for_lines}
use ml_rsim.Cache.Age.{next_age}

-- Index `i` lies in the set of `n` lines that starts at `base`.
abbrev pub InSet : ℕ → ℕ → ℕ → Type 0
InSet base n i = (base ≤ i) × (i < base + n)

pub some_inj : {l m : Line} → some l ≡ some m → l ≡ m
some_inj e = cc

pub ne_of_test : {a b : ℕ} → (a == b) ≡ false → a ≢ b
ne_of_test {a} {b} h e = ground (arith, h, e)

-- What a loop over a set leaves: `f` is applied to every line of the set, and to no other.
pub record Mapped (f : ℕ → Line → Line) (n base : ℕ) (tags : List Line) (r : Checked (List Line))
    : Type 0 where
  pub lines : List Line
  pub returns : r ≡ ok lines
  pub size : length lines ≡ length tags
  pub inside :
      (i : ℕ) (l : Line)
      → InSet base n i
      → get_elem? tags i ≡ some l
      → get_elem? lines i ≡ some (f i l)
  pub outside : (i : ℕ) → ¬ InSet base n i → get_elem? lines i ≡ get_elem? tags i

pub for_lines-Mapped :
    (f : ℕ → Line → Line) (n base : ℕ) (tags : List Line)
    → base + n ≤ length tags
    → Mapped f n base tags (for_lines f n base tags)
unfolding for_lines
for_lines-Mapped f zero base tags h = record {
  lines = tags;
  returns = refl;
  size = refl;
  inside = λ i l p e. absurd (omega (arith, p.0, p.1));
  outside = λ i p. refl;
}
for_lines-Mapped f (suc n) base tags h =
    let (l0, e0) = get_elem?-some tags base (omega arith) in
    let tags' = set tags base (f base l0) in
    let rest =
      for_lines-Mapped f n (base + 1) tags' (omega (arith, length-set tags base (f base l0))) in
    record {
      lines = rest.lines;
      returns = rw (e0, for_lines) rest.returns;
      size = rest.size ∙ length-set tags base (f base l0);
      inside = λ i l p e. elim (Bool-cases (base == i)) [
        | inl k ↦
            subst (λ j. get_elem? rest.lines j ≡ some (f j l)) ((==_iff base i).0 k)
              (rest.outside base (λ q. omega (arith, q.0))
                ∙ get_elem?-set_self tags base (f base l0) (omega arith)
                ∙ ap (λ x. some (f base x))
                    (some_inj (sym e0 ∙ ap (get_elem? tags) ((==_iff base i).0 k) ∙ e)))
        | inr k ↦
            let ne : base ≢ i = λ q. ne_of_test k q in
            rest.inside i l (omega (arith, ne, p.0), omega (arith, p.1))
              (get_elem?-set_ne tags base i (f base l0) ne ∙ e)
      ];
      outside = λ i p.
          rest.outside i (λ q. p (omega (arith, q.0), omega (arith, q.1)))
          ∙ get_elem?-set_ne tags base i (f base l0) (λ k. p (omega (arith, k), omega (arith, k)));
    }

-- A line that the loop left comes from one that it found.
pub Mapped-back :
    {f : ℕ → Line → Line} {n base : ℕ} {tags : List Line} {r : Checked (List Line)}
    (m : Mapped f n base tags r) (i : ℕ) (l' : Line)
    → base + n ≤ length tags
    → InSet base n i
    → get_elem? m.lines i ≡ some l'
    → (l : Line) × (get_elem? tags i ≡ some l) × (l' ≡ f i l)
Mapped-back {f} {tags = tags} m i l' h p e =
    let (l, e0) = get_elem?-some tags i (omega (arith, p.1)) in
    (l, e0, some_inj (sym e ∙ m.inside i l p e0))

-- The ages of a set of `n` lines run from 1, the youngest, to `n`; two lines of one age are both
-- of the greatest age, which is what lines have that were never used.
pub record IsLru (tags : List Line) (base n : ℕ) : Type 0 where
  pub small : n < 2 ^ 16
  pub present : base + n ≤ length tags
  pub range :
      (i : ℕ) (l : Line) → InSet base n i → get_elem? tags i ≡ some l → (1 ≤ l.age) × (l.age ≤ n)
  pub distinct :
      (i j : ℕ) (l m : Line)
      → InSet base n i
      → InSet base n j
      → get_elem? tags i ≡ some l
      → get_elem? tags j ≡ some m
      → i ≢ j
      → l.age ≡ m.age
      → l.age ≡ n

-- A change of a set that makes line `p`, of age `old`, the youngest.
pub record Touches (f : ℕ → Line → Line) (p old : ℕ) : Type 0 where
  pub self : (l : Line) → (f p l).age ≡ 1
  pub other :
      (i : ℕ) (l : Line) → i ≢ p → (f i l).age ≡ (if ltb l.age old then next_age l.age else l.age)

module _ {f : ℕ → Line → Line} {n base p : ℕ} {tags : List Line} {r : Checked (List Line)}
    {lp : Line} (m : Mapped f n base tags r) (h : IsLru tags base n) (t : Touches f p lp.age)
    (inset : InSet base n p) (at : get_elem? tags p ≡ some lp) where
  touched_self : (i : ℕ) (l : Line) → i ≡ p → (f i l).age ≡ 1
  touched_self i l e = ap (λ x. (f x l).age) e ∙ t.self l

  touched-range :
      (i : ℕ) (l : Line)
      → InSet base n i
      → get_elem? tags i ≡ some l
      → (1 ≤ (f i l).age) × ((f i l).age ≤ n)
  touched-range i l q e = elim (Bool-cases (i == p)) [
    | inl k ↦ omega (arith, touched_self i l ((==_iff i p).0 k), inset.0, inset.1)
    | inr k ↦
        ground (arith, t.other i l (ne_of_test k), h.range i l q e, h.range p lp inset at, h.small)
  ]

  touched-distinct :
      (i j : ℕ) (l k : Line)
      → InSet base n i
      → InSet base n j
      → get_elem? tags i ≡ some l
      → get_elem? tags j ≡ some k
      → i ≢ j
      → (f i l).age ≡ (f j k).age
      → (f i l).age ≡ n
  touched-distinct i j l k qi qj ei ej ne same = elim (Bool-cases (i == p)) [
    | inl a ↦ elim (Bool-cases (j == p)) [
      | inl b ↦ absurd (ne ((==_iff i p).0 a ∙ sym ((==_iff j p).0 b)))
      | inr b ↦ ground (
        arith,
        touched_self i l ((==_iff i p).0 a),
        t.other j k (ne_of_test b),
        same,
        h.small,
        h.range j k qj ej,
        h.range p lp inset at,
        h.distinct j p k lp qj inset ej at (ne_of_test b),
      )
    ]
    | inr a ↦ elim (Bool-cases (j == p)) [
      | inl b ↦ ground (
        arith,
        touched_self j k ((==_iff j p).0 b),
        t.other i l (ne_of_test a),
        same,
        h.small,
        h.range i l qi ei,
        h.range p lp inset at,
        h.distinct i p l lp qi inset ei at (ne_of_test a),
      )
      | inr b ↦ ground (
        arith,
        t.other i l (ne_of_test a),
        t.other j k (ne_of_test b),
        same,
        h.small,
        h.range i l qi ei,
        h.range j k qj ej,
        h.range p lp inset at,
        h.distinct i j l k qi qj ei ej ne,
        h.distinct i p l lp qi inset ei at (ne_of_test a),
        h.distinct j p k lp qj inset ej at (ne_of_test b),
      )
    ]
  ]

  pub Touches-IsLru : IsLru m.lines base n
  Touches-IsLru = record {
    small = h.small;
    present = omega (arith, h.present, m.size);
    range = λ i l' q e.
        let (l, e0, k) = Mapped-back m i l' h.present q e in rw k (touched-range i l q e0);
    distinct = λ i j l' k' qi qj ei ej ne same.
        let (l, e0, a) = Mapped-back m i l' h.present qi ei in
        let (k, e1, b) = Mapped-back m j k' h.present qj ej in
        rw a (
          touched-distinct i j l k qi qj e0 e1 ne
            (ap (λ x. x.age) (sym a) ∙ same ∙ ap (λ x. x.age) b));
  }
