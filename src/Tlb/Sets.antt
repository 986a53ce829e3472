-- ===== src/Tlb/Sets.antt =====
-- The set associative case of Processor/tlb.cc: the search of a set, and the ages behind a hit.
use ml_rsim.Prelude.{
  ℕ, zero, suc, ◌+◌, ◌-◌, ◌≤◌, ◌<◌, ◌≡◌, refl, sym, ap, ◌∙◌, inl, inr, arith, true, false, not,
  ◌&&◌, Bool-cases, Option, none, some, List, Checked, ok, ltb, ◌==◌, ==_iff, if◌then◌else◌, length,
  get_elem?, get_elem?-some, get_elem?-set_self, get_elem?-set_ne, length-set, index_in, set,
}
use ml_rsim.Tlb.{Entry, Tlb}
use ml_rsim.Tlb.LookUp.{Access, matches, set_search, touch_set, use_set}

-- The entries are those of `es` with other ages.
pub record Aged (es es' : List Entry) : Type 0 where
  pub size : length es' ≡ length es
  pub alike :
      (k : ℕ) (e : Entry)
      → get_elem? es k ≡ some e
      → (age : ℕ) × (get_elem? es' k ≡ some (record e { age = age }))

pub Aged-refl : (es : List Entry) → Aged es es
Aged-refl es = record { size = refl; alike = λ k e h. (e.age, h) }

pub Aged-trans : (a b c : List Entry) → Aged a b → Aged b c → Aged a c
Aged-trans a b c p q = record {
  size = q.size ∙ p.size;
  alike = λ k e h.
      let (x, f) = p.alike k e h in let (y, g) = q.alike k (record e { age = x }) f in (y, g);
}

pub same_entry : {e e' : Entry} {o : Option Entry} → o ≡ some e → o ≡ some e' → e ≡ e'
same_entry p q = cc

pub Aged-set :
    (es : List Entry) (k age : ℕ) (e : Entry)
    → get_elem? es k ≡ some e
    → Aged es (set es k (record e { age = age }))
Aged-set es k age e at = record {
  size = length-set es k (record e { age = age });
  alike = λ j u h. elim (Bool-cases (j == k)) [
    | inl same ↦
        let q = (==_iff j k).0 same in
        let r : e ≡ u = same_entry at (ap (get_elem? es) (sym q) ∙ h) in
        (
          age,
          ap (get_elem? (set es k (record e { age = age }))) q
              ∙ get_elem?-set_self es k (record e { age = age }) (index_in es k at)
              ∙ ap {A = Entry} (λ x. some (record x { age = age })) r,
        )
    | inr other ↦ (
      u.age,
      get_elem?-set_ne es k j (record e { age = age }) (λ q. ground (arith, other, q)) ∙ h,
    )
  ];
}

module _ (base found old_age : ℕ) where
  touch_step : ℕ → Entry → List Entry → List Entry
  touch_step i e es =
      if not (i == found) && ltb old_age e.age
      then set es (base + i) (record e { age = e.age - 1 })
      else es

  Aged-touch_step :
      (i : ℕ) (e : Entry) (es : List Entry)
      → get_elem? es (base + i) ≡ some e
      → Aged es (touch_step i e es)
  unfolding touch_step
  Aged-touch_step i e es at = elim (Bool-cases (not (i == found) && ltb old_age e.age)) [
    | inl older ↦ rw older (Aged-set es (base + i) (e.age - 1) e at)
    | inr not_older ↦ rw not_older (Aged-refl es)
  ]

  touch_next :
      (n i : ℕ) (e : Entry) (es : List Entry)
      → get_elem? es (base + i) ≡ some e
      → touch_set base found old_age (suc n) i es
        ≡ touch_set base found old_age n (i + 1) (touch_step i e es)
  unfolding touch_set touch_step
  touch_next n i e es at = rw at refl

  touch_set-Aged :
      (n i : ℕ) (es : List Entry)
      → base + i + n ≤ length es
      → (es' : List Entry) × (touch_set base found old_age n i es ≡ ok es') × Aged es es'
  unfolding touch_set
  touch_set-Aged zero i es h = (es, refl, Aged-refl es)
  touch_set-Aged (suc n) i es h =
      let (e, at) = get_elem?-some es (base + i) (omega (arith, h)) in
      let a = Aged-touch_step i e es at in
      let (es', r, b) = touch_set-Aged n (i + 1) (touch_step i e es) (omega (arith, h, a.size)) in
      (es', touch_next n i e es at ∙ r, Aged-trans es (touch_step i e es) es' a b)

-- A hit changes ages only.
pub use_set-Aged :
    (t : Tlb) (base i : ℕ) (e : Entry)
    → base + t.associativity ≤ length t.entries
    → get_elem? t.entries (base + i) ≡ some e
    → (es : List Entry) × (use_set t base i e ≡ ok (record t { entries = es })) × Aged t.entries es
unfolding use_set
use_set-Aged t base i e h at =
    let first = Aged-set t.entries (base + i) (t.associativity - 1) e at in
    let (es, r, rest) =
      touch_set-Aged base i e.age t.associativity 0
        (set t.entries (base + i) (record e { age = t.associativity - 1 }))
        (omega (arith, h, first.size)) in
    (
      es,
      rw r refl,
      Aged-trans t.entries (set t.entries (base + i) (record e { age = t.associativity - 1 })) es
          first rest,
    )

-- An entry of the set that is found, or none matches.
pub data SetSought (t : Tlb) (a : Access) (base n i : ℕ) (r : Checked (Option (ℕ × Entry)))
    : Type 0 where
  found :
      (j : ℕ) (e : Entry)
      → r ≡ ok (some (j, e))
      → j < i + n
      → get_elem? t.entries (base + j) ≡ some e
      → matches t a.addr a.context e ≡ true
      → SetSought t a base n i r
  nowhere :
      r ≡ ok none
      → ((j : ℕ) (e : Entry)
          → i ≤ j
          → j < i + n
          → get_elem? t.entries (base + j) ≡ some e
          → matches t a.addr a.context e ≡ false)
      → SetSought t a base n i r

module _ (t : Tlb) (a : Access) (base : ℕ) where
  set_here :
      (n i : ℕ) (e : Entry)
      → get_elem? t.entries (base + i) ≡ some e
      → matches t a.addr a.context e ≡ true
      → set_search t a base (suc n) i ≡ ok (some (i, e))
  unfolding set_search
  set_here n i e at m = rw at (rw m refl)

  set_onward :
      (n i : ℕ) (e : Entry)
      → get_elem? t.entries (base + i) ≡ some e
      → matches t a.addr a.context e ≡ false
      → set_search t a base (suc n) i ≡ set_search t a base n (i + 1)
  unfolding set_search
  set_onward n i e at m = rw at (rw m refl)

  pub set_search-SetSought :
      (n i : ℕ) → base + i + n ≤ length t.entries → SetSought t a base n i (set_search t a base n i)
  unfolding set_search
  set_search-SetSought zero i h = nowhere refl (λ j e p q u. absurd (omega arith))
  set_search-SetSought (suc n) i h =
      let (e, at) = get_elem?-some t.entries (base + i) (omega (arith, h)) in
      elim (Bool-cases (matches t a.addr a.context e)) [
        | inl m ↦ found i e (set_here n i e at m) (omega arith) at m
        | inr m ↦ extend e at m (set_search-SetSought n (i + 1) (omega (arith, h)))
      ]
    where
      extend :
          (e : Entry)
          → get_elem? t.entries (base + i) ≡ some e
          → matches t a.addr a.context e ≡ false
          → SetSought t a base n (i + 1) (set_search t a base n (i + 1))
          → SetSought t a base (suc n) i (set_search t a base (suc n) i)
      extend e at m (found j u r lt f g) =
          found j u (set_onward n i e at m ∙ r) (omega (arith, lt)) f g
      extend e at m (nowhere r all) = nowhere (set_onward n i e at m ∙ r) rest
        where
          rest :
              (j : ℕ) (u : Entry)
              → i ≤ j
              → j < i + suc n
              → get_elem? t.entries (base + j) ≡ some u
              → matches t a.addr a.context u ≡ false
          rest j u p q f = elim (Bool-cases (j == i)) [
            | inl same ↦
                ap (matches t a.addr a.context) (
                  same_entry f
                    (ap (λ k. get_elem? t.entries (base + k)) ((==_iff j i).0 same) ∙ at))
                ∙ m
            | inr other ↦ all j u (ground (arith, other, p)) (omega (arith, q)) f
          ]
