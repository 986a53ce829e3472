-- ===== src/Speculation/Ordered.antt =====
-- The order of the queue of branches, in Processor/branchpred.cc.
use ml_rsim.Prelude.{
  ℕ, ◌<◌, ◌≤◌, ◌≡◌, ◌≢◌, ◌⊎◌, inl, inr, refl, sym, ap, ◌∙◌, subst, arith, true, false, Bool-cases,
  Option, none, some, List, [], ◌∷◌, ltb, leb, ◌==◌, if◌then◌else◌,
}
use ml_rsim.Speculation.{
  MapTable, Element, take_out, exchange, exchange_here, take_here, flush_loop,
}

-- All tags are below a number.
abbrev pub Below : ℕ → List Element → Type 0
Below n [] = Unit {0}
Below n (e ∷ es) = (e.tag < n) × Below n es

-- The tags fall from the tail to the head.
abbrev pub Ordered : List Element → Type 0
Ordered [] = Unit {0}
Ordered (e ∷ es) = Below e.tag es × Ordered es

-- The queue has an element with this tag and these mappers.
abbrev pub Has : ℕ → MapTable → List Element → Type 0
Has t m [] = ⊥
Has t m (e ∷ es) = ((e.tag ≡ t) × (e.specmap ≡ m)) ⊎ Has t m es

-- The elements of the branches before a tag
abbrev pub older : ℕ → List Element → List Element
older t [] = []
older t (e ∷ es) = if ltb e.tag t then e ∷ older t es else older t es

Below-Has : (n t : ℕ) (m : MapTable) (q : List Element) → Below n q → Has t m q → t < n
Below-Has n t m [] b h = absurd h
Below-Has n t m (e ∷ es) b (inl (p, _)) = omega (arith, b.0, p)
Below-Has n t m (e ∷ es) b (inr h) = Below-Has n t m es b.1 h

Below-up : (n k : ℕ) (q : List Element) → n ≤ k → Below n q → Below k q
Below-up n k [] h b = tt
Below-up n k (e ∷ es) h b = (omega (arith, b.0, h), Below-up n k es h b.1)

-- No element from a bound on
exchange-absent : (t : ℕ) (x : MapTable) (q : List Element) → Below t q → exchange t x q ≡ none
unfolding exchange
exchange-absent t x [] b = refl
exchange-absent t x (e ∷ es) b =
    let k : (e.tag == t) ≡ false = let l = b.0 in ground (arith, l) in
    rw (exchange-absent t x es b.1, k) refl

older-all : (t : ℕ) (q : List Element) → Below t q → older t q ≡ q
older-all t [] b = refl
older-all t (e ∷ es) b =
    let k : ltb e.tag t ≡ true = let l = b.0 in ground (arith, l) in
    rw k (ap (λ (r : List Element). e ∷ r) (older-all t es b.1))

flush_loop-below : (t : ℕ) (q : List Element) → Below t q → flush_loop t q ≡ q
unfolding flush_loop
flush_loop-below t [] b = refl
flush_loop-below t (e ∷ es) b =
    let k : leb t e.tag ≡ false = let l = b.0 in ground (arith, l) in rw k refl

-- What the exchange and the flush leave, at an element of an ordered queue
pub exchange-older :
    (t : ℕ) (x m : MapTable) (q : List Element)
    → Ordered q
    → Has t m q
    → (q' : List Element) × (exchange t x q ≡ some (m, q')) × (flush_loop t q' ≡ older t q)
unfolding exchange flush_loop
exchange-older t x m [] o h = absurd h
exchange-older t x m (e ∷ es) o (inl (p, q)) =
    let b : Below t es = subst (λ (n : ℕ). Below n es) p o.0 in
    let k : (e.tag == t) ≡ true = ground (arith, p) in
    let l : leb t e.tag ≡ true = ground (arith, p) in
    let g : ltb e.tag t ≡ false = ground (arith, p) in
    (
      record e { specmap = x } ∷ es,
      rw (exchange-absent t x es b, k, q) refl,
      rw (l, g) (flush_loop-below t es b ∙ sym (older-all t es b)),
    )
exchange-older t x m (e ∷ es) o (inr h) =
    let (q', f, g) = exchange-older t x m es o.1 h in
    let lt : t < e.tag = Below-Has e.tag t m es o.0 h in
    let l : leb t e.tag ≡ true = ground (arith, lt) in
    let k : ltb e.tag t ≡ false = ground (arith, lt) in (e ∷ q', rw f refl, rw (l, k) g)

pub exchange-Has :
    (t : ℕ) (x m : MapTable) (q q' : List Element) → exchange t x q ≡ some (m, q') → Has t m q
unfolding exchange
exchange-Has t x m [] q' h = absurd (cc h)
exchange-Has t x m (e ∷ es) q' h =
    by_rest (exchange t x es) (λ m' r' f. exchange-Has t x m' es r' f) h
  where
    by_rest :
        (r : Option (MapTable × List Element))
        → ((m' : MapTable) (r' : List Element) → r ≡ some (m', r') → Has t m' es)
        → exchange_here t x e es r ≡ some (m, q')
        → Has t m (e ∷ es)
    by_rest (some (found, rest)) ih g =
        let same : found ≡ m = cc (g) in
        inr (ih m rest (ap (λ (y : MapTable). some (y, rest)) same))
    by_rest none ih g = elim (Bool-cases (e.tag == t)) [
      | inl k ↦ inl (ground (arith, k), cc (rw k at g))
      | inr k ↦ absurd (cc (rw k at g))
    ]

-- The older elements keep the order, and each element before the tag.
pub older-Below : (n t : ℕ) (q : List Element) → Below n q → Below n (older t q)
older-Below n t [] b = tt
older-Below n t (e ∷ es) b = elim (Bool-cases (ltb e.tag t)) [
  | inl k ↦ rw k (b.0, older-Below n t es b.1)
  | inr k ↦ rw k (older-Below n t es b.1)
]

pub Below-older : (t : ℕ) (q : List Element) → Below t (older t q)
Below-older t [] = tt
Below-older t (e ∷ es) = elim (Bool-cases (ltb e.tag t)) [
  | inl k ↦ rw k (ground (arith, k), Below-older t es)
  | inr k ↦ rw k (Below-older t es)
]

pub older-Ordered : (t : ℕ) (q : List Element) → Ordered q → Ordered (older t q)
older-Ordered t [] o = tt
older-Ordered t (e ∷ es) o = elim (Bool-cases (ltb e.tag t)) [
  | inl k ↦ rw k (older-Below e.tag t es o.0, older-Ordered t es o.1)
  | inr k ↦ rw k (older-Ordered t es o.1)
]

pub older-Has :
    (u t : ℕ) (m : MapTable) (q : List Element) → t < u → Has t m q → Has t m (older u q)
older-Has u t m [] l h = absurd h
older-Has u t m (e ∷ es) l (inl (p, q)) =
    let k : ltb e.tag u ≡ true = ground (arith, p, l) in rw k (inl (p, q))
older-Has u t m (e ∷ es) l (inr h) = elim (Bool-cases (ltb e.tag u)) [
  | inl k ↦ rw k (inr (older-Has u t m es l h))
  | inr k ↦ rw k (older-Has u t m es l h)
]

-- What a removal leaves of an ordered queue
pub record Kept (tag : ℕ) (q q' : List Element) : Type 0 where
  pub below : (n : ℕ) → Below n q → Below n q'
  pub ordered : Ordered q → Ordered q'
  pub has : (t : ℕ) (m : MapTable) → tag ≢ t → Has t m q → Has t m q'

pub take_out-Kept : (tag : ℕ) (q q' : List Element) → take_out tag q ≡ some q' → Kept tag q q'
unfolding take_out
take_out-Kept tag [] q' h = absurd (cc h)
take_out-Kept tag (e ∷ es) q' h = by_rest (take_out tag es) (λ r' f. take_out-Kept tag es r' f) h
  where
    by_rest :
        (r : Option (List Element))
        → ((r' : List Element) → r ≡ some r' → Kept tag es r')
        → take_here tag e es r ≡ some q'
        → Kept tag (e ∷ es) q'
    by_rest (some rest) ih g =
        let k = ih rest refl in
        let same : e ∷ rest ≡ q' = cc (g) in
        subst (Kept tag (e ∷ es)) same (record {
          below = λ n b. (b.0, k.below n b.1);
          ordered = λ o. (k.below e.tag o.0, k.ordered o.1);
          has = λ t m ne a. elim a [ inl u ↦ inl u | inr v ↦ inr (k.has t m ne v) ];
        })
    by_rest none ih g = elim (Bool-cases (e.tag == tag)) [
      | inl k ↦
          let same : es ≡ q' = cc (rw k at g) in
          subst (Kept tag (e ∷ es)) same (record {
            below = λ n b. b.1;
            ordered = λ o. o.1;
            has = λ t m ne a. elim a [ inl u ↦ absurd (ne (ground (arith, k, u.0))) | inr v ↦ v ];
          })
      | inr k ↦ absurd (cc (rw k at g))
    ]
