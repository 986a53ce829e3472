-- ===== src/EventList/Walk.antt =====
-- The walk of `YS__EventListInsert`, and linking an event into the middle and behind the end.
use ml_rsim.Prelude.{
  le→leb, leb_false→lt, ℕ, zero, suc, ◌≤◌, ◌<◌, ◌≡◌, refl, sym, ap, ◌∙◌, ◌≢◌, Option, none, some,
  List, [], ◌∷◌, ◌++◌, arith, length, leb, ltb, Bool-cases, inl, inr, Checked, ok, true, ltb→lt,
  leb→le, lt→ltb,
}
use ml_rsim.EventList.{update, walk, link}
use ml_rsim.EventList.Chain.{
  some_inj, Chain, Absent, Distinct, From, Sorted, EndsIn, place, update_self, update-ne,
  Chain-update,
}

pub EndsIn-ne :
    (t : ℕ) (v : ℕ) (i : ℕ) (is : List ℕ) → EndsIn (some t) (i ∷ is) → Absent v (i ∷ is) → t ≢ v
EndsIn-ne t v i [] e a = λ h. a.0 (sym (some_inj e) ∙ h)
EndsIn-ne t v i (j ∷ is) e a = EndsIn-ne t v j is e a.1

-- The walk stops inside the list, and linking there places the event.
pub record Linked (next : ℕ → Option ℕ) (time : ℕ → ℕ) (v i : ℕ) (is : List ℕ) (r : Checked ℕ)
    : Type 0 where
  pub at : ℕ
  pub found : r ≡ ok at
  pub inside : (j : ℕ) → Absent j (i ∷ is) → at ≢ j
  pub chain : Chain (link next at v) (some i) (i ∷ place time v is)
  pub ends : (t : Option ℕ) → EndsIn t (i ∷ is) → EndsIn t (i ∷ place time v is)

pub place-later :
    (time : ℕ → ℕ) (v n : ℕ) (is : List ℕ)
    → leb (time n) (time v) ≡ true
    → place time v (n ∷ is) ≡ n ∷ place time v is
unfolding place
place-later time v n is h = elim (Bool-cases (ltb (time v) (time n))) [
  | inl e ↦ absurd (omega (arith, leb→le _ _ h, ltb→lt _ _ e))
  | inr e ↦ rw e
]

pub place-here :
    (time : ℕ → ℕ) (v n : ℕ) (is : List ℕ) → time v < time n → place time v (n ∷ is) ≡ v ∷ n ∷ is
unfolding place
place-here time v n is h = rw (lt→ltb _ _ h)

pub link_self : (next : ℕ → Option ℕ) (v p : ℕ) → link next p v p ≡ some v
unfolding link
link_self next v p = update_self (update next v (next p)) p (some v)

pub link-new : (next : ℕ → Option ℕ) (v p : ℕ) → p ≢ v → link next p v v ≡ next p
unfolding link
link-new next v p h =
    update-ne (update next v (next p)) p (some v) v (λ e. h (sym e)) ∙ update_self next v (next p)

module _ (next : ℕ → Option ℕ) (time : ℕ → ℕ) (v : ℕ) where
  pub link-other : (p i : ℕ) → p ≢ i → i ≢ v → link next p v i ≡ next i
  unfolding link
  link-other p i h k =
      update-ne (update next v (next p)) p (some v) i (λ e. h (sym e))
      ∙ update-ne next v (next p) i k

  -- Behind `p`, linking `v` leaves the rest of the list as it is.
  pub Chain-link :
      (p : ℕ) (q : Option ℕ) (ids : List ℕ)
      → Absent p ids
      → Absent v ids
      → Chain next q ids
      → Chain (link next p v) q ids
  unfolding link
  Chain-link p q ids ap av c =
      Chain-update (update next v (next p)) p (some v) q ids ap
        (Chain-update next v (next p) q ids av c)

  pub walk-Linked :
      (fuel i t : ℕ) (is : List ℕ)
      → Chain next (some i) (i ∷ is)
      → Distinct (i ∷ is)
      → Absent v (i ∷ is)
      → EndsIn (some t) (i ∷ is)
      → time v < time t
      → time i ≤ time v
      → length is < fuel
      → Linked next time v i is (walk fuel next time (time v) i)
  unfolding walk
  walk-Linked zero i t is c d a e lt le f = elim f [ ]
  walk-Linked (suc fuel) i t [] c d a e lt le f = absurd (omega (arith, ap time (some_inj e)))
  walk-Linked (suc fuel) i t (n ∷ is) c d a e lt le f = elim (Bool-cases (leb (time n) (time v))) [
    | inl further ↦
        let ih =
          walk-Linked fuel n t is (refl, c.1.1) d.1 a.1 e lt (leb→le _ _ further) (omega arith) in
        record {
          at = ih.at;
          found = rw (c.1.0, walk) (rw further ih.found);
          inside = λ j b. ih.inside j b.1;
          chain =
              rw (place-later time v n is further)
                (refl, rw (link-other ih.at i (ih.inside i d.0) a.0, c.1.0) ih.chain);
          ends = λ u b. rw (place-later time v n is further) (ih.ends u b);
        }
    | inr here ↦ record {
      at = i;
      found = rw (c.1.0, walk) (rw here);
      inside = λ j b. b.0;
      chain = rw (place-here time v n is (leb_false→lt _ _ here)) (
        refl,
        (
          link_self next v i,
          rw (link-new next v i (λ e. a.0 e), c.1.0)
              (Chain-link i (some n) (n ∷ is) d.0 a.1 (refl, c.1.1)),
        ),
      );
      ends = λ u b. rw (place-here time v n is (leb_false→lt _ _ here)) b;
    }
  ]

pub EndsIn-some : (t : Option ℕ) (i : ℕ) (is : List ℕ) → EndsIn t (i ∷ is) → (u : ℕ) × (t ≡ some u)
EndsIn-some t i [] e = (i, e)
EndsIn-some t i (j ∷ is) e = EndsIn-some t j is e

pub From-last :
    (time : ℕ → ℕ) (u t i : ℕ) (is : List ℕ)
    → EndsIn (some t) (i ∷ is)
    → From time u (i ∷ is)
    → u ≤ time t
From-last time u t i [] e f = rw (some_inj e) f.0
From-last time u t i (j ∷ is) e f = From-last time u t j is e f.1

pub Sorted-last :
    (time : ℕ → ℕ) (t i : ℕ) (is : List ℕ)
    → EndsIn (some t) (i ∷ is)
    → Sorted time (i ∷ is)
    → time i ≤ time t
Sorted-last time t i [] e s = rw (some_inj e) (omega arith)
Sorted-last time t i (j ∷ is) e s = From-last time (time i) t j is e s.0

pub place-end :
    (time : ℕ → ℕ) (v t i : ℕ) (is : List ℕ)
    → EndsIn (some t) (i ∷ is)
    → Sorted time (i ∷ is)
    → time t ≤ time v
    → place time v (i ∷ is) ≡ i ∷ (is ++ v ∷ [])
unfolding place
place-end time v t i [] e s h =
    place-later time v i [] (le→leb _ _ (omega (arith, Sorted-last time t i [] e s)))
place-end time v t i (j ∷ is) e s h =
    place-later time v i (j ∷ is) (le→leb _ _ (omega (arith, Sorted-last time t i (j ∷ is) e s)))
    ∙ ap (◌∷◌ i) (place-end time v t j is e s.1 h)

pub EndsIn-snoc : (v i : ℕ) (is : List ℕ) → EndsIn (some v) (i ∷ (is ++ v ∷ []))
EndsIn-snoc v i [] = refl
EndsIn-snoc v i (j ∷ is) = EndsIn-snoc v j is

-- Linking behind the last event: `tail->next = vptr; vptr->next = 0;`
module _ (next : ℕ → Option ℕ) (v t : ℕ) where
  unfoldable pub append : ℕ → Option ℕ
  append = update (update next t (some v)) v none

  pub append-other : (i : ℕ) → i ≢ t → i ≢ v → append i ≡ next i
  unfolding append
  append-other i h k = update-ne (update next t (some v)) v none i k ∙ update-ne next t (some v) i h

  pub append-last : t ≢ v → append t ≡ some v
  unfolding append
  append-last h = update-ne (update next t (some v)) v none t h ∙ update_self next t (some v)

  pub append-new : append v ≡ none
  unfolding append
  append-new = update_self (update next t (some v)) v none

  -- The last event is found at the end only.
  pub EndsIn-mem : (i j : ℕ) (is : List ℕ) → EndsIn (some t) (j ∷ is) → Absent i (j ∷ is) → i ≢ t
  EndsIn-mem i j [] e a = λ k. a.0 (sym (some_inj e) ∙ sym k)
  EndsIn-mem i j (l ∷ is) e a = EndsIn-mem i l is e a.1

  pub Chain-append :
      (p : Option ℕ) (i : ℕ) (is : List ℕ)
      → Chain next p (i ∷ is)
      → Distinct (i ∷ is)
      → Absent v (i ∷ is)
      → EndsIn (some t) (i ∷ is)
      → Chain append p (i ∷ (is ++ v ∷ []))
  Chain-append p i [] c d a e =
      let k : t ≡ i = some_inj e in
      (c.0, (ap append (sym k) ∙ append-last (λ q. a.0 (sym k ∙ q)), append-new))
  Chain-append p i (j ∷ is) c d a e = (
    c.0,
    rw (append-other i (EndsIn-mem i j is e d.0) a.0) (Chain-append (next i) j is c.1 d.1 a.1 e),
  )
