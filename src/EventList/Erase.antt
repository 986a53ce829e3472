-- ===== src/EventList/Erase.antt =====
-- The list of the events in the event list with one of them taken out, as `YS__EventListRemove` does.
use ml_rsim.Prelude.{
  ℕ, ◌≤◌, ◌≡◌, refl, subst, ◌⊎◌, Option, List, [], ◌∷◌, arith, length, ◌==◌, ==_iff, if◌then◌else◌,
  Bool-cases, inl, inr, false,
}
use ml_rsim.EventList.{is}
use ml_rsim.EventList.Chain.{Absent, Distinct, From, Sorted, EndsIn}

abbrev pub Present : ℕ → List ℕ → Type 0
Present v [] = ⊥
Present v (i ∷ is) = (i ≡ v) ⊎ Present v is

-- The list without an event.
unfoldable pub erase : ℕ → List ℕ → List ℕ
erase v [] = []
erase v (i ∷ is) = if i == v then is else i ∷ erase v is

pub From-erase :
    (time : ℕ → ℕ) (t v : ℕ) (ids : List ℕ) → From time t ids → From time t (erase v ids)
unfolding erase
From-erase time t v [] f = tt
From-erase time t v (i ∷ is) f = ground (arith, From-erase time t v is f.1)

pub Sorted-erase :
    (time : ℕ → ℕ) (v : ℕ) (ids : List ℕ) → Sorted time ids → Sorted time (erase v ids)
unfolding erase
Sorted-erase time v [] s = tt
Sorted-erase time v (i ∷ is) s =
    ground (arith, Sorted-erase time v is s.1, From-erase time (time i) v is s.0)

pub Absent-erase : (j v : ℕ) (ids : List ℕ) → Absent j ids → Absent j (erase v ids)
unfolding erase
Absent-erase j v [] a = tt
Absent-erase j v (i ∷ is) a = ground (arith, Absent-erase j v is a.1)

pub Distinct-erase : (v : ℕ) (ids : List ℕ) → Distinct ids → Distinct (erase v ids)
unfolding erase
Distinct-erase v [] d = tt
Distinct-erase v (i ∷ is) d = ground (arith, Distinct-erase v is d.1, Absent-erase i v is d.0)

pub length-erase : (v : ℕ) (ids : List ℕ) → length (erase v ids) ≤ length ids
unfolding erase
length-erase v [] = omega arith
length-erase v (i ∷ is) = ground (arith, length-erase v is)

-- A removed event is gone.
pub Absent-erase_self : (v : ℕ) (ids : List ℕ) → Distinct ids → Absent v (erase v ids)
unfolding erase
Absent-erase_self v [] d = tt
Absent-erase_self v (i ∷ is) d = elim (Bool-cases (i == v)) [
  | inl e ↦ rw e (subst (λ x. Absent x is) ((==_iff i v).0 e) d.0)
  | inr e ↦ rw e (ground (arith, e), Absent-erase_self v is d.1)
]

pub erase-hit : (v : ℕ) (is : List ℕ) → erase v (v ∷ is) ≡ is
unfolding erase
erase-hit v is = rw ((==_iff v v).1 refl)

pub erase-miss : (i v : ℕ) (is : List ℕ) → (i == v) ≡ false → erase v (i ∷ is) ≡ i ∷ erase v is
unfolding erase
erase-miss i v is e = rw e

pub EndsIn-tail : (t : Option ℕ) (i : ℕ) (ids : List ℕ) → EndsIn t (i ∷ ids) → EndsIn t ids
EndsIn-tail t i [] e = tt
EndsIn-tail t i (j ∷ ids) e = e
