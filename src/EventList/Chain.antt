-- ===== src/EventList/Chain.antt =====
-- The list that the `next` pointers make, and its invariant.
use ml_rsim.Prelude.{
  sym, Bool-cases, ==_iff, inl, inr, ℕ, suc, ◌≤◌, ◌≡◌, refl, ◌≢◌, Option, none, some, List, [], ◌∷◌,
  arith, length, ltb, ◌==◌, if◌then◌else◌,
}
use ml_rsim.EventList.{Sim, update}

-- `ids` are the events from `p` on, in order.
abbrev pub Chain : (ℕ → Option ℕ) → Option ℕ → List ℕ → Type 0
Chain next p [] = p ≡ none
Chain next p (i ∷ is) = (p ≡ some i) × Chain next (next i) is

abbrev pub Absent : ℕ → List ℕ → Type 0
Absent v [] = Unit
Absent v (i ∷ is) = (i ≢ v) × Absent v is

abbrev pub Distinct : List ℕ → Type 0
Distinct [] = Unit
Distinct (i ∷ is) = Absent i is × Distinct is

-- Every event of the list is due at `t` or later.
abbrev pub From : (ℕ → ℕ) → ℕ → List ℕ → Type 0
From time t [] = Unit
From time t (i ∷ is) = (t ≤ time i) × From time t is

-- Times do not fall along the list.
abbrev pub Sorted : (ℕ → ℕ) → List ℕ → Type 0
Sorted time [] = Unit
Sorted time (i ∷ is) = From time (time i) is × Sorted time is

abbrev pub EndsIn : Option ℕ → List ℕ → Type 0
EndsIn t [] = Unit
EndsIn t (i ∷ []) = t ≡ some i
EndsIn t (i ∷ j ∷ is) = EndsIn t (j ∷ is)

-- The pointers, times and length of an event list that holds `ids`.
pub record IsList (next : ℕ → Option ℕ) (head tail : Option ℕ) (time : ℕ → ℕ) (size : ℕ)
    (ids : List ℕ) : Type 0 where
  pub chain : Chain next head ids
  pub distinct : Distinct ids
  pub sorted : Sorted time ids
  pub ends : EndsIn tail ids
  pub counted : length ids ≤ size

-- The event list holds `ids`.
abbrev pub Holds : Sim → List ℕ → Type 0
Holds s ids = IsList s.next s.head s.tail s.time s.size ids

-- Where a new event goes: behind all that are due no later.
unfoldable pub place : (ℕ → ℕ) → ℕ → List ℕ → List ℕ
place time v [] = v ∷ []
place time v (i ∷ is) = if ltb (time v) (time i) then v ∷ i ∷ is else i ∷ place time v is

pub some_inj : {a b : ℕ} → some a ≡ some b → a ≡ b
some_inj h = cc

pub update_self {ℓ} : {A : Type ℓ} (f : ℕ → A) (i : ℕ) (a : A) → update f i a i ≡ a
update_self f i a = rw ((==_iff i i).1 refl)

pub update-ne {ℓ} : {A : Type ℓ} (f : ℕ → A) (i : ℕ) (a : A) (j : ℕ) → j ≢ i → update f i a j ≡ f j
update-ne f i a j h = elim (Bool-cases (i == j)) [
  | inl e ↦ absurd (h (sym ((==_iff i j).0 e)))
  | inr e ↦ rw e
]

-- A write to an event outside the list leaves the list alone.
pub Chain-update :
    (next : ℕ → Option ℕ) (v : ℕ) (e : Option ℕ) (p : Option ℕ) (ids : List ℕ)
    → Absent v ids
    → Chain next p ids
    → Chain (update next v e) p ids
Chain-update next v e p [] a c = c
Chain-update next v e p (i ∷ is) a c =
    (c.0, rw (update-ne next v e i a.0) (Chain-update next v e (next i) is a.1 c.1))

pub From-mono : (time : ℕ → ℕ) (a b : ℕ) (ids : List ℕ) → a ≤ b → From time b ids → From time a ids
From-mono time a b [] h f = tt
From-mono time a b (i ∷ is) h f = (omega (arith, f.0), From-mono time a b is h f.1)

-- `place` keeps the order, and puts in one event.
pub From-place :
    (time : ℕ → ℕ) (v t : ℕ) (ids : List ℕ)
    → t ≤ time v
    → From time t ids
    → From time t (place time v ids)
unfolding place
From-place time v t [] h f = (h, tt)
From-place time v t (i ∷ is) h f = ground (arith, From-place time v t is h f.1)

pub Sorted-place :
    (time : ℕ → ℕ) (v : ℕ) (ids : List ℕ) → Sorted time ids → Sorted time (place time v ids)
unfolding place
Sorted-place time v [] s = (tt, tt)
Sorted-place time v (i ∷ is) s = ground (
  arith,
  Sorted-place time v is s.1,
  From-place time v (time i) is,
  From-mono time (time v) (time i) is,
)

pub Absent-place :
    (time : ℕ → ℕ) (v j : ℕ) (ids : List ℕ) → v ≢ j → Absent j ids → Absent j (place time v ids)
unfolding place
Absent-place time v j [] h a = (h, tt)
Absent-place time v j (i ∷ is) h a = ground (arith, Absent-place time v j is h a.1)

pub Distinct-place :
    (time : ℕ → ℕ) (v : ℕ) (ids : List ℕ)
    → Absent v ids
    → Distinct ids
    → Distinct (place time v ids)
unfolding place
Distinct-place time v [] a d = (tt, tt)
Distinct-place time v (i ∷ is) a d =
    ground (arith, Distinct-place time v is a.1 d.1, Absent-place time v i is)

pub length-place :
    (time : ℕ → ℕ) (v : ℕ) (ids : List ℕ) → length (place time v ids) ≡ suc (length ids)
unfolding place
length-place time v [] = refl
length-place time v (i ∷ is) = ground (arith, length-place time v is)

-- A change of the time of an event outside the list.
pub From-update :
    (time : ℕ → ℕ) (v x t : ℕ) (ids : List ℕ)
    → Absent v ids
    → From time t ids
    → From (update time v x) t ids
From-update time v x t [] a f = tt
From-update time v x t (i ∷ is) a f =
    (rw (update-ne time v x i a.0) f.0, From-update time v x t is a.1 f.1)

pub Sorted-update :
    (time : ℕ → ℕ) (v x : ℕ) (ids : List ℕ)
    → Absent v ids
    → Sorted time ids
    → Sorted (update time v x) ids
Sorted-update time v x [] a s = tt
Sorted-update time v x (i ∷ is) a s = (
  rw (update-ne time v x i a.0) (From-update time v x (time i) is a.1 s.0),
  Sorted-update time v x is a.1 s.1,
)
