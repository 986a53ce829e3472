-- ===== src/EventList/Contract.antt =====
-- The operations of sim_main/evlst.c on the list of events against those of a sorted list.
use ml_rsim.Prelude.{ℕ, ◌≡◌, subst, arith, false, none, some, List, [], ◌∷◌, ok}
use ml_rsim.EventList.{Sim, insert, remove, get_head, take_head}
use ml_rsim.EventList.Chain.{Absent, Holds}
use ml_rsim.EventList.Erase.{Present, erase}
use ml_rsim.EventList.Insert.{Inserted, insert-Inserted}
use ml_rsim.EventList.Remove.{remove-Holds, get_head-Holds}

-- The operations on a state that holds the events `ids`, sorted by time
pub record IsSchedule (s : Sim) (ids : List ℕ) : Type 0 where
  pub inserts : (v : ℕ) → Absent v ids → Inserted s ids v (insert s v)
  pub removes :
      (v : ℕ)
      → Present v ids
      → (s' : Sim) × (remove s v ≡ ok s') × Holds s' (erase v ids) × (s'.size ≡ s.size)
  pub gets :
      (i : ℕ) (rest : List ℕ)
      → ids ≡ i ∷ rest
      → (get_head s ≡ (some i, take_head s i))
        × Holds (take_head s i) rest
        × ((take_head s i).scheduled i ≡ false)
  pub ends : ids ≡ [] → get_head s ≡ (none, s)

module _ (s : Sim) (ids : List ℕ) (h : Holds s ids) where
  get_head-empty : ids ≡ [] → get_head s ≡ (none, s)
  unfolding get_head
  get_head-empty e =
      let none_first : s.head ≡ none = (subst (Holds s) e h).chain in ground (arith, none_first)

  -- On a state that holds a sorted list of events, YS__EventListInsert of an event that is not in it
  -- always succeeds, puts it behind all that are due no later and in front of the others, and changes no
  -- time. YS__EventListRemove of an event in it succeeds, takes out that event alone and does not count
  -- down the size. YS__EventListGetHead returns the first event, marked as not scheduled, and leaves
  -- the others in order, and of an empty list it returns none and changes nothing.
  pub Holds-IsSchedule : IsSchedule s ids
  Holds-IsSchedule = record {
    inserts = λ v a. insert-Inserted s ids v h a;
    removes = λ v p. remove-Holds s ids v h p;
    gets = λ i rest e. get_head-Holds s i rest (subst (Holds s) e h);
    ends = get_head-empty;
  }
