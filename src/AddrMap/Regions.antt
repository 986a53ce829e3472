-- ===== src/AddrMap/Regions.antt =====
-- What the operations of the address map do to the answers of `AddrMap_lookup`.
use ml_rsim.Prelude.{
  ℕ, ◌<◌, ◌≤◌, ◌≡◌, refl, ap, ◌⊎◌, inl, inr, true, ◌&&◌, List, [], ◌∷◌, arith, Checked, ok, fatal,
  ltb, leb, if◌then◌else◌, lt→leb_false,
}
use ml_rsim.AddrMap.{
  Entry, is_same, Verdict, clear, duplicate, clash, inspect, insert, lookup, place, sort,
}
use ml_rsim.AddrMap.Order.{Apart, IsMap, Free, Apart-place, lookup-place, sort-snoc}

-- No entry has addresses below the region and addresses above it.
abbrev pub NoneEncloses : ℕ → ℕ → List Entry → Type 0
NoneEncloses low high [] = Unit
NoneEncloses low high (x ∷ xs) = ((low ≤ x.low) ⊎ (x.high ≤ high)) × NoneEncloses low high xs

-- Some entry has an address of the region.
abbrev pub Taken : ℕ → ℕ → List Entry → Type 0
Taken low high [] = ⊥
Taken low high (x ∷ xs) = ((x.low < high) × (low < x.high)) ⊎ Taken low high xs

abbrev pub Member : Entry → List Entry → Type 0
Member e [] = ⊥
Member e (x ∷ xs) = (x ≡ e) ⊎ Member e xs

inspect-clear :
    (low high m t : ℕ) (xs : List Entry)
    → low < high
    → Apart t xs
    → NoneEncloses low high xs
    → inspect low high m xs ≡ clear
    → Free low high xs
unfolding inspect
inspect-clear low high m t [] n a c e = tt
inspect-clear low high m t (x ∷ xs) n a c e =
    ground (arith, a.1, c.0, e, inspect-clear low high m x.high xs n a.2 c.1)

same_entry :
    (low high m : ℕ) (x : Entry)
    → is_same low high m x ≡ true
    → x ≡ record { low = low; high = high; module_id = m }
same_entry low high m x h = ground (arith, h)

inspect-duplicate :
    (low high m : ℕ) (xs : List Entry)
    → inspect low high m xs ≡ duplicate
    → Member (record { low = low; high = high; module_id = m }) xs
unfolding inspect
inspect-duplicate low high m [] e = ground (arith, e)
inspect-duplicate low high m (x ∷ xs) e =
    ground (arith, e, inspect-duplicate low high m xs, same_entry low high m x)

inspect-clash :
    (low high m t : ℕ) (xs : List Entry)
    → low < high
    → Apart t xs
    → inspect low high m xs ≡ clash
    → Taken low high xs
unfolding inspect
inspect-clash low high m t [] n a e = ground (arith, e)
inspect-clash low high m t (x ∷ xs) n a e =
    ground (arith, a.1, e, inspect-clash low high m x.high xs n a.2)

-- What `AddrMap_insert` of a region does: it adds the region, all of whose addresses were free, and
-- then the module answers to these and no answer changes for another; or the same entry is in the map
-- already; or it stops the simulator, and some address of the region is taken.
pub data Inserted (map : List Entry) (low high m : ℕ) (r : Checked (List Entry)) : Type 0 where
  added :
      (map' : List Entry)
      → r ≡ ok map'
      → Free low high map
      → IsMap map'
      → ((addr : ℕ)
          → lookup map' addr ≡ (if leb low addr && ltb addr high then ok m else lookup map addr))
      → Inserted map low high m r
  known :
      r ≡ ok map
      → Member (record { low = low; high = high; module_id = m }) map
      → Inserted map low high m r
  refused : r ≡ fatal → Taken low high map → Inserted map low high m r

Verdict-cases : (v : Verdict) → (v ≡ clear) ⊎ ((v ≡ duplicate) ⊎ (v ≡ clash))
Verdict-cases clear = inl refl
Verdict-cases duplicate = inr (inl refl)
Verdict-cases clash = inr (inr refl)

-- `AddrMap_insert` of a region that is not empty, into a map in order, where no entry has addresses
-- both below the region and above it: the new map is in order, and the answers are those of the old
-- one and the new region; or the same entry is there and nothing changes; or the region has an address
-- that is taken, and the simulator stops.
pub insert-lookup :
    (map : List Entry) (low high m : ℕ)
    → IsMap map
    → low < high
    → NoneEncloses low high map
    → Inserted map low high m (insert map low high m)
unfolding insert
insert-lookup map low high m a n c =
    let e : Entry = record { low = low; high = high; module_id = m } in
    let filled = lt→leb_false high low n in
    elim (Verdict-cases (inspect low high m map)) [
      | inl v ↦
          let f = inspect-clear low high m 0 map n a c v in
          added (place e map) (simp (filled, v) (ap ok (sort-snoc e 0 map n f a))) f
            (Apart-place e 0 map (omega arith) n f a) (λ addr. lookup-place e 0 addr map n f a)
      | inr (inl v) ↦ known (simp (filled, v)) (inspect-duplicate low high m map v)
      | inr (inr v) ↦ refused (simp (filled, v)) (inspect-clash low high m 0 map n a v)
    ]

-- A region inside an entry, with addresses of the entry on both sides, is added to a map of that entry
-- alone, and no address is then answered by the new module.
pub insert-enclosed :
    (e : Entry) (low high m addr : ℕ)
    → e.low < low
    → low < high
    → high < e.high
    → let new : Entry = record { low = low; high = high; module_id = m } in
      (insert (e ∷ []) low high m ≡ ok (e ∷ new ∷ []))
      × (lookup (e ∷ new ∷ []) addr ≡ lookup (e ∷ []) addr)
unfolding insert inspect sort place lookup
insert-enclosed e low high m addr a b c = ground (arith, a, b, c)
