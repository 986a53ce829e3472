-- ===== src/AddrMap.antt =====
-- IO/addr_map.c and IO/addr_map.h, the address map of a node: which bus module answers to which
-- addresses. Space for entries is not a limit, since the array grows.
mod Tests
pub mod Order
pub mod Regions
use ml_rsim.Prelude.{
  ℕ, zero, suc, Bool, true, false, ◌&&◌, ◌||◌, Option, none, some, List, [], ◌∷◌, ◌++◌, Checked, ok,
  fatal, ltb, leb, ◌==◌, if◌then◌else◌, set, replicate,
}

-- `ADDR_MAP_ENTRY`; `map` with `num_entries` is the list of entries.
pub record Entry : Type 0 where
  pub low : ℕ
  pub high : ℕ
  pub module_id : ℕ

-- `AddrMap_init`: an empty map for each node; the other operations work on the map of one node.
pub addr_map_init : ℕ → List (List Entry)
addr_map_init numnodes = replicate numnodes []

-- `AddrMap_cmp` is negative
abbrev pub before : Entry → Entry → Bool
before a b = ltb a.low b.low

-- `qsort` with `AddrMap_cmp`, for entries with different low addresses: the order of the result is then
-- determined.
unfoldable pub place : Entry → List Entry → List Entry
place e [] = e ∷ []
place e (x ∷ xs) = if before x e then x ∷ place e xs else e ∷ x ∷ xs

unfoldable pub sort : List Entry → List Entry
sort [] = []
sort (x ∷ xs) = place x (sort xs)

-- The test of `AddrMap_insert` for an overlap.
abbrev pub overlaps : ℕ → ℕ → Entry → Bool
overlaps low high e = (leb low e.low && ltb e.low high) || (ltb low e.high && leb e.high high)

abbrev pub is_same : ℕ → ℕ → ℕ → Entry → Bool
is_same low high m e = (low == e.low) && ((high == e.high) && (m == e.module_id))

-- What the loop of `AddrMap_insert` does: go on to the insertion, return, or report an overlap.
pub data Verdict : Type 0 where
  clear duplicate clash : Verdict

unfoldable pub inspect : ℕ → ℕ → ℕ → List Entry → Verdict
inspect low high m [] = clear
inspect low high m (e ∷ es) =
    let rest = inspect low high m es in
    if overlaps low high e then (if is_same low high m e then duplicate else clash) else rest

-- `AddrMap_insert`
unfoldable pub insert : List Entry → ℕ → ℕ → ℕ → Checked (List Entry)
insert map low high m = if leb high low then fatal else elim (inspect low high m map) [
  | clear ↦ ok (sort (map ++ record { low = low; high = high; module_id = m } ∷ []))
  | duplicate ↦ ok map
  | clash ↦ fatal
]

-- The loop of `AddrMap_remove`
unfoldable pub find_entry : ℕ → ℕ → ℕ → List Entry → Option ℕ
find_entry low high m [] = none
find_entry low high m (e ∷ es) =
    let rest = find_entry low high m es in
    if is_same low high m e then some 0 else elim rest [ none ↦ none | some n ↦ some (suc n) ]

-- The last of `x` and the entries behind it, and all but the last.
unfoldable pub last : Entry → List Entry → Entry
last x [] = x
last x (y ∷ ys) = last y ys

unfoldable pub but_last : Entry → List Entry → List Entry
but_last x [] = []
but_last x (y ∷ ys) = x ∷ but_last y ys

-- `num_entries--; if (n != num_entries) map[n] = map[num_entries];`
unfoldable pub drop_entry : ℕ → List Entry → List Entry
drop_entry n [] = []
drop_entry n (x ∷ xs) = set (but_last x xs) n (last x xs)

-- `AddrMap_remove`
unfoldable pub remove : List Entry → ℕ → ℕ → ℕ → List Entry
remove map low high m = elim (find_entry low high m map) [
  | none ↦ map
  | some n ↦ sort (drop_entry n map)
]

abbrev pub covers : ℕ → Entry → Bool
covers addr e = leb e.low addr && ltb addr e.high

-- `AddrMap_lookup`
unfoldable pub lookup : List Entry → ℕ → Checked ℕ
lookup [] addr = fatal
lookup (e ∷ es) addr = let rest = lookup es addr in if covers addr e then ok e.module_id else rest
