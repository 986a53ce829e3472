-- ===== src/AddrMap/Order.antt =====
-- Sorted address maps without overlap, and `qsort` on them.
use ml_rsim.Prelude.{
  ℕ, zero, suc, ◌<◌, ◌≤◌, ◌≡◌, refl, ap, ◌∙◌, ◌⊎◌, inl, inr, true, false, List, [], ◌∷◌, ◌++◌,
  arith, ok, ltb, if◌then◌else◌, length,
}
use ml_rsim.AddrMap.{Entry, place, sort, lookup, covers, last, but_last, drop_entry}

-- The entries are not empty, lie in order at `t` or above, and do not overlap.
abbrev pub Apart : ℕ → List Entry → Type 0
Apart t [] = Unit
Apart t (x ∷ xs) = (t ≤ x.low) × (x.low < x.high) × Apart x.high xs

abbrev pub IsMap : List Entry → Type 0
IsMap map = Apart 0 map

-- No address of the region is in an entry.
abbrev pub Free : ℕ → ℕ → List Entry → Type 0
Free low high [] = Unit
Free low high (x ∷ xs) = ((high ≤ x.low) ⊎ (x.high ≤ low)) × Free low high xs

pub Apart-mono : (t u : ℕ) (xs : List Entry) → t ≤ u → Apart u xs → Apart t xs
Apart-mono t u [] h a = tt
Apart-mono t u (x ∷ xs) h a = (omega (arith, a.0), a.1, a.2)

pub Apart-place :
    (e : Entry) (t : ℕ) (xs : List Entry)
    → t ≤ e.low
    → e.low < e.high
    → Free e.low e.high xs
    → Apart t xs
    → Apart t (place e xs)
unfolding place
Apart-place e t [] h n f a = (h, n, tt)
Apart-place e t (x ∷ xs) h n f a = ground (arith, f.0, a.0, a.1, a.2, Apart-place e x.high xs)

pub lookup-place :
    (e : Entry) (t addr : ℕ) (xs : List Entry)
    → e.low < e.high
    → Free e.low e.high xs
    → Apart t xs
    → lookup (place e xs) addr ≡ (if covers addr e then ok e.module_id else lookup xs addr)
unfolding place lookup
lookup-place e t addr [] n f a = refl
lookup-place e t addr (x ∷ xs) n f a =
    ground (arith, f.0, a.0, a.1, lookup-place e x.high addr xs n f.1 a.2)

place-first : (x : Entry) (xs : List Entry) (t : ℕ) → x.low < t → Apart t xs → place x xs ≡ x ∷ xs
unfolding place
place-first x [] t h a = refl
place-first x (y ∷ ys) t h a = ground (arith, h, a.0)

place-swap :
    (e x : Entry) (xs : List Entry)
    → e.low < e.high
    → (e.high ≤ x.low) ⊎ (x.high ≤ e.low)
    → Free e.low e.high xs
    → x.low < x.high
    → Apart x.high xs
    → place x (place e xs) ≡ place e (x ∷ xs)
unfolding place
place-swap e x xs n (inl d) f m a =
    let swap : ltb x.low e.low ≡ false = ground (arith, d, n) in
    let keep : ltb e.low x.low ≡ true = ground (arith, d, n) in
    rw (swap, place-first e xs x.high (omega (arith, n, d, m)) a, keep)
      (ap (λ z. e ∷ z) (place-first x xs x.high m a))
place-swap e x xs n (inr d) f m a =
    let keep : ltb x.low e.low ≡ true = ground (arith, d, m) in
    rw keep (place-first x (place e xs) x.high m (Apart-place e x.high xs d n f a))

-- Sorting puts a new entry at its place.
pub sort-snoc :
    (e : Entry) (t : ℕ) (xs : List Entry)
    → e.low < e.high
    → Free e.low e.high xs
    → Apart t xs
    → sort (xs ++ e ∷ []) ≡ place e xs
unfolding sort
sort-snoc e t [] n f a = ground arith
sort-snoc e t (x ∷ xs) n f a =
    ap (place x) (sort-snoc e x.high xs n f.1 a.2) ∙ place-swap e x xs n f.0 f.1 a.1 a.2

sort-id : (t : ℕ) (xs : List Entry) → Apart t xs → sort xs ≡ xs
unfolding sort
sort-id t [] a = refl
sort-id t (x ∷ xs) a = ap (place x) (sort-id x.high xs a.2) ∙ place-first x xs x.high a.1 a.2

-- The map without its entry `n`.
unfoldable pub without : ℕ → List Entry → List Entry
without n [] = []
without zero (x ∷ xs) = xs
without (suc n) (x ∷ xs) = x ∷ without n xs

pub Apart-without : (t n : ℕ) (xs : List Entry) → Apart t xs → Apart t (without n xs)
unfolding without
Apart-without t n [] a = tt
Apart-without t zero (x ∷ xs) a = Apart-mono t x.high xs (omega (arith, a.0, a.1)) a.2
Apart-without t (suc n) (x ∷ xs) a = (a.0, a.1, Apart-without x.high n xs a.2)

last-above : (t : ℕ) (x : Entry) (xs : List Entry) → Apart t (x ∷ xs) → t ≤ (last x xs).low
unfolding last
last-above t x [] a = a.0
last-above t x (y ∷ ys) a = omega (arith, a.0, a.1, last-above x.high y ys a.2)

Apart-but_last : (t : ℕ) (x : Entry) (xs : List Entry) → Apart t (x ∷ xs) → Apart t (but_last x xs)
unfolding but_last
Apart-but_last t x [] a = tt
Apart-but_last t x (y ∷ ys) a = (a.0, a.1, Apart-but_last x.high y ys a.2)

place-last :
    (t : ℕ) (x : Entry) (xs : List Entry)
    → Apart t (x ∷ xs)
    → place (last x xs) (but_last x xs) ≡ x ∷ xs
unfolding place last but_last
place-last t x [] a = refl
place-last t x (y ∷ ys) a =
    ground (arith, a.1, last-above x.high y ys a.2, place-last x.high y ys a.2)

-- Sorting after the last entry took the place of entry `n` gives the map without entry `n`.
pub sort-drop_entry :
    (t n : ℕ) (xs : List Entry) → n < length xs → Apart t xs → sort (drop_entry n xs) ≡ without n xs
unfolding drop_entry without sort but_last last
sort-drop_entry t n [] h a = refl
sort-drop_entry t zero (x ∷ []) h a = refl
sort-drop_entry t zero (x ∷ y ∷ ys) h a =
    ap (place (last y ys)) (sort-id x.high (but_last y ys) (Apart-but_last x.high y ys a.2))
    ∙ place-last x.high y ys a.2
sort-drop_entry t (suc n) (x ∷ []) h a = absurd (omega (arith, h))
sort-drop_entry t (suc n) (x ∷ y ∷ ys) h a =
    ap (place x) (sort-drop_entry x.high n (y ∷ ys) (omega (arith, h)) a.2)
    ∙ place-first x (without n (y ∷ ys)) x.high a.1 (Apart-without x.high n (y ∷ ys) a.2)
