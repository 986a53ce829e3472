-- ===== src/Coherence/Kept.antt =====
-- What an access keeps of the MSHRs of the second-level cache, and what its look-ups read.
use ml_rsim.Prelude.{
  ℕ, suc, ◌+◌, ◌≡◌, refl, sym, ap, ◌≢◌, subst, Bool, true, false, not, ◌&&◌, some, List, [], ◌∷◌,
  Checked, ok, fatal, ◌>>=◌, ◌==◌, if◌then◌else◌, length, get_elem?, arith,
}
use ml_rsim.Cache.Line.{Line, Cache}
use ml_rsim.Cache.Age.{hit_update}
use ml_rsim.Cache.Search.{Found, hit, present_miss, total_miss, search}
use ml_rsim.Coherence.{Mshr, L2, block}
use ml_rsim.Coherence.Misses.{Response, Access, Met, is_found, lock}
use ml_rsim.Coherence.Holders.{in_use, OnePerLine}

-- There is a result, and it keeps it.
abbrev pub Keeps : Checked Met → Type 0
Keeps (ok r) = OnePerLine r.0
Keeps fatal = ⊥

pub Keeps-bind {ℓ} :
    {A : Type ℓ} (m : Checked A) (f : A → Checked Met) (a : A)
    → m ≡ ok a
    → Keeps (f a)
    → Keeps (m >>= f)
Keeps-bind m f a e h = subst (λ n. Keeps (n >>= f)) (sym e) h

-- The look-up of an access stays inside the tag array, and so does the bookkeeping of a hit.
pub record Reads (now : ℕ) (c : L2) (a : Access) : Type 0 where
  pub code : Found
  pub index : ℕ
  pub finds : search c.cache a.vaddr a.paddr ≡ ok (code, index)
  pub ages :
      is_found code ≡ true
      → (r : Cache × Bool) × (l : Line) × (hit_update now c.cache index
            (record { paddr = a.paddr; prefetch = a.prefetch })
          ≡ ok r)
        × (get_elem? r.0.tags index ≡ some l)

pub lock-miss : (code : Found) (j : ℕ) (k : Cache) → is_found code ≡ false → lock code j k ≡ ok k
lock-miss hit j k e = cc e
lock-miss present_miss j k e = refl
lock-miss total_miss j k e = refl

pub not_idle : (b : Bool) → not b ≡ false → b ≡ true
not_idle true e = refl
not_idle false e = cc e

-- Where no MSHR is free, all are in use.
pub all_in_use :
    (ms : List Mshr)
    → ((i : ℕ) (m : Mshr) → get_elem? ms i ≡ some m → not m.valid ≡ false)
    → in_use ms ≡ length ms
all_in_use [] h = refl
all_in_use (m ∷ ms) h =
    let v = not_idle m.valid (h 0 m refl) in rw v (ap suc (all_in_use ms (λ i n e. h (suc i) n e)))

pub Keeps-if : (b : Bool) (x y : Checked Met) → Keeps x → Keeps y → Keeps (if b then x else y)
Keeps-if true x y p q = p
Keeps-if false x y p q = q

pub OnePerLine-if :
    (b : Bool) (x y : Met) → OnePerLine x.0 → OnePerLine y.0 → OnePerLine (if b then x else y).0
OnePerLine-if true x y p q = p
OnePerLine-if false x y p q = q

-- The same invariant of a cache with other lines
pub in_cache : (c : L2) (k : Cache) → OnePerLine c → OnePerLine (record c { cache = k })
in_cache c k h = record { counted = h.counted; apart = h.apart }

-- No MSHR is for the line of an address.
abbrev pub NoneFor : L2 → ℕ → Type 0
NoneFor c paddr =
    (j : ℕ) (k : Mshr) → get_elem? c.mshrs j ≡ some k → k.valid ≡ true → k.blocknum ≢ block c paddr

pub of_result :
    (m : Checked Met)
    → Keeps m
    → (d : L2) × (b : Access) × (t : Response) × (starts : Bool) × (m ≡ ok (d, b, t, starts))
      × OnePerLine d
of_result (ok (d, b, t, starts)) h = (d, b, t, starts, refl, h)
of_result fatal h = absurd h

pub from_zero : (i : ℕ) → 0 + i ≡ i
from_zero i = omega arith

pub not_valid : (b : Bool) → not b ≡ true → b ≡ false
not_valid true e = cc e
not_valid false e = refl

pub other_line : (v : Bool) (x y : ℕ) → (v && (x == y)) ≡ false → v ≡ true → y ≢ x
other_line v x y e f same = ground arith

pub both_valid : (v : Bool) (x y : ℕ) → (v && (x == y)) ≡ true → v ≡ true
both_valid true x y e = refl
both_valid false x y e = e
