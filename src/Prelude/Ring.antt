-- ===== src/Prelude/Ring.antt =====
-- A ring over an array, of which the components keep the indices: a bounded list, oldest first.
use Prim.Native.Nat.{ℕ, zero, suc, ◌+◌, ◌-◌, ◌%◌, ◌≤◌, ◌<◌}
use mathlib.Core.Path.{◌≡◌, refl, sym, ap, ◌∙◌}
use mathlib.Core.Logic.{◌≢◌, inl, inr}
use mathlib.Core.List.{List, [], ◌∷◌, ◌++◌}
use native.Mathlib.Nat.{mod-lt}
use native.Mathlib.Omega.{arith}
use ml_rsim.Prelude.Tests.{ltb, ◌==◌, if◌then◌else◌, Bool-cases, mod_wrap, ltb→lt, ltb_false→le}
use ml_rsim.Prelude.Lists.{
  length, get_elem?, set, length-append, length-set, get_elem?-set_self, get_elem?-set_ne,
  get_elem?-snoc_last, get_elem?-snoc_lt,
}

-- `x++; if (x == total) x = 0;`
abbrev pub bump : ℕ → ℕ → ℕ
bump i total = if i + 1 == total then 0 else i + 1

pub slot-ne :
    (head total i j : ℕ)
    → head < total
    → i < j
    → j < total
    → (head + j) % total ≢ (head + i) % total
slot-ne head total i j h p r = ground (arith, mod_wrap (head + i) total, mod_wrap (head + j) total)

slot-bump :
    (head total i : ℕ)
    → head < total
    → i < total
    → (bump head total + i) % total ≡ (head + suc i) % total
slot-bump head total i h p =
    ground (arith, mod_wrap (bump head total + i) total, mod_wrap (head + suc i) total)

slot-back :
    (head total i : ℕ)
    → head < total
    → i < total
    → ((head + (total - 1)) % total + suc i) % total ≡ (head + i) % total
slot-back head total i h p = ground (
  arith,
  mod_wrap (head + (total - 1)) total,
  mod_wrap ((head + (total - 1)) % total + suc i) total,
  mod_wrap (head + i) total,
)

slot-start : (head total : ℕ) → head < total → (head + 0) % total ≡ head
slot-start head total h = ground (arith, mod_wrap (head + 0) total)

slot-zero : (k total : ℕ) → 0 < total → (k % total + 0) % total ≡ k % total
slot-zero k total h = ground (arith, mod_wrap (k % total + 0) total)

module _ {ℓ} {A : Type ℓ} where
  -- The ring holds `xs`: its indices are in range, and slot `head + i` round the array is item i.
  pub record IsRing (elems : List A) (head tail total size : ℕ) (xs : List A) : Type ℓ where
    pub storage : length elems ≡ total
    pub positive : 0 < total
    pub head_in : head < total
    pub count : length xs ≡ size
    pub fits : size ≤ total
    pub tail_at : tail ≡ (head + size) % total
    pub slots : (i : ℕ) → i < size → get_elem? elems ((head + i) % total) ≡ get_elem? xs i

  pub IsRing-start :
      (total : ℕ) (storage : List A)
      → 0 < total
      → length storage ≡ total
      → IsRing storage 0 0 total 0 []
  IsRing-start total storage p e = record {
    storage = e;
    positive = p;
    head_in = p;
    count = refl;
    fits = omega arith;
    tail_at = omega arith;
    slots = λ i h. elim h [ ];
  }

  module _ {elems : List A} {head tail total size : ℕ} {xs : List A} (x : A)
      (h : IsRing elems head tail total size xs) (p : size < total) where
    pushed-slots :
        (i : ℕ)
        → i < size + 1
        → get_elem? (set elems tail x) ((head + i) % total) ≡ get_elem? (xs ++ x ∷ []) i
    pushed-slots i r = elim (Bool-cases (ltb i size)) [
      | inl old ↦
          get_elem?-set_ne elems tail ((head + i) % total) x
            (rw (h.tail_at) (slot-ne head total i size h.head_in (ltb→lt i size old) p))
          ∙ h.slots i (ltb→lt i size old)
          ∙ sym (get_elem?-snoc_lt xs i x (omega (arith, ltb→lt i size old, h.count)))
      | inr new ↦
          let e : i ≡ size = omega (arith, ltb_false→le i size new) in
          rw (e, ← h.tail_at)
            (get_elem?-set_self elems tail x (omega (arith, h.tail_at, h.storage))
              ∙ sym (get_elem?-snoc_last xs size x (sym h.count)))
    ]

    -- An element behind the others.
    pub push-IsRing :
        IsRing (set elems tail x) head (bump tail total) total (size + 1) (xs ++ x ∷ [])
    push-IsRing = record {
      storage = omega (arith, h.storage, length-set elems tail x);
      positive = h.positive;
      head_in = h.head_in;
      count = omega (arith, length-append xs (x ∷ []), h.count);
      fits = omega arith;
      tail_at =
          ground
            (arith, h.tail_at, mod_wrap (head + size) total, mod_wrap (head + (size + 1)) total);
      slots = pushed-slots;
    }

    before-slots :
        (i : ℕ)
        → i < size + 1
        → get_elem?
            (set elems ((head + (total - 1)) % total) x)
            (((head + (total - 1)) % total + i) % total)
          ≡ get_elem? (x ∷ xs) i
    before-slots zero r = rw (slot-zero (head + (total - 1)) total h.positive) (
        get_elem?-set_self elems ((head + (total - 1)) % total) x
          (omega (arith, h.storage, mod-lt (head + (total - 1)) h.positive)))
    before-slots (suc i) r = rw (slot-back head total i h.head_in (omega (arith, h.fits))) (
        get_elem?-set_ne elems ((head + (total - 1)) % total) ((head + i) % total) x
          (slot-ne head total i (total - 1) h.head_in (omega arith) (omega (arith, h.positive)))
        ∙ h.slots i (omega arith))

    -- An element in front of the others.
    pub push_front-IsRing :
        IsRing
          (set elems ((head + (total - 1)) % total) x)
          ((head + (total - 1)) % total)
          tail
          total
          (size + 1)
          (x ∷ xs)
    push_front-IsRing = record {
      storage = omega (arith, h.storage, length-set elems ((head + (total - 1)) % total) x);
      positive = h.positive;
      head_in = omega (arith, h.head_in);
      count = omega (arith, h.count);
      fits = omega arith;
      tail_at = ground (arith, h.tail_at, slot-back head total size);
      slots = before-slots;
    }

  -- The slot at `head` has the first item.
  pub oldest :
      {elems : List A} {head tail total size : ℕ} {xs : List A}
      → IsRing elems head tail total size xs
      → 0 < size
      → get_elem? elems head ≡ get_elem? xs 0
  oldest {elems} {head} {total = total} h p =
      ap (get_elem? elems) (sym (slot-start head total h.head_in)) ∙ h.slots 0 p

  -- The ring without its oldest element.
  pub pop-IsRing :
      {elems : List A} {head tail total size : ℕ} {x : A} {xs : List A}
      → IsRing elems head tail total size (x ∷ xs)
      → IsRing elems (bump head total) tail total (size - 1) xs
  pop-IsRing {elems} {head} {tail} {total} {size} {x} {xs} h = record {
    storage = h.storage;
    positive = h.positive;
    head_in = ground (arith, h.head_in);
    count = omega (arith, h.count);
    fits = omega (arith, h.fits);
    tail_at = ground (arith, h.tail_at, h.count, slot-bump head total (size - 1));
    slots = λ i r.
        rw (slot-bump head total i h.head_in (omega (arith, h.fits)))
          (h.slots (suc i) (omega (arith, h.count)));
  }

  -- The ring with its oldest element changed.
  pub replace_first-IsRing :
      {elems : List A} {head tail total size : ℕ} {x : A} {xs : List A} (y : A)
      → IsRing elems head tail total size (x ∷ xs)
      → IsRing (set elems head y) head tail total size (y ∷ xs)
  replace_first-IsRing {elems} {head} {tail} {total} {size} {x} {xs} y h = record {
    storage = omega (arith, h.storage, length-set elems head y);
    positive = h.positive;
    head_in = h.head_in;
    count = h.count;
    fits = h.fits;
    tail_at = h.tail_at;
    slots = at;
  }
    where
      at :
          (i : ℕ)
          → i < size
          → get_elem? (set elems head y) ((head + i) % total) ≡ get_elem? (y ∷ xs) i
      at zero r =
          rw (slot-start head total h.head_in)
            (get_elem?-set_self elems head y (omega (arith, h.storage, h.head_in)))
      at (suc i) r =
          get_elem?-set_ne elems head ((head + suc i) % total) y (λ e.
            slot-ne head total 0 (suc i) h.head_in (omega arith) (omega (arith, h.fits))
              (sym e ∙ sym (slot-start head total h.head_in)))
          ∙ h.slots (suc i) r
