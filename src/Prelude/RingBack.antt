-- ===== src/Prelude/RingBack.antt =====
-- The back of a ring, and a write into it.
use Prim.Native.Nat.{ℕ, ◌+◌, ◌-◌, ◌%◌, ◌≤◌, ◌<◌}
use mathlib.Core.Path.{◌≡◌, sym, ap, ◌∙◌}
use mathlib.Core.Logic.{◌≢◌, inl, inr}
use mathlib.Core.Bool.{false}
use mathlib.Core.Option.{some}
use mathlib.Core.List.{List, [], ◌∷◌, ◌++◌}
use native.Mathlib.Nat.{mod-lt}
use native.Mathlib.Omega.{arith}
use ml_rsim.Prelude.Tests.{ltb, ◌==◌, ==_iff, Bool-cases, mod_wrap, ltb→lt}
use ml_rsim.Prelude.Lists.{
  length, get_elem?, set, length-append, length-set, get_elem?-set_self, get_elem?-set_ne,
  get_elem?-snoc_last, get_elem?-snoc_lt,
}
use ml_rsim.Prelude.Ring.{IsRing, slot-ne}

back-slot :
    (head total size : ℕ)
    → head < total
    → 0 < size
    → size ≤ total
    → ((head + size) % total + (total - 1)) % total ≡ (head + (size - 1)) % total
back-slot head total size h p q = ground (
  arith,
  mod_wrap (head + size) total,
  mod_wrap ((head + size) % total + (total - 1)) total,
  mod_wrap (head + (size - 1)) total,
)

ne_of : {i j : ℕ} → (j == i) ≡ false → i ≢ j
ne_of e q = ground (arith, e, q)

slots_apart :
    (head total i j : ℕ)
    → head < total
    → i < total
    → j < total
    → (j == i) ≡ false
    → (head + i) % total ≢ (head + j) % total
slots_apart head total i j h p q ne e = elim (Bool-cases (ltb i j)) [
  | inl up ↦ slot-ne head total i j h (ltb→lt i j up) q (sym e)
  | inr down ↦ slot-ne head total j i h (ground (arith, ne, down)) p e
]

module _ {ℓ} {A : Type ℓ} {elems : List A} {head tail total size : ℕ} where
  tail_back :
      (xs : List A) (x : A)
      → IsRing elems head tail total size (xs ++ x ∷ [])
      → (tail + (total - 1)) % total ≡ (head + (size - 1)) % total
  tail_back xs x h =
      ap (λ t. (t + (total - 1)) % total) h.tail_at
      ∙ back-slot head total size h.head_in (omega (arith, h.count, length-append xs (x ∷ [])))
          h.fits

  -- The slot in front of `tail` has the last item.
  pub newest :
      (xs : List A) (x : A)
      → IsRing elems head tail total size (xs ++ x ∷ [])
      → get_elem? elems ((tail + (total - 1)) % total) ≡ some x
  newest xs x h =
      let sized : size ≡ length xs + 1 = omega (arith, h.count, length-append xs (x ∷ [])) in
      ap (get_elem? elems) (tail_back xs x h)
      ∙ h.slots (size - 1) (omega arith)
      ∙ get_elem?-snoc_last xs (size - 1) x (omega arith)

  -- The ring without its newest element.
  pub pop_back-IsRing :
      (xs : List A) (x : A)
      → IsRing elems head tail total size (xs ++ x ∷ [])
      → IsRing elems head ((tail + (total - 1)) % total) total (size - 1) xs
  pop_back-IsRing xs x h = record {
    storage = h.storage;
    positive = h.positive;
    head_in = h.head_in;
    count = omega (arith, h.count, length-append xs (x ∷ []));
    fits = omega (arith, h.fits);
    tail_at = tail_back xs x h;
    slots = λ i r.
        h.slots i (omega arith)
        ∙ get_elem?-snoc_lt xs i x (omega (arith, h.count, length-append xs (x ∷ [])));
  }

  -- The ring with an element changed.
  pub replace-IsRing :
      (xs : List A) (i : ℕ) (y : A)
      → IsRing elems head tail total size xs
      → i < size
      → IsRing (set elems ((head + i) % total) y) head tail total size (set xs i y)
  replace-IsRing xs i y h p = record {
    storage = omega (arith, h.storage, length-set elems ((head + i) % total) y);
    positive = h.positive;
    head_in = h.head_in;
    count = omega (arith, length-set xs i y, h.count);
    fits = h.fits;
    tail_at = h.tail_at;
    slots = λ j r. elim (Bool-cases (j == i)) [
      | inl same ↦
          let q = (==_iff j i).0 same in
          ap (λ k. get_elem? (set elems ((head + i) % total) y) ((head + k) % total)) q
          ∙ get_elem?-set_self elems ((head + i) % total) y
              (omega (arith, h.storage, mod-lt (head + i) h.positive))
          ∙ sym (get_elem?-set_self xs i y (omega (arith, h.count)))
          ∙ ap (get_elem? (set xs i y)) (sym q)
      | inr other ↦
          get_elem?-set_ne elems ((head + i) % total) ((head + j) % total) y (
            slots_apart head total i j h.head_in (omega (arith, h.fits)) (omega (arith, h.fits))
              other)
          ∙ h.slots j r
          ∙ sym (get_elem?-set_ne xs i j y (ne_of other))
    ];
  }
