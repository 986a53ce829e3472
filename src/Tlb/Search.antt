-- ===== src/Tlb/Search.antt =====
-- The searches of Processor/tlb.cc: each sees all entries that may hold the page.
use ml_rsim.Prelude.{
  ℕ, zero, suc, ◌+◌, ◌/◌, ◌%◌, ◌<◌, ◌≡◌, refl, sym, ap, ◌∙◌, inl, inr, arith, true, false,
  Bool-cases, Option, none, some, Checked, ok, length, get_elem?, get_elem?-some,
}
use native.Mathlib.Nat.{mod-lt, mod-eq_of_lt, mod-add-mod}
use ml_rsim.Tlb.{Entry, Tlb}
use ml_rsim.Tlb.LookUp.{Access, matches, ring_search}

-- The entry maps the page of the access: it is valid, for the same page, and, where entries carry a
-- context, for the same context.
pub record Maps (t : Tlb) (a : Access) (e : Entry) : Type 0 where
  pub page : e.tag / 4096 ≡ a.addr / 4096
  pub valid : e.tag % 2 ≡ 1
  pub context : t.tagged ≡ true → e.context ≡ a.context

module _ (t : Tlb) (a : Access) where
  pub matches-Maps : (e : Entry) → matches t a.addr a.context e ≡ true → Maps t a e
  unfolding matches
  matches-Maps e h = record {
    page = ground (arith, h);
    valid = ground (arith, h);
    context = λ g. ground (arith, h, g);
  }

  pub Maps-matches : (e : Entry) → Maps t a e → matches t a.addr a.context e ≡ true
  unfolding matches
  Maps-matches e m = elim (Bool-cases t.tagged) [
    | inl g ↦ ground (arith, m.context g, g)
    | inr g ↦ ground (arith, g)
  ]

  -- An entry that is found, or none of the `n` from `index` on, round the array, matches.
  pub data RingSought (n index : ℕ) (r : Checked (ℕ × Option Entry)) : Type 0 where
    found :
        (i : ℕ) (e : Entry)
        → r ≡ ok (i, some e)
        → i < t.size
        → get_elem? t.entries i ≡ some e
        → matches t a.addr a.context e ≡ true
        → RingSought n index r
    nowhere :
        r ≡ ok ((index + n) % t.size, none)
        → ((j : ℕ) (e : Entry)
            → j < n
            → get_elem? t.entries ((index + j) % t.size) ≡ some e
            → matches t a.addr a.context e ≡ false)
        → RingSought n index r

  here :
      (n index : ℕ) (e : Entry)
      → get_elem? t.entries index ≡ some e
      → matches t a.addr a.context e ≡ true
      → ring_search t a (suc n) index ≡ ok (index, some e)
  unfolding ring_search
  here n index e at m = rw at (rw m refl)

  onward :
      (n index : ℕ) (e : Entry)
      → get_elem? t.entries index ≡ some e
      → matches t a.addr a.context e ≡ false
      → ring_search t a (suc n) index ≡ ring_search t a n ((index + 1) % t.size)
  unfolding ring_search
  onward n index e at m = rw at (rw m refl)

  same_entry : {e e' : Entry} {o : Option Entry} → o ≡ some e → o ≡ some e' → e ≡ e'
  same_entry p q = cc

  module _ (sized : length t.entries ≡ t.size) where
    pub ring_search-RingSought :
        (n index : ℕ) → index < t.size → RingSought n index (ring_search t a n index)
    unfolding ring_search
    ring_search-RingSought zero index p =
        nowhere (ap (λ i. ok (i, none)) (sym (mod-eq_of_lt p) ∙ ap (λ i. i % t.size) (omega arith)))
          (λ j e lt u. absurd (omega arith))
    ring_search-RingSought (suc n) index p =
        let (e, at) = get_elem?-some t.entries index (omega (arith, sized, p)) in
        elim (Bool-cases (matches t a.addr a.context e)) [
          | inl m ↦ found index e (here n index e at m) p at m
          | inr m ↦ extend e at m (
              ring_search-RingSought n ((index + 1) % t.size)
                (mod-lt (index + 1) (omega (arith, p))))
        ]
      where
        extend :
            (e : Entry)
            → get_elem? t.entries index ≡ some e
            → matches t a.addr a.context e ≡ false
            → RingSought n ((index + 1) % t.size) (ring_search t a n ((index + 1) % t.size))
            → RingSought (suc n) index (ring_search t a (suc n) index)
        extend e at m (found i u r lt f g) = found i u (onward n index e at m ∙ r) lt f g
        extend e at m (nowhere r all) =
            nowhere (onward n index e at m ∙ r ∙ ap (λ i. ok (i, none)) (shift n)) rest
          where
            shift : (j : ℕ) → ((index + 1) % t.size + j) % t.size ≡ (index + suc j) % t.size
            shift j = mod-add-mod (index + 1) t.size j ∙ ap (λ i. i % t.size) (omega arith)

            rest :
                (j : ℕ) (u : Entry)
                → j < suc n
                → get_elem? t.entries ((index + j) % t.size) ≡ some u
                → matches t a.addr a.context u ≡ false
            rest zero u lt f =
                let start : (index + 0) % t.size ≡ index =
                  ap (λ i. i % t.size) (omega arith) ∙ mod-eq_of_lt p in
                ap (matches t a.addr a.context)
                  (same_entry (sym (ap (get_elem? t.entries) start) ∙ f) at)
                ∙ m
            rest (suc j) u lt f =
                all j u (omega (arith, lt)) (ap (get_elem? t.entries) (shift j) ∙ f)
