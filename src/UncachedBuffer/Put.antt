-- ===== src/UncachedBuffer/Put.antt =====
-- The insertion of a request into an entry, in Caches/ubuf.c.
use ml_rsim.Prelude.{
  ℕ, ◌+◌, ◌/◌, ◌≤◌, ◌<◌, ◌≡◌, ◌≢◌, inl, inr, refl, sym, ap, ◌∙◌, arith, true, false, Bool-cases,
  Option, none, some, List, ok, ◌==◌, if◌then◌else◌, length, get_elem?, get_elem?-some,
  get_elem?-set_self, get_elem?-set_ne, length-set, index_in, set, replicate, bit_and, subst,
}
use native.Mathlib.Nat.{mod-lt}
use ml_rsim.UncachedBuffer.{is_read, Req, Item, Buffer, slot, Added, put_in}
use ml_rsim.UncachedBuffer.Add.{Sized, Open, Hit}

module _ (b : Buffer) (r : Req) where
  -- The request stands in item `m`, in the slot of its address, whose slots held `old` before; the
  -- request that it replaces is returned, and no other item is touched.
  pub record Put (m : ℕ) (old : List (Option Req)) (a : Added) : Type 0 where
    pub taken : a.consumed ≡ true
    pub item : Item
    pub at : get_elem? a.buffer.entries m ≡ some item
    pub here : get_elem? item.reqs (slot b r) ≡ some (some r)
    pub others : (j : ℕ) → slot b r ≢ j → get_elem? item.reqs j ≡ get_elem? old j
    pub returned : get_elem? old (slot b r) ≡ some a.overwritten
    pub hit : Hit b r item
    pub opened : Open item r
    pub rest : (i : ℕ) → m ≢ i → get_elem? a.buffer.entries i ≡ get_elem? b.entries i
    pub counted : a.buffer.cur_reads ≡ (if is_read r.kind then b.cur_reads + 1 else b.cur_reads)
    pub sized : Sized a.buffer

  put_item : List (Option Req) → Item
  put_item old = record {
    reqs = set old (slot b r) (some r);
    fence = false;
    address = bit_and r.paddr b.line_mask;
    kind = r.kind;
    busy = false;
  }

  module _ (s : Sized b) where
    slot_in : slot b r < b.entrysz
    slot_in = mod-lt (r.paddr / 4) s.slots

    items_sized :
        (m : ℕ) (old : List (Option Req))
        → length old ≡ b.entrysz
        → (n : ℕ) (it : Item) → get_elem? (set b.entries m (put_item old)) n ≡ some it
        → length it.reqs ≡ b.entrysz
    unfolding put_item
    items_sized m old len n it e = elim (Bool-cases (m == n)) [
      | inl q ↦
          let same : m ≡ n = ground (arith, q) in
          let lt : m < length b.entries = omega (
            arith,
            length-set b.entries m (put_item old),
            same,
            index_in (set b.entries m (put_item old)) n e,
          ) in
          let f : get_elem? (set b.entries m (put_item old)) n ≡ some (put_item old) =
            subst (λ (i : ℕ). get_elem? (set b.entries m (put_item old)) i ≡ some (put_item old))
              same (get_elem?-set_self b.entries m (put_item old) lt) in
          let g : put_item old ≡ it = cc (e, f) in
          subst (λ (i : Item). length i.reqs ≡ b.entrysz) g
            (length-set old (slot b r) (some r) ∙ len)
      | inr q ↦
          s.items n it
            (sym (get_elem?-set_ne b.entries m n (put_item old) (λ h. ground (arith, q, h))) ∙ e)
    ]

    module _ (m : ℕ) (lt : m < b.size) where
      inserted :
          (old : List (Option Req)) (len : length old ≡ b.entrysz) (o : Option Req)
          → get_elem? old (slot b r) ≡ some o
          → (a : Added) → a.consumed ≡ true
          → a.overwritten ≡ o
          → a.buffer.entries ≡ set b.entries m (put_item old)
          → a.buffer.cur_reads ≡ (if is_read r.kind then b.cur_reads + 1 else b.cur_reads)
          → Sized a.buffer
          → Put m old a
      unfolding put_item
      inserted old len o e a c w f g z = record {
        taken = c;
        item = put_item old;
        at =
            ap (λ (l : List Item). get_elem? l m) f
            ∙ get_elem?-set_self b.entries m (put_item old) (omega (arith, s.all, lt));
        here = get_elem?-set_self old (slot b r) (some r) (omega (arith, len, slot_in));
        others = λ j q. get_elem?-set_ne old (slot b r) j (some r) q;
        returned = e ∙ ap some (sym w);
        hit = refl;
        opened = record { of_kind = refl; unfenced = refl; idle = refl };
        rest = λ i q.
            ap (λ (l : List Item). get_elem? l i) f
            ∙ get_elem?-set_ne b.entries m i (put_item old) q;
        counted = g;
        sized = z;
      }

      -- The insertion into a slot array `old`, by what `put_in` computes
      pub insert_at :
          (it : Item) (old : List (Option Req)) (num : ℕ)
          → get_elem? b.entries m ≡ some it
          → (if m == b.num_entries then replicate b.entrysz none else it.reqs) ≡ old
          → (if m == b.num_entries then b.num_entries + 1 else b.num_entries) ≡ num
          → length old ≡ b.entrysz
          → num ≤ b.size
          → (a : Added) × (put_in b r m ≡ ok a) × (a.buffer.num_entries ≡ num) × Put m old a
      unfolding put_in put_item
      insert_at it old num at e f len le =
          let (o, g) = get_elem?-some old (slot b r) (omega (arith, len, slot_in)) in
          rw at (
            rw e (
              rw g (
                _,
                refl,
                f,
                inserted old len o g _ refl refl refl refl (record {
                  all = length-set b.entries m _ ∙ s.all;
                  fits = omega (arith, f, le);
                  slots = s.slots;
                  items = items_sized m old len;
                }),
              )))
