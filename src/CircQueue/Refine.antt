-- ===== src/CircQueue/Refine.antt =====
-- The queue of Processor/circq.h as a bounded list, the oldest element first.
use ml_rsim.Prelude.{
  ℕ, ◌+◌, ◌-◌, ◌%◌, ◌^◌, ◌≤◌, ◌<◌, ◌≡◌, refl, sym, ap, subst, ◌∙◌, inl, inr, arith, ◌==◌, true,
  false, Bool-cases, ne_zero, some, List, [], ◌∷◌, ◌++◌, length, get_elem?, set, leb, leb→le,
  leb_false→lt, bit_and, IsRing, IsRing-start, bump, push-IsRing, lt→leb_false, length-append,
  newest, pop_back-IsRing, replace-IsRing, get_elem?-none, push_front-IsRing, oldest, pop-IsRing,
}
use native.Mathlib.Nat.{mod-lt, pow-le-pow_right}
use ml_rsim.CircQueue.{
  CircQueue, word, start, insert, insert_at_head, delete, delete_from_tail, peek_elt, set_elt,
  to_power_of_2,
}
use ml_rsim.CircQueue.Slots.{next_slot, last_slot, offset_slot}
use ml_rsim.CircQueue.Power.{to_power_of_2-PowerAbove}

-- The queue holds `xs`.
pub record Holds {ℓ} {A : Type ℓ} (q : CircQueue A) (xs : List A) : Type ℓ where
  pub bits : ℕ
  pub narrow : bits ≤ 31
  pub size : q.sz ≡ 2 ^ bits
  pub ones : q.mask ≡ 2 ^ bits - 1
  pub bound : q.max_cnt ≤ q.sz
  pub within : q.cnt ≤ q.max_cnt
  pub ring : IsRing q.arr q.head q.tail q.sz q.cnt xs

narrow_bits : (b : ℕ) → 2 ^ b < 2 ^ 31 → b ≤ 31
narrow_bits b h = elim (Bool-cases (leb b 31)) [
  | inl fits ↦ leb→le b 31 fits
  | inr wide ↦ absurd (
      omega (
        arith,
        pow-le-pow_right {n = 2} (omega arith) {i = 31} {j = b}
            (omega (arith, leb_false→lt b 31 wide)),
      ))
]

-- An operation on `q` answers `v` and leaves `ys`.
abbrev pub Gives {ℓ κ} :
    {A : Type ℓ} {R : Type κ} → CircQueue A → CircQueue A × R → List A → R → Type (ℓ ⊔ κ)
Gives q r ys v = (r.1 ≡ v) × Holds r.0 ys × (r.0.max_cnt ≡ q.max_cnt)

module _ {ℓ} {A : Type ℓ} where
  -- `start` with a positive size, whatever the new array holds.
  pub start-Holds :
      (s : ℕ) (memory : List A)
      → 0 < s
      → s ≤ 2 ^ 30
      → length memory ≡ to_power_of_2 s
      → Holds (start s memory) []
  unfolding start
  start-Holds s memory p h e =
      let b = to_power_of_2-PowerAbove s p h in
      record {
        bits = b.bit;
        narrow = narrow_bits b.bit (omega (arith, b.at, b.below));
        size = b.at;
        ones = ap (λ n. n - 1) b.at;
        bound = b.above;
        within = omega arith;
        ring = IsRing-start (to_power_of_2 s) memory (omega (arith, b.above)) e;
      }

module _ {ℓ} {A : Type ℓ} (q : CircQueue A) (xs : List A) (h : Holds q xs) where
  pub tail_in : q.tail < 2 ^ h.bits
  tail_in = omega (arith, h.ring.tail_at, mod-lt (q.head + q.cnt) h.ring.positive, h.size)

  pub head_in : q.head < 2 ^ h.bits
  head_in = omega (arith, h.ring.head_in, h.size)

  forward : (x : ℕ) → x < 2 ^ h.bits → bit_and ((x + 1) % word) q.mask ≡ bump x q.sz
  forward x p =
      ap (bit_and ((x + 1) % word)) h.ones
      ∙ next_slot x h.bits h.narrow p
      ∙ ap (bump x) (sym h.size)

  backward :
      (x : ℕ) → x < 2 ^ h.bits → bit_and ((x + word - 1) % word) q.mask ≡ (x + (q.sz - 1)) % q.sz
  backward x p =
      ap (bit_and ((x + word - 1) % word)) h.ones
      ∙ last_slot x h.bits h.narrow p
      ∙ ap (λ n. (x + (n - 1)) % n) (sym h.size)

  offset : (i : ℕ) → i < q.cnt → bit_and ((q.head + i) % word) q.mask ≡ (q.head + i) % q.sz
  offset i p =
      ap (bit_and ((q.head + i) % word)) h.ones
      ∙ offset_slot q.head i h.bits h.narrow head_in (omega (arith, p, h.ring.fits, h.size))
      ∙ ap (λ n. (q.head + i) % n) (sym h.size)

  room : length xs < q.max_cnt → (q.cnt == q.max_cnt) ≡ false
  room p = ground (arith, h.ring.count, p)

  rebuild :
      (arr : List A) (head tail cnt : ℕ) (ys : List A)
      → cnt ≤ q.max_cnt
      → IsRing arr head tail q.sz cnt ys
      → Holds (record q { arr = arr; head = head; tail = tail; cnt = cnt }) ys
  rebuild arr head tail cnt ys p r = record {
    bits = h.bits;
    narrow = h.narrow;
    size = h.size;
    ones = h.ones;
    bound = h.bound;
    within = p;
    ring = r;
  }

  pub insert-Gives : (x : A) → length xs < q.max_cnt → Gives q (insert q x) (xs ++ x ∷ []) true
  unfolding insert
  insert-Gives x r = rw (room r) (
    refl,
    rebuild (set q.arr q.tail x) q.head (bit_and ((q.tail + 1) % word) q.mask) (q.cnt + 1)
        (xs ++ x ∷ []) (omega (arith, r, h.ring.count))
        (rw (forward q.tail tail_in)
          (push-IsRing x h.ring (omega (arith, r, h.ring.count, h.bound)))),
    refl,
  )

  pub insert_at_head-Gives :
      (x : A) → length xs < q.max_cnt → Gives q (insert_at_head q x) (x ∷ xs) true
  unfolding insert_at_head
  insert_at_head-Gives x r = rw (room r) (
    refl,
    rebuild (set q.arr (bit_and ((q.head + word - 1) % word) q.mask) x)
        (bit_and ((q.head + word - 1) % word) q.mask) q.tail (q.cnt + 1) (x ∷ xs)
        (omega (arith, r, h.ring.count))
        (rw (backward q.head head_in)
          (push_front-IsRing x h.ring (omega (arith, r, h.ring.count, h.bound)))),
    refl,
  )

  pub delete-Gives : (y : A) (ys : List A) → xs ≡ y ∷ ys → Gives q (delete q) ys (some y)
  unfolding delete
  delete-Gives y ys e =
      let ring = subst (IsRing q.arr q.head q.tail q.sz q.cnt) e h.ring in
      rw (ne_zero q.cnt (omega (arith, ring.count))) (
        oldest ring (omega (arith, ring.count)),
        rebuild q.arr (bit_and ((q.head + 1) % word) q.mask) q.tail (q.cnt - 1) ys
            (omega (arith, h.within)) (rw (forward q.head head_in) (pop-IsRing ring)),
        refl,
      )

  pub delete_from_tail-Gives :
      (ys : List A) (y : A) → xs ≡ ys ++ y ∷ [] → Gives q (delete_from_tail q) ys (some y)
  unfolding delete_from_tail
  delete_from_tail-Gives ys y e =
      let ring = subst (IsRing q.arr q.head q.tail q.sz q.cnt) e h.ring in
      rw (ne_zero q.cnt (omega (arith, ring.count, length-append ys (y ∷ [])))) (
        rw (backward q.tail tail_in) (newest ys y ring),
        rebuild q.arr q.head (bit_and ((q.tail + word - 1) % word) q.mask) (q.cnt - 1) ys
            (omega (arith, h.within)) (rw (backward q.tail tail_in) (pop_back-IsRing ys y ring)),
        refl,
      )

  pub set_elt-Gives : (y : A) (i : ℕ) → i < length xs → Gives q (set_elt q y i) (set xs i y) true
  unfolding set_elt
  set_elt-Gives y i p = rw (lt→leb_false q.cnt i (omega (arith, p, h.ring.count))) (
    refl,
    rebuild (set q.arr (bit_and ((q.head + i) % word) q.mask) y) q.head q.tail q.cnt (set xs i y)
        h.within
        (rw (offset i (omega (arith, p, h.ring.count)))
          (replace-IsRing xs i y h.ring (omega (arith, p, h.ring.count)))),
    refl,
  )

  pub peek_elt-eq : (i : ℕ) → peek_elt q i ≡ get_elem? xs i
  unfolding peek_elt
  peek_elt-eq i = elim (Bool-cases (leb q.cnt i)) [
    | inl past ↦
        rw past (sym (get_elem?-none xs i (omega (arith, leb→le q.cnt i past, h.ring.count))))
    | inr inside ↦
        let p = leb_false→lt q.cnt i inside in
        rw inside (ap (get_elem? q.arr) (offset i p) ∙ h.ring.slots i p)
  ]
