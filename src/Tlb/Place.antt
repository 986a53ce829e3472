-- ===== src/Tlb/Place.antt =====
-- `MissEntry` and `WriteEntry` of Processor/tlb.cc for a direct mapped TLB: where a new mapping goes,
-- and that it is found there.
use ml_rsim.Prelude.{
  ℕ, zero, suc, ◌+◌, ◌-◌, ◌/◌, ◌%◌, ◌^◌, ◌≤◌, ◌<◌, ◌≡◌, ◌≢◌, refl, sym, ap, ◌∙◌, arith, true, false,
  some, ok, fatal, ltb, lt→ltb, get_elem?, get_elem?-some, get_elem?-set_self, set, ℤ, pos, negsuc,
  neg, rem,
}
use native.Mathlib.Nat.{mod-lt, mod-mod, zero-mod}
use ml_rsim.Tlb.{
  PageBits, frame, Entry, Tlb, direct_mapped, page_number, write_entry, miss_entry, miss_entry_as,
}
use ml_rsim.Tlb.LookUp.{
  Access, Looked, matches, translate, look_up, look_up_as, look_up_direct, Table,
}
use ml_rsim.Tlb.Search.{Maps-matches}
use ml_rsim.Tlb.Verdict.{Verdict, translate-Verdict}
use ml_rsim.Tlb.Answer.{IsTlb, page_number-eq}

abbrev place : Tlb → ℕ → ℕ
place t addr = page_number addr % t.size

le→ltb_false : (a b : ℕ) → b ≤ a → ltb a b ≡ false
le→ltb_false a b h = ground arith

-- What was written is what is found.
pub record Written (bits : PageBits) (m : Table) (t : Tlb) (addr context mapping : ℕ) : Type 0 where
  pub place : ℤ
  pub chosen : miss_entry t addr ≡ ok place
  pub after : Tlb
  pub stored : write_entry t place (frame addr + 1) context mapping ≡ ok after
  pub found :
      (a : Access)
      → a.addr / 4096 ≡ addr / 4096
      → a.context ≡ context
      → (x : Looked) × (look_up bits m after a ≡ ok x) × Verdict bits a mapping x

direct_hit :
    (bits : PageBits) (t : Tlb) (a : Access) (e : Entry)
    → get_elem? t.entries (page_number a.addr % t.size) ≡ some e
    → matches t a.addr a.context e ≡ true
    → look_up_direct bits t a ≡ ok (translate bits t a e.mapping)
unfolding look_up_direct
direct_hit bits t a e at m = rw at (rw m refl)

module _ (t : Tlb) (addr : ℕ) (h : IsTlb t) (direct : t.kind ≡ direct_mapped) where
  low_place : addr < 2 ^ 31 → miss_entry t addr ≡ ok (pos (place t addr))
  unfolding miss_entry miss_entry_as
  low_place low = ap (λ k. miss_entry_as k t addr) direct ∙ rw (lt→ltb addr (2 ^ 31) low) refl

  module _ (e : Entry) (context mapping : ℕ)
      (at : get_elem? t.entries (place t addr) ≡ some e) where
    new_entry : Entry
    new_entry = record e { tag = frame addr + 1; mapping = mapping; context = context }

    filled : Tlb
    unfolding new_entry
    filled = record t { entries = set t.entries (place t addr) new_entry }

    writes : write_entry t (pos (place t addr)) (frame addr + 1) context mapping ≡ ok filled
    unfolding write_entry filled new_entry
    writes = rw (mod-mod (page_number addr) t.size) (rw at refl)

    finds :
        (bits : PageBits) (m : Table) (a : Access)
        → a.addr / 4096 ≡ addr / 4096
        → a.context ≡ context
        → look_up bits m filled a ≡ ok (translate bits filled a mapping)
    unfolding look_up look_up_as filled new_entry
    finds bits m a p c =
        ap (λ k. look_up_as k bits m filled a) direct
        ∙ direct_hit bits filled a new_entry
            (ap (λ i. get_elem? filled.entries (i % t.size)) same_page
              ∙ get_elem?-set_self t.entries (place t addr) new_entry
                  (omega (arith, h.sized, mod-lt (page_number addr) h.positive)))
            (Maps-matches filled a new_entry
              (record { page = omega (arith, p); valid = omega arith; context = λ g. sym c }))
      where
        same_page : page_number a.addr ≡ page_number addr
        same_page = page_number-eq a.addr ∙ p ∙ sym (page_number-eq addr)

-- For an address below 2^31, `MissEntry` of a direct mapped TLB gives a place at which `WriteEntry`
-- stores a mapping that `LookUp` then finds for every access to the page in the same context.
pub miss_entry-Written :
    (bits : PageBits) (m : Table) (t : Tlb) (addr context mapping : ℕ)
    → IsTlb t
    → t.kind ≡ direct_mapped
    → addr < 2 ^ 31
    → Written bits m t addr context mapping
miss_entry-Written bits m t addr context mapping h direct low =
    let (e, at) =
      get_elem?-some t.entries (place t addr)
        (omega (arith, h.sized, mod-lt (page_number addr) h.positive)) in
    record {
      place = pos (place t addr);
      chosen = low_place t addr h direct low;
      after = filled t addr h direct e context mapping at;
      stored = writes t addr h direct e context mapping at;
      found = λ a p c. (
        translate bits (filled t addr h direct e context mapping at) a mapping,
        finds t addr h direct e context mapping at bits m a p c,
        translate-Verdict bits (filled t addr h direct e context mapping at) a mapping,
      );
    }

neg-negsuc : (n : ℕ) → n ≢ 0 → neg n ≡ negsuc (n - 1)
neg-negsuc zero h = absurd (h refl)
neg-negsuc (suc n) h = ap negsuc (omega arith)

suc-pred : (x : ℕ) → x ≢ 0 → suc (x - 1) ≡ x
suc-pred zero e = absurd (e refl)
suc-pred (suc x) e = omega arith

rem-neg : (n k : ℕ) → n % k ≢ 0 → rem (neg n) k ≡ negsuc (n % k - 1)
rem-neg n k h =
    ap (λ z. rem z k) (neg-negsuc n (λ e. h (ap (λ x. x % k) e ∙ zero-mod k)))
    ∙ ap (λ x. neg (x % k)) (suc-pred n (λ e. h (ap (λ x. x % k) e ∙ zero-mod k)))
    ∙ neg-negsuc (n % k) h

rem-negsuc : (n k : ℕ) → n % k ≢ 0 → 0 < k → rem (negsuc (n % k - 1)) k ≡ negsuc (n % k - 1)
rem-negsuc n k h p =
    ap neg (ap (λ x. x % k) (suc-pred (n % k) h) ∙ mod-mod n k) ∙ neg-negsuc (n % k) h

outside_write :
    (t : Tlb) (i : ℤ) (n tag context mapping : ℕ)
    → rem i t.size ≡ negsuc n
    → write_entry t i tag context mapping ≡ fatal
unfolding write_entry
outside_write t i n tag context mapping e = rw (e, write_entry) refl

-- For an address from 2^31 on, the place is negative, if the distance of the page to the end of the
-- addresses is not a multiple of the size, and `WriteEntry` there writes outside the array.
pub miss_entry-outside :
    (t : Tlb) (addr context mapping : ℕ)
    → 0 < t.size
    → t.kind ≡ direct_mapped
    → 2 ^ 31 ≤ addr
    → (0x10_0000 - addr / 4096) % t.size ≢ 0
    → (n : ℕ) × (miss_entry t addr ≡ ok (negsuc n))
      × (write_entry t (negsuc n) (frame addr + 1) context mapping ≡ fatal)
unfolding miss_entry miss_entry_as
miss_entry-outside t addr context mapping p direct high off =
    let n = 0x10_0000 - addr / 4096 in
    (
      n % t.size - 1,
      ap (λ k. miss_entry_as k t addr) direct
          ∙ rw (le→ltb_false addr (2 ^ 31) high) (
              ap (λ q. ok (rem (neg (0x10_0000 - q)) t.size)) (page_number-eq addr)
              ∙ ap ok (rem-neg n t.size off)),
      outside_write t (negsuc (n % t.size - 1)) (n % t.size - 1) (frame addr + 1) context mapping
          (rem-negsuc n t.size off p),
    )
