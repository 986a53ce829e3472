-- ===== src/Tlb/LookUp.antt =====
-- `LookUp` of Processor/tlb.cc, one search for each kind of TLB.
use ml_rsim.Prelude.{
  ℕ, zero, suc, ◌+◌, ◌-◌, ◌*◌, ◌/◌, ◌%◌, ◌^◌, Bool, true, false, not, ◌&&◌, ◌||◌, Option, none,
  some, List, Checked, ok, deref, ◌>>=◌, ltb, ◌==◌, if◌then◌else◌, get_elem?, set, max,
}
use Prim.Native.Nat.{bit_or}
use ml_rsim.Tlb.{
  PageBits, is_valid, frame, offset, TlbType, fully_assoc, set_assoc, direct_mapped, perfect, Entry,
  Tlb, page_number,
}

-- TLB_HIT, TLB_MISS and TLB_FAULT
pub data Answer : Type 0 where
  hit miss fault : Answer

-- What the call leaves in `*address` and `*attributes`
pub record Looked : Type 0 where
  pub tlb : Tlb
  pub answer : Answer
  pub address : ℕ
  pub attributes : ℕ

-- The test of an entry
unfoldable pub matches : Tlb → ℕ → ℕ → Entry → Bool
matches t addr context e =
    (frame e.tag == frame addr)
    && is_valid e.tag
    && ((t.tagged && (e.context == context)) || not t.tagged)

-- The access to a page: whether it is a write, and whether it is privileged
pub record Access : Type 0 where
  pub addr : ℕ
  pub context : ℕ
  pub write : Bool
  pub priv : Bool

-- A translation by the entry that matches
unfoldable pub translate : PageBits → Tlb → Access → ℕ → Looked
translate bits t a mapping =
    let refused : Looked = record {
      tlb = t;
      answer = fault;
      address = a.addr;
      attributes = offset mapping;
    } in
    if a.write && bits.is_rdonly mapping
    then refused
    else if not a.priv && bits.is_priv mapping
    then refused
    else if bits.is_mapped mapping
    then record {
      tlb = t;
      answer = hit;
      address = frame mapping + offset a.addr;
      attributes = offset mapping;
    }
    else refused

abbrev pub not_found : Tlb → Access → Looked
not_found t a = record { tlb = t; answer = miss; address = a.addr; attributes = 0 }

-- The loop over all entries from `index` on, and where it ends
unfoldable pub ring_search : Tlb → Access → ℕ → ℕ → Checked (ℕ × Option Entry)
ring_search t a zero index = ok (index, none)
ring_search t a (suc n) index = do
  e ← deref (get_elem? t.entries index)
  let rest = ring_search t a n ((index + 1) % t.size)
  if matches t a.addr a.context e then ok (index, some e) else rest

-- The loop over a set, from its entry `i` on
unfoldable pub set_search : Tlb → Access → ℕ → ℕ → ℕ → Checked (Option (ℕ × Entry))
set_search t a base zero i = ok none
set_search t a base (suc n) i = do
  e ← deref (get_elem? t.entries (base + i))
  let rest = set_search t a base n (i + 1)
  if matches t a.addr a.context e then ok (some (i, e)) else rest

-- The ages of the set behind a hit in its entry `found`
unfoldable pub touch_set : ℕ → ℕ → ℕ → ℕ → ℕ → List Entry → Checked (List Entry)
touch_set base found old_age zero i es = ok es
touch_set base found old_age (suc n) i es = do
  e ← deref (get_elem? es (base + i))
  touch_set base found old_age n (i + 1) (
      if not (i == found) && ltb old_age e.age
      then set es (base + i) (record e { age = e.age - 1 })
      else es)

unfoldable pub use_set : Tlb → ℕ → ℕ → Entry → Checked Tlb
use_set t base found e = do
  es ←
      touch_set base found e.age t.associativity 0
        (set t.entries (base + found) (record e { age = t.associativity - 1 }))
  ok (record t { entries = es })

unfoldable pub is_hit : Answer → Bool
is_hit hit = true
is_hit miss = false
is_hit fault = false

-- A fully associative TLB
unfoldable pub look_up_full : PageBits → Tlb → Access → Checked Looked
look_up_full bits t a = do
  (index, found) ← ring_search t a (max 1 t.size) t.index
  elim found [
    | none ↦ ok (not_found (record t { index = index }) a)
    | some e ↦ ok (translate bits (record t { index = index }) a e.mapping)
  ]

-- A set associative TLB: only a hit changes the ages.
unfoldable pub answer_set : PageBits → Tlb → Access → ℕ → Option (ℕ × Entry) → Checked Looked
answer_set bits t a base none = ok (not_found t a)
answer_set bits t a base (some (i, e)) =
    let result = translate bits t a e.mapping in
    let used = use_set t base i e >>= λ t'. ok (record result { tlb = t' }) in
    if is_hit result.answer then used else ok result

unfoldable pub look_up_set : PageBits → Tlb → Access → Checked Looked
look_up_set bits t a = do
  let base = page_number a.addr % (t.size / t.associativity) * t.associativity
  found ← set_search t a base (max 1 t.associativity) 0
  answer_set bits t a base found

-- A direct mapped TLB
unfoldable pub look_up_direct : PageBits → Tlb → Access → Checked Looked
look_up_direct bits t a = do
  e ← deref (get_elem? t.entries (page_number a.addr % t.size))
  if matches t a.addr a.context e then ok (translate bits t a e.mapping) else ok (not_found t a)

-- The page table walk of a perfect TLB: the register with the address of the table, and the memory
pub record Table : Type 0 where
  pub context_register : ℕ
  pub read : ℕ → ℕ

-- `x & ~3`
abbrev pub word_aligned : ℕ → ℕ
word_aligned x = x / 4 * 4

abbrev pub first_level : Table → ℕ → ℕ
first_level m addr = word_aligned ((m.context_register + addr / 2 ^ 20) % 2 ^ 32)

abbrev pub second_level : ℕ → ℕ → ℕ
second_level entry addr = bit_or (word_aligned entry) (word_aligned (addr / 2 ^ 10 % 4096))

abbrev pub refuse : Tlb → Access → Looked
refuse t a = record { tlb = t; answer = fault; address = a.addr; attributes = 0 }

-- The entry found is written before the access is checked.
unfoldable pub walk : PageBits → Table → Tlb → Access → Checked Looked
walk bits m t a = do
  let entry = m.read (first_level m a.addr)
  let mapping = m.read (second_level entry a.addr)
  let filled = deref (get_elem? t.entries t.index) >>= λ e. ok (record t {
    entries =
        set t.entries t.index
          (record e { tag = frame a.addr + 1; mapping = mapping; context = a.context });
  })
  if not (bits.is_mapped entry)
      then ok (refuse t a)
      else if not (bits.is_mapped mapping)
      then ok (refuse t a)
      else (do
        t' ← filled
        if a.write && bits.is_rdonly mapping
            then ok (refuse t' a)
            else if not a.priv && bits.is_priv mapping
            then ok (refuse t' a)
            else ok (record {
              tlb = t';
              answer = hit;
              address = frame mapping + offset a.addr;
              attributes = offset mapping;
            }))

unfoldable pub look_up_perfect : PageBits → Table → Tlb → Access → Checked Looked
look_up_perfect bits m t a = do
  (index, found) ← ring_search t a (max 1 t.size) t.index
  elim found [
    | none ↦ walk bits m (record t { index = index }) a
    | some e ↦ ok (translate bits (record t { index = index }) a e.mapping)
  ]

-- `switch (type)`
unfoldable pub look_up_as : TlbType → PageBits → Table → Tlb → Access → Checked Looked
look_up_as perfect bits m t a = look_up_perfect bits m t a
look_up_as fully_assoc bits m t a = look_up_full bits t a
look_up_as set_assoc bits m t a = look_up_set bits t a
look_up_as direct_mapped bits m t a = look_up_direct bits t a

-- `LookUp`
unfoldable pub look_up : PageBits → Table → Tlb → Access → Checked Looked
look_up bits m t a = look_up_as t.kind bits m t a
