-- ===== src/CircQueue.antt =====
-- Processor/circq.h, the bounded queue on an array whose size is a power of two, and ToPowerOf2 of
-- sim_main/util.h. `head` and `tail` are unsigned; a slot of the array that was never written holds
-- whatever the memory held.
mod Tests
pub mod Power
pub mod Slots
pub mod Refine
pub mod Deque
pub mod Search
use ml_rsim.Prelude.{
  ℕ, zero, suc, ◌+◌, ◌-◌, ◌*◌, ◌/◌, ◌%◌, ◌^◌, Bool, true, false, Option, none, some, List, Checked,
  ok, fatal, deref, ◌>>=◌, ltb, leb, ◌==◌, if◌then◌else◌, length, get_elem?, set, bit_and,
}

-- `while (n >>= 1) t++;`, by the bits of `n` at most
unfoldable pub count_bits : ℕ → ℕ → ℕ → ℕ
count_bits zero n t = t
count_bits (suc fuel) n t =
    let more = count_bits fuel (n / 2) (t + 1) in if n / 2 == 0 then t else more

-- `ToPowerOf2`; an `int` has 31 bits.
unfoldable pub to_power_of_2 : ℕ → ℕ
to_power_of_2 n = if n == 0 then 0 else 2 ^ count_bits 31 (n + (n - 1)) 0

abbrev pub word : ℕ
word = 2 ^ 32

module _ {ℓ} (A : Type ℓ) where
  pub record CircQueue : Type ℓ where
    pub arr : List A
    pub sz : ℕ
    pub mask : ℕ
    pub head : ℕ
    pub tail : ℕ
    pub cnt : ℕ
    pub max_cnt : ℕ

-- What a probe of the search finds.
pub data Probe {ℓ} (A : Type ℓ) : Type ℓ where
  fault : Probe A
  equal : A → Probe A
  below : Probe A
  above : Probe A

module _ {ℓ} {A : Type ℓ} where
  -- `start`, with what the new array holds
  unfoldable pub start : ℕ → List A → CircQueue A
  start s memory = record {
    arr = memory;
    sz = to_power_of_2 s;
    mask = to_power_of_2 s - 1;
    head = 0;
    tail = 0;
    cnt = 0;
    max_cnt = s;
  }

  -- `Insert`, with whether there was room
  unfoldable pub insert : CircQueue A → A → CircQueue A × Bool
  insert q d = if q.cnt == q.max_cnt then (q, false) else (
    record q {
      cnt = q.cnt + 1;
      arr = set q.arr q.tail d;
      tail = bit_and ((q.tail + 1) % word) q.mask;
    },
    true,
  )

  -- `InsertAtHead`
  unfoldable pub insert_at_head : CircQueue A → A → CircQueue A × Bool
  insert_at_head q d =
      let head = bit_and ((q.head + word - 1) % word) q.mask in
      if q.cnt == q.max_cnt
      then (q, false)
      else (record q { cnt = q.cnt + 1; head = head; arr = set q.arr head d }, true)

  -- `Delete`; `none` is the answer 0.
  unfoldable pub delete : CircQueue A → CircQueue A × Option A
  delete q = if q.cnt == 0 then (q, none) else (
    record q { cnt = q.cnt - 1; head = bit_and ((q.head + 1) % word) q.mask },
    get_elem? q.arr q.head,
  )

  -- `DeleteFromTail`
  unfoldable pub delete_from_tail : CircQueue A → CircQueue A × Option A
  delete_from_tail q =
      let tail = bit_and ((q.tail + word - 1) % word) q.mask in
      if q.cnt == 0
      then (q, none)
      else (record q { cnt = q.cnt - 1; tail = tail }, get_elem? q.arr tail)

  -- `PeekHead`, `PeekTail` and `PeekElt`
  unfoldable pub peek_head : CircQueue A → Option A
  peek_head q = if q.cnt == 0 then none else get_elem? q.arr q.head

  unfoldable pub peek_tail : CircQueue A → Option A
  peek_tail q =
      if q.cnt == 0 then none else get_elem? q.arr (bit_and ((q.tail + word - 1) % word) q.mask)

  unfoldable pub peek_elt : CircQueue A → ℕ → Option A
  peek_elt q ind =
      if leb q.cnt ind then none else get_elem? q.arr (bit_and ((q.head + ind) % word) q.mask)

  -- `SetElt`
  unfoldable pub set_elt : CircQueue A → A → ℕ → CircQueue A × Bool
  set_elt q d ind =
      if leb q.cnt ind
      then (q, false)
      else (record q { arr = set q.arr (bit_and ((q.head + ind) % word) q.mask) d }, true)

  -- `reset`
  unfoldable pub reset : CircQueue A → CircQueue A
  reset q = record q { cnt = 0; head = 0; tail = 0 }

  -- `res = TAG_CMP(arr[mid & mask], key)`
  unfoldable pub probe : (A → ℕ) → CircQueue A → ℕ → ℕ → Probe A
  probe tag q key mid = elim (get_elem? q.arr (bit_and mid q.mask)) [
    | none ↦ fault
    | some d ↦ if tag d == key then equal d else if ltb (tag d) key then below else above
  ]

  -- The loop of `Search`, with `hi + 1` for `hi`, which is -1 in a queue that begins in slot 0 and has
  -- lost all that follows
  unfoldable pub search_loop : (A → ℕ) → CircQueue A → ℕ → ℕ → ℕ → ℕ → Checked (Option A)
  search_loop tag q key zero lo end = fatal
  search_loop tag q key (suc fuel) lo end =
      let mid = (lo + end - 1) / 2 in
      let next : Checked (Option A) = elim (probe tag q key mid) [
        | fault ↦ fatal
        | equal d ↦ ok (some d)
        | below ↦ search_loop tag q key fuel (mid + 1) end
        | above ↦ search_loop tag q key fuel lo mid
      ] in
      if ltb lo end then next else ok none

  -- `Search` of a tag: `lo = head; hi = tail - 1; if (hi < lo) hi += sz;`
  unfoldable pub search : (A → ℕ) → CircQueue A → ℕ → Checked (Option A)
  search tag q key =
      search_loop tag q key (q.sz + 1) q.head (if leb q.tail q.head then q.tail + q.sz else q.tail)
