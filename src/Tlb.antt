-- ===== src/Tlb.antt =====
-- Processor/tlb.cc, the translation lookaside buffer. Addresses, tags and data are unsigned numbers
-- below 2^32. The bits of a page table entry are named in a header of the simulated kernel: the tests
-- of them are a parameter, and so is the memory that a table walk reads.
mod Tests
pub mod LookUp
pub mod Fill
pub mod Search
pub mod Sets
pub mod Verdict
pub mod Answer
pub mod Place
pub mod Walk
use ml_rsim.Prelude.{
  ℕ, zero, suc, ◌+◌, ◌-◌, ◌*◌, ◌/◌, ◌%◌, Bool, true, false, not, ◌&&◌, ◌||◌, Option, none, some,
  List, [], ◌∷◌, map, Checked, ok, fatal, deref, ◌>>=◌, ltb, leb, ◌==◌, if◌then◌else◌, get_elem?,
  set, replicate, ℤ, pos, negsuc, neg, rem,
}
use Prim.Native.Nat.{bit_or}

-- MAP_VALID, MAP_RDONLY and MAP_PRIVILEGED of a page table entry
pub record PageBits : Type 0 where
  pub is_mapped : ℕ → Bool
  pub is_rdonly : ℕ → Bool
  pub is_priv : ℕ → Bool

abbrev pub page_size : ℕ
page_size = 4096

-- `tlb_valid`, `tlb_tag` and `tlb_data`, `tlb_offset` and `tlb_attr`
abbrev pub is_valid : ℕ → Bool
is_valid a = a % 2 == 1

abbrev pub frame : ℕ → ℕ
frame a = a / page_size * page_size

abbrev pub offset : ℕ → ℕ
offset a = a % page_size

pub data TlbType : Type 0 where
  fully_assoc set_assoc direct_mapped perfect : TlbType

-- `struct tlb_entry`
pub record Entry : Type 0 where
  pub tag : ℕ
  pub mapping : ℕ
  pub context : ℕ
  pub age : ℕ

pub record Tlb : Type 0 where
  pub kind : TlbType
  pub size : ℕ
  pub associativity : ℕ
  pub tagged : Bool
  pub entries : List Entry
  pub index : ℕ
  pub fill_addr : ℕ
  pub fill_data : ℕ
  pub fill_index : ℤ
  pub fill_context : ℕ

abbrev pub cleared : Entry
cleared = record { tag = 0; mapping = 0; context = 0; age = 0 }

-- The constructor; the fields of a fill are not set, here 0.
unfoldable pub new_tlb : TlbType → ℕ → ℕ → Bool → Tlb
new_tlb kind sz assoc tagged = record {
  kind = kind;
  size = sz;
  associativity = assoc;
  tagged = tagged;
  entries = replicate sz cleared;
  index = 0;
  fill_addr = 0;
  fill_data = 0;
  fill_index = pos 0;
  fill_context = 0;
}

-- `ProbeEntry`: the first entry with the page, none for 0x80000000
unfoldable pub probe_from : ℕ → List Entry → ℕ → Option ℕ
probe_from n [] tag = none
probe_from n (e ∷ es) tag =
    let rest = probe_from (n + 1) es tag in
    if (frame e.tag == frame tag) && is_valid e.tag then some n else rest

unfoldable pub probe_entry : Tlb → ℕ → Option ℕ
probe_entry t tag = probe_from 0 t.entries tag

abbrev untagged : Entry → Entry
untagged e = record e { tag = 0 }

-- `Flush`
unfoldable pub flush : Tlb → Tlb
flush t = if t.tagged then t else record t { entries = map untagged t.entries }

-- `ReadEntry`
unfoldable pub read_entry : Tlb → ℤ → Checked (ℕ × ℕ × ℕ)
read_entry t (negsuc n) = fatal
read_entry t (pos n) =
    if leb t.size n
    then fatal
    else (do e ← deref (get_elem? t.entries n); ok (e.tag, e.mapping, e.context))

-- `WriteEntry`: the remainder of a negative number is an index outside the array, or 0.
unfoldable pub write_entry : Tlb → ℤ → ℕ → ℕ → ℕ → Checked Tlb
write_entry t entry tag context mapping = elim (rem entry t.size) [
  | negsuc n ↦ fatal
  | pos n ↦ do
    e ← deref (get_elem? t.entries n)
    ok (record t {
      entries = set t.entries n (record e { tag = tag; mapping = mapping; context = context });
    })
]

-- `while (n != 1) { n = n >> 1; base = base >> 1; }` from n = PAGE_SIZE
unfoldable pub page_loop : ℕ → ℕ → ℕ → ℕ
page_loop zero n base = base
page_loop (suc fuel) n base =
    let more = page_loop fuel (n / 2) (base / 2) in if n == 1 then base else more

abbrev pub page_number : ℕ → ℕ
unfolding page_loop
page_number addr = page_loop 32 page_size addr

-- That loop on an `int`: a shift of a negative number rounds down.
abbrev pub signed_page : ℕ → ℤ
signed_page addr =
    if ltb addr 0x8000_0000 then pos (page_number addr) else neg (0x10_0000 - page_number addr)

-- The last entry of age 0 of the `n` from `base + i` on, else `best`
unfoldable pub oldest_in : List Entry → ℕ → ℕ → ℕ → ℤ → Checked ℤ
oldest_in es base i zero best = ok best
oldest_in es base i (suc n) best = do
  e ← deref (get_elem? es (base + i))
  oldest_in es base (i + 1) n (if e.age == 0 then pos (base + i) else best)

-- The first entry that is not valid of the `n` from `base + i` on
unfoldable pub invalid_in : List Entry → ℕ → ℕ → ℕ → Checked (Option ℕ)
invalid_in es base i zero = ok none
invalid_in es base i (suc n) = do
  e ← deref (get_elem? es (base + i))
  let rest = invalid_in es base (i + 1) n
  if is_valid e.tag then rest else ok (some (base + i))

-- The choice in a set
unfoldable pub miss_in_set : Tlb → ℤ → Checked ℤ
miss_in_set t (negsuc b) = fatal
miss_in_set t (pos b) = do
  found ← invalid_in t.entries (b * t.associativity) 0 t.associativity
  elim found [
    | some i ↦ ok (pos i)
    | none ↦ oldest_in t.entries (b * t.associativity) 0 t.associativity (negsuc 0)
  ]

-- The kinds in `MissEntry`
unfoldable pub miss_entry_as : TlbType → Tlb → ℕ → Checked ℤ
miss_entry_as fully_assoc t addr = ok (pos 0)
miss_entry_as direct_mapped t addr = ok (rem (signed_page addr) t.size)
miss_entry_as set_assoc t addr = miss_in_set t (rem (signed_page addr) (t.size / t.associativity))
miss_entry_as perfect t addr = ok (pos 0)

-- `MissEntry`
unfoldable pub miss_entry : Tlb → ℕ → Checked ℤ
miss_entry t addr = miss_entry_as t.kind t addr
