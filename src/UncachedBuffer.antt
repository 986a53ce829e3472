-- ===== src/UncachedBuffer.antt =====
-- Caches/ubuf.c, the buffer for uncached accesses. The size of an entry, in words, is a power of two.
-- A request is a value; what happens to a request that is overwritten (it is completed and freed) and
-- to one that is sent is returned.
mod Tests
pub mod Send
pub mod Coalesce
pub mod Align
pub mod Add
pub mod Put
pub mod Order
pub mod Faults
use ml_rsim.Prelude.{
  ℕ, zero, suc, ◌+◌, ◌-◌, ◌/◌, ◌%◌, Bool, true, false, not, ◌&&◌, ◌||◌, Option, none, some, List,
  [], ◌∷◌, Checked, ok, fatal, deref, ◌>>=◌, ltb, leb, ◌==◌, if◌then◌else◌, length, get_elem?, set,
  replicate, bit_and,
}

-- The types of the processor's requests that come here
pub data Kind : Type 0 where
  read write rmw : Kind

abbrev pub same_kind : Kind → Kind → Bool
same_kind read read = true
same_kind read write = false
same_kind read rmw = false
same_kind write read = false
same_kind write write = true
same_kind write rmw = false
same_kind rmw read = false
same_kind rmw write = false
same_kind rmw rmw = true

abbrev pub is_read : Kind → Bool
is_read read = true
is_read write = false
is_read rmw = false

pub record Req : Type 0 where
  pub paddr : ℕ
  pub size : ℕ
  pub kind : Kind

-- What `UBuffer_add_request` gets
pub data Incoming : Type 0 where
  barrier : Incoming
  request : Req → Incoming

-- `UBUFITEM`
pub record Item : Type 0 where
  pub reqs : List (Option Req)
  pub fence : Bool
  pub address : ℕ
  pub kind : Kind
  pub busy : Bool

-- `UBUF`, with the counters that the code reads or that count what is refused
pub record Buffer : Type 0 where
  pub line_mask : ℕ
  pub num_entries : ℕ
  pub cur_reads : ℕ
  pub entries : List Item
  pub transaction_pending : Bool
  pub size : ℕ
  pub flush : ℕ
  pub combine : Bool
  pub entrysz : ℕ
  pub stall_ub_full : ℕ

abbrev pub word : ℕ
word = 4

-- An item before which a request may not move, and one that it may go into
unfoldable pub closed : Item → Req → Bool
closed it r = not (same_kind it.kind r.kind) || it.fence || it.busy

unfoldable pub takes : Buffer → Item → Req → Bool
takes b it r = it.address == bit_and r.paddr b.line_mask

-- `for (n = num_entries - 1; n >= 0; n--)`, with `n + 1`; the number of entries if none takes it
unfoldable pub find_top : Buffer → Req → ℕ → Checked ℕ
find_top b r zero = ok b.num_entries
find_top b r (suc n) = do
  it ← deref (get_elem? b.entries n)
  let rest = find_top b r n
  if closed it r then ok b.num_entries else if takes b it r then ok n else rest

unfoldable pub may_combine : Buffer → Req → Bool
may_combine b r = b.combine && ltb 0 b.num_entries && ((r.size == 4) || (r.size == 8))

-- `(unsigned)(req->paddr / 4) % (unsigned)(ubufptr->entrysz)`
abbrev pub slot : Buffer → Req → ℕ
slot b r = r.paddr / 4 % b.entrysz

-- What `UBuffer_add_request` does: whether it takes the request, and the request that is overwritten
pub record Added : Type 0 where
  pub buffer : Buffer
  pub consumed : Bool
  pub overwritten : Option Req

-- The insertion into entry `top`, a new one if there are no more than that
unfoldable pub put_in : Buffer → Req → ℕ → Checked Added
put_in b r top = do
  it ← deref (get_elem? b.entries top)
  let fresh = top == b.num_entries
  let reqs = if fresh then replicate b.entrysz none else it.reqs
  old ← deref (get_elem? reqs (slot b r))
  ok (record {
    buffer = record b {
      num_entries = if fresh then b.num_entries + 1 else b.num_entries;
      cur_reads = if is_read r.kind then b.cur_reads + 1 else b.cur_reads;
      entries = set b.entries top (record {
        reqs = set reqs (slot b r) (some r);
        fence = false;
        address = bit_and r.paddr b.line_mask;
        kind = r.kind;
        busy = false;
      });
    };
    consumed = true;
    overwritten = old;
  })

unfoldable pub add_barrier : Buffer → Checked Added
add_barrier b =
    if ltb 0 b.num_entries
    then (do
      it ← deref (get_elem? b.entries (b.num_entries - 1))
      ok (record {
        buffer = record b {
          entries = set b.entries (b.num_entries - 1) (record it { fence = true });
          cur_reads = b.cur_reads + 1;
        };
        consumed = true;
        overwritten = none;
      }))
    else ok (record { buffer = b; consumed = true; overwritten = none })

unfoldable pub is_rmw : Kind → Bool
is_rmw read = false
is_rmw write = false
is_rmw rmw = true

unfoldable pub place_request : Buffer → Req → ℕ → Checked Added
place_request b r top =
    if (top == b.num_entries) && leb b.size b.num_entries
    then ok (record {
      buffer = record b { stall_ub_full = b.stall_ub_full + 1 };
      consumed = false;
      overwritten = none;
    })
    else put_in b r top

unfoldable pub add_req : Buffer → Req → Checked Added
add_req b r = if is_rmw r.kind then fatal else (do
  top ← (if may_combine b r then find_top b r b.num_entries else ok b.num_entries)
  place_request b r top)

-- `UBuffer_add_request`
unfoldable pub add_request : Buffer → Incoming → Checked Added
add_request b barrier = add_barrier b
add_request b (request r) = add_req b r
