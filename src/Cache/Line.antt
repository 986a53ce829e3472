-- ===== src/Cache/Line.antt =====
-- Caches/cache.h: cache lines, the part of CACHE that cache.c uses, and the address macros.
use Prim.Native.Nat.{bit_and}
use ml_rsim.Prelude.{
  ℕ, zero, suc, ◌+◌, ◌-◌, ◌*◌, ◌/◌, ◌^◌, Bool, true, false, List, Checked, ok, deref, ◌>>=◌,
  get_elem?, set,
}

-- `cline_state_t`
pub data LineState : Type 0 where
  bad_line_state invalid pr_cl sh_cl pr_dy : LineState

abbrev pub is_invalid : LineState → Bool
is_invalid invalid = true
is_invalid bad_line_state = false
is_invalid pr_cl = false
is_invalid sh_cl = false
is_invalid pr_dy = false

-- `cline_t`; an `unsigned` -1 is 2 ^ 32 - 1.
pub record Line : Type 0 where
  pub index : ℕ
  pub tag : ℕ
  pub vaddr : ℕ
  pub state : LineState
  pub age : ℕ
  pub mshr_out : Bool
  pub pref : ℕ
  pub pref_tag_repl : ℕ
  pub pref_time : ℕ

abbrev pub minus_one : ℕ
minus_one = 2 ^ 32 - 1

-- The prefetch counters of one origin in `CacheStat`.
pub record PrefStat : Type 0 where
  pub useful : ℕ
  pub early : ℕ
  pub earliness : ℕ
  pub damaging : ℕ
  pub useless : ℕ

pub record CacheStat : Type 0 where
  pub l1dp : PrefStat
  pub l2p : PrefStat
  pub sl1 : PrefStat
  pub sl2 : PrefStat

-- `CACHE`. `infinite` is size == INFINITE, `lru` is replacement == LRU.
pub record Cache : Type 0 where
  pub is_l1 : Bool
  pub infinite : Bool
  pub lru : Bool
  pub setsz : ℕ
  pub set_mask : ℕ
  pub set_shift : ℕ
  pub idx_mask : ℕ
  pub block_shift : ℕ
  pub tag_shift : ℕ
  pub tags : List Line
  pub stats : CacheStat

-- The fields of REQ that cache.c reads.
pub record Request : Type 0 where
  pub paddr : ℕ
  pub prefetch : ℕ

-- `ADDR2SET` and `PADDR2TAG`
abbrev pub addr_to_set : Cache → ℕ → ℕ
addr_to_set c addr = bit_and (addr / 2 ^ c.block_shift) c.idx_mask * 2 ^ c.set_shift

abbrev pub paddr_to_tag : Cache → ℕ → ℕ
paddr_to_tag c paddr = paddr / 2 ^ c.tag_shift

-- `index & ~set_mask`, the first line of a set
abbrev pub set_base : Cache → ℕ → ℕ
set_base c index = index - bit_and index c.set_mask

-- `for (i = 0; i < n; i++, lineidx++)` over the lines of a set, each changed by `f`. A line
-- outside the array is a fault.
unfoldable pub for_lines : (ℕ → Line → Line) → ℕ → ℕ → List Line → Checked (List Line)
for_lines f zero lineidx tags = ok tags
for_lines f (suc n) lineidx tags = do
  l ← deref (get_elem? tags lineidx)
  for_lines f n (lineidx + 1) (set tags lineidx (f lineidx l))
