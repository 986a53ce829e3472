-- ===== src/Coherence.antt =====
-- The coherence checks of the second-level cache: L2ProcessTagCohe of Caches/l2cache.c, with what it
-- calls of Caches/cache_wb.c and Caches/cache_bus.c, and the structures of Caches/cache.h and
-- Caches/req.h. A request is named by a number. `block_mask2` clears the bits of an address inside a
-- line, so that masked addresses are compared by the number of the line.
pub mod Snoop
pub mod Misses
pub mod Holders
pub mod Kept
pub mod Unique
pub mod Shown
pub mod Answers
pub mod Hits
pub mod Verdict
pub mod Others
pub mod Single
pub mod Forgets
mod Tests
use ml_rsim.Prelude.{
  ℕ, ◌+◌, ◌-◌, ◌*◌, ◌/◌, ◌^◌, Bool, true, false, not, ◌&&◌, ◌||◌, Option, none, some, List, [], ◌∷◌,
  ◌++◌, Checked, ok, fatal, deref, ◌>>=◌, ltb, leb, ◌==◌, if◌then◌else◌, length, get_elem?, set,
  map, find_from,
}
use ml_rsim.Req.{
  ReqType, reply_excl, reply_sh, read_sh, read_own, read_current, upgrade, invalidate, shared, ◌is◌,
  RType, request, cohe, writepurge, is_writepurge, rtype_request,
}
use ml_rsim.Pipeline.{Pipeline, add_to_pipe}
use ml_rsim.Cache.Line.{
  LineState, invalid, sh_cl, pr_dy, is_invalid, Line, Cache, CacheStat, PrefStat,
}
use ml_rsim.Cache.Search.{Found, hit, search}

-- A request that the cache makes: a copy of a dirty line for another cache, or what it tells a
-- first-level cache. `dirty` is `wrb_req`.
pub record Message : Type 0 where
  pub kind : RType
  pub req_type : ReqType
  pub dest : ℕ
  pub vaddr : ℕ
  pub paddr : ℕ
  pub dirty : Bool

-- `MSHR`, with what is read of its main request `mainreq`: `issued`, and whether the processor asked for a
-- read. `miss` is `misscache`, `line` the index of `cline`, and `demand` is none for -1; `setnum` and
-- `next_move`, which no code here reads, are left out.
pub record Mshr : Type 0 where
  pub valid : Bool
  pub blocknum : ℕ
  pub pending_cohe : Option ℕ
  pub mainreq : ℕ
  pub issued : Bool
  pub main_reads : Bool
  pub line : ℕ
  pub miss : Found
  pub demand : Option ℕ
  pub stall_war : Bool
  pub only_prefs : Bool
  pub has_writes : Bool
  pub releasing : Bool
  pub pend_opers : Bool
  pub coal_req : List ℕ

-- A write that waits in the write buffer, with `wb_cohe_pending`
pub record Write : Type 0 where
  pub paddr : ℕ
  pub cohe_pending : Bool

-- A second-level cache, with the coherence queues of its first-level caches (which have the same
-- size) and its write buffer. `perfect` and `write_back` are L2_perfect and L1D_writeback.
pub record L2 : Type 0 where
  pub cache : Cache
  pub procid : ℕ
  pub perfect : Bool
  pub write_back : Bool
  pub stall_cohe : ℕ
  pub cohe_reply : Bool
  pub mshrs : List Mshr
  pub mshr_count : ℕ
  pub write_queue : List Write
  pub outbuffer : List ℕ
  pub pending_writeback : Option ℕ
  pub to_l1i : List Message
  pub to_l1d : List Message
  pub cohe_queue_size : ℕ
  pub data_pipe : Pipeline Message
  pub data_cohe_pending : Option Message
  pub num_in_pipes : ℕ

-- A request that is checked; `stalled` is its place in `stalled_mshrs` for this cache, and `answers`
-- are the calls of Bus_send_cohe_response.
pub record CoheReq : Type 0 where
  pub id : ℕ
  pub kind : RType
  pub req_type : ReqType
  pub src_proc : ℕ
  pub vaddr : ℕ
  pub paddr : ℕ
  pub progress : ℕ
  pub l2mshr : Option ℕ
  pub issued : Bool
  pub stalled : Option ℕ
  pub c2c_copy : Bool
  pub answers : List ReqType

-- What a check leaves, with its result
abbrev pub Outcome : Type 0
Outcome = Checked (L2 × CoheReq × Bool)

abbrev pub answer : ReqType → CoheReq → CoheReq
answer t q = record q { answers = q.answers ++ t ∷ [] }

abbrev pub block : L2 → ℕ → ℕ
block c addr = addr / 2 ^ c.cache.block_shift

-- `L1DCache_wbuffer_search` for a coherence check: the first write to the line is marked.
unfoldable pub wbuffer_search : L2 → CoheReq → Option L2
wbuffer_search c q = elim (find_from (λ w. block c q.paddr == block c w.paddr) 0 c.write_queue) [
  | none ↦ none
  | some (i, w) ↦
      some (record c { write_queue = set c.write_queue i (record w { cohe_pending = true }) })
]

-- `Cache_check_outbuffer`
unfoldable pub check_outbuffer : L2 → CoheReq → Bool
check_outbuffer c q = elim (find_from (λ p. block c q.paddr == block c p) 0 c.outbuffer) [
  | some found ↦ true
  | none ↦ elim c.pending_writeback [ none ↦ false | some p ↦ block c q.paddr == block c p ]
]

-- `pmshr->pending_cohe = req` for the MSHR at `i`
abbrev pub hold : ℕ → Mshr → CoheReq → List Mshr → List Mshr
hold i m q ms = set ms i (record m { pending_cohe = some q.id })

abbrev pub is_none {ℓ} : {A : Type ℓ} → Option A → Bool
is_none none = true
is_none (some a) = false

-- `req->issued = 1`, as the MSHRs see it of which the request is the main request
abbrev pub issue_one : ℕ → Mshr → Mshr
issue_one id m = record m { issued = (m.mainreq == id) || m.issued }

-- A request of this processor
unfoldable pub check_own : L2 → CoheReq → Outcome
check_own c q = do
  let q' = record q { issued = true }
  i ← deref q.l2mshr
  let issued = map (issue_one q.id) c.mshrs
  m ← deref (get_elem? issued i)
  let ms = if q.progress == 0 then hold i m q issued else issued
  let place = if q.progress == 0 then some i else q.stalled
  let checked = answer reply_excl (record q' { stalled = place })
  if is_none m.pending_cohe
      then ok (record c { mshrs = ms }, checked, true)
      else ok (record c { mshrs = issued }, q', false)

-- What the MSHR of the line changes: the MSHRs, the place in `stalled_mshrs` if it is stored, and
-- whether the check waits
unfoldable pub check_mshrs : L2 → CoheReq → List Mshr × Option ℕ × Bool
check_mshrs c q = elim (find_from (λ m. m.valid && (block c q.paddr == m.blocknum)) 0 c.mshrs) [
  | none ↦ (c.mshrs, none, false)
  | some (i, m) ↦
      if (c.mshr_count == 0) || not (q.progress == 0)
      then (c.mshrs, none, false)
      else if is_none m.pending_cohe
      then (hold i m q c.mshrs, some i, m.issued)
      else (c.mshrs, none, m.issued)
]
