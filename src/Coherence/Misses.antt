-- ===== src/Coherence/Misses.antt =====
-- L2Cache_check_mshr of Caches/l2cache.c: an access meets the MSHRs of the second-level cache. A
-- request is named by a number; counters that only statistics read are left out, and a call of
-- L2Cache_start_prefetch is a result.
use ml_rsim.Prelude.{
  ℕ, ◌+◌, Bool, true, false, not, ◌&&◌, ◌||◌, Option, none, some, [], ◌∷◌, ◌++◌, Checked, ok, fatal,
  bit_and, deref, ◌>>=◌, ◌==◌, if◌then◌else◌, length, get_elem?, set, find_from,
}
use ml_rsim.Req.{ReqType, read, write, rmw, read_sh, read_own, upgrade, ◌is◌}
use ml_rsim.Cache.Line.{LineState, bad_line_state, invalid, pr_cl, sh_cl, pr_dy, Cache}
use ml_rsim.Cache.Search.{Found, hit, present_miss, total_miss, search}
use ml_rsim.Cache.Age.{hit_update}
use ml_rsim.Coherence.{Mshr, L2, block, is_none}
use ml_rsim.Coherence.Snoop.{is_sh_cl}

-- `MSHR_Response`
pub data Response : Type 0 where
  nomshr nomshr_stall mshr_coal mshr_new mshr_useless_fetch : Response
  mshr_stall_war mshr_stall_coal mshr_stall_flush mshr_stall_release : Response

-- An access; `prefetch` has a bit for each kind of prefetch.
pub record Access : Type 0 where
  pub id : ℕ
  pub prcr_req_type : ReqType
  pub req_type : ReqType
  pub prefetch : ℕ
  pub vaddr : ℕ
  pub paddr : ℕ
  pub issued : Bool
  pub l2mshr : Option ℕ

-- The cache, the access, the answer, and whether a prefetch is started
abbrev pub Met : Type 0
Met = L2 × Access × Response × Bool

abbrev pub is_found : Found → Bool
is_found hit = true
is_found present_miss = false
is_found total_miss = false

-- `req->prefetch & 10`
abbrev pub prefetches_l2 : ℕ → Bool
prefetches_l2 p = not (bit_and p 10 == 0)

-- The MSHR of an access that gets a new one
unfoldable pub new_mshr : L2 → Access → Found → ℕ → Mshr
new_mshr c a code j = record {
  valid = true;
  blocknum = block c a.paddr;
  pending_cohe = none;
  mainreq = a.id;
  issued = a.issued;
  main_reads = a.prcr_req_type is read;
  line = j;
  miss = code;
  demand = none;
  stall_war = false;
  only_prefs = prefetches_l2 a.prefetch;
  has_writes = not (a.prcr_req_type is read);
  releasing = false;
  pend_opers = false;
  coal_req = [];
}

-- The transaction that goes to the bus
unfoldable pub bus_type : Access → Found → ReqType
bus_type a code =
    if is_found code
    then upgrade
    else if (a.prcr_req_type is write) || (a.prcr_req_type is rmw)
    then read_own
    else read_sh

-- The line of an upgrade is locked into the cache.
abbrev pub lock : Found → ℕ → Cache → Checked Cache
lock present_miss j k = ok k
lock total_miss j k = ok k
lock hit j k = do
  l ← deref (get_elem? k.tags j)
  ok (record k { tags = set k.tags j (record l { mshr_out = true }) })

-- A new MSHR, the first that is free; `k` is the tag array with its new ages.
unfoldable pub allocate : L2 → Cache → Access → Found → ℕ → Bool → Checked Met
allocate c k a code j starts =
    let aged = record c { cache = k } in
    if c.mshr_count == length c.mshrs
    then ok (aged, a, nomshr_stall, starts)
    else elim (find_from (λ m. not m.valid) 0 c.mshrs) [
      | none ↦ fatal
      | some (i, m) ↦ do
        locked ← lock code j k
        let c' = record c {
          cache = locked;
          mshrs = set c.mshrs i (new_mshr c a code j);
          mshr_count = c.mshr_count + 1;
        }
        ok (c', record a { l2mshr = some i; req_type = bus_type a code }, mshr_new, starts)
    ]

abbrev pub written : LineState → LineState
written pr_cl = pr_dy
written bad_line_state = bad_line_state
written invalid = invalid
written sh_cl = sh_cl
written pr_dy = pr_dy

-- The line is in the cache: a hit, unless it is a write to a shared line.
unfoldable pub line_hit : ℕ → Bool → L2 → Access → ℕ → Checked Met
line_hit now prefetch_on c a j = do
  (k, hit_cpref) ← hit_update now c.cache j (record { paddr = a.paddr; prefetch = a.prefetch })
  l ← deref (get_elem? k.tags j)
  let starts = hit_cpref && prefetch_on
  let c' = record c { cache = k }
  let k' = record k { tags = set k.tags j (record l { state = written l.state }) }
  let grown = allocate c k a hit j starts
  (if a.prcr_req_type is read
      then ok (c', a, nomshr, starts)
      else if is_sh_cl l.state
      then grown
      else ok (record c { cache = k' }, a, nomshr, starts))

abbrev pub store_mshr : L2 → ℕ → Mshr → L2
store_mshr c i m = record c { mshrs = set c.mshrs i m }

-- The MSHR takes the access.
unfoldable pub coalesce : ℕ → Access → Mshr → Mshr
coalesce now a m =
    let late = m.only_prefs && not (prefetches_l2 a.prefetch) in
    record m {
      coal_req = m.coal_req ++ a.id ∷ [];
      has_writes = (a.req_type is write) || (a.req_type is rmw);
      demand = if late then some now else m.demand;
      only_prefs = m.only_prefs && not late;
    }

-- The line has an MSHR, `m` at `i`.
unfoldable pub matched : ℕ → ℕ → L2 → Access → ℕ → Mshr → Met
matched now max_coals c a i m =
    if m.pend_opers
    then (c, a, mshr_stall_flush, false)
    else if m.releasing
    then (c, a, mshr_stall_release, false)
    else if m.stall_war
    then (c, a, mshr_stall_war, false)
    else if not (a.prcr_req_type is read) && m.main_reads
    then (store_mshr c i (record m { stall_war = true }), a, mshr_stall_war, false)
    else if length m.coal_req + 1 == max_coals
    then (c, a, mshr_stall_coal, false)
    else (store_mshr c i (coalesce now a m), a, mshr_coal, false)

-- The first MSHR of the line
abbrev pub mshr_of : L2 → ℕ → Option (ℕ × Mshr)
mshr_of c paddr =
    if c.mshr_count == 0
    then none
    else find_from (λ m. m.valid && (block c paddr == m.blocknum)) 0 c.mshrs

unfoldable pub unmatched : ℕ → Bool → L2 → Access → Found → ℕ → Checked Met
unmatched now prefetch_on c a code j =
    if is_found code then line_hit now prefetch_on c a j else allocate c c.cache a code j false

-- `L2Cache_check_mshr`, where `prefetch_on` is `cparam.L2_prefetch & 2`
unfoldable pub check_mshr : ℕ → ℕ → Bool → L2 → Access → Checked Met
check_mshr now max_coals prefetch_on c a = do
  (code, j) ← search c.cache a.vaddr a.paddr
  let found = mshr_of c a.paddr
  let alone = unmatched now prefetch_on c a code j
  (if (a.prefetch == 8) && (not (is_none found) || is_found code)
      then ok (c, a, mshr_useless_fetch, false)
      else elim found [ none ↦ alone | some (i, m) ↦ ok (matched now max_coals c a i m) ])
