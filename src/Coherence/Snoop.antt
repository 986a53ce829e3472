-- ===== src/Coherence/Snoop.antt =====
-- L2ProcessTagCohe of Caches/l2cache.c: the look-up of the line and what follows.
use ml_rsim.Prelude.{
  ℕ, ◌+◌, ◌*◌, ◌^◌, Bool, true, false, not, ◌&&◌, ◌||◌, none, some, [], ◌∷◌, ◌++◌, Checked, ok,
  fatal, deref, ◌>>=◌, leb, ◌==◌, if◌then◌else◌, length, get_elem?, set,
}
use ml_rsim.Req.{
  ReqType, reply_excl, reply_sh, read_sh, read_own, read_current, upgrade, invalidate, shared, ◌is◌,
  RType, cohe, writepurge, is_writepurge, rtype_request,
}
use ml_rsim.Pipeline.{add_to_pipe}
use ml_rsim.Cache.Line.{
  LineState, bad_line_state, invalid, pr_cl, sh_cl, pr_dy, is_invalid, Line, Cache, CacheStat,
  PrefStat,
}
use ml_rsim.Cache.Search.{hit, present_miss, total_miss, search}
use ml_rsim.Coherence.{
  Message, L2, CoheReq, Outcome, answer, block, wbuffer_search, check_outbuffer, check_own,
  check_mshrs,
}

abbrev pub is_pr_dy : LineState → Bool
is_pr_dy pr_dy = true
is_pr_dy _ = false

abbrev pub is_sh_cl : LineState → Bool
is_sh_cl sh_cl = true
is_sh_cl _ = false

-- `cline->state != oldstate`
abbrev pub state_rank : LineState → ℕ
state_rank bad_line_state = 0
state_rank invalid = 1
state_rank pr_cl = 2
state_rank sh_cl = 3
state_rank pr_dy = 4

abbrev pub takes_line : RType → ReqType → Bool
takes_line k t = (rtype_request k && ((t is read_own) || (t is upgrade))) || is_writepurge k

-- The state that a line gets
unfoldable pub snooped : RType → ReqType → LineState → LineState
snooped k t old =
    if takes_line k t then invalid else if rtype_request k && (t is read_sh) then sh_cl else old

abbrev pub one_useless : PrefStat → PrefStat
one_useless s = record s { useless = s.useless + 1 }

-- The prefetch counters for a line that is taken away
unfoldable pub count_taken : ℕ → CacheStat → CacheStat
count_taken pref s =
    if pref == 2
    then record s { sl2 = one_useless s.sl2 }
    else if pref == 8
    then record s { l2p = one_useless s.l2p }
    else s

-- Both assignments to `cline->state`, for the line `l` at index `j`
abbrev pub restate : CoheReq → ℕ → Line → Cache → Cache
restate q j l c = record c {
  tags = set c.tags j (record l { state = snooped q.kind q.req_type l.state });
  stats = if takes_line q.kind q.req_type then count_taken l.pref c.stats else c.stats;
}

-- The condition for a copy, for a line that was in a state
unfoldable pub copies : RType → ReqType → LineState → Bool
copies k t old =
    is_pr_dy old
    && rtype_request k
    && ((t is read_own) || (t is read_sh) || (t is read_current) || (t is upgrade))

-- `Cache_make_wb_req`
abbrev pub make_wb_req : CoheReq → ReqType → Message
make_wb_req q t = record {
  kind = cohe;
  req_type = t;
  dest = q.src_proc;
  vaddr = q.vaddr;
  paddr = q.paddr;
  dirty = false;
}

-- `Cache_make_cohe_to_l1`, with `wrb_req`
abbrev pub make_cohe_to_l1 : L2 → CoheReq → LineState → Bool → Message
make_cohe_to_l1 c q state dirty = record {
  kind = if is_writepurge q.kind then writepurge else cohe;
  req_type = if is_sh_cl state then shared else invalidate;
  dest = q.src_proc;
  vaddr = block c q.vaddr * 2 ^ c.cache.block_shift;
  paddr = block c q.paddr * 2 ^ c.cache.block_shift;
  dirty = dirty;
}

-- `lqueue_add` to both first-level caches
unfoldable pub tell_l1 : Message → L2 → Checked L2
tell_l1 m c =
    if leb c.cohe_queue_size (length c.to_l1i) || leb c.cohe_queue_size (length c.to_l1d)
    then fatal
    else ok (record c { to_l1i = c.to_l1i ++ m ∷ []; to_l1d = c.to_l1d ++ m ∷ [] })

-- The copy goes to the data pipe, or waits for it.
unfoldable pub send_copy : ℕ → Message → L2 → Checked L2
send_copy now m c = do
  (pipe, added) ← add_to_pipe now c.data_pipe m
  (if added
      then ok (record c { data_pipe = pipe; num_in_pipes = c.num_in_pipes + 1 })
      else elim c.data_cohe_pending [
        | some other ↦ fatal
        | none ↦ ok (record c { data_cohe_pending = some m })
      ])

-- The answers for a line in a state, after the check
unfoldable pub respond : LineState → CoheReq → CoheReq
respond state q =
    if q.req_type is read_current
    then answer reply_excl q
    else if is_sh_cl state
    then answer reply_sh q
    else if is_invalid state
    then answer reply_excl q
    else q

-- The line is in the cache, and the first-level caches write through.
unfoldable pub snoop_through : ℕ → LineState → LineState → L2 → CoheReq → Outcome
snoop_through now old state c q = do
  let copy = copies q.kind q.req_type old
  let q' = if copy then record q { c2c_copy = true } else q
  c' ←
      if state_rank state == state_rank old
      then ok c
      else tell_l1 (make_cohe_to_l1 c q state false) c
  let sent = send_copy now (make_wb_req q (if is_sh_cl state then reply_sh else reply_excl)) c'
  c'' ← if copy then sent else ok c'
  ok (c'', respond state q', true)

-- The line is in the cache. Where the first-level caches write back, they are asked first.
unfoldable pub snoop_line : ℕ → ℕ → Line → L2 → CoheReq → Outcome
snoop_line now j l c q =
    let state = snooped q.kind q.req_type l.state in
    let c' = record c { cache = restate q j l c.cache } in
    if c.write_back
    then (do d ← tell_l1 (make_cohe_to_l1 c q state (is_pr_dy l.state)) c'; ok (d, q, true))
    else snoop_through now l.state state c' q

-- The look-up
unfoldable pub snoop : ℕ → L2 → CoheReq → Outcome
snoop now c q = do
  (code, j) ← search c.cache q.vaddr q.paddr
  elim code [
    | hit ↦ deref (get_elem? c.cache.tags j) >>= λ l. snoop_line now j l c q
    | present_miss ↦ ok (c, answer reply_excl q, true)
    | total_miss ↦ ok (c, answer reply_excl q, true)
  ]

-- The checks behind that of the write buffer
unfoldable pub check_others : ℕ → L2 → CoheReq → Outcome
check_others now c q =
    if check_outbuffer c q
    then ok (c, q, false)
    else (let (ms, place, waits) = check_mshrs c q in
        let c' = record c { mshrs = ms } in
        let q' = record q { stalled = elim place [ none ↦ q.stalled | some i ↦ some i ] } in
        if waits then ok (c', q', false) else snoop now c' q')

-- `L2ProcessTagCohe` at time `now`
unfoldable pub process_tag_cohe : ℕ → L2 → CoheReq → Outcome
process_tag_cohe now c q =
    if c.perfect
    then ok (c, answer reply_excl q, true)
    else if not (c.stall_cohe == 0) || c.cohe_reply
    then ok (c, q, false)
    else if q.src_proc == c.procid
    then check_own c q
    else if c.write_back
    then check_others now c q
    else elim (wbuffer_search c q) [
      | none ↦ check_others now c q
      | some c' ↦ ok (record c' { stall_cohe = c'.stall_cohe + 1 }, q, false)
    ]
