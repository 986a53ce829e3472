-- ===== src/Coherence/Tests.antt =====
-- Two caches of two lines.
use ml_rsim.Prelude.{
  ℕ, find_from, ◌≡◌, ◌≢◌, refl, Bool, index_in, true, false, none, some, List, [], ◌∷◌, ok, arith,
}
use ml_rsim.Req.{ReqType, bad_req_type, read, read_sh, request}
use ml_rsim.Mmc.Replies.{verdict}
use ml_rsim.Pipeline.{Pipeline, add_to_pipe, ports_busy, enter}
use ml_rsim.Cache.Line.{LineState, invalid, pr_dy, Line, Cache, PrefStat, minus_one}
use ml_rsim.Cache.Search.{present_miss, search, search_set}
use ml_rsim.Coherence.{Message, Mshr, L2, CoheReq, wbuffer_search, check_outbuffer, check_mshrs}
use ml_rsim.Coherence.Misses.{Access, Response, mshr_coal, store_mshr, check_mshr}
use ml_rsim.Coherence.Holders.{OnePerLine}
use ml_rsim.Coherence.Kept.{Reads}
use ml_rsim.Coherence.Unique.{check_mshr-OnePerLine}
use ml_rsim.Coherence.Forgets.{Joins, check_mshr-forgets}
use ml_rsim.Coherence.Snoop.{process_tag_cohe}
use ml_rsim.Coherence.Shown.{Shows, line}
use ml_rsim.Coherence.Answers.{share, Ready, Passes, Checks}
use ml_rsim.Coherence.Verdict.{process_tag_cohe-Checks}
use ml_rsim.Coherence.Others.{Broadcast, AllShow}
use ml_rsim.Coherence.Single.{Single, reads, reply_state, Broadcast-Single}

abbrev no_prefs : PrefStat
no_prefs = record { useful = 0; early = 0; earliness = 0; damaging = 0; useless = 0 }

abbrev a_line : LineState → Line
a_line state = record {
  index = 0;
  tag = 7;
  vaddr = 448;
  state = state;
  age = 1;
  mshr_out = false;
  pref = 0;
  pref_tag_repl = minus_one;
  pref_time = 0;
}

abbrev a_cache : LineState → Cache
a_cache state = record {
  is_l1 = false;
  infinite = false;
  lru = true;
  setsz = 1;
  set_mask = 0;
  set_shift = 0;
  idx_mask = 0;
  block_shift = 6;
  tag_shift = 6;
  tags = a_line state ∷ [];
  stats = record { l1dp = no_prefs; l2p = no_prefs; sl1 = no_prefs; sl2 = no_prefs };
}

abbrev empty_pipe : Pipeline Message
empty_pipe = record {
  ports = 1;
  latency = 1;
  repeat_rate = 1;
  stages = 1;
  count = 0;
  elms = record { elm = none; time = 0 } ∷ [];
  head = 0;
  tail = 0;
}

abbrev l2 : ℕ → LineState → L2
l2 procid state = record {
  cache = a_cache state;
  procid = procid;
  perfect = false;
  write_back = false;
  stall_cohe = 0;
  cohe_reply = false;
  mshrs = [];
  mshr_count = 0;
  write_queue = [];
  outbuffer = [];
  pending_writeback = none;
  to_l1i = [];
  to_l1d = [];
  cohe_queue_size = 4;
  data_pipe = empty_pipe;
  data_cohe_pending = none;
  num_in_pipes = 0;
}

abbrev to_share : CoheReq
to_share = record {
  id = 5;
  kind = request;
  req_type = read_sh;
  src_proc = 0;
  vaddr = 456;
  paddr = 456;
  progress = 0;
  l2mshr = some 0;
  issued = true;
  stalled = none;
  c2c_copy = false;
  answers = [];
}

ready : (n : ℕ) (s : LineState) → Ready 9 (l2 n s)
unfolding add_to_pipe ports_busy
ready n s = record {
  detailed = refl;
  through = refl;
  unstalled = refl;
  unanswered = refl;
  room_i = omega arith;
  room_d = omega arith;
  no_copy = refl;
  pipe = λ m. ((enter 9 empty_pipe m, true), refl);
}

passed : (s : LineState) → Passes (l2 1 s) to_share
unfolding wbuffer_search check_outbuffer check_mshrs find_from
passed s = record {
  asks = refl;
  typed = share;
  other = refl;
  not_written = refl;
  not_out = refl;
  not_issued = refl;
}

has_dirty : Shows (a_cache pr_dy) to_share.vaddr to_share.paddr pr_dy
unfolding search search_set
has_dirty = line 0 (a_line pr_dy) refl refl refl

process_tag_cohe-Checks_example :
    (d : L2) × (r : CoheReq) × (process_tag_cohe 9 (l2 1 pr_dy) to_share ≡ ok (d, r, true))
    × Checks 9 (l2 1 pr_dy) to_share pr_dy d r
process_tag_cohe-Checks_example =
    process_tag_cohe-Checks 9 (l2 1 pr_dy) to_share pr_dy (ready 1 pr_dy) (passed pr_dy) has_dirty

Broadcast-Single_example :
    (ds : List L2) × (r : CoheReq) × (ts : List LineState) × Broadcast to_share
      (l2 1 pr_dy ∷ [])
      ds
      r
    × AllShow to_share.vaddr to_share.paddr ds ts
    × Single (reply_state false false (verdict r.answers) ∷ ts)
Broadcast-Single_example =
    Broadcast-Single false false to_share (l2 1 pr_dy ∷ []) (pr_dy ∷ []) reads refl
      ((9, ready 1 pr_dy), passed pr_dy, has_dirty, tt)

abbrev an_mshr : Bool → Mshr
an_mshr valid = record {
  valid = valid;
  blocknum = 7;
  pending_cohe = none;
  issued = true;
  mainreq = 7;
  main_reads = false;
  line = 0;
  miss = present_miss;
  demand = none;
  stall_war = false;
  only_prefs = false;
  has_writes = true;
  releasing = false;
  pend_opers = false;
  coal_req = [];
}

abbrev with_mshr : ℕ → Bool → L2
with_mshr count valid = record (l2 1 invalid) { mshrs = an_mshr valid ∷ []; mshr_count = count }

abbrev a_load : Access
a_load = record {
  id = 6;
  prcr_req_type = read;
  req_type = bad_req_type;
  prefetch = 0;
  vaddr = 456;
  paddr = 456;
  issued = false;
  l2mshr = none;
}

none_used : OnePerLine (with_mshr 0 false)
none_used = record {
  counted = refl;
  apart = λ i j m n e f v w b.
      omega (arith, index_in (an_mshr false ∷ []) i e, index_in (an_mshr false ∷ []) j f);
}

misses_line : Reads 9 (with_mshr 0 false) a_load
unfolding search search_set
misses_line = record { code = present_miss; index = 0; finds = refl; ages = λ e. absurd (cc e) }

check_mshr-OnePerLine_example :
    (d : L2) × (b : Access) × (t : Response) × (starts : Bool) × (check_mshr 9 8 false
        (with_mshr 0 false)
        a_load
      ≡ ok (d, b, t, starts))
    × OnePerLine d
check_mshr-OnePerLine_example =
    check_mshr-OnePerLine (with_mshr 0 false) a_load none_used 9 8 false misses_line

coalesced_writes : Joins 8 (with_mshr 1 true) a_load 0 (an_mshr true)
unfolding search search_set find_from
coalesced_writes = record {
  code = present_miss;
  index = 0;
  finds = refl;
  of_line = refl;
  demands = refl;
  undisturbed = refl;
  waiting = refl;
  no_stall = refl;
  main_writes = refl;
  room = refl;
}

check_mshr-forgets_example :
    (n : Mshr) × (check_mshr 9 8 false (with_mshr 1 true) a_load
      ≡ ok (store_mshr (with_mshr 1 true) 0 n, a_load, mshr_coal, false))
    × (n.coal_req ≡ 6 ∷ [])
    × ((t : ReqType) → reply_state false n.has_writes t ≢ pr_dy)
check_mshr-forgets_example =
    check_mshr-forgets 9 8 false (with_mshr 1 true) a_load 0 (an_mshr true) coalesced_writes refl
