-- ===== src/Req.antt =====
-- Caches/req.h: the types of a request.
use ml_rsim.Prelude.{ℕ, Bool, true, false, ◌==◌}

-- `ReqType`: what a processor asks for, what goes over the bus, the replies, and what the second
-- level tells the first
pub data ReqType : Type 0 where
  bad_req_type read write rmw flushc purgec rwrite wback : ReqType
  read_sh read_own read_current upgrade read_uc write_uc swap_uc : ReqType
  reply_excl reply_sh reply_upgrade reply_uc invalidate shared : ReqType

-- The order of the enumeration
abbrev pub type_rank : ReqType → ℕ
type_rank bad_req_type = 0
type_rank read = 1
type_rank write = 2
type_rank rmw = 3
type_rank flushc = 4
type_rank purgec = 5
type_rank rwrite = 6
type_rank wback = 7
type_rank read_sh = 8
type_rank read_own = 9
type_rank read_current = 10
type_rank upgrade = 11
type_rank read_uc = 12
type_rank write_uc = 13
type_rank swap_uc = 14
type_rank reply_excl = 15
type_rank reply_sh = 16
type_rank reply_upgrade = 17
type_rank reply_uc = 18
type_rank invalidate = 19
type_rank shared = 20

abbrev pub is_upgrade : ReqType → Bool
is_upgrade t = type_rank t == 11

-- `RType`
pub data RType : Type 0 where
  request reply cohe cohe_reply writeback writepurge barrier : RType

abbrev pub is_writepurge : RType → Bool
is_writepurge writepurge = true
is_writepurge _ = false

abbrev pub is_writeback : RType → Bool
is_writeback writeback = true
is_writeback _ = false

infix 50 ◌is◌
abbrev pub ◌is◌ : ReqType → ReqType → Bool
t is s = type_rank t == type_rank s

abbrev pub rtype_request : RType → Bool
rtype_request request = true
rtype_request _ = false
