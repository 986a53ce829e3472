-- ===== src/Mmc.antt =====
-- The coherence side of the memory controller: Memory/mmc_bus.c. A request that waits in the request
-- queue is seen with what the controller does for it; `hit_type` and `line_cold`, which only
-- statistics read, are left out.
pub mod Reports
pub mod Replies
pub mod Quiet
pub mod Copies
mod Tests
use ml_rsim.Prelude.{
  ℕ, ◌+◌, ◌-◌, ◌%◌, ◌^◌, Bool, true, false, not, ◌&&◌, ◌||◌, Option, none, some, List, [], ◌∷◌,
  ◌++◌, Checked, ok, fatal, ◌>>=◌, ltb, ◌==◌, if◌then◌else◌,
}
use ml_rsim.Req.{
  ReqType, reply_excl, type_rank, is_upgrade, RType, reply, is_writepurge, is_writeback,
}

-- The fields of REQ that the controller reads and writes. `memtrans` is the transaction of the
-- timing model, by its flag c2c_copy; a `short` is its bit pattern.
pub record Pending : Type 0 where
  pub kind : RType
  pub req_type : ReqType
  pub cohe_type : ReqType
  pub cohe_count : ℕ
  pub c2c_copy : Bool
  pub data_rtn : Bool
  pub memtrans : Option Bool

-- What the controller does with other modules
pub data Action : Type 0 where
  -- MMC_recv_trans of the request, and of the data that another cache sent
  fetch write_back : Action
  -- the number of requests on the bus counts down
  free_number : Action
  -- Bus_send_cohe_completion, and MMC_start_send_to_bus
  completion send : ReqType → Action
  -- `req->perform`, and the request goes back to the pool
  perform : Action

-- A request, whether it stands in the request queue, and what was done so far
pub record Scored : Type 0 where
  pub req : Pending
  pub queued : Bool
  pub done : List Action

abbrev pub act : Action → Scored → Scored
act a e = record e { done = e.done ++ a ∷ [] }

-- `dqueue_remove`, of an element that must be in the queue
abbrev pub dequeue : Scored → Checked Scored
dequeue e = if e.queued then ok (record e { queued = false }) else fatal

-- `MMC_recv_trans`, as far as the request sees it
abbrev pub recv_trans : Action → Scored → Scored
recv_trans a e = act a (record e { req = record e.req { memtrans = some false } })

-- `MMC_recv_request`, where `full` says that the request queue is full, and `snoopers` is
-- ARCH_cpus + ARCH_coh_ios
unfoldable pub recv_request : Bool → ℕ → Bool → Pending → Checked Scored
recv_request full snoopers non_coh r =
    let cleared = record r { c2c_copy = false; data_rtn = false } in
    let counted =
      if non_coh
      then record cleared { cohe_count = 0 }
      else record cleared { cohe_count = snoopers % 2 ^ 16; cohe_type = reply_excl } in
    let e : Scored = record { req = counted; queued = not (is_writeback r.kind); done = [] } in
    if full && not (is_writeback r.kind)
    then fatal
    else ok (
        if is_upgrade r.req_type
        then record e { req = record counted { data_rtn = true } }
        else recv_trans fetch e)

abbrev pub deliver : Scored → Scored
deliver e =
    let r = record e.req { kind = reply; req_type = e.req.cohe_type } in
    act (if r.c2c_copy then completion r.req_type else send r.req_type) (record e { req = r })

-- `MMC_send_reply`
unfoldable pub send_reply : Scored → Checked Scored
send_reply e =
    let r = e.req in
    let granted = record (act free_number e) { req = record r { c2c_copy = true } } in
    let e' = if is_upgrade r.req_type then granted else e in
    if is_upgrade r.req_type && r.c2c_copy
    then ok (record e { req = record r { req_type = r.cohe_type } })
    else do f ← if e'.req.data_rtn || e'.req.c2c_copy then dequeue e' else ok e'; ok (deliver f)

-- `req->cohe_type < state`
abbrev pub merge : ReqType → ReqType → ReqType
merge old new = if ltb (type_rank old) (type_rank new) then new else old

-- `MMC_recv_cohe_response`, but for the MSHRs that wait for a write purge
unfoldable pub recv_cohe_response : ReqType → Scored → Checked Scored
recv_cohe_response state e =
    let count = (e.req.cohe_count + (2 ^ 16 - 1)) % 2 ^ 16 in
    let r = record e.req { cohe_count = count; cohe_type = merge e.req.cohe_type state } in
    let e' = record e { req = r } in
    if (count == 0) && ((r.data_rtn && not r.c2c_copy) || is_upgrade r.req_type)
    then send_reply e'
    else if (count == 0) && is_writepurge r.kind
    then dequeue (act perform e')
    else ok e'

-- `MMC_recv_data_response` for a copy of type `state`
unfoldable pub recv_data_response : ReqType → Scored → Checked Scored
recv_data_response state e = do
  let r = record e.req { c2c_copy = true; cohe_type = merge e.req.cohe_type state }
  let e' = record e { req = r }
  f ← if r.cohe_count == 0 then send_reply e' else ok e'
  elim f.req.memtrans [
    | none ↦ fatal
    | some flag ↦ ok (act write_back (record f { req = record f.req { memtrans = some true } }))
  ]

-- `MMC_data_fetch_done`
unfoldable pub data_fetch_done : Scored → Checked Scored
data_fetch_done e =
    let e' = record e { req = record e.req { data_rtn = true } } in
    if (e.req.cohe_count == 0) && not e.req.c2c_copy then send_reply e' else ok e'

-- `req->c2c_copy = 1` in Cache_make_wb_req of Caches/l2cache.c
abbrev pub make_copy : Scored → Scored
make_copy e = record e { req = record e.req { c2c_copy = true } }
