-- ===== src/Mmc/Replies.antt =====
-- Memory/mmc_bus.c: the reply to a request of which no other cache has a dirty copy.
use ml_rsim.Prelude.{
  ℕ, ◌%◌, ◌^◌, ◌<◌, ◌≡◌, refl, sym, ◌∙◌, ◌⊎◌, inl, inr, Bool, true, false, ◌||◌, some, List, [],
  ◌∷◌, ok, ◌>>=◌, ◌==◌, if◌then◌else◌, arith, length,
}
use ml_rsim.Req.{ReqType, reply_excl, reply_sh, type_rank, is_upgrade, request, reply}
use ml_rsim.Mmc.{
  Action, fetch, free_number, completion, send, Pending, Scored, recv_request, send_reply,
}
use ml_rsim.Mmc.Reports.{
  Report, receive_all, responses, fetches, merge_all, Waits, awaited, complete, receive_all-Waits,
}

-- What the caches answer: REPLY_EXCL or REPLY_SH
abbrev pub AreVerdicts : List ReqType → Type 0
AreVerdicts [] = Unit {0}
AreVerdicts (t ∷ ts) = ((t ≡ reply_excl) ⊎ (t ≡ reply_sh)) × AreVerdicts ts

abbrev pub any_shared : List ReqType → Bool
any_shared [] = false
any_shared (t ∷ ts) = (type_rank t == 16) || any_shared ts

-- The reply is for sharing if any cache says that it shares the line.
abbrev pub verdict : List ReqType → ReqType
verdict ts = if any_shared ts then reply_sh else reply_excl

merge_all-shared : (ts : List ReqType) → AreVerdicts ts → merge_all reply_sh ts ≡ reply_sh
merge_all-shared [] h = refl
merge_all-shared (t ∷ ts) (inl e, h) = rw e (merge_all-shared ts h)
merge_all-shared (t ∷ ts) (inr e, h) = rw e (merge_all-shared ts h)

pub merge_all-verdict : (ts : List ReqType) → AreVerdicts ts → merge_all reply_excl ts ≡ verdict ts
merge_all-verdict [] h = refl
merge_all-verdict (t ∷ ts) (inl e, h) = rw e (merge_all-verdict ts h)
merge_all-verdict (t ∷ ts) (inr e, h) = rw e (merge_all-shared ts h)

-- What was done for a request that got its reply
abbrev pub replied : ReqType → ReqType → List Action
replied asked t = if is_upgrade asked then free_number ∷ completion t ∷ [] else fetch ∷ send t ∷ []

-- A coherent request on the bus, and the reports on it, all of them
pub record Asked (snoopers : ℕ) (r : Pending) (rs : List Report) : Type 0 where
  pub asks : r.kind ≡ request
  pub fits : snoopers < 2 ^ 16
  pub one_each : length (responses rs) ≡ snoopers
  pub some_snooper : 0 < snoopers
  pub fetched_once : fetches rs ≡ (if is_upgrade r.req_type then 0 else 1)
  pub verdicts : AreVerdicts (responses rs)

pub record Replied (r : Pending) (ts : List ReqType) (f : Scored) : Type 0 where
  pub answered : f.req.kind ≡ reply
  pub typed : f.req.req_type ≡ verdict ts
  pub dequeued : f.queued ≡ false
  pub once : f.done ≡ replied r.req_type (verdict ts)

-- The request as it enters the queue
abbrev pub entered : Bool → ℕ → Pending → Scored
entered up n r = record {
  req = record {
    kind = request;
    req_type = r.req_type;
    cohe_type = reply_excl;
    cohe_count = n;
    c2c_copy = false;
    data_rtn = up;
    memtrans = if up then r.memtrans else some false;
  };
  queued = true;
  done = if up then [] else fetch ∷ [];
}

pub recv_request-entered :
    (up : Bool) (n : ℕ) (r : Pending)
    → is_upgrade r.req_type ≡ up
    → r.kind ≡ request
    → n < 2 ^ 16
    → recv_request false n false r ≡ ok (entered up n r)
unfolding recv_request
recv_request-entered true n r u k h = let m : n % 2 ^ 16 ≡ n = omega arith in rw (u, m, k)
recv_request-entered false n r u k h = let m : n % 2 ^ 16 ≡ n = omega arith in rw (u, m, k)

entered-Waits :
    (up : Bool) (n : ℕ) (r : Pending) (rs : List Report)
    → is_upgrade r.req_type ≡ up
    → Asked n r rs
    → Waits (entered up n r) rs
entered-Waits up n r rs u a = record {
  asks = refl;
  fresh = refl;
  counted = sym a.one_each;
  fits = a.fits;
  returned = by_type up u;
  granted = λ h. sym u ∙ h;
}
  where
    by_type : (up : Bool) → is_upgrade r.req_type ≡ up → awaited up ≡ fetches rs
    by_type true h = rw h at (sym a.fetched_once)
    by_type false h = rw h at (sym a.fetched_once)

-- The request as it leaves the queue
abbrev finished : Bool → Pending → ReqType → Scored
finished up r t = record {
  req = record {
    kind = reply;
    req_type = t;
    cohe_type = t;
    cohe_count = 0;
    c2c_copy = up;
    data_rtn = true;
    memtrans = if up then r.memtrans else some false;
  };
  queued = false;
  done = if up then free_number ∷ completion t ∷ [] else fetch ∷ send t ∷ [];
}

replies :
    (up : Bool) (n : ℕ) (r : Pending) (ts : List ReqType)
    → is_upgrade r.req_type ≡ up
    → merge_all reply_excl ts ≡ verdict ts
    → (f : Scored) × (send_reply (complete ts (entered up n r)) ≡ ok f) × Replied r ts f
unfolding send_reply
replies true n r ts u m = (
  finished true r (verdict ts),
  rw (u, m),
  record { answered = refl; typed = refl; dequeued = refl; once = rw u },
)
replies false n r ts u m = (
  finished false r (verdict ts),
  rw (u, m),
  record { answered = refl; typed = refl; dequeued = refl; once = rw u },
)

-- In whatever order the snoopers answer and the memory returns the data, a coherent request for which
-- the request queue has room gets one reply, with the verdict of all snoopers, and leaves the queue.
pub recv_request-Replied :
    (n : ℕ) (r : Pending) (rs : List Report)
    → Asked n r rs
    → (f : Scored) × ((recv_request false n false r >>= receive_all rs) ≡ ok f)
      × Replied r (responses rs) f
recv_request-Replied n r [] a = absurd (omega (arith, a.one_each, a.some_snooper))
recv_request-Replied n r (t ∷ rs) a =
    let up = is_upgrade r.req_type in
    let (f, e, q) =
      replies up n r (responses (t ∷ rs)) refl
        (merge_all-verdict (responses (t ∷ rs)) a.verdicts) in
    (
      f,
      rw (recv_request-entered up n r refl a.asks a.fits)
          (receive_all-Waits t rs (entered up n r) (entered-Waits up n r (t ∷ rs) refl a) ∙ e),
      q,
    )
