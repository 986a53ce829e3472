-- ===== src/Mmc/Tests.antt =====
-- Requests with two snoopers.
use ml_rsim.Prelude.{
  ◌≡◌, refl, inl, inr, true, false, none, List, [], ◌∷◌, ◌+◌, ◌≤◌, ok, ◌>>=◌, arith, length,
}
use ml_rsim.Req.{read_sh, read_own, reply_excl, reply_sh, ReqType, request, reply}
use ml_rsim.Mmc.{Pending, Scored, fetch, write_back, completion, recv_request}
use ml_rsim.Mmc.Reports.{Report, response, fetched, receive_all, responses}
use ml_rsim.Mmc.Replies.{Replied, recv_request-Replied}
use ml_rsim.Mmc.Copies.{Copied, course, course-Completes, course-lost}

abbrev asked : ReqType → Pending
asked t = record {
  kind = request;
  req_type = t;
  cohe_type = reply_excl;
  cohe_count = 0;
  c2c_copy = false;
  data_rtn = false;
  memtrans = none;
}

abbrev one_shares : List Report
one_shares = response reply_excl ∷ fetched ∷ response reply_sh ∷ []

recv_request-Replied_example :
    (f : Scored) × ((recv_request false 2 false (asked read_sh) >>= receive_all one_shares) ≡ ok f)
    × Replied (asked read_sh) (reply_excl ∷ reply_sh ∷ []) f
recv_request-Replied_example = recv_request-Replied 2 (asked read_sh) one_shares (record {
  asks = refl;
  fits = omega arith;
  one_each = refl;
  some_snooper = omega arith;
  fetched_once = refl;
  verdicts = (inl refl, (inr refl, tt));
})

abbrev owner_last : Copied 2 (asked read_own) (response reply_excl ∷ []) (response reply_excl ∷ [])
owner_last = record {
  asks = refl;
  reads = refl;
  fits = omega arith;
  owner_left = omega arith;
  at_most = omega arith;
}

course-Completes_example :
    (f : Scored) × (course 2
        (asked read_own)
        (response reply_excl ∷ [])
        (response reply_excl ∷ [])
        reply_excl
      ≡ ok f)
    × (f.req.kind ≡ reply)
    × (f.queued ≡ false)
    × (f.done ≡ fetch ∷ completion reply_excl ∷ write_back ∷ [])
course-Completes_example =
    course-Completes 2 (asked read_own) (response reply_excl ∷ []) (response reply_excl ∷ [])
      reply_excl owner_last refl (inl refl, (inl refl, (inl refl, tt)))

abbrev owner_first : Copied 2 (asked read_own) [] (response reply_excl ∷ [])
owner_first = record {
  asks = refl;
  reads = refl;
  fits = omega arith;
  owner_left = omega arith;
  at_most = omega arith;
}

course-lost_example :
    (f : Scored) × (course 2 (asked read_own) [] (response reply_excl ∷ []) reply_excl ≡ ok f)
    × (f.req.kind ≡ request)
    × (f.queued ≡ true)
    × (f.done ≡ fetch ∷ write_back ∷ [])
    × ((us : List Report)
        → 1 + length (responses us) ≤ 2
        → (g : Scored) × (receive_all us f ≡ ok g)
          × (g.req.kind ≡ request)
          × (g.queued ≡ true)
          × (g.done ≡ fetch ∷ write_back ∷ []))
course-lost_example =
    course-lost 2 (asked read_own) [] (response reply_excl ∷ []) reply_excl owner_first
      (omega arith)
