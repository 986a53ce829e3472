-- ===== src/Mmc/Copies.antt =====
-- Memory/mmc_bus.c: a request of which another cache sends its dirty copy.
use ml_rsim.Prelude.{
  ℕ, ◌+◌, ◌^◌, ◌<◌, ◌≤◌, ◌≡◌, refl, ap, ◌∙◌, inl, inr, true, false, some, List, [], ◌∷◌, ◌++◌,
  Checked, ok, ◌>>=◌, ◌==◌, arith, length, Bool-cases,
}
use ml_rsim.Req.{ReqType, reply_excl, is_upgrade, request, reply}
use ml_rsim.Mmc.{
  fetch, write_back, completion, Pending, Scored, recv_request, send_reply, merge,
  recv_data_response, make_copy,
}
use ml_rsim.Mmc.Reports.{Report, receive_all, responses, merge_all}
use ml_rsim.Mmc.Replies.{AreVerdicts, verdict, merge_all-verdict, entered, recv_request-entered}
use ml_rsim.Mmc.Quiet.{Quiet, reported, receive_all-Quiet, merge_all-append}

-- The copy is the last that a request waits for.
abbrev completed : ReqType → Scored → Scored
completed t e =
    let u = merge e.req.cohe_type t in
    record {
      req = record e.req {
        kind = reply;
        req_type = u;
        cohe_type = u;
        c2c_copy = true;
        memtrans = some true;
      };
      queued = false;
      done = (e.done ++ completion u ∷ []) ++ write_back ∷ [];
    }

data_last :
    (t : ReqType) (e : Scored)
    → e.req.cohe_count ≡ 0
    → is_upgrade e.req.req_type ≡ false
    → e.queued ≡ true
    → e.req.memtrans ≡ some false
    → recv_data_response t e ≡ ok (completed t e)
unfolding recv_data_response send_reply
data_last t e z u q m = elim (Bool-cases e.req.data_rtn) [
  | inl d ↦ rw (z, u, q, m, d)
  | inr d ↦ rw (z, u, q, m, d)
]

-- An answer still misses.
abbrev passed_by : ReqType → Scored → Scored
passed_by t e = record e {
  req = record e.req { c2c_copy = true; cohe_type = merge e.req.cohe_type t; memtrans = some true };
  done = e.done ++ write_back ∷ [];
}

data_early :
    (t : ReqType) (e : Scored)
    → 0 < e.req.cohe_count
    → e.req.memtrans ≡ some false
    → recv_data_response t e ≡ ok (passed_by t e)
unfolding recv_data_response
data_early t e p m = let z : (e.req.cohe_count == 0) ≡ false = ground arith in rw (z, m)

-- A request for data by one of `n` snoopers, the reports up to the snoop that finds the dirty line,
-- and those from then until the copy comes
pub record Copied (n : ℕ) (r : Pending) (rs ss : List Report) : Type 0 where
  pub asks : r.kind ≡ request
  pub reads : is_upgrade r.req_type ≡ false
  pub fits : n < 2 ^ 16
  pub owner_left : length (responses rs) < n
  pub at_most : length (responses rs) + length (responses ss) ≤ n

abbrev pub course : ℕ → Pending → List Report → List Report → ReqType → Checked Scored
course n r rs ss t = (recv_request false n false r >>= receive_all rs) >>= λ e.
    receive_all ss (make_copy e) >>= recv_data_response t

-- The request when the copy comes
abbrev held_back : ℕ → Pending → List Report → List Report → Scored
held_back n r rs ss = reported ss (make_copy (reported rs (entered false n r)))

module _ (n : ℕ) (r : Pending) (rs ss : List Report) (t : ReqType) (c : Copied n r rs ss) where
  before : Quiet rs (entered false n r)
  before = record {
    asks = refl;
    reads = c.reads;
    counted = omega (arith, c.owner_left);
    fits = c.fits;
    held = inr c.owner_left;
  }

  behind : Quiet ss (make_copy (reported rs (entered false n r)))
  behind = record {
    asks = refl;
    reads = c.reads;
    counted = omega (arith, c.at_most);
    fits = omega (arith, c.fits);
    held = inl refl;
  }

  course-held_back : course n r rs ss t ≡ recv_data_response t (held_back n r rs ss)
  course-held_back = rw (recv_request-entered false n r c.reads c.asks c.fits) (
      rw (receive_all-Quiet rs (entered false n r) before)
        (rw (receive_all-Quiet ss (make_copy (reported rs (entered false n r))) behind) refl))

  merged :
      merge (held_back n r rs ss).req.cohe_type t
      ≡ merge_all reply_excl (responses rs ++ (responses ss ++ t ∷ []))
  merged =
      merge_all-append (merge_all reply_excl (responses rs)) (responses ss) (t ∷ [])
      ∙ merge_all-append reply_excl (responses rs) (responses ss ++ t ∷ [])

  -- The request queue has room, and the copy comes behind all answers: one completion is sent.
  pub course-Completes :
      length (responses rs) + length (responses ss) ≡ n
      → AreVerdicts (responses rs ++ (responses ss ++ t ∷ []))
      → (f : Scored) × (course n r rs ss t ≡ ok f)
        × (f.req.kind ≡ reply)
        × (f.queued ≡ false)
        × (f.done
            ≡ fetch
              ∷ completion (verdict (responses rs ++ (responses ss ++ t ∷ [])))
              ∷ write_back
              ∷ [])
  course-Completes all v =
      let e = held_back n r rs ss in
      let typed = merged ∙ merge_all-verdict (responses rs ++ (responses ss ++ t ∷ [])) v in
      (
        completed t e,
        course-held_back ∙ data_last t e (omega arith) c.reads refl refl,
        refl,
        refl,
        ap (λ u. fetch ∷ completion u ∷ write_back ∷ []) typed,
      )

  -- The request queue has room, and the copy comes before the last answer: no reply is ever sent.
  pub course-lost :
      length (responses rs) + length (responses ss) < n
      → (f : Scored) × (course n r rs ss t ≡ ok f)
        × (f.req.kind ≡ request)
        × (f.queued ≡ true)
        × (f.done ≡ fetch ∷ write_back ∷ [])
        × ((us : List Report)
            → length (responses rs) + length (responses ss) + length (responses us) ≤ n
            → (g : Scored) × (receive_all us f ≡ ok g)
              × (g.req.kind ≡ request)
              × (g.queued ≡ true)
              × (g.done ≡ fetch ∷ write_back ∷ []))
  course-lost less =
      let e = held_back n r rs ss in
      let f = passed_by t e in
      (
        f,
        course-held_back ∙ data_early t e (omega arith) refl,
        refl,
        refl,
        refl,
        λ us most.
            let q : Quiet us f = record {
              asks = refl;
              reads = c.reads;
              counted = omega arith;
              fits = omega (arith, c.fits);
              held = inl refl;
            } in
            (reported us f, receive_all-Quiet us f q, refl, refl, refl),
      )
