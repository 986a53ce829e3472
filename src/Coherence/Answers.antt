-- ===== src/Coherence/Answers.antt =====
-- L2ProcessTagCohe of Caches/l2cache.c: what a check by another processor leaves, where the
-- first-level caches write through.
use ml_rsim.Prelude.{
  ℕ, ◌+◌, ◌<◌, ◌≡◌, refl, ◌∙◌, ◌≢◌, ◌⊎◌, inl, inr, Bool, true, false, not, ◌&&◌, Option, none, some,
  List, [], ◌∷◌, ◌++◌, ok, lt→leb_false, ◌==◌, if◌then◌else◌, Bool-cases, length, get_elem?, arith,
}
use ml_rsim.Req.{
  ReqType, reply_excl, reply_sh, read_sh, read_own, read_current, upgrade, ◌is◌, request,
}
use ml_rsim.Pipeline.{Pipeline, add_to_pipe}
use ml_rsim.Cache.Line.{LineState, invalid, is_invalid}
use ml_rsim.Cache.Search.{hit, search}
use ml_rsim.Coherence.{Message, L2, CoheReq, wbuffer_search, check_outbuffer, check_mshrs}
use ml_rsim.Coherence.Snoop.{
  state_rank, is_sh_cl, snooped, copies, make_wb_req, make_cohe_to_l1, tell_l1, send_copy, respond,
  snoop_through,
}
use ml_rsim.Coherence.Shown.{Shows}

-- The requests that are checked for coherence
pub data Asks : ReqType → Type 0 where
  share : Asks read_sh
  own : Asks read_own
  current : Asks read_current
  promote : Asks upgrade

-- A cache with room for what a check makes
pub record Ready (now : ℕ) (c : L2) : Type 0 where
  pub detailed : c.perfect ≡ false
  pub through : c.write_back ≡ false
  pub unstalled : c.stall_cohe ≡ 0
  pub unanswered : c.cohe_reply ≡ false
  pub room_i : length c.to_l1i < c.cohe_queue_size
  pub room_d : length c.to_l1d < c.cohe_queue_size
  pub no_copy : c.data_cohe_pending ≡ none
  pub pipe : (m : Message) → (r : Pipeline Message × Bool) × (add_to_pipe now c.data_pipe m ≡ ok r)

-- A request of another processor that nothing holds up: no write to the line is buffered on its way
-- out, and no MSHR of the line has its request on the bus
pub record Passes (c : L2) (q : CoheReq) : Type 0 where
  pub asks : q.kind ≡ request
  pub typed : Asks q.req_type
  pub other : (q.src_proc == c.procid) ≡ false
  pub not_written : wbuffer_search c q ≡ none
  pub not_out : check_outbuffer c q ≡ false
  pub not_issued : (check_mshrs c q).2 ≡ false

-- The state of the line behind the check
abbrev pub next_state : ReqType → LineState → LineState
next_state t s = if is_invalid s then invalid else snooped request t s

-- REPLY_SH exactly where a read to share finds the line
abbrev pub reply_for : ReqType → LineState → ReqType
reply_for t s = if (t is read_sh) && not (is_invalid s) then reply_sh else reply_excl

abbrev pub copy_for : CoheReq → Message
copy_for q = make_wb_req q (if q.req_type is read_sh then reply_sh else reply_excl)

-- The copy is in the data pipe, or it is the next to go there.
abbrev pub Placed : ℕ → Message → L2 → L2 → Type 0
Placed now m c d =
    (add_to_pipe now c.data_pipe m ≡ ok (d.data_pipe, true)) ⊎ (d.data_cohe_pending ≡ some m)

-- The same request, but for what a check stores in it
abbrev pub Later : CoheReq → CoheReq → Type 0
Later q q' =
    (place : Option ℕ) × (copied : Bool) × (answers : List ReqType) × (q'
      ≡ record q { stalled = place; c2c_copy = copied; answers = answers })

-- A queue to a first-level cache: behind it is what a check of a line says to that cache, which is
-- nothing where the state of the line stays the same.
abbrev pub behind : List Message → L2 → CoheReq → LineState → LineState → List Message
behind told c q s t =
    if state_rank t == state_rank s then told else told ++ make_cohe_to_l1 c q t false ∷ []

-- What a check of a line in state `s` leaves
pub record Checks (now : ℕ) (c : L2) (q : CoheReq) (s : LineState) (d : L2) (q' : CoheReq)
    : Type 0 where
  pub shows : Shows d.cache q.vaddr q.paddr (next_state q.req_type s)
  pub others :
      (i : ℕ)
      → search c.cache q.vaddr q.paddr ≢ ok (hit, i)
      → get_elem? d.cache.tags i ≡ get_elem? c.cache.tags i
  pub later : Later q q'
  pub answered : q'.answers ≡ q.answers ++ reply_for q.req_type s ∷ []
  pub told_i : d.to_l1i ≡ behind c.to_l1i c q s (next_state q.req_type s)
  pub told_d : d.to_l1d ≡ behind c.to_l1d c q s (next_state q.req_type s)
  pub copied :
      copies request q.req_type s ≡ true → (q'.c2c_copy ≡ true) × Placed now (copy_for q) c d

tell_l1-room :
    (m : Message) (c : L2)
    → length c.to_l1i < c.cohe_queue_size
    → length c.to_l1d < c.cohe_queue_size
    → tell_l1 m c ≡ ok (record c { to_l1i = c.to_l1i ++ m ∷ []; to_l1d = c.to_l1d ++ m ∷ [] })
unfolding tell_l1
tell_l1-room m c hi hd = rw (
  lt→leb_false c.cohe_queue_size (length c.to_l1i) hi,
  lt→leb_false c.cohe_queue_size (length c.to_l1d) hd,
)

-- What sending a copy leaves as it was
pub record Sends (now : ℕ) (m : Message) (c d : L2) : Type 0 where
  pub same_cache : d.cache ≡ c.cache
  pub same_i : d.to_l1i ≡ c.to_l1i
  pub same_d : d.to_l1d ≡ c.to_l1d
  pub placed : Placed now m c d

sends :
    (now : ℕ) (m : Message) (c : L2)
    → c.data_cohe_pending ≡ none
    → ((n : Message) → (r : Pipeline Message × Bool) × (add_to_pipe now c.data_pipe n ≡ ok r))
    → (d : L2) × (send_copy now m c ≡ ok d) × Sends now m c d
unfolding send_copy
sends now m c none_waits pipe = by_pipe (pipe m)
  where
    by_pipe :
        (r : Pipeline Message × Bool) × (add_to_pipe now c.data_pipe m ≡ ok r)
        → (d : L2) × (send_copy now m c ≡ ok d) × Sends now m c d
    by_pipe ((p, true), e) = (
      record c { data_pipe = p; num_in_pipes = c.num_in_pipes + 1 },
      rw e,
      record { same_cache = refl; same_i = refl; same_d = refl; placed = inl e },
    )
    by_pipe ((p, false), e) = (
      record c { data_cohe_pending = some m },
      rw (e, none_waits),
      record { same_cache = refl; same_i = refl; same_d = refl; placed = inr refl },
    )

respond-mark :
    (t : LineState) (q : CoheReq)
    → ((respond t (record q { c2c_copy = true })).answers ≡ (respond t q).answers)
      × ((respond t (record q { c2c_copy = true })).c2c_copy ≡ true)
unfolding respond
respond-mark t q = ground arith

respond-Later : (t : LineState) (q : CoheReq) → Later q (respond t q)
unfolding respond
respond-Later t q = (q.stalled, q.c2c_copy, (respond t q).answers, ground arith)

-- The part behind the look-up, for a line that was in state `s` and is in state `t` now
module _ (now : ℕ) (c : L2) (q : CoheReq) (s t : LineState) (ready : Ready now c) where
  tells :
      (d : L2) × ((if state_rank t == state_rank s
          then ok c
          else tell_l1 (make_cohe_to_l1 c q t false) c)
        ≡ ok d)
      × (d.cache ≡ c.cache)
      × (d.to_l1i ≡ behind c.to_l1i c q s t)
      × (d.to_l1d ≡ behind c.to_l1d c q s t)
      × (d.data_pipe ≡ c.data_pipe)
      × (d.data_cohe_pending ≡ none)
  tells = elim (Bool-cases (state_rank t == state_rank s)) [
    | inl same ↦ (c, rw same, refl, rw same, rw same, refl, ready.no_copy)
    | inr changed ↦
        let m = make_cohe_to_l1 c q t false in
        (
          record c { to_l1i = c.to_l1i ++ m ∷ []; to_l1d = c.to_l1d ++ m ∷ [] },
          rw changed (tell_l1-room m c ready.room_i ready.room_d),
          refl,
          rw changed,
          rw changed,
          refl,
          ready.no_copy,
        )
  ]

  -- What the check of a line leaves
  pub record Passed (d : L2) (q' : CoheReq) : Type 0 where
    pub same_cache : d.cache ≡ c.cache
    pub told_i : d.to_l1i ≡ behind c.to_l1i c q s t
    pub told_d : d.to_l1d ≡ behind c.to_l1d c q s t
    pub later : Later q q'
    pub responded : q'.answers ≡ (respond t q).answers
    pub copied :
        copies q.kind q.req_type s ≡ true
        → (q'.c2c_copy ≡ true)
          × Placed now (make_wb_req q (if is_sh_cl t then reply_sh else reply_excl)) c d

  pub passes :
      (d : L2) × (q' : CoheReq) × (snoop_through now s t c q ≡ ok (d, q', true)) × Passed d q'
  unfolding snoop_through
  passes = elim (Bool-cases (copies q.kind q.req_type s)) [
    | inr plain ↦
        let (d, e, k, told_i, told_d, p, w) = tells in
        (
          d,
          respond t q,
          rw (plain, e),
          record {
            same_cache = k;
            told_i = told_i;
            told_d = told_d;
            later = respond-Later t q;
            responded = refl;
            copied = λ y. absurd (cc (plain, y));
          },
        )
    | inl copy ↦
        let m = make_wb_req q (if is_sh_cl t then reply_sh else reply_excl) in
        let (d, e, k, told_i, told_d, p, w) = tells in
        let (f, e', sent) = sends now m d w (λ n. rw p (ready.pipe n)) in
        let marked = record q { c2c_copy = true } in
        (
          f,
          respond t marked,
          rw (copy, e, e'),
          record {
            same_cache = sent.same_cache ∙ k;
            told_i = sent.same_i ∙ told_i;
            told_d = sent.same_d ∙ told_d;
            later = respond-Later t marked;
            responded = (respond-mark t q).0;
            copied = λ _. ((respond-mark t q).1, rw p at sent.placed);
          },
        )
  ]
