-- ===== src/Coherence/Hits.antt =====
-- L2ProcessTagCohe of Caches/l2cache.c: the check of a line that the look-up hits.
use ml_rsim.Prelude.{
  ℕ, ◌≡◌, refl, sym, ap, ◌∙◌, subst, ◌≢◌, true, false, some, [], ◌∷◌, ◌++◌, ok, ◌>>=◌,
  if◌then◌else◌, get_elem?, get_elem?-set_ne,
}
use ml_rsim.Req.{ReqType, reply_excl, reply_sh, read_sh, read_current, ◌is◌, request}
use ml_rsim.Cache.Line.{LineState, bad_line_state, invalid, pr_cl, sh_cl, pr_dy, is_invalid, Line}
use ml_rsim.Cache.Search.{hit, search}
use ml_rsim.Coherence.{L2, CoheReq}
use ml_rsim.Coherence.Snoop.{
  is_sh_cl, is_pr_dy, takes_line, snooped, count_taken, copies, make_wb_req, make_cohe_to_l1,
  tell_l1, restate, respond, snoop_through, snoop_line,
}
use ml_rsim.Coherence.Shown.{Shows, Shows-with_line, hit_valid}
use ml_rsim.Coherence.Answers.{
  Asks, share, own, current, promote, Ready, next_state, reply_for, behind, Placed, Checks, passes,
}

dirty_alone : (s : LineState) → copies request read_current s ≡ true → is_sh_cl s ≡ false
unfolding copies
dirty_alone pr_dy c = refl
dirty_alone bad_line_state c = refl
dirty_alone invalid c = refl
dirty_alone pr_cl c = refl
dirty_alone sh_cl c = cc c

-- The answer and the copy for a valid line
module _ (s : LineState) (v : is_invalid s ≡ false) where
  answers_for :
      (q : CoheReq) (ty : ReqType)
      → Asks ty
      → q.req_type ≡ ty
      → (respond (snooped request ty s) q).answers ≡ q.answers ++ reply_for ty s ∷ []
  unfolding respond snooped
  answers_for q _ share e = rw (e, v)
  answers_for q _ own e = rw e
  answers_for q _ current e = rw e
  answers_for q _ promote e = rw e

  copy_type :
      (ty : ReqType)
      → Asks ty
      → copies request ty s ≡ true
      → is_sh_cl (snooped request ty s) ≡ (ty is read_sh)
  unfolding copies snooped
  copy_type _ share c = refl
  copy_type _ own c = refl
  copy_type _ current c = dirty_alone s c
  copy_type _ promote c = refl

-- The check of a line that is hit
module _ (now : ℕ) (c : L2) (q : CoheReq) (j : ℕ) (l : Line) (r : Ready now c)
    (k : q.kind ≡ request) (a : Asks q.req_type) (e : search c.cache q.vaddr q.paddr ≡ ok (hit, j))
    (at : get_elem? c.cache.tags j ≡ some l) where
  abbrev now_state : LineState
  now_state = snooped q.kind q.req_type l.state

  abbrev now_cache : L2
  now_cache = record c { cache = restate q j l c.cache }

  restate-Ready : Ready now now_cache
  restate-Ready = record {
    detailed = r.detailed;
    through = r.through;
    unstalled = r.unstalled;
    unanswered = r.unanswered;
    room_i = r.room_i;
    room_d = r.room_d;
    no_copy = r.no_copy;
    pipe = r.pipe;
  }

  valid : is_invalid l.state ≡ false
  valid = hit_valid c.cache q.vaddr q.paddr j l e at

  state_now : now_state ≡ next_state q.req_type l.state
  state_now = rw (k, valid)

  by_line : snoop_line now j l c q ≡ snoop_through now l.state now_state now_cache q
  unfolding snoop_line
  by_line =
      ap
        (λ b.
          if b
          then (tell_l1 (make_cohe_to_l1 c q now_state (is_pr_dy l.state)) now_cache >>= λ d.
              ok (d, q, true))
          else snoop_through now l.state now_state now_cache q)
        r.through

  of_request : now_state ≡ snooped request q.req_type l.state
  of_request = ap (λ kind. snooped kind q.req_type l.state) k

  elsewhere :
      (i : ℕ)
      → search c.cache q.vaddr q.paddr ≢ ok (hit, i)
      → get_elem? now_cache.cache.tags i ≡ get_elem? c.cache.tags i
  elsewhere i ne =
      get_elem?-set_ne c.cache.tags j i (record l { state = now_state })
        (λ same. ne (e ∙ ap (λ x. ok (hit, x)) same))

  pub line-Checks :
      (d : L2) × (q' : CoheReq) × (snoop_line now j l c q ≡ ok (d, q', true))
      × Checks now c q l.state d q'
  line-Checks =
      let (d, q', f, p) = passes now now_cache q l.state now_state restate-Ready in
      let stats =
        if takes_line q.kind q.req_type then count_taken l.pref c.cache.stats else c.cache.stats in
      let new = Shows-with_line c.cache q.vaddr q.paddr j l now_state stats e at in
      (
        d,
        q',
        by_line ∙ f,
        record {
          shows =
              subst (λ x. Shows x q.vaddr q.paddr (next_state q.req_type l.state))
                (sym p.same_cache) (subst (Shows now_cache.cache q.vaddr q.paddr) state_now new);
          others = λ i ne. ap (λ x. get_elem? x.tags i) p.same_cache ∙ elsewhere i ne;
          later = p.later;
          answered =
              p.responded
              ∙ ap (λ t. (respond t q).answers) of_request
              ∙ answers_for l.state valid q q.req_type a refl;
          told_i = p.told_i ∙ ap (behind c.to_l1i c q l.state) state_now;
          told_d = p.told_d ∙ ap (behind c.to_l1d c q l.state) state_now;
          copied = λ y.
              let (marked, placed) = p.copied (ap (λ kind. copies kind q.req_type l.state) k ∙ y) in
              (
                marked,
                subst (λ b. Placed now (make_wb_req q (if b then reply_sh else reply_excl)) c d)
                    (ap is_sh_cl of_request ∙ copy_type l.state valid q.req_type a y) placed,
              );
        },
      )
