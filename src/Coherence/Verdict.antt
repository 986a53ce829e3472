-- ===== src/Coherence/Verdict.antt =====
-- L2ProcessTagCohe of Caches/l2cache.c: the whole handler.
use ml_rsim.Prelude.{
  ℕ, ◌≡◌, refl, ap, ◌∙◌, subst, ◌≢◌, Bool, true, false, not, ◌&&◌, ◌||◌, none, some, [], ◌∷◌, ◌++◌,
  ok, ◌==◌, if◌then◌else◌, if_false, if_none, get_elem?,
}
use ml_rsim.Req.{reply_excl, reply_sh, read_sh, ◌is◌, request}
use ml_rsim.Cache.Line.{LineState, invalid, Line}
use ml_rsim.Cache.Search.{Found, hit, present_miss, total_miss, search}
use ml_rsim.Coherence.{L2, CoheReq, answer, wbuffer_search, check_outbuffer, check_mshrs}
use ml_rsim.Coherence.Snoop.{copies, snoop_line, snoop, check_others, process_tag_cohe}
use ml_rsim.Coherence.Shown.{Shows, line, nothing}
use ml_rsim.Coherence.Answers.{Asks, Ready, Passes, Checks}
use ml_rsim.Coherence.Hits.{line-Checks}

-- The look-up misses.
module _ (now : ℕ) (c : L2) (q : CoheReq) where
  snoop-miss :
      (k : Found) (j : ℕ)
      → search c.cache q.vaddr q.paddr ≡ ok (k, j)
      → k ≢ hit
      → snoop now c q ≡ ok (c, answer reply_excl q, true)
  unfolding snoop
  snoop-miss hit j e ne = absurd (ne refl)
  snoop-miss present_miss j e ne = rw e
  snoop-miss total_miss j e ne = rw e

  snoop-hit :
      (j : ℕ) (l : Line)
      → search c.cache q.vaddr q.paddr ≡ ok (hit, j)
      → get_elem? c.cache.tags j ≡ some l
      → snoop now c q ≡ snoop_line now j l c q
  unfolding snoop
  snoop-hit j l e at = rw (e, at)

  missed : (b : Bool) → reply_excl ≡ (if b && false then reply_sh else reply_excl)
  missed true = refl
  missed false = refl

  miss-Checks :
      Shows c.cache q.vaddr q.paddr invalid → Checks now c q invalid c (answer reply_excl q)
  unfolding copies
  miss-Checks w = record {
    shows = w;
    others = λ i ne. refl;
    later = (q.stalled, q.c2c_copy, q.answers ++ reply_excl ∷ [], refl);
    answered = ap (λ t. q.answers ++ t ∷ []) (missed (q.req_type is read_sh));
    told_i = refl;
    told_d = refl;
    copied = λ y. absurd (cc y);
  }

  snoop-Checks :
      (s : LineState)
      → Ready now c
      → q.kind ≡ request
      → Asks q.req_type
      → Shows c.cache q.vaddr q.paddr s
      → (d : L2) × (q' : CoheReq) × (snoop now c q ≡ ok (d, q', true)) × Checks now c q s d q'
  snoop-Checks s r k a (nothing code j e ne inv) = (
    c,
    answer reply_excl q,
    snoop-miss code j e ne,
    subst (λ t. Checks now c q t c (answer reply_excl q)) inv
        (miss-Checks (nothing code j e ne refl)),
  )
  snoop-Checks s r k a (line j l e at st) =
      let (d, q', f, h) = line-Checks now c q j l r k a e at in
      (d, q', snoop-hit j l e at ∙ f, subst (λ t. Checks now c q t d q') st h)

  -- What the MSHR of the line changes
  abbrev held : L2
  held = record c { mshrs = (check_mshrs c q).0 }

  abbrev placed_req : CoheReq
  placed_req = record q {
    stalled = elim (check_mshrs c q).1 [ none ↦ q.stalled | some i ↦ some i ];
  }

  hold-Ready : Ready now c → Ready now held
  hold-Ready r = record {
    detailed = r.detailed;
    through = r.through;
    unstalled = r.unstalled;
    unanswered = r.unanswered;
    room_i = r.room_i;
    room_d = r.room_d;
    no_copy = r.no_copy;
    pipe = r.pipe;
  }

  reaches : Ready now c → Passes c q → process_tag_cohe now c q ≡ snoop now held placed_req
  unfolding process_tag_cohe check_others
  reaches r p =
      if_false c.perfect _ _ r.detailed
      ∙ if_false (not (c.stall_cohe == 0) || c.cohe_reply) _ _ idle
      ∙ if_false (q.src_proc == c.procid) _ _ p.other
      ∙ if_false c.write_back _ _ r.through
      ∙ if_none (wbuffer_search c q) _ _ p.not_written
      ∙ if_false (check_outbuffer c q) _ _ p.not_out
      ∙ if_false (check_mshrs c q).2 _ _ p.not_issued
    where
      idle : (not (c.stall_cohe == 0) || c.cohe_reply) ≡ false
      idle = rw (r.unstalled, r.unanswered)

-- Where the first-level caches write through, a check by another processor that nothing holds up gives
-- one answer, leaves the line in the state that the request asks for, tells both first-level caches
-- exactly where that is another state, and makes a copy of a dirty line.
pub process_tag_cohe-Checks :
    (now : ℕ) (c : L2) (q : CoheReq) (s : LineState)
    → Ready now c
    → Passes c q
    → Shows c.cache q.vaddr q.paddr s
    → (d : L2) × (q' : CoheReq) × (process_tag_cohe now c q ≡ ok (d, q', true))
      × Checks now c q s d q'
process_tag_cohe-Checks now c q s r p w =
    let (d, q', e, h) =
      snoop-Checks now (held now c q) (placed_req now c q) s (hold-Ready now c q r) p.asks p.typed
        w in
    (
      d,
      q',
      reaches now c q r p ∙ e,
      record {
        shows = h.shows;
        others = h.others;
        later = h.later;
        answered = h.answered;
        told_i = h.told_i;
        told_d = h.told_d;
        copied = h.copied;
      },
    )
