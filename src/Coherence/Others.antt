-- ===== src/Coherence/Others.antt =====
-- Caches/l2cache.c: a request that the caches other than the one that made it check.
use ml_rsim.Prelude.{ℕ, ◌≡◌, sym, ap, ◌∙◌, subst, true, List, [], ◌∷◌, ◌++◌, map, ok}
use mathlib.Core.List.{append_assoc, append-nil}
use ml_rsim.Req.{ReqType}
use ml_rsim.Cache.Line.{LineState}
use ml_rsim.Coherence.{L2, CoheReq, wbuffer_search, check_outbuffer, check_mshrs}
use ml_rsim.Coherence.Snoop.{process_tag_cohe}
use ml_rsim.Coherence.Shown.{Shows}
use ml_rsim.Coherence.Answers.{Ready, Passes, next_state, reply_for, Later}
use ml_rsim.Coherence.Verdict.{process_tag_cohe-Checks}

-- Every other cache checks the request, one after the other, each at its time.
pub data Broadcast : CoheReq → List L2 → List L2 → CoheReq → Type 0 where
  all_done : (q : CoheReq) → Broadcast q [] [] q
  one_more :
      (now : ℕ) (c d : L2) (cs ds : List L2) (q r r' : CoheReq)
      → process_tag_cohe now c q ≡ ok (d, r, true)
      → Broadcast r cs ds r'
      → Broadcast q (c ∷ cs) (d ∷ ds) r'

-- The other caches, which write through and of which none is held up, with the states in which they have the line
abbrev pub Parties : CoheReq → List L2 → List LineState → Type 0
Parties q [] [] = Unit {0}
Parties q [] (s ∷ ss) = ⊥
Parties q (c ∷ cs) [] = ⊥
Parties q (c ∷ cs) (s ∷ ss) =
    ((now : ℕ) × Ready now c) × Passes c q × Shows c.cache q.vaddr q.paddr s × Parties q cs ss

-- The states in which they have it
abbrev pub AllShow : ℕ → ℕ → List L2 → List LineState → Type 0
AllShow v p [] [] = Unit {0}
AllShow v p [] (s ∷ ss) = ⊥
AllShow v p (c ∷ cs) [] = ⊥
AllShow v p (c ∷ cs) (s ∷ ss) = Shows c.cache v p s × AllShow v p cs ss

Passes-Later : (c : L2) (q q' : CoheReq) → Later q q' → Passes c q → Passes c q'
unfolding wbuffer_search check_outbuffer check_mshrs
Passes-Later c q q' (place, copied, answers, e) p = subst (Passes c) (sym e) (record {
  asks = p.asks;
  typed = p.typed;
  other = p.other;
  not_written = p.not_written;
  not_out = p.not_out;
  not_issued = p.not_issued;
})

Shows-Later :
    (c : L2) (q q' : CoheReq) (s : LineState)
    → Later q q'
    → Shows c.cache q.vaddr q.paddr s
    → Shows c.cache q'.vaddr q'.paddr s
Shows-Later c q q' s (place, copied, answers, e) w =
    subst (λ (r : CoheReq). Shows c.cache r.vaddr r.paddr s) (sym e) w

Parties-Later :
    (q q' : CoheReq) (cs : List L2) (ss : List LineState)
    → Later q q'
    → Parties q cs ss
    → Parties q' cs ss
Parties-Later q q' [] [] l h = tt
Parties-Later q q' [] (s ∷ ss) l h = absurd h
Parties-Later q q' (c ∷ cs) [] l h = absurd h
Parties-Later q q' (c ∷ cs) (s ∷ ss) l (r, p, w, h) =
    (r, Passes-Later c q q' l p, Shows-Later c q q' s l w, Parties-Later q q' cs ss l h)

AllShow-Later :
    (q q' : CoheReq) (cs : List L2) (ss : List LineState)
    → Later q q'
    → AllShow q'.vaddr q'.paddr cs (map (next_state q'.req_type) ss)
    → AllShow q.vaddr q.paddr cs (map (next_state q.req_type) ss)
AllShow-Later q q' cs ss (place, copied, answers, e) h =
    subst (λ (r : CoheReq). AllShow r.vaddr r.paddr cs (map (next_state r.req_type) ss)) e h

answers-Later :
    (q q' : CoheReq) (a : ReqType) (ss : List LineState) (told : List ReqType)
    → Later q q'
    → q'.answers ≡ q.answers ++ a ∷ []
    → told ≡ q'.answers ++ map (reply_for q'.req_type) ss
    → told ≡ q.answers ++ (a ∷ map (reply_for q.req_type) ss)
answers-Later q q' a ss told (place, copied, answers, e) new h =
    h
    ∙ ap (λ (r : CoheReq). q'.answers ++ map (reply_for r.req_type) ss) e
    ∙ ap (λ l. l ++ map (reply_for q.req_type) ss) new
    ∙ append_assoc q.answers (a ∷ []) (map (reply_for q.req_type) ss)

pub broadcasts :
    (q : CoheReq) (cs : List L2) (ss : List LineState)
    → Parties q cs ss
    → (ds : List L2) × (r : CoheReq) × Broadcast q cs ds r
      × AllShow q.vaddr q.paddr ds (map (next_state q.req_type) ss)
      × (r.answers ≡ q.answers ++ map (reply_for q.req_type) ss)
broadcasts q [] [] h = ([], q, all_done q, tt, sym (append-nil q.answers))
broadcasts q [] (s ∷ ss) h = absurd h
broadcasts q (c ∷ cs) [] h = absurd h
broadcasts q (c ∷ cs) (s ∷ ss) ((now, ready), p, w, h) =
    let (d, q', e, k) = process_tag_cohe-Checks now c q s ready p w in
    let (ds, r, n, shown, told) = broadcasts q' cs ss (Parties-Later q q' cs ss k.later h) in
    (
      d ∷ ds,
      r,
      one_more now c d cs ds q q' r e n,
      (k.shows, AllShow-Later q q' ds ss k.later shown),
      answers-Later q q' (reply_for q.req_type s) ss r.answers k.later k.answered told,
    )
