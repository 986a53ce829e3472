-- ===== src/Coherence/Single.antt =====
-- Caches/l2cache.c: a request that every other cache checks and its reply, from the view of one
-- line.
use ml_rsim.Prelude.{
  ◌≡◌, refl, sym, ap, ◌∙◌, subst, inl, inr, Bool, true, false, List, [], ◌∷◌, ◌++◌, map,
  if◌then◌else◌, Bool-cases,
}
use ml_rsim.Req.{ReqType, reply_sh, read_sh, read_own, upgrade, ◌is◌}
use ml_rsim.Mmc.Replies.{verdict, any_shared}
use ml_rsim.Cache.Line.{LineState, invalid, pr_cl, sh_cl, pr_dy, is_invalid}
use ml_rsim.Coherence.{L2, CoheReq}
use ml_rsim.Coherence.Snoop.{snooped}
use ml_rsim.Coherence.Answers.{next_state, reply_for}
use ml_rsim.Coherence.Others.{Broadcast, Parties, AllShow, broadcasts}

-- The new state of a line in L2ProcessTagReply, for the MSHR of a miss
abbrev pub miss_state : Bool → ReqType → LineState
miss_state has_writes t = if has_writes then pr_dy else if t is reply_sh then sh_cl else pr_cl

-- It is dirty for the MSHR of an upgrade.
unfoldable pub reply_state : Bool → Bool → ReqType → LineState
reply_state upgraded has_writes t = if upgraded then pr_dy else miss_state has_writes t

-- At most one cache has the line as its own, and then no other has it.
abbrev pub is_private : LineState → Bool
is_private pr_cl = true
is_private pr_dy = true
is_private _ = false

abbrev pub Exclusive : LineState → List LineState → Type 0
Exclusive s [] = Unit {0}
Exclusive s (t ∷ ts) =
    (is_private s ≡ true → t ≡ invalid) × (is_private t ≡ true → s ≡ invalid) × Exclusive s ts

abbrev pub Single : List LineState → Type 0
Single [] = Unit {0}
Single (s ∷ ss) = Exclusive s ss × Single ss

-- An MSHR of a read that misses has no writes; that of an upgrade has the line.
pub data Fills : Bool → Bool → ReqType → Type 0 where
  reads : Fills false false read_sh
  writes : (has_writes : Bool) → Fills false has_writes read_own
  promotes : (has_writes : Bool) → Fills true has_writes upgrade

-- Where a request takes the line from all others, whatever its state there is
taken-Exclusive :
    (s : LineState) (f : LineState → LineState)
    → ((t : LineState) → f t ≡ invalid)
    → (ts : List LineState) → Exclusive s (map f ts)
taken-Exclusive s f h [] = tt
taken-Exclusive s f h (t ∷ ts) =
    (λ e. h t, λ e. absurd (cc (ap is_private (sym (h t)) ∙ e)), taken-Exclusive s f h ts)

taken-Single :
    (f : LineState → LineState)
    → ((t : LineState) → f t ≡ invalid)
    → (ts : List LineState) → Single (map f ts)
taken-Single f h [] = tt
taken-Single f h (t ∷ ts) = (taken-Exclusive (f t) f h ts, taken-Single f h ts)

takes_own : (t : LineState) → next_state read_own t ≡ invalid
unfolding snooped
takes_own t = elim (Bool-cases (is_invalid t)) [ inl e ↦ rw e | inr e ↦ rw e ]

takes_upgrade : (t : LineState) → next_state upgrade t ≡ invalid
unfolding snooped
takes_upgrade t = elim (Bool-cases (is_invalid t)) [ inl e ↦ rw e | inr e ↦ rw e ]

stays_shared : (t : LineState) → is_private (next_state read_sh t) ≡ false
unfolding snooped
stays_shared t = elim (Bool-cases (is_invalid t)) [ inl e ↦ rw e | inr e ↦ rw e ]

-- No cache answers that it shares the line: none has it.
nowhere :
    (t : LineState) (rest : List ReqType)
    → any_shared (reply_for read_sh t ∷ rest) ≡ false
    → (is_invalid t ≡ true) × (any_shared rest ≡ false)
nowhere t rest h = elim (Bool-cases (is_invalid t)) [
  | inl e ↦ (e, rw e at h)
  | inr e ↦ absurd (cc (rw e at h))
]

gone : (t : LineState) → is_invalid t ≡ true → next_state read_sh t ≡ invalid
gone t e = rw e

shared-Exclusive :
    (s : LineState)
    → is_private s ≡ false
    → (ts : List LineState) → Exclusive s (map (next_state read_sh) ts)
shared-Exclusive s h [] = tt
shared-Exclusive s h (t ∷ ts) =
    (λ e. absurd (cc (h, e)), λ e. absurd (cc (stays_shared t, e)), shared-Exclusive s h ts)

shared-Single : (ts : List LineState) → Single (map (next_state read_sh) ts)
shared-Single [] = tt
shared-Single (t ∷ ts) =
    (shared-Exclusive (next_state read_sh t) (stays_shared t) ts, shared-Single ts)

alone-Exclusive :
    (ts : List LineState)
    → any_shared (map (reply_for read_sh) ts) ≡ false
    → Exclusive pr_cl (map (next_state read_sh) ts)
alone-Exclusive [] h = tt
alone-Exclusive (t ∷ ts) h =
    let (e, rest) = nowhere t (map (reply_for read_sh) ts) h in
    (λ x. gone t e, λ x. absurd (cc (stays_shared t, x)), alone-Exclusive ts rest)

-- The state that the reply gives, beside those of the other caches
filled-Exclusive :
    (up w : Bool) (ty : ReqType)
    → Fills up w ty
    → (ts : List LineState)
    → Exclusive (reply_state up w (verdict (map (reply_for ty) ts))) (map (next_state ty) ts)
unfolding reply_state
filled-Exclusive _ _ _ reads ts = elim (Bool-cases (any_shared (map (reply_for read_sh) ts))) [
  | inl e ↦ rw e (shared-Exclusive sh_cl refl ts)
  | inr e ↦ rw e (alone-Exclusive ts e)
]
filled-Exclusive _ _ _ (writes w) ts =
    taken-Exclusive (reply_state false w (verdict (map (reply_for read_own) ts)))
      (next_state read_own) takes_own ts
filled-Exclusive _ _ _ (promotes w) ts =
    taken-Exclusive (reply_state true w (verdict (map (reply_for upgrade) ts))) (next_state upgrade)
      takes_upgrade ts

others-Single :
    (up w : Bool) (ty : ReqType)
    → Fills up w ty
    → (ts : List LineState) → Single (map (next_state ty) ts)
others-Single _ _ _ reads ts = shared-Single ts
others-Single _ _ _ (writes w) ts = taken-Single (next_state read_own) takes_own ts
others-Single _ _ _ (promotes w) ts = taken-Single (next_state upgrade) takes_upgrade ts

-- Where the first-level caches write through and nothing holds up a check, a request that all other
-- caches check, and its reply of the type that the controller makes of
-- their answers, leave the line private in at most one cache, and then in no other.
pub Broadcast-Single :
    (up w : Bool) (q : CoheReq) (cs : List L2) (ss : List LineState)
    → Fills up w q.req_type
    → q.answers ≡ []
    → Parties q cs ss
    → (ds : List L2) × (r : CoheReq) × (ts : List LineState) × Broadcast q cs ds r
      × AllShow q.vaddr q.paddr ds ts
      × Single (reply_state up w (verdict r.answers) ∷ ts)
Broadcast-Single up w q cs ss f z h =
    let (ds, r, n, shown, told) = broadcasts q cs ss h in
    let all = told ∙ ap (λ l. l ++ map (reply_for q.req_type) ss) z in
    (
      ds,
      r,
      map (next_state q.req_type) ss,
      n,
      shown,
      (
        subst (λ l. Exclusive (reply_state up w (verdict l)) (map (next_state q.req_type) ss))
            (sym all) (filled-Exclusive up w q.req_type f ss),
        others-Single up w q.req_type f ss,
      ),
    )
