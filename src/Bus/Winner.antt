-- ===== src/Bus/Winner.antt =====
-- `Bus_arbitrator` of Bus/bus.c: who gets the bus next.
use ml_rsim.Prelude.{
  ℕ, zero, suc, ◌+◌, ◌<◌, ◌≤◌, ◌≡◌, refl, sym, ap, ◌∙◌, subst, ◌⊎◌, inl, inr, Bool, true, false,
  Option, none, some, arith, ok, ltb, ◌==◌, ==_iff, if◌then◌else◌, Bool-cases, Option-cases, ltb→lt,
  ltb_false→le, length, get_elem?, get_elem?-some,
}
use ml_rsim.Bus.{Req, Waiter, Params, Bus, held_back, sooner, consider, seek}

pub some_inj : {v w : Waiter} → some v ≡ some w → v ≡ w
some_inj e = cc

module _ (c : Params) (b : Bus) where
  -- Module `i` waits for the bus from `t` on, and nothing holds its request back.
  pub record MayGo (i t : ℕ) : Type 0 where
    pub waiter : Waiter
    pub req : Req
    pub listed : get_elem? b.arbwaiters i ≡ some waiter
    pub waits : waiter.req ≡ some req
    pub free : held_back c b req ≡ false
    pub since : waiter.time ≡ t

  -- The best of the modules of `seen`: one that has waited as long as any.
  pub data Best (seen : ℕ → Type 0) (o : Option (ℕ × ℕ)) : Type 0 where
    nobody : o ≡ none → ((j t : ℕ) → seen j → ¬ MayGo j t) → Best seen o
    first :
        (i t : ℕ)
        → o ≡ some (i, t)
        → seen i
        → MayGo i t
        → ((j u : ℕ) → seen j → MayGo j u → t ≤ u)
        → Best seen o

  pub Best-mono :
      {seen seen' : ℕ → Type 0} {o : Option (ℕ × ℕ)}
      → ((j : ℕ) → seen j → seen' j)
      → ((j : ℕ) → seen' j → seen j)
      → Best seen o
      → Best seen' o
  Best-mono f g (nobody e all) = nobody e (λ j t s. all j t (g j s))
  Best-mono f g (first i t e s m all) = first i t e (f i s) m (λ j u s'. all j u (g j s'))

  -- The module `i` that is looked at does not wait, or is held back.
  stays :
      (seen : ℕ → Type 0) (i : ℕ) (o : Option (ℕ × ℕ))
      → ((t : ℕ) → ¬ MayGo i t)
      → Best seen o
      → Best (λ j. seen j ⊎ (j ≡ i)) o
  stays seen i o out (nobody e all) =
      nobody e (λ j t s. elim s [
        | inl old ↦ all j t old
        | inr q ↦ λ m. out t (subst (λ x. MayGo x t) q m)
      ])
  stays seen i o out (first k t e s m all) = first k t e (inl s) m (λ j u s' m'. elim s' [
    | inl old ↦ all j u old m'
    | inr q ↦ absurd (out u (subst (λ x. MayGo x u) q m'))
  ])

  same_time : (i t u : ℕ) → MayGo i t → MayGo i u → t ≡ u
  same_time i t u m m' =
      sym m.since ∙ ap (λ w. w.time) (some_inj (sym m.listed ∙ m'.listed)) ∙ m'.since

  no_sooner : (i j t u : ℕ) → MayGo i t → j ≡ i → MayGo j u → t ≤ u
  no_sooner i j t u m q m' = omega (arith, same_time i t u m (subst (λ x. MayGo x u) q m'))

  -- It may go, and is compared with the best so far.
  joins :
      (seen : ℕ → Type 0) (i t : ℕ) (o : Option (ℕ × ℕ))
      → MayGo i t
      → Best seen o
      → Best (λ j. seen j ⊎ (j ≡ i)) (if sooner c t o then some (i, t) else o)
  joins seen i t o m (nobody e all) = rw e (
      first i t refl (inr refl) m (λ j u s m'. elim s [
        | inl old ↦ absurd (all j u old m')
        | inr q ↦ no_sooner i j t u m q m'
      ]))
  joins seen i t o m (first k u e s m0 all) = rw e (elim (Bool-cases (ltb t u)) [
    | inl lt ↦ rw lt (
        first i t refl (inr refl) m (λ j v s' m'. elim s' [
          | inl old ↦ omega (arith, all j v old m', ltb→lt t u lt)
          | inr q ↦ no_sooner i j t v m q m'
        ]))
    | inr ge ↦ rw ge (
        first k u refl (inl s) m0 (λ j v s' m'. elim s' [
          | inl old ↦ all j v old m'
          | inr q ↦ omega (arith, no_sooner i j t v m q m', ltb_false→le t u ge)
        ]))
  ])

  consider-none : (i : ℕ) (w : Waiter) (o : Option (ℕ × ℕ)) → w.req ≡ none → consider c b i w o ≡ o
  unfolding consider
  consider-none i w o e = ground (arith, e)

  consider-held :
      (i : ℕ) (w : Waiter) (r : Req) (o : Option (ℕ × ℕ))
      → w.req ≡ some r
      → held_back c b r ≡ true
      → consider c b i w o ≡ o
  unfolding consider
  consider-held i w r o e h = ground (arith, e, h)

  consider-free :
      (i : ℕ) (w : Waiter) (r : Req) (o : Option (ℕ × ℕ))
      → w.req ≡ some r
      → held_back c b r ≡ false
      → consider c b i w o ≡ (if sooner c w.time o then some (i, w.time) else o)
  unfolding consider
  consider-free i w r o e h = ground (arith, e, h)

  consider-Best :
      (seen : ℕ → Type 0) (i : ℕ) (w : Waiter) (o : Option (ℕ × ℕ))
      → get_elem? b.arbwaiters i ≡ some w
      → Best seen o
      → Best (λ j. seen j ⊎ (j ≡ i)) (consider c b i w o)
  consider-Best seen i w o at best = elim (Option-cases w.req) [
    | inl e ↦
        subst (Best (λ j. seen j ⊎ (j ≡ i))) (sym (consider-none i w o e))
          (stays seen i o (λ t m. idle e m) best)
    | inr (r, e) ↦ elim (Bool-cases (held_back c b r)) [
      | inl h ↦
          subst (Best (λ j. seen j ⊎ (j ≡ i))) (sym (consider-held i w r o e h))
            (stays seen i o (λ t m. held e h m) best)
      | inr h ↦ subst (Best (λ j. seen j ⊎ (j ≡ i))) (sym (consider-free i w r o e h)) (
          joins seen i w.time o
            (record { waiter = w; req = r; listed = at; waits = e; free = h; since = refl }) best)
    ]
  ]
    where
      idle : {t : ℕ} → w.req ≡ none → MayGo i t → ⊥
      idle e m = let q = some_inj (sym at ∙ m.listed) in apart (sym e ∙ ap (λ x. x.req) q ∙ m.waits)
        where
          apart : {r : Req} → none ≡ some r → ⊥
          apart p = cc

      held : {t : ℕ} {r : Req} → w.req ≡ some r → held_back c b r ≡ true → MayGo i t → ⊥
      held e h m =
          let q = some_inj (sym at ∙ m.listed) in
          apart (sym (ap (held_back c b) (req_inj (sym e ∙ ap (λ x. x.req) q ∙ m.waits))) ∙ h)
            m.free
        where
          req_inj : {r r' : Req} → some r ≡ some r' → r ≡ r'
          req_inj p = cc

          apart : {x : Bool} → x ≡ true → x ≡ false → ⊥
          apart p p' = cc

  -- The search through the modules from `i` to `i + k` - 1.
  pub seek-Best :
      (k i : ℕ) (seen : ℕ → Type 0) (o : Option (ℕ × ℕ))
      → i + k ≤ length b.arbwaiters
      → Best seen o
      → (o' : Option (ℕ × ℕ)) × (seek c b k i o ≡ ok o')
        × Best (λ j. seen j ⊎ ((i ≤ j) × (j < i + k))) o'
  unfolding seek
  seek-Best zero i seen o h best = (
    o,
    refl,
    Best-mono (λ j s. inl s)
        (λ j s. elim s [ inl old ↦ old | inr (p, q) ↦ absurd (omega (arith, p, q)) ]) best,
  )
  seek-Best (suc k) i seen o h best =
      let (w, at) = get_elem?-some b.arbwaiters i (omega (arith, h)) in
      let (o', e, best') =
        seek-Best k (i + 1) (λ j. seen j ⊎ (j ≡ i)) (consider c b i w o) (omega (arith, h))
          (consider-Best seen i w o at best) in
      (
        o',
        simp (at, e),
        Best-mono
            (λ j s. elim s [
              | inl (inl old) ↦ inl old
              | inl (inr q) ↦ inr (omega (arith, q), omega (arith, q))
              | inr (p, q) ↦ inr (omega (arith, p), omega (arith, q))
            ])
            (λ j s. elim s [
              | inl old ↦ inl (inl old)
              | inr (p, q) ↦ elim (Bool-cases (j == i)) [
                | inl hit ↦ inl (inr ((==_iff j i).0 hit))
                | inr miss ↦ inr (beyond miss p, omega (arith, q))
              ]
            ])
            best',
      )
    where
      beyond : {j : ℕ} → (j == i) ≡ false → i ≤ j → i + 1 ≤ j
      beyond m p = ground (arith, m, p)
