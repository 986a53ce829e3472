-- ===== src/Speculation/Steps.antt =====
-- Processor/branchpred.cc: what happens between a branch and its resolution, and what it keeps.
use ml_rsim.Prelude.{
  ℕ, ◌<◌, ◌≡◌, ◌≢◌, refl, sym, ap, ◌∙◌, subst, Bool-cases, inl, inr, Option, none, some, List, [],
  ◌∷◌, Checked, ok, fatal, leb, length,
}
use ml_rsim.Speculation.{
  MapTable, Element, Speculation, add_branch_q, take_out, wake, remove_from_branch_q, exchange,
  copy_branch_q, flush_loop, flush_branch_q,
}
use ml_rsim.Speculation.Ordered.{
  Below, Ordered, Has, older, exchange-older, exchange-Has, older-Ordered, older-Has, take_out-Kept,
}

-- What can happen between a branch with tag `t` and its own resolution
pub data Step (max_spec t : ℕ) : Speculation → Speculation → Type 0 where
  -- An instruction gets new registers, or a register is freed.
  rename : (s : Speculation) (m : MapTable) → Step max_spec t s (record s { active = m })
  -- A later branch comes, the youngest of all.
  branch :
      (s s' : Speculation) (tag : ℕ)
      → Below tag s.branchq
      → add_branch_q max_spec tag s ≡ some s'
      → Step max_spec t s s'
  -- The queue is full, and the branch waits.
  wait : (s : Speculation) (q : List ℕ) → Step max_spec t s (record s { branch_dep = q })
  -- Another branch was predicted right. One that waits is the youngest of all.
  right :
      (s s' : Speculation) (tag : ℕ)
      → tag ≢ t
      → ((i : ℕ) (rest : List ℕ) → s.branch_dep ≡ i ∷ rest → Below i s.branchq)
      → remove_from_branch_q max_spec tag s ≡ ok (some s')
      → Step max_spec t s s'
  -- A later branch was predicted wrong.
  wrong :
      (s s' : Speculation) (tag : ℕ)
      → t < tag
      → copy_branch_q tag s ≡ some s'
      → Step max_spec t s (flush_branch_q tag s')

pub data Steps (max_spec t : ℕ) : Speculation → Speculation → Type 0 where
  none_yet : (s : Speculation) → Steps max_spec t s s
  then_one :
      (s s' s'' : Speculation)
      → Steps max_spec t s s'
      → Step max_spec t s' s''
      → Steps max_spec t s s''

-- The queue is in order, and the branch has its element with the mappers that it saved.
pub record Saved (t : ℕ) (m : MapTable) (s : Speculation) : Type 0 where
  pub ordered : Ordered s.branchq
  pub has : Has t m s.branchq

module _ (max_spec : ℕ) where
  pub added :
      (tag : ℕ) (s s' : Speculation)
      → add_branch_q max_spec tag s ≡ some s'
      → record s { branchq = record { tag = tag; specmap = s.active } ∷ s.branchq } ≡ s'
  unfolding add_branch_q
  added tag s s' e = elim (Bool-cases (leb max_spec (length s.branchq))) [
    | inl k ↦ absurd (cc (rw k at e))
    | inr k ↦ cc (rw k at e)
  ]

  Saved-add :
      (t tag : ℕ) (m : MapTable) (s s' : Speculation)
      → Below tag s.branchq
      → add_branch_q max_spec tag s ≡ some s'
      → Saved t m s
      → Saved t m s'
  Saved-add t tag m s s' b e v =
      subst (Saved t m) (added tag s s' e) (record { ordered = (b, v.ordered); has = inr v.has })

  Saved-wake :
      (t : ℕ) (m : MapTable) (dep : List ℕ) (s s' : Speculation)
      → ((i : ℕ) (rest : List ℕ) → dep ≡ i ∷ rest → Below i s.branchq)
      → wake max_spec dep s ≡ ok (some s')
      → Saved t m s
      → Saved t m s'
  unfolding wake
  Saved-wake t m [] s s' young e v = let same : s ≡ s' = cc (e) in subst (Saved t m) same v
  Saved-wake t m (i ∷ rest) s s' young e v =
      by_add (add_branch_q max_spec i (record s { branch_dep = rest }))
        (λ a f.
          Saved-add t i m (record s { branch_dep = rest }) a (young i rest refl) f
            (record { ordered = v.ordered; has = v.has }))
        e
    where
      by_add :
          (r : Option Speculation)
          → ((a : Speculation) → r ≡ some a → Saved t m a)
          → (elim r as (λ _. Checked (Option Speculation)) [
            | none ↦ fatal
            | some after ↦ ok (some after)
          ])
            ≡ ok (some s')
          → Saved t m s'
      by_add none h g = absurd (cc (g))
      by_add (some a) h g = let same : a ≡ s' = cc (g) in subst (Saved t m) same (h a refl)

  removed :
      (t tag : ℕ) (m : MapTable) (s s' : Speculation)
      → tag ≢ t
      → ((i : ℕ) (rest : List ℕ) → s.branch_dep ≡ i ∷ rest → Below i s.branchq)
      → remove_from_branch_q max_spec tag s ≡ ok (some s')
      → Saved t m s
      → Saved t m s'
  unfolding remove_from_branch_q
  removed t tag m s s' ne young e v = by_out (take_out tag s.branchq) refl e
    where
      by_out :
          (r : Option (List Element))
          → take_out tag s.branchq ≡ r
          → (elim r as (λ _. Checked (Option Speculation)) [
            | none ↦ ok none
            | some q ↦ wake max_spec s.branch_dep (record s { branchq = q })
          ])
            ≡ ok (some s')
          → Saved t m s'
      by_out none f g = absurd (cc (g))
      by_out (some q) f g =
          let k = take_out-Kept tag s.branchq q f in
          Saved-wake t m s.branch_dep (record s { branchq = q }) s'
            (λ i rest h. k.below i (young i rest h)) g
            (record { ordered = k.ordered v.ordered; has = k.has t m ne v.has })

  copied :
      (tag : ℕ) (s s' : Speculation)
      → copy_branch_q tag s ≡ some s'
      → Ordered s.branchq
      → (flush_branch_q tag s').branchq ≡ older tag s.branchq
  unfolding copy_branch_q flush_branch_q
  copied tag s s' e o = by_exchange (exchange tag s.active s.branchq) refl e
    where
      by_exchange :
          (r : Option (MapTable × List Element))
          → exchange tag s.active s.branchq ≡ r
          → (elim r as (λ _. Option Speculation) [
            | none ↦ none
            | some (found, q) ↦ some (record s { active = found; branchq = q })
          ])
            ≡ some s'
          → flush_loop tag s'.branchq ≡ older tag s.branchq
      by_exchange none f g = absurd (cc (g))
      by_exchange (some (found, q)) f g =
          let same : record s { active = found; branchq = q } ≡ s' = cc (g) in
          let (q', f', h) =
            exchange-older tag s.active found s.branchq o
              (exchange-Has tag s.active found s.branchq q f) in
          let eq : q' ≡ q = cc (f, f') in
          subst (λ (a : Speculation). flush_loop tag a.branchq ≡ older tag s.branchq) same
            (ap (flush_loop tag) (sym eq) ∙ h)

  Saved-Step :
      (t : ℕ) (m : MapTable) (s s' : Speculation)
      → Step max_spec t s s'
      → Saved t m s
      → Saved t m s'
  unfolding flush_branch_q
  Saved-Step t m _ _ (rename s x) v = record { ordered = v.ordered; has = v.has }
  Saved-Step t m _ _ (branch s s' tag b e) v = Saved-add t tag m s s' b e v
  Saved-Step t m _ _ (wait s q) v = record { ordered = v.ordered; has = v.has }
  Saved-Step t m _ _ (right s s' tag ne young e) v = removed t tag m s s' ne young e v
  Saved-Step t m _ _ (wrong s s' tag l e) v =
      let f = copied tag s s' e v.ordered in
      record {
        ordered = subst Ordered (sym f) (older-Ordered tag s.branchq v.ordered);
        has = subst (Has t m) (sym f) (older-Has tag t m s.branchq l v.has);
      }

  pub Saved-Steps :
      (t : ℕ) (m : MapTable) (s s' : Speculation)
      → Steps max_spec t s s'
      → Saved t m s
      → Saved t m s'
  Saved-Steps t m _ _ (none_yet s) v = v
  Saved-Steps t m _ _ (then_one s s' s'' r x) v = Saved-Step t m s' s'' x (Saved-Steps t m s s' r v)
