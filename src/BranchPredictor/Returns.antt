-- ===== src/BranchPredictor/Returns.antt =====
-- The stack of return addresses of Processor/branchpred.hh against a list.
use ml_rsim.Prelude.{
  ℕ, suc, ◌+◌, ◌-◌, ◌<◌, ◌≡◌, sym, ap, ◌∙◌, subst, arith, List, [], ◌∷◌, ok, ◌==◌, if◌then◌else◌,
  length, get_elem?, get_elem?-some, index_in,
}
use native.Mathlib.Nat.{mod-lt}
use ml_rsim.BranchPredictor.{Predictor, ras_insert, ras_predict}
use ml_rsim.BranchPredictor.Stack.{
  Holds, take, below, inserted, inserts, inserted-Holds, popped, predicts, popped-Holds,
}

-- The operations on a stack that holds the addresses `xs`
pub record IsStack (p : Predictor) (xs : List ℕ) : Type 0 where
  pub pushes :
      (a : ℕ) → (p' : Predictor) × (ras_insert p a ≡ ok p') × Holds p' (take p.ras_stksz (a ∷ xs))
  pub overflows :
      (a : ℕ)
      → (p' : Predictor) × (ras_insert p a ≡ ok p')
        × (p'.ras_overflows
            ≡ (if length xs == p.ras_stksz then p.ras_overflows + 1 else p.ras_overflows))
  pub pops :
      (x : ℕ) (ys : List ℕ)
      → xs ≡ x ∷ ys
      → (p' : Predictor) × (ras_predict p ≡ ok (x, p'))
        × Holds p' ys
        × (p'.ras_underflows ≡ p.ras_underflows)
  pub guesses :
      xs ≡ []
      → (x : ℕ) × (p' : Predictor) × (ras_predict p ≡ ok (x, p'))
        × Holds p' []
        × (p'.ras_underflows ≡ p.ras_underflows + 1)

module _ (p : Predictor) (xs : List ℕ) (h : Holds p xs) where
  push :
      (a : ℕ) → (p' : Predictor) × (ras_insert p a ≡ ok p') × Holds p' (take p.ras_stksz (a ∷ xs))
  push a = (inserted p xs h a, inserts p xs h a, inserted-Holds p xs h a)

  overflow :
      (a : ℕ)
      → (p' : Predictor) × (ras_insert p a ≡ ok p')
        × (p'.ras_overflows
            ≡ (if length xs == p.ras_stksz then p.ras_overflows + 1 else p.ras_overflows))
  overflow a = (
    inserted p xs h a,
    inserts p xs h a,
    ap (λ (n : ℕ). if n == p.ras_stksz then p.ras_overflows + 1 else p.ras_overflows) h.count,
  )

  pop :
      (x : ℕ) (ys : List ℕ)
      → xs ≡ x ∷ ys
      → (p' : Predictor) × (ras_predict p ≡ ok (x, p'))
        × Holds p' ys
        × (p'.ras_underflows ≡ p.ras_underflows)
  pop x ys e =
      let len : length xs ≡ suc (length ys) = ap length e in
      let c = h.count in
      (
        popped p xs h,
        predicts p xs h x (h.stored 0 x (ap (λ (l : List ℕ). get_elem? l 0) e)),
        popped-Holds p xs h ys (omega (arith, len)) (λ i y f. (
          ap (λ (l : List ℕ). get_elem? l (suc i)) e ∙ f,
          omega (arith, index_in ys i f, len, h.fits),
        )),
        ground (arith, c, len),
      )

  guess :
      xs ≡ []
      → (x : ℕ) × (p' : Predictor) × (ras_predict p ≡ ok (x, p'))
        × Holds p' []
        × (p'.ras_underflows ≡ p.ras_underflows + 1)
  guess e =
      let len : length xs ≡ 0 = ap length e in
      let c = h.count in
      let (x, at) = get_elem?-some p.return_address_stack (below p 0) (
        subst (λ (n : ℕ). below p 0 < n) (sym h.sized)
          (mod-lt (p.rasptr + p.ras_stksz - 1 - 0) h.room)) in
      (
        x,
        popped p xs h,
        predicts p xs h x at,
        popped-Holds p xs h [] (omega (arith, len)) (λ i y f. absurd (cc (f))),
        ground (arith, c, len),
      )

  -- RASInsert on a stack of return addresses puts the address on top and, where the stack is full,
  -- forgets the oldest and counts an overflow. RASPredict takes the latest address off; on an empty
  -- stack it gives some entry of the array, counts an underflow, and leaves the stack empty.
  pub Holds-IsStack : IsStack p xs
  Holds-IsStack = record { pushes = push; overflows = overflow; pops = pop; guesses = guess }
