-- ===== src/BranchPredictor/Stack.antt =====
-- RASInsert and RASPredict of Processor/branchpred.hh as a stack that forgets its oldest entries.
use ml_rsim.Prelude.{
  ℕ, zero, suc, ◌+◌, ◌-◌, ◌%◌, ◌≤◌, ◌<◌, ◌≡◌, ◌≢◌, refl, sym, ap, ◌∙◌, arith, true, some, List, [],
  ◌∷◌, ok, ltb, ◌==◌, if◌then◌else◌, length, get_elem?, get_elem?-some, get_elem?-set_self,
  get_elem?-set_ne, length-set, set, mod_wrap,
}
use native.Mathlib.Nat.{mod-lt}
use ml_rsim.BranchPredictor.{Predictor, ras_insert, ras_predict}

-- The first `n` elements
abbrev pub take : ℕ → List ℕ → List ℕ
take zero xs = []
take (suc n) [] = []
take (suc n) (x ∷ xs) = x ∷ take n xs

-- The slot that is `i` steps below the top
abbrev pub below : Predictor → ℕ → ℕ
below p i = (p.rasptr + p.ras_stksz - 1 - i) % p.ras_stksz

-- The array holds the addresses `xs`, the latest first.
pub record Holds (p : Predictor) (xs : List ℕ) : Type 0 where
  pub room : 0 < p.ras_stksz
  pub sized : length p.return_address_stack ≡ p.ras_stksz
  pub ptr : p.rasptr < p.ras_stksz
  pub count : p.rascnt ≡ length xs
  pub fits : length xs ≤ p.ras_stksz
  pub stored :
      (i x : ℕ) → get_elem? xs i ≡ some x → get_elem? p.return_address_stack (below p i) ≡ some x

length-take :
    (n : ℕ) (xs : List ℕ) → length (take n xs) ≡ (if ltb n (length xs) then n else length xs)
length-take zero [] = refl
length-take zero (x ∷ xs) = ground arith
length-take (suc n) [] = ground arith
length-take (suc n) (x ∷ xs) = let e = length-take n xs in ground (arith, e)

get_elem?-take :
    (n : ℕ) (xs : List ℕ) (i x : ℕ)
    → get_elem? (take n xs) i ≡ some x
    → (i < n) × (get_elem? xs i ≡ some x)
get_elem?-take zero xs i x h = absurd (cc h)
get_elem?-take (suc n) [] i x h = absurd (cc h)
get_elem?-take (suc n) (y ∷ xs) zero x h = (omega arith, h)
get_elem?-take (suc n) (y ∷ xs) (suc i) x h =
    let (l, e) = get_elem?-take n xs i x h in (omega (arith, l), e)

module _ (p : Predictor) (xs : List ℕ) (h : Holds p xs) where
  wrap :
      (k : ℕ)
      → k < p.ras_stksz + p.ras_stksz
      → k % p.ras_stksz ≡ (if ltb k p.ras_stksz then k else k - p.ras_stksz)
  wrap k l = mod_wrap k p.ras_stksz h.room l

  -- One step up: the slots below the new top
  up : ℕ
  up = (p.rasptr + 1) % p.ras_stksz

  up_first : (up + p.ras_stksz - 1 - 0) % p.ras_stksz ≡ p.rasptr
  unfolding up
  up_first =
      let a = wrap (p.rasptr + 1) (omega (arith, h.ptr)) in
      let m : (p.rasptr + 1) % p.ras_stksz < p.ras_stksz = mod-lt (p.rasptr + 1) h.room in
      let b =
        wrap ((p.rasptr + 1) % p.ras_stksz + p.ras_stksz - 1 - 0) (omega (arith, m, h.room)) in
      ground (arith, a, b, m, h.ptr, h.room)

  up_rest : (i : ℕ) → suc i < p.ras_stksz → (up + p.ras_stksz - 1 - suc i) % p.ras_stksz ≡ below p i
  unfolding up
  up_rest i l =
      let a = wrap (p.rasptr + 1) (omega (arith, h.ptr)) in
      let m : (p.rasptr + 1) % p.ras_stksz < p.ras_stksz = mod-lt (p.rasptr + 1) h.room in
      let b =
        wrap ((p.rasptr + 1) % p.ras_stksz + p.ras_stksz - 1 - suc i) (omega (arith, m, h.room)) in
      let c = wrap (p.rasptr + p.ras_stksz - 1 - i) (omega (arith, h.ptr, h.room)) in
      ground (arith, a, b, c, m, h.ptr, h.room, l)

  below_ne : (i : ℕ) → suc i < p.ras_stksz → p.rasptr ≢ below p i
  below_ne i l e =
      let c = wrap (p.rasptr + p.ras_stksz - 1 - i) (omega (arith, h.ptr, h.room)) in
      ground (arith, c, e, h.ptr, h.room, l)

  -- One step down
  down_rest :
      (i : ℕ)
      → suc i < p.ras_stksz
      → (below p 0 + p.ras_stksz - 1 - i) % p.ras_stksz ≡ below p (suc i)
  down_rest i l =
      let a = wrap (p.rasptr + p.ras_stksz - 1 - 0) (omega (arith, h.ptr, h.room)) in
      let m : below p 0 < p.ras_stksz = mod-lt (p.rasptr + p.ras_stksz - 1 - 0) h.room in
      let b = wrap (below p 0 + p.ras_stksz - 1 - i) (omega (arith, m, h.room)) in
      let c = wrap (p.rasptr + p.ras_stksz - 1 - suc i) (omega (arith, h.ptr, h.room)) in
      ground (arith, a, b, c, m, h.ptr, h.room, l)

  abbrev pub inserted : ℕ → Predictor
  inserted a = record p {
    return_address_stack = set p.return_address_stack p.rasptr a;
    ras_overflows = if p.rascnt == p.ras_stksz then p.ras_overflows + 1 else p.ras_overflows;
    rascnt = if p.rascnt == p.ras_stksz then p.rascnt else p.rascnt + 1;
    rasptr = (p.rasptr + 1) % p.ras_stksz;
  }

  has_room : ltb 0 p.ras_stksz ≡ true
  has_room = let r = h.room in ground (arith, r)

  pub inserts : (a : ℕ) → ras_insert p a ≡ ok (inserted a)
  unfolding ras_insert
  inserts a =
      let (old, at) =
        get_elem?-some p.return_address_stack p.rasptr (omega (arith, h.sized, h.ptr)) in
      rw (has_room, at) refl

  taken :
      (a : ℕ)
      → length (take p.ras_stksz (a ∷ xs))
        ≡ (if p.rascnt == p.ras_stksz then p.rascnt else p.rascnt + 1)
  taken a =
      let e = length-take p.ras_stksz (a ∷ xs) in
      let f = h.fits in let c = h.count in ground (arith, e, f, c)

  -- The addresses stand where the stack after the insertion has them.
  moved :
      (a i x : ℕ)
      → get_elem? (a ∷ xs) i ≡ some x
      → i < p.ras_stksz
      → get_elem? (set p.return_address_stack p.rasptr a) ((up + p.ras_stksz - 1 - i) % p.ras_stksz)
        ≡ some x
  moved a zero x e l =
      ap (get_elem? (set p.return_address_stack p.rasptr a)) up_first
      ∙ get_elem?-set_self p.return_address_stack p.rasptr a (omega (arith, h.sized, h.ptr))
      ∙ e
  moved a (suc i) x e l =
      ap (get_elem? (set p.return_address_stack p.rasptr a)) (up_rest i l)
      ∙ get_elem?-set_ne p.return_address_stack p.rasptr (below p i) a (below_ne i l)
      ∙ h.stored i x e

  pub inserted-Holds : (a : ℕ) → Holds (inserted a) (take p.ras_stksz (a ∷ xs))
  unfolding up
  inserted-Holds a = record {
    room = h.room;
    sized = length-set p.return_address_stack p.rasptr a ∙ h.sized;
    ptr = mod-lt (p.rasptr + 1) h.room;
    count = sym (taken a);
    fits = let e = length-take p.ras_stksz (a ∷ xs) in ground (arith, e);
    stored = λ i x e. let (l, f) = get_elem?-take p.ras_stksz (a ∷ xs) i x e in moved a i x f l;
  }

  abbrev pub popped : Predictor
  popped = record p {
    ras_underflows = if p.rascnt == 0 then p.ras_underflows + 1 else p.ras_underflows;
    rascnt = if p.rascnt == 0 then p.rascnt else p.rascnt - 1;
    rasptr = (p.rasptr + p.ras_stksz - 1) % p.ras_stksz;
  }

  top : (p.rasptr + p.ras_stksz - 1) % p.ras_stksz ≡ below p 0
  top = ap (λ (x : ℕ). x % p.ras_stksz) (omega arith)

  pub predicts :
      (x : ℕ)
      → get_elem? p.return_address_stack (below p 0) ≡ some x
      → ras_predict p ≡ ok (x, popped)
  unfolding ras_predict
  predicts x at =
      let e : get_elem? p.return_address_stack ((p.rasptr + p.ras_stksz - 1) % p.ras_stksz)
          ≡ some x =
        ap (get_elem? p.return_address_stack) top ∙ at in
      rw (has_room, e) refl

  pub popped-Holds :
      (ys : List ℕ)
      → length ys ≡ length xs - 1
      → ((i x : ℕ)
          → get_elem? ys i ≡ some x
          → (get_elem? xs (suc i) ≡ some x) × (suc i < p.ras_stksz))
      → Holds popped ys
  popped-Holds ys len tail_ = record {
    room = h.room;
    sized = h.sized;
    ptr = mod-lt (p.rasptr + p.ras_stksz - 1) h.room;
    count = let c = h.count in ground (arith, c, len);
    fits = omega (arith, len, h.fits);
    stored = λ i x e.
        let (f, l) = tail_ i x e in
        ap (λ (k : ℕ). get_elem? p.return_address_stack ((k + p.ras_stksz - 1 - i) % p.ras_stksz))
          top
        ∙ ap (get_elem? p.return_address_stack) (down_rest i l)
        ∙ h.stored (suc i) x f;
  }
