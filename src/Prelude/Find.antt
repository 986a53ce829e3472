-- ===== src/Prelude/Find.antt =====
-- A loop over an array that stops at the first element that passes a test.
use Prim.Native.Nat.{ℕ, zero, suc, ◌+◌}
use mathlib.Core.Path.{◌≡◌, refl, ap, ◌∙◌}
use mathlib.Core.Logic.{inl, inr}
use mathlib.Core.Bool.{Bool, true, false}
use mathlib.Core.Option.{Option, none, some}
use mathlib.Core.List.{List, [], ◌∷◌}
use native.Mathlib.Omega.{arith}
use ml_rsim.Prelude.Tests.{if◌then◌else◌, Bool-cases}
use ml_rsim.Prelude.Lists.{get_elem?}

module _ {ℓ} {A : Type ℓ} (p : A → Bool) where
  -- The index and the element, for elements behind `n` others
  unfoldable pub find_from : ℕ → List A → Option (ℕ × A)
  find_from n [] = none
  find_from n (x ∷ xs) = let rest = find_from (n + 1) xs in if p x then some (n, x) else rest

  pub data Sought (n : ℕ) (xs : List A) (r : Option (ℕ × A)) : Type ℓ where
    missing : r ≡ none → ((i : ℕ) (x : A) → get_elem? xs i ≡ some x → p x ≡ false) → Sought n xs r
    sought :
        (i : ℕ) (x : A) → r ≡ some (n + i, x) → get_elem? xs i ≡ some x → p x ≡ true → Sought n xs r

  not_here :
      (x : A) (xs : List A)
      → p x ≡ false
      → ((i : ℕ) (y : A) → get_elem? xs i ≡ some y → p y ≡ false)
      → (i : ℕ) (y : A) → get_elem? (x ∷ xs) i ≡ some y
      → p y ≡ false
  not_here x xs pass all zero y e = ap p (same e) ∙ pass
    where
      same : some x ≡ some y → y ≡ x
      same e = cc
  not_here x xs pass all (suc i) y e = all i y e

  pub find_from-Sought : (n : ℕ) (xs : List A) → Sought n xs (find_from n xs)
  unfolding find_from
  find_from-Sought n [] = missing refl (λ i x e. absurd (cc e))
  find_from-Sought n (x ∷ xs) = elim (Bool-cases (p x)) [
    | inl hit ↦ sought 0 x (rw hit (ap (λ k. some (k, x)) (omega arith))) refl hit
    | inr pass ↦ elim (find_from-Sought (n + 1) xs) [
      | missing e all ↦ missing (rw pass e) (not_here x xs pass all)
      | sought i y e at q ↦
          sought (suc i) y (rw pass (e ∙ ap (λ k. some (k, y)) (omega arith))) at q
    ]
  ]
