-- ===== src/Bus/Sync.antt =====
-- The rounding of times to bus cycles in Bus/bus.c.
use ml_rsim.Prelude.{
  ℕ, zero, suc, ◌+◌, ◌-◌, ◌%◌, ◌<◌, ◌≤◌, ◌≡◌, ap, ◌∙◌, ◌⊎◌, inl, inr, true, false, arith, ok, ◌==◌,
  ==_iff, if◌then◌else◌, Bool-cases,
}
use native.Mathlib.Nat.{suc-mod, mod-eq_of_lt, mod-lt, mod_self}
use ml_rsim.Bus.{sync}

plus_one : (k : ℕ) → k + 1 ≡ suc k
plus_one k = omega arith

-- The remainder of the next number.
next_remainder :
    (n f : ℕ) → 0 < f → (((n + 1) % f ≡ 0) × (n % f + 1 ≡ f)) ⊎ ((n + 1) % f ≡ n % f + 1)
next_remainder n f p = elim (Bool-cases (suc (n % f) == f)) [
  | inl e ↦
      let q = (==_iff (suc (n % f)) f).0 e in
      inl (turn (suc-mod n f ∙ ap (λ x. x % f) q ∙ mod_self f), plus_one (n % f) ∙ q)
  | inr e ↦ inr (step (suc-mod n f ∙ mod-eq_of_lt (small e (mod-lt n p))))
]
  where
    turn : suc n % f ≡ 0 → (n + 1) % f ≡ 0
    turn q = rw (plus_one n) q

    step : suc n % f ≡ suc (n % f) → (n + 1) % f ≡ n % f + 1
    step q = rw (plus_one n) (q ∙ omega arith)

    small : {r : ℕ} → (suc r == f) ≡ false → r < f → suc r < f
    small q lt = ground (arith, q, lt)

-- What is missing to the next multiple of `f`
gap : ℕ → ℕ → ℕ
gap r f = if r == 0 then 0 else f - r

gap-next :
    (r r' f : ℕ)
    → (r == 0) ≡ false
    → r < f
    → ((r' ≡ 0) × (r + 1 ≡ f)) ⊎ (r' ≡ r + 1)
    → 1 + gap r' f ≡ gap r f
unfolding gap
gap-next r r' f h lt (inl (a, b)) = ground (arith, h, lt, a, b)
gap-next r r' f h lt (inr a) = ground (arith, h, lt, a)

module _ (fuel f start : ℕ) where
  sync-here : (start % f == 0) ≡ true → sync (suc fuel) f start ≡ ok start
  unfolding sync
  sync-here e = simp e

  sync-later : (start % f == 0) ≡ false → sync (suc fuel) f start ≡ sync fuel f (start + 1)
  unfolding sync
  sync-later e = simp e

gap-zero : (r f : ℕ) → (r == 0) ≡ true → gap r f ≡ 0
unfolding gap
gap-zero r f e = simp e

sync_from :
    (fuel f start : ℕ)
    → 0 < f
    → gap (start % f) f < fuel
    → (t : ℕ) × (sync fuel f start ≡ ok t) × (t % f ≡ 0) × (t ≡ start + gap (start % f) f)
sync_from zero f start p h = absurd (omega (arith, h))
sync_from (suc fuel) f start p h = elim (Bool-cases (start % f == 0)) [
  | inl e ↦ (
    start,
    sync-here fuel f start e,
    (==_iff (start % f) 0).0 e,
    omega (arith, gap-zero (start % f) f e),
  )
  | inr e ↦
      let g =
        gap-next (start % f) ((start + 1) % f) f e (mod-lt start p) (next_remainder start f p) in
      let (t, q, z, s) = sync_from fuel f (start + 1) p (less _ _ g h) in
      (t, sync-later fuel f start e ∙ q, z, s ∙ total _ _ g)
]
  where
    less : (x y : ℕ) → 1 + x ≡ y → y < suc fuel → x < fuel
    less x y q lt = omega (arith, q, lt)

    total : (x y : ℕ) → 1 + x ≡ y → start + 1 + x ≡ start + y
    total x y q = omega (arith, q)

gap-small : (r f : ℕ) → 0 < f → gap r f < f
unfolding gap
gap-small r f p = ground (arith, p)

-- The `while` loop ends with the first bus cycle that does not begin before `start`.
pub sync_lem :
    (f start : ℕ)
    → 0 < f
    → (t : ℕ) × (sync f f start ≡ ok t) × (t % f ≡ 0) × (start ≤ t) × (t < start + f)
sync_lem f start p =
    let (t, q, z, s) = sync_from f f start p (gap-small (start % f) f p) in
    (t, q, z, omega (arith, s), omega (arith, s, gap-small (start % f) f p))
