-- ===== src/UncachedBuffer/Align.antt =====
-- The two loops of `MaxCoalesce` that halve the size of an entry.
use ml_rsim.Prelude.{
  ℕ, zero, suc, ◌/◌, ◌%◌, ◌^◌, ◌≤◌, ◌<◌, ◌≡◌, ◌⊎◌, inl, inr, refl, sym, ap, subst, arith, true,
  Bool-cases, ltb, leb, mod_twice, ◌+◌, ◌*◌, ◌-◌, ◌==◌,
}
use native.Mathlib.Nat.{pow-suc, one-le-pow}
use ml_rsim.UncachedBuffer.Send.{align_loop, shrink_loop}

pub pow_half : (k : ℕ) → 2 ^ suc k / 2 ≡ 2 ^ k
pow_half k = omega (arith, pow-suc 2 k)

pub pow_big : (k : ℕ) → ltb 1 (2 ^ suc k) ≡ true
pow_big k =
    let e = pow-suc 2 k in let p : 1 ≤ 2 ^ k = one-le-pow k 2 (omega arith) in ground (arith, e, p)

pub lt_pow : (k : ℕ) → k < 2 ^ k
lt_pow zero = omega arith
lt_pow (suc k) = omega (arith, lt_pow k, pow-suc 2 k)

-- The largest power of two up to `2 ^ k` with a property: the next one lacks it, or is too large.
pub record LargestPower (k : ℕ) (P : ℕ → Type 0) (n : ℕ) : Type 0 where
  pub power : ℕ
  pub is_power : n ≡ 2 ^ power
  pub fits : power ≤ k
  pub has : P n
  pub no_more : (power ≡ k) ⊎ (P (2 ^ suc power) → ⊥)

pub larger :
    {k : ℕ} {P : ℕ → Type 0} {n : ℕ}
    → (P (2 ^ suc k) → ⊥)
    → LargestPower k P n
    → LargestPower (suc k) P n
larger {k} {P} h l = record {
  power = l.power;
  is_power = l.is_power;
  fits = omega (arith, l.fits);
  has = l.has;
  no_more = elim l.no_more [
    | inl e ↦ inr (subst (λ (i : ℕ). P (2 ^ suc i) → ⊥) (sym e) h)
    | inr f ↦ inr f
  ];
}

pub whole : {P : ℕ → Type 0} (k : ℕ) → P (2 ^ k) → LargestPower k P (2 ^ k)
whole k h = record { power = k; is_power = refl; fits = omega arith; has = h; no_more = inl refl }

abbrev pub Divides : ℕ → ℕ → Type 0
Divides start n = start % n ≡ 0

pub align_loop-LargestPower :
    (fuel k start : ℕ) → k ≤ fuel → LargestPower k (Divides start) (align_loop fuel start (2 ^ k))
unfolding align_loop
align_loop-LargestPower zero zero start h = whole zero (omega arith)
align_loop-LargestPower zero (suc k) start h = absurd (omega arith)
align_loop-LargestPower (suc fuel) zero start h = whole zero (omega arith)
align_loop-LargestPower (suc fuel) (suc k) start h = elim (Bool-cases (start % 2 ^ suc k == 0)) [
  | inl e ↦ rw (pow_big k, e) (whole (suc k) (ground (arith, e)))
  | inr e ↦
      rw (pow_big k, e, pow_half k)
        (larger (λ d. ground (arith, e, d)) (align_loop-LargestPower fuel k start (omega arith)))
]

pub shrink_loop-LargestPower :
    (fuel k most : ℕ)
    → k ≤ fuel
    → 1 ≤ most
    → LargestPower k (λ n. n ≤ most) (shrink_loop fuel most (2 ^ k))
unfolding shrink_loop
shrink_loop-LargestPower zero zero most h p = whole zero p
shrink_loop-LargestPower zero (suc k) most h p = absurd (omega arith)
shrink_loop-LargestPower (suc fuel) zero most h p = elim (Bool-cases (ltb most 1)) [
  | inl e ↦ absurd (ground (arith, e, p))
  | inr e ↦ rw e (whole zero p)
]
shrink_loop-LargestPower (suc fuel) (suc k) most h p = elim (Bool-cases (ltb most (2 ^ suc k))) [
  | inr e ↦ rw e (whole (suc k) (ground (arith, e)))
  | inl e ↦
      rw (e, pow_half k)
        (larger (λ d. ground (arith, e, d)) (shrink_loop-LargestPower fuel k most (omega arith) p))
]

-- What divides by a power of two divides by the smaller ones.
halved : (a x : ℕ) → Divides x (2 ^ suc a) → Divides x (2 ^ a)
halved zero x h = omega arith
halved (suc a) x h =
    let e : x % 2 ^ suc (suc a) ≡ x % (2 ^ suc a * 2) =
      ap (λ (m : ℕ). x % m) (omega (arith, pow-suc 2 (suc a))) in
    let g : x % 2 ^ suc a ≡ x % (2 ^ a * 2) = ap (λ (m : ℕ). x % m) (omega (arith, pow-suc 2 a)) in
    omega (
      arith,
      h,
      e,
      g,
      mod_twice x (2 ^ suc a) (one-le-pow (suc a) 2 (omega arith)),
      mod_twice x (2 ^ a) (one-le-pow a 2 (omega arith)),
      halved a (x / 2)
          (omega (arith, h, e, mod_twice x (2 ^ suc a) (one-le-pow (suc a) 2 (omega arith)))),
    )

lowered : (d a x : ℕ) → Divides x (2 ^ (d + a)) → Divides x (2 ^ a)
lowered zero a x h = subst (λ (n : ℕ). Divides x (2 ^ n)) (omega arith) h
lowered (suc d) a x h =
    lowered d a x
      (halved (d + a) x (subst (λ (n : ℕ). Divides x (2 ^ n)) {x = suc d + a} (omega arith) h))

pow_up : (d a : ℕ) → 2 ^ a ≤ 2 ^ (d + a)
pow_up zero a = subst (λ (n : ℕ). 2 ^ a ≤ 2 ^ n) {x = a} (omega arith) (omega arith)
pow_up (suc d) a =
    subst (λ (n : ℕ). 2 ^ a ≤ 2 ^ n) {x = suc (d + a)} (omega arith)
      (omega (arith, pow_up d a, pow-suc 2 (d + a)))

pub pow_le : (a b : ℕ) → 2 ^ a ≤ 2 ^ b → a ≤ b
pow_le a b h = elim (Bool-cases (leb a b)) [
  | inl e ↦ ground (arith, e)
  | inr e ↦
      let lt : b < a = ground (arith, e) in
      let u : 2 ^ suc b ≤ 2 ^ a =
        subst (λ (n : ℕ). 2 ^ suc b ≤ 2 ^ n) (omega (arith, lt)) (pow_up (a - suc b) (suc b)) in
      absurd (omega (arith, h, u, pow-suc 2 b, one-le-pow b 2))
]

pub lower_power : (a b x : ℕ) → a ≤ b → Divides x (2 ^ b) → Divides x (2 ^ a)
lower_power a b x h d =
    lowered (b - a) a x (subst (λ (n : ℕ). Divides x (2 ^ n)) (omega (arith, h)) d)
