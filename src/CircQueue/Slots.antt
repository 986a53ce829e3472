-- ===== src/CircQueue/Slots.antt =====
-- The indices of Processor/circq.h: unsigned numbers that are cut to the bits of the mask.
use ml_rsim.Prelude.{
  ℕ, zero, suc, ◌+◌, ◌-◌, ◌%◌, ◌^◌, ◌≤◌, ◌<◌, ◌≡◌, refl, sym, ap, ◌∙◌, inl, inr, arith, ◌==◌,
  ==_iff, Bool, true, ◌&&◌, Bool-cases, bit_and, bit_and-ones, bump, mod_wrap,
}
use native.Mathlib.Nat.{one-le-pow, mod-eq_of_lt, pow-le-pow_right, add-mod_right}
use ml_rsim.CircQueue.{word}

-- All ones of a word, cut to fewer bits; checked for each width.
narrow_ones : ℕ → Bool
narrow_ones zero = true
narrow_ones (suc k) = ((word - 1) % 2 ^ k == 2 ^ k - 1) && narrow_ones k

narrow_ones_at : (n k : ℕ) → narrow_ones n ≡ true → k < n → (word - 1) % 2 ^ k ≡ 2 ^ k - 1
unfolding narrow_ones
narrow_ones_at zero k t h = elim h [ ]
narrow_ones_at (suc n) k t h = elim (Bool-cases (k == n)) [
  | inl last ↦ rw ((==_iff k n).0 last) ((==_iff _ _).0 (both t).0)
  | inr less ↦ narrow_ones_at n k (both t).1 (ground (arith, less))
]
  where
    both : {a b : Bool} → (a && b) ≡ true → (a ≡ true) × (b ≡ true)
    both e = ground (arith, e)

narrow_ones_all : narrow_ones 32 ≡ true
unfolding narrow_ones
narrow_ones_all = refl

word_ones : (k : ℕ) → k ≤ 31 → (word - 1) % 2 ^ k ≡ 2 ^ k - 1
word_ones k h = narrow_ones_at 32 k narrow_ones_all (omega arith)

pow_below : (k : ℕ) → k ≤ 31 → 2 ^ k ≤ 2 ^ 31
pow_below k h = pow-le-pow_right {n = 2} (omega arith) h

-- `x++; x &= mask;`
pub next_slot :
    (x k : ℕ) → k ≤ 31 → x < 2 ^ k → bit_and ((x + 1) % word) (2 ^ k - 1) ≡ bump x (2 ^ k)
next_slot x k h p =
    bit_and-ones ((x + 1) % word) k
    ∙ ground (arith, pow_below k h, mod_wrap (x + 1) (2 ^ k), one-le-pow k 2 (omega arith))

-- `--x; x &= mask;`
pub last_slot :
    (x k : ℕ)
    → k ≤ 31
    → x < 2 ^ k
    → bit_and ((x + word - 1) % word) (2 ^ k - 1) ≡ (x + (2 ^ k - 1)) % 2 ^ k
last_slot x k h p = bit_and-ones ((x + word - 1) % word) k ∙ back x p
  where
    back : (y : ℕ) → y < 2 ^ k → (y + word - 1) % word % 2 ^ k ≡ (y + (2 ^ k - 1)) % 2 ^ k
    back zero q =
        word_ones k h
        ∙ sym (mod-eq_of_lt (omega (arith, one-le-pow k 2 (omega arith))))
        ∙ ap (λ y. y % 2 ^ k) (omega arith)
    back (suc y) q =
        ap (λ z. z % 2 ^ k) (omega (arith, pow_below k h))
        ∙ sym (add-mod_right y (2 ^ k))
        ∙ ap (λ z. z % 2 ^ k) (omega (arith, one-le-pow k 2 (omega arith)))

pub offset_slot :
    (x i k : ℕ)
    → k ≤ 31
    → x < 2 ^ k
    → i < 2 ^ k
    → bit_and ((x + i) % word) (2 ^ k - 1) ≡ (x + i) % 2 ^ k
offset_slot x i k h p r =
    bit_and-ones ((x + i) % word) k ∙ ap (λ y. y % 2 ^ k) (omega (arith, pow_below k h))
