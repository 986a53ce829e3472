-- ===== src/Alu/Ones.antt =====
-- fnPOPC of Processor/funcs.cc against the sum of the binary digits.
use ml_rsim.Prelude.{
  ℕ, zero, suc, ◌+◌, ◌/◌, ◌%◌, ◌^◌, ◌<◌, ◌≡◌, refl, ap, ◌∙◌, inl, inr, arith, Bool-cases, some, ok,
  ◌==◌, if◌then◌else◌, get_elem?, bit_and, bit_and-ones,
}
use native.Mathlib.Nat.{pow-suc}
use ml_rsim.Alu.{modulus, Instance}
use ml_rsim.Alu.Divide.{popc_arr, popc_loop, fn_popc}

-- The number of ones among the lowest `n` binary digits
abbrev pub ones : ℕ → ℕ → ℕ
ones zero x = 0
ones (suc n) x = x % 2 + ones n (x / 2)

-- Four digits for each round
abbrev digits4 : ℕ → ℕ
digits4 zero = 0
digits4 (suc n) = suc (suc (suc (suc (digits4 n))))

ones_zero : (n : ℕ) → ones n 0 ≡ 0
ones_zero zero = refl
ones_zero (suc n) = omega (arith, ones_zero n)

popc_arr_lem : (d : ℕ) → d < 16 → get_elem? popc_arr d ≡ some (ones 4 d)
popc_arr_lem zero h = refl
popc_arr_lem (suc zero) h = refl
popc_arr_lem (suc (suc zero)) h = refl
popc_arr_lem (suc (suc (suc zero))) h = refl
popc_arr_lem (suc (suc (suc (suc zero)))) h = refl
popc_arr_lem (suc (suc (suc (suc (suc zero))))) h = refl
popc_arr_lem (suc (suc (suc (suc (suc (suc zero)))))) h = refl
popc_arr_lem (suc (suc (suc (suc (suc (suc (suc zero))))))) h = refl
popc_arr_lem (suc (suc (suc (suc (suc (suc (suc (suc zero)))))))) h = refl
popc_arr_lem (suc (suc (suc (suc (suc (suc (suc (suc (suc zero))))))))) h = refl
popc_arr_lem (suc (suc (suc (suc (suc (suc (suc (suc (suc (suc zero)))))))))) h = refl
popc_arr_lem (suc (suc (suc (suc (suc (suc (suc (suc (suc (suc (suc zero))))))))))) h = refl
popc_arr_lem (suc (suc (suc (suc (suc (suc (suc (suc (suc (suc (suc (suc zero)))))))))))) h = refl
popc_arr_lem (suc (suc (suc (suc (suc (suc (suc (suc (suc (suc (suc (suc (suc zero))))))))))))) h =
    refl
popc_arr_lem
      (suc (suc (suc (suc (suc (suc (suc (suc (suc (suc (suc (suc (suc (suc zero)))))))))))))) h =
    refl
popc_arr_lem
      (suc (suc (suc (suc (suc (suc (suc (suc (suc (suc (suc (suc (suc (suc (suc zero)))))))))))))))
      h =
    refl
popc_arr_lem
      (suc
        (suc (suc (suc (suc (suc (suc (suc (suc (suc (suc (suc (suc (suc (suc (suc n))))))))))))))))
      h =
    absurd (omega arith)

table : (x : ℕ) → get_elem? popc_arr (bit_and x 15) ≡ some (ones 4 (x % 16))
table x = rw (bit_and-ones x 4) (popc_arr_lem (x % 16) (omega arith))

four_more : (n x : ℕ) → ones (suc (suc (suc (suc n)))) x ≡ ones 4 (x % 16) + ones n (x / 16)
four_more n x =
    let e : ones n (x / 2 / 2 / 2 / 2) ≡ ones n (x / 16) = ap (ones n) (omega arith) in
    omega (arith, e)

popc_loop-ones :
    (fuel x out : ℕ) → x < 16 ^ fuel → popc_loop (suc fuel) x out ≡ ok (out + ones (digits4 fuel) x)
unfolding popc_loop
popc_loop-ones zero x out h = let z : x ≡ 0 = omega arith in rw z (ap ok {x = out} (omega arith))
popc_loop-ones (suc f) x out h = elim (Bool-cases (x == 0)) [
  | inl e ↦ rw e (
      let z : x ≡ 0 = ground (arith, e) in
      let o : ones (digits4 (suc f)) x ≡ 0 = rw z (ones_zero (digits4 (suc f))) in
      ap ok {x = out} (omega (arith, o)))
  | inr e ↦
      rw (e, table x)
        (popc_loop-ones f (x / 16) (out + ones 4 (x % 16)) (omega (arith, h, pow-suc 16 f))
          ∙ ap ok (omega (arith, four_more (digits4 f) x)))
]

-- fnPOPC of a word ends with the number of ones among its 32 binary digits.
pub fn_popc-ones :
    (i : Instance)
    → (if i.immediate then i.imm else i.rs1vali) < modulus
    → fn_popc i ≡ ok (record i { rdvali = ones 32 (if i.immediate then i.imm else i.rs1vali) })
unfolding fn_popc
fn_popc-ones i h =
    rw (popc_loop-ones 8 (if i.immediate then i.imm else i.rs1vali) 0 h)
      (ap (λ (n : ℕ). ok (record i { rdvali = n })) (omega arith))
