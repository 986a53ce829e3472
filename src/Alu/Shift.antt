-- ===== src/Alu/Shift.antt =====
-- Processor/funcs.cc, shifts. A shift by the width of a word or more has no defined result.
use ml_rsim.Prelude.{
  ℕ, ◌+◌, ◌-◌, ◌*◌, ◌/◌, ◌%◌, ◌^◌, Checked, ok, fatal, ◌>>=◌, ltb, if◌then◌else◌, bit_and,
}
use Prim.Native.Nat.{bit_or}
use ml_rsim.Alu.{modulus, negative, Instance, operand}

-- `v << n` and `v >> n` of an unsigned
abbrev pub shift_left : ℕ → ℕ → Checked ℕ
shift_left v n = if ltb n 32 then ok (v * 2 ^ n % modulus) else fatal

abbrev pub shift_right : ℕ → ℕ → Checked ℕ
shift_right v n = if ltb n 32 then ok (v / 2 ^ n) else fatal

-- `v >> n` of an int: the bits that come in are those of the sign
abbrev pub shift_signed : ℕ → ℕ → Checked ℕ
shift_signed v n =
    if ltb n 32
    then ok (if negative v then v / 2 ^ n + (modulus - 2 ^ (32 - n)) else v / 2 ^ n)
    else fatal

abbrev pub give : Instance → Checked ℕ → Checked Instance
give i r = r >>= λ v. ok (record i { rdvali = v })

unfoldable pub fn_sll : Instance → Checked Instance
fn_sll i = give i (shift_left i.rs1vali (operand i))

unfoldable pub fn_srl : Instance → Checked Instance
fn_srl i = give i (shift_right i.rs1vali (operand i))

unfoldable pub fn_sra : Instance → Checked Instance
fn_sra i =
    let v2 = bit_and (operand i) 31 in
    give i (do
      v ← shift_signed i.rs1vali v2
      if negative i.rs1vali
          then (shift_left (modulus - 1) (32 - v2) >>= λ signs. ok (bit_or v signs))
          else ok v)
