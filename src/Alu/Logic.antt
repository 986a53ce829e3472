-- ===== src/Alu/Logic.antt =====
-- Processor/funcs.cc, logic with and without condition codes.
use ml_rsim.Prelude.{ℕ, ◌==◌, bit_and}
use Prim.Native.Nat.{bit_or, bit_xor}
use ml_rsim.Alu.{negative, complement, Instance, operand, ic_zero, ic_neg, set_if}

unfoldable pub fn_and : Instance → Instance
fn_and i = record i { rdvali = bit_and i.rs1vali (operand i) }

unfoldable pub fn_or : Instance → Instance
fn_or i = record i { rdvali = bit_or i.rs1vali (operand i) }

unfoldable pub fn_xor : Instance → Instance
fn_xor i = record i { rdvali = bit_xor i.rs1vali (operand i) }

unfoldable pub fn_andn : Instance → Instance
fn_andn i = record i { rdvali = bit_and i.rs1vali (complement (operand i)) }

unfoldable pub fn_orn : Instance → Instance
fn_orn i = record i { rdvali = bit_or i.rs1vali (complement (operand i)) }

unfoldable pub fn_xnor : Instance → Instance
fn_xnor i = record i { rdvali = complement (bit_xor i.rs1vali (operand i)) }

abbrev pub logic_codes : ℕ → ℕ
logic_codes tmp = set_if (tmp == 0) ic_zero (set_if (negative tmp) ic_neg 0)

abbrev logic : Instance → ℕ → Instance
logic i tmp = record i { rdvali = tmp; rccvali = logic_codes tmp }

unfoldable pub fn_andcc : Instance → Instance
fn_andcc i = logic i (bit_and i.rs1vali (operand i))

unfoldable pub fn_orcc : Instance → Instance
fn_orcc i = logic i (bit_or i.rs1vali (operand i))

unfoldable pub fn_xorcc : Instance → Instance
fn_xorcc i = logic i (bit_xor i.rs1vali (operand i))

unfoldable pub fn_andncc : Instance → Instance
fn_andncc i = logic i (bit_and i.rs1vali (complement (operand i)))

unfoldable pub fn_orncc : Instance → Instance
fn_orncc i = logic i (bit_or i.rs1vali (complement (operand i)))

unfoldable pub fn_xnorcc : Instance → Instance
fn_xnorcc i = logic i (complement (bit_xor i.rs1vali (operand i)))
