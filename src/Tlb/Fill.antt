-- ===== src/Tlb/Fill.antt =====
-- The hardware table walk of Processor/tlb.cc: `Fill` asks the cache for the word of the first level,
-- and the cache calls `Perform_Fill` when a request completes.
use ml_rsim.Prelude.{
  ℕ, ◌+◌, ◌/◌, ◌%◌, ◌^◌, Bool, true, false, Option, none, some, Checked, ok, ◌>>=◌, ◌==◌,
  if◌then◌else◌, ℤ,
}
use ml_rsim.Tlb.{PageBits, frame, Tlb, write_entry}
use ml_rsim.Tlb.LookUp.{word_aligned, second_level}

-- What a step of the walk does: the address that it asks the cache for, and whether the processor
-- goes on (`proc->DELAY = 0`)
pub record Filled : Type 0 where
  pub tlb : Tlb
  pub request : Option ℕ
  pub resumed : Bool

-- `Fill`
unfoldable pub fill : Tlb → ℕ → ℕ → ℤ → ℕ → Filled
fill t context_register addr idx ctx = record {
  tlb = record t { fill_addr = addr; fill_index = idx; fill_data = 0; fill_context = ctx };
  request = some ((context_register + word_aligned (addr / 2 ^ 20)) % 2 ^ 32);
  resumed = false;
}

-- `Perform_Fill` for a request of address `paddr`
unfoldable pub perform_fill : PageBits → (ℕ → ℕ) → Tlb → ℕ → Checked Filled
perform_fill bits read t paddr =
    let word = read paddr in
    let t' : Tlb = record t { fill_data = word } in
    let next : Option ℕ = some (second_level word t.fill_addr) in
    if t.fill_data == 0
    then (if bits.is_mapped word
        then ok (record { tlb = t'; request = next; resumed = false })
        else (do
          u ← write_entry t' t.fill_index (frame t.fill_addr + 1) t.fill_context 0
          ok (record { tlb = u; request = next; resumed = true })))
    else (do
      u ← write_entry t t.fill_index (frame t.fill_addr + 1) t.fill_context t.fill_data
      ok (record { tlb = u; request = none; resumed = true }))
