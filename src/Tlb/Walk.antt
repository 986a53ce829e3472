-- ===== src/Tlb/Walk.antt =====
-- The hardware table walk of Processor/tlb.cc stores the word of the first level.
use ml_rsim.Prelude.{
  ℕ, ◌+◌, ◌<◌, ◌≡◌, ◌≢◌, refl, ap, ◌∙◌, arith, true, false, none, some, ok, ◌==◌, ==_iff, get_elem?,
  set, ℤ, pos,
}
use native.Mathlib.Nat.{mod-eq_of_lt}
use ml_rsim.Tlb.{PageBits, frame, Entry, Tlb, write_entry}
use ml_rsim.Tlb.LookUp.{second_level}
use ml_rsim.Tlb.Fill.{perform_fill}

write_at :
    (t : Tlb) (i tag context mapping : ℕ) (e : Entry)
    → i < t.size
    → get_elem? t.entries i ≡ some e
    → write_entry t (pos i) tag context mapping
      ≡ ok (record t {
        entries = set t.entries i (record e { tag = tag; mapping = mapping; context = context });
      })
unfolding write_entry
write_at t i tag context mapping e lt at = rw (mod-eq_of_lt lt) (rw at refl)

write_to :
    (t : Tlb) (z : ℤ) (i tag context mapping : ℕ) (e : Entry)
    → z ≡ pos i
    → i < t.size
    → get_elem? t.entries i ≡ some e
    → write_entry t z tag context mapping
      ≡ ok (record t {
        entries = set t.entries i (record e { tag = tag; mapping = mapping; context = context });
      })
write_to t z i tag context mapping e q lt at =
    ap (λ w. write_entry t w tag context mapping) q ∙ write_at t i tag context mapping e lt at

-- The two calls of `Perform_Fill` for one walk, and the entry that they leave.
pub record FirstLevel (bits : PageBits) (t : Tlb) (i word paddr : ℕ) (read : ℕ → ℕ) (e : Entry)
    : Type 0 where
  pub asks :
      perform_fill bits read t paddr
      ≡ ok (record {
        tlb = record t { fill_data = word };
        request = some (second_level word t.fill_addr);
        resumed = false;
      })
  pub stores :
      (read' : ℕ → ℕ) (paddr' : ℕ)
      → perform_fill bits read' (record t { fill_data = word }) paddr'
        ≡ ok (record {
          tlb = record t {
            fill_data = word;
            entries = set t.entries i (record e {
              tag = frame t.fill_addr + 1;
              mapping = word;
              context = t.fill_context;
            });
          };
          request = none;
          resumed = true;
        })

-- Where `Fill` has set the place of an entry and the word of the first level is valid and not 0, the
-- second call of `Perform_Fill` stores that word as the mapping, whatever the memory holds at the
-- second level.
pub perform_fill-FirstLevel :
    (bits : PageBits) (read : ℕ → ℕ) (t : Tlb) (i paddr : ℕ) (e : Entry)
    → t.fill_data ≡ 0
    → t.fill_index ≡ pos i
    → i < t.size
    → get_elem? t.entries i ≡ some e
    → bits.is_mapped (read paddr) ≡ true
    → read paddr ≢ 0
    → FirstLevel bits t i (read paddr) paddr read e
unfolding perform_fill
perform_fill-FirstLevel bits read t i paddr e first place lt at mapped nonzero = record {
  asks = rw ((==_iff t.fill_data 0).1 first) (rw mapped refl);
  stores = λ read' paddr'. rw (is_not_zero nonzero) (
      rw
        (write_to (record t { fill_data = read paddr }) t.fill_index i (frame t.fill_addr + 1)
          t.fill_context (read paddr) e place lt at)
        refl);
}
  where
    is_not_zero : {x : ℕ} → x ≢ 0 → (x == 0) ≡ false
    is_not_zero h = ground (arith, h)
