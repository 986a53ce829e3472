-- ===== src/Tlb/Tests.antt =====
-- Processor/tlb.cc on small TLBs.
use ml_rsim.Prelude.{
  ℕ, ◌+◌, ◌-◌, ◌/◌, ◌%◌, ◌≡◌, ◌≢◌, refl, arith, true, false, none, some, [], ◌∷◌, ok, fatal, ◌==◌,
  pos, negsuc,
}
use ml_rsim.Tlb.{
  PageBits, Entry, Tlb, set_assoc, direct_mapped, perfect, cleared, frame, write_entry, miss_entry,
  miss_entry_as, miss_in_set, invalid_in, oldest_in, page_loop, probe_entry, probe_from,
}
use ml_rsim.Tlb.LookUp.{
  Access, hit, miss, fault, Table, look_up, look_up_as, look_up_set, set_search, answer_set,
  use_set, touch_set, is_hit, matches, translate,
}
use ml_rsim.Tlb.Answer.{IsTlb, Looks, look_up-Looks}
use ml_rsim.Tlb.Place.{Written, miss_entry-Written, miss_entry-outside}

-- The lowest three bits
abbrev bits : PageBits
bits = record {
  is_mapped = λ x. x % 2 == 1;
  is_rdonly = λ x. x / 2 % 2 == 1;
  is_priv = λ x. x / 4 % 2 == 1;
}

abbrev table : Table
table = record { context_register = 0x1000; read = λ x. x + 1 }

abbrev entry : ℕ → ℕ → ℕ → Entry
entry tag mapping age = record { tag = tag; mapping = mapping; context = 7; age = age }

-- Pages 5 and 9, the second one read-only
abbrev two_ways : Tlb
two_ways = record {
  kind = set_assoc;
  size = 4;
  associativity = 2;
  tagged = true;
  entries = cleared ∷ cleared ∷ entry 0x5001 0x20001 1 ∷ entry 0x9001 0x30003 0 ∷ [];
  index = 0;
  fill_addr = 0x3123;
  fill_data = 0;
  fill_index = pos 1;
  fill_context = 7;
}

abbrev direct : Tlb
direct = record two_ways { kind = direct_mapped }

abbrev write_to : ℕ → Access
write_to addr = record { addr = addr; context = 7; write = true; priv = false }

two_ways-IsTlb : IsTlb two_ways
two_ways-IsTlb = record {
  sized = refl;
  positive = omega arith;
  indexed = omega arith;
  ways = omega arith;
  sets = omega arith;
}

direct-IsTlb : IsTlb direct
direct-IsTlb = record {
  sized = refl;
  positive = omega arith;
  indexed = omega arith;
  ways = omega arith;
  sets = omega arith;
}

-- A hit, a write to a page that can only be read, and a miss
hits :
    (look_up bits table two_ways (write_to 0x5678)
      ≡ ok (record { tlb = two_ways; answer = hit; address = 0x20678; attributes = 1 }))
    × (look_up bits table two_ways (write_to 0x9abc)
        ≡ ok (record { tlb = two_ways; answer = fault; address = 0x9abc; attributes = 3 }))
    × (look_up bits table two_ways (write_to 0x7000)
        ≡ ok (record { tlb = two_ways; answer = miss; address = 0x7000; attributes = 0 }))
unfolding look_up look_up_as look_up_set set_search answer_set use_set touch_set is_hit matches
    translate page_loop
hits = (refl, refl, refl)

-- The place for page 7 is the oldest of the second set, that for page 4 the first.
places : (miss_entry two_ways 0x7000 ≡ ok (pos 3)) × (miss_entry two_ways 0x4000 ≡ ok (pos 0))
unfolding miss_entry miss_entry_as miss_in_set invalid_in oldest_in page_loop
places = (refl, refl)

probes : (probe_entry two_ways 0x9001 ≡ some 3) × (probe_entry two_ways 0x8001 ≡ none)
unfolding probe_entry probe_from
probes = (refl, refl)

imperfect : set_assoc ≢ perfect
imperfect e = cc

look_up-Looks_example :
    Looks set_assoc bits two_ways (write_to 0x5678) (look_up bits table two_ways (write_to 0x5678))
look_up-Looks_example = look_up-Looks bits table two_ways (write_to 0x5678) two_ways-IsTlb imperfect

miss_entry-Written_example : Written bits table direct 0x3123 7 0x20001
miss_entry-Written_example =
    miss_entry-Written bits table direct 0x3123 7 0x20001 direct-IsTlb refl (omega arith)

off_the_end : (0x10_0000 - 0x8000_1000 / 4096) % 4 ≢ 0
off_the_end e = omega (arith, e)

miss_entry-outside_example :
    (n : ℕ) × (miss_entry direct 0x8000_1000 ≡ ok (negsuc n))
    × (write_entry direct (negsuc n) (frame 0x8000_1000 + 1) 7 0x20001 ≡ fatal)
miss_entry-outside_example =
    miss_entry-outside direct 0x8000_1000 7 0x20001 (omega arith) refl (omega arith) off_the_end

abbrev memory : ℕ → ℕ
memory x = x + 1
