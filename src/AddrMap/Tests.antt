-- ===== src/AddrMap/Tests.antt =====
-- An address map with two regions.
use ml_rsim.Prelude.{ℕ, inl, inr, List, [], ◌∷◌, arith}
use ml_rsim.AddrMap.{Entry, insert}
use ml_rsim.AddrMap.Order.{IsMap}
use ml_rsim.AddrMap.Regions.{Inserted, insert-lookup}

abbrev entry : ℕ → ℕ → ℕ → Entry
entry low high m = record { low = low; high = high; module_id = m }

abbrev two_regions : List Entry
two_regions = entry 16 32 5 ∷ entry 64 80 6 ∷ []

two_regions-IsMap : IsMap two_regions
two_regions-IsMap = omega arith

insert-lookup_example : Inserted two_regions 40 64 7 (insert two_regions 40 64 7)
insert-lookup_example =
    insert-lookup two_regions 40 64 7 two_regions-IsMap (omega arith)
      (inr (omega arith), (inl (omega arith), tt))
