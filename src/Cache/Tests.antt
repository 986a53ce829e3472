-- ===== src/Cache/Tests.antt =====
-- A cache of two sets of two lines.
use ml_rsim.Prelude.{
  ℕ, zero, suc, ◌+◌, ◌*◌, ◌∙◌, ◌≤◌, ◌≡◌, refl, ◌≢◌, [], ◌∷◌, some, arith, ok, Bool, true, false,
  get_elem?,
}
use ml_rsim.Cache.Line.{LineState, invalid, pr_cl, pr_dy, Line, PrefStat, Cache, Request, minus_one}
use ml_rsim.Cache.Search.{search, search_set, hit}
use ml_rsim.Cache.Lookup.{Answers, search-Answers}
use ml_rsim.Cache.Age.{hit_update}
use ml_rsim.Cache.Recency.{IsLru, InSet, some_inj}
use ml_rsim.Cache.Refresh.{Refreshed, hit_update-Refreshed}
use ml_rsim.Cache.Victim.{miss_update}
use ml_rsim.Cache.Replace.{Replaced, miss_update-Replaced}

abbrev no_prefs : PrefStat
no_prefs = record { useful = 0; early = 0; earliness = 0; damaging = 0; useless = 0 }

abbrev line : ℕ → ℕ → LineState → ℕ → Line
line index tag state age = record {
  index = index;
  tag = tag;
  vaddr = 0;
  state = state;
  age = age;
  mshr_out = false;
  pref = 0;
  pref_tag_repl = minus_one;
  pref_time = 0;
}

-- Set 1 has a clean line and a younger dirty one.
abbrev small_cache : Cache
small_cache = record {
  is_l1 = false;
  infinite = false;
  lru = true;
  setsz = 2;
  set_mask = 1;
  set_shift = 1;
  idx_mask = 1;
  block_shift = 5;
  tag_shift = 6;
  tags = line 0 0 invalid 2 ∷ line 1 0 invalid 2 ∷ line 2 7 pr_cl 2 ∷ line 3 9 pr_dy 1 ∷ [];
  stats = record { l1dp = no_prefs; l2p = no_prefs; sl1 = no_prefs; sl2 = no_prefs };
}

abbrev req : Request
req = record { paddr = 9 * 64 + 32; prefetch = 0 }

in_order : IsLru small_cache.tags 2 2
in_order = record { small = omega arith; present = omega arith; range = ages; distinct = apart }
  where
    ages :
        (i : ℕ) (l : Line)
        → InSet 2 2 i
        → get_elem? small_cache.tags i ≡ some l
        → (1 ≤ l.age) × (l.age ≤ 2)
    ages zero l p e = absurd (omega (arith, p.0))
    ages (suc zero) l p e = absurd (omega (arith, p.0))
    ages (suc (suc zero)) l p e = rw (← some_inj e) (omega arith)
    ages (suc (suc (suc zero))) l p e = rw (← some_inj e) (omega arith)
    ages (suc (suc (suc (suc i)))) l p e = absurd (omega (arith, p.1))

    apart :
        (i j : ℕ) (l m : Line)
        → InSet 2 2 i
        → InSet 2 2 j
        → get_elem? small_cache.tags i ≡ some l
        → get_elem? small_cache.tags j ≡ some m
        → i ≢ j
        → l.age ≡ m.age
        → l.age ≡ 2
    apart (suc (suc zero)) j l m p q e f ne same = rw (← some_inj e) refl
    apart zero j l m p q e f ne same = absurd (omega (arith, p.0))
    apart (suc zero) j l m p q e f ne same = absurd (omega (arith, p.0))
    apart (suc (suc (suc (suc i)))) j l m p q e f ne same = absurd (omega (arith, p.1))
    apart (suc (suc (suc zero))) zero l m p q e f ne same = absurd (omega (arith, q.0))
    apart (suc (suc (suc zero))) (suc zero) l m p q e f ne same = absurd (omega (arith, q.0))
    apart (suc (suc (suc zero))) (suc (suc zero)) l m p q e f ne same =
        same ∙ rw (← some_inj f) refl
    apart (suc (suc (suc zero))) (suc (suc (suc zero))) l m p q e f ne same = absurd (ne refl)
    apart (suc (suc (suc zero))) (suc (suc (suc (suc j)))) l m p q e f ne same =
        absurd (omega (arith, q.1))

search-dirty : search small_cache 0 (9 * 64 + 32) ≡ ok (hit, 3)
unfolding search search_set
search-dirty = refl

search-Answers_example : Answers small_cache 0 (9 * 64 + 32) (search small_cache 0 (9 * 64 + 32))
search-Answers_example = search-Answers small_cache 0 (9 * 64 + 32) (omega arith)

hit_update-Refreshed_example :
    (r : Cache × Bool) × (hit_update 100 small_cache 2 req ≡ ok r)
    × Refreshed small_cache.tags 2 2 2 r.0.tags
hit_update-Refreshed_example =
    hit_update-Refreshed small_cache 2 2 (line 2 7 pr_cl 2) refl (omega arith, omega arith) in_order
      100 req refl refl refl

miss_update-Replaced_example : Replaced small_cache 2 (miss_update 100 small_cache req 2 false)
miss_update-Replaced_example =
    miss_update-Replaced 100 small_cache req 2 false 2 (line 2 7 pr_cl 2) in_order refl refl
