-- ===== src/Cache/Age.antt =====
-- The replacement bookkeeping of Caches/cache.c on a hit and on a present miss.
use ml_rsim.Prelude.{
  ℕ, ◌+◌, ◌-◌, ◌%◌, ◌^◌, Bool, true, false, not, ◌&&◌, ◌||◌, Checked, ok, deref, ◌>>=◌, ltb, ◌==◌,
  get_elem?, set, if◌then◌else◌,
}
use ml_rsim.Cache.Line.{Line, Cache, CacheStat, PrefStat, Request, minus_one, set_base, for_lines}

-- `cline->age++` on an `unsigned short`
abbrev pub next_age : ℕ → ℕ
next_age a = (a + 1) % 2 ^ 16

-- The age loop: the line referenced becomes the youngest, those that were younger age by one.
abbrev pub touch : ℕ → ℕ → ℕ → Line → Line
touch p oldage i l =
    if i == p
    then record l { age = 1 }
    else (if ltb l.age oldage then record l { age = next_age l.age } else l)

abbrev pub used_early : ℕ → PrefStat → PrefStat
used_early wait s = record s {
  useful = s.useful + 1;
  early = s.early + 1;
  earliness = s.earliness + wait;
}

-- The switch on `pline->pref`: the counters, and whether a prefetch of the cache itself was hit.
unfoldable pub count_useful : ℕ → ℕ → CacheStat → CacheStat × Bool
count_useful pref wait s =
    if pref == 4
    then (record s { l1dp = used_early wait s.l1dp }, true)
    else if pref == 8
    then (record s { l2p = used_early wait s.l2p }, true)
    else if pref == 1
    then (record s { sl1 = used_early wait s.sl1 }, false)
    else if pref == 2
    then (record s { sl2 = used_early wait s.sl2 }, false)
    else (s, false)

-- `if (pline->pref && !req->prefetch) { … }` for the line `l` at index `p`
unfoldable pub demand_prefetched : ℕ → ℕ → Line → Request → Cache → Cache × Bool
demand_prefetched now p l req c =
    let (stats, hit_cpref) = count_useful l.pref (now - l.pref_time) c.stats in
    let line = record l { pref = 0; pref_tag_repl = minus_one } in
    if not (l.pref == 0) && (req.prefetch == 0)
    then (record c { stats = stats; tags = set c.tags p line }, hit_cpref)
    else (c, false)

-- `Cache_hit_update` for the line at index `p`, at simulation time `now`
unfoldable pub hit_update : ℕ → Cache → ℕ → Request → Checked (Cache × Bool)
hit_update now c p req = if not c.lru || c.infinite then ok (c, false) else do
  l ← deref (get_elem? c.tags p)
  let (c', hit_cpref) = demand_prefetched now p l req c
  tags ← for_lines (touch p l.age) c.setsz (set_base c l.index) c'.tags
  ok (record c' { tags = tags }, hit_cpref)

-- What `Cache_pmiss_update` does to the line at `index`, and to the others.
abbrev pub pmiss_line : ℕ → ℕ → ℕ → Bool → Request → ℕ → Line → Line
pmiss_line now index oldage prefonly req i l =
    if i == index
    then (if prefonly && not (req.prefetch == 0)
        then record l { pref = req.prefetch; pref_time = now; pref_tag_repl = minus_one; age = 1 }
        else record l { pref = 0; pref_tag_repl = minus_one; age = 1 })
    else (if ltb l.age oldage then record l { age = next_age l.age } else l)

-- `Cache_pmiss_update`
unfoldable pub pmiss_update : ℕ → Cache → Request → ℕ → Bool → Checked Cache
pmiss_update now c req index prefonly = if not c.lru || c.infinite then ok c else do
  l ← deref (get_elem? c.tags index)
  tags ← for_lines (pmiss_line now index l.age prefonly req) c.setsz (set_base c index) c.tags
  ok (record c { tags = tags })
