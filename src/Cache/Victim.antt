-- ===== src/Cache/Victim.antt =====
-- `Cache_miss_update` of Caches/cache.c: the choice of a victim on a total miss.
use ml_rsim.Prelude.{
  ℕ, zero, suc, ◌+◌, Bool, not, ◌&&◌, Option, none, some, List, Checked, ok, deref, ◌>>=◌, ltb,
  ◌==◌, get_elem?, set, if◌then◌else◌,
}
use ml_rsim.Cache.Line.{
  LineState, bad_line_state, invalid, pr_cl, sh_cl, pr_dy, is_invalid, Line, Cache, CacheStat,
  PrefStat, Request, minus_one, set_base, for_lines, paddr_to_tag,
}
use ml_rsim.Cache.Age.{next_age}

-- `bestinv` with `inv_age` and so on: an offset in the set and the age of the line there, `none`
-- for -1.
pub record Best : Type 0 where
  pub inv : Option (ℕ × ℕ)
  pub clean : Option (ℕ × ℕ)
  pub private : Option (ℕ × ℕ)
  pub dirty : Option (ℕ × ℕ)

abbrev pub no_best : Best
no_best = record { inv = none; clean = none; private = none; dirty = none }

-- `if (inv_age < pline->age) { inv_age = pline->age; bestinv = i; }`
abbrev pub improve : ℕ → ℕ → Option (ℕ × ℕ) → Option (ℕ × ℕ)
improve i age none = some (i, age)
improve i age (some (j, best_age)) = if ltb best_age age then some (i, age) else some (j, best_age)

-- The switch on the state of a line.
abbrev pub consider_state : LineState → ℕ → ℕ → Best → Best
consider_state invalid i age b = record b { inv = improve i age b.inv }
consider_state sh_cl i age b = record b { clean = improve i age b.clean }
consider_state pr_cl i age b = record b { private = improve i age b.private }
consider_state pr_dy i age b = record b { dirty = improve i age b.dirty }
consider_state bad_line_state i age b = b

abbrev pub consider : ℕ → Line → Best → Best
consider i l b = if l.mshr_out then b else consider_state l.state i l.age b

-- `pline->state != INVALID && pline->pref_tag_repl == reqtag`, for a line with no MSHR
abbrev pub damaging : ℕ → Line → Bool
damaging reqtag l = not l.mshr_out && (not (is_invalid l.state) && (l.pref_tag_repl == reqtag))

abbrev pub hurt : PrefStat → PrefStat
hurt s = record s { damaging = s.damaging + 1 }

abbrev pub waste : PrefStat → PrefStat
waste s = record s { useless = s.useless + 1 }

unfoldable pub count_damaging : ℕ → CacheStat → CacheStat
count_damaging pref s =
    if pref == 1
    then record s { sl1 = hurt s.sl1 }
    else if pref == 2
    then record s { sl2 = hurt s.sl2 }
    else if pref == 4
    then record s { l1dp = hurt s.l1dp }
    else (if pref == 8 then record s { l2p = hurt s.l2p } else s)

unfoldable pub count_useless : ℕ → CacheStat → CacheStat
count_useless pref s =
    if pref == 4
    then record s { l1dp = waste s.l1dp }
    else if pref == 8
    then record s { l2p = waste s.l2p }
    else if pref == 1
    then record s { sl1 = waste s.sl1 }
    else (if pref == 2 then record s { sl2 = waste s.sl2 } else s)

-- What the first loop works on.
pub record Scan : Type 0 where
  pub best : Best
  pub stats : CacheStat
  pub tags : List Line

-- One turn of the first loop, for the line `l` at `lineidx`, the `i`-th of the set.
unfoldable pub scan_line : ℕ → ℕ → ℕ → Line → Scan → Scan
scan_line reqtag i lineidx l s = record {
  best = consider i l s.best;
  stats = if damaging reqtag l then count_damaging l.pref s.stats else s.stats;
  tags =
      if damaging reqtag l
      then set s.tags lineidx (record l { pref_tag_repl = minus_one })
      else s.tags;
}

-- The first loop.
unfoldable pub scan : ℕ → ℕ → ℕ → ℕ → Scan → Checked Scan
scan reqtag zero i lineidx s = ok s
scan reqtag (suc n) i lineidx s = do
  l ← deref (get_elem? s.tags lineidx)
  scan reqtag n (i + 1) (lineidx + 1) (scan_line reqtag i lineidx l s)

-- The ladder that picks the victim.
abbrev pub or_else : Option (ℕ × ℕ) → Option (ℕ × ℕ) → Option (ℕ × ℕ)
or_else none o = o
or_else (some x) o = some x

abbrev pub pick : Best → Option (ℕ × ℕ)
pick b = or_else b.inv (or_else b.clean (or_else b.private b.dirty))

-- What the second loop does to the victim, at index `p`, and to the others.
abbrev pub replace_line : ℕ → ℕ → ℕ → Bool → Request → ℕ → Line → Line
replace_line now p repl_age prefonly req i l =
    if i == p
    then (if not (req.prefetch == 0) && prefonly
        then record l {
          pref_tag_repl = if is_invalid l.state then minus_one else l.tag;
          pref = req.prefetch;
          pref_time = now;
          age = 1;
        }
        else record l { pref_tag_repl = minus_one; pref = 0; age = 1 })
    else (if ltb l.age repl_age then record l { age = next_age l.age } else l)

-- The second loop, with the line that it replaces.
unfoldable pub replace : ℕ → Cache → Request → Bool → ℕ → Scan → ℕ × ℕ → Checked (Cache × Option ℕ)
replace now c req prefonly baseidx s (victim, repl_age) = do
  let p = baseidx + victim
  old ← deref (get_elem? s.tags p)
  tags ← for_lines (replace_line now p repl_age prefonly req) c.setsz baseidx s.tags
  let stats = if is_invalid old.state then s.stats else count_useless old.pref s.stats
  ok (record c { stats = stats; tags = tags }, some p)

-- What follows the first loop.
unfoldable pub give_up : ℕ → Cache → Request → Bool → ℕ → Scan → Checked (Cache × Option ℕ)
give_up now c req prefonly baseidx s =
    let stuck = record c { stats = s.stats; tags = s.tags } in
    elim (pick s.best) [ none ↦ ok (stuck, none) | some v ↦ replace now c req prefonly baseidx s v ]

-- `Cache_miss_update` for the line at index `p`: the cache, and the index of the line to be
-- replaced, or `none` for the result 0.
unfoldable pub miss_update : ℕ → Cache → Request → ℕ → Bool → Checked (Cache × Option ℕ)
miss_update now c req p prefonly = do
  cline ← deref (get_elem? c.tags p)
  let baseidx = set_base c cline.index
  let start : Scan = record { best = no_best; stats = c.stats; tags = c.tags }
  s ← scan (paddr_to_tag c req.paddr) c.setsz 0 baseidx start
  give_up now c req prefonly baseidx s
