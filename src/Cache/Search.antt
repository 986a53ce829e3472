-- ===== src/Cache/Search.antt =====
-- `Cache_search` of Caches/cache.c.
use ml_rsim.Prelude.{
  ℕ, zero, suc, ◌+◌, Option, none, some, List, Checked, ok, deref, ◌>>=◌, ◌==◌, get_elem?,
  if◌then◌else◌,
}
use ml_rsim.Cache.Line.{Line, Cache, is_invalid, addr_to_set, paddr_to_tag}

-- The results 0, 1 and 2.
pub data Found : Type 0 where
  hit present_miss total_miss : Found

-- The loop through a set, with the line where it stopped.
unfoldable pub search_set : ℕ → ℕ → ℕ → List Line → Checked (Found × Option ℕ)
search_set zero lineidx tag tags = ok (total_miss, none)
search_set (suc n) lineidx tag tags = do
  l ← deref (get_elem? tags lineidx)
  let rest = search_set n (lineidx + 1) tag tags
  let code = if is_invalid l.state then present_miss else hit
  if l.tag == tag then ok (code, some lineidx) else rest

-- `Cache_search`, with the index of the line that it stores into `*cline`.
unfoldable pub search : Cache → ℕ → ℕ → Checked (Found × ℕ)
search c vaddr paddr = do
  let lineidx = if c.is_l1 then addr_to_set c vaddr else addr_to_set c paddr
  (code, line) ← search_set c.setsz lineidx (paddr_to_tag c paddr) c.tags
  ok (code, elim line [ none ↦ lineidx | some j ↦ j ])
