-- ===== src/Cache/Lookup.antt =====
-- What `Cache_search` finds.
use ml_rsim.Prelude.{
  ℕ, zero, suc, ◌+◌, ◌≤◌, ◌<◌, ◌≡◌, refl, sym, ap, ◌∙◌, ◌≢◌, inl, inr, Option, none, some, List,
  arith, Checked, ok, ◌==◌, ==_iff, if◌then◌else◌, Bool-cases, length, get_elem?, get_elem?-some,
}
use ml_rsim.Cache.Line.{Line, Cache, is_invalid, addr_to_set, paddr_to_tag}
use ml_rsim.Cache.Search.{Found, hit, present_miss, total_miss, search_set, search}
use ml_rsim.Cache.Recency.{InSet, ne_of_test, some_inj}

-- The code for a line with the tag.
abbrev pub code : Line → Found
code l = if is_invalid l.state then present_miss else hit

-- No line of the set has the tag, or the first that has it is found.
pub data Searched (tags : List Line) (base n tag : ℕ) (r : Checked (Found × Option ℕ))
    : Type 0 where
  absent :
      r ≡ ok (total_miss, none)
      → ((i : ℕ) (l : Line) → InSet base n i → get_elem? tags i ≡ some l → l.tag ≢ tag)
      → Searched tags base n tag r
  present :
      (j : ℕ) (l : Line)
      → InSet base n j
      → get_elem? tags j ≡ some l
      → l.tag ≡ tag
      → ((i : ℕ) (m : Line) → InSet base n i → i < j → get_elem? tags i ≡ some m → m.tag ≢ tag)
      → r ≡ ok (code l, some j)
      → Searched tags base n tag r

-- One line that does not match is passed over.
search_set-pass :
    (tags : List Line) (base n tag : ℕ) (l : Line) (r r' : Checked (Found × Option ℕ))
    → get_elem? tags base ≡ some l
    → l.tag ≢ tag
    → r' ≡ r
    → Searched tags (base + 1) n tag r
    → Searched tags base (suc n) tag r'
search_set-pass tags base n tag l r r' e ne same (absent q all) = absent (same ∙ q) (λ i m p em.
    elim (Bool-cases (base == i)) [
      | inl k ↦ λ t.
          ne (
            ap (λ x. x.tag) (some_inj (sym e ∙ ap (get_elem? tags) ((==_iff base i).0 k) ∙ em)) ∙ t)
      | inr k ↦ all i m (inner p (ne_of_test k)) em
    ])
  where
    inner : {i : ℕ} → InSet base (suc n) i → base ≢ i → InSet (base + 1) n i
    inner p k = (omega (arith, p.0, k), omega (arith, p.1))
search_set-pass tags base n tag l r r' e ne same (present j lj p ej tj first q) =
    present j lj (omega (arith, p.0), omega (arith, p.1)) ej tj
      (λ i m pi lt em. elim (Bool-cases (base == i)) [
        | inl k ↦ λ t. ne (
            ap (λ x. x.tag) (some_inj (sym e ∙ ap (get_elem? tags) ((==_iff base i).0 k) ∙ em)) ∙ t)
        | inr k ↦ first i m (omega (arith, pi.0, ne_of_test k), omega (arith, pi.1)) lt em
      ])
      (same ∙ q)

search_set-Searched :
    (n base tag : ℕ) (tags : List Line)
    → base + n ≤ length tags
    → Searched tags base n tag (search_set n base tag tags)
unfolding search_set
search_set-Searched zero base tag tags h = absent refl (λ i l p e. absurd (omega (arith, p.0, p.1)))
search_set-Searched (suc n) base tag tags h =
    let (l, e) = get_elem?-some tags base (omega arith) in
    let rest = search_set-Searched n (base + 1) tag tags (omega arith) in
    elim (Bool-cases (l.tag == tag)) [
      | inl k ↦
          present base l (omega arith, omega arith) e ((==_iff l.tag tag).0 k)
            (λ i m p lt em. absurd (omega (arith, p.0, lt))) (simp (e, k))
      | inr k ↦
          search_set-pass tags base n tag l (search_set n (base + 1) tag tags) _ e (ne_of_test k)
            (simp (e, k)) rest
    ]

-- The set that an address selects: L1 caches are indexed by the virtual address.
abbrev pub selected : Cache → ℕ → ℕ → ℕ
selected c vaddr paddr = if c.is_l1 then addr_to_set c vaddr else addr_to_set c paddr

-- An answer of `Cache_search` that is right about the set: 2 with the first line of the set, where no
-- line of it has the tag, or the first line that has it, with 1 if it is invalid and 0 if not.
pub data Answers (c : Cache) (vaddr paddr : ℕ) (r : Checked (Found × ℕ)) : Type 0 where
  misses :
      r ≡ ok (total_miss, selected c vaddr paddr)
      → ((i : ℕ) (l : Line)
          → InSet (selected c vaddr paddr) c.setsz i
          → get_elem? c.tags i ≡ some l
          → l.tag ≢ paddr_to_tag c paddr)
      → Answers c vaddr paddr r
  finds :
      (j : ℕ) (l : Line)
      → InSet (selected c vaddr paddr) c.setsz j
      → get_elem? c.tags j ≡ some l
      → l.tag ≡ paddr_to_tag c paddr
      → ((i : ℕ) (m : Line)
          → InSet (selected c vaddr paddr) c.setsz i
          → i < j
          → get_elem? c.tags i ≡ some m
          → m.tag ≢ paddr_to_tag c paddr)
      → r ≡ ok (code l, j)
      → Answers c vaddr paddr r

-- Where the selected set lies inside the tag array, `Cache_search` answers 2 with the first line of
-- the set if no line of it has the tag of the address, and else the first line that has it, with 1
-- if that line is invalid and 0 if it is not.
pub search-Answers :
    (c : Cache) (vaddr paddr : ℕ)
    → selected c vaddr paddr + c.setsz ≤ length c.tags
    → Answers c vaddr paddr (search c vaddr paddr)
unfolding search
search-Answers c vaddr paddr h =
    go (search_set-Searched c.setsz (selected c vaddr paddr) (paddr_to_tag c paddr) c.tags h)
  where
    go :
        Searched c.tags
          (selected c vaddr paddr)
          c.setsz
          (paddr_to_tag c paddr)
          (search_set c.setsz (selected c vaddr paddr) (paddr_to_tag c paddr) c.tags)
        → Answers c vaddr paddr (search c vaddr paddr)
    go (absent q all) = misses (simp q) all
    go (present j l p e t first q) = finds j l p e t first (simp q)
