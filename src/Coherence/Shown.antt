-- ===== src/Coherence/Shown.antt =====
-- L2ProcessTagCohe of Caches/l2cache.c: the line that a check finds, before and after.
use ml_rsim.Prelude.{
  ℕ, zero, suc, ◌+◌, ◌≡◌, refl, sym, ap, ◌∙◌, ◌≢◌, inl, inr, true, false, Option, none, some, List,
  [], ◌∷◌, Checked, ok, fatal, ◌>>=◌, ◌==◌, ==_iff, if◌then◌else◌, Bool-cases, Option-cases,
  get_elem?, set, get_elem?-set_self, get_elem?-set_ne, index_in,
}
use ml_rsim.Cache.Line.{
  LineState, bad_line_state, invalid, pr_cl, sh_cl, pr_dy, is_invalid, Line, Cache, CacheStat,
  addr_to_set, paddr_to_tag,
}
use ml_rsim.Cache.Search.{Found, hit, present_miss, search_set, search}
use ml_rsim.Cache.Lookup.{code}
use ml_rsim.Cache.Recency.{some_inj, ne_of_test}

-- What a cache has of an address: the state of the line that the look-up hits, or nothing
pub data Shows (c : Cache) (vaddr paddr : ℕ) (s : LineState) : Type 0 where
  line :
      (j : ℕ) (l : Line)
      → search c vaddr paddr ≡ ok (hit, j)
      → get_elem? c.tags j ≡ some l
      → l.state ≡ s
      → Shows c vaddr paddr s
  nothing :
      (k : Found) (j : ℕ)
      → search c vaddr paddr ≡ ok (k, j)
      → k ≢ hit
      → invalid ≡ s
      → Shows c vaddr paddr s

place :
    (k k' : Found) (i j : ℕ)
    → ◌≡◌ {A = Checked (Found × Option ℕ)} (ok (k, some i)) (ok (k', some j))
    → i ≡ j
place k k' i j e = cc e

found :
    (m m' : Line) (i j : ℕ)
    → m ≡ m'
    → i ≡ j
    → ◌≡◌ {A = Checked (Found × Option ℕ)} (ok (code m, some i)) (ok (code m', some j))
found m m' i j e f = cc (e, f)

-- The same line in another state
abbrev pub in_state : LineState → Line → Line
in_state s l = record l { state = s }

-- The look-up passes a line with another tag.
pass :
    (n i tag : ℕ) (tags : List Line) (l : Line)
    → get_elem? tags i ≡ some l
    → (l.tag == tag) ≡ false
    → search_set (suc n) i tag tags ≡ search_set n (i + 1) tag tags
unfolding search_set
pass n i tag tags l e t = rw (e, t)

stop :
    (n i tag : ℕ) (tags : List Line) (l : Line)
    → get_elem? tags i ≡ some l
    → (l.tag == tag) ≡ true
    → search_set (suc n) i tag tags ≡ ok (code l, some i)
unfolding search_set
stop n i tag tags l e t = rw (e, t)

no_lines :
    (i tag : ℕ) (tags : List Line) (k : Found) (j : ℕ) → search_set zero i tag tags ≢ ok (k, some j)
unfolding search_set
no_lines i tag tags k j e = cc e

outside :
    (n i tag : ℕ) (tags : List Line) (k : Found) (j : ℕ)
    → get_elem? tags i ≡ none
    → search_set (suc n) i tag tags ≢ ok (k, some j)
unfolding search_set
outside n i tag tags k j e h = cc (rw e at h)

module _ (tag : ℕ) (tags : List Line) (j : ℕ) (l : Line) (s : LineState)
    (at : get_elem? tags j ≡ some l) where
  -- Some line with the tag of the one before is at every place.
  same_tag :
      (i : ℕ) (m : Line)
      → get_elem? tags i ≡ some m
      → (m' : Line) × (get_elem? (set tags j (in_state s l)) i ≡ some m') × (m'.tag ≡ m.tag)
  same_tag i m e = elim (Bool-cases (j == i)) [
    | inl k ↦
        let eq = (==_iff j i).0 k in
        (
          in_state s l,
          ap (get_elem? (set tags j (in_state s l))) (sym eq)
              ∙ get_elem?-set_self tags j (in_state s l) (index_in tags j at),
          ap (λ x. x.tag) (some_inj (sym at ∙ ap (get_elem? tags) eq ∙ e)),
        )
    | inr k ↦ (m, get_elem?-set_ne tags j i (in_state s l) (ne_of_test k) ∙ e, refl)
  ]

  search_set-in_state :
      (n i : ℕ) (k : Found)
      → search_set n i tag tags ≡ ok (k, some j)
      → search_set n i tag (set tags j (in_state s l)) ≡ ok (code (in_state s l), some j)
  search_set-in_state zero i k e = absurd (no_lines i tag tags k j e)
  search_set-in_state (suc n) i k e = elim (Option-cases (get_elem? tags i)) [
    | inl out ↦ absurd (outside n i tag tags k j out e)
    | inr (m, em) ↦
        let (m', em', same) = same_tag i m em in
        let new = set tags j (in_state s l) in
        let tested = ap (λ t. t == tag) same in
        elim (Bool-cases (m.tag == tag)) [
          | inr t ↦
              pass n i tag new m' em' (tested ∙ t)
              ∙ search_set-in_state n (i + 1) k (sym (pass n i tag tags m em t) ∙ e)
          | inl t ↦
              let here = place (code m) k i j (sym (stop n i tag tags m em t) ∙ e) in
              let self = get_elem?-set_self tags j (in_state s l) (index_in tags j at) in
              stop n i tag new m' em' (tested ∙ t)
              ∙ found m' (in_state s l) i j (some_inj (sym em' ∙ ap (get_elem? new) here ∙ self))
                  here
        ]
  ]

-- Where no line is found, the result is that of a total miss.
none_misses :
    (n i tag : ℕ) (tags : List Line) (k : Found) → search_set n i tag tags ≡ ok (k, none) → k ≢ hit
unfolding search_set
none_misses zero i tag tags k e h = cc (e, h)
none_misses (suc n) i tag tags k e h = elim (Option-cases (get_elem? tags i)) [
  | inl out ↦ absurd (cc (rw out at e))
  | inr (m, em) ↦ elim (Bool-cases (m.tag == tag)) [
    | inl t ↦ absurd (cc (sym (stop n i tag tags m em t) ∙ e))
    | inr t ↦ none_misses n (i + 1) tag tags k (sym (pass n i tag tags m em t) ∙ e) h
  ]
]

abbrev set_start : Cache → ℕ → ℕ → ℕ
set_start c vaddr paddr = if c.is_l1 then addr_to_set c vaddr else addr_to_set c paddr

abbrev set_result : Cache → ℕ → ℕ → Checked (Found × Option ℕ)
set_result c vaddr paddr =
    search_set c.setsz (set_start c vaddr paddr) (paddr_to_tag c paddr) c.tags

abbrev back : ℕ → Found × Option ℕ → Checked (Found × ℕ)
back first (k, i) = ok (k, elim i [ none ↦ first | some i' ↦ i' ])

-- The look-up of a line, in the loop through its set
of_loop :
    (c : Cache) (vaddr paddr j : ℕ)
    → search c vaddr paddr ≡ ok (hit, j)
    → set_result c vaddr paddr ≡ ok (hit, some j)
unfolding search
of_loop c vaddr paddr j e = by_result (set_result c vaddr paddr) refl e
  where
    by_result :
        (r : Checked (Found × Option ℕ))
        → set_result c vaddr paddr ≡ r
        → (r >>= back (set_start c vaddr paddr)) ≡ ok (hit, j)
        → r ≡ ok (hit, some j)
    by_result fatal f g = absurd (cc g)
    by_result (ok (k, some i)) f g = cc g
    by_result (ok (k, none)) f g =
        absurd
          (none_misses c.setsz (set_start c vaddr paddr) (paddr_to_tag c paddr) c.tags k f (cc g))

-- The cache with the line `l` at `j` in another state
abbrev pub with_line : ℕ → Line → LineState → CacheStat → Cache → Cache
with_line j l s stats c = record c { tags = set c.tags j (in_state s l); stats = stats }

search-with_line :
    (c : Cache) (vaddr paddr j : ℕ) (l : Line) (s : LineState) (stats : CacheStat)
    → search c vaddr paddr ≡ ok (hit, j)
    → get_elem? c.tags j ≡ some l
    → search (with_line j l s stats c) vaddr paddr ≡ ok (code (in_state s l), j)
unfolding search
search-with_line c vaddr paddr j l s stats e at =
    rw
      (search_set-in_state (paddr_to_tag c paddr) c.tags j l s at c.setsz (set_start c vaddr paddr)
        hit (of_loop c vaddr paddr j e))
      refl

invalid_of : (s : LineState) → is_invalid s ≡ true → invalid ≡ s
invalid_of invalid e = refl
invalid_of bad_line_state e = cc e
invalid_of pr_cl e = cc e
invalid_of sh_cl e = cc e
invalid_of pr_dy e = cc e

-- The look-up then shows the new state.
pub Shows-with_line :
    (c : Cache) (vaddr paddr j : ℕ) (l : Line) (s : LineState) (stats : CacheStat)
    → search c vaddr paddr ≡ ok (hit, j)
    → get_elem? c.tags j ≡ some l
    → Shows (with_line j l s stats c) vaddr paddr s
Shows-with_line c vaddr paddr j l s stats e at =
    let at' = get_elem?-set_self c.tags j (in_state s l) (index_in c.tags j at) in
    let e' = search-with_line c vaddr paddr j l s stats e at in
    elim (Bool-cases (is_invalid s)) [
      | inl gone ↦
          nothing present_miss j (e' ∙ ap (λ b. ok (if b then present_miss else hit, j)) gone)
            (λ h. cc h) (invalid_of s gone)
      | inr kept ↦
          line j (in_state s l) (e' ∙ ap (λ b. ok (if b then present_miss else hit, j)) kept) at'
            refl
    ]

set-same : (xs : List Line) (j : ℕ) (a : Line) → get_elem? xs j ≡ some a → set xs j a ≡ xs
set-same [] j a e = absurd (cc e)
set-same (x ∷ xs) zero a e = ap (λ y. y ∷ xs) (sym (some_inj e))
set-same (x ∷ xs) (suc j) a e = ap (λ ys. x ∷ ys) (set-same xs j a e)

valid_of :
    (l : Line) (j : ℕ)
    → ◌≡◌ {A = Checked (Found × ℕ)} (ok (code l, j)) (ok (hit, j))
    → is_invalid l.state ≡ false
valid_of l j e = elim (Bool-cases (is_invalid l.state)) [
  | inr v ↦ v
  | inl v ↦ absurd (cc (rw v at e))
]

-- A line that is hit is valid.
pub hit_valid :
    (c : Cache) (vaddr paddr j : ℕ) (l : Line)
    → search c vaddr paddr ≡ ok (hit, j)
    → get_elem? c.tags j ≡ some l
    → is_invalid l.state ≡ false
hit_valid c vaddr paddr j l e at =
    let new = search-with_line c vaddr paddr j l l.state c.stats e at in
    let back_again =
      ap (λ ts. search (record c { tags = ts }) vaddr paddr) (set-same c.tags j l at) in
    valid_of l j (sym new ∙ back_again ∙ e)
