-- ===== src/Cache/Replace.antt =====
-- `Cache_miss_update`: which line is replaced, and what the set looks like afterwards.
use ml_rsim.Prelude.{
  ℕ, ◌+◌, ◌≤◌, ◌<◌, ◌≡◌, refl, sym, subst, Bool, true, false, Option, none, some, List, arith,
  Checked, ok, if◌then◌else◌, get_elem?,
}
use ml_rsim.Cache.Line.{Line, Cache, Request, set_base, is_invalid, paddr_to_tag}
use ml_rsim.Cache.Recency.{InSet, for_lines-Mapped, IsLru}
use ml_rsim.Cache.Refresh.{Refreshed, SameAges, Mapped-Refreshed, IsLru-SameAges}
use ml_rsim.Cache.Victim.{
  Best, no_best, pick, Scan, replace_line, replace, give_up, miss_update, count_useless,
}
use ml_rsim.Cache.Best.{
  Kind, invalid_line, shared_clean, private_clean, private_dirty, best_of, eligible, OldestIs,
  nothing, oldest,
}
use ml_rsim.Cache.Scan.{scan-Scanned}

abbrev pub rank : Kind → ℕ
rank invalid_line = 0
rank shared_clean = 1
rank private_clean = 2
rank private_dirty = 3

-- No line of the set can be given up as one of the kind.
abbrev pub NoneOf : List Line → ℕ → ℕ → Kind → Type 0
NoneOf tags base n k =
    (i : ℕ) (l : Line) → i < n → get_elem? tags (base + i) ≡ some l → eligible k l ≡ false

-- Line `i` of the set is the one to give up: the oldest of its kind, with none of an earlier kind.
pub record IsVictim (tags : List Line) (base n i : ℕ) (l : Line) : Type 0 where
  pub kind : Kind
  pub inside : i < n
  pub at : get_elem? tags (base + i) ≡ some l
  pub free : eligible kind l ≡ true
  pub oldest_one :
      (j : ℕ) (m : Line)
      → j < n
      → get_elem? tags (base + j) ≡ some m
      → eligible kind m ≡ true
      → m.age ≤ l.age
  pub earlier : (k : Kind) → rank k < rank kind → NoneOf tags base n k

module _ (tags : List Line) (base n : ℕ) where
  data Choice (o : Option (ℕ × ℕ)) : Type 0 where
    none_left : o ≡ none → ((k : Kind) → NoneOf tags base n k) → Choice o
    chosen : (i : ℕ) (l : Line) → IsVictim tags base n i l → o ≡ some (i, l.age) → Choice o

  before_clean : NoneOf tags base n invalid_line → (k : Kind) → rank k < 1 → NoneOf tags base n k
  before_clean a invalid_line lt = a
  before_clean a shared_clean lt = absurd (omega arith)
  before_clean a private_clean lt = absurd (omega arith)
  before_clean a private_dirty lt = absurd (omega arith)

  before_private :
      NoneOf tags base n invalid_line
      → NoneOf tags base n shared_clean
      → (k : Kind) → rank k < 2
      → NoneOf tags base n k
  before_private a b invalid_line lt = a
  before_private a b shared_clean lt = b
  before_private a b private_clean lt = absurd (omega arith)
  before_private a b private_dirty lt = absurd (omega arith)

  before_dirty :
      NoneOf tags base n invalid_line
      → NoneOf tags base n shared_clean
      → NoneOf tags base n private_clean
      → (k : Kind) → rank k < 3
      → NoneOf tags base n k
  before_dirty a b c invalid_line lt = a
  before_dirty a b c shared_clean lt = b
  before_dirty a b c private_clean lt = c
  before_dirty a b c private_dirty lt = absurd (omega arith)

  all_kinds :
      NoneOf tags base n invalid_line
      → NoneOf tags base n shared_clean
      → NoneOf tags base n private_clean
      → NoneOf tags base n private_dirty
      → (k : Kind) → NoneOf tags base n k
  all_kinds a b c d invalid_line = a
  all_kinds a b c d shared_clean = b
  all_kinds a b c d private_clean = c
  all_kinds a b c d private_dirty = d

  choose :
      (b : Best)
      → OldestIs tags base n invalid_line b.inv
      → OldestIs tags base n shared_clean b.clean
      → OldestIs tags base n private_clean b.private
      → OldestIs tags base n private_dirty b.dirty
      → Choice (pick b)
  choose b (oldest i l lt at f all e) _ _ _ =
      chosen i l
        (record {
          kind = invalid_line;
          inside = lt;
          at = at;
          free = f;
          oldest_one = all;
          earlier = λ k h. elim h [ ];
        })
        (rw e)
  choose b (nothing e1 n1) (oldest i l lt at f all e) _ _ =
      chosen i l
        (record {
          kind = shared_clean;
          inside = lt;
          at = at;
          free = f;
          oldest_one = all;
          earlier = before_clean n1;
        })
        (rw (e1, e))
  choose b (nothing e1 n1) (nothing e2 n2) (oldest i l lt at f all e) _ =
      chosen i l
        (record {
          kind = private_clean;
          inside = lt;
          at = at;
          free = f;
          oldest_one = all;
          earlier = before_private n1 n2;
        })
        (rw (e1, e2, e))
  choose b (nothing e1 n1) (nothing e2 n2) (nothing e3 n3) (oldest i l lt at f all e) =
      chosen i l
        (record {
          kind = private_dirty;
          inside = lt;
          at = at;
          free = f;
          oldest_one = all;
          earlier = before_dirty n1 n2 n3;
        })
        (rw (e1, e2, e3, e))
  choose b (nothing e1 n1) (nothing e2 n2) (nothing e3 n3) (nothing e4 n4) =
      none_left (rw (e1, e2, e3, e4)) (all_kinds n1 n2 n3 n4)

-- What `Cache_miss_update` does to the set that starts at `base`.
pub data Replaced (c : Cache) (base : ℕ) (r : Checked (Cache × Option ℕ)) : Type 0 where
  stuck :
      (c' : Cache)
      → r ≡ ok (c', none)
      → ((k : Kind) → NoneOf c.tags base c.setsz k)
      → SameAges c.tags base c.setsz c'.tags
      → Replaced c base r
  replaced :
      (c' : Cache) (i : ℕ) (l : Line)
      → IsVictim c.tags base c.setsz i l
      → r ≡ ok (c', some (base + i))
      → Refreshed c.tags base c.setsz (base + i) c'.tags
      → Replaced c base r

module _ (now : ℕ) (c : Cache) (req : Request) (prefonly : Bool) (base : ℕ)
    (h : IsLru c.tags base c.setsz) where
  replace-Replaced :
      (s : Scan) (i : ℕ) (l : Line)
      → SameAges c.tags base c.setsz s.tags
      → IsVictim c.tags base c.setsz i l
      → Replaced c base (replace now c req prefonly base s (i, l.age))
  unfolding replace
  replace-Replaced s i l same v =
      let inset : InSet base c.setsz (base + i) = (omega arith, omega (arith, v.inside)) in
      let (old, at, a) = same.inside (base + i) l inset v.at in
      let f = replace_line now (base + i) l.age prefonly req in
      let m = for_lines-Mapped f c.setsz base s.tags (IsLru-SameAges same h).present in
      let stats = if is_invalid old.state then s.stats else count_useless old.pref s.stats in
      replaced (record c { stats = stats; tags = m.lines }) i l v (simp (at, m.returns))
        (Mapped-Refreshed c.tags base c.setsz (base + i) l v.at inset h
          (record { self = λ k. ground arith; other = λ j k ne. ground arith }) same m)

  give_up-Replaced :
      (s : Scan)
      → SameAges c.tags base c.setsz s.tags
      → Choice c.tags base c.setsz (pick s.best)
      → Replaced c base (give_up now c req prefonly base s)
  unfolding give_up
  give_up-Replaced s same (none_left e all) =
      stuck (record c { stats = s.stats; tags = s.tags }) (rw (e, give_up)) all same
  give_up-Replaced s same (chosen i l v e) = rw (e, give_up) (replace-Replaced s i l same v)

none_yet : (tags : List Line) (base : ℕ) (k : Kind) → OldestIs tags base 0 k (best_of k no_best)
none_yet tags base invalid_line = nothing refl (λ i l lt. elim lt [ ])
none_yet tags base shared_clean = nothing refl (λ i l lt. elim lt [ ])
none_yet tags base private_clean = nothing refl (λ i l lt. elim lt [ ])
none_yet tags base private_dirty = nothing refl (λ i l lt. elim lt [ ])

-- With the line at `p` in the set at `base`, `Cache_miss_update` gives up nothing exactly where no
-- line of the set can be given up. Otherwise it gives up the oldest invalid line, else the oldest
-- shared clean one, else the oldest private clean one, else the oldest dirty one, never one with an
-- upgrade outstanding; that line becomes the youngest, no two others change their order, and no other
-- set is touched.
pub miss_update-Replaced :
    (now : ℕ) (c : Cache) (req : Request) (p : ℕ) (prefonly : Bool) (base : ℕ) (l : Line)
    → IsLru c.tags base c.setsz
    → get_elem? c.tags p ≡ some l
    → set_base c l.index ≡ base
    → Replaced c base (miss_update now c req p prefonly)
unfolding miss_update
miss_update-Replaced now c req p prefonly base l h at b =
    let start : Scan = record { best = no_best; stats = c.stats; tags = c.tags } in
    let s =
      scan-Scanned c.tags base c.setsz (paddr_to_tag c req.paddr) h.present start refl
        (none_yet c.tags base) in
    let f = s.final in
    let same_call : miss_update now c req p prefonly ≡ give_up now c req prefonly base f =
      simp (at, b, s.returns) in
    subst (Replaced c base) (sym same_call) (
      give_up-Replaced now c req prefonly base h f s.same (
        choose c.tags base c.setsz f.best (s.best invalid_line) (s.best shared_clean)
          (s.best private_clean) (s.best private_dirty)))
