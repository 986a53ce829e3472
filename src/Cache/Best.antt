-- ===== src/Cache/Best.antt =====
-- The first loop of `Cache_miss_update` finds the oldest line of each kind.
use ml_rsim.Prelude.{
  ℕ, ◌+◌, ◌≤◌, ◌<◌, ◌≡◌, refl, sym, ap, ◌∙◌, inl, inr, Bool, true, false, not, ◌&&◌, Option, none,
  some, List, arith, ltb, ltb→lt, ltb_false→le, ◌==◌, ==_iff, if◌then◌else◌, Bool-cases, get_elem?,
}
use ml_rsim.Cache.Line.{LineState, invalid, pr_cl, sh_cl, pr_dy, Line}
use ml_rsim.Cache.Recency.{some_inj, ne_of_test}
use ml_rsim.Cache.Victim.{Best, improve, consider_state, consider}

-- The kinds of lines in the order in which they are given up.
pub data Kind : Type 0 where
  invalid_line shared_clean private_clean private_dirty : Kind

abbrev pub is_kind : Kind → LineState → Bool
is_kind invalid_line invalid = true
is_kind shared_clean sh_cl = true
is_kind private_clean pr_cl = true
is_kind private_dirty pr_dy = true
is_kind _ _ = false

abbrev pub best_of : Kind → Best → Option (ℕ × ℕ)
best_of invalid_line b = b.inv
best_of shared_clean b = b.clean
best_of private_clean b = b.private
best_of private_dirty b = b.dirty

-- A line of the kind that no outstanding upgrade holds in place.
abbrev pub eligible : Kind → Line → Bool
eligible k l = not l.mshr_out && is_kind k l.state

-- `o` is the oldest eligible line of the kind among the first `n` of a set, as offset and age.
pub data OldestIs (tags : List Line) (base n : ℕ) (k : Kind) (o : Option (ℕ × ℕ)) : Type 0 where
  nothing :
      o ≡ none
      → ((i : ℕ) (l : Line) → i < n → get_elem? tags (base + i) ≡ some l → eligible k l ≡ false)
      → OldestIs tags base n k o
  oldest :
      (i : ℕ) (l : Line)
      → i < n
      → get_elem? tags (base + i) ≡ some l
      → eligible k l ≡ true
      → ((j : ℕ) (m : Line)
          → j < n
          → get_elem? tags (base + j) ≡ some m
          → eligible k m ≡ true
          → m.age ≤ l.age)
      → o ≡ some (i, l.age)
      → OldestIs tags base n k o

consider_state-field :
    (k : Kind) (st : LineState) (i age : ℕ) (b : Best)
    → best_of k (consider_state st i age b)
      ≡ (if is_kind k st then improve i age (best_of k b) else best_of k b)
consider_state-field invalid_line invalid i age b = refl
consider_state-field shared_clean sh_cl i age b = refl
consider_state-field private_clean pr_cl i age b = refl
consider_state-field private_dirty pr_dy i age b = refl
consider_state-field _ _ i age b = refl

consider-field :
    (k : Kind) (i : ℕ) (l : Line) (b : Best)
    → best_of k (consider i l b)
      ≡ (if eligible k l then improve i l.age (best_of k b) else best_of k b)
consider-field k i l b = elim (Bool-cases l.mshr_out) [
  | inl held ↦ simp held
  | inr free ↦ simp free (consider_state-field k l.state i l.age b)
]

module _ (tags : List Line) (base : ℕ) (k : Kind) where
  -- The next line of the set.
  module _ (n : ℕ) (l : Line) (at : get_elem? tags (base + n) ≡ some l) where
    same_line : (j : ℕ) (m : Line) → n ≡ j → get_elem? tags (base + j) ≡ some m → m ≡ l
    same_line j m e em = some_inj (sym em ∙ ap (λ x. get_elem? tags (base + x)) (sym e) ∙ at)

    OldestIs-skip :
        (o : Option (ℕ × ℕ))
        → eligible k l ≡ false
        → OldestIs tags base n k o
        → OldestIs tags base (n + 1) k o
    OldestIs-skip o no_line (nothing e none_is) = nothing e (λ j m lt em.
        elim (Bool-cases (n == j)) [
          | inl q ↦ ap (eligible k) (same_line j m ((==_iff n j).0 q) em) ∙ no_line
          | inr q ↦ none_is j m (omega (arith, ne_of_test q)) em
        ])
    OldestIs-skip o no_line (oldest i m lt em is_m all e) =
        oldest i m (omega arith) em is_m
          (λ j m' lt' em' is_m'. elim (Bool-cases (n == j)) [
            | inl q ↦ absurd (
                clash
                  (sym is_m' ∙ ap (eligible k) (same_line j m' ((==_iff n j).0 q) em') ∙ no_line))
            | inr q ↦ all j m' (omega (arith, ne_of_test q)) em' is_m'
          ])
          e
      where
        clash : true ≡ false → ⊥
        clash h = cc

    OldestIs-improve :
        (o : Option (ℕ × ℕ))
        → eligible k l ≡ true
        → OldestIs tags base n k o
        → OldestIs tags base (n + 1) k (improve n l.age o)
    OldestIs-improve o is_l (nothing e none_is) =
        oldest n l (omega arith) at is_l
          (λ j m lt em is_m. elim (Bool-cases (n == j)) [
            | inl q ↦ omega (arith, ap (λ x. x.age) (same_line j m ((==_iff n j).0 q) em))
            | inr q ↦ absurd (clash (sym is_m ∙ none_is j m (omega (arith, ne_of_test q)) em))
          ])
          (rw e)
      where
        clash : true ≡ false → ⊥
        clash h = cc
    OldestIs-improve o is_l (oldest i m lt em is_m all e) = elim (Bool-cases (ltb m.age l.age)) [
      | inl older ↦
          oldest n l (omega arith) at is_l
            (λ j m' lt' em' is_m'. elim (Bool-cases (n == j)) [
              | inl q ↦ omega (arith, ap (λ x. x.age) (same_line j m' ((==_iff n j).0 q) em'))
              | inr q ↦ omega (
                arith,
                all j m' (omega (arith, ne_of_test q)) em' is_m',
                ltb→lt m.age l.age older,
              )
            ])
            (rw (e, older))
      | inr newer ↦
          oldest i m (omega arith) em is_m
            (λ j m' lt' em' is_m'. elim (Bool-cases (n == j)) [
              | inl q ↦ omega (
                arith,
                ap (λ x. x.age) (same_line j m' ((==_iff n j).0 q) em'),
                ltb_false→le m.age l.age newer,
              )
              | inr q ↦ all j m' (omega (arith, ne_of_test q)) em' is_m'
            ])
            (rw (e, newer))
    ]

    pub OldestIs-consider :
        (b : Best)
        → OldestIs tags base n k (best_of k b)
        → OldestIs tags base (n + 1) k (best_of k (consider n l b))
    OldestIs-consider b h = rw (consider-field k n l b) (elim (Bool-cases (eligible k l)) [
      | inl e ↦ rw e (OldestIs-improve (best_of k b) e h)
      | inr e ↦ rw e (OldestIs-skip (best_of k b) e h)
    ])
