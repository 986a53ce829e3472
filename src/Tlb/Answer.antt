-- ===== src/Tlb/Answer.antt =====
-- What `LookUp` of Processor/tlb.cc answers.
use ml_rsim.Prelude.{
  ℕ, ◌+◌, ◌-◌, ◌*◌, ◌/◌, ◌%◌, ◌≤◌, ◌<◌, ◌≡◌, ◌≢◌, refl, sym, ap, ◌∙◌, inl, inr, arith, Bool, true,
  false, Bool-cases, none, some, Checked, ok, length, get_elem?, get_elem?-some, mod_wrap, max,
}
use native.Mathlib.Nat.{mod-lt, le-div_iff_mul-le, div-mul-le_self}
use ml_rsim.Tlb.{
  PageBits, Entry, Tlb, TlbType, fully_assoc, set_assoc, direct_mapped, perfect, page_number,
  page_loop,
}
use ml_rsim.Tlb.LookUp.{
  Access, miss, Looked, matches, translate, not_found, is_hit, look_up_full, answer_set,
  look_up_set, look_up_direct, look_up, look_up_as, set_search, Table,
}
use ml_rsim.Tlb.Search.{Maps, matches-Maps, Maps-matches, RingSought, ring_search-RingSought}
use ml_rsim.Tlb.Sets.{Aged, Aged-refl, same_entry, use_set-Aged, SetSought, set_search-SetSought}
use ml_rsim.Tlb.Verdict.{Verdict, translate-Verdict, translate_keeps}

-- The sizes fit: an entry for each place, and sets inside the array.
pub record IsTlb (t : Tlb) : Type 0 where
  pub sized : length t.entries ≡ t.size
  pub positive : 0 < t.size
  pub indexed : t.index < t.size
  pub ways : 0 < t.associativity
  pub sets : t.associativity ≤ t.size

-- The places in which an entry for the page may be
abbrev pub set_of : Tlb → Access → ℕ
set_of t a = a.addr / 4096 % (t.size / t.associativity) * t.associativity

abbrev pub Candidate : TlbType → Tlb → Access → ℕ → Type 0
Candidate fully_assoc t a i = i < t.size
Candidate set_assoc t a i = (set_of t a ≤ i) × (i < set_of t a + t.associativity)
Candidate direct_mapped t a i = i ≡ a.addr / 4096 % t.size
Candidate perfect t a i = i < t.size

-- A miss where no candidate maps the page, else the verdict on one that does; the entries are as
-- before but for their ages.
pub data Looks (kind : TlbType) (bits : PageBits) (t : Tlb) (a : Access) (r : Checked Looked)
    : Type 0 where
  missed :
      (x : Looked)
      → r ≡ ok x
      → x.answer ≡ miss
      → x.address ≡ a.addr
      → Aged t.entries x.tlb.entries
      → ((i : ℕ) (e : Entry) → Candidate kind t a i → get_elem? t.entries i ≡ some e → ¬ Maps t a e)
      → Looks kind bits t a r
  answered :
      (x : Looked) (i : ℕ) (e : Entry)
      → r ≡ ok x
      → Candidate kind t a i
      → get_elem? t.entries i ≡ some e
      → Maps t a e
      → Verdict bits a e.mapping x
      → Aged t.entries x.tlb.entries
      → Looks kind bits t a r

pub page_number-eq : (addr : ℕ) → page_number addr ≡ addr / 4096
unfolding page_loop
page_number-eq addr = omega arith

no_match : (t : Tlb) (a : Access) (e : Entry) → matches t a.addr a.context e ≡ false → ¬ Maps t a e
no_match t a e h m = clash (Maps-matches t a e m) h
  where
    clash : {b : Bool} → b ≡ true → b ≡ false → ⊥
    clash p q = cc

round_to : (n index i : ℕ) → index < n → i < n → (index + (i + n - index) % n) % n ≡ i
round_to n index i p q =
    ground (arith, mod_wrap (i + n - index) n, mod_wrap (index + (i + n - index) % n) n)

set_fits : (p size ways : ℕ) → 0 < ways → ways ≤ size → p % (size / ways) * ways + ways ≤ size
set_fits p size ways h k =
    let most = (le-div_iff_mul-le {k = ways} {x = 1} {y = size} h).1 (omega (arith, k)) in
    grind (arith, div-mul-le_self size ways, mod-lt p {m = size / ways} most)

module _ (bits : PageBits) (t : Tlb) (a : Access) (h : IsTlb t) where
  one_round : max 1 t.size ≡ t.size
  one_round = omega (arith, h.positive)

  full-Looks : Looks fully_assoc bits t a (look_up_full bits t a)
  unfolding look_up_full
  full-Looks = elim (ring_search-RingSought t a h.sized (max 1 t.size) t.index h.indexed) [
    | RingSought.found i e r lt at m ↦
        answered (translate bits (record t { index = i }) a e.mapping) i e (rw r refl) lt at
          (matches-Maps t a e m) (translate-Verdict bits (record t { index = i }) a e.mapping)
          (rw (translate_keeps bits (record t { index = i }) a e.mapping) (Aged-refl t.entries))
    | RingSought.nowhere r all ↦
        missed (not_found (record t { index = (t.index + max 1 t.size) % t.size }) a) (rw r refl)
          refl refl (Aged-refl t.entries)
          (λ i e lt at. no_match t a e (
            all ((i + t.size - t.index) % t.size) e
              (omega (arith, one_round, mod-lt (i + t.size - t.index) h.positive))
              (ap (get_elem? t.entries) (round_to t.size t.index i h.indexed lt) ∙ at)))
  ]

  direct-Looks : Looks direct_mapped bits t a (look_up_direct bits t a)
  unfolding look_up_direct
  direct-Looks =
      let i = page_number a.addr % t.size in
      let (e, at) =
        get_elem?-some t.entries i
          (omega (arith, h.sized, mod-lt (page_number a.addr) h.positive)) in
      elim (Bool-cases (matches t a.addr a.context e)) [
        | inl m ↦
            answered (translate bits t a e.mapping) i e (rw at (rw m refl))
              (ap (λ p. p % t.size) (page_number-eq a.addr)) at (matches-Maps t a e m)
              (translate-Verdict bits t a e.mapping)
              (rw (translate_keeps bits t a e.mapping) (Aged-refl t.entries))
        | inr m ↦
            missed (not_found t a) (rw at (rw m refl)) refl refl (Aged-refl t.entries) (λ j u c f.
              no_match t a u (
                ap (matches t a.addr a.context) (
                  same_entry f (
                    ap (get_elem? t.entries)
                      (c ∙ ap (λ p. p % t.size) (sym (page_number-eq a.addr)))
                    ∙ at))
                ∙ m))
      ]

  module _ (base : ℕ) (at_set : base ≡ set_of t a) where
    inside : base + t.associativity ≤ length t.entries
    inside =
        omega
          (arith, at_set, h.sized, set_fits (a.addr / 4096) t.size t.associativity h.ways h.sets)

    used_Looks :
        (i : ℕ) (e : Entry)
        → i < t.associativity
        → get_elem? t.entries (base + i) ≡ some e
        → Maps t a e
        → Looks set_assoc bits t a (answer_set bits t a base (some (i, e)))
    unfolding answer_set
    used_Looks i e lt at m =
        let v = translate-Verdict bits t a e.mapping in
        let x = translate bits t a e.mapping in
        let here : Candidate set_assoc t a (base + i) = omega (arith, at_set, lt) in
        elim (Bool-cases (is_hit x.answer)) [
          | inl used ↦
              let (es, r, aged) = use_set-Aged t base i e inside at in
              answered (record x { tlb = record t { entries = es } }) (base + i) e
                (rw (used, r) refl) here at m
                (record { granted = v.granted; denied = v.denied; attributes = v.attributes }) aged
          | inr not_used ↦
              answered x (base + i) e (rw not_used refl) here at m v
                (rw (translate_keeps bits t a e.mapping) (Aged-refl t.entries))
        ]

    missed_Looks :
        ((j : ℕ) (e : Entry)
          → j < t.associativity
          → get_elem? t.entries (base + j) ≡ some e
          → matches t a.addr a.context e ≡ false)
        → Looks set_assoc bits t a (answer_set bits t a base none)
    unfolding answer_set
    missed_Looks all = missed (not_found t a) refl refl refl (Aged-refl t.entries) (λ i e c at.
        no_match t a e (
          all (i - base) e (omega (arith, at_set, c.0, c.1))
            (ap (get_elem? t.entries) (omega (arith, at_set, c.0)) ∙ at)))

  again :
      {kind : TlbType} {r r' : Checked Looked}
      → r ≡ r'
      → Looks kind bits t a r'
      → Looks kind bits t a r
  again e (missed x f p q g all) = missed x (e ∙ f) p q g all
  again e (answered x i u f c at m v g) = answered x i u (e ∙ f) c at m v g

  set-Looks : Looks set_assoc bits t a (look_up_set bits t a)
  unfolding look_up_set
  set-Looks = sought (
      set_search-SetSought t a base (max 1 t.associativity) 0
        (omega (arith, inside base at_set, h.ways)))
    where
      base : ℕ
      base = page_number a.addr % (t.size / t.associativity) * t.associativity

      at_set : base ≡ set_of t a
      at_set = ap (λ p. p % (t.size / t.associativity) * t.associativity) (page_number-eq a.addr)

      sought :
          SetSought t a base
            (max 1 t.associativity)
            0
            (set_search t a base (max 1 t.associativity) 0)
          → Looks set_assoc bits t a (look_up_set bits t a)
      sought (SetSought.found j e r lt at m) =
          again (rw r refl)
            (used_Looks base at_set j e (omega (arith, lt, h.ways)) at (matches-Maps t a e m))
      sought (SetSought.nowhere r all) =
          again (rw r refl)
            (missed_Looks base at_set (λ j e lt at. all j e (omega arith) (omega (arith, lt)) at))

-- `LookUp` of a TLB that is not perfect.
pub look_up-Looks :
    (bits : PageBits) (m : Table) (t : Tlb) (a : Access)
    → IsTlb t
    → t.kind ≢ perfect
    → Looks t.kind bits t a (look_up bits m t a)
unfolding look_up look_up_as
look_up-Looks bits m t a h imperfect = by_kind t.kind imperfect
  where
    by_kind : (k : TlbType) → k ≢ perfect → Looks k bits t a (look_up_as k bits m t a)
    by_kind fully_assoc e = full-Looks bits t a h
    by_kind set_assoc e = set-Looks bits t a h
    by_kind direct_mapped e = direct-Looks bits t a h
    by_kind perfect e = absurd (e refl)
