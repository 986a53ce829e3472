-- ===== src/UncachedBuffer/Add.antt =====
-- Where `UBuffer_add_request` of Caches/ubuf.c puts a request.
use ml_rsim.Prelude.{
  ℕ, zero, suc, ◌≤◌, ◌<◌, ◌≡◌, inl, inr, refl, sym, ap, ◌∙◌, arith, true, false, Bool-cases, Option,
  some, Checked, ok, ltb, ◌==◌, length, get_elem?, get_elem?-some, bit_and,
}
use ml_rsim.UncachedBuffer.{
  Kind, read, write, rmw, same_kind, Req, Item, Buffer, closed, takes, find_top,
}

-- A buffer whose arrays have the sizes that `UBuffer_init` gives them
pub record Sized (b : Buffer) : Type 0 where
  pub all : length b.entries ≡ b.size
  pub fits : b.num_entries ≤ b.size
  pub slots : 0 < b.entrysz
  pub items : (n : ℕ) (it : Item) → get_elem? b.entries n ≡ some it → length it.reqs ≡ b.entrysz

-- A request may go before what comes after the item, and into it.
pub record Open (it : Item) (r : Req) : Type 0 where
  pub of_kind : it.kind ≡ r.kind
  pub unfenced : it.fence ≡ false
  pub idle : it.busy ≡ false

kind-same : (k l : Kind) → same_kind k l ≡ true → k ≡ l
kind-same read read h = refl
kind-same read write h = absurd (cc h)
kind-same read rmw h = absurd (cc h)
kind-same write read h = absurd (cc h)
kind-same write write h = refl
kind-same write rmw h = absurd (cc h)
kind-same rmw read h = absurd (cc h)
kind-same rmw write h = absurd (cc h)
kind-same rmw rmw h = refl

same-kind : (k : Kind) → same_kind k k ≡ true
same-kind read = refl
same-kind write = refl
same-kind rmw = refl

closed-Open : (it : Item) (r : Req) → closed it r ≡ false → Open it r
unfolding closed
closed-Open it r h = record {
  of_kind = kind-same it.kind r.kind (ground (arith, h));
  unfenced = ground (arith, h);
  idle = ground (arith, h);
}

Open-closed : (it : Item) (r : Req) → Open it r → closed it r ≡ false
unfolding closed
Open-closed it r o =
    let s : same_kind it.kind r.kind ≡ true =
      ap (same_kind it.kind) (sym o.of_kind) ∙ same-kind it.kind in
    ground (arith, s, o.unfenced, o.idle)

module _ (b : Buffer) (r : Req) where
  -- The item's address is that of the request.
  abbrev pub Hit : Item → Type 0
  Hit it = it.address ≡ bit_and r.paddr b.line_mask

  -- All items from `m` to `n` are open to the request, and those behind `m` have other addresses.
  pub record Reach (m n : ℕ) : Type 0 where
    pub opens : (i : ℕ) (it : Item) → m < i → i < n → get_elem? b.entries i ≡ some it → Open it r
    pub misses : (i : ℕ) (it : Item) → m < i → i < n → get_elem? b.entries i ≡ some it → Hit it → ⊥

  -- The search among the first `n` items
  pub data Place (n : ℕ) (s : Checked ℕ) : Type 0 where
    inside :
        (m : ℕ) (it : Item)
        → s ≡ ok m
        → m < n
        → get_elem? b.entries m ≡ some it
        → Hit it
        → Open it r
        → Reach m n
        → Place n s
    blocked :
        (m : ℕ) (it : Item)
        → s ≡ ok b.num_entries
        → m < n
        → get_elem? b.entries m ≡ some it
        → (Open it r → ⊥)
        → Reach m n
        → Place n s
    nowhere :
        s ≡ ok b.num_entries
        → ((i : ℕ) (it : Item) → i < n → get_elem? b.entries i ≡ some it → Open it r × (Hit it → ⊥))
        → Place n s

  at_end : (n : ℕ) → Reach n (suc n)
  at_end n = record {
    opens = λ i it p q e. absurd (omega arith);
    misses = λ i it p q e h. omega arith;
  }

  same_item : {it it' : Item} {o : Option Item} → o ≡ some it → o ≡ some it' → it ≡ it'
  same_item p q = cc

  module _ (n : ℕ) (top : Item) (at : get_elem? b.entries n ≡ some top) (o : Open top r)
      (u : Hit top → ⊥) where
    at_top :
        (i : ℕ) (it : Item)
        → n ≤ i
        → i < suc n
        → get_elem? b.entries i ≡ some it
        → Open it r × (Hit it → ⊥)
    at_top i it p q e =
        let same : top ≡ it =
          same_item at (ap (get_elem? b.entries) {x = n} {y = i} (omega arith) ∙ e) in
        rw (sym same) (o, u)

    wider : (m : ℕ) → Reach m n → Reach m (suc n)
    wider m w = record {
      opens = λ i it p q e. elim (Bool-cases (ltb i n)) [
        | inl l ↦ w.opens i it p (ground (arith, l)) e
        | inr l ↦ (at_top i it (ground (arith, l)) q e).0
      ];
      misses = λ i it p q e h. elim (Bool-cases (ltb i n)) [
        | inl l ↦ w.misses i it p (ground (arith, l)) e h
        | inr l ↦ (at_top i it (ground (arith, l)) q e).1 h
      ];
    }

    one_more : {s : Checked ℕ} → Place n s → Place (suc n) s
    one_more (inside m it s p e h v w) = inside m it s (omega (arith, p)) e h v (wider m w)
    one_more (blocked m it s p e v w) = blocked m it s (omega (arith, p)) e v (wider m w)
    one_more (nowhere s all) = nowhere s (λ i it q e. elim (Bool-cases (ltb i n)) [
      | inl l ↦ all i it (ground (arith, l)) e
      | inr l ↦ at_top i it (ground (arith, l)) q e
    ])

  pub find_top-Place : (n : ℕ) → n ≤ length b.entries → Place n (find_top b r n)
  unfolding find_top takes
  find_top-Place zero p = nowhere refl (λ i it q e. absurd (omega arith))
  find_top-Place (suc n) p =
      let (it, at) = get_elem?-some b.entries n (omega (arith, p)) in
      rw at (elim (Bool-cases (closed it r)) [
        | inl c ↦
            rw c (blocked n it refl (omega arith) at (λ o. cc (c, Open-closed it r o)) (at_end n))
        | inr c ↦ rw c (elim (Bool-cases (it.address == bit_and r.paddr b.line_mask)) [
          | inl t ↦ rw t (
              inside n it refl (omega arith) at (ground (arith, t)) (closed-Open it r c) (at_end n))
          | inr t ↦ rw t (
              one_more n it at (closed-Open it r c) (λ h. ground (arith, h, t))
                (find_top-Place n (omega (arith, p))))
        ])
      ])
