-- ===== src/Tlb/Verdict.antt =====
-- The translation that `LookUp` of Processor/tlb.cc makes of a page table entry.
use ml_rsim.Prelude.{
  ℕ, ◌+◌, ◌*◌, ◌/◌, ◌%◌, ◌≡◌, refl, inl, inr, arith, Bool, true, false, not, ◌&&◌, Bool-cases,
}
use ml_rsim.Tlb.{PageBits, Tlb}
use ml_rsim.Tlb.LookUp.{Access, hit, fault, Looked, translate}

-- A page table entry grants the access.
pub record Granted (bits : PageBits) (a : Access) (mapping : ℕ) : Type 0 where
  pub mapped : bits.is_mapped mapping ≡ true
  pub writable : a.write ≡ true → bits.is_rdonly mapping ≡ false
  pub open_to : a.priv ≡ false → bits.is_priv mapping ≡ false

-- The translation that a page table entry gives
pub record Verdict (bits : PageBits) (a : Access) (mapping : ℕ) (x : Looked) : Type 0 where
  pub granted :
      Granted bits a mapping
      → (x.answer ≡ hit) × (x.address ≡ mapping / 4096 * 4096 + a.addr % 4096)
  pub denied : ¬ Granted bits a mapping → (x.answer ≡ fault) × (x.address ≡ a.addr)
  pub attributes : x.attributes ≡ mapping % 4096

unclear : {b : Bool} → b ≡ true → b ≡ false → ⊥
unclear p q = cc

both : {a b : Bool} → (a && b) ≡ true → (a ≡ true) × (b ≡ true)
both h = ground (arith, h)

not_both : {a b : Bool} → (a && b) ≡ false → a ≡ true → b ≡ false
not_both h p = ground (arith, h, p)

flipped : {b : Bool} → not b ≡ true → b ≡ false
flipped h = ground (arith, h)

unflipped : {b : Bool} → b ≡ false → not b ≡ true
unflipped h = ground (arith, h)

module _ (bits : PageBits) (t : Tlb) (a : Access) (mapping : ℕ) where
  pub denied-Verdict :
      (x : Looked)
      → ¬ Granted bits a mapping
      → x.answer ≡ fault
      → x.address ≡ a.addr
      → x.attributes ≡ mapping % 4096
      → Verdict bits a mapping x
  denied-Verdict x refused p q r = record {
    granted = λ g. absurd (refused g);
    denied = λ h. (p, q);
    attributes = r;
  }

  pub translate-Verdict : Verdict bits a mapping (translate bits t a mapping)
  unfolding translate
  translate-Verdict = elim (Bool-cases (a.write && bits.is_rdonly mapping)) [
    | inl w ↦
        rw w (denied-Verdict _ (λ g. unclear (both w).1 (g.writable (both w).0)) refl refl refl)
    | inr w ↦ elim (Bool-cases (not a.priv && bits.is_priv mapping)) [
      | inl v ↦
          rw (w, v)
            (denied-Verdict _ (λ g. unclear (both v).1 (g.open_to (flipped (both v).0))) refl refl
              refl)
      | inr v ↦ elim (Bool-cases (bits.is_mapped mapping)) [
        | inl m ↦
            rw (w, v, m)
              (record {
                granted = λ g. (refl, refl);
                denied = λ refused. absurd (
                    refused (record {
                      mapped = m;
                      writable = not_both w;
                      open_to = λ p. not_both v (unflipped p);
                    }));
                attributes = refl;
              })
        | inr m ↦ rw (w, v, m) (denied-Verdict _ (λ g. unclear g.mapped m) refl refl refl)
      ]
    ]
  ]

  pub translate_keeps : (translate bits t a mapping).tlb ≡ t
  unfolding translate
  translate_keeps = ground arith
