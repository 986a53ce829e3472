-- ===== src/BranchPredictor/History.antt =====
-- The two bits of a branch in Processor/branchpred.hh, against the diagram of states there.
use ml_rsim.Prelude.{
  ℕ, ◌/◌, ◌^◌, ◌<◌, ◌≡◌, ◌≢◌, ◌⊎◌, refl, sym, ap, ◌∙◌, inl, inr, arith, true, false, Bool-cases,
  some, Checked, ok, ◌==◌, if◌then◌else◌, length, get_elem?, get_elem?-set_self, get_elem?-set_ne,
  length-set, set, bit_and-ones,
}
use native.Mathlib.Nat.{mod-lt, one-le-pow}
use ml_rsim.BranchPredictor.{Predictor, position, learn}

-- The tables have a size that is a power of two.
pub record IsPredictor (p : Predictor) : Type 0 where
  pub power : ℕ
  pub size : p.bpb_size ≡ 2 ^ power
  pub preds : length p.branch_pred ≡ p.bpb_size
  pub prevs : length p.prev_pred ≡ p.bpb_size

-- The states of the diagram, the prediction first
pub data State : Type 0 where
  s00 s01 s10 s11 : State

-- An arrow of the diagram: what is seen, and where it leads
abbrev pub next : State → ℕ → State
next s00 t = if t == 0 then s00 else s01
next s01 t = if t == 0 then s00 else s11
next s10 t = if t == 0 then s00 else s11
next s11 t = if t == 0 then s10 else s11

abbrev pub bits : State → ℕ × ℕ
bits s00 = (0, 0)
bits s01 = (0, 1)
bits s10 = (1, 0)
bits s11 = (1, 1)

-- An entry of the tables in a state
abbrev pub In : Predictor → ℕ → State → Type 0
In p n s =
    (get_elem? p.branch_pred n ≡ some (bits s).0) × (get_elem? p.prev_pred n ≡ some (bits s).1)

pub position_in : (p : Predictor) (h : IsPredictor p) (bpc : ℕ) → position p bpc < p.bpb_size
position_in p h bpc =
    rw h.size
      (rw (bit_and-ones (bpc / 4) h.power) (mod-lt (bpc / 4) (one-le-pow h.power 2 (omega arith))))

-- What BPBComplete does to the tables
pub record Learnt (p : Predictor) (n : ℕ) (s : State) (r : Checked Predictor) : Type 0 where
  pub after : Predictor
  pub returns : r ≡ ok after
  pub here : In after n s
  pub others :
      (m : ℕ)
      → n ≢ m
      → (get_elem? after.branch_pred m ≡ get_elem? p.branch_pred m)
        × (get_elem? after.prev_pred m ≡ get_elem? p.prev_pred m)
  pub kept : IsPredictor after
  pub kind : after.bpb_type ≡ p.bpb_type
  pub same_size : after.bpb_size ≡ p.bpb_size

module _ (p : Predictor) (h : IsPredictor p) (n : ℕ) (lt : n < p.bpb_size) (t : ℕ) where
  set_both : Predictor
  set_both = record p { prev_pred = set p.prev_pred n t; branch_pred = set p.branch_pred n t }

  set_prev : Predictor
  set_prev = record p { prev_pred = set p.prev_pred n t }

  learn-both :
      (a b : ℕ)
      → get_elem? p.branch_pred n ≡ some a
      → get_elem? p.prev_pred n ≡ some b
      → (b == a) ≡ false
      → learn p n t ≡ ok set_both
  unfolding learn set_both
  learn-both a b at at' e = rw at' (rw at (rw e refl))

  learn-prev :
      (a b : ℕ)
      → get_elem? p.branch_pred n ≡ some a
      → get_elem? p.prev_pred n ≡ some b
      → (b == a) ≡ true
      → learn p n t ≡ ok set_prev
  unfolding learn set_prev
  learn-prev a b at at' e = rw at' (rw at (rw e refl))

  prev_set : get_elem? (set p.prev_pred n t) n ≡ some t
  prev_set = get_elem?-set_self p.prev_pred n t (omega (arith, lt, h.prevs))

  pred_set : get_elem? (set p.branch_pred n t) n ≡ some t
  pred_set = get_elem?-set_self p.branch_pred n t (omega (arith, lt, h.preds))

  both_set : (s : State) → bits s ≡ (t, t) → learn p n t ≡ ok set_both → Learnt p n s (learn p n t)
  unfolding set_both
  both_set s e r = record {
    after = set_both;
    returns = r;
    here = (
      pred_set ∙ ap (λ (x : ℕ × ℕ). some x.0) (sym e),
      prev_set ∙ ap (λ (x : ℕ × ℕ). some x.1) (sym e),
    );
    others = λ m q. (get_elem?-set_ne p.branch_pred n m t q, get_elem?-set_ne p.prev_pred n m t q);
    kept = record {
      power = h.power;
      size = h.size;
      preds = length-set p.branch_pred n t ∙ h.preds;
      prevs = length-set p.prev_pred n t ∙ h.prevs;
    };
    kind = refl;
    same_size = refl;
  }

  one_set :
      (s : State) (a : ℕ)
      → get_elem? p.branch_pred n ≡ some a
      → bits s ≡ (a, t)
      → learn p n t ≡ ok set_prev
      → Learnt p n s (learn p n t)
  unfolding set_prev
  one_set s a at e r = record {
    after = set_prev;
    returns = r;
    here = (
      at ∙ ap (λ (x : ℕ × ℕ). some x.0) (sym e),
      prev_set ∙ ap (λ (x : ℕ × ℕ). some x.1) (sym e),
    );
    others = λ m q. (refl, get_elem?-set_ne p.prev_pred n m t q);
    kept = record {
      power = h.power;
      size = h.size;
      preds = h.preds;
      prevs = length-set p.prev_pred n t ∙ h.prevs;
    };
    kind = refl;
    same_size = refl;
  }

  pub learn_lem : (s : State) → In p n s → t < 2 → Learnt p n (next s t) (learn p n t)
  learn_lem s (at, at') q = by_value s at at' (Bool-cases (t == 0))
    where
      by_value :
          (s : State)
          → get_elem? p.branch_pred n ≡ some (bits s).0
          → get_elem? p.prev_pred n ≡ some (bits s).1
          → ((t == 0) ≡ true) ⊎ ((t == 0) ≡ false)
          → Learnt p n (next s t) (learn p n t)
      by_value s00 at at' (inl e) =
          let z : 0 ≡ t = ground (arith, e) in
          rw e (one_set s00 0 at (ap (λ (x : ℕ). (0, x)) z) (learn-prev 0 0 at at' refl))
      by_value s00 at at' (inr e) =
          let z : 1 ≡ t = ground (arith, e, q) in
          rw e (one_set s01 0 at (ap (λ (x : ℕ). (0, x)) z) (learn-prev 0 0 at at' refl))
      by_value s01 at at' (inl e) =
          let z : 0 ≡ t = ground (arith, e) in
          rw e (both_set s00 (ap (λ (x : ℕ). (x, x)) z) (learn-both 0 1 at at' refl))
      by_value s01 at at' (inr e) =
          let z : 1 ≡ t = ground (arith, e, q) in
          rw e (both_set s11 (ap (λ (x : ℕ). (x, x)) z) (learn-both 0 1 at at' refl))
      by_value s10 at at' (inl e) =
          let z : 0 ≡ t = ground (arith, e) in
          rw e (both_set s00 (ap (λ (x : ℕ). (x, x)) z) (learn-both 1 0 at at' refl))
      by_value s10 at at' (inr e) =
          let z : 1 ≡ t = ground (arith, e, q) in
          rw e (both_set s11 (ap (λ (x : ℕ). (x, x)) z) (learn-both 1 0 at at' refl))
      by_value s11 at at' (inl e) =
          let z : 0 ≡ t = ground (arith, e) in
          rw e (one_set s10 1 at (ap (λ (x : ℕ). (1, x)) z) (learn-prev 1 1 at at' refl))
      by_value s11 at at' (inr e) =
          let z : 1 ≡ t = ground (arith, e, q) in
          rw e (one_set s11 1 at (ap (λ (x : ℕ). (1, x)) z) (learn-prev 1 1 at at' refl))
