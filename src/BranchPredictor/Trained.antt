-- ===== src/BranchPredictor/Trained.antt =====
-- BPBComplete and BPBPredict of Processor/branchpred.hh together.
use ml_rsim.Prelude.{
  ℕ, zero, suc, ◌-◌, ◌/◌, bit_and, ◌<◌, ◌≡◌, ◌≢◌, refl, sym, ap, ◌∙◌, subst, arith, ok, ◌>>=◌,
}
use ml_rsim.BranchPredictor.{
  BpType, two_bit, two_bit_agree, static, Predictor, position, agree, bpb_predict, learn,
  bpb_complete,
}
use ml_rsim.BranchPredictor.History.{
  IsPredictor, State, s00, s01, s10, s11, next, bits, In, Learnt, learn_lem, position_in,
}

-- What the tables are taught: the outcome, or whether it is as the branch says
abbrev pub lesson : BpType → ℕ → ℕ → ℕ
lesson two_bit t hint = t
lesson two_bit_agree t hint = agree t hint
lesson static t hint = t

pub lesson_bit : (k : BpType) (t hint : ℕ) → t < 2 → lesson k t hint < 2
lesson_bit two_bit t hint h = h
lesson_bit two_bit_agree t hint h = ground arith
lesson_bit static t hint h = h

module _ (p : Predictor) (bpc t hint : ℕ) where
  complete_as :
      p.bpb_type ≢ static
      → bpb_complete p bpc t hint ≡ learn p (position p bpc) (lesson p.bpb_type t hint)
  unfolding bpb_complete
  complete_as dynamic = by_kind p.bpb_type refl
    where
      by_kind :
          (k : BpType)
          → p.bpb_type ≡ k
          → bpb_complete p bpc t hint ≡ learn p (position p bpc) (lesson p.bpb_type t hint)
      by_kind two_bit e = rw e refl
      by_kind two_bit_agree e = rw e refl
      by_kind static e = absurd (dynamic e)

  predict_as :
      (s : State)
      → p.bpb_type ≢ static
      → In p (position p bpc) s
      → bpb_predict p bpc hint ≡ ok (lesson p.bpb_type (bits s).0 hint)
  unfolding bpb_predict
  predict_as s dynamic (at, at') = by_kind p.bpb_type refl
    where
      by_kind :
          (k : BpType)
          → p.bpb_type ≡ k
          → bpb_predict p bpc hint ≡ ok (lesson p.bpb_type (bits s).0 hint)
      by_kind two_bit e = rw e (rw at refl)
      by_kind two_bit_agree e = rw e (rw at refl)
      by_kind static e = absurd (dynamic e)

two_steps : (s : State) (l : ℕ) → l < 2 → (bits (next (next s l) l)).0 ≡ l
two_steps s00 zero h = refl
two_steps s00 (suc zero) h = refl
two_steps s00 (suc (suc l)) h = absurd (omega arith)
two_steps s01 zero h = refl
two_steps s01 (suc zero) h = refl
two_steps s01 (suc (suc l)) h = absurd (omega arith)
two_steps s10 zero h = refl
two_steps s10 (suc zero) h = refl
two_steps s10 (suc (suc l)) h = absurd (omega arith)
two_steps s11 zero h = refl
two_steps s11 (suc zero) h = refl
two_steps s11 (suc (suc l)) h = absurd (omega arith)

lesson_twice : (k : BpType) (t hint : ℕ) → t < 2 → hint < 2 → lesson k (lesson k t hint) hint ≡ t
lesson_twice two_bit t hint h g = refl
lesson_twice two_bit_agree t hint h g = ground (arith, h, g)
lesson_twice static t hint h g = refl

-- BPBComplete in a table that is learning follows the arrow of the diagram, at the entry of the branch.
completes :
    (p : Predictor) (h : IsPredictor p) (bpc n t hint : ℕ) (s : State)
    → p.bpb_type ≢ static
    → t < 2
    → position p bpc ≡ n
    → In p n s
    → Learnt p n (next s (lesson p.bpb_type t hint)) (bpb_complete p bpc t hint)
completes p h bpc n t hint s dynamic q e at =
    let l = lesson p.bpb_type t hint in
    let eq : bpb_complete p bpc t hint ≡ learn p n l =
      complete_as p bpc t hint dynamic ∙ ap (λ (m : ℕ). learn p m l) e in
    subst (Learnt p n (next s l)) (sym eq) (
      learn_lem p h n (subst (λ (m : ℕ). m < p.bpb_size) e (position_in p h bpc)) l s at
        (lesson_bit p.bpb_type t hint q))

-- With tables whose size is a power of two and in which the entry of a branch is in any of the four
-- states, BPBComplete of one outcome twice in a row leaves BPBPredict to predict that outcome, under
-- both schemes: two bits, and two bits that tell whether the outcome agrees with the hint.
pub bpb_complete-trains :
    (p : Predictor) (h : IsPredictor p) (bpc t hint : ℕ) (s : State)
    → p.bpb_type ≢ static
    → t < 2
    → hint < 2
    → In p (position p bpc) s
    → (bpb_complete p bpc t hint
        >>= (λ q. bpb_complete q bpc t hint)
        >>= (λ q. bpb_predict q bpc hint))
      ≡ ok t
bpb_complete-trains p h bpc t hint s dynamic q g at =
    let n = position p bpc in
    let one = completes p h bpc n t hint s dynamic q refl at in
    let p1 = one.after in
    let same1 : position p1 bpc ≡ n = ap (λ (m : ℕ). bit_and (bpc / 4) (m - 1)) one.same_size in
    let dynamic1 : p1.bpb_type ≢ static = λ e. dynamic (sym one.kind ∙ e) in
    let two =
      completes p1 one.kept bpc n t hint (next s (lesson p.bpb_type t hint)) dynamic1 q same1
        one.here in
    let p2 = two.after in
    let same2 : position p2 bpc ≡ n =
      ap (λ (m : ℕ). bit_and (bpc / 4) (m - 1)) two.same_size ∙ same1 in
    let dynamic2 : p2.bpb_type ≢ static = λ e. dynamic1 (sym two.kind ∙ e) in
    let l = lesson p.bpb_type t hint in
    let st = next (next s l) l in
    let k2 : p2.bpb_type ≡ p.bpb_type = two.kind ∙ one.kind in
    let here2 : In p2 n st =
      subst (λ (k : BpType). In p2 n (next (next s l) (lesson k t hint))) one.kind two.here in
    let predicted : bpb_predict p2 bpc hint ≡ ok (lesson p2.bpb_type (bits st).0 hint) =
      predict_as p2 bpc t hint st dynamic2 (subst (λ (m : ℕ). In p2 m st) (sym same2) here2) in
    let value : lesson p2.bpb_type (bits st).0 hint ≡ t =
      ap (λ (k : BpType). lesson k (bits st).0 hint) k2
      ∙ ap (λ (b : ℕ). lesson p.bpb_type b hint) (two_steps s l (lesson_bit p.bpb_type t hint q))
      ∙ lesson_twice p.bpb_type t hint q g in
    rw one.returns (rw two.returns (predicted ∙ ap ok value))
