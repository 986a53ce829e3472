-- ===== src/UncachedBuffer/Coalesce.antt =====
-- `MaxCoalesce`: how many words of an entry go to the bus as one request.
use ml_rsim.Prelude.{
  ℕ, zero, suc, ◌+◌, ◌/◌, ◌^◌, ◌≤◌, ◌<◌, ◌≡◌, inl, inr, refl, sym, ap, ◌∙◌, subst, arith, false,
  Bool-cases, Option-cases, ltb, leb, if◌then◌else◌, Option, none, some, List, Checked, ok, length,
  get_elem?, get_elem?-some,
}
use ml_rsim.UncachedBuffer.{Req}
use ml_rsim.UncachedBuffer.Send.{run_loop, max_coalesce}
use ml_rsim.UncachedBuffer.Align.{
  lower_power, pow_le, LargestPower, Divides, lt_pow, align_loop-LargestPower,
  shrink_loop-LargestPower,
}

-- The smaller of the largest powers with two properties is the largest with both.
pub record Both (start most n : ℕ) : Type 0 where
  pub aligned : Divides start n
  pub in_run : n ≤ most

smaller :
    {k start most m n : ℕ}
    → LargestPower k (Divides start) m
    → LargestPower k (λ i. i ≤ most) n
    → LargestPower k (Both start most) (if leb m n then m else n)
smaller {k} {start} {most} {m} {n} a s = elim (Bool-cases (leb m n)) [
  | inl e ↦ rw e (record {
    power = a.power;
    is_power = a.is_power;
    fits = a.fits;
    has = record { aligned = a.has; in_run = ground (arith, e, s.has) };
    no_more = elim a.no_more [
      | inl f ↦ inl f
      | inr f ↦ inr (λ (b : Both start most (2 ^ suc a.power)). f b.aligned)
    ];
  })
  | inr e ↦
      let le : s.power ≤ a.power =
        pow_le s.power a.power (ground (arith, e, s.is_power, a.is_power)) in
      rw e (record {
        power = s.power;
        is_power = s.is_power;
        fits = s.fits;
        has = record {
          aligned =
              subst (Divides start) (sym s.is_power)
                (lower_power s.power a.power start le (subst (Divides start) a.is_power a.has));
          in_run = s.has;
        };
        no_more = elim s.no_more [
          | inl f ↦ inl f
          | inr f ↦ inr (λ (b : Both start most (2 ^ suc s.power)). f b.in_run)
        ];
      })
]

module _ (reqs : List (Option Req)) (entrysz : ℕ) where
  -- `total` words of requests, each right behind the one before, from slot `n` to an empty one
  pub data Run : ℕ → ℕ → Type 0 where
    past : (n : ℕ) → entrysz ≤ n → Run n 0
    gap : (n : ℕ) → n < entrysz → get_elem? reqs n ≡ some none → Run n 0
    next :
        (n total : ℕ) (r : Req)
        → n < entrysz
        → get_elem? reqs n ≡ some (some r)
        → Run (n + r.size / 4) total
        → Run n (r.size / 4 + total)

  -- Every request of the entry is a word long or longer.
  abbrev pub Words : Type 0
  Words = (n : ℕ) (r : Req) → get_elem? reqs n ≡ some (some r) → 4 ≤ r.size

  -- The loop stops, with the length of the run.
  record Ran (n sum : ℕ) (r : Checked ℕ) : Type 0 where
    total : ℕ
    run : Run n total
    sums : r ≡ ok (sum + total)

  ends : {n sum : ℕ} {r : Checked ℕ} → Run n 0 → r ≡ ok sum → Ran n sum r
  ends {n} {sum} run e = record { total = 0; run = run; sums = e ∙ ap ok (omega arith) }

  further :
      {n sum : ℕ} {s : Checked ℕ} (r : Req)
      → n < entrysz
      → get_elem? reqs n ≡ some (some r)
      → Ran (n + r.size / 4) (sum + r.size / 4) s
      → Ran n sum s
  further r p at rest = record {
    total = r.size / 4 + rest.total;
    run = next _ _ r p at rest.run;
    sums = rest.sums ∙ ap ok (omega arith);
  }

  module _ (sized : length reqs ≡ entrysz) (words : Words) where
    run_loop-Ran :
        (fuel n sum : ℕ)
        → 0 < fuel
        → entrysz < n + fuel
        → Ran n sum (run_loop reqs entrysz fuel n sum)
    unfolding run_loop
    run_loop-Ran zero n sum h p = absurd (omega arith)
    run_loop-Ran (suc fuel) n sum h p = elim (Bool-cases (ltb n entrysz)) [
      | inr e ↦ rw e (ends (past n (ground (arith, e))) refl)
      | inl e ↦
          let lt : n < entrysz = ground (arith, e) in
          let (o, at) = get_elem?-some reqs n (omega (arith, lt, sized)) in
          rw (e, at)
            (elim (Option-cases o) [
              | inl f ↦ rw f (ends (gap n lt (at ∙ ap some f)) refl)
              | inr (r, f) ↦ rw f (
                  further r lt (at ∙ ap some f) (
                    run_loop-Ran fuel (n + r.size / 4) (sum + r.size / 4) (omega (arith, p, lt))
                      (omega (arith, p, words n r (at ∙ ap some f)))))
            ])
    ]

  -- What `MaxCoalesce` returns: the largest power of two, up to the size of an entry, that divides the
  -- start and is no more than the run of requests from there.
  pub record Coalesced (k start : ℕ) (r : Checked ℕ) : Type 0 where
    pub total : ℕ
    pub run : Run start total
    pub words : ℕ
    pub returns : r ≡ ok words
    pub largest : LargestPower k (Both start total) words

  first_word :
      {start total : ℕ} {r : Req}
      → Words
      → get_elem? reqs start ≡ some (some r)
      → start < entrysz
      → Run start total
      → 1 ≤ total
  first_word words at p (past n h) = absurd (omega arith)
  first_word words at p (gap n h e) = absurd (cc (at, e))
  first_word words at p (next n t r h e run) = omega (arith, words n r e)

-- MaxCoalesce on an entry whose size is a power of two and which holds no request shorter than a word,
-- at a slot with a request, ends without a fault, and returns the largest power of two, up to the size
-- of an entry, that divides the slot and is no more than the words of the run of requests from there.
pub max_coalesce-Coalesced :
    (reqs : List (Option Req)) (k start : ℕ) (r : Req)
    → length reqs ≡ 2 ^ k
    → Words reqs (2 ^ k)
    → start < 2 ^ k
    → get_elem? reqs start ≡ some (some r)
    → Coalesced reqs (2 ^ k) k start (max_coalesce reqs (2 ^ k) start)
unfolding max_coalesce
max_coalesce-Coalesced reqs k start r sized words p at =
    let ran =
      run_loop-Ran reqs (2 ^ k) sized words (2 ^ k + 1) start 0 (omega arith) (omega arith) in
    let long : ltb r.size 4 ≡ false = ground (arith, words start r at) in
    let enough : k ≤ 2 ^ k = omega (arith, lt_pow k) in
    rw at (
      rw long (
        rw (ran.sums ∙ ap ok {y = ran.total} (omega arith)) (record {
          total = ran.total;
          run = ran.run;
          words = _;
          returns = refl;
          largest = smaller (align_loop-LargestPower (2 ^ k) k start enough) (
              shrink_loop-LargestPower (2 ^ k) k ran.total enough
                (first_word reqs (2 ^ k) words at p ran.run));
        })))
