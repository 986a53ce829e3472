-- ===== src/DiskCache/Readable.antt =====
-- The turn of the loop of `DISK_cache_hit` in IO/disk_cache.c, and what its results say of the blocks
-- of the segments that can be read.
use ml_rsim.Prelude.{
  ℕ, ◌+◌, ◌<◌, ◌≤◌, ◌≡◌, refl, ◌∙◌, ◌⊎◌, inl, inr, Bool, true, false, not, ◌&&◌, List, [], ◌∷◌,
  arith, ltb, leb, if◌then◌else◌, Bool-cases, ltb→lt, ltb_false→le,
}
use ml_rsim.DiskCache.{Segment, contains}

pub data HitTurn : Type 0 where
  whole : HitTurn
  -- start again from the end of a segment
  onward : ℕ → HitTurn
  done : HitTurn

-- The segments that `DISK_cache_hit` skips are the writes that are not committed.
abbrev pub readable : Segment → Bool
readable s = not (s.write && not s.committed)

-- A turn of the loop
unfoldable pub hit_turn : ℕ → ℕ → List Segment → HitTurn
hit_turn start_block length [] = done
hit_turn start_block length (s ∷ ss) =
    let rest = hit_turn start_block length ss in
    if not (readable s)
    then rest
    else if contains start_block s && ltb s.end_block (start_block + length)
    then onward s.end_block
    else if contains start_block s && leb (start_block + length) s.end_block
    then whole
    else rest

-- Block `b` is in a segment that can be read.
abbrev pub Present : List Segment → ℕ → Type 0
Present [] b = ⊥
Present (s ∷ ss) b = ((readable s ≡ true) × (contains b s ≡ true)) ⊎ Present ss b

-- All blocks of a range are.
abbrev pub AllPresent : List Segment → ℕ → ℕ → Type 0
AllPresent cache start_block length =
    (b : ℕ) → start_block ≤ b → b < start_block + length → Present cache b

-- A turn that ends with a segment: it can be read, has the first block, and ends at `e`.
pub data Turned (start_block length : ℕ) (cache : List Segment) (r : HitTurn) : Type 0 where
  turned_whole : r ≡ whole → AllPresent cache start_block length → Turned start_block length cache r
  turned_onward :
      (e : ℕ)
      → r ≡ onward e
      → start_block < e
      → e < start_block + length
      → ((b : ℕ) → start_block ≤ b → b < e → Present cache b)
      → Turned start_block length cache r
  turned_done : r ≡ done → ¬ Present cache start_block → Turned start_block length cache r

in_segment :
    (start_block b e : ℕ) (s : Segment)
    → contains start_block s ≡ true
    → e ≤ s.end_block
    → start_block ≤ b
    → b < e
    → contains b s ≡ true
in_segment start_block b e s h g p q = ground (arith, h, g, p, q)

module _ (start_block length : ℕ) (s : Segment) (ss : List Segment) where
  hit_turn-skip :
      (readable s && contains start_block s) ≡ false
      → hit_turn start_block length (s ∷ ss) ≡ hit_turn start_block length ss
  unfolding hit_turn
  hit_turn-skip h = ground (arith, h)

  hit_turn-onward :
      (readable s && contains start_block s) ≡ true
      → ltb s.end_block (start_block + length) ≡ true
      → hit_turn start_block length (s ∷ ss) ≡ onward s.end_block
  unfolding hit_turn
  hit_turn-onward h k = ground (arith, h, k)

  hit_turn-whole :
      (readable s && contains start_block s) ≡ true
      → ltb s.end_block (start_block + length) ≡ false
      → hit_turn start_block length (s ∷ ss) ≡ whole
  unfolding hit_turn
  hit_turn-whole h k = ground (arith, h, k)

both : {a b : Bool} → (a && b) ≡ true → (a ≡ true) × (b ≡ true)
both h = ground (arith, h)

not_both : {a b : Bool} → (a && b) ≡ false → ¬ ((a ≡ true) × (b ≡ true))
not_both h p = ground (arith, h, p.0, p.1)

below_end : (b : ℕ) (s : Segment) → contains b s ≡ true → b < s.end_block
below_end b s h = ground (arith, h)

pub hit_turn-Turned :
    (start_block length : ℕ) (cache : List Segment)
    → Turned start_block length cache (hit_turn start_block length cache)
unfolding hit_turn
hit_turn-Turned start_block length [] = turned_done refl (λ p. p)
hit_turn-Turned start_block length (s ∷ ss) =
    elim (Bool-cases (readable s && contains start_block s)) [
      | inl here ↦
          let (r, c) = both here in
          elim (Bool-cases (ltb s.end_block (start_block + length))) [
            | inl shorter ↦
                turned_onward s.end_block (hit_turn-onward start_block length s ss here shorter)
                  (below_end start_block s c) (ltb→lt _ _ shorter)
                  (λ b p q. inl (r, in_segment start_block b s.end_block s c (omega arith) p q))
            | inr longer ↦
                turned_whole (hit_turn-whole start_block length s ss here longer) (λ b p q. inl (
                  r,
                  in_segment start_block b (start_block + length) s c (ltb_false→le _ _ longer) p q,
                ))
          ]
      | inr other ↦
          pass (hit_turn-skip start_block length s ss other) (not_both other)
            (hit_turn-Turned start_block length ss)
    ]
  where
    pass :
        hit_turn start_block length (s ∷ ss) ≡ hit_turn start_block length ss
        → ¬ ((readable s ≡ true) × (contains start_block s ≡ true))
        → Turned start_block length ss (hit_turn start_block length ss)
        → Turned start_block length (s ∷ ss) (hit_turn start_block length (s ∷ ss))
    pass same no_hit (turned_whole e all) = turned_whole (same ∙ e) (λ b p q. inr (all b p q))
    pass same no_hit (turned_onward x e p q all) =
        turned_onward x (same ∙ e) p q (λ b u v. inr (all b u v))
    pass same no_hit (turned_done e none_at) =
        turned_done (same ∙ e) (λ p. elim p [ inl here ↦ no_hit here | inr later ↦ none_at later ])
