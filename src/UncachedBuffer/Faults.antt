-- ===== src/UncachedBuffer/Faults.antt =====
-- Where `MaxCoalesce` and `UBuffer_out_sim` of Caches/ubuf.c go wrong: at requests shorter than a word
-- behind others, and at a word in a slot that a double word covers.
use ml_rsim.Prelude.{
  ℕ, zero, suc, ◌+◌, ◌/◌, ◌%◌, ◌<◌, ◌≡◌, refl, ap, ◌∙◌, subst, arith, true, false, Option, none,
  some, List, [], ◌∷◌, Checked, ok, fatal, ◌>>=◌, ltb, leb, ◌==◌, get_elem?, replicate, bit_and,
}
use ml_rsim.UncachedBuffer.{
  Kind, read, write, rmw, same_kind, is_rmw, Req, Item, Buffer, closed, takes, find_top,
  may_combine, put_in, place_request, add_req,
}
use ml_rsim.UncachedBuffer.Send.{
  run_loop, align_loop, shrink_loop, max_coalesce, first_req, take_loop, Sent, close_entry,
  send_entry, out_sim,
}

module _ (reqs : List (Option Req)) (entrysz : ℕ) where
  -- Requests one behind the other lead from one slot to another.
  pub data Leads : ℕ → ℕ → Type 0 where
    here : (n : ℕ) → Leads n n
    behind :
        (n m : ℕ) (r : Req)
        → n < entrysz
        → get_elem? reqs n ≡ some (some r)
        → Leads (n + r.size / 4) m
        → Leads n m

  -- The loop of MaxCoalesce does not end, with any number of rounds, at an entry where requests one
  -- behind the other lead to one that is shorter than a word.
  pub run_loop-short :
      (fuel n m sum : ℕ) (r : Req)
      → Leads n m
      → m < entrysz
      → get_elem? reqs m ≡ some (some r)
      → r.size < 4
      → run_loop reqs entrysz fuel n sum ≡ fatal
  unfolding run_loop
  run_loop-short zero n m sum r l p at short = refl
  run_loop-short (suc fuel) _ _ sum r (here n) p at short =
      let e : ltb n entrysz ≡ true = ground (arith, p) in
      rw (e, at)
        (run_loop-short fuel (n + r.size / 4) n (sum + r.size / 4) r
          (subst (λ (i : ℕ). Leads i n) {x = n} (omega (arith, short)) (here n)) p at short)
  run_loop-short (suc fuel) _ _ sum r (behind n m r' q f l) p at short =
      let e : ltb n entrysz ≡ true = ground (arith, q) in
      rw (e, f) (run_loop-short fuel (n + r'.size / 4) m (sum + r'.size / 4) r l p at short)

-- A word that goes into the slot behind a double word is lost: the two requests are taken, the double
-- word is sent alone, and the entry is freed with the word in it.
module _ (p q mask reads most stalls : ℕ) (k : Kind) (it : Item) (rest : List Item) where
  abbrev pub double : Req
  double = record { paddr = p; size = 8; kind = k }

  abbrev pub single : Req
  single = record { paddr = q; size = 4; kind = k }

  abbrev pub empty_buffer : Buffer
  empty_buffer = record {
    line_mask = mask;
    num_entries = 0;
    cur_reads = reads;
    entries = it ∷ rest;
    transaction_pending = false;
    size = suc most;
    flush = 1;
    combine = true;
    entrysz = 8;
    stall_ub_full = stalls;
  }

  abbrev pub add_both : Checked Buffer
  add_both = do a ← add_req empty_buffer double; c ← add_req a.buffer single; ok c.buffer

  abbrev both : Item
  both = record {
    reqs = some double ∷ some single ∷ replicate 6 none;
    fence = false;
    address = bit_and p mask;
    kind = k;
    busy = false;
  }

  kind_self : (l : Kind) → same_kind l l ≡ true
  kind_self read = refl
  kind_self write = refl
  kind_self rmw = refl

  module _ (plain : is_rmw k ≡ false) (first : p / 4 % 8 ≡ 0) (second : q / 4 % 8 ≡ 1)
      (line : bit_and q mask ≡ bit_and p mask) where
    -- The buffer with both requests in its only entry
    record Both (c : Buffer) : Type 0 where
      at : get_elem? c.entries 0 ≡ some both
      one : c.num_entries ≡ 1
      eight : c.entrysz ≡ 8
      flushes : c.flush ≡ 1
      free : c.transaction_pending ≡ false

    fill_entry : (c : Buffer) × (add_both ≡ ok c) × Both c
    unfolding add_req may_combine find_top closed takes place_request put_in
    fill_entry =
        let room : leb (suc most) 0 ≡ false = ground arith in
        let same : (bit_and p mask == bit_and q mask) ≡ true = ground (arith, line) in
        rw (plain, first, room, kind_self k, same, second)
          (
            _,
            refl,
            record { at = rw line refl; one = refl; eight = refl; flushes = refl; free = refl },
          )

    sends_one :
        (c : Buffer)
        → Both c
        → (s : Sent) × (out_sim c ≡ ok (some s))
          × (s.requests ≡ double ∷ [])
          × (s.buffer.num_entries ≡ 0)
    unfolding out_sim send_entry max_coalesce run_loop align_loop shrink_loop first_req take_loop
        close_entry
    sends_one c h =
        let ready : leb c.flush c.num_entries ≡ true = ground (arith, h.flushes, h.one) in
        rw (h.free, ready, h.at, h.eight) (_, refl, refl, rw h.one refl)

    -- At an empty buffer with entries of eight words, two requests of one kind, a double word at the
    -- first slot of an entry and a word at the slot behind, which the double word covers, are both
    -- taken; UBuffer_out_sim then sends the double word only and leaves the buffer empty.
    pub out_sim-overlap :
        (s : Sent) × ((add_both >>= out_sim) ≡ ok (some s))
        × (s.requests ≡ double ∷ [])
        × (s.buffer.num_entries ≡ 0)
    out_sim-overlap =
        let (c, e, h) = fill_entry in
        let (s, f, g, n) = sends_one c h in
        (s, ap (λ (x : Checked Buffer). x >>= out_sim) e ∙ f, g, n)
