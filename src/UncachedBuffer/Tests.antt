-- ===== src/UncachedBuffer/Tests.antt =====
-- Runs of Caches/ubuf.c at small inputs.
use ml_rsim.Prelude.{
  ℕ, zero, suc, ◌≤◌, ◌≡◌, refl, subst, arith, true, false, Option, none, some, List, [], ◌∷◌, ok,
  length, get_elem?, replicate,
}
use ml_rsim.UncachedBuffer.{write, is_rmw, Req, Item, Buffer, add_req}
use ml_rsim.UncachedBuffer.Send.{run_loop, align_loop, shrink_loop, max_coalesce}
use ml_rsim.UncachedBuffer.Coalesce.{Coalesced, Words, max_coalesce-Coalesced}
use ml_rsim.UncachedBuffer.Add.{Sized}
use ml_rsim.UncachedBuffer.Order.{Outcome, add_req-Outcome}

abbrev at_word : ℕ → Req
at_word p = record { paddr = p; size = 4; kind = write }

-- An entry of four words with requests in slots 1 to 3
abbrev three_words : List (Option Req)
three_words = none ∷ some (at_word 4) ∷ some (at_word 8) ∷ some (at_word 12) ∷ []

long_as :
    {r s : Req} {o : Option (Option Req)}
    → o ≡ some (some r)
    → o ≡ some (some s)
    → 4 ≤ r.size
    → 4 ≤ s.size
long_as {r} {s} e f h = let g : r ≡ s = cc (e, f) in subst (λ (x : Req). 4 ≤ x.size) g h

three_words-Words : Words three_words 4
three_words-Words zero r e = absurd (cc e)
three_words-Words (suc zero) r e = long_as {r = at_word 4} refl e (omega arith)
three_words-Words (suc (suc zero)) r e = long_as {r = at_word 8} refl e (omega arith)
three_words-Words (suc (suc (suc zero))) r e = long_as {r = at_word 12} refl e (omega arith)
three_words-Words (suc (suc (suc (suc n)))) r e = absurd (cc e)

max_coalesce_at_two : max_coalesce three_words 4 2 ≡ ok 2
unfolding max_coalesce run_loop align_loop shrink_loop
max_coalesce_at_two = refl

max_coalesce-Coalesced_example : Coalesced three_words 4 2 2 (max_coalesce three_words 4 2)
max_coalesce-Coalesced_example =
    max_coalesce-Coalesced three_words 2 2 (at_word 8) refl three_words-Words (omega arith) refl

abbrev no_item : Item
no_item = record { reqs = replicate 8 none; fence = false; address = 0; kind = write; busy = false }

abbrev word_item : Item
word_item = record {
  reqs = some (at_word 64) ∷ replicate 7 none;
  fence = false;
  address = 64;
  kind = write;
  busy = false;
}

-- A buffer of two entries with a word at address 64
abbrev one_word : Buffer
one_word = record {
  line_mask = 4294967288;
  num_entries = 1;
  cur_reads = 0;
  entries = word_item ∷ no_item ∷ [];
  transaction_pending = false;
  size = 2;
  flush = 1;
  combine = true;
  entrysz = 8;
  stall_ub_full = 0;
}

one_word-Sized : Sized one_word
one_word-Sized = record { all = refl; fits = omega arith; slots = omega arith; items = items }
  where
    items :
        (n : ℕ) (it : Item)
        → get_elem? one_word.entries n ≡ some it
        → length it.reqs ≡ one_word.entrysz
    items zero it e =
        let g : word_item ≡ it = cc (e) in subst (λ (i : Item). length i.reqs ≡ 8) g refl
    items (suc zero) it e =
        let g : no_item ≡ it = cc (e) in subst (λ (i : Item). length i.reqs ≡ 8) g refl
    items (suc (suc n)) it e = absurd (cc e)

add_req-Outcome_example : Outcome one_word (at_word 68) (add_req one_word (at_word 68))
unfolding is_rmw
add_req-Outcome_example = add_req-Outcome one_word (at_word 68) one_word-Sized refl
