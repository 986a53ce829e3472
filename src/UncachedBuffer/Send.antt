-- ===== src/UncachedBuffer/Send.antt =====
-- `MaxCoalesce` and `UBuffer_out_sim` of Caches/ubuf.c.
use ml_rsim.Prelude.{
  ℕ, zero, suc, ◌+◌, ◌-◌, ◌/◌, ◌%◌, Bool, true, false, not, ◌&&◌, ◌||◌, Option, none, some, List,
  [], ◌∷◌, Checked, ok, fatal, deref, ◌>>=◌, ltb, leb, ◌==◌, if◌then◌else◌, get_elem?, set,
}
use ml_rsim.UncachedBuffer.{is_read, Req, Item, Buffer, word}

-- The loop that adds up the words of requests one behind the other, from slot `n` on; the last slot
-- ends it, and so does an empty one.
unfoldable pub run_loop : List (Option Req) → ℕ → ℕ → ℕ → ℕ → Checked ℕ
run_loop reqs entrysz zero n sum = fatal
run_loop reqs entrysz (suc fuel) n sum =
    let next : Checked ℕ =
      (deref (get_elem? reqs n) >>= λ o. elim o [
        | none ↦ ok sum
        | some r ↦ run_loop reqs entrysz fuel (n + r.size / 4) (sum + r.size / 4)
      ]) in
    if ltb n entrysz then next else ok sum

-- `while ((align > 1) && ((start % align) != 0)) align /= 2;`
unfoldable pub align_loop : ℕ → ℕ → ℕ → ℕ
align_loop zero start align = align
align_loop (suc fuel) start align =
    let more = align_loop fuel start (align / 2) in
    if ltb 1 align && not (start % align == 0) then more else align

-- `for (n = entrysz; n > max; n /= 2);`
unfoldable pub shrink_loop : ℕ → ℕ → ℕ → ℕ
shrink_loop zero most n = n
shrink_loop (suc fuel) most n =
    let more = shrink_loop fuel most (n / 2) in if ltb most n then more else n

-- `MaxCoalesce`; the loops that halve run on the size of an entry.
unfoldable pub max_coalesce : List (Option Req) → ℕ → ℕ → Checked ℕ
max_coalesce reqs entrysz start = do
  o ← deref (get_elem? reqs start)
  first ← deref o
  if ltb first.size word then ok 0 else (do
    most ← run_loop reqs entrysz (entrysz + 1) start 0
    let align = align_loop entrysz start entrysz
    let fit = shrink_loop entrysz most entrysz
    ok (if leb align fit then align else fit))

-- The first request of an entry; `none` is the message "Empty entry in Uncached Buffer".
unfoldable pub first_req : ℕ → List (Option Req) → Option (ℕ × Req)
first_req i [] = none
first_req i (none ∷ rs) = first_req (i + 1) rs
first_req i (some r ∷ rs) = some (i, r)

-- What is left of an entry, and what is sent
pub record Taken : Type 0 where
  pub reqs : List (Option Req)
  pub sent : List Req
  pub cur_reads : ℕ

-- The loop that takes the requests behind the first, `n` words on in slot `j`
unfoldable pub take_loop : ℕ → Bool → ℕ → ℕ → ℕ → Taken → Checked Taken
take_loop zero reading num_coals n j t = fatal
take_loop (suc fuel) reading num_coals n j t =
    let next : Checked Taken =
      (deref (get_elem? t.reqs j) >>= deref >>= λ r.
      take_loop fuel reading num_coals (n + r.size / 4) (j + r.size / 4) (record {
        reqs = set t.reqs j none;
        sent = r ∷ t.sent;
        cur_reads = if reading then t.cur_reads - 1 else t.cur_reads;
      })) in
    if ltb n num_coals then next else ok t

abbrev pub all_empty : ℕ → List (Option Req) → Bool
all_empty n [] = true
all_empty zero (none ∷ rs) = all_empty zero rs
all_empty zero (some r ∷ rs) = false
all_empty (suc n) (o ∷ rs) = all_empty n rs

-- `entries[n-1] = entries[n]` for n < num, with the old first item behind them
unfoldable pub shift : ℕ → Item → List Item → List Item
shift zero old items = items
shift (suc zero) old [] = []
shift (suc zero) old (it ∷ items) = old ∷ items
shift (suc (suc n)) old [] = []
shift (suc (suc n)) old (it ∷ []) = old ∷ []
shift (suc (suc n)) old (it ∷ next ∷ items) = next ∷ shift (suc n) old (next ∷ items)

-- What goes to the bus: one request that stands for all of these, the first of them last
pub record Sent : Type 0 where
  pub buffer : Buffer
  pub requests : List Req

unfoldable pub close_entry : Buffer → Item → Taken → ℕ → Buffer
close_entry b it t past =
    let left : Item = record it { reqs = t.reqs } in
    if all_empty past t.reqs
    then record b {
      entries = shift b.num_entries left (set b.entries 0 left);
      num_entries = b.num_entries - 1;
      cur_reads = if it.fence then t.cur_reads - 1 else t.cur_reads;
      transaction_pending = true;
    }
    else record b {
      entries = set b.entries 0 (record left { busy = true });
      cur_reads = t.cur_reads;
      transaction_pending = true;
    }

unfoldable pub send_entry : Buffer → Checked Sent
send_entry b = do
  it ← deref (get_elem? b.entries 0)
  found ← deref (first_req 0 it.reqs)
  let i = found.0
  let r = found.1
  num_coals ← max_coalesce it.reqs b.entrysz i
  t ←
      take_loop (b.entrysz + 1) (is_read r.kind) num_coals (r.size / 4) (i + r.size / 4)
        (record { reqs = set it.reqs i none; sent = r ∷ []; cur_reads = b.cur_reads })
  let taken : Taken = record t {
    cur_reads = if is_read r.kind then t.cur_reads - 1 else t.cur_reads;
  }
  ok (record { buffer = close_entry b it taken (i + num_coals); requests = t.sent })

-- `UBuffer_out_sim`; `none` where nothing is sent
unfoldable pub out_sim : Buffer → Checked (Option Sent)
out_sim b =
    if b.transaction_pending
    then ok none
    else if leb b.flush b.num_entries || ltb 0 b.cur_reads
    then (send_entry b >>= λ s. ok (some s))
    else ok none

-- `UBuffer_confirm_transaction`
unfoldable pub confirm_transaction : Buffer → Buffer
confirm_transaction b = record b { transaction_pending = false }
