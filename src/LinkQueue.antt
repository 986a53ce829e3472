-- ===== src/LinkQueue.antt =====
-- Caches/lqueue.h, the array queue that every module of the memory system uses. Its `int` fields
-- are never negative and its elements are pointers that it only moves.
mod Tests
pub mod Fifo
pub mod Contract
use ml_rsim.Prelude.{
  ℕ, ◌+◌, ◌-◌, ◌%◌, List, Option, none, Bool, Checked, ok, fatal, deref, ◌>>=◌, ltb, leb, ◌==◌,
  if◌then◌else◌, bump, get_elem?, set,
}

-- `LinkQueue`
pub record LinkQueue {ℓ} (A : Type ℓ) : Type ℓ where
  pub head : ℕ
  pub tail : ℕ
  pub total : ℕ
  pub size : ℕ
  pub elemns : List A

module _ {ℓ} {A : Type ℓ} where
  -- `lqueue_init`; `storage` is what `malloc` returns, `total` pointers of any content.
  unfoldable pub init : ℕ → List A → LinkQueue A
  init total storage = record { head = 0; tail = 0; total = total; size = 0; elemns = storage }

  unfoldable pub full : LinkQueue A → Bool
  full q = leb q.total q.size

  unfoldable pub empty : LinkQueue A → Bool
  empty q = q.size == 0

  -- `lqueue_head`, `none` for NULL
  unfoldable pub first : LinkQueue A → Option A
  first q = if ltb 0 q.size then get_elem? q.elemns q.head else none

  -- `lqueue_check`
  unfoldable pub check : LinkQueue A → ℕ
  check q = q.total - q.size

  unfoldable pub add : LinkQueue A → A → Checked (LinkQueue A)
  add q elm =
      if ltb q.size q.total
      then ok (record q {
        elemns = set q.elemns q.tail elm;
        tail = bump q.tail q.total;
        size = q.size + 1;
      })
      else fatal

  unfoldable pub add_head : LinkQueue A → A → Checked (LinkQueue A)
  add_head q elm =
      let head = (q.head + (q.total - 1)) % q.total in
      if ltb q.size q.total
      then ok (record q { head = head; elemns = set q.elemns head elm; size = q.size + 1 })
      else fatal

  -- `lqueue_elem`
  unfoldable pub elem : LinkQueue A → ℕ → Checked A
  elem q idx =
      if ltb idx q.size then deref (get_elem? q.elemns ((q.head + idx) % q.total)) else fatal

  -- `lqueue_remove`; callers test that the queue is not empty.
  unfoldable pub remove : LinkQueue A → LinkQueue A
  remove q = record q { head = bump q.head q.total; size = q.size - 1 }

  -- `lqueue_get`
  unfoldable pub get : LinkQueue A → Checked (A × LinkQueue A)
  unfolding remove
  get q = do elm ← deref (get_elem? q.elemns q.head); ok (elm, remove q)
