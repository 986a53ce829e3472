-- ===== src/Speculation.antt =====
-- The queue of branches with shadow mappers in Processor/branchpred.cc. The arrays of a map table are
-- copied whole, since their sizes are multiples of the words that are copied, which the setup of the
-- instruction table checks.
pub mod Ordered
pub mod Steps
pub mod Recovery
mod Tests
use ml_rsim.Prelude.{
  ℕ, ◌+◌, Bool, true, false, Option, none, some, List, [], ◌∷◌, Checked, ok, fatal, leb, ◌==◌,
  if◌then◌else◌, length,
}

-- `MapTable`
pub record MapTable : Type 0 where
  pub imap : List ℕ
  pub fmap : List ℕ

-- `BranchQElement`
pub record Element : Type 0 where
  pub tag : ℕ
  pub specmap : MapTable

-- What the functions below use of a `ProcState`: the queue, its tail first, the mappers in use, and the
-- tags of the branches that wait for a shadow mapper
pub record Speculation : Type 0 where
  pub branchq : List Element
  pub active : MapTable
  pub branch_dep : List ℕ

-- `AddBranchQ`; `none` is the answer -1
unfoldable pub add_branch_q : ℕ → ℕ → Speculation → Option Speculation
add_branch_q max_spec tag s =
    if leb max_spec (length s.branchq)
    then none
    else some (record s { branchq = record { tag = tag; specmap = s.active } ∷ s.branchq })

abbrev pub take_here : ℕ → Element → List Element → Option (List Element) → Option (List Element)
take_here tag e es (some rest) = some (e ∷ rest)
take_here tag e es none = if e.tag == tag then some es else none

-- The removal of the element with the tag that is nearest to the head
unfoldable pub take_out : ℕ → List Element → Option (List Element)
take_out tag [] = none
take_out tag (e ∷ es) = take_here tag e es (take_out tag es)

-- The shadow mapper goes to the first branch that waits.
unfoldable pub wake : ℕ → List ℕ → Speculation → Checked (Option Speculation)
wake max_spec [] s = ok (some s)
wake max_spec (i ∷ rest) s = elim (add_branch_q max_spec i (record s { branch_dep = rest })) [
  | none ↦ fatal
  | some after ↦ ok (some after)
]

-- `RemoveFromBranchQ`; `none` is the answer -1
unfoldable pub remove_from_branch_q : ℕ → ℕ → Speculation → Checked (Option Speculation)
remove_from_branch_q max_spec tag s = elim (take_out tag s.branchq) [
  | none ↦ ok none
  | some q ↦ wake max_spec s.branch_dep (record s { branchq = q })
]

abbrev pub exchange_here :
    ℕ
    → MapTable
    → Element
    → List Element
    → Option (MapTable × List Element)
    → Option (MapTable × List Element)
exchange_here tag map e es (some (found, rest)) = some (found, e ∷ rest)
exchange_here tag map e es none =
    if e.tag == tag then some (e.specmap, record e { specmap = map } ∷ es) else none

-- The exchange of the mappers of that element with others
unfoldable pub exchange : ℕ → MapTable → List Element → Option (MapTable × List Element)
exchange tag map [] = none
exchange tag map (e ∷ es) = exchange_here tag map e es (exchange tag map es)

-- `CopyBranchQ`; `none` is the answer -1
unfoldable pub copy_branch_q : ℕ → Speculation → Option Speculation
copy_branch_q tag s = elim (exchange tag s.active s.branchq) [
  | none ↦ none
  | some (found, q) ↦ some (record s { active = found; branchq = q })
]

unfoldable pub flush_loop : ℕ → List Element → List Element
flush_loop tag [] = []
flush_loop tag (e ∷ es) = let rest = flush_loop tag es in if leb tag e.tag then rest else e ∷ es

-- `FlushBranchQ`
unfoldable pub flush_branch_q : ℕ → Speculation → Speculation
flush_branch_q tag s = record s { branchq = flush_loop tag s.branchq }
