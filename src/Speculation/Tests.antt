-- ===== src/Speculation/Tests.antt =====
-- A queue of branches of Processor/branchpred.cc.
use ml_rsim.Prelude.{ℕ, ◌≡◌, refl, arith, none, some, [], ◌∷◌, ok}
use ml_rsim.Speculation.{MapTable, Speculation, add_branch_q, take_out, wake, remove_from_branch_q}
use ml_rsim.Speculation.Steps.{rename, branch, Steps, none_yet, then_one}
use ml_rsim.Speculation.Recovery.{Restored, add_branch_q-Restored}

abbrev map : ℕ → MapTable
map n = record { imap = n ∷ []; fmap = n ∷ [] }

abbrev state : ℕ → Speculation
state n = record {
  branchq = record { tag = 3; specmap = map 1 } ∷ [];
  active = map n;
  branch_dep = [];
}

-- After the branch 5 with the mappers 2, then a renaming, and then the branch 8
abbrev branched : Speculation
branched = record {
  branchq = record { tag = 5; specmap = map 2 } ∷ record { tag = 3; specmap = map 1 } ∷ [];
  active = map 2;
  branch_dep = [];
}

abbrev renamed : Speculation
renamed = record branched { active = map 7 }

abbrev later : Speculation
later = record renamed { branchq = record { tag = 8; specmap = map 7 } ∷ branched.branchq }

first : add_branch_q 4 5 (state 2) ≡ some branched
unfolding add_branch_q
first = refl

second : add_branch_q 4 8 renamed ≡ some later
unfolding add_branch_q
second = refl

no_more : add_branch_q 3 9 later ≡ none
unfolding add_branch_q
no_more = refl

resolved :
    remove_from_branch_q 4 3 later
    ≡ ok (
        some (record later {
          branchq = record { tag = 8; specmap = map 7 } ∷ record { tag = 5; specmap = map 2 } ∷ [];
        }))
unfolding remove_from_branch_q take_out wake
resolved = refl

steps : Steps 4 5 branched later
steps =
    then_one branched renamed later
      (then_one branched branched renamed (none_yet branched) (rename branched (map 7)))
      (branch renamed later 8 (omega arith, (omega arith, tt)) second)

add_branch_q-Restored_example : Restored 5 (map 2) later
add_branch_q-Restored_example =
    add_branch_q-Restored 4 5 (state 2) branched later (tt, tt) (omega arith, tt) first steps
