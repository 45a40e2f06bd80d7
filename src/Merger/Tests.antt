-- ===== src/Merger/Tests.antt =====
-- A merge of three lists of numbered entries, for the witness.
use Prim.Native.Nat.{compare}
use raleigh_fs.Common.{ℕ, none, some, List, [], ◌∷◌, ◌≡◌, refl, true, arith}
use raleigh_fs.Tree.{TreeInfo}
use raleigh_fs.Tree.Sorted.{IsOrder, IsSorted, find}
use raleigh_fs.Merger.{Merger, MapIter, iter, open_merger, add, outputs}
use raleigh_fs.Merger.Picked.{AllLive, DistinctIters, first_found}
use raleigh_fs.Merger.Merged.{merger_of, outputs_lem}

abbrev entries : TreeInfo (ℕ × ℕ) ℕ
entries = record { key = λ e. e.0; compare = compare }

entries-IsOrder : IsOrder entries
entries-IsOrder = record {
  same = λ j k h. ground arith;
  self = λ k. ground arith;
  lt_gt = λ j k h. ground arith;
  gt_lt = λ j k h. ground arith;
  lt_trans = λ i j k h g. ground arith;
}

-- three iterators with keys in common
abbrev three : List (MapIter (ℕ × ℕ))
three =
    iter 1 ((2, 20) ∷ (5, 50) ∷ [])
    ∷ iter 2 ((1, 11) ∷ (2, 21) ∷ [])
    ∷ iter 3 ((1, 12) ∷ (5, 52) ∷ (7, 72) ∷ [])
    ∷ []

three-AllLive : AllLive entries three
three-AllLive = (
  ((refl, tt), (tt, tt)),
  (((refl, tt), (tt, tt)), (((refl, (refl, tt)), ((refl, tt), (tt, tt))), tt)),
)

three-DistinctIters : DistinctIters entries three
three-DistinctIters =
    (((λ e. omega arith), ((λ e. omega arith), tt)), (((λ e. omega arith), tt), (tt, tt)))

-- They are added one after the other, an iterator at its end is not.
three_added :
    (m : Merger (ℕ × ℕ)) × (m
      ≡ (add
          (iter 3 ((1, 12) ∷ (5, 52) ∷ (7, 72) ∷ []))
          (add
            (iter 9 [])
            (add
              (iter 2 ((1, 11) ∷ (2, 21) ∷ []))
              (add (iter 1 ((2, 20) ∷ (5, 50) ∷ [])) (open_merger true)).1).1).1).1)
    × (m ≡ merger_of three none)
unfolding add
three_added = (merger_of three none, refl, refl)

-- what it answers
three_merged :
    outputs entries 8 (merger_of three none) ≡ some ((1, 11) ∷ (2, 20) ∷ (5, 50) ∷ (7, 72) ∷ [])
unfolding outputs
three_merged = refl

outputs_lem_example :
    (out : List (ℕ × ℕ)) × (outputs entries 8 (merger_of three none) ≡ some out)
    × IsSorted entries out
    × ((k : ℕ) → find entries k out ≡ first_found entries k three)
outputs_lem_example =
    outputs_lem entries entries-IsOrder 8 three none three-AllLive three-DistinctIters (omega arith)
