-- ===== src/Tree/Tests.antt =====
-- Trees of numbers, for the witnesses.
use Prim.Native.Nat.{compare}
use raleigh_fs.Common.{
  ℕ, ◌+◌, ◌≤◌, true, false, none, some, List, [], ◌∷◌, reverse, ◌≡◌, refl, arith,
}
use raleigh_fs.Common.Int.{pos, negsuc}
use raleigh_fs.Tree.{Tree, leaf, node, TreeInfo, levels, insert_lookup}
use raleigh_fs.Tree.Detach.{descend}
use raleigh_fs.Tree.Balance.{IsBalanced, items}
use raleigh_fs.Tree.Sorted.{IsOrder, IsSorted}
use raleigh_fs.Tree.Map.{
  Call, attaching, detaching, looking, detaching_min, replaced, item, run_tree, run_list,
  run_tree-list,
}
use raleigh_fs.Tree.Height.{WayWithin, RemovalWithin, walked, stacks_fit}
use raleigh_fs.Tree.Iter.{begin, end, open_iter, seek_ge, seek_le}
use raleigh_fs.Tree.Scan.{onward, passed, position, forward, backward, scan_lem}
use raleigh_fs.Tree.Seek.{seek_lem}

abbrev pub numbers : TreeInfo ℕ ℕ
numbers = record { key = λ n. n; compare = compare }

pub numbers-IsOrder : IsOrder numbers
numbers-IsOrder = record {
  same = λ j k h. ground arith;
  self = λ k. ground arith;
  lt_gt = λ j k h. ground arith;
  gt_lt = λ j k h. ground arith;
  lt_trans = λ i j k h g. ground arith;
}

-- a tree of four numbers
abbrev four : Tree ℕ
four = node (node leaf 1 (pos 1) (node leaf 2 (pos 0) leaf)) 4 (negsuc 0) (node leaf 6 (pos 0) leaf)

four-IsSorted : IsSorted numbers (items four)
four-IsSorted = ((refl, (refl, (refl, tt))), ((refl, (refl, tt)), ((refl, tt), (tt, tt))))

four-IsBalanced : IsBalanced four
unfolding levels
four-IsBalanced = (
  (tt, (tt, tt, (refl, omega arith, omega arith)), (refl, omega arith, omega arith)),
  (tt, tt, (refl, omega arith, omega arith)),
  (refl, omega arith, omega arith),
)

-- some calls, the first of them a rotation, and their answers
abbrev some_calls : List (Call ℕ ℕ)
some_calls =
    attaching 1
    ∷ attaching 2
    ∷ attaching 3
    ∷ attaching 2
    ∷ detaching 2
    ∷ looking 3
    ∷ detaching 7
    ∷ detaching_min
    ∷ []

run_tree-list_example :
    (t : Tree ℕ) × (run_tree numbers some_calls leaf
      ≡ some (
        replaced false
            ∷ replaced false
            ∷ replaced false
            ∷ replaced true
            ∷ item (some 2)
            ∷ item (some 3)
            ∷ item none
            ∷ item (some 1)
            ∷ [],
        t,
      ))
    × IsBalanced t
    × (items t ≡ 3 ∷ [])
unfolding run_list
run_tree-list_example = run_tree-list numbers numbers-IsOrder some_calls leaf tt tt

stacks_fit_example :
    (levels four ≤ 32)
    × WayWithin numbers 32 (insert_lookup numbers 3 four [] [])
    × (1 + walked numbers 4 four ≤ 33)
    × RemovalWithin numbers 33 (descend numbers 4 four [])
stacks_fit_example = stacks_fit numbers four 3 4 four-IsBalanced (omega arith)

scan_lem_example :
    (forward 9 (begin (open_iter four)) ≡ 1 ∷ 2 ∷ 4 ∷ 6 ∷ [])
    × (backward 9 (end (open_iter four)) ≡ reverse (1 ∷ 2 ∷ 4 ∷ 6 ∷ []))
scan_lem_example = scan_lem four 9 (omega arith)

seek_lem_example :
    (onward (position (seek_ge numbers 3 (open_iter four))) ≡ 4 ∷ 6 ∷ [])
    × (passed (position (seek_le numbers 3 (open_iter four))) ≡ 1 ∷ 2 ∷ [])
seek_lem_example = seek_lem numbers numbers-IsOrder 3 four four-IsSorted
