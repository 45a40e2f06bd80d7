-- ===== src/Tasks/Timed.antt =====
-- The tree of pending tasks of task.c, by their times.
use Prim.Native.Nat.{compare}
use mathlib.Core.Path.{subst}
use raleigh_fs.Common.{
  ℕ, zero, suc, ◌+◌, Option, none, some, List, [], ◌∷◌, length, All, ◌≡◌, ◌≢◌, ◌≤◌, false, inl, inr,
  refl, sym, ap, ◌∙◌, arith,
}
use raleigh_fs.Tree.{Tree, leaf, node, TreeInfo, attach}
use raleigh_fs.Tree.Detach.{detach_edge}
use raleigh_fs.Tree.Balance.{IsBalanced, items}
use raleigh_fs.Tree.Sorted.{IsOrder, IsSorted, insert, find, Ordering-cases}
use raleigh_fs.Tree.Search.{insert-IsSorted}
use raleigh_fs.Tree.Find.{find-insert}
use raleigh_fs.Tree.Remove.{detach_edge_lem}
use raleigh_fs.Tree.Map.{attach_lem}

-- `struct z_task`, as far as the tree goes
pub record Task : Type 0 where
  pub addr : ℕ
  pub itime : ℕ

-- `__task_tree_info`
abbrev pub task_tree_info : TreeInfo Task ℕ
task_tree_info = record { key = λ t. t.itime; compare = compare }

-- `z_task_tree_push`, of the tasks of a chain in their order
unfoldable pub push_tree : List Task → Tree Task → Option (Tree Task)
unfolding attach
push_tree [] t = some t
push_tree (task ∷ tasks) t = elim (attach task_tree_info task t) [
  | none ↦ none
  | some (replaced, t') ↦ push_tree tasks t'
]

-- `z_task_tree_pop`
unfoldable pub pop_tree : Tree Task → Option (Option Task × Tree Task)
unfolding detach_edge
pop_tree leaf = some (none, leaf)
pop_tree (node l task b r) = elim (detach_edge false (node l task b r)) [
  | none ↦ none
  | some (first, t) ↦ some (some first, t)
]

-- The tasks that so many pops take out, up to the first that finds none.
unfoldable pub pops : ℕ → Tree Task → Option (List Task)
unfolding pop_tree
pops zero t = some []
pops (suc n) t = elim (pop_tree t) [
  | none ↦ none
  | some (none, t') ↦ some []
  | some (some task, t') ↦ elim (pops n t') [ none ↦ none | some tasks ↦ some (task ∷ tasks) ]
]

times-IsOrder : IsOrder task_tree_info
times-IsOrder = record {
  same = λ j k h. ground arith;
  self = λ k. ground arith;
  lt_gt = λ j k h. ground arith;
  gt_lt = λ j k h. ground arith;
  lt_trans = λ i j k h g. ground arith;
}

-- the tasks pushed, one after another, to a sorted list
unfoldable pub insert_all : List Task → List Task → List Task
unfolding insert
insert_all [] xs = xs
insert_all (task ∷ tasks) xs = insert_all tasks (insert task_tree_info task xs)

push_tree-insert_all :
    (tasks : List Task) (t : Tree Task)
    → IsBalanced t
    → IsSorted task_tree_info (items t)
    → (t' : Tree Task) × (push_tree tasks t ≡ some t')
      × IsBalanced t'
      × (items t' ≡ insert_all tasks (items t))
      × IsSorted task_tree_info (items t')
unfolding push_tree insert_all
push_tree-insert_all [] t b s = (t, refl, b, refl, s)
push_tree-insert_all (task ∷ tasks) t b s =
    let (u, ran, bu, e) = attach_lem task_tree_info times-IsOrder task t b s in
    let su =
      subst (IsSorted task_tree_info) (sym e)
        (insert-IsSorted task_tree_info times-IsOrder task (items t) s) in
    let (t', ran', b', e', s') = push_tree-insert_all tasks u bu su in
    (t', rw (ran, push_tree) ran', b', e' ∙ ap (insert_all tasks) e, s')

pops-items :
    (n : ℕ) (t : Tree Task) → IsBalanced t → length (items t) ≤ n → pops n t ≡ some (items t)
unfolding pops pop_tree
pops-items zero leaf b h = refl
pops-items zero (node l task c r) b h =
    let (first, t', ran, b', same) = detach_edge_lem l task c r b in
    absurd (omega (arith, ap length same))
pops-items (suc n) leaf b h = refl
pops-items (suc n) (node l task c r) b h =
    let (first, t', ran, b', same) = detach_edge_lem l task c r b in
    rw (pops, pop_tree, ran, pops-items n t' b' (omega (arith, ap length same)))
      (ap some (sym same))

insert_other :
    (x : Task) (xs : List Task) (k : ℕ)
    → x.itime ≢ k
    → find task_tree_info k (insert task_tree_info x xs) ≡ find task_tree_info k xs
insert_other x xs k differ =
    find-insert task_tree_info times-IsOrder x xs k ∙ elim (Ordering-cases (compare x.itime k)) [
      | inl e ↦ rw e refl
      | inr (inl e) ↦ absurd (differ (times-IsOrder.same x.itime k e))
      | inr (inr e) ↦ rw e refl
    ]

length-insert :
    (x : Task) (xs : List Task)
    → find task_tree_info x.itime xs ≡ none
    → length (insert task_tree_info x xs) ≡ suc (length xs)
unfolding insert find
length-insert x [] h = refl
length-insert x (y ∷ ys) h = elim (Ordering-cases (compare y.itime x.itime)) [
  | inl e ↦ rw (e, insert) (ap suc (length-insert x ys (rw (e, find) at h)))
  | inr (inl e) ↦ let clash : some y ≡ none = rw (e, find) at h in cc
  | inr (inr e) ↦ rw (e, insert) refl
]

-- tasks with times of their own
abbrev pub AllDistinct : List Task → Type 0
AllDistinct [] = Unit
AllDistinct (task ∷ tasks) = All (λ other. task.itime ≢ other.itime) tasks × AllDistinct tasks

-- tasks whose times are not in a list, and the tasks that are there
abbrev Missing : List Task → List Task → Type 0
Missing tasks xs = All (λ task. find task_tree_info task.itime xs ≡ none) tasks

abbrev pub Found : List Task → List Task → Type 0
Found tasks xs = All (λ task. find task_tree_info task.itime xs ≡ some task) tasks

Missing-insert :
    (x : Task) (tasks xs : List Task)
    → All (λ other. x.itime ≢ other.itime) tasks
    → Missing tasks xs
    → Missing tasks (insert task_tree_info x xs)
Missing-insert x [] xs d m = tt
Missing-insert x (task ∷ tasks) xs d m =
    (insert_other x xs task.itime d.0 ∙ m.0, Missing-insert x tasks xs d.1 m.1)

insert_all_other :
    (tasks xs : List Task) (k : ℕ)
    → All (λ other. k ≢ other.itime) tasks
    → find task_tree_info k (insert_all tasks xs) ≡ find task_tree_info k xs
unfolding insert_all
insert_all_other [] xs k d = refl
insert_all_other (task ∷ tasks) xs k d =
    insert_all_other tasks (insert task_tree_info task xs) k d.1
    ∙ insert_other task xs k (λ e. d.0 (sym e))

insert_all_lem :
    (tasks xs : List Task)
    → AllDistinct tasks
    → Missing tasks xs
    → (length (insert_all tasks xs) ≡ length tasks + length xs) × Found tasks (insert_all tasks xs)
unfolding insert_all
insert_all_lem [] xs d m = (omega arith, tt)
insert_all_lem (task ∷ tasks) xs d m =
    let (size, found) =
      insert_all_lem tasks (insert task_tree_info task xs) d.1
        (Missing-insert task tasks xs d.0 m.1) in
    let longer = length-insert task xs m.0 in
    (
      omega arith,
      (
        insert_all_other tasks (insert task_tree_info task xs) task.itime d.0
            ∙ (find-insert task_tree_info times-IsOrder task xs task.itime
                ∙ rw (times-IsOrder.self task.itime) refl),
        found,
      ),
    )

Missing-nil : (tasks : List Task) → Missing tasks []
unfolding find
Missing-nil [] = tt
Missing-nil (task ∷ tasks) = (refl, Missing-nil tasks)

-- Tasks whose times are all different, pushed to an empty tree in any order, come out one by one in
-- the order of their times: none is lost, and none comes twice.
pub push_pops :
    (tasks : List Task) (n : ℕ)
    → AllDistinct tasks
    → length tasks ≤ n
    → (t : Tree Task) × (out : List Task) × (push_tree tasks leaf ≡ some t)
      × (pops n t ≡ some out)
      × IsSorted task_tree_info out
      × (length out ≡ length tasks)
      × Found tasks out
push_pops tasks n d h =
    let (t, ran, b, same, s) = push_tree-insert_all tasks leaf tt tt in
    let (size, found) = insert_all_lem tasks [] d (Missing-nil tasks) in
    let size' : length (items t) ≡ length tasks = ap length same ∙ (size ∙ omega arith) in
    (
      t,
      items t,
      ran,
      pops-items n t b (omega arith),
      s,
      size',
      subst (Found tasks) (sym same) found,
    )
