-- ===== src/Tasks/Tests.antt =====
-- A queue of two tasks, and a semaphore's word.
use raleigh_fs.Common.{ℕ, Option, none, some, List, [], ◌∷◌, length, ◌≡◌, refl, arith}
use raleigh_fs.Transaction.{set_next}
use raleigh_fs.Tasks.{Nodes, push, pop, opened}
use raleigh_fs.Tasks.Queue.{Queued, push-Queued, pop-Queued}
use raleigh_fs.Tree.{Tree, leaf}
use raleigh_fs.Tree.Sorted.{IsSorted}
use raleigh_fs.Tasks.Timed.{Task, task_tree_info, push_tree, pops, Found, push_pops}
use raleigh_fs.Tasks.Wakeup.{Reach, start, lost_wakeup}

-- Tasks 1 and 2, in that order.
abbrev two_nodes : Nodes
two_nodes = record {
  child0 = set_next (λ a. none) 1 (some 2);
  child1 = set_next (λ a. none) 1 (some 2);
}

push-Queued_example :
    (head' : Option ℕ) × (nodes' : Nodes) × (push 3 (some 1) two_nodes ≡ some (head', nodes'))
    × Queued nodes' head' (1 ∷ 2 ∷ 3 ∷ [])
push-Queued_example =
    push-Queued 3 (some 1) two_nodes (1 ∷ 2 ∷ []) (refl, (refl, tt), refl)
      ((λ e. absurd (omega arith), tt), (tt, tt))
      (λ e. absurd (omega arith), (λ e. absurd (omega arith), tt))

pop-Queued_example :
    let (task, head', nodes') = pop (some 1) two_nodes in
    (task ≡ some 1) × Queued nodes' head' (2 ∷ [])
pop-Queued_example =
    pop-Queued two_nodes (some 1) 1 (2 ∷ []) (refl, (refl, tt), refl)
      ((λ e. absurd (omega arith), tt), (tt, tt))

lost_wakeup_example : Reach start (record start { sem = record opened { writeq = 5 ∷ [] } })
lost_wakeup_example = lost_wakeup 5

-- Three tasks, the last of them the first in time.
abbrev three_tasks : List Task
three_tasks =
    record { addr = 1; itime = 20 }
    ∷ record { addr = 2; itime = 30 }
    ∷ record { addr = 3; itime = 10 }
    ∷ []

push_pops_example :
    (t : Tree Task) × (out : List Task) × (push_tree three_tasks leaf ≡ some t)
    × (pops 4 t ≡ some out)
    × IsSorted task_tree_info out
    × (length out ≡ 3)
    × Found three_tasks out
push_pops_example =
    push_pops three_tasks 4
      (
        (λ e. absurd (omega arith), (λ e. absurd (omega arith), tt)),
        ((λ e. absurd (omega arith), tt), (tt, tt)),
      )
      (omega arith)
