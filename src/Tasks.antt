-- ===== src/Tasks.antt =====
-- src/zcl/core/global/task.c: queues of tasks, and the semaphore that tasks wait on.
--
-- A task is its address. A queue is an intrusive list through `__node__.child[0]`; the head's
-- `child[1]` points at the tail. The fields of all tasks are a heap (`Nodes`).
pub mod Queue
pub mod Wakeup
pub mod Timed
mod Tests
use raleigh_fs.Common.{
  ℕ, Bool, true, false, not, ◌&&◌, Option, none, some, List, [], ◌∷◌, ◌++◌, ◌==◌, if◌then◌else◌,
}
use raleigh_fs.Transaction.{Links, set_next}
use raleigh_fs.Rwcsem.{Op, Attempt, answer, swap, try_acquire, release, is_runnable}

-- `z_tree_node_t.child` of every task
pub record Nodes : Type 0 where
  pub child0 : Links
  pub child1 : Links

-- `z_task_queue_push`: the head after it; `none` is a head without a tail.
unfoldable pub push : ℕ → Option ℕ → Nodes → Option (Option ℕ × Nodes)
push task none nodes = some (
  some task,
  record {
    child0 = set_next nodes.child0 task none;
    child1 = set_next nodes.child1 task (some task);
  },
)
push task (some head) nodes = elim (nodes.child1 head) [
  | none ↦ none
  | some tail ↦ some (
    some head,
    record {
      child0 = set_next (set_next nodes.child0 tail (some task)) task none;
      child1 = set_next (set_next nodes.child1 head (some task)) task none;
    },
  )
]

-- `z_task_queue_pop`: the task, the head after it and the fields
unfoldable pub pop : Option ℕ → Nodes → Option ℕ × Option ℕ × Nodes
pop none nodes = (none, none, nodes)
pop (some task) nodes =
    let next = nodes.child0 task in
    let tail = nodes.child1 task in
    let child1 : Links = elim next [
      | none ↦ nodes.child1
      | some n ↦ set_next nodes.child1 n tail
    ] in
    (
      some task,
      next,
      record { child0 = set_next nodes.child0 task none; child1 = set_next child1 task none },
    )

-- `struct z_task_rwcsem`: the word and the four queues, each the list of its tasks
pub record TaskSem : Type 0 where
  pub word : ℕ
  pub readq : List ℕ
  pub writeq : List ℕ
  pub commitq : List ℕ
  pub lockq : List ℕ

-- `__task_rwcsem_add`, under the wait-queue lock
unfoldable pub add_waiting : Op → ℕ → TaskSem → TaskSem
add_waiting Op.read task s = record s { readq = s.readq ++ task ∷ [] }
add_waiting Op.write task s = record s { writeq = s.writeq ++ task ∷ [] }
add_waiting Op.commit task s = record s { commitq = s.commitq ++ task ∷ [] }
add_waiting Op.lock task s = record s { lockq = s.lockq ++ task ∷ [] }

-- one queue of `__task_rwcsem_runnables`: who is woken, and who stays
unfoldable pub drain : Op → ℕ → List ℕ → List ℕ × List ℕ
unfolding is_runnable
drain op state queue = if is_runnable op state then (queue, []) else ([], queue)

-- `__task_rwcsem_runnables`, under the wait-queue lock: `state` is what the release returned
unfoldable pub runnables : ℕ → TaskSem → List ℕ × TaskSem
unfolding drain
runnables state s =
    let (readers, readq) = drain Op.read state s.readq in
    let (writers, writeq) = drain Op.write state s.writeq in
    let (committers, commitq) = drain Op.commit state s.commitq in
    let (lockers, lockq) = drain Op.lock state s.lockq in
    (
      readers ++ (writers ++ (committers ++ lockers)),
      record s { readq = readq; writeq = writeq; commitq = commitq; lockq = lockq },
    )

-- `z_task_rwcsem_open`
abbrev pub opened : TaskSem
opened = record { word = 0; readq = []; writeq = []; commitq = []; lockq = [] }
