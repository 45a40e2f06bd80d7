-- ===== src/Schedule.antt =====
-- src/raleighsl/core/transaction.c, the transaction scheduler: `__sched_txn_task_exec` with the
-- barrier over the transaction's objects, and the release of their locks.
--
-- The objects are a store by their address. `z_rwcsem_*` operations on their words are the
-- bodies of `Rwcsem`, each acting in one instant (`Rwcsem.Linear`). Waking the tasks that wait on
-- a semaphore, the notification and the cache entry's release are left to the caller.
pub mod Barrier
pub mod Phases
pub mod Stores
pub mod Commit
pub mod Table
pub mod Session
mod Tests
use raleigh_fs.Common.{
  ℕ, zero, suc, Bool, true, false, not, ◌&&◌, Option, none, some, List, [], ◌∷◌, ◌==◌,
  if◌then◌else◌,
}
use raleigh_fs.Errno.{Errno, failed}
use raleigh_fs.Rwcsem.{Op, answer, swap, try_acquire, release, set_lock_flag}
use raleigh_fs.Transaction.{
  Links, Group, Transaction, TxnState, wait_commit, dont_commit, committed, rolledback,
}
use raleigh_fs.Object.{ObjectPlug}

-- `enum txn_sched_state`
pub data SchedState : Type 0 where
  acquire barrier lock write commit complete : SchedState

-- `enum txn_commit_type`
pub data CommitType : Type 0 where
  to_apply to_revert : CommitType

-- what the scheduler sees of `struct raleighsl_object`
pub record Managed (S : Type 0) : Type 0 where
  pub pending_txn_id : ℕ
  pub word : ℕ
  pub state : S

-- The task: its state, `args[2].fd` and `args[3].ptr`.
pub record Task : Type 0 where
  pub step : SchedState
  pub commit_type : CommitType
  pub cursor : List Group

-- What a run of the task can change; `semaphore` is the word of the transaction's own semaphore.
pub record Scene (S : Type 0) : Type 0 where
  pub store : ℕ → Managed S
  pub semaphore : ℕ
  pub txn : Transaction

-- the task that `__txn_commit_task` starts
abbrev pub new_task : CommitType → Task
new_task type = record { step = SchedState.acquire; commit_type = type; cursor = [] }

-- How a run of the task ends: it waits for a semaphore or is put back, or it is complete.
pub data Run (S : Type 0) : Type 0 where
  waiting : Task → Scene S → Run S
  finished : Errno → Scene S → Run S

-- The word after a "try", or `none` where it is refused.
unfoldable pub taken : Op → ℕ → Option ℕ
unfolding try_acquire
taken op w = elim (try_acquire op w) [ answer r ↦ none | swap e n ↦ some n ]

-- `z_rwcsem_set_lock_flag`
unfoldable pub flagged : ℕ → ℕ
unfolding set_lock_flag
flagged w = elim (set_lock_flag w) [ answer r ↦ w | swap e n ↦ n ]

-- `z_rwcsem_release`
unfoldable pub released : Op → ℕ → ℕ
unfolding release
released op w = elim (release op w) [ answer r ↦ w | swap e n ↦ n ]

module _ {S : Type 0} where
  abbrev pub set_object : (ℕ → Managed S) → ℕ → Managed S → ℕ → Managed S
  set_object store a m b = if b == a then m else store b

  -- the first loop of `__txn_mgr_acquire_barrier`
  unfoldable pub is_available : List Group → (ℕ → Managed S) → Bool
  is_available [] store = true
  is_available (g ∷ gs) store =
      if (store g.object).pending_txn_id == 0 then is_available gs store else false

  -- the second one
  unfoldable pub mark_pending : ℕ → List Group → (ℕ → Managed S) → ℕ → Managed S
  mark_pending id [] store = store
  mark_pending id (g ∷ gs) store =
      let o = store g.object in
      mark_pending id gs
        (set_object store g.object (record o { pending_txn_id = id; word = flagged o.word }))

  -- `__txn_mgr_acquire_barrier`
  unfoldable pub acquire_barrier : ℕ → List Group → (ℕ → Managed S) → Bool × (ℕ → Managed S)
  unfolding is_available mark_pending
  acquire_barrier id gs store =
      if is_available gs store then (true, mark_pending id gs store) else (false, store)

  -- `__txn_mgr_release_locks`; `none` is its failed assertion
  unfoldable pub release_locks : ℕ → List Group → (ℕ → Managed S) → Option (ℕ → Managed S)
  unfolding released
  release_locks id [] store = some store
  release_locks id (g ∷ gs) store =
      let o = store g.object in
      let rest = release_locks id gs (
        set_object store g.object
          (record o { pending_txn_id = 0; word = released Op.lock o.word })) in
      if o.pending_txn_id == id then rest else none

  -- the state TXN_SCHED_LOCK: the groups left when an object is refused, and `[]` when all is locked
  unfoldable pub lock_objects : List Group → (ℕ → Managed S) → List Group × (ℕ → Managed S)
  unfolding taken
  lock_objects [] store = ([], store)
  lock_objects (g ∷ gs) store = elim (taken Op.lock (store g.object).word) [
    | none ↦ (g ∷ gs, store)
    | some n ↦ lock_objects gs (set_object store g.object (record (store g.object) { word = n }))
  ]

-- the test before the apply loop, on `commit_type`
unfoldable pub effective_type : CommitType → TxnState → CommitType
effective_type CommitType.to_apply TxnState.dont_commit = CommitType.to_revert
effective_type CommitType.to_apply TxnState.wait_commit = CommitType.to_apply
effective_type CommitType.to_apply TxnState.committed = CommitType.to_apply
effective_type CommitType.to_apply TxnState.rolledback = CommitType.to_apply
effective_type CommitType.to_revert st = CommitType.to_revert

-- the code and the transaction's state that the task ends with
unfoldable pub verdict : Errno → CommitType → TxnState → Errno × TxnState
verdict e CommitType.to_revert st = (e, TxnState.rolledback)
verdict e CommitType.to_apply st = if failed e then (e, TxnState.rolledback) else elim st [
  | dont_commit ↦ (Errno.txn_rolledback, TxnState.rolledback)
  | wait_commit ↦ (e, TxnState.committed)
  | committed ↦ (e, TxnState.committed)
  | rolledback ↦ (e, TxnState.committed)
]

module _ {S : Type 0} (plug : ℕ → ObjectPlug S) where
  -- `raleighsl_object_apply` or `raleighsl_object_revert`
  unfoldable pub settle : CommitType → ℕ → ℕ → S → S
  settle CommitType.to_apply object atom s = (plug object).apply atom s
  settle CommitType.to_revert object atom s = (plug object).revert atom s

  -- the inner loop of TXN_SCHED_WRITE; what is left of the chain becomes the group's head. No error
  -- is set in the loop.
  unfoldable pub settle_atoms : Links → ℕ → CommitType → ℕ → Option ℕ → S → Option ℕ × S
  settle_atoms links zero type object p s = (p, s)
  settle_atoms links (suc k) type object none s = (none, s)
  settle_atoms links (suc k) type object (some atom) s =
      settle_atoms links k type object (links atom) (settle type object atom s)

  -- TXN_SCHED_COMMIT: the last object's code is what is left in `errno`
  unfoldable pub commit_groups :
      Errno → List Group → (ℕ → Managed S) → Option (Errno × (ℕ → Managed S))
  commit_groups e [] store = some (e, store)
  commit_groups e (g ∷ gs) store = elim ((plug g.object).commit (store g.object).state) [
    | none ↦ none
    | some (e', s) ↦
        commit_groups e' gs (set_object store g.object (record (store g.object) { state = s }))
  ]

module _ {S : Type 0} (plug : ℕ → ObjectPlug S) (links : Links) (fuel : ℕ) where
  -- the outer loop
  unfoldable pub settle_groups :
      CommitType → List Group → (ℕ → Managed S) → List Group × (ℕ → Managed S)
  settle_groups type [] store = ([], store)
  settle_groups type (g ∷ gs) store =
      let o = store g.object in
      let (head, s) = settle_atoms plug links fuel type g.object g.atoms_head o.state in
      let (gs', store') =
        settle_groups type gs (set_object store g.object (record o { state = s })) in
      (record g { atoms_head = head } ∷ gs', store')

  -- from TXN_SCHED_COMMIT to the end, with the release of the locks and of the transaction's word
  unfoldable pub exec_commit : CommitType → List Group → (ℕ → Managed S) → Scene S → Option (Run S)
  exec_commit type gs store s = elim (commit_groups plug Errno.ok gs store) [
    | none ↦ none
    | some (e, store') ↦
        let (e', st) = verdict e type s.txn.state in
        elim (release_locks s.txn.txn_id gs store') [
          | none ↦ none
          | some store'' ↦ some (
              Run.finished e' (record {
                store = store'';
                semaphore = released Op.commit s.semaphore;
                txn = record s.txn { objects = gs; state = st };
              }))
        ]
  ]

  -- from TXN_SCHED_WRITE on
  unfoldable pub exec_write : CommitType → Scene S → Option (Run S)
  exec_write type s =
      let type' = effective_type type s.txn.state in
      let (gs, store) = settle_groups type' s.txn.objects s.store in exec_commit type' gs store s

  -- from TXN_SCHED_LOCK on, with the groups still to lock
  unfoldable pub exec_lock : CommitType → List Group → Scene S → Option (Run S)
  exec_lock type gs s =
      let (left, store) = lock_objects gs s.store in
      elim left [
        | g ∷ rest ↦ some (
            Run.waiting (record { step = SchedState.lock; commit_type = type; cursor = g ∷ rest })
              (record s { store = store }))
        | [] ↦ exec_write type (record s { store = store })
      ]

  -- from TXN_SCHED_BARRIER on
  unfoldable pub exec_barrier : CommitType → Scene S → Option (Run S)
  exec_barrier type s =
      let (available, store) = acquire_barrier s.txn.txn_id s.txn.objects s.store in
      if available
      then exec_lock type s.txn.objects (record s { store = store })
      else some (
          Run.waiting (record { step = SchedState.barrier; commit_type = type; cursor = [] })
            (record s { store = store }))

  -- `__sched_txn_task_exec`. A task is never run again in the three states that one run goes
  -- through to its end.
  unfoldable pub exec : Task → Scene S → Option (Run S)
  unfolding taken
  exec task s = elim task.step [
    | acquire ↦ elim (taken Op.commit s.semaphore) [
      | none ↦ some (Run.waiting task s)
      | some n ↦ exec_barrier task.commit_type (record s { semaphore = n })
    ]
    | barrier ↦ exec_barrier task.commit_type s
    | lock ↦ exec_lock task.commit_type task.cursor s
    | write ↦ none
    | commit ↦ none
    | complete ↦ none
  ]
