-- ===== src/Schedule/Tests.antt =====
-- A transaction on two numbers, committed and rolled back.
use raleigh_fs.Common.{
  ℕ, ◌+◌, false, none, some, List, [], ◌∷◌, ◌≡◌, refl, inl, arith, ◌==◌, if◌then◌else◌,
}
use raleigh_fs.Common.Int.{pos}
use raleigh_fs.Errno.{Errno}
use raleigh_fs.Rwcsem.{commit_flag}
use raleigh_fs.Transaction.{Links, Group, TxnState, alloc, object_group}
use raleigh_fs.Transaction.View.{View}
use raleigh_fs.Object.{ObjectPlug}
use raleigh_fs.Number.{Number, plug}
use raleigh_fs.Schedule.{
  Managed, CommitType, new_task, Scene, Run, effective_type, verdict, acquire_barrier, mark_pending,
  exec,
}
use raleigh_fs.Schedule.Barrier.{acquire_barrier_excludes}
use raleigh_fs.Schedule.Stores.{published}
use raleigh_fs.Schedule.Commit.{exec_lem, exec_doomed}
use raleigh_fs.Schedule.Phases.{emptied}
use raleigh_fs.Schedule.Session.{outcome, exec_session}
use raleigh_fs.Schedule.Table.{add_all}

-- Every object a number, and its commit.
abbrev numbers : ℕ → ObjectPlug Number
numbers object = plug

abbrev committed_number : ℕ → Number → Number
committed_number object n = if n.txn_id == 0 then record n { read_value = n.write_value } else n

numbers_commit :
    (object : ℕ) (n : Number)
    → (numbers object).commit n ≡ some (Errno.ok, committed_number object n)
unfolding plug
numbers_commit object n = ground arith

-- Objects 7 and 8 hold what transaction 9 has written; the others rest.
abbrev pending_store : ℕ → Managed Number
pending_store b = record {
  pending_txn_id = 0;
  word = 0;
  state = record { read_value = pos 1; write_value = pos (b + 10); txn_id = 9 };
}

abbrev three_calls : List (ℕ × ℕ)
three_calls = (7, 1) ∷ (8, 2) ∷ (7, 3) ∷ []

exec_session_example :
    let (txn, links) = add_all 0 three_calls (alloc 9 0) (λ a. none) in
    let scene : Scene Number = record {
      store = pending_store;
      semaphore = commit_flag;
      txn = txn;
    } in
    (s' : Scene Number) × (exec numbers links 4 (new_task CommitType.to_apply) scene
      ≡ some (Run.finished Errno.ok s'))
    × (s'.txn.state ≡ TxnState.committed)
    × (s'.semaphore ≡ 0)
    × ((b : ℕ)
        → s'.store b
          ≡ outcome numbers committed_number CommitType.to_apply three_calls b (pending_store b))
exec_session_example =
    exec_session numbers committed_number CommitType.to_apply 9 0 4 three_calls (λ a. none)
      pending_store numbers_commit
      (
        (λ e. absurd (omega arith), (λ e. absurd (omega arith), tt)),
        ((λ e. absurd (omega arith), tt), (tt, tt)),
      )
      (omega arith) (λ b t. (refl, refl))

-- One atom of transaction 9 on object 7.
abbrev one_group : List Group
one_group = record { object = 7; atoms_head = some 1; atoms_tail = some 1 } ∷ []

abbrev no_links : Links
no_links a = none

abbrev one_view : View
one_view = (7, 1 ∷ []) ∷ []

abbrev scene_with : TxnState → Scene Number
scene_with st = record {
  store = pending_store;
  semaphore = commit_flag;
  txn = record (alloc 9 0) { objects = one_group; state = st };
}

exec_lem_example :
    (s' : Scene Number) × (exec numbers no_links 2
        (new_task CommitType.to_revert)
        (scene_with TxnState.wait_commit)
      ≡ some (Run.finished Errno.ok s'))
    × (s'.txn ≡ record (alloc 9 0) { objects = emptied one_group; state = TxnState.rolledback })
    × (s'.semaphore ≡ 0)
    × ((b : ℕ)
        → s'.store b
          ≡ published numbers committed_number CommitType.to_revert one_group one_view b
              (pending_store b))
unfolding effective_type verdict alloc object_group
exec_lem_example =
    exec_lem numbers no_links 2 committed_number CommitType.to_revert
      (scene_with TxnState.wait_commit) one_view numbers_commit (refl, (refl, tt), refl, tt)
      (omega arith, tt) (refl, tt) (λ b m. (refl, refl)) refl

exec_doomed_example :
    (s' : Scene Number) × (exec numbers no_links 2
        (new_task CommitType.to_apply)
        (scene_with TxnState.dont_commit)
      ≡ some (Run.finished Errno.ok s'))
    × (s'.txn.state ≡ TxnState.rolledback)
unfolding alloc object_group
exec_doomed_example =
    exec_doomed numbers no_links 2 committed_number (scene_with TxnState.dont_commit) one_view
      numbers_commit (refl, (refl, tt), refl, tt) (omega arith, tt) (refl, tt) (λ b m. (refl, refl))
      refl refl

acquire_barrier_excludes_example :
    acquire_barrier 4 one_group (mark_pending 9 one_group pending_store)
    ≡ (false, mark_pending 9 one_group pending_store)
unfolding acquire_barrier
acquire_barrier_excludes_example =
    acquire_barrier_excludes 9 4 7 one_group one_group pending_store (λ e. absurd (omega arith))
      refl (inl refl) (inl refl)
