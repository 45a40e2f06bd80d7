-- ===== src/Schedule/Commit.antt =====
-- `__sched_txn_task_exec` from its start to its end.
use raleigh_fs.Common.{ℕ, ◌+◌, some, List, [], ◌∷◌, ◌≡◌, refl, ap, ◌∙◌}
use raleigh_fs.Errno.{Errno}
use raleigh_fs.Rwcsem.{Op, commit_flag, lock_flag, write_flag}
use raleigh_fs.Object.{ObjectPlug}
use raleigh_fs.Transaction.{Links, Group, Transaction, TxnState}
use raleigh_fs.Transaction.View.{View, Represents}
use raleigh_fs.Schedule.{
  Managed, SchedState, CommitType, new_task, Scene, Run, taken, released, acquire_barrier,
  effective_type, verdict, exec_commit, exec_write, exec_lock, exec_barrier, exec,
}
use raleigh_fs.Schedule.Barrier.{Involves}
use raleigh_fs.Schedule.Stores.{
  Involves-object_group, published, Idle, marked, locked, written, committed_store, unlocked,
  update_all_at, marked_cell, locked_cell, final_lem,
}
use raleigh_fs.Schedule.Phases.{
  DistinctObjects, emptied, settle_all, mark_pending-update, is_available_free, lock_objects-update,
  commit_groups-update, release_locks-update, FuelFor, atoms_in, settle_groups-update,
}

module _ {S : Type 0} (plug : ℕ → ObjectPlug S) (links : Links) (fuel : ℕ) (c : ℕ → S → S) where
  held :
      (type : CommitType) (v : View) (s : Scene S)
      → DistinctObjects s.txn.objects
      → ((b : ℕ) → Involves b s.txn.objects → (s.store b).pending_txn_id ≡ s.txn.txn_id)
      → (b : ℕ) → Involves b s.txn.objects
      → (committed_store c s.txn.objects
          (written plug type v s.txn.objects s.store)
          b).pending_txn_id
        ≡ s.txn.txn_id
  held type v s d p b m =
      let gs = s.txn.objects in
      let (g, e) = Involves-object_group b gs m in
      ap (λ (o : Managed S). o.pending_txn_id)
        (update_all_at (λ g o. record o { state = c g.object o.state }) gs
          (written plug type v gs s.store) b g d e)
      ∙ (ap (λ (o : Managed S). o.pending_txn_id)
            (update_all_at
              (λ g o. record o {
                state = settle_all plug type g.object (atoms_in g.object v) o.state;
              })
              gs s.store b g d e)
          ∙ p b m)

  exec_write_lem :
      (type : CommitType) (s : Scene S) (v : View)
      → ((object : ℕ) (x : S) → (plug object).commit x ≡ some (Errno.ok, c object x))
      → Represents links s.txn.objects v
      → FuelFor fuel v
      → DistinctObjects s.txn.objects
      → ((b : ℕ) → Involves b s.txn.objects → (s.store b).pending_txn_id ≡ s.txn.txn_id)
      → let type' = effective_type type s.txn.state in
        let (e, st) = verdict Errno.ok type' s.txn.state in
        let gs = s.txn.objects in
        exec_write plug links fuel type s
        ≡ some (
            Run.finished e (record {
              store = unlocked gs (committed_store c gs (written plug type' v gs s.store));
              semaphore = released Op.commit s.semaphore;
              txn = record s.txn { objects = emptied gs; state = st };
            }))
  unfolding exec_write exec_commit
  exec_write_lem type s v h r f d p =
      let gs = s.txn.objects in
      let type' = effective_type type s.txn.state in
      let store = committed_store c gs (written plug type' v gs s.store) in
      ap (λ (q : List Group × (ℕ → Managed S)). exec_commit plug links fuel type' q.0 q.1 s)
        (settle_groups-update plug links fuel type' gs v v s.store r f d (λ b m. refl))
      ∙ rw (
        commit_groups-update plug c gs (written plug type' v gs s.store) h,
        exec_commit,
        release_locks-update s.txn.txn_id gs store d (held type' v s d p),
      )

  exec_barrier_lem :
      (type : CommitType) (s : Scene S)
      → ((b : ℕ) → Involves b s.txn.objects → Idle (s.store b))
      → exec_barrier plug links fuel type s
        ≡ exec_lock plug links fuel type s.txn.objects
            (record s { store = marked s.txn.txn_id s.txn.objects s.store })
  unfolding exec_barrier acquire_barrier
  exec_barrier_lem type s i = rw (
    is_available_free s.txn.objects s.store (λ b m. (i b m).0),
    acquire_barrier,
    mark_pending-update s.txn.txn_id s.txn.objects s.store,
  )

  semaphore_free : released Op.commit (commit_flag + write_flag) ≡ 0
  unfolding released
  semaphore_free = refl

  exec_lock_lem :
      (type : CommitType) (s : Scene S)
      → DistinctObjects s.txn.objects
      → ((b : ℕ) → Involves b s.txn.objects → (s.store b).word ≡ lock_flag)
      → exec_lock plug links fuel type s.txn.objects s
        ≡ exec_write plug links fuel type (record s { store = locked s.txn.objects s.store })
  unfolding exec_lock taken
  exec_lock_lem type s d w =
      ap
        (λ (q : List Group × (ℕ → Managed S)). elim (q.0) [
          | g ∷ rest ↦ some (
              Run.waiting (record { step = SchedState.lock; commit_type = type; cursor = g ∷ rest })
                (record s { store = q.1 }))
          | [] ↦ exec_write plug links fuel type (record s { store = q.1 })
        ])
        (lock_objects-update (lock_flag + write_flag) s.txn.objects s.store d
          (λ b m. rw (w b m, taken)))

  -- A transaction whose commit flag is set, with nobody inside it or any of its objects, is
  -- done in one run of its task, given fuel for its longest chain and plugins whose commit does
  -- not fail. Every object of the transaction gets its atoms applied (reverted, in a rollback and
  -- in a doomed commit) in the order of their addition and is committed once; every other object
  -- stays as it was. All locks are free again.
  pub exec_lem :
      (type : CommitType) (s : Scene S) (v : View)
      → ((object : ℕ) (x : S) → (plug object).commit x ≡ some (Errno.ok, c object x))
      → Represents links s.txn.objects v
      → FuelFor fuel v
      → DistinctObjects s.txn.objects
      → ((b : ℕ) → Involves b s.txn.objects → Idle (s.store b))
      → s.semaphore ≡ commit_flag
      → let type' = effective_type type s.txn.state in
        let (e, st) = verdict Errno.ok type' s.txn.state in
        (s' : Scene S) × (exec plug links fuel (new_task type) s ≡ some (Run.finished e s'))
        × (s'.txn ≡ record s.txn { objects = emptied s.txn.objects; state = st })
        × (s'.semaphore ≡ 0)
        × ((b : ℕ) → s'.store b ≡ published plug c type' s.txn.objects v b (s.store b))
  unfolding exec
  exec_lem type s v h r f d i m =
      let gs = s.txn.objects in
      let marks = marked s.txn.txn_id gs s.store in
      let held_scene = record s { store = marks; semaphore = commit_flag + write_flag } in
      (
        _,
        (rw (m, exec) (exec_barrier_lem type (record s { semaphore = commit_flag + write_flag }) i)
            ∙ (exec_lock_lem type held_scene d (λ b m'. (marked_cell s b d i m').1)
                ∙ exec_write_lem type (record held_scene { store = locked gs marks }) v h r f d
                    (λ b m'. locked_cell gs marks b d m' ∙ (marked_cell s b d i m').0))),
        refl,
        semaphore_free,
        λ b. final_lem plug c (effective_type type s.txn.state) v s b d,
      )

  -- A client's commit of a transaction in which a write has failed ends as a rollback, as it
  -- should, but the code that the client is notified of is that of a success, not TXN_ROLLEDBACK:
  -- the test for it comes after the commit type has been changed.
  pub exec_doomed :
      (s : Scene S) (v : View)
      → ((object : ℕ) (x : S) → (plug object).commit x ≡ some (Errno.ok, c object x))
      → Represents links s.txn.objects v
      → FuelFor fuel v
      → DistinctObjects s.txn.objects
      → ((b : ℕ) → Involves b s.txn.objects → Idle (s.store b))
      → s.semaphore ≡ commit_flag
      → s.txn.state ≡ TxnState.dont_commit
      → (s' : Scene S) × (exec plug links fuel (new_task CommitType.to_apply) s
          ≡ some (Run.finished Errno.ok s'))
        × (s'.txn.state ≡ TxnState.rolledback)
  unfolding effective_type verdict
  exec_doomed s v h r f d i m t =
      let (s', ran, txn, free, cells) = exec_lem CommitType.to_apply s v h r f d i m in
      (
        s',
        ran ∙ rw (t, effective_type, verdict),
        ap (λ (x : Transaction). x.state) txn ∙ rw (t, effective_type, verdict),
      )
