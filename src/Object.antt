-- ===== src/Object.antt =====
-- src/raleighsl/core/object.c and plugins.h: what an object's plugin offers, the state that a
-- write function works on, and how the object scheduler runs it.
use raleigh_fs.Common.{ℕ, Bool, ◌≡◌, Option, none, some, if◌then◌else◌}
use raleigh_fs.Errno.{Errno, failed}
use raleigh_fs.Transaction.{Links, Transaction, TxnState, add}

-- `struct raleighsl_object_plug`: the operations on an object's memory buffers that its plugin
-- gives. `none` is undefined behaviour of the C code. An atom is its address.
pub record ObjectPlug (S : Type 0) : Type 0 where
  pub create : S
  pub apply : ℕ → S → S
  pub revert : ℕ → S → S
  pub commit : S → Option (Errno × S)

-- What a write function can change: the object's buffers, the transaction that it runs in, if
-- any, and the `next` fields of the atoms.
pub record World (S : Type 0) : Type 0 where
  pub state : S
  pub txn : Option Transaction
  pub links : Links

-- What the system answers within a call: whether memory is there, and the time.
pub record Site : Type 0 where
  pub object : ℕ
  pub allocated : Bool
  pub now : ℕ

-- `txn_id = (transaction != NULL) ? raleighsl_txn_id(transaction) : 0`
abbrev pub txn_id_of : Option Transaction → ℕ
txn_id_of none = 0
txn_id_of (some t) = t.txn_id

module _ {S : Type 0} where
  -- `raleighsl_transaction_add` on the world's transaction; only called if there is one
  unfoldable pub enlist : Site → ℕ → World S → Errno × World S
  enlist site atom w = elim w.txn [
    | none ↦ (Errno.ok, w)
    | some t ↦
        let (e, t', links') = add site.allocated site.now t site.object atom w.links in
        (e, record w { txn = some t'; links = links' })
  ]

  -- `txn->state = RALEIGHSL_TXN_DONT_COMMIT` if there is a transaction
  unfoldable pub dont_commit : World S → World S
  dont_commit w = elim w.txn [
    | none ↦ w
    | some t ↦ record w { txn = some (record t { state = TxnState.dont_commit }) }
  ]

  -- the states OBJECT_SCHED_WRITE and OBJECT_SCHED_COMMIT of `__sched_object_task_exec`, on an open
  -- object with the commit of its plugin: a failing function dooms its transaction, a successful one
  -- is followed by the commit of the object. The balance that the object may then want is a task of
  -- its own, which takes its turn with those of the clients.
  unfoldable pub exec_write {κ} :
      {A : Type κ}
      → (S → Option (Errno × S))
      → (World S → Option (Errno × A × World S))
      → World S
      → Option (Errno × A × World S)
  unfolding dont_commit
  exec_write commit f w = elim (f w) [
    | none ↦ none
    | some (e, a, w') ↦ if failed e then some (e, a, dont_commit w') else elim (commit w'.state) [
      | none ↦ none
      | some (e', s) ↦ some (e', a, record w' { state = s })
    ]
  ]

  pub exec_write_commits {κ} :
      {A : Type κ} (commit : S → Option (Errno × S)) (f : World S → Option (Errno × A × World S))
      (w : World S) {a : A} {w' : World S} {e : Errno} {s : S}
      → f w ≡ some (Errno.ok, a, w')
      → commit w'.state ≡ some (e, s)
      → exec_write commit f w ≡ some (e, a, record w' { state = s })
  unfolding exec_write
  exec_write_commits commit f w h k = rw (h, exec_write, k)
