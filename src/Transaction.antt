-- ===== src/Transaction.antt =====
-- src/raleighsl/core/transaction.c and types.h: a transaction, the groups of atoms that it holds
-- for each object, and the operations that change them.
--
-- An atom is its address. Atoms form intrusive lists, so their `next` fields are a heap of their
-- own (`Links`); the singly linked list of groups is reached through its head alone and is a
-- list. `z_memory_struct_alloc` answers by a Boolean argument, `z_time_micros` by a number. The
-- ticket lock around each operation makes it one step.
pub mod Chain
pub mod View
pub mod Add
pub mod Replace
mod Tests
use raleigh_fs.Common.{
  ℕ, zero, suc, Bool, true, false, Option, none, some, List, [], ◌∷◌, ◌==◌, if◌then◌else◌,
}
use raleigh_fs.Errno.{Errno}

-- `enum raleighsl_txn_state`
pub data TxnState : Type 0 where
  wait_commit dont_commit committed rolledback : TxnState

-- `struct raleighsl_txn_atom`: where the `next` field of each atom points.
abbrev pub Links : Type 0
Links = ℕ → Option ℕ

abbrev pub set_next : Links → ℕ → Option ℕ → Links
set_next links a p b = if b == a then p else links b

-- `struct txn_obj_group`
pub record Group : Type 0 where
  pub object : ℕ
  pub atoms_head : Option ℕ
  pub atoms_tail : Option ℕ

-- `struct raleighsl_transaction`; its semaphore is modelled with `Schedule`.
pub record Transaction : Type 0 where
  pub txn_id : ℕ
  pub objects : List Group
  pub mtime : ℕ
  pub state : TxnState

-- `raleighsl_transaction_alloc`, where the allocation succeeds
unfoldable pub alloc : ℕ → ℕ → Transaction
alloc txn_id now = record {
  txn_id = txn_id;
  objects = [];
  mtime = now;
  state = TxnState.wait_commit;
}

-- `__txn_object_group_alloc`
unfoldable pub object_group_alloc : ℕ → Group
object_group_alloc object = record { object = object; atoms_head = none; atoms_tail = none }

-- `__txn_object_group`: the group of an object, if there is one
unfoldable pub object_group : ℕ → List Group → Option Group
object_group object [] = none
object_group object (g ∷ gs) = if g.object == object then some g else object_group object gs

-- `__txn_object_group_add`: the list in which the object has a group, or `none` if the allocation
-- of a new one failed. A new group goes to the end.
unfoldable pub object_group_add : Bool → ℕ → List Group → Option (List Group)
unfolding object_group_alloc
object_group_add allocated object [] =
    if allocated then some (object_group_alloc object ∷ []) else none
object_group_add allocated object (g ∷ gs) =
    if g.object == object
    then some (g ∷ gs)
    else elim (object_group_add allocated object gs) [ none ↦ none | some gs' ↦ some (g ∷ gs') ]

-- `atom->next = NULL`, then the atom goes behind the tail, or becomes the head
unfoldable pub append_atom : ℕ → Group → Links → Group × Links
append_atom atom g links = elim g.atoms_tail [
  | some tail ↦
      (record g { atoms_tail = some atom }, set_next (set_next links atom none) tail (some atom))
  | none ↦ (record g { atoms_head = some atom; atoms_tail = some atom }, set_next links atom none)
]

-- an operation on the group of an object, in place
unfoldable pub on_group :
    ℕ → (Group → Links → Group × Links) → List Group → Links → List Group × Links
on_group object f [] links = ([], links)
on_group object f (g ∷ gs) links =
    if g.object == object
    then (let (g', links') = f g links in (g' ∷ gs, links'))
    else (let (gs', links') = on_group object f gs links in (g ∷ gs', links'))

-- `raleighsl_transaction_add`
unfoldable pub add : Bool → ℕ → Transaction → ℕ → ℕ → Links → Errno × Transaction × Links
unfolding object_group_add append_atom on_group
add allocated now txn object atom links = elim (object_group_add allocated object txn.objects) [
  | none ↦ (Errno.no_memory, txn, links)
  | some groups ↦
      let (groups', links') = on_group object (append_atom atom) groups links in
      (Errno.ok, record txn { objects = groups'; mtime = now }, links')
]

-- the loop of `raleighsl_transaction_replace`, from `p` on with `prev` before it; `fuel` bounds
-- the number of atoms. A `new` of `none` is the NULL that `raleighsl_transaction_remove` passes.
unfoldable pub replace_from : ℕ → ℕ → Option ℕ → ℕ → Option ℕ → Links → Links
replace_from zero prev p atom new links = links
replace_from (suc fuel) prev none atom new links = links
replace_from (suc fuel) prev (some p) atom new links =
    let rest = replace_from fuel p (links p) atom new links in
    if p == atom
    then elim new [
      | none ↦ set_next links prev (links atom)
      | some q ↦ set_next (set_next links q (links p)) prev (some q)
    ]
    else rest

-- `raleighsl_transaction_replace`, whose assertions are compiled to nothing: `none` is the
-- dereference of a missing group. With no atom at all the loop does not run.
unfoldable pub replace : ℕ → Transaction → ℕ → ℕ → Option ℕ → Links → Option Links
unfolding object_group replace_from
replace fuel txn object atom new links = elim (object_group object txn.objects) [
  | none ↦ none
  | some g ↦ elim g.atoms_head [
    | none ↦ some links
    | some head ↦ some (replace_from fuel head (some head) atom new links)
  ]
]

-- `raleighsl_transaction_remove`
unfoldable pub remove : ℕ → Transaction → ℕ → ℕ → Links → Option Links
unfolding replace
remove fuel txn object atom links = replace fuel txn object atom none links
