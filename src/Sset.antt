-- ===== src/Sset.antt =====
-- src/raleighsl/objects/sset/sset.c: the sorted set of keys and values, its items in memory and in
-- blocks, and the keys that transactions have locked. The scan and the balancing are not here.
--
-- The structures are in the heaps `nodes` and `atoms`, by their addresses; a queue is the list of
-- its members. What `z_bucket_search` finds in a block is a function. A failed assertion and a
-- pointer to nothing are `none`.
pub mod Settle
pub mod Write
pub mod Map
pub mod Queued
pub mod Enqueue
pub mod Update
pub mod Single
pub mod Calls
pub mod Locks
pub mod Faults
pub mod Halfway
pub mod Txn
pub mod Session
mod Tests
use Prim.Native.Nat.{Ordering}
use raleigh_fs.Common.{
  ℕ, ◌+◌, ◌%◌, ◌^◌, Bool, true, false, not, ◌&&◌, ◌||◌, Option, none, some, List, [], ◌∷◌, ◌++◌,
  ◌==◌, leb, if◌then◌else◌,
}
use raleigh_fs.Errno.{Errno, failed}
use raleigh_fs.Object.{World, Site, txn_id_of, enlist}
use raleigh_fs.Transaction.{Links, replace, remove}
use raleigh_fs.Tree.{Tree, leaf, node, TreeInfo}

-- `struct sset_item`: no value is that of a delete marker.
pub record Item (K V : Type 0) : Type 0 where
  pub addr : ℕ
  pub key : K
  pub value : Option V
  pub is_delete_marker : Bool

-- `enum sset_txn_type`
pub data TxnType : Type 0 where
  insert update remove_key : TxnType

-- `struct sset_txn`, by the address of its atom; `parent` is the item of the parent's, which is of
-- the same node.
pub record SsetTxn (K V : Type 0) : Type 0 where
  pub atom : ℕ
  pub txn_id : ℕ
  pub node : ℕ
  pub item : Item K V
  pub parent : Option (Item K V)
  pub type : TxnType

-- `struct sset_node`
pub record SsetNode (K V : Type 0) : Type 0 where
  pub mem_data : Tree (Item K V)
  pub txn_locks : Tree (SsetTxn K V)
  pub block : Option (K → Option V)
  pub commitq : List (SsetTxn K V)
  pub bufsize : ℕ

-- a node in the tree of nodes, with the first key of its block
pub record NodeRef (K : Type 0) : Type 0 where
  pub addr : ℕ
  pub first_key : K

-- `struct raleighsl_sset`, with `requires_balancing` of its object
pub record Sset (K V : Type 0) : Type 0 where
  pub root : Tree (NodeRef K)
  pub nodes : ℕ → SsetNode K V
  pub atoms : ℕ → Option (SsetTxn K V)
  pub txnq : List (SsetTxn K V)
  pub dirtyq : List ℕ
  pub rm_nodes : List (NodeRef K)
  pub add_nodes : List (NodeRef K)
  pub requires_balancing : Bool

-- `struct sset_entry`, with whether the search has found the key
pub record SsetEntry (K V : Type 0) : Type 0 where
  pub found : Bool
  pub txn : Option (SsetTxn K V)
  pub item : Option (Item K V)
  pub value : Option V

-- What the system answers within a write: the addresses of a new item and of a new transaction
-- entry, if there is memory for them.
pub record Allocs : Type 0 where
  pub item : Option ℕ
  pub txn : Option ℕ

abbrev pub sync_size : ℕ
sync_size = 4096

abbrev pub drop_node : ℕ → List ℕ → List ℕ
drop_node a [] = []
drop_node a (b ∷ bs) = if b == a then drop_node a bs else b ∷ drop_node a bs

abbrev pub is_present : {A : Type 0} → Option A → Bool
is_present none = false
is_present (some a) = true

-- the table of `__sset_txn_update`: the type, and whether the item is a new one
unfoldable pub next_type : TxnType → TxnType → Option (TxnType × Bool)
next_type old update = none
next_type insert insert = some (insert, true)
next_type insert remove_key = some (remove_key, false)
next_type update insert = none
next_type update remove_key = some (remove_key, false)
next_type remove_key insert = some (update, true)
next_type remove_key remove_key = some (remove_key, false)

module _ {K V : Type 0} where
  abbrev pub set_node : ℕ → SsetNode K V → Sset K V → Sset K V
  set_node a n s = record s { nodes = λ b. if b == a then n else s.nodes b }

  -- `z_dlink_move(&(sset->dirtyq), &(node->dirtyq))` and the node's queue
  abbrev pub queue_commit : SsetTxn K V → Sset K V → Sset K V
  queue_commit t s =
      let n = s.nodes t.node in
      record (set_node t.node (record n { commitq = n.commitq ++ t ∷ [] }) s) {
        dirtyq = t.node ∷ drop_node t.node s.dirtyq;
      }

  abbrev pub new_item : ℕ → K → Option V → Bool → Item K V
  new_item a key value marker = record {
    addr = a;
    key = key;
    value = value;
    is_delete_marker = marker;
  }

  abbrev pub new_txn : ℕ → ℕ → ℕ → TxnType → Item K V → Option (Item K V) → SsetTxn K V
  new_txn a txn_id n type item parent = record {
    atom = a;
    txn_id = txn_id;
    node = n;
    item = item;
    parent = parent;
    type = type;
  }

  abbrev pub put_atom : SsetTxn K V → Sset K V → Sset K V
  put_atom t s = record s { atoms = λ b. if b == t.atom then some t else s.atoms b }

  -- `__sset_txn_key_locked` and `__sset_txn_is_current`
  abbrev pub key_locked : Option (SsetTxn K V) → ℕ → Bool
  key_locked none id = false
  key_locked (some t) id = not (t.txn_id == id)

  abbrev pub is_current : Option (SsetTxn K V) → ℕ → Bool
  is_current none id = false
  is_current (some t) id = t.txn_id == id

  -- `__sset_txn_add`: the transaction entry of a write
  unfoldable pub txn_add :
      Site → Option ℕ → ℕ → TxnType → Item K V → World (Sset K V) → Errno × World (Sset K V)
  unfolding enlist
  txn_add site a n type item w = elim a [
    | none ↦ (Errno.no_memory, w)
    | some atom ↦
        let t = new_txn atom (txn_id_of w.txn) n type item none in
        if is_present w.txn
        then (let (e, w') = enlist site atom w in
            let s = put_atom t w'.state in
            if failed e
            then (Errno.no_memory, w')
            else (Errno.ok, record w' { state = record s { txnq = s.txnq ++ t ∷ [] } }))
        else (Errno.ok, record w { state = queue_commit t (put_atom t w.state) })
  ]

  -- `raleighsl_transaction_remove`, or `_replace`, on the atoms of the two entries
  unfoldable pub change_atom :
      ℕ → ℕ → TxnType → ℕ → ℕ → World (Sset K V) → Option (World (Sset K V))
  unfolding replace remove
  change_atom fuel object type old new w = elim w.txn [
    | none ↦ some w
    | some txn ↦
        let links : Option Links = elim type [
          | remove_key ↦ remove fuel txn object old w.links
          | insert ↦ replace fuel txn object old (some new) w.links
          | update ↦ replace fuel txn object old (some new) w.links
        ] in
        elim links [ none ↦ none | some l ↦ some (record w { links = l }) ]
  ]

module _ {K V : Type 0} (compare : K → K → Ordering) where
  -- `__sset_item_tree_info`, `__sset_txn_tree_info` and `__sset_node_tree_info`
  abbrev pub item_tree_info : TreeInfo (Item K V) K
  item_tree_info = record { key = λ i. i.key; compare = compare }

  abbrev pub txn_tree_info : TreeInfo (SsetTxn K V) K
  txn_tree_info = record { key = λ t. t.item.key; compare = compare }

module _ {K : Type 0} (compare : K → K → Ordering) where
  abbrev pub node_tree_info : TreeInfo (NodeRef K) K
  node_tree_info = record { key = λ n. n.first_key; compare = compare }
