-- ===== src/Sset/Settle.antt =====
-- The plugin of a sorted set: create, apply, revert and commit. A detach or an attach that fails,
-- and an atom that is not there, are `none`.
use Prim.Native.Nat.{Ordering}
use raleigh_fs.Common.{
  ℕ, ◌+◌, ◌%◌, ◌^◌, Bool, false, Option, none, some, List, [], ◌∷◌, ltb, ◌≡◌, ap, if◌then◌else◌,
}
use raleigh_fs.Common.Int.{pos}
use raleigh_fs.Errno.{Errno}
use raleigh_fs.Tree.{Tree, leaf, attach}
use raleigh_fs.Tree.Detach.{detach}
use raleigh_fs.Sset.{
  Item, TxnType, insert, update, remove_key, SsetTxn, SsetNode, NodeRef, Sset, set_node,
  queue_commit, item_tree_info, txn_tree_info, node_tree_info,
}

abbrev attached : {A : Type 0} → Option (Bool × Tree A) → Option (Tree A)
attached none = none
attached (some (replaced, t)) = some t

abbrev detached : {A : Type 0} → Option (Option A × Tree A) → Option (Tree A)
detached none = none
detached (some (found, t)) = some t

module _ {K V : Type 0} where
  -- `__object_create`: one node with no block. The empty slice is its first key.
  unfoldable pub create : K → ℕ → Sset K V
  create empty addr = record {
    root = Tree.node leaf (record { addr = addr; first_key = empty }) (pos 0) leaf;
    nodes =
        λ a. record { mem_data = leaf; txn_locks = leaf; block = none; commitq = []; bufsize = 0 };
    atoms = λ a. none;
    txnq = [];
    dirtyq = [];
    rm_nodes = [];
    add_nodes = [];
    requires_balancing = false;
  }

module _ {K V : Type 0} (compare : K → K → Ordering) (item_size : Item K V → ℕ) where
  -- `__sset_txn_detach` on the node, by the key
  unfoldable pub txn_detach : K → SsetNode K V → Option (SsetNode K V)
  unfolding detach
  txn_detach k n = elim (detached (detach (txn_tree_info compare) k n.txn_locks)) [
    | none ↦ none
    | some locks ↦ some (record n { txn_locks = locks })
  ]

  pub txn_detach_lem :
      (k : K) (n : SsetNode K V) (o : Option (SsetTxn K V)) (locks : Tree (SsetTxn K V))
      → detach (txn_tree_info compare) k n.txn_locks ≡ some (o, locks)
      → txn_detach k n ≡ some (record n { txn_locks = locks })
  unfolding txn_detach
  txn_detach_lem k n o locks h =
      ap
        (λ (d : Option (Option (SsetTxn K V) × Tree (SsetTxn K V))). elim (detached d) [
          | none ↦ none
          | some locks' ↦ some (record n { txn_locks = locks' })
        ])
        h

  -- the `switch` of `__sset_txn_apply`
  unfoldable pub apply_item : TxnType → Item K V → SsetNode K V → Option (SsetNode K V)
  unfolding attach detach
  apply_item insert item n = elim (attached (attach (item_tree_info compare) item n.mem_data)) [
    | none ↦ none
    | some t ↦ some (record n { mem_data = t; bufsize = (n.bufsize + item_size item) % 2 ^ 32 })
  ]
  apply_item update item n = elim (attached (attach (item_tree_info compare) item n.mem_data)) [
    | none ↦ none
    | some t ↦ some (record n { mem_data = t; bufsize = (n.bufsize + item_size item) % 2 ^ 32 })
  ]
  apply_item remove_key item n = elim (detach (item_tree_info compare) item.key n.mem_data) [
    | none ↦ none
    | some (some old, t) ↦ some (record n { mem_data = t })
    | some (none, t) ↦ elim (attached (attach (item_tree_info compare) item n.mem_data)) [
      | none ↦ none
      | some t' ↦ some (record n { mem_data = t' })
    ]
  ]

  -- `__sset_txn_apply`
  unfoldable pub txn_apply : SsetTxn K V → SsetNode K V → Option (SsetNode K V)
  unfolding txn_detach apply_item
  txn_apply t n =
      if ltb 0 t.txn_id
      then elim (txn_detach t.item.key n) [ none ↦ none | some n' ↦ apply_item t.type t.item n' ]
      else apply_item t.type t.item n

  -- `__sset_txn_commit`: the lock of a first write is attached; that of its parent is detached, the
  -- way `__sset_txn_revert` does it.
  unfoldable pub txn_commit : SsetTxn K V → SsetNode K V → Option (SsetNode K V)
  unfolding attach txn_detach
  txn_commit t n =
      if ltb 0 t.txn_id
      then elim t.parent [
        | some item ↦ txn_detach item.key n
        | none ↦ elim (attached (attach (txn_tree_info compare) t n.txn_locks)) [
          | none ↦ none
          | some locks ↦ some (record n { txn_locks = locks })
        ]
      ]
      else none

  -- a change of the entry's node
  abbrev pub on_node :
      SsetTxn K V → (SsetNode K V → Option (SsetNode K V)) → Sset K V → Option (Sset K V)
  on_node t f s = elim (f (s.nodes t.node)) [ none ↦ none | some n ↦ some (set_node t.node n s) ]

  -- the loops of `__object_commit` over `txnq`, over a node's `commitq` and over `dirtyq`
  unfoldable pub commit_txns : List (SsetTxn K V) → Sset K V → Option (Sset K V)
  commit_txns [] s = some s
  commit_txns (t ∷ ts) s = elim (on_node t (txn_commit t) s) [
    | none ↦ none
    | some s' ↦ commit_txns ts s'
  ]

  unfoldable pub apply_txns : List (SsetTxn K V) → SsetNode K V → Option (SsetNode K V)
  unfolding txn_apply
  apply_txns [] n = some n
  apply_txns (t ∷ ts) n = elim (txn_apply t n) [ none ↦ none | some n' ↦ apply_txns ts n' ]

  unfoldable pub apply_dirty : List ℕ → Sset K V → Option (Sset K V)
  unfolding apply_txns
  apply_dirty [] s = some s
  apply_dirty (a ∷ as') s =
      let n = s.nodes a in
      elim (apply_txns n.commitq (record n { commitq = [] })) [
        | none ↦ none
        | some n' ↦ apply_dirty as' (set_node a n' s)
      ]

  -- the loops over `rm_nodes` and `add_nodes`
  unfoldable pub detach_nodes : List (NodeRef K) → Sset K V → Option (Sset K V)
  unfolding detach
  detach_nodes [] s = some s
  detach_nodes (n ∷ ns) s = elim (detach (node_tree_info compare) n.first_key s.root) [
    | none ↦ none
    | some (none, t) ↦ none
    | some (some old, t) ↦ detach_nodes ns (record s { root = t })
  ]

  unfoldable pub attach_nodes : List (NodeRef K) → Sset K V → Option (Sset K V)
  unfolding attach
  attach_nodes [] s = some s
  attach_nodes (n ∷ ns) s = elim (attached (attach (node_tree_info compare) n s.root)) [
    | none ↦ none
    | some t ↦ attach_nodes ns (record s { root = t; requires_balancing = false })
  ]

  -- `__object_commit`
  unfoldable pub commit : Sset K V → Option (Sset K V)
  unfolding detach_nodes attach_nodes commit_txns apply_dirty
  commit s = elim (detach_nodes s.rm_nodes (record s { rm_nodes = [] })) [
    | none ↦ none
    | some s1 ↦ elim (attach_nodes s1.add_nodes (record s1 { add_nodes = [] })) [
      | none ↦ none
      | some s2 ↦ elim (commit_txns s2.txnq (record s2 { txnq = [] })) [
        | none ↦ none
        | some s3 ↦ apply_dirty s3.dirtyq (record s3 { dirtyq = [] })
      ]
    ]
  ]

  -- `__object_apply` and `__object_revert`
  unfoldable pub apply : ℕ → Sset K V → Option (Sset K V)
  apply atom s = elim (s.atoms atom) [ none ↦ none | some t ↦ some (queue_commit t s) ]

  unfoldable pub revert : ℕ → Sset K V → Option (Sset K V)
  revert atom s = elim (s.atoms atom) [ none ↦ none | some t ↦ on_node t (txn_detach t.item.key) s ]

  -- `__object_commit` with its code
  unfoldable pub object_commit : Sset K V → Option (Errno × Sset K V)
  unfolding commit
  object_commit s = elim (commit s) [ none ↦ none | some s' ↦ some (Errno.ok, s') ]
