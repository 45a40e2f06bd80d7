-- ===== src/Sset/Write.antt =====
-- The reads and writes of a sorted set: the search of a key in its node, get, insert, remove and
-- update.
use Prim.Native.Nat.{Ordering}
use raleigh_fs.Common.{
  ℕ, Bool, true, false, not, ◌&&◌, ◌||◌, Option, none, some, [], ◌∷◌, ◌++◌, leb, ◌==◌,
  if◌then◌else◌,
}
use raleigh_fs.Errno.{Errno, failed}
use raleigh_fs.Object.{World, Site, txn_id_of}
use raleigh_fs.Tree.{lookup}
use raleigh_fs.Tree.Iter.{current_item, open_iter, seek_le}
use raleigh_fs.Sset.{
  Item, TxnType, insert, remove_key, SsetTxn, SsetNode, NodeRef, Sset, SsetEntry, Allocs, sync_size,
  queue_commit, new_item, new_txn, put_atom, key_locked, is_current, is_present, txn_add, next_type,
  change_atom, item_tree_info, txn_tree_info, node_tree_info,
}

-- `__sset_block_lookup`, if there is a block
abbrev pub block_value : {K V : Type 0} → Option (K → Option V) → K → Option V
block_value none k = none
block_value (some b) k = b k

-- `entry.txn != NULL && entry.item == entry.txn->item`
abbrev pub same_item : {K V : Type 0} → Option (SsetTxn K V) → Option (Item K V) → Bool
same_item (some t) (some i) = i.addr == t.item.addr
same_item _ _ = false

-- a code with the `*value` that was set before
abbrev pub with_value :
    {V A : Type 0} → Option V → Option (Errno × A) → Option (Errno × Option V × A)
with_value v none = none
with_value v (some (e, a)) = some (e, v, a)

module _ {K V : Type 0} where
  -- the new item of an insert, and its transaction entry
  unfoldable pub insert_new :
      Site → Allocs → ℕ → K → V → World (Sset K V) → Errno × World (Sset K V)
  unfolding txn_add
  insert_new site allocs node k v w = elim allocs.item [
    | none ↦ (Errno.no_memory, w)
    | some a ↦
        let full = leb sync_size (w.state.nodes node).bufsize in
        txn_add site allocs.txn node insert (new_item a k (some v) false)
          (record w { state = record w.state { requires_balancing = full } })
  ]

  -- the delete marker of a remove, and its transaction entry
  unfoldable pub remove_new : Site → Allocs → ℕ → K → World (Sset K V) → Errno × World (Sset K V)
  unfolding txn_add
  remove_new site allocs node k w = elim allocs.item [
    | none ↦ (Errno.no_memory, w)
    | some a ↦ txn_add site allocs.txn node remove_key (new_item a k none true) w
  ]

  -- what `raleighsl_sset_get` answers after its search
  unfoldable pub get_entry : ℕ → SsetEntry K V → Errno × Option V
  get_entry txn_id e =
      if not e.found
      then (Errno.data_key_not_found, none)
      else if is_current e.txn txn_id
      then (Errno.ok, e.value)
      else if same_item e.txn e.item
      then (Errno.data_key_not_found, none)
      else (Errno.ok, e.value)

module _ {K V : Type 0} (compare : K → K → Ordering) where
  -- `__sset_node_lookup`
  unfoldable pub node_lookup : K → Sset K V → Option (NodeRef K)
  unfolding seek_le
  node_lookup k s = current_item (seek_le (node_tree_info compare) k (open_iter s.root))

  -- the part of `__sset_node_mem_search` below the transaction buffer
  unfoldable pub search_data :
      SsetNode K V → K → Option (SsetTxn K V) → Option (Item K V) → Option V → SsetEntry K V
  unfolding lookup
  search_data n k txn item value = elim (lookup (item_tree_info compare) k n.mem_data) [
    | some i ↦ record {
      found = not i.is_delete_marker || is_present txn;
      txn = txn;
      item = some i;
      value = i.value;
    }
    | none ↦ elim (block_value n.block k) [
      | some v ↦ record { found = true; txn = txn; item = item; value = some v }
      | none ↦ record { found = is_present txn; txn = txn; item = item; value = value }
    ]
  ]

  -- `__sset_node_mem_search`
  unfoldable pub mem_search : SsetNode K V → K → Bool → SsetEntry K V
  unfolding search_data
  mem_search n k stop_if_has_txn = elim (lookup (txn_tree_info compare) k n.txn_locks) [
    | none ↦ search_data n k none none none
    | some t ↦
        if stop_if_has_txn
        then record { found = true; txn = some t; item = some t.item; value = t.item.value }
        else search_data n k (some t) (some t.item) t.item.value
  ]

  -- `__sset_txn_update`: the second write of a transaction on a key
  unfoldable pub txn_update :
      ℕ
      → Site
      → Allocs
      → SsetTxn K V
      → TxnType
      → K
      → Option V
      → World (Sset K V)
      → Option (Errno × World (Sset K V))
  unfolding next_type change_atom
  txn_update fuel site allocs t type k v w = elim (next_type t.type type) [
    | none ↦ none
    | some (type', fresh) ↦
        let item : Option (Item K V) =
          if fresh
          then elim allocs.item [ none ↦ none | some a ↦ some (new_item a k v false) ]
          else some t.item in
        elim item [
          | none ↦ some (Errno.no_memory, w)
          | some i ↦ elim allocs.txn [
            | none ↦ some (Errno.no_memory, w)
            | some atom ↦
                let t' = new_txn atom (txn_id_of w.txn) t.node type' i (some t.item) in
                elim (change_atom fuel site.object type' t.atom atom w) [
                  | none ↦ none
                  | some w' ↦
                      let s = put_atom t' w'.state in
                      let s' =
                        if is_present w.txn
                        then record s { txnq = s.txnq ++ t' ∷ [] }
                        else queue_commit t' s in
                      some (Errno.ok, record w' { state = s' })
                ]
          ]
        ]
  ]

  -- `raleighsl_sset_insert`
  unfoldable pub insert_key :
      ℕ → Site → Allocs → Bool → K → V → World (Sset K V) → Option (Errno × World (Sset K V))
  unfolding txn_update insert_new
  insert_key fuel site allocs allow_update k v w = elim (node_lookup k w.state) [
    | none ↦ none
    | some n ↦
        let e = mem_search (w.state.nodes n.addr) k true in
        if e.found && key_locked e.txn (txn_id_of w.txn)
        then some (Errno.txn_locked_key, w)
        else if e.found && not allow_update
        then some (Errno.data_key_exists, w)
        else if e.found && is_present e.txn
        then elim e.txn [ none ↦ none | some t ↦ txn_update fuel site allocs t insert k (some v) w ]
        else some (insert_new site allocs n.addr k v w)
  ]

  -- `raleighsl_sset_remove`: the code, `*value` if it is set, and the world after it
  unfoldable pub remove :
      ℕ → Site → Allocs → K → World (Sset K V) → Option (Errno × Option V × World (Sset K V))
  unfolding txn_update remove_new
  remove fuel site allocs k w = elim (node_lookup k w.state) [
    | none ↦ none
    | some n ↦
        let e = mem_search (w.state.nodes n.addr) k true in
        if not e.found
        then some (Errno.data_key_not_found, none, w)
        else if key_locked e.txn (txn_id_of w.txn)
        then some (Errno.txn_locked_key, none, w)
        else with_value e.value (elim e.txn [
          | some t ↦ txn_update fuel site allocs t remove_key k none w
          | none ↦ some (remove_new site allocs n.addr k w)
        ])
  ]

  -- `raleighsl_sset_update`: a remove, then an insert, each with its own allocations
  unfoldable pub update_key :
      ℕ
      → Site
      → Allocs
      → Allocs
      → K
      → V
      → World (Sset K V)
      → Option (Errno × Option V × World (Sset K V))
  update_key fuel site allocs allocs' k v w = elim (remove fuel site allocs k w) [
    | none ↦ none
    | some (e, old, w') ↦
        if failed e
        then some (e, old, w')
        else with_value old (insert_key fuel site allocs' true k v w')
  ]

  -- `raleighsl_sset_get`
  unfoldable pub get : K → ℕ → Sset K V → Option (Errno × Option V)
  unfolding get_entry
  get k txn_id s = elim (node_lookup k s) [
    | none ↦ none
    | some n ↦ some (get_entry txn_id (mem_search (s.nodes n.addr) k false))
  ]
