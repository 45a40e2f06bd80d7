-- ===== src/Sset/Locks.antt =====
-- The keys of a sorted set that a transaction has locked: who is refused, and what a read sees.
use Prim.Native.Nat.{Ordering}
use raleigh_fs.Common.{
  ℕ, Bool, true, false, Option, none, some, ==-true, ==-false, ◌≡◌, ◌≢◌, refl, ap,
}
use raleigh_fs.Errno.{Errno}
use raleigh_fs.Object.{World, Site, txn_id_of}
use raleigh_fs.Tree.{Tree, leaf, lookup}
use raleigh_fs.Tree.Balance.{items}
use raleigh_fs.Tree.Sorted.{find}
use raleigh_fs.Sset.{
  Item, SsetTxn, SsetNode, NodeRef, Sset, Allocs, set_node, item_tree_info, txn_tree_info,
}
use raleigh_fs.Sset.Write.{
  block_value, search_data, mem_search, node_lookup, insert_key, remove, update_key, get, get_entry,
}

module _ {K V : Type 0} (compare : K → K → Ordering) where
  -- the entry that holds a key of a node
  abbrev pub holder : K → SsetNode K V → Option (SsetTxn K V)
  holder k n = lookup (txn_tree_info compare) k n.txn_locks

  -- an address that none of the items has
  abbrev pub IsFresh : ℕ → Tree (Item K V) → Type 0
  IsFresh a t =
      (k : K) (i : Item K V) → find (item_tree_info compare) k (items t) ≡ some i → i.addr ≢ a

  pub mem_search-holder :
      (k : K) (n : SsetNode K V) (t : SsetTxn K V)
      → holder k n ≡ some t
      → (mem_search compare n k true
          ≡ record { found = true; txn = some t; item = some t.item; value = t.item.value })
        × (mem_search compare n k false
            ≡ search_data compare n k (some t) (some t.item) t.item.value)
  unfolding mem_search
  mem_search-holder k n t held = (rw (held, mem_search) refl, rw (held, mem_search) refl)

  pub mem_search-free :
      (k : K) (n : SsetNode K V)
      → holder k n ≡ none
      → mem_search compare n k false ≡ search_data compare n k none none none
  unfolding mem_search
  mem_search-free k n free = rw (free, mem_search) refl

  -- A key that another transaction has locked is refused to every write, in a transaction or
  -- outside, and nothing changes.
  pub locked_refused :
      (fuel : ℕ) (site : Site) (allocs allocs' : Allocs) (allow_update : Bool) (k : K) (v : V)
      (w : World (Sset K V)) (n : NodeRef K) (t : SsetTxn K V)
      → node_lookup compare k w.state ≡ some n
      → holder k (w.state.nodes n.addr) ≡ some t
      → t.txn_id ≢ txn_id_of w.txn
      → (insert_key compare fuel site allocs allow_update k v w ≡ some (Errno.txn_locked_key, w))
        × (remove compare fuel site allocs k w ≡ some (Errno.txn_locked_key, none, w))
        × (update_key compare fuel site allocs allocs' k v w ≡ some (Errno.txn_locked_key, none, w))
  unfolding insert_key remove update_key
  locked_refused fuel site allocs allocs' allow_update k v w n t at_node held other =
      let found = (mem_search-holder k (w.state.nodes n.addr) t held).0 in
      let differ = ==-false t.txn_id (txn_id_of w.txn) other in
      (
        rw (at_node, insert_key, found, differ) refl,
        rw (at_node, remove, found, differ) refl,
        rw (at_node, update_key, remove, found, differ) refl,
      )

  abbrev pub without_locks : ℕ → Sset K V → Sset K V
  without_locks a s = set_node a (record (s.nodes a) { txn_locks = leaf }) s

  -- the item that the memory has for a key, if there is one, is not a delete marker, and not the
  -- one of a lock
  abbrev pub IsCommitted : SsetTxn K V → Option (Item K V) → Type 0
  IsCommitted t none = Unit
  IsCommitted t (some i) = (i.is_delete_marker ≡ false) × (i.addr ≢ t.item.addr)

  -- what a get finds beside the entry of another transaction, and without it
  pub searched_same :
      (k : K) (n : SsetNode K V) (t : SsetTxn K V) (o : Option (Item K V)) (id : ℕ)
      → lookup (item_tree_info compare) k n.mem_data ≡ o
      → t.txn_id ≢ id
      → block_value n.block k ≡ none
      → IsCommitted t o
      → get_entry id (search_data compare n k (some t) (some t.item) t.item.value)
        ≡ get_entry id (search_data compare n k none none none)
  unfolding search_data get_entry
  searched_same k n t none id at_key other block c =
      rw (get_entry, search_data, at_key, block, ==-false t.txn_id id other, ==-true t.item.addr)
        refl
  searched_same k n t (some i) id at_key other block c =
      rw
        (
          get_entry,
          search_data,
          at_key,
          c.0,
          ==-false t.txn_id id other,
          ==-false i.addr t.item.addr c.1,
        )
        refl

  -- What a transaction has written is not seen by the others: where the block has no value for the
  -- key, and the item that the memory has for it, if there is one, is no delete marker and not the
  -- one of the lock, a get of another client answers as it would if no key of the node were locked.
  pub get_isolated :
      (k : K) (id : ℕ) (s : Sset K V) (n : NodeRef K) (t : SsetTxn K V)
      → node_lookup compare k s ≡ some n
      → holder k (s.nodes n.addr) ≡ some t
      → t.txn_id ≢ id
      → block_value (s.nodes n.addr).block k ≡ none
      → IsCommitted t (lookup (item_tree_info compare) k (s.nodes n.addr).mem_data)
      → get compare k id s ≡ get compare k id (without_locks n.addr s)
  unfolding get node_lookup lookup search_data get_entry
  get_isolated k id s n t at_node held other block c =
      rw
        (
          at_node,
          get,
          (mem_search-holder k (s.nodes n.addr) t held).1,
          ==-true n.addr,
          mem_search-free k (record (s.nodes n.addr) { txn_locks = leaf }) refl,
        )
        (ap some (
          searched_same k (s.nodes n.addr) t
            (lookup (item_tree_info compare) k (s.nodes n.addr).mem_data) id refl other block c))
