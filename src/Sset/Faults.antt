-- ===== src/Sset/Faults.antt =====
-- What goes wrong with the locked keys of a sorted set.
use Prim.Native.Nat.{Ordering}
use mathlib.Core.Path.{subst}
use raleigh_fs.Common.{
  ℕ, ◌<◌, Bool, true, false, not, ◌||◌, none, some, ==-true, ==-false, ltb, ◌≡◌, ◌≢◌, refl, sym, ap,
  ◌∙◌, arith,
}
use raleigh_fs.Errno.{Errno}
use raleigh_fs.Tree.{TreeInfo, leaf, lookup}
use raleigh_fs.Tree.Balance.{IsBalanced, items}
use raleigh_fs.Tree.Sorted.{IsOrder, IsSorted, find}
use raleigh_fs.Tree.Find.{find-without}
use raleigh_fs.Tree.Search.{without-IsSorted}
use raleigh_fs.Tree.Remove.{detach_lem, lookup-find}
use raleigh_fs.Sset.{Item, SsetTxn, SsetNode, NodeRef, Sset, item_tree_info, txn_tree_info}
use raleigh_fs.Sset.Settle.{txn_commit, txn_detach_lem}
use raleigh_fs.Sset.Write.{block_value, search_data, node_lookup, get, get_entry}
use raleigh_fs.Sset.Locks.{holder, mem_search-holder, mem_search-free, without_locks}

or_true : (b : Bool) → (b || true) ≡ true
or_true false = refl
or_true true = refl

module _ {K V : Type 0} (compare : K → K → Ordering) where
  -- Of a key that has its value in a block and that a transaction has locked every other client is
  -- told that it is not there; without the locks it gets the value.
  pub block_hidden :
      (k : K) (id : ℕ) (s : Sset K V) (n : NodeRef K) (t : SsetTxn K V) (v : V)
      → node_lookup compare k s ≡ some n
      → holder compare k (s.nodes n.addr) ≡ some t
      → t.txn_id ≢ id
      → lookup (item_tree_info compare) k (s.nodes n.addr).mem_data ≡ none
      → block_value (s.nodes n.addr).block k ≡ some v
      → (get compare k id s ≡ some (Errno.data_key_not_found, none))
        × (get compare k id (without_locks compare n.addr s) ≡ some (Errno.ok, some v))
  unfolding get node_lookup lookup get_entry search_data
  block_hidden k id s n t v at_node held other at_key block = (
    rw
        (
          at_node,
          get,
          (mem_search-holder compare k (s.nodes n.addr) t held).1,
          get_entry,
          search_data,
          at_key,
          block,
          ==-false t.txn_id id other,
          ==-true t.item.addr,
        )
        refl,
    rw
        (
          at_node,
          get,
          ==-true n.addr,
          mem_search-free compare k (record (s.nodes n.addr) { txn_locks = leaf }) refl,
          get_entry,
          search_data,
          at_key,
          block,
        )
        refl,
  )

  -- A transaction that gets a key which the memory has is told the committed value, whatever it
  -- has written there itself.
  pub own_write_unseen :
      (k : K) (s : Sset K V) (n : NodeRef K) (t : SsetTxn K V) (i : Item K V)
      → node_lookup compare k s ≡ some n
      → holder compare k (s.nodes n.addr) ≡ some t
      → lookup (item_tree_info compare) k (s.nodes n.addr).mem_data ≡ some i
      → get compare k t.txn_id s ≡ some (Errno.ok, i.value)
  unfolding get node_lookup lookup get_entry search_data
  own_write_unseen k s n t i at_node held at_key =
      rw
        (
          at_node,
          get,
          (mem_search-holder compare k (s.nodes n.addr) t held).1,
          get_entry,
          search_data,
          at_key,
          or_true (not i.is_delete_marker),
          ==-true t.txn_id,
        )
        refl

  module _ (order : IsOrder (txn_tree_info {V = V} compare)) (item_size : Item K V → ℕ) where
    -- The commit of a transaction's second write on a key takes the entry of the first one out of
    -- the locks of the node and puts nothing in its place: nobody holds the key.
    pub second_write_unlocks :
        (t : SsetTxn K V) (first : Item K V) (n : SsetNode K V)
        → 0 < t.txn_id
        → t.parent ≡ some first
        → IsBalanced n.txn_locks
        → IsSorted (txn_tree_info compare) (items n.txn_locks)
        → (n' : SsetNode K V) × (txn_commit compare item_size t n ≡ some n')
          × (holder compare first.key n' ≡ none)
    unfolding txn_commit lookup
    second_write_unlocks t first n p same b s =
        let (locks, ran, b', e) =
          detach_lem (txn_tree_info compare) order first.key n.txn_locks b s in
        let entries : TreeInfo (SsetTxn K V) K = txn_tree_info compare in
        let held : ltb 0 t.txn_id ≡ true = ground arith in
        let left = without-IsSorted entries order first.key (items n.txn_locks) s in
        (
          record n { txn_locks = locks },
          rw (held, same, txn_commit) (txn_detach_lem compare item_size first.key n _ locks ran),
          lookup-find entries order first.key locks (subst (IsSorted entries) (sym e) left)
              ∙ (ap (find entries first.key) e
                  ∙ (find-without entries order first.key (items n.txn_locks) first.key s
                      ∙ rw (order.self first.key) refl)),
        )
