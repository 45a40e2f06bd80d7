-- ===== src/Sset/Session.antt =====
-- A transaction that inserts a key in a sorted set, through the object scheduler.
use Prim.Native.Nat.{Ordering}
use raleigh_fs.Common.{
  ℕ, ◌<◌, Bool, true, false, not, ◌&&◌, Option, none, some, [], ◌∷◌, ==-true, ◌≡◌, ◌≢◌, inl, inr,
  refl, ap, ◌∙◌, arith,
}
use raleigh_fs.Errno.{Errno}
use raleigh_fs.Transaction.{Links, Transaction, add}
use raleigh_fs.Object.{World, Site, exec_write, exec_write_commits, enlist}
use raleigh_fs.Tree.{Tree}
use raleigh_fs.Tree.Sorted.{IsOrder}
use raleigh_fs.Sset.{
  Item, insert, SsetTxn, SsetNode, Sset, is_present, new_item, new_txn, txn_add, item_tree_info,
}
use raleigh_fs.Sset.Settle.{object_commit, commit, apply, revert}
use raleigh_fs.Sset.Write.{get, insert_key, insert_new, with_value}
use raleigh_fs.Sset.Map.{quiet_node, one_node, IsMemory, Shows, put, with_memory}
use raleigh_fs.Sset.Queued.{atoms_with, Searched, searched, insert_item}
use raleigh_fs.Sset.Enqueue.{full, insert_missing, insert_present}
use raleigh_fs.Sset.Locks.{IsFresh}
use raleigh_fs.Sset.Txn.{held_node, changed, commit_written, published, rolled_back, others_read}

module _ {K V : Type 0} (compare : K → K → Ordering)
    (order : IsOrder (item_tree_info {V = V} compare)) (item_size : Item K V → ℕ) (empty : K)
    (addr fuel : ℕ) (site : Site) (nodes : ℕ → SsetNode K V) (atoms : ℕ → Option (SsetTxn K V))
    (balancing : Bool) (txn txn' : Transaction) (links links' : Links) where
  abbrev here : World (Sset K V)
  here = record {
    state = one_node empty addr nodes atoms balancing [];
    txn = some txn;
    links = links;
  }

  -- the entry, and the world after the write and before its commit
  abbrev inserting : ℕ → ℕ → K → V → SsetTxn K V
  inserting item atom k v =
      new_txn atom txn.txn_id addr insert (new_item item k (some v) false) none

  abbrev after_write : SsetTxn K V → World (Sset K V)
  after_write e = record {
    state =
        record (one_node empty addr nodes (atoms_with compare addr e atoms)
          (full compare addr nodes) []) { txnq = e ∷ [] };
    txn = some txn';
    links = links';
  }

  insert_new-inside :
      (k : K) (v : V) (item atom : ℕ)
      → add site.allocated site.now txn site.object atom links ≡ (Errno.ok, txn', links')
      → insert_new site (with_memory item atom) addr k v here
        ≡ (Errno.ok, after_write (inserting item atom k v))
  unfolding insert_new txn_add enlist
  insert_new-inside k v item atom added = rw (insert_new, added) refl

  insert_key-inside :
      (k : K) (v : V) (item atom : ℕ) (allow_update : Bool) (t : Tree (Item K V)) (size : ℕ)
      (m : K → Option V)
      → nodes addr ≡ quiet_node t size []
      → Searched compare t m k
      → (is_present (m k) && not allow_update) ≡ false
      → insert_key compare fuel site (with_memory item atom) allow_update k v here
        ≡ some (insert_new site (with_memory item atom) addr k v here)
  insert_key-inside k v item atom allow_update t size m quiet (inl (h, found)) may =
      insert_missing compare empty addr fuel site nodes atoms balancing [] links (some txn) t size
        [] quiet k allow_update (with_memory item atom) v (found size [] true)
  insert_key-inside k v item atom true t size m quiet (inr (i, old, h, at_key, found)) may =
      insert_present compare empty addr fuel site nodes atoms balancing [] links (some txn) t size
        [] quiet k true (with_memory item atom) v i old (found size [] true)
  insert_key-inside k v item atom false t size m quiet (inr (i, old, h, at_key, found)) may =
      let clash : true ≡ false = rw h at may in ground arith

  -- On a set of one node without a block, in which no key is locked: a transaction inserts, with
  -- memory at hand, a key that the map has not, or that it may update, and its list takes the atom.
  -- The insert succeeds and is committed to the set as a lock. Until the end of the
  -- transaction a get of any other client, of any key, answers as before the insert. The apply of
  -- its atom and the commit make the set show the map with the new value; its revert makes it show
  -- the map as it was.
  pub insert_in_txn :
      (k : K) (v : V) (item atom : ℕ) (allow_update : Bool) (t : Tree (Item K V)) (size : ℕ)
      (m : K → Option V) (after : Links)
      → 0 < txn.txn_id
      → nodes addr ≡ quiet_node t size []
      → IsMemory compare t m
      → IsFresh compare item t
      → (is_present (m k) && not allow_update) ≡ false
      → add site.allocated site.now txn site.object atom links ≡ (Errno.ok, txn', links')
      → (s : Sset K V) × (exec_write
            (object_commit compare item_size)
            (λ u.
              with_value {V = V} none
                (insert_key compare fuel site (with_memory item atom) allow_update k v u))
            here
          ≡ some (Errno.ok, none, record { state = s; txn = some txn'; links = links' }))
        × ((j : K) (id : ℕ) → txn.txn_id ≢ id → get compare j id s ≡ get compare j id here.state)
        × ((s1 : Sset K V) × (s2 : Sset K V) × (apply compare item_size atom s ≡ some s1)
            × (commit compare item_size s1 ≡ some s2)
            × Shows compare empty addr
                (record { state = s2; txn = none; links = after })
                (put compare k (some v) m))
        × ((s1 : Sset K V) × (revert compare item_size atom s ≡ some s1)
            × Shows compare empty addr (record { state = s1; txn = none; links = after }) m)
  unfolding object_commit
  insert_in_txn k v item atom allow_update t size m after in_txn quiet mem fresh may added =
      let e = inserting item atom k v in
      let nodes' : ℕ → SsetNode K V =
        changed compare order item_size empty addr nodes
          (held_node compare order item_size empty addr t size e []) in
      let atoms' = atoms_with compare addr e atoms in
      let held : nodes' addr ≡ held_node compare order item_size empty addr t size e [] =
        rw (==-true addr) refl in
      let at_atom : atoms' atom ≡ some e = rw (==-true atom) refl in
      let (t', size', ran, mem') = insert_item compare addr order item_size t m size item k v mem in
      let i = new_item item k (some v) false in
      (
        one_node empty addr nodes' atoms' (full compare addr nodes) [],
        exec_write_commits (object_commit compare item_size)
            (λ u.
              with_value {V = V} none
                (insert_key compare fuel site (with_memory item atom) allow_update k v u))
            here
            (ap (with_value none) (
              insert_key-inside k v item atom allow_update t size m quiet
                (searched compare order t m k mem) may
              ∙ ap some (insert_new-inside k v item atom added)))
            (rw
              (
                object_commit,
                commit_written compare order item_size empty addr atom txn.txn_id insert i in_txn
                    nodes atoms' (full compare addr nodes) t size quiet,
              )
              refl),
        λ j id other.
            others_read compare order item_size empty addr atom txn.txn_id insert i in_txn nodes'
              atoms' (full compare addr nodes) t size held nodes atoms balancing m j id quiet mem
              fresh other,
        published compare order item_size empty addr atom txn.txn_id insert i in_txn nodes' atoms'
            (full compare addr nodes) t size held t' size' after (put compare k (some v) m) at_atom
            ran mem',
        rolled_back compare order item_size empty addr atom txn.txn_id insert i in_txn nodes' atoms'
            (full compare addr nodes) t size held after m at_atom mem,
      )
