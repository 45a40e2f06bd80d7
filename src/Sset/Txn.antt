-- ===== src/Sset/Txn.antt =====
-- A transaction that writes a key of a sorted set, from the write to its end.
use Prim.Native.Nat.{Ordering}
use raleigh_fs.Common.{
  ℕ, ◌<◌, Bool, true, false, Option, none, some, List, [], ◌∷◌, ◌==◌, ==-true, ltb, if◌then◌else◌,
  ◌≡◌, ◌≢◌, inl, inr, refl, sym, ap, ◌∙◌, arith,
}
use raleigh_fs.Common.Int.{pos}
use raleigh_fs.Transaction.{Links}
use raleigh_fs.Tree.{Tree, leaf, node, attach, lean, lookup}
use raleigh_fs.Tree.Detach.{detach}
use raleigh_fs.Tree.Balance.{items}
use raleigh_fs.Tree.Sorted.{IsOrder, find, Ordering-cases}
use raleigh_fs.Tree.Remove.{lookup-find}
use raleigh_fs.Sset.{
  Item, TxnType, SsetTxn, SsetNode, Sset, new_txn, item_tree_info, txn_tree_info, queue_commit,
}
use raleigh_fs.Sset.Settle.{
  commit, commit_txns, txn_commit, apply, revert, apply_dirty, apply_txns, txn_apply, apply_item,
  txn_detach, on_node, txn_detach_lem, attach_nodes, detach_nodes,
}
use raleigh_fs.Sset.Write.{search_data, mem_search, get, get_entry}
use raleigh_fs.Sset.Map.{quiet_node, one_node, Stores, IsMemory, Shows}
use raleigh_fs.Sset.Queued.{node_lookup-one, nodes_with, commit_queued}
use raleigh_fs.Sset.Locks.{IsFresh, mem_search-holder, mem_search-free, IsCommitted, searched_same}

module _ {K V : Type 0} (compare : K → K → Ordering)
    (order : IsOrder (item_tree_info {V = V} compare)) (item_size : Item K V → ℕ) (empty : K)
    (addr : ℕ) where
  -- the node with one lock
  abbrev pub held_node : Tree (Item K V) → ℕ → SsetTxn K V → List (SsetTxn K V) → SsetNode K V
  held_node t size e q = record (quiet_node t size q) { txn_locks = node leaf e (pos 0) leaf }

  abbrev pub changed : (ℕ → SsetNode K V) → SsetNode K V → ℕ → SsetNode K V
  changed nodes n a = if a == addr then n else nodes a

  module _ (atom id : ℕ) (type : TxnType) (item : Item K V) (in_txn : 0 < id) where
    -- the entry of the write, and the set that it is in after the write and after its commit
    abbrev written_entry : SsetTxn K V
    written_entry = new_txn atom id addr type item none

    locked :
        (t : Tree (Item K V)) (size : ℕ)
        → txn_commit compare item_size written_entry (quiet_node t size [])
          ≡ some (held_node t size written_entry [])
    unfolding txn_commit attach lean
    locked t size = let held : ltb 0 id ≡ true = ground arith in rw (held, txn_commit) refl

    pub commit_written :
        (nodes : ℕ → SsetNode K V) (atoms : ℕ → Option (SsetTxn K V)) (balancing : Bool)
        (t : Tree (Item K V)) (size : ℕ)
        → nodes addr ≡ quiet_node t size []
        → commit compare item_size
            (record (one_node empty addr nodes atoms balancing []) { txnq = written_entry ∷ [] })
          ≡ some (
              one_node empty addr
                (changed nodes (held_node t size written_entry []))
                atoms
                balancing
                [])
    unfolding commit commit_txns apply_dirty attach_nodes detach_nodes
    commit_written nodes atoms balancing t size quiet = rw (commit, quiet, locked t size) refl

    detach_one :
        detach (txn_tree_info compare) item.key (node leaf written_entry (pos 0) leaf)
        ≡ some (some written_entry, leaf)
    unfolding detach
    detach_one = rw (order.self item.key, detach) refl

    unlocked :
        (t : Tree (Item K V)) (size : ℕ) (q : List (SsetTxn K V))
        → txn_detach compare item_size item.key (held_node t size written_entry q)
          ≡ some (quiet_node t size q)
    unlocked t size q =
        txn_detach_lem compare item_size item.key (held_node t size written_entry q) _ leaf
          detach_one

    applied :
        (t t' : Tree (Item K V)) (size size' : ℕ)
        → apply_item compare item_size type item (quiet_node t size [])
          ≡ some (quiet_node t' size' [])
        → apply_txns compare item_size (written_entry ∷ []) (held_node t size written_entry [])
          ≡ some (quiet_node t' size' [])
    unfolding apply_txns txn_apply
    applied t t' size size' ran =
        let held : ltb 0 id ≡ true = ground arith in
        rw (apply_txns, held, unlocked t size [], ran) refl

    IsCommitted-entry :
        (o : Option (Item K V)) (v : Option V)
        → Stores o v
        → ((i : Item K V) → o ≡ some i → i.addr ≢ item.addr)
        → IsCommitted compare written_entry o
    IsCommitted-entry none v h fresh = tt
    IsCommitted-entry (some i) v h fresh = (h.0, fresh i refl)

    -- what another client finds beside the lock
    found_beside :
        (t : Tree (Item K V)) (size : ℕ) (m : K → Option V) (j : K) (id' : ℕ)
        → IsMemory compare t m
        → IsFresh compare item.addr t
        → id ≢ id'
        → get_entry id' (mem_search compare (held_node t size written_entry []) j false)
          ≡ get_entry id' (mem_search compare (quiet_node t size []) j false)
    unfolding lookup search_data
    found_beside t size m j id' mem fresh other =
        let n = held_node t size written_entry [] in
        let plain =
          ap (get_entry id') (sym (mem_search-free compare j (quiet_node t size []) refl)) in
        elim (Ordering-cases (compare item.key j)) [
          | inl e ↦ ap (get_entry id') (mem_search-free compare j n (rw (e, lookup) refl)) ∙ plain
          | inr (inr e) ↦
              ap (get_entry id') (mem_search-free compare j n (rw (e, lookup) refl)) ∙ plain
          | inr (inl e) ↦
              let committed =
                IsCommitted-entry (find (item_tree_info compare) j (items t)) (m j) (mem.2 j)
                  (fresh j) in
              ap (get_entry id')
                (mem_search-holder compare j n written_entry (rw (e, lookup) refl)).1
              ∙ (searched_same compare j n written_entry (find (item_tree_info compare) j (items t))
                    id' (lookup-find (item_tree_info compare) order j t mem.1) other refl committed
                  ∙ plain)
        ]

    module _ (nodes : ℕ → SsetNode K V) (atoms : ℕ → Option (SsetTxn K V)) (balancing : Bool)
        (t : Tree (Item K V)) (size : ℕ)
        (held : nodes addr ≡ held_node t size written_entry []) where
      abbrev held_set : Sset K V
      held_set = one_node empty addr nodes atoms balancing []

      -- the end of the transaction, either way
      pub published :
          (t' : Tree (Item K V)) (size' : ℕ) (links : Links) (m' : K → Option V)
          → atoms atom ≡ some written_entry
          → apply_item compare item_size type item (quiet_node t size [])
            ≡ some (quiet_node t' size' [])
          → IsMemory compare t' m'
          → (s : Sset K V) × (s' : Sset K V) × (apply compare item_size atom held_set ≡ some s)
            × (commit compare item_size s ≡ some s')
            × Shows compare empty addr (record { state = s'; txn = none; links = links }) m'
      unfolding apply
      published t' size' links m' at_atom ran mem = (
        queue_commit written_entry held_set,
        one_node empty addr
            (changed (nodes_with compare addr written_entry nodes) (quiet_node t' size' [])) atoms
            balancing [],
        rw (apply, at_atom) refl,
        commit_queued compare addr order item_size empty
            (nodes_with compare addr written_entry nodes) atoms balancing
            (held_node t size written_entry (written_entry ∷ [])) (quiet_node t' size' [])
            (rw (==-true addr, held) refl) (applied t t' size size' ran),
        (
          changed (nodes_with compare addr written_entry nodes) (quiet_node t' size' []),
          atoms,
          balancing,
          links,
          t',
          size',
          refl,
          rw (==-true addr) refl,
          mem,
        ),
      )

      pub rolled_back :
          (links : Links) (m : K → Option V)
          → atoms atom ≡ some written_entry
          → IsMemory compare t m
          → (s : Sset K V) × (revert compare item_size atom held_set ≡ some s)
            × Shows compare empty addr (record { state = s; txn = none; links = links }) m
      unfolding revert
      rolled_back links m at_atom mem = (
        one_node empty addr (changed nodes (quiet_node t size [])) atoms balancing [],
        rw (revert, at_atom, on_node, held, unlocked t size []) refl,
        (
          changed nodes (quiet_node t size []),
          atoms,
          balancing,
          links,
          t,
          size,
          refl,
          rw (==-true addr) refl,
          mem,
        ),
      )

      -- what the others read, against the set before the write
      pub others_read :
          (before : ℕ → SsetNode K V) (atoms' : ℕ → Option (SsetTxn K V)) (balancing' : Bool)
          (m : K → Option V) (j : K) (id' : ℕ)
          → before addr ≡ quiet_node t size []
          → IsMemory compare t m
          → IsFresh compare item.addr t
          → id ≢ id'
          → get compare j id' held_set
            ≡ get compare j id' (one_node empty addr before atoms' balancing' [])
      unfolding get
      others_read before atoms' balancing' m j id' quiet mem fresh other =
          rw
            (
              get,
              node_lookup-one compare empty addr j nodes atoms balancing [],
              node_lookup-one compare empty addr j before atoms' balancing' [],
              held,
              quiet,
            )
            (ap some (found_beside t size m j id' mem fresh other))
