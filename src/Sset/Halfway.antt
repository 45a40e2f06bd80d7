-- ===== src/Sset/Halfway.antt =====
-- An update of a key of a sorted set that runs out of memory between its remove and its insert.
use Prim.Native.Nat.{Ordering}
use raleigh_fs.Common.{ℕ, Bool, Option, none, List, [], ◌∷◌, ◌≡◌}
use raleigh_fs.Errno.{Errno}
use raleigh_fs.Transaction.{Links}
use raleigh_fs.Object.{World, Site}
use raleigh_fs.Tree.{Tree}
use raleigh_fs.Tree.Sorted.{IsOrder}
use raleigh_fs.Sset.{Item, SsetTxn, SsetNode, Sset, Allocs, item_tree_info}
use raleigh_fs.Sset.Write.{mem_search}
use raleigh_fs.Sset.Map.{quiet_node, outside, IsMemory}
use raleigh_fs.Sset.Queued.{present, nodes_with, atoms_with}
use raleigh_fs.Sset.Enqueue.{removed}

module _ {K V : Type 0} (compare : K → K → Ordering)
    (order : IsOrder (item_tree_info {V = V} compare)) (item_size : Item K V → ℕ) (empty : K)
    (addr fuel : ℕ) (site : Site) (nodes : ℕ → SsetNode K V) (atoms : ℕ → Option (SsetTxn K V))
    (balancing : Bool) (links : Links) (t : Tree (Item K V)) (size : ℕ) (m : K → Option V)
    (quiet : nodes addr ≡ quiet_node t size []) (mem : IsMemory compare t m) where
  abbrev here : World (Sset K V)
  here = outside empty addr nodes atoms balancing [] links

  -- the world that the update leaves: its remove waits in the node
  abbrev halfway : K → ℕ → ℕ → World (Sset K V)
  halfway k item txn =
      let e = removed compare addr item txn k in
      outside empty addr (nodes_with compare addr e nodes) (atoms_with compare addr e atoms)
        balancing (addr ∷ []) links

  abbrev no_item : Option ℕ → Allocs
  no_item txn' = record { item = none; txn = txn' }

  abbrev Found : K → Item K V → V → Type 0
  Found k i old =
      (size : ℕ) (q : List (SsetTxn K V)) (stop : Bool)
      → mem_search compare (quiet_node t size q) k stop ≡ present i old
