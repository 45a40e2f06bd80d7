-- ===== src/Sset/Enqueue.antt =====
-- Writes of a sorted set that join the queue of its node.
use Prim.Native.Nat.{Ordering}
use raleigh_fs.Common.{
  ℕ, Bool, true, false, Option, none, some, List, ◌∷◌, leb, ◌≡◌, if◌then◌else◌, refl,
}
use raleigh_fs.Errno.{Errno}
use raleigh_fs.Transaction.{Links, Transaction}
use raleigh_fs.Object.{World, Site}
use raleigh_fs.Tree.{Tree}
use raleigh_fs.Sset.{
  sync_size, Item, insert, remove_key, SsetTxn, SsetNode, Sset, SsetEntry, Allocs, drop_node,
  new_item, txn_add,
}
use raleigh_fs.Sset.Write.{
  mem_search, node_lookup, insert_key, insert_new, remove, remove_new, with_value,
}
use raleigh_fs.Sset.Map.{with_memory, quiet_node, one_node, outside}
use raleigh_fs.Sset.Queued.{missing, present, node_lookup-one, entry, nodes_with, atoms_with}

module _ {K V : Type 0} (compare : K → K → Ordering) (addr : ℕ) where
  abbrev pub full : (ℕ → SsetNode K V) → Bool
  full nodes = leb sync_size (nodes addr).bufsize

  abbrev pub inserted : ℕ → ℕ → K → V → SsetTxn K V
  inserted item txn k v = entry compare addr txn insert (new_item item k (some v) false)

  abbrev pub removed : ℕ → ℕ → K → SsetTxn K V
  removed item txn k = entry compare addr txn remove_key (new_item item k none true)

  -- the world with one more entry
  abbrev pub queued :
      K
      → (ℕ → SsetNode K V)
      → (ℕ → Option (SsetTxn K V))
      → List ℕ
      → Links
      → SsetTxn K V
      → Bool
      → World (Sset K V)
  queued empty nodes atoms dirty links e balancing =
      outside empty addr (nodes_with compare addr e nodes) (atoms_with compare addr e atoms)
        balancing (addr ∷ drop_node addr dirty) links

module _ {K V : Type 0} (compare : K → K → Ordering) (empty : K) (addr fuel : ℕ) (site : Site)
    (nodes : ℕ → SsetNode K V) (atoms : ℕ → Option (SsetTxn K V)) (balancing : Bool)
    (dirty : List ℕ) (links : Links) where
  abbrev here : World (Sset K V)
  here = outside empty addr nodes atoms balancing dirty links

  pub insert_new-queued :
      (k : K) (v : V) (item txn : ℕ)
      → insert_new site (with_memory item txn) addr k v here ≡ (
        Errno.ok,
        queued compare addr empty nodes atoms dirty links
            (inserted compare addr item txn k v)
            (full compare addr nodes),
      )
  unfolding insert_new txn_add
  insert_new-queued k v item txn = refl

  pub remove_new-queued :
      (k : K) (item txn : ℕ)
      → remove_new site (with_memory item txn) addr k here ≡ (
        Errno.ok,
        queued compare addr empty nodes atoms dirty links
            (removed compare addr item txn k)
            balancing,
      )
  unfolding remove_new txn_add
  remove_new-queued k item txn = refl

  module _ (txn : Option Transaction) (t : Tree (Item K V)) (size : ℕ) (q : List (SsetTxn K V))
      (quiet : nodes addr ≡ quiet_node t size q) where
    abbrev met : World (Sset K V)
    met = record {
      state = one_node empty addr nodes atoms balancing dirty;
      txn = txn;
      links = links;
    }

    abbrev pub Finds : K → SsetEntry K V → Type 0
    Finds k e = mem_search compare (quiet_node t size q) k true ≡ e

    one_lookup :
        (k : K) → node_lookup compare k met.state ≡ some (record { addr = addr; first_key = empty })
    one_lookup k = node_lookup-one compare empty addr k nodes atoms balancing dirty

    pub insert_missing :
        (k : K) (allow_update : Bool) (allocs : Allocs) (v : V)
        → Finds k missing
        → insert_key compare fuel site allocs allow_update k v met
          ≡ some (insert_new site allocs addr k v met)
    unfolding insert_key
    insert_missing k allow_update allocs v found = rw (one_lookup k, insert_key, quiet, found) refl

    pub insert_present :
        (k : K) (allow_update : Bool) (allocs : Allocs) (v : V) (i : Item K V) (old : V)
        → Finds k (present i old)
        → insert_key compare fuel site allocs allow_update k v met ≡ (
            if allow_update
            then some (insert_new site allocs addr k v met)
            else some (Errno.data_key_exists, met))
    unfolding insert_key
    insert_present k true allocs v i old found = rw (one_lookup k, insert_key, quiet, found) refl
    insert_present k false allocs v i old found = rw (one_lookup k, insert_key, quiet, found) refl

    pub remove_missing :
        (k : K) (allocs : Allocs)
        → Finds k missing
        → remove compare fuel site allocs k met ≡ some (Errno.data_key_not_found, none, met)
    unfolding remove
    remove_missing k allocs found = rw (one_lookup k, remove, quiet, found) refl

    pub remove_present :
        (k : K) (allocs : Allocs) (i : Item K V) (old : V)
        → Finds k (present i old)
        → remove compare fuel site allocs k met
          ≡ with_value (some old) (some (remove_new site allocs addr k met))
    unfolding remove
    remove_present k allocs i old found = rw (one_lookup k, remove, quiet, found) refl
