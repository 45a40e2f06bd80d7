-- ===== src/Sset/Map.antt =====
-- A sorted set as a map from keys to values: the calls of a client outside transactions, through
-- the object scheduler, and what they do on a map.
use Prim.Native.Nat.{Ordering}
use raleigh_fs.Common.{
  ℕ, Bool, true, false, not, ◌&&◌, Option, none, some, List, [], ◌∷◌, ◌≡◌, if◌then◌else◌,
}
use raleigh_fs.Common.Int.{pos}
use raleigh_fs.Errno.{Errno, failed}
use raleigh_fs.Transaction.{Links}
use raleigh_fs.Object.{World, Site, exec_write}
use raleigh_fs.Tree.{Tree, leaf}
use raleigh_fs.Tree.Balance.{IsBalanced, items}
use raleigh_fs.Tree.Sorted.{IsSorted, find}
use raleigh_fs.Tree.Find.{at_same}
use raleigh_fs.Sset.{Item, SsetTxn, SsetNode, Sset, Allocs, is_present, item_tree_info}
use raleigh_fs.Sset.Settle.{object_commit}
use raleigh_fs.Sset.Write.{insert_key, remove, update_key, get, with_value}

-- A client's calls, with the addresses that the system has for them, if it has. The insert of an
-- update gets its memory.
pub data Call (K V : Type 0) : Type 0 where
  inserting : (allow_update : Bool) → K → V → Allocs → Call K V
  removing : K → Allocs → Call K V
  updating : K → V → Allocs → (item' txn' : ℕ) → Call K V
  getting : K → Call K V

abbrev pub with_memory : ℕ → ℕ → Allocs
with_memory item txn = record { item = some item; txn = some txn }

abbrev pub has_memory : Allocs → Bool
has_memory allocs = is_present allocs.item && is_present allocs.txn

-- A code and a value
abbrev pub Answer : Type 0 → Type 0
Answer V = Errno × Option V

-- Does the task of a call, once it is complete, schedule a balance of the set?
abbrev pub balance_due : {K V : Type 0} → Call K V → Errno → World (Sset K V) → Bool
balance_due (getting k) e w = false
balance_due (inserting allow_update k v allocs) e w = not (failed e) && w.state.requires_balancing
balance_due (removing k allocs) e w = not (failed e) && w.state.requires_balancing
balance_due (updating k v allocs item' txn') e w = not (failed e) && w.state.requires_balancing

module _ {K V : Type 0} (compare : K → K → Ordering) where
  abbrev pub put : K → Option V → (K → Option V) → K → Option V
  put k o m j = at_same (compare k j) o (m j)

  -- A call on a map.
  unfoldable pub serve_call : Call K V → (K → Option V) → Answer V × (K → Option V)
  serve_call (inserting allow_update k v allocs) m =
      if is_present (m k) && not allow_update
      then ((Errno.data_key_exists, none), m)
      else if has_memory allocs
      then ((Errno.ok, none), put k (some v) m)
      else ((Errno.no_memory, none), m)
  serve_call (removing k allocs) m = elim (m k) [
    | none ↦ ((Errno.data_key_not_found, none), m)
    | some v ↦
        if has_memory allocs
        then ((Errno.ok, some v), put k none m)
        else ((Errno.no_memory, some v), m)
  ]
  serve_call (updating k v allocs item' txn') m = elim (m k) [
    | none ↦ ((Errno.data_key_not_found, none), m)
    | some old ↦
        if has_memory allocs
        then ((Errno.ok, some old), put k (some v) m)
        else ((Errno.no_memory, some old), m)
  ]
  serve_call (getting k) m = elim (m k) [
    | none ↦ ((Errno.data_key_not_found, none), m)
    | some v ↦ ((Errno.ok, some v), m)
  ]

  unfoldable pub serve : List (Call K V) → (K → Option V) → List (Answer V)
  unfolding serve_call
  serve [] m = []
  serve (c ∷ cs) m = let (answer, m') = serve_call c m in answer ∷ serve cs m'

  module _ (item_size : Item K V → ℕ) (empty : K) (addr : ℕ) (fuel : ℕ) (site : Site) where
    -- The same call on the sorted set. A write goes through the scheduler, which commits the set.
    unfoldable pub run_call :
        Call K V → World (Sset K V) → Option (Errno × Option V × World (Sset K V))
    unfolding exec_write object_commit insert_key remove update_key get
    run_call (inserting allow_update k v allocs) w =
        exec_write (object_commit compare item_size)
          (λ u. with_value none (insert_key compare fuel site allocs allow_update k v u)) w
    run_call (removing k allocs) w =
        exec_write (object_commit compare item_size) (remove compare fuel site allocs k) w
    run_call (updating k v allocs item' txn') w =
        exec_write (object_commit compare item_size)
          (update_key compare fuel site allocs (with_memory item' txn') k v) w
    run_call (getting k) w = elim (get compare k 0 w.state) [
      | none ↦ none
      | some (e, o) ↦ some (e, o, w)
    ]

    -- Calls one after the other, up to the first whose commit has a balance of the set scheduled, with
    -- whether there was one: from then on the balance may take its turn at any time.
    unfoldable pub run : List (Call K V) → World (Sset K V) → Option (List (Answer V) × Bool)
    unfolding run_call
    run [] w = some ([], false)
    run (c ∷ cs) w = elim (run_call c w) [
      | none ↦ none
      | some (e, o, w') ↦
          let later = run cs w' in
          if balance_due c e w'
          then some ((e, o) ∷ [], true)
          else elim later [ none ↦ none | some (answers, due) ↦ some ((e, o) ∷ answers, due) ]
    ]

-- The node of a set that has not been balanced, with no transaction on it.
abbrev pub quiet_node : {K V : Type 0} → Tree (Item K V) → ℕ → List (SsetTxn K V) → SsetNode K V
quiet_node t size commitq = record {
  mem_data = t;
  txn_locks = leaf;
  block = none;
  commitq = commitq;
  bufsize = size;
}

module _ {K V : Type 0} (empty : K) (addr : ℕ) where
  -- The set with that node, and a world of it outside transactions. The dirty nodes have writes to
  -- commit.
  abbrev pub one_node : (ℕ → SsetNode K V) → (ℕ → Option (SsetTxn K V)) → Bool → List ℕ → Sset K V
  one_node nodes atoms balancing dirty = record {
    root = Tree.node leaf (record { addr = addr; first_key = empty }) (pos 0) leaf;
    nodes = nodes;
    atoms = atoms;
    txnq = [];
    dirtyq = dirty;
    rm_nodes = [];
    add_nodes = [];
    requires_balancing = balancing;
  }

  abbrev pub outside :
      (ℕ → SsetNode K V) → (ℕ → Option (SsetTxn K V)) → Bool → List ℕ → Links → World (Sset K V)
  outside nodes atoms balancing dirty links = record {
    state = one_node nodes atoms balancing dirty;
    txn = none;
    links = links;
  }

module _ {K V : Type 0} where
  -- what the memory has for a key, and its value
  abbrev pub Stores : Option (Item K V) → Option V → Type 0
  Stores none o = o ≡ none
  Stores (some i) o = (i.is_delete_marker ≡ false) × (v : V) × (i.value ≡ some v) × (o ≡ some v)

module _ {K V : Type 0} (compare : K → K → Ordering) where
  -- A balanced and sorted tree of the items that the map has.
  abbrev pub IsMemory : Tree (Item K V) → (K → Option V) → Type 0
  IsMemory t m =
      IsBalanced t
      × IsSorted (item_tree_info compare) (items t)
      × ((k : K) → Stores (find (item_tree_info compare) k (items t)) (m k))

  -- The world of a set at rest, whose memory is the map.
  abbrev pub Shows : K → ℕ → World (Sset K V) → (K → Option V) → Type 0
  Shows empty addr w m =
      (nodes : ℕ → SsetNode K V) × (atoms : ℕ → Option (SsetTxn K V)) × (balancing : Bool)
      × (links : Links) × (t : Tree (Item K V)) × (size : ℕ) × (w
          ≡ outside empty addr nodes atoms balancing [] links)
      × (nodes addr ≡ quiet_node t size [])
      × IsMemory t m
