-- ===== src/Sset/Queued.antt =====
-- The writes of a sorted set outside transactions: what a search finds, what a write queues, and
-- what the commit makes of the queue.
use Prim.Native.Nat.{Ordering}
use mathlib.Core.Path.{subst}
use raleigh_fs.Common.{
  ℕ, ◌+◌, ◌%◌, ◌^◌, Bool, true, false, Option, none, some, List, [], ◌∷◌, ◌++◌, ◌==◌, ==-true,
  if◌then◌else◌, ◌≡◌, ◌⊎◌, inl, inr, refl, sym, ap, ◌∙◌,
}
use raleigh_fs.Errno.{Errno}
use raleigh_fs.Transaction.{Links}
use raleigh_fs.Object.{World, exec_write, exec_write_commits}
use raleigh_fs.Tree.{Tree, TreeInfo, lookup}
use raleigh_fs.Tree.Balance.{items}
use raleigh_fs.Tree.Sorted.{IsOrder, IsSorted, find, Ordering-cases}
use raleigh_fs.Tree.Search.{insert-IsSorted, without-IsSorted}
use raleigh_fs.Tree.Find.{at_same, find-insert, find-without}
use raleigh_fs.Tree.Remove.{detach_lem, lookup-find}
use raleigh_fs.Tree.Map.{attach_lem}
use raleigh_fs.Tree.Iter.{down0, near_floor, climb0, begin, first, seek_le}
use raleigh_fs.Sset.{
  Item, TxnType, insert, remove_key, SsetTxn, SsetNode, Sset, SsetEntry, new_item, new_txn,
  item_tree_info,
}
use raleigh_fs.Sset.Settle.{
  object_commit, commit, commit_txns, apply_dirty, apply_txns, txn_apply, apply_item, attach_nodes,
  detach_nodes,
}
use raleigh_fs.Sset.Write.{mem_search, search_data, node_lookup}
use raleigh_fs.Sset.Map.{quiet_node, one_node, outside, Stores, IsMemory, Shows, put}

module _ {K V : Type 0} where
  -- what a search answers
  abbrev pub missing : SsetEntry K V
  missing = record { found = false; txn = none; item = none; value = none }

  abbrev pub present : Item K V → V → SsetEntry K V
  present i v = record { found = true; txn = none; item = some i; value = some v }

  Stores-at_same :
      (o : Ordering) (x x' : Option (Item K V)) (y y' : Option V)
      → Stores x y
      → Stores x' y'
      → Stores (at_same o x x') (at_same o y y')
  Stores-at_same Ordering.lt x x' y y' p q = q
  Stores-at_same Ordering.eq x x' y y' p q = p
  Stores-at_same Ordering.gt x x' y y' p q = q

module _ {K V : Type 0} (compare : K → K → Ordering) where
  abbrev info : TreeInfo (Item K V) K
  info = item_tree_info compare

  pub node_lookup-one :
      (empty : K) (addr : ℕ) (k : K) (nodes : ℕ → SsetNode K V) (atoms : ℕ → Option (SsetTxn K V))
      (balancing : Bool) (dirty : List ℕ)
      → node_lookup compare k (one_node empty addr nodes atoms balancing dirty)
        ≡ some (record { addr = addr; first_key = empty })
  unfolding node_lookup seek_le near_floor climb0 begin first down0
  node_lookup-one empty addr k nodes atoms balancing dirty =
      elim (Ordering-cases (compare empty k)) [
        | inl e ↦ rw (e, near_floor) refl
        | inr (inl e) ↦ rw (e, near_floor) refl
        | inr (inr e) ↦ rw (e, near_floor) refl
      ]

  -- What a search in the node finds, for a key that the map has and for one that it has not.
  abbrev pub Searched : Tree (Item K V) → (K → Option V) → K → Type 0
  Searched t m k =
      ((m k ≡ none)
        × ((size : ℕ) (q : List (SsetTxn K V)) (stop : Bool)
            → mem_search compare (quiet_node t size q) k stop ≡ missing))
      ⊎ (i : Item K V) × (v : V) × (m k ≡ some v)
        × (find info k (items t) ≡ some i)
        × ((size : ℕ) (q : List (SsetTxn K V)) (stop : Bool)
            → mem_search compare (quiet_node t size q) k stop ≡ present i v)

  module _ (order : IsOrder (item_tree_info {V = V} compare)) where
    Searched-at :
        (t : Tree (Item K V)) (m : K → Option V) (k : K) (o : Option (Item K V))
        → lookup info k t ≡ o
        → find info k (items t) ≡ o
        → Stores o (m k)
        → Searched t m k
    unfolding mem_search search_data lookup
    Searched-at t m k none e f h = inl (h, λ size q stop. rw (e, mem_search) refl)
    Searched-at t m k (some i) e f (live, v, value, h) =
        inr (i, v, h, f, λ size q stop. rw (e, mem_search, live, value) refl)

    pub searched :
        (t : Tree (Item K V)) (m : K → Option V) (k : K) → IsMemory compare t m → Searched t m k
    searched t m k (b, s, h) =
        Searched-at t m k (find info k (items t)) (lookup-find info order k t s) refl (h k)

  -- The entry of a write outside transactions, and the heaps with it in the node's queue.
  module _ (addr : ℕ) where
    abbrev pub entry : ℕ → TxnType → Item K V → SsetTxn K V
    entry atom type item = new_txn atom 0 addr type item none

    abbrev pub nodes_with : SsetTxn K V → (ℕ → SsetNode K V) → ℕ → SsetNode K V
    nodes_with e nodes a =
        if a == addr
        then record (nodes addr) { commitq = (nodes addr).commitq ++ e ∷ [] }
        else nodes a

    abbrev pub atoms_with : SsetTxn K V → (ℕ → Option (SsetTxn K V)) → ℕ → Option (SsetTxn K V)
    atoms_with e atoms a = if a == e.atom then some e else atoms a

    pub nodes_with-quiet :
        (e : SsetTxn K V) (nodes : ℕ → SsetNode K V) (t : Tree (Item K V)) (size : ℕ)
        (q : List (SsetTxn K V))
        → nodes addr ≡ quiet_node t size q
        → nodes_with e nodes addr ≡ quiet_node t size (q ++ e ∷ [])
    nodes_with-quiet e nodes t size q h = rw (==-true addr, h) refl

    module _ (order : IsOrder (item_tree_info {V = V} compare)) (item_size : Item K V → ℕ) where
      -- An item of an insert, and one of a remove, applied to the node.
      pub insert_item :
          (t : Tree (Item K V)) (m : K → Option V) (size a : ℕ) (k : K) (v : V)
          → IsMemory compare t m
          → (t' : Tree (Item K V)) × (size' : ℕ) × (apply_item compare item_size insert
                (new_item a k (some v) false)
                (quiet_node t size [])
              ≡ some (quiet_node t' size' []))
            × IsMemory compare t' (put compare k (some v) m)
      unfolding apply_item
      insert_item t m size a k v (b, s, h) =
          let i = new_item a k (some v) false in
          let (t', ran, b', e) = attach_lem info order i t b s in
          (
            t',
            (size + item_size i) % 2 ^ 32,
            rw (apply_item, ran) refl,
            (
              b',
              subst (IsSorted info) (sym e) (insert-IsSorted info order i (items t) s),
              λ j.
                  subst (λ o. Stores o (put compare k (some v) m j))
                    (sym (ap (find info j) e ∙ find-insert info order i (items t) j))
                    (Stores-at_same (compare k j) (some i) _ (some v) _ (refl, v, refl, refl)
                      (h j)),
            ),
          )

      pub remove_item :
          (t : Tree (Item K V)) (m : K → Option V) (size a : ℕ) (k : K) (i : Item K V)
          → IsMemory compare t m
          → find info k (items t) ≡ some i
          → (t' : Tree (Item K V)) × (apply_item compare item_size remove_key
                (new_item a k none true)
                (quiet_node t size [])
              ≡ some (quiet_node t' size []))
            × IsMemory compare t' (put compare k none m)
      unfolding apply_item
      remove_item t m size a k i (b, s, h) f =
          let (t', ran, b', e) = detach_lem info order k t b s in
          (
            t',
            rw (apply_item, ran, f) refl,
            (
              b',
              subst (IsSorted info) (sym e) (without-IsSorted info order k (items t) s),
              λ j.
                  subst (λ o. Stores o (put compare k none m j))
                    (sym (ap (find info j) e ∙ find-without info order k (items t) j s))
                    (Stores-at_same (compare k j) none _ none _ refl (h j)),
            ),
          )

      -- the same at the head of the queue of a commit
      pub apply_txns-head :
          (atom : ℕ) (type : TxnType) (i : Item K V) (q : List (SsetTxn K V)) (n n' : SsetNode K V)
          → apply_item compare item_size type i n ≡ some n'
          → apply_txns compare item_size (entry atom type i ∷ q) n
            ≡ apply_txns compare item_size q n'
      unfolding apply_txns txn_apply
      apply_txns-head atom type i q n n' ran = rw (apply_txns, ran) refl

      pub IsMemory-cong :
          (t : Tree (Item K V)) (m m' : K → Option V)
          → ((k : K) → m k ≡ m' k)
          → IsMemory compare t m
          → IsMemory compare t m'
      IsMemory-cong t m m' same (b, s, h) =
          (b, s, λ k. subst (Stores (find info k (items t))) (same k) (h k))

      -- the commit of a set whose node has entries
      pub commit_queued :
          (empty : K) (nodes : ℕ → SsetNode K V) (atoms : ℕ → Option (SsetTxn K V))
          (balancing : Bool) (n n' : SsetNode K V)
          → nodes addr ≡ n
          → apply_txns compare item_size n.commitq (record n { commitq = [] }) ≡ some n'
          → commit compare item_size (one_node empty addr nodes atoms balancing (addr ∷ []))
            ≡ some (one_node empty addr (λ a. if a == addr then n' else nodes a) atoms balancing [])
      unfolding commit commit_txns apply_dirty attach_nodes detach_nodes
      commit_queued empty nodes atoms balancing n n' h ran = rw (h, commit, ran) refl

      -- A write that queues entries and succeeds is committed at once.
      pub write_committed :
          {A : Type 0} (empty : K) (nodes : ℕ → SsetNode K V) (atoms : ℕ → Option (SsetTxn K V))
          (balancing : Bool) (links : Links) (t t' : Tree (Item K V)) (size size' : ℕ)
          (q : List (SsetTxn K V)) (m : K → Option V)
          (f : World (Sset K V) → Option (Errno × A × World (Sset K V))) (w : World (Sset K V))
          (a : A)
          → f w ≡ some (Errno.ok, a, outside empty addr nodes atoms balancing (addr ∷ []) links)
          → nodes addr ≡ quiet_node t size q
          → apply_txns compare item_size q (quiet_node t size []) ≡ some (quiet_node t' size' [])
          → IsMemory compare t' m
          → (w' : World (Sset K V)) × (exec_write (object_commit compare item_size) f w
              ≡ some (Errno.ok, a, w'))
            × Shows compare empty addr w' m
      unfolding object_commit
      write_committed empty nodes atoms balancing links t t' size size' q m f w a wrote h ran mem =
          let nodes' : ℕ → SsetNode K V =
            λ a. if a == addr then quiet_node t' size' [] else nodes a in
          let done =
            commit_queued empty nodes atoms balancing (quiet_node t size q) (quiet_node t' size' [])
              h ran in
          (
            outside empty addr nodes' atoms balancing [] links,
            exec_write_commits (object_commit compare item_size) f w wrote (rw done refl),
            (nodes', atoms, balancing, links, t', size', refl, rw (==-true addr) refl, mem),
          )
