-- ===== src/Sset/Tests.antt =====
-- A sorted set of numbers, for the witnesses.
use Prim.Native.Nat.{compare}
use raleigh_fs.Common.{
  Bool, ◌++◌, ℕ, true, false, Option, none, some, List, [], ◌∷◌, ◌≡◌, ◌≢◌, refl, arith,
}
use raleigh_fs.Common.Int.{pos}
use raleigh_fs.Errno.{Errno}
use raleigh_fs.Transaction.{Links, Transaction, alloc, add, object_group}
use raleigh_fs.Object.{World, Site, exec_write}
use raleigh_fs.Tree.{Tree, leaf, node, lookup}
use raleigh_fs.Tree.Sorted.{IsOrder, find}
use raleigh_fs.Sset.{
  Item, TxnType, SsetTxn, SsetNode, NodeRef, Sset, new_item, new_txn, item_tree_info, txn_tree_info,
}
use raleigh_fs.Sset.Settle.{create, object_commit, txn_commit, apply, revert, commit}
use raleigh_fs.Sset.Write.{node_lookup, insert_key, remove, update_key, get, with_value}
use raleigh_fs.Sset.Map.{
  Answer, Call, inserting, removing, updating, getting, with_memory, serve, run, Shows, put,
  quiet_node, one_node,
}
use raleigh_fs.Sset.Calls.{Stops, run_lem}
use raleigh_fs.Sset.Locks.{holder, without_locks, locked_refused, get_isolated}
use raleigh_fs.Sset.Faults.{block_hidden, second_write_unlocks}
use raleigh_fs.Sset.Session.{insert_in_txn}

items-IsOrder : IsOrder (item_tree_info {V = ℕ} compare)
items-IsOrder = record {
  same = λ j k h. ground arith;
  self = λ k. ground arith;
  lt_gt = λ j k h. ground arith;
  gt_lt = λ j k h. ground arith;
  lt_trans = λ i j k h g. ground arith;
}

entries-IsOrder : IsOrder (txn_tree_info {V = ℕ} compare)
entries-IsOrder = record {
  same = items-IsOrder.same;
  self = items-IsOrder.self;
  lt_gt = items-IsOrder.lt_gt;
  gt_lt = items-IsOrder.gt_lt;
  lt_trans = items-IsOrder.lt_trans;
}

abbrev item_size : Item ℕ ℕ → ℕ
item_size i = 16

abbrev test_site : Site
test_site = record { object = 7; allocated = true; now = 100 }

-- a new set, with its node at 5
abbrev new_set : World (Sset ℕ ℕ)
new_set = record { state = create 0 5; txn = none; links = λ a. none }

new_set-Shows : Shows compare 0 5 new_set (λ k. none)
unfolding create find
new_set-Shows = (
  (create {V = ℕ} 0 5).nodes,
  (create {V = ℕ} 0 5).atoms,
  false,
  (λ a. none),
  leaf,
  0,
  refl,
  refl,
  (tt, tt, λ k. refl),
)

abbrev some_calls : List (Call ℕ ℕ)
some_calls =
    inserting false 3 30 (with_memory 10 11)
    ∷ inserting false 3 31 (with_memory 12 13)
    ∷ inserting true 3 32 (with_memory 14 15)
    ∷ getting 3
    ∷ updating 3 33 (with_memory 20 21) 22 23
    ∷ updating 3 34 (record { item = some 24; txn = none }) 25 26
    ∷ removing 3 (record { item = none; txn = none })
    ∷ removing 3 (with_memory 24 25)
    ∷ getting 3
    ∷ []

run_lem_example :
    (answers : List (Answer ℕ)) × (due : Bool) × (later : List (Answer ℕ)) × (run compare item_size
        0 5 9 test_site some_calls new_set
      ≡ some (answers, due))
    × (answers ++ later
        ≡ (Errno.ok, none)
          ∷ (Errno.data_key_exists, none)
          ∷ (Errno.ok, none)
          ∷ (Errno.ok, some 32)
          ∷ (Errno.ok, some 32)
          ∷ (Errno.no_memory, some 33)
          ∷ (Errno.no_memory, some 33)
          ∷ (Errno.ok, some 33)
          ∷ (Errno.data_key_not_found, none)
          ∷ [])
    × Stops due answers later
unfolding serve
run_lem_example =
    run_lem compare items-IsOrder item_size 0 5 9 test_site some_calls new_set (λ k. none)
      new_set-Shows

-- the set with the key 3, at the map with it
abbrev one_key : Tree (Item ℕ ℕ)
one_key = node leaf (new_item 10 3 (some 30) false) (pos 0) leaf

-- Transaction 9 holds key 3 of a set with one node, and what is in the node beside the lock.
abbrev lock_of_nine : SsetTxn ℕ ℕ
lock_of_nine = new_txn 11 9 5 TxnType.insert (new_item 10 3 (some 30) false) none

abbrev locked_set : Option (ℕ → Option ℕ) → Tree (Item ℕ ℕ) → Sset ℕ ℕ
locked_set block t =
    one_node 0 5
      (λ a. record (quiet_node t 0 []) {
        txn_locks = node leaf lock_of_nine (pos 0) leaf;
        block = block;
      })
      (λ a. none) false []

abbrev at_five : NodeRef ℕ
at_five = record { addr = 5; first_key = 0 }

abbrev locked_world : World (Sset ℕ ℕ)
locked_world = record { state = locked_set none leaf; txn = none; links = λ a. none }

locked_refused_example :
    (insert_key compare 9 test_site (with_memory 20 21) true 3 33 locked_world
      ≡ some (Errno.txn_locked_key, locked_world))
    × (remove compare 9 test_site (with_memory 20 21) 3 locked_world
        ≡ some (Errno.txn_locked_key, none, locked_world))
    × (update_key compare 9 test_site (with_memory 20 21) (with_memory 22 23) 3 33 locked_world
        ≡ some (Errno.txn_locked_key, none, locked_world))
unfolding node_lookup lookup
locked_refused_example =
    locked_refused compare 9 test_site (with_memory 20 21) (with_memory 22 23) true 3 33
      locked_world at_five lock_of_nine refl refl (λ e. absurd (omega arith))

-- The committed value of key 3.
abbrev old_item : Tree (Item ℕ ℕ)
old_item = node leaf (new_item 8 3 (some 29) false) (pos 0) leaf

get_isolated_example :
    get compare 3 0 (locked_set none old_item)
    ≡ get compare 3 0 (without_locks compare 5 (locked_set none old_item))
unfolding node_lookup lookup
get_isolated_example =
    get_isolated compare 3 0 (locked_set none old_item) at_five lock_of_nine refl refl
      (λ e. absurd (omega arith)) refl (refl, λ e. absurd (omega arith))

block_hidden_example :
    (get compare 3 0 (locked_set (some (λ k. some k)) leaf) ≡ some (Errno.data_key_not_found, none))
    × (get compare 3 0 (without_locks compare 5 (locked_set (some (λ k. some k)) leaf))
        ≡ some (Errno.ok, some 3))
unfolding node_lookup lookup
block_hidden_example =
    block_hidden compare 3 0 (locked_set (some (λ k. some k)) leaf) at_five lock_of_nine 3 refl refl
      (λ e. absurd (omega arith)) refl refl

-- A second write of transaction 9 on the key.
second_write_unlocks_example :
    (n : SsetNode ℕ ℕ) × (txn_commit compare item_size
        (new_txn 31 9 5 TxnType.insert (new_item 30 3 (some 31) false) (some lock_of_nine.item))
        ((locked_set none leaf).nodes 5)
      ≡ some n)
    × (holder compare 3 n ≡ none)
second_write_unlocks_example =
    second_write_unlocks compare entries-IsOrder item_size
      (new_txn 31 9 5 TxnType.insert (new_item 30 3 (some 31) false) (some lock_of_nine.item))
      lock_of_nine.item ((locked_set none leaf).nodes 5) (omega arith) refl
      (tt, tt, (refl, omega arith, omega arith)) (tt, tt)

-- Transaction 9, which has no atoms yet, and the transaction and the atoms after the insert.
abbrev nine : Transaction
nine = alloc 9 100

abbrev added : Errno × Transaction × Links
added = add true 100 nine 7 11 (λ a. none)

insert_in_txn_example :
    (s : Sset ℕ ℕ) × (exec_write
        (object_commit compare item_size)
        (λ u.
          with_value {V = ℕ} none (insert_key compare 9 test_site (with_memory 10 11) false 3 30 u))
        (record { state = new_set.state; txn = some nine; links = λ a. none })
      ≡ some (Errno.ok, none, record { state = s; txn = some added.1; links = added.2 }))
    × ((j id : ℕ) → 9 ≢ id → get compare j id s ≡ get compare j id new_set.state)
    × ((s1 : Sset ℕ ℕ) × (s2 : Sset ℕ ℕ) × (apply compare item_size 11 s ≡ some s1)
        × (commit compare item_size s1 ≡ some s2)
        × Shows compare 0 5
            (record { state = s2; txn = none; links = λ a. none })
            (put compare 3 (some 30) (λ k. none)))
    × ((s1 : Sset ℕ ℕ) × (revert compare item_size 11 s ≡ some s1)
        × Shows compare 0 5 (record { state = s1; txn = none; links = λ a. none }) (λ k. none))
unfolding create alloc find add object_group
insert_in_txn_example =
    insert_in_txn compare items-IsOrder item_size 0 5 9 test_site (create {V = ℕ} 0 5).nodes
      (create {V = ℕ} 0 5).atoms false nine added.1 (λ a. none) added.2 3 30 10 11 false leaf 0
      (λ k. none) (λ a. none) (omega arith) refl (tt, tt, λ k. refl) (λ k i e. cc) refl refl
