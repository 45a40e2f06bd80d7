-- ===== src/Sset/Calls.antt =====
-- Outside transactions a sorted set is a map.
use Prim.Native.Nat.{Ordering}
use mathlib.Core.Path.{subst}
use raleigh_fs.Common.{
  ℕ, Bool, true, false, Option, none, some, List, [], ◌∷◌, ◌≡◌, inl, inr, refl, ◌∙◌, ◌++◌, length,
  ◌≤◌, Bool-cases, sym, ap, arith,
}
use raleigh_fs.Errno.{Errno}
use raleigh_fs.Transaction.{Links}
use raleigh_fs.Object.{World, Site}
use raleigh_fs.Tree.{Tree}
use raleigh_fs.Tree.Balance.{items}
use raleigh_fs.Tree.Sorted.{IsOrder, find}
use raleigh_fs.Sset.{Item, SsetTxn, SsetNode, Sset, Allocs, txn_add, item_tree_info}
use raleigh_fs.Sset.Settle.{apply_txns}
use raleigh_fs.Sset.Write.{mem_search, remove_new, update_key}
use raleigh_fs.Sset.Map.{
  Answer, balance_due, has_memory, Call, inserting, removing, updating, getting, with_memory, put,
  serve_call, serve, run_call, run, quiet_node, outside, IsMemory, Shows,
}
use raleigh_fs.Sset.Queued.{
  Searched, searched, present, nodes_with, atoms_with, nodes_with-quiet, insert_item, remove_item,
  apply_txns-head, IsMemory-cong, write_committed,
}
use raleigh_fs.Sset.Single.{Done, getting_done, write_refused, inserting_done, removing_done}
use raleigh_fs.Sset.Update.{updated, put-put}
use raleigh_fs.Sset.Enqueue.{full, inserted, removed, remove_missing, remove_present}

module _ {V : Type 0} where
  -- How far a run has come: to its end, or past one call at least, to a balance.
  abbrev pub Stops : Bool → List (Answer V) → List (Answer V) → Type 0
  Stops true answers later = 1 ≤ length answers
  Stops false answers later = later ≡ []

module _ {K V : Type 0} (compare : K → K → Ordering)
    (order : IsOrder (item_tree_info {V = V} compare)) (item_size : Item K V → ℕ) (empty : K)
    (addr fuel : ℕ) (site : Site) where
  module _ (nodes : ℕ → SsetNode K V) (atoms : ℕ → Option (SsetTxn K V)) (balancing : Bool)
      (links : Links) (t : Tree (Item K V)) (size : ℕ) (m : K → Option V)
      (quiet : nodes addr ≡ quiet_node t size []) (mem : IsMemory compare t m) where
    abbrev here : World (Sset K V)
    here = outside empty addr nodes atoms balancing [] links

    abbrev Now : Call K V → Type 0
    Now c = Done compare order item_size empty addr fuel site c here m

    -- an update of a key that is there, with memory, and one whose remove has none
    update_committed :
        (k : K) (v : V) (item txn item' txn' : ℕ) (i : Item K V) (old : V)
        → m k ≡ some old
        → find (item_tree_info compare) k (items t) ≡ some i
        → ((size : ℕ) (q : List (SsetTxn K V)) (stop : Bool)
            → mem_search compare (quiet_node t size q) k stop ≡ present i old)
        → Now (updating k v (with_memory item txn) item' txn')
    unfolding serve_call run_call update_key apply_txns
    update_committed k v item txn item' txn' i old h at_key found =
        let e = removed compare addr item txn k in
        let e' = inserted compare addr item' txn' k v in
        let nodes' = nodes_with compare addr e nodes in
        let (t1, ran1, mem1) =
          remove_item compare addr order item_size t m size item k i mem at_key in
        let (t2, size', ran2, mem2) =
          insert_item compare addr order item_size t1 (put compare k none m) size item' k v mem1 in
        let (w', ran, shows) =
          write_committed compare addr order item_size empty (nodes_with compare addr e' nodes')
            (atoms_with compare addr e' (atoms_with compare addr e atoms))
            (full compare addr nodes') links t t2 size size' (e ∷ e' ∷ [])
            (put compare k (some v) m)
            (update_key compare fuel site (with_memory item txn) (with_memory item' txn') k v) here
            (some old)
            (updated compare empty addr fuel site nodes atoms balancing links t size quiet k v item
              txn item' txn' i old found)
            (nodes_with-quiet compare addr e' nodes' t size (e ∷ [])
              (nodes_with-quiet compare addr e nodes t size [] quiet))
            (apply_txns-head compare addr order item_size txn e.type e.item (e' ∷ []) _ _ ran1
              ∙ apply_txns-head compare addr order item_size txn' e'.type e'.item [] _ _ ran2)
            (IsMemory-cong compare addr order item_size t2 _ _ (put-put compare m k v) mem2) in
        (w', rw (serve_call, h) ran, rw (serve_call, h) shows)

    update_refused :
        (k : K) (v : V) (allocs : Allocs) (item' txn' : ℕ) (i : Item K V) (old : V)
        → m k ≡ some old
        → has_memory allocs ≡ false
        → ((size : ℕ) (q : List (SsetTxn K V)) (stop : Bool)
            → mem_search compare (quiet_node t size q) k stop ≡ present i old)
        → remove_new site allocs addr k here ≡ (Errno.no_memory, here)
        → Now (updating k v allocs item' txn')
    unfolding serve_call run_call update_key
    update_refused k v allocs item' txn' i old h short found failing =
        let (w', ran, shows) =
          write_refused compare order item_size empty addr fuel site nodes atoms balancing links t
            size m quiet mem (update_key compare fuel site allocs (with_memory item' txn') k v)
            Errno.no_memory (some old) balancing refl
            (rw
              (
                remove_present compare empty addr fuel site nodes atoms balancing [] links none t
                    size [] quiet k allocs i old (found size [] true),
                update_key,
                failing,
              )
              refl) in
        (w', rw (serve_call, h, short) ran, rw (serve_call, h, short) shows)

    updating_done :
        (k : K) (v : V) (item txn : Option ℕ) (item' txn' : ℕ)
        → Searched compare t m k
        → Now (updating k v (record { item = item; txn = txn }) item' txn')
    unfolding serve_call run_call update_key remove_new txn_add
    updating_done k v item txn item' txn' (inl (h, found)) =
        let allocs : Allocs = record { item = item; txn = txn } in
        let (w', ran, shows) =
          write_refused compare order item_size empty addr fuel site nodes atoms balancing links t
            size m quiet mem (update_key compare fuel site allocs (with_memory item' txn') k v)
            Errno.data_key_not_found none balancing refl
            (rw
              (
                remove_missing compare empty addr fuel site nodes atoms balancing [] links none t
                    size [] quiet k allocs (found size [] true),
                update_key,
              )
              refl) in
        (w', rw (serve_call, h) ran, rw (serve_call, h) shows)
    updating_done k v none txn item' txn' (inr (i, old, h, at_key, found)) =
        update_refused k v (record { item = none; txn = txn }) item' txn' i old h refl found refl
    updating_done k v (some item) none item' txn' (inr (i, old, h, at_key, found)) =
        update_refused k v (record { item = some item; txn = none }) item' txn' i old h refl found
          refl
    updating_done k v (some item) (some txn) item' txn' (inr (i, old, h, at_key, found)) =
        update_committed k v item txn item' txn' i old h at_key found

    call_done : (c : Call K V) → Now c
    call_done (inserting allow_update k v allocs) =
        inserting_done compare order item_size empty addr fuel site nodes atoms balancing links t
          size m quiet mem allow_update k v allocs.item allocs.txn
          (searched compare order t m k mem)
    call_done (removing k allocs) =
        removing_done compare order item_size empty addr fuel site nodes atoms balancing links t
          size m quiet mem k allocs.item allocs.txn (searched compare order t m k mem)
    call_done (updating k v allocs item' txn') =
        updating_done k v allocs.item allocs.txn item' txn' (searched compare order t m k mem)
    call_done (getting k) =
        getting_done compare order item_size empty addr fuel site nodes atoms balancing links t size
          m quiet mem k (searched compare order t m k mem)

  abbrev Serves : List (Call K V) → World (Sset K V) → List (Answer V) → Type 0
  Serves cs w served =
      (answers : List (Answer V)) × (due : Bool) × (later : List (Answer V)) × (run compare
          item_size empty addr fuel site cs w
        ≡ some (answers, due))
      × (answers ++ later ≡ served)
      × Stops due answers later

  one_served :
      (c : Call K V) (cs : List (Call K V)) (w w' : World (Sset K V)) (answer : Answer V)
      (served : List (Answer V))
      → run_call compare item_size empty addr fuel site c w ≡ some (answer.0, answer.1, w')
      → Serves cs w' served
      → Serves (c ∷ cs) w (answer ∷ served)
  unfolding run
  one_served c cs w w' (e, o) served ran (answers, due, later, rest, same, stops) =
      elim (Bool-cases (balance_due c e w')) [
        | inl now ↦ ((e, o) ∷ [], true, served, rw (run, ran, now) refl, refl, omega arith)
        | inr none_ ↦ (
          (e, o) ∷ answers,
          due,
          later,
          rw (run, ran, none_, rest) refl,
          ap (λ l. (e, o) ∷ l) same,
          more due stops,
        )
      ]
    where
      more : (d : Bool) → Stops d answers later → Stops d ((e, o) ∷ answers) later
      more true h = omega arith
      more false h = h

  -- In any sequence of calls outside transactions on a sorted set of one node without a block, every
  -- call returns, up to the end or to the first call whose commit has a balance of the set
  -- scheduled, and the codes and the values are those of a map: an insert of a key that is there
  -- without leave to update, and a remove, an update or a get of one that is not, are refused, and
  -- where memory runs out within an insert, a remove or the remove of an update nothing changes. The
  -- insert of an update has its memory.
  pub run_lem :
      (cs : List (Call K V)) (w : World (Sset K V)) (m : K → Option V)
      → Shows compare empty addr w m
      → (answers : List (Answer V)) × (due : Bool) × (later : List (Answer V)) × (run compare
            item_size empty addr fuel site cs w
          ≡ some (answers, due))
        × (answers ++ later ≡ serve compare cs m)
        × Stops due answers later
  unfolding run serve
  run_lem [] w m shows = ([], false, [], refl, refl, refl)
  run_lem (c ∷ cs) w m (nodes, atoms, balancing, links, t, size, same, quiet, mem) =
      let (w', ran, shows) = call_done nodes atoms balancing links t size m quiet mem c in
      let (answer, m') = serve_call compare c m in
      subst (λ u. Serves (c ∷ cs) u (serve compare (c ∷ cs) m)) (sym same)
        (one_served c cs (outside empty addr nodes atoms balancing [] links) w' answer
          (serve compare cs m') ran (run_lem cs w' m' shows))
