-- ===== src/Sset/Single.antt =====
-- An insert, a remove and a get of a sorted set outside transactions.
use Prim.Native.Nat.{Ordering}
use raleigh_fs.Common.{
  ℕ, Bool, true, false, Option, none, some, [], ◌∷◌, if◌then◌else◌, ◌≡◌, inl, inr, refl, ap,
}
use raleigh_fs.Errno.{Errno, failed}
use raleigh_fs.Transaction.{Links}
use raleigh_fs.Object.{World, Site, exec_write, dont_commit}
use raleigh_fs.Tree.{Tree}
use raleigh_fs.Tree.Balance.{items}
use raleigh_fs.Tree.Sorted.{IsOrder, find}
use raleigh_fs.Sset.{Item, SsetTxn, SsetNode, Sset, Allocs, txn_add, item_tree_info}
use raleigh_fs.Sset.Settle.{object_commit, apply_txns}
use raleigh_fs.Sset.Write.{insert_key, insert_new, remove, remove_new, get, with_value}
use raleigh_fs.Sset.Map.{
  has_memory, Call, inserting, removing, getting, put, serve_call, run_call, quiet_node, outside,
  IsMemory, Shows,
}
use raleigh_fs.Sset.Queued.{
  node_lookup-one, Searched, nodes_with, atoms_with, nodes_with-quiet, insert_item, remove_item,
  apply_txns-head, write_committed,
}
use raleigh_fs.Sset.Enqueue.{
  full, inserted, removed, queued, insert_missing, insert_present, remove_missing, remove_present,
}

module _ {K V : Type 0} (compare : K → K → Ordering)
    (order : IsOrder (item_tree_info {V = V} compare)) (item_size : Item K V → ℕ) (empty : K)
    (addr fuel : ℕ) (site : Site) where
  -- A call done at rest: the answer and the map after it.
  abbrev pub Done : Call K V → World (Sset K V) → (K → Option V) → Type 0
  Done c w m =
      let (answer, m') = serve_call compare c m in
      (w' : World (Sset K V)) × (run_call compare item_size empty addr fuel site c w
        ≡ some (answer.0, answer.1, w'))
      × Shows compare empty addr w' m'

  module _ (nodes : ℕ → SsetNode K V) (atoms : ℕ → Option (SsetTxn K V)) (balancing : Bool)
      (links : Links) (t : Tree (Item K V)) (size : ℕ) (m : K → Option V)
      (quiet : nodes addr ≡ quiet_node t size []) (mem : IsMemory compare t m) where
    abbrev pub here : World (Sset K V)
    here = outside empty addr nodes atoms balancing [] links

    -- a call that leaves the set as it was, but for `requires_balancing`
    rests : (b : Bool) → Shows compare empty addr (outside empty addr nodes atoms b [] links) m
    rests b = (nodes, atoms, b, links, t, size, refl, quiet, mem)

    abbrev pub Now : Call K V → Type 0
    Now c = Done c here m

    -- what a search finds in the node at rest
    abbrev pub Finding : K → Type 0
    Finding k = Searched compare t m k

    pub getting_done : (k : K) → Finding k → Now (getting k)
    unfolding run_call serve_call get
    getting_done k (inl (h, found)) = (
      here,
      rw
          (
            run_call,
            node_lookup-one compare empty addr k nodes atoms balancing [],
            quiet,
            found size [] false,
            serve_call,
            h,
          )
          refl,
      rw (serve_call, h) (rests balancing),
    )
    getting_done k (inr (i, v, h, f, found)) = (
      here,
      rw
          (
            run_call,
            node_lookup-one compare empty addr k nodes atoms balancing [],
            quiet,
            found size [] false,
            serve_call,
            h,
          )
          refl,
      rw (serve_call, h) (rests balancing),
    )

    -- a write that queues an insert, and one that queues a remove, committed
    insert_committed :
        (item txn : ℕ) (k : K) (v : V)
        (f : World (Sset K V) → Option (Errno × Option V × World (Sset K V))) (o : Option V)
        → f here
          ≡ some (
            Errno.ok,
            o,
            queued compare addr empty nodes atoms [] links
                (inserted compare addr item txn k v)
                (full compare addr nodes),
          )
        → (w' : World (Sset K V)) × (exec_write (object_commit compare item_size) f here
            ≡ some (Errno.ok, o, w'))
          × Shows compare empty addr w' (put compare k (some v) m)
    unfolding apply_txns
    insert_committed item txn k v f o wrote =
        let e = inserted compare addr item txn k v in
        let (t', size', ran, mem') =
          insert_item compare addr order item_size t m size item k v mem in
        write_committed compare addr order item_size empty (nodes_with compare addr e nodes)
          (atoms_with compare addr e atoms) (full compare addr nodes) links t t' size size' (e ∷ [])
          (put compare k (some v) m) f here o wrote
          (nodes_with-quiet compare addr e nodes t size [] quiet)
          (apply_txns-head compare addr order item_size txn e.type e.item [] _ _ ran) mem'

    remove_committed :
        (item txn : ℕ) (k : K) (i : Item K V)
        (f : World (Sset K V) → Option (Errno × Option V × World (Sset K V))) (o : Option V)
        → find (item_tree_info compare) k (items t) ≡ some i
        → f here
          ≡ some (
            Errno.ok,
            o,
            queued compare addr empty nodes atoms [] links
                (removed compare addr item txn k)
                balancing,
          )
        → (w' : World (Sset K V)) × (exec_write (object_commit compare item_size) f here
            ≡ some (Errno.ok, o, w'))
          × Shows compare empty addr w' (put compare k none m)
    unfolding apply_txns
    remove_committed item txn k i f o at_key wrote =
        let e = removed compare addr item txn k in
        let (t', ran, mem') =
          remove_item compare addr order item_size t m size item k i mem at_key in
        write_committed compare addr order item_size empty (nodes_with compare addr e nodes)
          (atoms_with compare addr e atoms) balancing links t t' size size (e ∷ [])
          (put compare k none m) f here o wrote
          (nodes_with-quiet compare addr e nodes t size [] quiet)
          (apply_txns-head compare addr order item_size txn e.type e.item [] _ _ ran) mem'

    -- a write that is refused
    pub write_refused :
        (f : World (Sset K V) → Option (Errno × Option V × World (Sset K V))) (e : Errno)
        (o : Option V) (b : Bool)
        → failed e ≡ true
        → f here ≡ some (e, o, outside empty addr nodes atoms b [] links)
        → (w' : World (Sset K V)) × (exec_write (object_commit compare item_size) f here
            ≡ some (e, o, w'))
          × Shows compare empty addr w' m
    unfolding exec_write dont_commit
    write_refused f e o b refused wrote =
        (outside empty addr nodes atoms b [] links, rw (exec_write, wrote, refused) refl, rests b)

    abbrev Ends : Call K V → Bool → Errno → Option V → (K → Option V) → Type 0
    Ends c memory e o m' =
        (w' : World (Sset K V)) × (run_call compare item_size empty addr fuel site c here
          ≡ some ((if memory then e else Errno.no_memory), o, w'))
        × Shows compare empty addr w' (if memory then m' else m)

    -- the write functions of the calls
    abbrev Write : Type 0
    Write = World (Sset K V) → Option (Errno × Option V × World (Sset K V))

    abbrev insert_write : Bool → K → V → Option ℕ → Option ℕ → Write
    insert_write allow_update k v item txn w =
        with_value none
          (insert_key compare fuel site (record { item = item; txn = txn }) allow_update k v w)

    abbrev remove_write : K → Option ℕ → Option ℕ → Write
    remove_write k item txn w = remove compare fuel site (record { item = item; txn = txn }) k w

    insert_goes :
        (allow_update : Bool) (k : K) (v : V) (item txn : Option ℕ)
        → let allocs : Allocs = record { item = item; txn = txn } in
          insert_key compare fuel site allocs allow_update k v here
            ≡ some (insert_new site allocs addr k v here)
          → Ends
              (inserting allow_update k v allocs)
              (has_memory allocs)
              Errno.ok
              none
              (put compare k (some v) m)
    unfolding run_call insert_new txn_add
    insert_goes allow_update k v none txn wrote =
        write_refused (insert_write allow_update k v none txn) Errno.no_memory none balancing refl
          (ap (with_value none) wrote)
    insert_goes allow_update k v (some item) none wrote =
        write_refused (insert_write allow_update k v (some item) none) Errno.no_memory none
          (full compare addr nodes) refl (ap (with_value none) wrote)
    insert_goes allow_update k v (some item) (some txn) wrote =
        insert_committed item txn k v (insert_write allow_update k v (some item) (some txn)) none
          (ap (with_value none) wrote)

    remove_goes :
        (k : K) (item txn : Option ℕ) (i : Item K V) (old : V)
        → find (item_tree_info compare) k (items t) ≡ some i
        → let allocs : Allocs = record { item = item; txn = txn } in
          remove compare fuel site allocs k here
            ≡ with_value (some old) (some (remove_new site allocs addr k here))
          → Ends (removing k allocs) (has_memory allocs) Errno.ok (some old) (put compare k none m)
    unfolding run_call remove_new txn_add
    remove_goes k none txn i old at_key wrote =
        write_refused (remove_write k none txn) Errno.no_memory (some old) balancing refl wrote
    remove_goes k (some item) none i old at_key wrote =
        write_refused (remove_write k (some item) none) Errno.no_memory (some old) balancing refl
          wrote
    remove_goes k (some item) (some txn) i old at_key wrote =
        remove_committed item txn k i (remove_write k (some item) (some txn)) (some old) at_key
          wrote

    -- an answer of the calls that need memory
    served :
        (c : Call K V) (memory : Bool) (e : Errno) (o : Option V) (m' : K → Option V)
        → serve_call compare c m ≡ (if memory then ((e, o), m') else ((Errno.no_memory, o), m))
        → Ends c memory e o m'
        → Now c
    served c true e o m' h (w', ran, shows) = (w', rw h ran, rw h shows)
    served c false e o m' h (w', ran, shows) = (w', rw h ran, rw h shows)

    pub inserting_done :
        (allow_update : Bool) (k : K) (v : V) (item txn : Option ℕ)
        → Finding k
        → Now (inserting allow_update k v (record { item = item; txn = txn }))
    unfolding serve_call run_call exec_write dont_commit
    inserting_done allow_update k v item txn (inl (h, found)) =
        let allocs : Allocs = record { item = item; txn = txn } in
        served (inserting allow_update k v allocs) (has_memory allocs) Errno.ok none
          (put compare k (some v) m) (rw (serve_call, h) refl)
          (insert_goes allow_update k v item txn (
            insert_missing compare empty addr fuel site nodes atoms balancing [] links none t size
              [] quiet k allow_update allocs v (found size [] true)))
    inserting_done true k v item txn (inr (i, old, h, at_key, found)) =
        let allocs : Allocs = record { item = item; txn = txn } in
        served (inserting true k v allocs) (has_memory allocs) Errno.ok none
          (put compare k (some v) m) (rw (serve_call, h) refl)
          (insert_goes true k v item txn (
            insert_present compare empty addr fuel site nodes atoms balancing [] links none t size
              [] quiet k true allocs v i old (found size [] true)))
    inserting_done false k v item txn (inr (i, old, h, at_key, found)) =
        let allocs : Allocs = record { item = item; txn = txn } in
        let (w', ran, shows) =
          write_refused (insert_write false k v item txn) Errno.data_key_exists none balancing refl
            (ap (with_value none) (
              insert_present compare empty addr fuel site nodes atoms balancing [] links none t size
                [] quiet k false allocs v i old (found size [] true))) in
        (w', rw (serve_call, h) ran, rw (serve_call, h) shows)

    pub removing_done :
        (k : K) (item txn : Option ℕ)
        → Finding k
        → Now (removing k (record { item = item; txn = txn }))
    unfolding serve_call run_call
    removing_done k item txn (inl (h, found)) =
        let (w', ran, shows) =
          write_refused (remove_write k item txn) Errno.data_key_not_found none balancing refl (
            remove_missing compare empty addr fuel site nodes atoms balancing [] links none t size
              [] quiet k (record { item = item; txn = txn }) (found size [] true)) in
        (w', rw (serve_call, h) ran, rw (serve_call, h) shows)
    removing_done k item txn (inr (i, old, h, at_key, found)) =
        let allocs : Allocs = record { item = item; txn = txn } in
        served (removing k allocs) (has_memory allocs) Errno.ok (some old) (put compare k none m)
          (rw (serve_call, h) refl)
          (remove_goes k item txn i old at_key (
            remove_present compare empty addr fuel site nodes atoms balancing [] links none t size
              [] quiet k allocs i old (found size [] true)))
