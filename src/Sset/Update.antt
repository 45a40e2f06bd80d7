-- ===== src/Sset/Update.antt =====
-- The update of a key of a sorted set: a remove and an insert in the queue of its node.
use Prim.Native.Nat.{Ordering}
use raleigh_fs.Common.{
  ℕ, Bool, true, Option, none, some, List, [], ◌∷◌, ==-true, ◌≡◌, inl, inr, refl, ap, ◌∙◌,
}
use raleigh_fs.Errno.{Errno}
use raleigh_fs.Transaction.{Links}
use raleigh_fs.Object.{World, Site}
use raleigh_fs.Tree.{Tree}
use raleigh_fs.Tree.Sorted.{Ordering-cases}
use raleigh_fs.Sset.{drop_node, Item, SsetTxn, SsetNode, Sset}
use raleigh_fs.Sset.Write.{mem_search, update_key, with_value}
use raleigh_fs.Sset.Map.{with_memory, put, quiet_node, outside}
use raleigh_fs.Sset.Queued.{present, nodes_with, atoms_with, nodes_with-quiet}
use raleigh_fs.Sset.Enqueue.{
  full, inserted, removed, insert_present, remove_present, insert_new-queued, remove_new-queued,
}

module _ {K V : Type 0} (compare : K → K → Ordering) (m : K → Option V) where
  pub put-put :
      (k : K) (v : V) (j : K)
      → put compare k (some v) (put compare k none m) j ≡ put compare k (some v) m j
  put-put k v j = elim (Ordering-cases (compare k j)) [
    | inl e ↦ rw e refl
    | inr (inl e) ↦ rw e refl
    | inr (inr e) ↦ rw e refl
  ]

module _ {K V : Type 0} (compare : K → K → Ordering) (empty : K) (addr fuel : ℕ) (site : Site)
    (nodes : ℕ → SsetNode K V) (atoms : ℕ → Option (SsetTxn K V)) (balancing : Bool) (links : Links)
    (t : Tree (Item K V)) (size : ℕ) (quiet : nodes addr ≡ quiet_node t size []) where
  abbrev here : World (Sset K V)
  here = outside empty addr nodes atoms balancing [] links

  dirty_once : addr ∷ drop_node addr (addr ∷ []) ≡ addr ∷ []
  dirty_once = rw (==-true addr) refl

  -- an update: the entries of its remove and of its insert
  pub updated :
      (k : K) (v : V) (item txn item' txn' : ℕ) (i : Item K V) (old : V)
      → ((size' : ℕ) (q : List (SsetTxn K V)) (stop : Bool)
          → mem_search compare (quiet_node t size' q) k stop ≡ present i old)
      → let e = removed compare addr item txn k in
        let e' = inserted compare addr item' txn' k v in
        let nodes' = nodes_with compare addr e nodes in
        update_key compare fuel site (with_memory item txn) (with_memory item' txn') k v here
        ≡ some (
          Errno.ok,
          some old,
          outside empty addr
              (nodes_with compare addr e' nodes')
              (atoms_with compare addr e' (atoms_with compare addr e atoms))
              (full compare addr nodes')
              (addr ∷ [])
              links,
        )
  unfolding update_key
  updated k v item txn item' txn' i old found =
      let e = removed compare addr item txn k in
      let nodes' = nodes_with compare addr e nodes in
      let atoms' = atoms_with compare addr e atoms in
      rw
        (
          remove_present compare empty addr fuel site nodes atoms balancing [] links none t size []
              quiet k (with_memory item txn) i old (found size [] true),
          update_key,
          remove_new-queued compare empty addr fuel site nodes atoms balancing [] links k item txn,
        )
        (ap (with_value (some old)) (
            insert_present compare empty addr fuel site nodes' atoms' balancing (addr ∷ []) links
              none t size (e ∷ []) (nodes_with-quiet compare addr e nodes t size [] quiet) k true
              (with_memory item' txn') v i old (found size (e ∷ []) true)
            ∙ ap some (
                insert_new-queued compare empty addr fuel site nodes' atoms' balancing (addr ∷ [])
                  links k v item' txn'))
          ∙ ap
              (λ dirty. some (
                Errno.ok,
                some old,
                outside empty addr
                    (nodes_with compare addr (inserted compare addr item' txn' k v) nodes')
                    (atoms_with compare addr (inserted compare addr item' txn' k v) atoms')
                    (full compare addr nodes') dirty links,
              ))
              dirty_once)
