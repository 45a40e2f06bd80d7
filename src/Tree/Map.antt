-- ===== src/Tree/Map.antt =====
-- A tree under any operations, as the sorted list of its items.
use mathlib.Core.Path.{subst}
use raleigh_fs.Common.{
  Bool, true, false, Option, none, some, List, [], ◌∷◌, ◌≡◌, refl, sym, ap, ◌∙◌,
}
use raleigh_fs.Tree.{
  Tree, leaf, node, TreeInfo, Place, taken, vacant, insert_lookup, attach, lookup,
}
use raleigh_fs.Tree.Detach.{detach, detach_edge}
use raleigh_fs.Tree.Balance.{IsBalanced, items}
use raleigh_fs.Tree.Sorted.{IsOrder, IsSorted, insert, without, find, IsSorted-split}
use raleigh_fs.Tree.Search.{find-before, search_after, search_at, insert-IsSorted, without-IsSorted}
use raleigh_fs.Tree.Way.{Leads, Follows, Ends, insert_lookup-Ends}
use raleigh_fs.Tree.Attach.{is_taken, attach_at, FlatBelow-Leads}
use raleigh_fs.Tree.Remove.{detach_lem, detach_edge_lem, lookup-find}

-- A call on a tree, and its answer.
pub data Call (A K : Type 0) : Type 0 where
  attaching : A → Call A K
  detaching looking : K → Call A K
  detaching_min : Call A K

pub data Answer (A : Type 0) : Type 0 where
  replaced : Bool → Answer A
  item : Option A → Answer A

abbrev pub is_some : {A : Type 0} → Option A → Bool
is_some none = false
is_some (some a) = true

module _ {A K : Type 0} (info : TreeInfo A K) where
  open info use {key, compare}

  -- A call on the tree. The least item is asked for only if there is one, as `z_task_tree_pop` does.
  unfoldable pub call_tree : Call A K → Tree A → Option (Answer A × Tree A)
  unfolding attach detach detach_edge lookup
  call_tree (attaching x) t = elim (attach info x t) [
    | none ↦ none
    | some (b, t') ↦ some (replaced b, t')
  ]
  call_tree (detaching k) t = elim (detach info k t) [
    | none ↦ none
    | some (o, t') ↦ some (item o, t')
  ]
  call_tree (looking k) t = some (item (lookup info k t), t)
  call_tree detaching_min leaf = some (item none, leaf)
  call_tree detaching_min (node l y b r) = elim (detach_edge false (node l y b r)) [
    | none ↦ none
    | some (x, t') ↦ some (item (some x), t')
  ]

  -- the same call on a sorted list
  unfoldable pub call_list : Call A K → List A → Answer A × List A
  unfolding insert without find
  call_list (attaching x) xs = (replaced (is_some (find info (key x) xs)), insert info x xs)
  call_list (detaching k) xs = (item (find info k xs), without info k xs)
  call_list (looking k) xs = (item (find info k xs), xs)
  call_list detaching_min [] = (item none, [])
  call_list detaching_min (x ∷ xs) = (item (some x), xs)

  unfoldable pub run_tree : List (Call A K) → Tree A → Option (List (Answer A) × Tree A)
  unfolding call_tree
  run_tree [] t = some ([], t)
  run_tree (c ∷ cs) t = elim (call_tree c t) [
    | none ↦ none
    | some (a, t') ↦ elim (run_tree cs t') [ none ↦ none | some (as', t'') ↦ some (a ∷ as', t'') ]
  ]

  unfoldable pub run_list : List (Call A K) → List A → List (Answer A) × List A
  unfolding call_list
  run_list [] xs = ([], xs)
  run_list (c ∷ cs) xs =
      let (a, ys) = call_list c xs in let (as', zs) = run_list cs ys in (a ∷ as', zs)

  module _ (order : IsOrder info) where
    -- A path that follows an item leads to where the search for its key goes on.
    find_along :
        (x : A) (ds : List Bool) (t p : Tree A)
        → Leads ds t p
        → Follows info x ds t
        → IsSorted info (items t)
        → (find info (key x) (items t) ≡ find info (key x) (items p)) × IsSorted info (items p)
    find_along x [] t p h w s =
        (ap (λ u. find info (key x) (items u)) h, subst (λ u. IsSorted info (items u)) h s)
    find_along x (d ∷ ds) leaf p h w s = absurd h
    find_along x (false ∷ ds) (node l y b r) p h w s =
        let sides = IsSorted-split info order (items l) y (items r) s in
        let (f, s') = find_along x ds l p h w.1 sides.1 in
        (find-before info (key x) (items l) y (items r) w.0 ∙ f, s')
    find_along x (true ∷ ds) (node l y b r) p h w s =
        let sides = IsSorted-split info order (items l) y (items r) s in
        let (f, s') = find_along x ds r p h w.1 sides.3 in
        ((search_after info order (key x) (items l) y (items r) w.0 s).1 ∙ f, s')

    replaced_at :
        (x : A) (t : Tree A) (place : Place)
        → Ends info x t place
        → IsSorted info (items t)
        → is_some (find info (key x) (items t)) ≡ is_taken place
    unfolding find
    replaced_at x t (taken ds) (l, y, b, r, leads, follows, same) s =
        let (f, s') = find_along x ds t (node l y b r) leads follows s in
        ap is_some (f ∙ (search_at info order (key x) (items l) y (items r) same s').1)
    replaced_at x t (vacant above dstack) (p, leads, follows, flat, on, c) s =
        let (f, s') = find_along x above t p leads follows s in
        let (g, s'') = find_along x dstack p leaf (FlatBelow-Leads dstack p flat) on s' in
        ap is_some (f ∙ g)

    -- `z_tree_node_attach` puts the node at its place, instead of one with its key, and says so.
    pub attach_lem :
        (x : A) (t : Tree A)
        → IsBalanced t
        → IsSorted info (items t)
        → (t' : Tree A) × (attach info x t ≡ some (is_some (find info (key x) (items t)), t'))
          × IsBalanced t'
          × (items t' ≡ insert info x (items t))
    attach_lem x t b s =
        let place = insert_lookup info x t [] [] in
        let ends = insert_lookup-Ends info x t in
        let (t', ran, b', e) = attach_at info order x t place refl ends (b, s) in
        (t', ran ∙ ap (λ z. some (z, t')) (sym (replaced_at x t place ends s)), b', e)

    -- One call, on a balanced tree of a sorted list.
    call_tree-list :
        (c : Call A K) (t : Tree A)
        → IsBalanced t
        → IsSorted info (items t)
        → let (a, ys) = call_list c (items t) in
          (t' : Tree A) × (call_tree c t ≡ some (a, t'))
          × IsBalanced t'
          × (items t' ≡ ys)
          × IsSorted info ys
    unfolding call_tree call_list
    call_tree-list (attaching x) t b s =
        let (t', ran, b', e) = attach_lem x t b s in
        (t', rw (ran, call_tree) refl, b', e, insert-IsSorted info order x (items t) s)
    call_tree-list (detaching k) t b s =
        let (t', ran, b', e) = detach_lem info order k t b s in
        (t', rw (ran, call_tree) refl, b', e, without-IsSorted info order k (items t) s)
    call_tree-list (looking k) t b s =
        (t, ap (λ z. some (item z, t)) (lookup-find info order k t s), b, refl, s)
    call_tree-list detaching_min leaf b s = (leaf, refl, tt, refl, tt)
    call_tree-list detaching_min (node l y c r) b s =
        let (x, t', ran, b', e) = detach_edge_lem l y c r b in
        subst
          (λ xs.
            let (a, ys) = call_list detaching_min xs in
            (u : Tree A) × (call_tree detaching_min (node l y c r) ≡ some (a, u))
            × IsBalanced u
            × (items u ≡ ys)
            × IsSorted info ys)
          (sym e) (t', rw (ran, call_tree) refl, b', refl, (subst (IsSorted info) e s).1)

    -- The calls on a tree, from an empty one on, all complete, and answer as the same calls on a
    -- sorted list: attach says whether it has replaced a node, detach and lookup answer the node of
    -- the key, and detach_min that of the least key. The tree is balanced after each call, and its
    -- items are those of the list.
    pub run_tree-list :
        (cs : List (Call A K)) (t : Tree A)
        → IsBalanced t
        → IsSorted info (items t)
        → let (as', ys) = run_list cs (items t) in
          (t' : Tree A) × (run_tree cs t ≡ some (as', t')) × IsBalanced t' × (items t' ≡ ys)
    unfolding run_tree run_list
    run_tree-list [] t b s = (t, refl, b, refl)
    run_tree-list (c ∷ cs) t b s =
        let (a, ys) = call_list c (items t) in
        let (u, ran, b', e, s') = call_tree-list c t b s in
        let (t', ran', b'', e') = run_tree-list cs u b' (subst (IsSorted info) (sym e) s') in
        (
          t',
          rw (ran, run_tree) (rw ran' (ap (λ zs. some (a ∷ (run_list cs zs).0, t')) e)),
          b'',
          e' ∙ ap (λ zs. (run_list cs zs).1) e,
        )
