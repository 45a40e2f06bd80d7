-- ===== src/Tree/Attach.antt =====
-- `z_tree_node_attach` and `z_tree_node_lookup` on a search tree, as the insertion in, and the
-- search of, the sorted list of its items.
use mathlib.Core.Path.{subst}
use raleigh_fs.Common.{
  Bool, true, false, Option, some, List, [], ◌∷◌, ◌++◌, ◌≡◌, inl, inr, refl, sym, ap, ◌∙◌,
}
use raleigh_fs.Tree.{
  Tree, leaf, node, TreeInfo, levels, update_at, replace_item, lean, insert_fix, do_insert, Place,
  taken, vacant, insert_lookup, attach,
}
use raleigh_fs.Tree.Balance.{IsBalanced, items}
use raleigh_fs.Tree.Lean.{Flat, FlatBelow, insert_fix-lean}
use raleigh_fs.Tree.Sorted.{
  IsOrder, IsSorted, insert, IsSorted-split, insert-before, insert-after, insert-instead,
}
use raleigh_fs.Tree.Way.{Leads, Follows, Ends}

abbrev pub is_taken : Place → Bool
is_taken (taken ds) = true
is_taken (vacant above dstack) = false

module _ {A : Type 0} where
  pub IsBalanced-Leads :
      (ds : List Bool) (t p : Tree A) → Leads ds t p → IsBalanced t → IsBalanced p
  IsBalanced-Leads [] t p h b = subst IsBalanced h b
  IsBalanced-Leads (d ∷ ds) leaf p h b = absurd h
  IsBalanced-Leads (false ∷ ds) (node l y c r) p h b = IsBalanced-Leads ds l p h b.0
  IsBalanced-Leads (true ∷ ds) (node l y c r) p h b = IsBalanced-Leads ds r p h b.1

  Flat-Leads : (ds : List Bool) (p : Tree A) → Flat ds p → Leads ds p leaf
  Flat-Leads [] leaf f = refl
  Flat-Leads [] (node l y b r) f = absurd f
  Flat-Leads (d ∷ ds) leaf f = f
  Flat-Leads (false ∷ ds) (node l y b r) f = Flat-Leads ds l f.1
  Flat-Leads (true ∷ ds) (node l y b r) f = Flat-Leads ds r f.1

  pub FlatBelow-Leads : (ds : List Bool) (p : Tree A) → FlatBelow ds p → Leads ds p leaf
  FlatBelow-Leads [] leaf f = refl
  FlatBelow-Leads [] (node l y b r) f = absurd f
  FlatBelow-Leads (d ∷ ds) leaf f = f
  FlatBelow-Leads (false ∷ ds) (node l y b r) f = Flat-Leads ds l f
  FlatBelow-Leads (true ∷ ds) (node l y b r) f = Flat-Leads ds r f

module _ {A K : Type 0} (info : TreeInfo A K) (order : IsOrder info) where
  open info use {key, compare}

  -- A search tree: balanced, and its items sorted.
  abbrev pub IsSearchTree : Tree A → Type 0
  IsSearchTree t = IsBalanced t × IsSorted info (items t)

  -- A change at the end of a path that follows an item, which puts it there and keeps the levels
  -- (or stands at the root), puts it in the tree.
  update_at_lem :
      (x : A) (ds : List Bool) (f : Tree A → Option (Tree A)) (t p p' : Tree A)
      → Leads ds t p
      → f p ≡ some p'
      → Follows info x ds t
      → IsBalanced t
      → IsSorted info (items t)
      → IsBalanced p'
      → levels p' ≡ levels p
      → (IsSorted info (items p) → items p' ≡ insert info x (items p))
      → (t' : Tree A) × (update_at ds f t ≡ some t')
        × IsBalanced t'
        × (levels t' ≡ levels t)
        × (items t' ≡ insert info x (items t))
  unfolding update_at levels
  update_at_lem x [] f t p p' h e w b s b' n k =
      (p', rw h e, b', n ∙ ap levels (sym h), rw h (k (subst (λ u. IsSorted info (items u)) h s)))
  update_at_lem x (d ∷ ds) f leaf p p' h e w b s b' n k = absurd h
  update_at_lem x (false ∷ ds) f (node l y c r) p p' h e w b s b' n k =
      let sides = IsSorted-split info order (items l) y (items r) s in
      let (l', ran, bl, nl, kl) = update_at_lem x ds f l p p' h e w.1 b.0 sides.1 b' n k in
      (
        node l' y c r,
        rw (ran, update_at) refl,
        (bl, b.1, rw nl b.2),
        rw nl refl,
        ap (λ zs. zs ++ y ∷ items r) kl
            ∙ sym (insert-before info order x (items l) y (items r) w.0),
      )
  update_at_lem x (true ∷ ds) f (node l y c r) p p' h e w b s b' n k =
      let sides = IsSorted-split info order (items l) y (items r) s in
      let (r', ran, br, nr, kr) = update_at_lem x ds f r p p' h e w.1 b.1 sides.3 b' n k in
      (
        node l y c r',
        rw (ran, update_at) refl,
        (b.0, br, rw nr b.2),
        rw nr refl,
        ap (λ zs. items l ++ y ∷ zs) kr
            ∙ sym (insert-after info order x (items l) y (items r) w.0 s),
      )

  -- The new node goes where the sorted list has it.
  items-lean :
      (x : A) (ds : List Bool) (p : Tree A)
      → Follows info x ds p
      → Leads ds p leaf
      → IsSorted info (items p)
      → items (lean ds x p) ≡ insert info x (items p)
  unfolding lean insert
  items-lean x [] leaf w h s = refl
  items-lean x [] (node l y b r) w h s = cc
  items-lean x (d ∷ ds) leaf w h s = absurd h
  items-lean x (false ∷ ds) (node l y b r) w h s =
      let sides = IsSorted-split info order (items l) y (items r) s in
      ap (λ zs. zs ++ y ∷ items r) (items-lean x ds l w.1 h sides.1)
      ∙ sym (insert-before info order x (items l) y (items r) w.0)
  items-lean x (true ∷ ds) (node l y b r) w h s =
      let sides = IsSorted-split info order (items l) y (items r) s in
      ap (λ zs. items l ++ y ∷ zs) (items-lean x ds r w.1 h sides.3)
      ∙ sym (insert-after info order x (items l) y (items r) w.0 s)

  at_root :
      (x : A) (t : Tree A) (above dstack : List Bool) (p p' : Tree A)
      → Leads above t p
      → above ≡ []
      → insert_fix (lean dstack x p) ≡ some p'
      → IsBalanced p'
      → items p' ≡ insert info x (items p)
      → (t' : Tree A) × (do_insert above dstack x t ≡ some t')
        × IsBalanced t'
        × (items t' ≡ insert info x (items t))
  unfolding do_insert update_at
  at_root x t [] dstack p p' h e fixed b k = (p', rw h fixed, b, rw h k)
  at_root x t (d ∷ ds) dstack p p' h e fixed b k = cc

  -- the change of `__do_insert` at the parent that the lookup has found
  do_insert_lem :
      (x : A) (t : Tree A) (above dstack : List Bool)
      → Ends info x t (vacant above dstack)
      → IsSearchTree t
      → (t' : Tree A) × (do_insert above dstack x t ≡ some t')
        × IsBalanced t'
        × (items t' ≡ insert info x (items t))
  unfolding do_insert update_at
  do_insert_lem x t above dstack (p, leads, follows, flat, on, c) (bal, s) =
      let (p', fixed, bal', kept, height) =
        insert_fix-lean dstack x p flat (IsBalanced-Leads above t p leads bal) in
      let at : IsSorted info (items p) → items p' ≡ insert info x (items p) =
        λ sp. kept ∙ items-lean x dstack p on (FlatBelow-Leads dstack p flat) sp in
      elim height [
        | inl n ↦
            let (t', ran, b', m, k) =
              update_at_lem x above (λ q. insert_fix (lean dstack x q)) t p p' leads fixed follows
                bal s bal' n at in
            (t', ran, b', k)
        | inr z ↦ elim c [
          | inr n ↦ absurd (n z)
          | inl e ↦
              at_root x t above dstack p p' leads e fixed bal' (at (below above t p leads e s))
        ]
      ]
    where
      below :
          (above : List Bool) (t p : Tree A)
          → Leads above t p
          → above ≡ []
          → IsSorted info (items t)
          → IsSorted info (items p)
      below [] t p h e s = subst (λ u. IsSorted info (items u)) h s
      below (d ∷ ds) t p h e s = cc

  pub attach_at :
      (x : A) (t : Tree A) (place : Place)
      → insert_lookup info x t [] [] ≡ place
      → Ends info x t place
      → IsSearchTree t
      → (t' : Tree A) × (attach info x t ≡ some (is_taken place, t'))
        × IsBalanced t'
        × (items t' ≡ insert info x (items t))
  unfolding attach levels
  attach_at x t (taken ds) e (l, y, b, r, leads, follows, same) (bal, s) =
      let (t', ran, b', n, k) =
        update_at_lem x ds (replace_item x) t (node l y b r) (node l x b r) leads refl follows bal s
          (IsBalanced-Leads ds t (node l y b r) leads bal) refl
          (λ s'. sym (insert-instead info order x (items l) y (items r) same s')) in
      (t', rw (e, attach, ran) refl, b', k)
  attach_at x t (vacant above dstack) e ends tree =
      let (t', ran, b', k) = do_insert_lem x t above dstack ends tree in
      (t', rw (e, attach, ran) refl, b', k)
