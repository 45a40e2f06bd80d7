-- ===== src/Tree/Remove.antt =====
-- `z_tree_node_detach`, `z_tree_node_detach_min` and `z_tree_node_lookup` on a search tree, as the
-- removal from, and the search of, the sorted list of its items.
use mathlib.Core.Path.{subst}
use mathlib.Core.List.{append-nil}
use raleigh_fs.Common.{
  ◌+◌, false, Option, none, some, List, [], ◌∷◌, ◌++◌, ◌≡◌, inl, inr, refl, sym, ap, ◌∙◌, arith,
}
use raleigh_fs.Common.Int.{ℤ}
use raleigh_fs.Tree.{Tree, leaf, node, TreeInfo, levels, lookup}
use raleigh_fs.Tree.Detach.{
  Frame, in0, in1, Found, leftmost, do_remove, descend, detach, detach_edge,
}
use raleigh_fs.Tree.Balance.{Leans, IsBalanced, items}
use raleigh_fs.Tree.Rise.{Hole, within, Rises, rise_lem}
use raleigh_fs.Tree.Sorted.{IsOrder, Ordering-cases, IsSorted, without, find, IsSorted-split}
use raleigh_fs.Tree.Search.{without-before, find-before, search_after, search_at}

module _ {A : Type 0} where
  within-append :
      (fs gs : List (Frame A)) (xs : List A) → within (fs ++ gs) xs ≡ within gs (within fs xs)
  within-append [] gs xs = refl
  within-append (in0 y b r ∷ fs) gs xs = within-append fs gs (xs ++ y ∷ items r)
  within-append (in1 l y b ∷ fs) gs xs = within-append fs gs (items l ++ y ∷ xs)

  -- The walk to the leftmost node takes `child[0]` each time.
  abbrev Lefts : List (Frame A) → Type 0
  Lefts [] = Unit
  Lefts (in0 y b r ∷ fs) = Lefts fs
  Lefts (in1 l y b ∷ fs) = ⊥

  within-cons :
      (fs : List (Frame A)) (x : A) (xs : List A) → Lefts fs → within fs (x ∷ xs) ≡ x ∷ within fs xs
  within-cons [] x xs h = refl
  within-cons (in0 y b r ∷ fs) x xs h = within-cons fs x (xs ++ y ∷ items r) h
  within-cons (in1 l y b ∷ fs) x xs h = absurd h

  leftmost-items :
      (l : Tree A) (y : A) (b : ℤ) (r : Tree A) (above : List (Frame A))
      → Lefts above
      → let s = leftmost l y b r above in
        within above (items (node l y b r)) ≡ s.item ∷ within s.stack (items s.child1)
  unfolding leftmost
  leftmost-items leaf y b r above h = within-cons above y (items r) h
  leftmost-items (node ll ly lb lr) y b r above h = leftmost-items ll ly lb lr (in0 y b r ∷ above) h

  leftmost-Hole :
      (l : Tree A) (y : A) (b : ℤ) (r : Tree A) (above below : List (Frame A))
      → IsBalanced (node l y b r)
      → Hole (above ++ below) (levels (node l y b r))
      → let s = leftmost l y b r above in
        Hole (s.stack ++ below) (levels s.child1 + 1)
        × IsBalanced s.child1
        × (s.child0 ≡ leaf)
        × Leans s.balance 0 (levels s.child1)
  unfolding leftmost levels
  leftmost-Hole leaf y b r above below h k =
      (subst (Hole (above ++ below)) (ground arith) k, h.1, refl, h.2)
  leftmost-Hole (node ll ly lb lr) y b r above below h k =
      leftmost-Hole ll ly lb lr (in0 y b r ∷ above) below h.0 (h.1, h.2, k)

  -- The node goes from the tree of the stack, which is balanced again.
  do_remove_lem :
      (l : Tree A) (y : A) (b : ℤ) (r : Tree A) (stack : List (Frame A))
      → IsBalanced (node l y b r)
      → Hole stack (levels (node l y b r))
      → Rises stack (items l ++ items r) (do_remove l b r stack)
  unfolding do_remove levels
  do_remove_lem l y b leaf stack h k =
      let (t, ran, bal, e) = rise_lem stack l (subst (Hole stack) (ground arith) k) h.0 in
      (t, ran, bal, e ∙ ap (within stack) (sym (append-nil (items l))))
  do_remove_lem l y b (node rl ry rb rr) stack h k =
      let s = leftmost rl ry rb rr [] in
      let fs = in1 l s.item b ∷ stack in
      let (hole, bal, z, lean) = leftmost-Hole rl ry rb rr [] fs h.1 (h.0, h.2, k) in
      let (t, ran, bal', e) = rise_lem (s.stack ++ fs) s.child1 hole bal in
      (
        t,
        ran,
        bal',
        e
            ∙ (within-append s.stack fs (items s.child1)
                ∙ ap (λ xs. within stack (items l ++ xs)) (sym (leftmost-items rl ry rb rr [] tt))),
      )

  edge_removed :
      (c0 : Tree A) (x : A) (b : ℤ) (c1 : Tree A) (stack : List (Frame A))
      → c0 ≡ leaf
      → Leans b 0 (levels c1)
      → IsBalanced c1
      → Hole stack (levels c1 + 1)
      → Rises stack (items c1) (do_remove c0 b c1 stack)
  unfolding levels
  edge_removed leaf x b c1 stack z lean h k =
      do_remove_lem leaf x b c1 stack (tt, h, lean) (subst (Hole stack) (ground arith) k)
  edge_removed (node l y c r) x b c1 stack z lean h k = cc

  -- `z_tree_node_detach_min` takes the first of the items out of a tree that has any, and leaves the
  -- others in a balanced tree.
  pub detach_edge_lem :
      (l : Tree A) (y : A) (b : ℤ) (r : Tree A)
      → IsBalanced (node l y b r)
      → (x : A) × (t : Tree A) × (detach_edge false (node l y b r) ≡ some (x, t))
        × IsBalanced t
        × (items (node l y b r) ≡ x ∷ items t)
  unfolding detach_edge
  detach_edge_lem l y b r h =
      let s = leftmost l y b r [] in
      let (hole, bal, z, lean) = leftmost-Hole l y b r [] [] h tt in
      let (t, ran, bal', e) =
        edge_removed s.child0 s.item s.balance s.child1 s.stack z lean bal
          (subst (λ fs. Hole fs (levels s.child1 + 1)) (append-nil s.stack) hole) in
      (
        s.item,
        t,
        rw (ran, detach_edge) refl,
        bal',
        leftmost-items l y b r [] tt ∙ ap (λ xs. s.item ∷ xs) (sym e),
      )

module _ {A K : Type 0} (info : TreeInfo A K) (order : IsOrder info) where
  open info use {key, compare}

  -- What the walk to a key finds in a subtree.
  abbrev Finds : K → Tree A → List (Frame A) → Option (Found A) → Type 0
  Finds k t stack none = (find info k (items t) ≡ none) × (without info k (items t) ≡ items t)
  Finds k t stack (some f) =
      IsBalanced (node f.child0 f.item f.balance f.child1)
      × Hole f.stack (levels (node f.child0 f.item f.balance f.child1))
      × (find info k (items t) ≡ some f.item)
      × (within f.stack (items f.child0 ++ items f.child1)
          ≡ within stack (without info k (items t)))

  Finds-child :
      (k : K) (t u : Tree A) (above stack : List (Frame A)) (o : Option (Found A))
      → find info k (items t) ≡ find info k (items u)
      → within stack (without info k (items t)) ≡ within above (without info k (items u))
      → (without info k (items u) ≡ items u → without info k (items t) ≡ items t)
      → Finds k u above o
      → Finds k t stack o
  Finds-child k t u above stack none e e' e'' h = (e ∙ h.0, e'' h.1)
  Finds-child k t u above stack (some f) e e' e'' h = (h.0, h.1, e ∙ h.2, h.3 ∙ sym e')

  descend_lem :
      (k : K) (t : Tree A) (stack : List (Frame A))
      → IsBalanced t
      → IsSorted info (items t)
      → Hole stack (levels t)
      → Finds k t stack (descend info k t stack)
  unfolding descend levels without find
  descend_lem k leaf stack b s h = (refl, refl)
  descend_lem k (node l y c r) stack b s h =
      let sides = IsSorted-split info order (items l) y (items r) s in
      elim (Ordering-cases (compare (key y) k)) [
        | inr (inl e) ↦
            let (w, f) = search_at info order k (items l) y (items r) e s in
            rw (e, descend) (b, h, f, ap (within stack) (sym w))
        | inl e ↦
            let (w, f) = search_after info order k (items l) y (items r) e s in
            let above = in1 l y c ∷ stack in
            rw (e, descend)
              (Finds-child k (node l y c r) r above stack (descend info k r above) f
                (ap (within stack) w) (λ z. w ∙ ap (λ xs. items l ++ y ∷ xs) z)
                (descend_lem k r above b.1 sides.3 (b.0, b.2, h)))
        | inr (inr e) ↦
            let w = without-before info k (items l) y (items r) e in
            let f = find-before info k (items l) y (items r) e in
            let above = in0 y c r ∷ stack in
            rw (e, descend)
              (Finds-child k (node l y c r) l above stack (descend info k l above) f
                (ap (within stack) w) (λ z. w ∙ ap (λ xs. xs ++ y ∷ items r) z)
                (descend_lem k l above b.0 sides.1 (b.1, b.2, h)))
      ]

  detach_found :
      (k : K) (t : Tree A) (o : Option (Found A))
      → descend info k t [] ≡ o
      → Finds k t [] o
      → IsBalanced t
      → (t' : Tree A) × (detach info k t ≡ some (find info k (items t), t'))
        × IsBalanced t'
        × (items t' ≡ without info k (items t))
  unfolding detach
  detach_found k t none e h b = (t, rw (e, detach, h.0) refl, b, sym h.1)
  detach_found k t (some f) e h b =
      let (t', ran, b', i) = do_remove_lem f.child0 f.item f.balance f.child1 f.stack h.0 h.1 in
      (t', rw (e, detach, ran, h.2) refl, b', i ∙ h.3)

  -- `z_tree_node_detach` answers the item of the key, or NULL, and leaves a balanced tree of the
  -- other items, in their order.
  pub detach_lem :
      (k : K) (t : Tree A)
      → IsBalanced t
      → IsSorted info (items t)
      → (t' : Tree A) × (detach info k t ≡ some (find info k (items t), t'))
        × IsBalanced t'
        × (items t' ≡ without info k (items t))
  detach_lem k t b s = detach_found k t (descend info k t []) refl (descend_lem k t [] b s tt) b

  -- `z_tree_node_lookup` finds what the list of the items has at the key.
  pub lookup-find :
      (k : K) (t : Tree A) → IsSorted info (items t) → lookup info k t ≡ find info k (items t)
  unfolding lookup find
  lookup-find k leaf s = refl
  lookup-find k (node l y c r) s =
      let sides = IsSorted-split info order (items l) y (items r) s in
      elim (Ordering-cases (compare (key y) k)) [
        | inr (inl e) ↦ rw (e, lookup) (sym (search_at info order k (items l) y (items r) e s).1)
        | inl e ↦
            rw (e, lookup)
              (lookup-find k r sides.3
                ∙ sym (search_after info order k (items l) y (items r) e s).1)
        | inr (inr e) ↦
            rw (e, lookup)
              (lookup-find k l sides.1 ∙ sym (find-before info k (items l) y (items r) e))
      ]
