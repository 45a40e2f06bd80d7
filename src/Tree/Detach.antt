-- ===== src/Tree/Detach.antt =====
-- `z_tree_node_detach`: __avl_detach, __avl_detach_edge and __do_remove of tree-avl.c.
--
-- A stack of nodes with the directions taken is the list of its frames, the innermost first.
use Prim.Native.Nat.{Ordering}
use raleigh_fs.Common.{Bool, true, false, Option, none, some, List, [], ◌∷◌, ◌++◌, if◌then◌else◌}
use raleigh_fs.Common.Int.{ℤ, pos, negsuc, ◌+ℤ◌, eq_ℤ}
use raleigh_fs.Tree.{Tree, leaf, node, TreeInfo, double0, double1}

-- An entry of the stacks of nodes: a node without the child that was taken, 0 or 1.
pub data Frame (A : Type 0) : Type 0 where
  in0 : (item : A) (balance : ℤ) (child1 : Tree A) → Frame A
  in1 : (child0 : Tree A) (item : A) (balance : ℤ) → Frame A

-- a node of a tree without its children
pub record Found (A : Type 0) : Type 0 where
  pub stack : List (Frame A)
  pub child0 : Tree A
  pub item : A
  pub balance : ℤ
  pub child1 : Tree A

module _ {A : Type 0} where
  -- the rotations of `__do_remove`, and whether the loop ends there
  unfoldable pub remove_fix1 : Tree A → A → Tree A → Option (Bool × Tree A)
  unfolding double1
  remove_fix1 l y leaf = none
  remove_fix1 l y (node xl x b xr) =
      if eq_ℤ b (negsuc 0)
      then elim (double1 l y xl x xr) [ none ↦ none | some t ↦ some (false, t) ]
      else if eq_ℤ b (pos 0)
      then some (true, node (node l y (pos 1) xl) x (negsuc 0) xr)
      else some (false, node (node l y (pos 0) xl) x (pos 0) xr)

  unfoldable pub remove_fix0 : Tree A → A → Tree A → Option (Bool × Tree A)
  unfolding double0
  remove_fix0 leaf y r = none
  remove_fix0 (node xl x b xr) y r =
      if eq_ℤ b (pos 1)
      then elim (double0 xl x xr y r) [ none ↦ none | some t ↦ some (false, t) ]
      else if eq_ℤ b (pos 0)
      then some (true, node xl x (pos 1) (node xr y (negsuc 0) r))
      else some (false, node xl x (pos 0) (node xr y (pos 0) r))

  -- the body of the loop of `__do_remove`, for a node whose child 0, or child 1, has lost a level
  unfoldable pub remove_step0 : Tree A → A → ℤ → Tree A → Option (Bool × Tree A)
  unfolding remove_fix1
  remove_step0 l y b r =
      let b' = b +ℤ pos 1 in
      if eq_ℤ b' (pos 1)
      then some (true, node l y b' r)
      else if eq_ℤ b' (pos 2)
      then remove_fix1 l y r
      else some (false, node l y b' r)

  unfoldable pub remove_step1 : Tree A → A → ℤ → Tree A → Option (Bool × Tree A)
  unfolding remove_fix0
  remove_step1 l y b r =
      let b' = b +ℤ negsuc 0 in
      if eq_ℤ b' (negsuc 0)
      then some (true, node l y b' r)
      else if eq_ℤ b' (negsuc 1)
      then remove_fix0 l y r
      else some (false, node l y b' r)

  abbrev pub remove_step : Frame A → Tree A → Option (Bool × Tree A)
  remove_step (in0 y b r) t = remove_step0 t y b r
  remove_step (in1 l y b) t = remove_step1 l y b t

  -- a subtree in the node of a frame, and in the tree of a stack
  abbrev pub refill : Frame A → Tree A → Tree A
  refill (in0 y b r) t = node t y b r
  refill (in1 l y b) t = node l y b t

  unfoldable pub plug : List (Frame A) → Tree A → Tree A
  plug [] t = t
  plug (f ∷ fs) t = plug fs (refill f t)

  -- `while (--k > 0)`
  unfoldable pub rise : List (Frame A) → Tree A → Option (Tree A)
  unfolding plug
  rise [] t = some t
  rise (f ∷ fs) t = elim (remove_step f t) [
    | none ↦ none
    | some (true, t') ↦ some (plug fs t')
    | some (false, t') ↦ rise fs t'
  ]

  -- the walk to the node without a `child[0]`, which takes the place of the removed one, or is the
  -- one that is detached
  unfoldable pub leftmost : Tree A → A → ℤ → Tree A → List (Frame A) → Found A
  leftmost leaf y b r above = record {
    stack = above;
    child0 = leaf;
    item = y;
    balance = b;
    child1 = r;
  }
  leftmost (node ll ly lb lr) y b r above = leftmost ll ly lb lr (in0 y b r ∷ above)

  -- `__do_remove`
  unfoldable pub do_remove : Tree A → ℤ → Tree A → List (Frame A) → Option (Tree A)
  unfolding rise leftmost
  do_remove l b leaf stack = rise stack l
  do_remove l b (node rl ry rb rr) stack =
      let s = leftmost rl ry rb rr [] in rise (s.stack ++ in1 l s.item b ∷ stack) s.child1

module _ {A K : Type 0} (info : TreeInfo A K) where
  open info use {key, compare}

  -- the loop of `__avl_detach`
  unfoldable pub descend : K → Tree A → List (Frame A) → Option (Found A)
  descend k leaf stack = none
  descend k (node l y b r) stack = elim (compare (key y) k) [
    | Ordering.eq ↦ some (record { stack = stack; child0 = l; item = y; balance = b; child1 = r })
    | Ordering.lt ↦ descend k r (in1 l y b ∷ stack)
    | Ordering.gt ↦ descend k l (in0 y b r ∷ stack)
  ]

  -- `__avl_detach`: the node detached, if there is one, and the tree
  unfoldable pub detach : K → Tree A → Option (Option A × Tree A)
  unfolding descend do_remove
  detach k t = elim (descend k t []) [
    | none ↦ some (none, t)
    | some f ↦ elim (do_remove f.child0 f.balance f.child1 f.stack) [
      | none ↦ none
      | some t' ↦ some (some f.item, t')
    ]
  ]

module _ {A : Type 0} where
  -- `__avl_detach_edge` at edge 0. At edge 1 the code reads `child[1]` of the pointer to the root,
  -- which is not there; so it does at edge 0 in an empty tree.
  unfoldable pub detach_edge : Bool → Tree A → Option (A × Tree A)
  unfolding leftmost do_remove
  detach_edge true t = none
  detach_edge false leaf = none
  detach_edge false (node l y b r) =
      let p = leftmost l y b r [] in
      elim (do_remove p.child0 p.balance p.child1 p.stack) [
        | none ↦ none
        | some t' ↦ some (p.item, t')
      ]
