-- ===== src/Tree.antt =====
-- src/zcl/tools/tree/tree.c and tree-avl.c: balanced search trees of nodes with two children and a
-- balance: the lookup and the attach. Detach and the iterators are in the children.
--
-- An item stands for the structure around a `z_tree_node_t`, with its address. A path is the list
-- of the children taken, `true` for `child[1]`. Reading through NULL is `none`.
pub mod Detach
pub mod Balance
pub mod Lean
pub mod Sorted
pub mod Way
pub mod Attach
pub mod Rise
pub mod Search
pub mod Find
pub mod Remove
pub mod Map
pub mod Height
pub mod Iter
pub mod Scan
pub mod Seek
mod Tests
use Prim.Native.Nat.{Ordering}
use raleigh_fs.Common.{
  ℕ, zero, suc, ◌+◌, Bool, true, false, Option, none, some, List, [], ◌∷◌, ◌++◌, ltb, if◌then◌else◌,
}
use raleigh_fs.Common.Int.{ℤ, pos, negsuc, ◌+ℤ◌, eq_ℤ}

-- `struct z_tree_node`
pub data Tree (A : Type 0) : Type 0 where
  leaf : Tree A
  node : (child0 : Tree A) (item : A) (balance : ℤ) (child1 : Tree A) → Tree A

-- `struct z_tree_info`: the two comparisons compare the keys of the items.
pub record TreeInfo (A K : Type 0) : Type 0 where
  pub key : A → K
  pub compare : K → K → Ordering

-- What `__do_insert_lookup` finds: the node with the key, or the way to `parent` and the `dstack`.
pub data Place : Type 0 where
  taken : List Bool → Place
  vacant : List Bool → List Bool → Place

-- `z_max`
abbrev pub max : ℕ → ℕ → ℕ
max a b = if ltb a b then b else a

-- the balances of `x` and of its parent after the child `w` of `x` has risen over both, where `x`
-- is `child[0]` of the parent, and where it is `child[1]`
abbrev pub settled0 : ℤ → ℤ × ℤ
settled0 (negsuc zero) = (pos 0, pos 1)
settled0 (pos zero) = (pos 0, pos 0)
settled0 _ = (negsuc 0, pos 0)

abbrev pub settled1 : ℤ → ℤ × ℤ
settled1 (pos (suc zero)) = (pos 0, negsuc 0)
settled1 (pos zero) = (pos 0, pos 0)
settled1 _ = (pos 1, pos 0)

module _ {A : Type 0} where
  -- `z_tree_node_levels`
  unfoldable pub levels : Tree A → ℕ
  levels leaf = 0
  levels (node l x b r) = 1 + max (levels l) (levels r)

  -- A node's child is changed through the path to it.
  unfoldable pub update_at : List Bool → (Tree A → Option (Tree A)) → Tree A → Option (Tree A)
  update_at [] f t = f t
  update_at (d ∷ ds) f leaf = none
  update_at (false ∷ ds) f (node l x b r) = elim (update_at ds f l) [
    | none ↦ none
    | some l' ↦ some (node l' x b r)
  ]
  update_at (true ∷ ds) f (node l x b r) = elim (update_at ds f r) [
    | none ↦ none
    | some r' ↦ some (node l x b r')
  ]

  -- the new node takes the place of another one
  abbrev pub replace_item : A → Tree A → Option (Tree A)
  replace_item x leaf = none
  replace_item x (node l y b r) = some (node l x b r)

  -- the loop of `__do_insert`: the new node at the end of the path, and the balances on the way
  unfoldable pub lean : List Bool → A → Tree A → Tree A
  lean [] x t = node leaf x (pos 0) leaf
  lean (d ∷ ds) x leaf = leaf
  lean (false ∷ ds) x (node l y b r) = node (lean ds x l) y (b +ℤ negsuc 0) r
  lean (true ∷ ds) x (node l y b r) = node l y (b +ℤ pos 1) (lean ds x r)

  unfoldable pub double0 : Tree A → A → Tree A → A → Tree A → Option (Tree A)
  double0 xl x leaf y r = none
  double0 xl x (node wl w b wr) y r =
      let (bx, by) = settled0 b in some (node (node xl x bx wl) w (pos 0) (node wr y by r))

  unfoldable pub double1 : Tree A → A → Tree A → A → Tree A → Option (Tree A)
  double1 l y leaf x xr = none
  double1 l y (node wl w b wr) x xr =
      let (bx, by) = settled1 b in some (node (node l y by wl) w (pos 0) (node wr x bx xr))

  -- the rotations of `__do_insert`, at balance -2 and at balance +2
  unfoldable pub insert_fix0 : Tree A → A → Tree A → Option (Tree A)
  unfolding double0
  insert_fix0 leaf y r = none
  insert_fix0 (node xl x b xr) y r =
      if eq_ℤ b (negsuc 0)
      then some (node xl x (pos 0) (node xr y (pos 0) r))
      else double0 xl x xr y r

  unfoldable pub insert_fix1 : Tree A → A → Tree A → Option (Tree A)
  unfolding double1
  insert_fix1 l y leaf = none
  insert_fix1 l y (node xl x b xr) =
      if eq_ℤ b (pos 1) then some (node (node l y (pos 0) xl) x (pos 0) xr) else double1 l y xl x xr

  abbrev pub insert_fix : Tree A → Option (Tree A)
  insert_fix leaf = some leaf
  insert_fix (node l y b r) =
      if eq_ℤ b (negsuc 1)
      then insert_fix0 l y r
      else if eq_ℤ b (pos 2)
      then insert_fix1 l y r
      else some (node l y b r)

  -- `__do_insert`
  unfoldable pub do_insert : List Bool → List Bool → A → Tree A → Option (Tree A)
  do_insert above dstack x t = update_at above (λ p. insert_fix (lean dstack x p)) t

module _ {A K : Type 0} (info : TreeInfo A K) where
  open info use {key, compare}

  -- `__do_insert_lookup`: `above` is the way to `parent`, and `dstack` that from there to here.
  unfoldable pub insert_lookup : A → Tree A → List Bool → List Bool → Place
  insert_lookup x leaf above dstack = vacant above dstack
  insert_lookup x (node l y b r) above dstack =
      let balanced = eq_ℤ b (pos 0) in
      let above' = if balanced then above else above ++ dstack in
      let dstack' = if balanced then dstack else [] in
      elim (compare (key y) (key x)) [
        | Ordering.eq ↦ taken (above ++ dstack)
        | Ordering.lt ↦ insert_lookup x r above' (dstack' ++ true ∷ [])
        | Ordering.gt ↦ insert_lookup x l above' (dstack' ++ false ∷ [])
      ]

  -- `__avl_attach`: has the node taken the place of another, and the tree
  unfoldable pub attach : A → Tree A → Option (Bool × Tree A)
  unfolding insert_lookup do_insert update_at
  attach x t = elim (insert_lookup x t [] []) [
    | taken path ↦ elim (update_at path (replace_item x) t) [
      | none ↦ none
      | some t' ↦ some (true, t')
    ]
    | vacant above dstack ↦ elim (do_insert above dstack x t) [
      | none ↦ none
      | some t' ↦ some (false, t')
    ]
  ]

  -- `z_tree_node_lookup`
  unfoldable pub lookup : K → Tree A → Option A
  lookup k leaf = none
  lookup k (node l y b r) = elim (compare (key y) k) [
    | Ordering.eq ↦ some y
    | Ordering.lt ↦ lookup k r
    | Ordering.gt ↦ lookup k l
  ]
