-- ===== src/Tree/Iter.antt =====
-- `z_tree_iter_t` of tree.c: a node of the tree and the stack of the nodes above it.
--
-- `current` is the subtree of the current node, and `leaf` where that is NULL. The comparison of
-- `tmp` with `node->child[dir]` is whether that child was taken on the way down.
use Prim.Native.Nat.{Ordering}
use raleigh_fs.Common.{Bool, true, false, Option, none, some, List, [], ◌∷◌}
use raleigh_fs.Common.Int.{ℤ}
use raleigh_fs.Tree.{Tree, leaf, node, TreeInfo}
use raleigh_fs.Tree.Detach.{Frame, in0, in1}

-- `struct z_tree_iter`
pub record TreeIter (A : Type 0) : Type 0 where
  pub root : Tree A
  pub current : Tree A
  pub stack : List (Frame A)

-- `current` and `stack`
abbrev pub Position : Type 0 → Type 0
Position A = Tree A × List (Frame A)

module _ {A : Type 0} where
  -- NULL
  abbrev pub is_leaf : Tree A → Bool
  is_leaf leaf = true
  is_leaf (node l y b r) = false

  -- `while (node->child[dir] != NULL)`, down to the left and down to the right
  unfoldable pub down0 : Tree A → A → ℤ → Tree A → List (Frame A) → Position A
  down0 leaf y b r stack = (node leaf y b r, stack)
  down0 (node ll ly lb lr) y b r stack = down0 ll ly lb lr (in0 y b r ∷ stack)

  unfoldable pub down1 : Tree A → A → ℤ → Tree A → List (Frame A) → Position A
  down1 l y b leaf stack = (node l y b leaf, stack)
  down1 l y b (node rl ry rb rr) stack = down1 rl ry rb rr (in1 l y b ∷ stack)

  -- `__tree_iter_lookup_child`
  unfoldable pub first : Tree A → Position A
  unfolding down0
  first leaf = (leaf, [])
  first (node l y b r) = down0 l y b r []

  unfoldable pub last : Tree A → Position A
  unfolding down1
  last leaf = (leaf, [])
  last (node l y b r) = down1 l y b r []

  -- up, past the nodes whose `child[1]`, or `child[0]`, was taken
  unfoldable pub climb1 : Tree A → List (Frame A) → Position A
  climb1 t [] = (leaf, [])
  climb1 t (in0 y b r ∷ fs) = (node t y b r, fs)
  climb1 t (in1 l y b ∷ fs) = climb1 (node l y b t) fs

  unfoldable pub climb0 : Tree A → List (Frame A) → Position A
  climb0 t [] = (leaf, [])
  climb0 t (in1 l y b ∷ fs) = (node l y b t, fs)
  climb0 t (in0 y b r ∷ fs) = climb0 (node t y b r) fs

  -- `__tree_iter_traverse`
  unfoldable pub traverse1 : Tree A → List (Frame A) → Position A
  unfolding down0 climb1
  traverse1 leaf stack = (leaf, stack)
  traverse1 (node l y b leaf) stack = climb1 (node l y b leaf) stack
  traverse1 (node l y b (node rl ry rb rr)) stack = down0 rl ry rb rr (in1 l y b ∷ stack)

  unfoldable pub traverse0 : Tree A → List (Frame A) → Position A
  unfolding down1 climb0
  traverse0 leaf stack = (leaf, stack)
  traverse0 (node leaf y b r) stack = climb0 (node leaf y b r) stack
  traverse0 (node (node ll ly lb lr) y b r) stack = down1 ll ly lb lr (in0 y b r ∷ stack)

  abbrev pub move_to : TreeIter A → Position A → TreeIter A
  move_to it (t, stack) = record it { current = t; stack = stack }

  -- `z_tree_iter_open`, `begin`, `end`, `next` and `prev`
  abbrev pub open_iter : Tree A → TreeIter A
  open_iter t = record { root = t; current = leaf; stack = [] }

  unfoldable pub begin : TreeIter A → TreeIter A
  unfolding first
  begin it = move_to it (first it.root)

  unfoldable pub end : TreeIter A → TreeIter A
  unfolding last
  end it = move_to it (last it.root)

  unfoldable pub next : TreeIter A → TreeIter A
  unfolding traverse1
  next it = move_to it (traverse1 it.current it.stack)

  unfoldable pub prev : TreeIter A → TreeIter A
  unfolding traverse0
  prev it = move_to it (traverse0 it.current it.stack)

  -- the node that a call answers
  abbrev pub current_item : TreeIter A → Option A
  current_item it = elim (it.current) [ leaf ↦ none | node l y b r ↦ some y ]

  -- `node != NULL ? node : __tree_iter_lookup_child(iter, 0)`
  abbrev pub or_begin : Position A → TreeIter A → TreeIter A
  or_begin (leaf, stack) it = begin it
  or_begin (node l y b r, stack) it = move_to it (node l y b r, stack)

module _ {A K : Type 0} (info : TreeInfo A K) where
  open info use {key, compare}

  -- `__tree_iter_lookup_near`, with `ceil_entry` and without
  unfoldable pub near_ceil : K → Tree A → List (Frame A) → Position A
  unfolding climb1
  near_ceil k leaf stack = (leaf, stack)
  near_ceil k (node l y b r) stack = elim (compare (key y) k) [
    | Ordering.eq ↦ (node l y b r, stack)
    | Ordering.gt ↦ elim (is_leaf l) [
      | true ↦ (node l y b r, stack)
      | false ↦ near_ceil k l (in0 y b r ∷ stack)
    ]
    | Ordering.lt ↦ elim (is_leaf r) [
      | true ↦ climb1 (node l y b r) stack
      | false ↦ near_ceil k r (in1 l y b ∷ stack)
    ]
  ]

  unfoldable pub near_floor : K → Tree A → List (Frame A) → Position A
  unfolding climb0
  near_floor k leaf stack = (leaf, stack)
  near_floor k (node l y b r) stack = elim (compare (key y) k) [
    | Ordering.eq ↦ (node l y b r, stack)
    | Ordering.lt ↦ elim (is_leaf r) [
      | true ↦ (node l y b r, stack)
      | false ↦ near_floor k r (in1 l y b ∷ stack)
    ]
    | Ordering.gt ↦ elim (is_leaf l) [
      | true ↦ climb0 (node l y b r) stack
      | false ↦ near_floor k l (in0 y b r ∷ stack)
    ]
  ]

  -- `z_tree_iter_seek_ge` and `z_tree_iter_seek_le`, with a key
  unfoldable pub seek_ge : K → TreeIter A → TreeIter A
  unfolding near_ceil
  seek_ge k it = move_to it (near_ceil k it.root [])

  unfoldable pub seek_le : K → TreeIter A → TreeIter A
  unfolding near_floor begin
  seek_le k it = or_begin (near_floor k it.root []) it
