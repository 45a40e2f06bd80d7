-- ===== src/Tree/Scan.antt =====
-- What an iterator goes through: the items of the tree from left to right, and back.
use mathlib.Core.List.{append_assoc, append-nil, reverse-append}
use raleigh_fs.Common.{
  ℕ, zero, suc, ◌≤◌, length, length-append, reverse, none, some, List, [], ◌∷◌, ◌++◌, ◌≡◌, refl,
  sym, ap, ◌∙◌, arith,
}
use raleigh_fs.Common.Int.{ℤ}
use raleigh_fs.Tree.{Tree, leaf, node}
use raleigh_fs.Tree.Detach.{Frame, in0, in1}
use raleigh_fs.Tree.Balance.{items}
use raleigh_fs.Tree.Iter.{
  TreeIter, Position, down0, down1, first, last, climb0, climb1, traverse0, traverse1, begin, end,
  next, prev, current_item, open_iter,
}

module _ {A : Type 0} where
  -- the items behind, and before, the subtree under a stack
  abbrev pub behind : List (Frame A) → List A
  behind [] = []
  behind (in0 y b r ∷ fs) = y ∷ (items r ++ behind fs)
  behind (in1 l y b ∷ fs) = behind fs

  abbrev pub ahead : List (Frame A) → List A
  ahead [] = []
  ahead (in0 y b r ∷ fs) = ahead fs
  ahead (in1 l y b ∷ fs) = ahead fs ++ (items l ++ y ∷ [])

  -- the items from the current one on
  abbrev pub onward : Position A → List A
  onward (leaf, stack) = []
  onward (node l y b r, stack) = y ∷ (items r ++ behind stack)

  -- the items up to the current one
  abbrev pub passed : Position A → List A
  passed (leaf, stack) = []
  passed (node l y b r, stack) = ahead stack ++ (items l ++ y ∷ [])

  abbrev pub tail : List A → List A
  tail [] = []
  tail (x ∷ xs) = xs

  onward-down0 :
      (l : Tree A) (y : A) (b : ℤ) (r : Tree A) (stack : List (Frame A))
      → onward (down0 l y b r stack) ≡ items (node l y b r) ++ behind stack
  unfolding down0
  onward-down0 leaf y b r stack = refl
  onward-down0 (node ll ly lb lr) y b r stack =
      onward-down0 ll ly lb lr (in0 y b r ∷ stack)
      ∙ sym (append_assoc (items (node ll ly lb lr)) (y ∷ items r) (behind stack))

  pub onward-climb1 : (t : Tree A) (stack : List (Frame A)) → onward (climb1 t stack) ≡ behind stack
  unfolding climb1
  onward-climb1 t [] = refl
  onward-climb1 t (in0 y b r ∷ fs) = refl
  onward-climb1 t (in1 l y b ∷ fs) = onward-climb1 (node l y b t) fs

  onward-traverse1 :
      (t : Tree A) (stack : List (Frame A)) → onward (traverse1 t stack) ≡ tail (onward (t, stack))
  unfolding traverse1
  onward-traverse1 leaf stack = refl
  onward-traverse1 (node l y b leaf) stack = onward-climb1 (node l y b leaf) stack
  onward-traverse1 (node l y b (node rl ry rb rr)) stack =
      onward-down0 rl ry rb rr (in1 l y b ∷ stack)

  pub onward-first : (t : Tree A) → onward (first t) ≡ items t
  unfolding first
  onward-first leaf = refl
  onward-first (node l y b r) = onward-down0 l y b r [] ∙ append-nil (items (node l y b r))

  -- the mirror images
  passed-down1 :
      (l : Tree A) (y : A) (b : ℤ) (r : Tree A) (stack : List (Frame A))
      → passed (down1 l y b r stack) ≡ ahead stack ++ items (node l y b r)
  unfolding down1
  passed-down1 l y b leaf stack = refl
  passed-down1 l y b (node rl ry rb rr) stack =
      passed-down1 rl ry rb rr (in1 l y b ∷ stack) ∙ simp append_assoc

  pub passed-climb0 : (t : Tree A) (stack : List (Frame A)) → passed (climb0 t stack) ≡ ahead stack
  unfolding climb0
  passed-climb0 t [] = refl
  passed-climb0 t (in1 l y b ∷ fs) = refl
  passed-climb0 t (in0 y b r ∷ fs) = passed-climb0 (node t y b r) fs

  -- the list without its last item
  abbrev pub init : List A → List A
  init [] = []
  init (x ∷ []) = []
  init (x ∷ y ∷ ys) = x ∷ init (y ∷ ys)

  init-snoc : (xs : List A) (x : A) → init (xs ++ x ∷ []) ≡ xs
  init-snoc [] x = refl
  init-snoc (y ∷ []) x = refl
  init-snoc (y ∷ z ∷ zs) x = ap (λ l. y ∷ l) (init-snoc (z ∷ zs) x)

  passed-traverse0 :
      (t : Tree A) (stack : List (Frame A)) → passed (traverse0 t stack) ≡ init (passed (t, stack))
  unfolding traverse0
  passed-traverse0 leaf stack = refl
  passed-traverse0 (node leaf y b r) stack =
      passed-climb0 (node leaf y b r) stack ∙ sym (init-snoc (ahead stack) y)
  passed-traverse0 (node (node ll ly lb lr) y b r) stack =
      passed-down1 ll ly lb lr (in0 y b r ∷ stack)
      ∙ (sym (init-snoc (ahead stack ++ items (node ll ly lb lr)) y)
          ∙ ap init (append_assoc (ahead stack) (items (node ll ly lb lr)) (y ∷ [])))

  passed-last : (t : Tree A) → passed (last t) ≡ items t
  unfolding last
  passed-last leaf = refl
  passed-last (node l y b r) = passed-down1 l y b r []

  abbrev pub position : TreeIter A → Position A
  position it = (it.current, it.stack)

  -- The calls of `next`, as long as there is a node, and of `prev`.
  unfoldable pub forward : ℕ → TreeIter A → List A
  unfolding next
  forward zero it = []
  forward (suc n) it = elim (current_item it) [ none ↦ [] | some x ↦ x ∷ forward n (next it) ]

  unfoldable pub backward : ℕ → TreeIter A → List A
  unfolding prev
  backward zero it = []
  backward (suc n) it = elim (current_item it) [ none ↦ [] | some x ↦ x ∷ backward n (prev it) ]

  forward_from :
      (n : ℕ) (root t : Tree A) (stack : List (Frame A))
      → length (onward (t, stack)) ≤ n
      → forward n (record { root = root; current = t; stack = stack }) ≡ onward (t, stack)
  unfolding forward next
  forward_from zero root leaf stack h = refl
  forward_from zero root (node l y b r) stack h = absurd (omega arith)
  forward_from (suc n) root leaf stack h = refl
  forward_from (suc n) root (node l y b r) stack h =
      let u = traverse1 (node l y b r) stack in
      let e = onward-traverse1 (node l y b r) stack in
      ap (λ xs. y ∷ xs) (forward_from n root (u.0) (u.1) (omega (arith, ap length e)) ∙ e)

  backward_from :
      (n : ℕ) (root t : Tree A) (stack : List (Frame A))
      → length (passed (t, stack)) ≤ n
      → backward n (record { root = root; current = t; stack = stack })
        ≡ reverse (passed (t, stack))
  unfolding backward prev
  backward_from zero root leaf stack h = refl
  backward_from zero root (node l y b r) stack h = absurd (
      omega
        (arith, length-append (ahead stack) (items l ++ y ∷ []), length-append (items l) (y ∷ [])))
  backward_from (suc n) root leaf stack h = refl
  backward_from (suc n) root (node l y b r) stack h =
      let u = traverse0 (node l y b r) stack in
      let before = ahead stack ++ items l in
      let whole = append_assoc (ahead stack) (items l) (y ∷ []) in
      let e : passed u ≡ before =
        passed-traverse0 (node l y b r) stack ∙ (ap init (sym whole) ∙ init-snoc before y) in
      let size = length-append before (y ∷ []) in
      ap (λ xs. y ∷ xs)
        (backward_from n root (u.0) (u.1) (omega (arith, ap length e, ap length whole))
          ∙ ap reverse e)
      ∙ sym (ap reverse (sym whole) ∙ reverse-append before (y ∷ []))

  -- From `z_tree_iter_begin`, the calls of `z_tree_iter_next` go through the items of the tree from
  -- left to right, each once, and then answer NULL; from `z_tree_iter_end`, those of
  -- `z_tree_iter_prev` go through them from right to left.
  pub scan_lem :
      (t : Tree A) (n : ℕ)
      → length (items t) ≤ n
      → (forward n (begin (open_iter t)) ≡ items t)
        × (backward n (end (open_iter t)) ≡ reverse (items t))
  unfolding begin end
  scan_lem t n h =
      let f = first t in
      let g = last t in
      (
        forward_from n t (f.0) (f.1) (omega (arith, ap length (onward-first t))) ∙ onward-first t,
        backward_from n t (g.0) (g.1) (omega (arith, ap length (passed-last t)))
            ∙ ap reverse (passed-last t),
      )
