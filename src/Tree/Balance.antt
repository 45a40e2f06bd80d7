-- ===== src/Tree/Balance.antt =====
-- What the balances of a tree say, its items from left to right, and the rotations of an insert.
use mathlib.Core.List.{append_assoc}
use raleigh_fs.Common.{
  ℕ, zero, suc, ◌+◌, ◌≤◌, some, List, [], ◌∷◌, ◌++◌, ◌≡◌, ◌≢◌, refl, ◌∙◌, arith,
}
use raleigh_fs.Common.Int.{ℤ, pos, negsuc, pos_part, neg_part}
use raleigh_fs.Tree.{Tree, leaf, node, levels, double0, double1, insert_fix0, insert_fix1}

-- The right side is `b` levels higher than the left one, which has `m`.
abbrev pub Leans : ℤ → ℕ → ℕ → Type 0
Leans b m n = (pos_part b + m ≡ neg_part b + n) × (pos_part b ≤ 1) × (neg_part b ≤ 1)

module _ {A : Type 0} where
  -- The balance of each node is that of the levels below it, and none is more than 1.
  abbrev pub IsBalanced : Tree A → Type 0
  IsBalanced leaf = Unit
  IsBalanced (node l x b r) = IsBalanced l × IsBalanced r × Leans b (levels l) (levels r)

  -- from left to right
  abbrev pub items : Tree A → List A
  items leaf = []
  items (node l x b r) = items l ++ x ∷ items r

  abbrev pub root_balance : Tree A → ℤ
  root_balance leaf = pos 0
  root_balance (node l x b r) = b

  -- a tree that is balanced, with so many levels and these items
  abbrev pub Has : ℕ → List A → Tree A → Type 0
  Has n xs t = IsBalanced t × (levels t ≡ n) × (items t ≡ xs)

  pub regroup : (a b c : List A) (x y : A) → (a ++ x ∷ b) ++ y ∷ c ≡ a ++ x ∷ (b ++ y ∷ c)
  regroup a b c x y = append_assoc a (x ∷ b) (y ∷ c)

  -- A double rotation, where the inner child is the higher one.
  pub double0_lem :
      (xl : Tree A) (x : A) (xr : Tree A) (y : A) (r : Tree A)
      → IsBalanced xl
      → IsBalanced xr
      → IsBalanced r
      → levels xr ≡ levels xl + 1
      → levels xl ≡ levels r
      → (t : Tree A) × (double0 xl x xr y r ≡ some t)
        × Has (levels xr + 1) ((items xl ++ x ∷ items xr) ++ y ∷ items r) t
  unfolding double0 levels
  double0_lem xl x leaf y r hl hx hr e e' = absurd (omega arith)
  double0_lem xl x (node wl w (pos zero) wr) y r hl hx hr e e' = (
    node (node xl x (pos 0) wl) w (pos 0) (node wr y (pos 0) r),
    refl,
    (ground arith, ground arith, simp append_assoc),
  )
  double0_lem xl x (node wl w (negsuc zero) wr) y r hl hx hr e e' = (
    node (node xl x (pos 0) wl) w (pos 0) (node wr y (pos 1) r),
    refl,
    (ground arith, ground arith, simp append_assoc),
  )
  double0_lem xl x (node wl w (pos (suc zero)) wr) y r hl hx hr e e' = (
    node (node xl x (negsuc 0) wl) w (pos 0) (node wr y (pos 0) r),
    refl,
    (ground arith, ground arith, simp append_assoc),
  )
  double0_lem xl x (node wl w (negsuc (suc n)) wr) y r hl hx hr e e' = absurd (omega arith)
  double0_lem xl x (node wl w (pos (suc (suc n))) wr) y r hl hx hr e e' = absurd (omega arith)

  pub double1_lem :
      (l : Tree A) (y : A) (xl : Tree A) (x : A) (xr : Tree A)
      → IsBalanced l
      → IsBalanced xl
      → IsBalanced xr
      → levels xl ≡ levels xr + 1
      → levels xr ≡ levels l
      → (t : Tree A) × (double1 l y xl x xr ≡ some t)
        × Has (levels xl + 1) (items l ++ y ∷ (items xl ++ x ∷ items xr)) t
  unfolding double1 levels
  double1_lem l y leaf x xr hl hx hr e e' = absurd (omega arith)
  double1_lem l y (node wl w (pos zero) wr) x xr hl hx hr e e' = (
    node (node l y (pos 0) wl) w (pos 0) (node wr x (pos 0) xr),
    refl,
    (ground arith, ground arith, simp append_assoc),
  )
  double1_lem l y (node wl w (negsuc zero) wr) x xr hl hx hr e e' = (
    node (node l y (pos 0) wl) w (pos 0) (node wr x (pos 1) xr),
    refl,
    (ground arith, ground arith, simp append_assoc),
  )
  double1_lem l y (node wl w (pos (suc zero)) wr) x xr hl hx hr e e' = (
    node (node l y (negsuc 0) wl) w (pos 0) (node wr x (pos 0) xr),
    refl,
    (ground arith, ground arith, simp append_assoc),
  )
  double1_lem l y (node wl w (negsuc (suc n)) wr) x xr hl hx hr e e' = absurd (omega arith)
  double1_lem l y (node wl w (pos (suc (suc n))) wr) x xr hl hx hr e e' = absurd (omega arith)

  -- The rotations at balance -2 and +2 after an insert, where the higher child leans.
  pub insert_fix0_lem :
      (l : Tree A) (y : A) (r : Tree A)
      → IsBalanced l
      → IsBalanced r
      → levels l ≡ levels r + 2
      → root_balance l ≢ pos 0
      → (t : Tree A) × (insert_fix0 l y r ≡ some t) × Has (levels l) (items l ++ y ∷ items r) t
  unfolding insert_fix0 levels
  insert_fix0_lem leaf y r hl hr e n = absurd (omega arith)
  insert_fix0_lem (node xl x (negsuc zero) xr) y r hl hr e n = (
    node xl x (pos 0) (node xr y (pos 0) r),
    refl,
    (ground arith, ground arith, simp append_assoc),
  )
  insert_fix0_lem (node xl x (pos (suc zero)) xr) y r hl hr e n =
      let (t, ran, has) = double0_lem xl x xr y r hl.0 hl.1 hr (omega arith) (ground arith) in
      (t, ran, (has.0, has.1 ∙ ground arith, has.2))
  insert_fix0_lem (node xl x (pos zero) xr) y r hl hr e n = absurd (n refl)
  insert_fix0_lem (node xl x (negsuc (suc k)) xr) y r hl hr e n = absurd (omega arith)
  insert_fix0_lem (node xl x (pos (suc (suc k))) xr) y r hl hr e n = absurd (omega arith)

  pub insert_fix1_lem :
      (l : Tree A) (y : A) (r : Tree A)
      → IsBalanced l
      → IsBalanced r
      → levels r ≡ levels l + 2
      → root_balance r ≢ pos 0
      → (t : Tree A) × (insert_fix1 l y r ≡ some t) × Has (levels r) (items l ++ y ∷ items r) t
  unfolding insert_fix1 levels
  insert_fix1_lem l y leaf hl hr e n = absurd (omega arith)
  insert_fix1_lem l y (node xl x (pos (suc zero)) xr) hl hr e n = (
    node (node l y (pos 0) xl) x (pos 0) xr,
    refl,
    (ground arith, ground arith, simp append_assoc),
  )
  insert_fix1_lem l y (node xl x (negsuc zero) xr) hl hr e n =
      let (t, ran, has) = double1_lem l y xl x xr hl hr.0 hr.1 (omega arith) (ground arith) in
      (t, ran, (has.0, has.1 ∙ ground arith, has.2))
  insert_fix1_lem l y (node xl x (pos zero) xr) hl hr e n = absurd (n refl)
  insert_fix1_lem l y (node xl x (negsuc (suc k)) xr) hl hr e n = absurd (omega arith)
  insert_fix1_lem l y (node xl x (pos (suc (suc k))) xr) hl hr e n = absurd (omega arith)
