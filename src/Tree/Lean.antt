-- ===== src/Tree/Lean.antt =====
-- `__do_insert` keeps the balance: the new node makes the subtree of the last leaning node on its
-- way no higher, unless that is the root and does not lean.
use raleigh_fs.Common.{
  zero, suc, ◌+◌, ◌≤◌, Bool, true, false, some, List, [], ◌∷◌, ◌≡◌, ◌≢◌, ◌⊎◌, inl, inr, refl, ◌∙◌,
  arith,
}
use raleigh_fs.Common.Int.{pos, negsuc, ◌+ℤ◌}
use raleigh_fs.Tree.{Tree, leaf, node, levels, lean, insert_fix}
use raleigh_fs.Tree.Balance.{IsBalanced, items, root_balance, insert_fix0_lem, insert_fix1_lem}

module _ {A : Type 0} where
  -- The path ends at NULL, and no node on it leans.
  abbrev pub Flat : List Bool → Tree A → Type 0
  Flat [] leaf = Unit
  Flat [] (node l y b r) = ⊥
  Flat (d ∷ ds) leaf = ⊥
  Flat (false ∷ ds) (node l y b r) = (b ≡ pos 0) × Flat ds l
  Flat (true ∷ ds) (node l y b r) = (b ≡ pos 0) × Flat ds r

  -- The path ends at NULL, and no node on it leans but the first.
  abbrev pub FlatBelow : List Bool → Tree A → Type 0
  FlatBelow [] leaf = Unit
  FlatBelow [] (node l y b r) = ⊥
  FlatBelow (d ∷ ds) leaf = ⊥
  FlatBelow (false ∷ ds) (node l y b r) = Flat ds l
  FlatBelow (true ∷ ds) (node l y b r) = Flat ds r

  lean-Flat :
      (ds : List Bool) (x : A) (t : Tree A)
      → Flat ds t
      → IsBalanced t
      → IsBalanced (lean ds x t) × (levels (lean ds x t) ≡ levels t + 1)
  unfolding lean levels ◌+ℤ◌
  lean-Flat [] x leaf f h = (omega arith, refl)
  lean-Flat [] x (node l y b r) f h = absurd f
  lean-Flat (d ∷ ds) x leaf f h = absurd f
  lean-Flat (false ∷ ds) x (node l y b r) f h =
      let (ih, e) = lean-Flat ds x l f.1 h.0 in ground arith
  lean-Flat (true ∷ ds) x (node l y b r) f h =
      let (ih, e) = lean-Flat ds x r f.1 h.1 in ground arith

  lean-root_balance :
      (d : Bool) (ds : List Bool) (x : A) (t : Tree A)
      → Flat (d ∷ ds) t
      → root_balance (lean (d ∷ ds) x t) ≢ pos 0
  unfolding lean ◌+ℤ◌
  lean-root_balance d ds x leaf f = absurd f
  lean-root_balance false ds x (node l y b r) f = ground arith
  lean-root_balance true ds x (node l y b r) f = ground arith

  -- the higher child that a rotation meets leans itself
  higher_leans :
      (ds : List Bool) (x : A) (t : Tree A)
      → Flat ds t
      → 1 ≤ levels t
      → root_balance (lean ds x t) ≢ pos 0
  unfolding levels
  higher_leans [] x leaf f h = absurd (omega arith)
  higher_leans [] x (node l y b r) f h = absurd f
  higher_leans (d ∷ ds) x t f h = lean-root_balance d ds x t f

  pub insert_fix-lean :
      (ds : List Bool) (x : A) (t : Tree A)
      → FlatBelow ds t
      → IsBalanced t
      → (t' : Tree A) × (insert_fix (lean ds x t) ≡ some t')
        × IsBalanced t'
        × (items t' ≡ items (lean ds x t))
        × ((levels t' ≡ levels t) ⊎ (root_balance t ≡ pos 0))
  unfolding lean levels ◌+ℤ◌
  insert_fix-lean [] x leaf f h = (lean [] x leaf, refl, omega arith, refl, inr refl)
  insert_fix-lean [] x (node l y b r) f h = absurd f
  insert_fix-lean (d ∷ ds) x leaf f h = absurd f
  insert_fix-lean (false ∷ ds) x (node l y (pos zero) r) f h =
      let (hl, e) = lean-Flat ds x l f h.0 in
      (node (lean ds x l) y (negsuc 0) r, refl, ground arith, refl, inr refl)
  insert_fix-lean (false ∷ ds) x (node l y (pos (suc zero)) r) f h =
      let (hl, e) = lean-Flat ds x l f h.0 in
      (node (lean ds x l) y (pos 0) r, refl, ground arith, refl, inl (ground arith))
  insert_fix-lean (false ∷ ds) x (node l y (negsuc zero) r) f h =
      let (hl, e) = lean-Flat ds x l f h.0 in
      let (t, ran, has) =
        insert_fix0_lem (lean ds x l) y r hl h.1 (omega arith)
          (higher_leans ds x l f (omega arith)) in
      (t, ran, has.0, has.2, inl (has.1 ∙ ground arith))
  insert_fix-lean (false ∷ ds) x (node l y (pos (suc (suc n))) r) f h = absurd (omega arith)
  insert_fix-lean (false ∷ ds) x (node l y (negsuc (suc n)) r) f h = absurd (omega arith)
  insert_fix-lean (true ∷ ds) x (node l y (pos zero) r) f h =
      let (hr, e) = lean-Flat ds x r f h.1 in
      (node l y (pos 1) (lean ds x r), refl, ground arith, refl, inr refl)
  insert_fix-lean (true ∷ ds) x (node l y (negsuc zero) r) f h =
      let (hr, e) = lean-Flat ds x r f h.1 in
      (node l y (pos 0) (lean ds x r), refl, ground arith, refl, inl (ground arith))
  insert_fix-lean (true ∷ ds) x (node l y (pos (suc zero)) r) f h =
      let (hr, e) = lean-Flat ds x r f h.1 in
      let (t, ran, has) =
        insert_fix1_lem l y (lean ds x r) h.0 hr (omega arith)
          (higher_leans ds x r f (omega arith)) in
      (t, ran, has.0, has.2, inl (has.1 ∙ ground arith))
  insert_fix-lean (true ∷ ds) x (node l y (pos (suc (suc n))) r) f h = absurd (omega arith)
  insert_fix-lean (true ∷ ds) x (node l y (negsuc (suc n)) r) f h = absurd (omega arith)
