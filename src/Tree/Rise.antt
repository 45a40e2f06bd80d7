-- ===== src/Tree/Rise.antt =====
-- `__do_remove` on the way up: the rotations, and the loop over the stack of nodes.
use mathlib.Core.Path.{subst}
use mathlib.Core.List.{append_assoc}
use raleigh_fs.Common.{
  ℕ, zero, suc, ◌+◌, Bool, true, false, Option, some, List, [], ◌∷◌, ◌++◌, if◌then◌else◌, ◌≡◌, refl,
  ap, ◌∙◌, arith,
}
use raleigh_fs.Common.Int.{ℤ, pos, negsuc, ◌+ℤ◌}
use raleigh_fs.Tree.{Tree, leaf, node, max, levels}
use raleigh_fs.Tree.Detach.{
  Frame, in0, in1, remove_fix0, remove_fix1, remove_step0, remove_step1, remove_step, plug, rise,
}
use raleigh_fs.Tree.Balance.{Leans, IsBalanced, items, double0_lem, double1_lem}

module _ {A : Type 0} where
  -- A step at a node that had `n` levels and these items: the levels are those, and the loop ends,
  -- or there is one less.
  abbrev pub Steps : ℕ → List A → Option (Bool × Tree A) → Type 0
  Steps n xs o =
      (stop : Bool) × (t : Tree A) × (o ≡ some (stop, t))
      × IsBalanced t
      × (n ≡ (if stop then levels t else levels t + 1))
      × (items t ≡ xs)

  remove_fix1_lem :
      (l : Tree A) (y : A) (r : Tree A)
      → IsBalanced l
      → IsBalanced r
      → levels r ≡ levels l + 2
      → Steps (levels r + 1) (items l ++ y ∷ items r) (remove_fix1 l y r)
  unfolding remove_fix1 levels
  remove_fix1_lem l y leaf hl hr e = absurd (omega arith)
  remove_fix1_lem l y (node xl x (pos zero) xr) hl hr e = (
    true,
    node (node l y (pos 1) xl) x (negsuc 0) xr,
    refl,
    ground arith,
    ground arith,
    simp append_assoc,
  )
  remove_fix1_lem l y (node xl x (pos (suc zero)) xr) hl hr e = (
    false,
    node (node l y (pos 0) xl) x (pos 0) xr,
    refl,
    ground arith,
    ground arith,
    simp append_assoc,
  )
  remove_fix1_lem l y (node xl x (negsuc zero) xr) hl hr e =
      let (t, ran, has) = double1_lem l y xl x xr hl hr.0 hr.1 (omega arith) (ground arith) in
      (false, t, rw ran refl, has.0, ground arith, has.2)
  remove_fix1_lem l y (node xl x (negsuc (suc k)) xr) hl hr e = absurd (omega arith)
  remove_fix1_lem l y (node xl x (pos (suc (suc k))) xr) hl hr e = absurd (omega arith)

  remove_fix0_lem :
      (l : Tree A) (y : A) (r : Tree A)
      → IsBalanced l
      → IsBalanced r
      → levels l ≡ levels r + 2
      → Steps (levels l + 1) (items l ++ y ∷ items r) (remove_fix0 l y r)
  unfolding remove_fix0 levels
  remove_fix0_lem leaf y r hl hr e = absurd (omega arith)
  remove_fix0_lem (node xl x (pos zero) xr) y r hl hr e = (
    true,
    node xl x (pos 1) (node xr y (negsuc 0) r),
    refl,
    ground arith,
    ground arith,
    simp append_assoc,
  )
  remove_fix0_lem (node xl x (negsuc zero) xr) y r hl hr e = (
    false,
    node xl x (pos 0) (node xr y (pos 0) r),
    refl,
    ground arith,
    ground arith,
    simp append_assoc,
  )
  remove_fix0_lem (node xl x (pos (suc zero)) xr) y r hl hr e =
      let (t, ran, has) = double0_lem xl x xr y r hl.0 hl.1 hr (omega arith) (ground arith) in
      (false, t, rw ran refl, has.0, ground arith, has.2)
  remove_fix0_lem (node xl x (negsuc (suc k)) xr) y r hl hr e = absurd (omega arith)
  remove_fix0_lem (node xl x (pos (suc (suc k))) xr) y r hl hr e = absurd (omega arith)

  remove_step0_lem :
      (l : Tree A) (y : A) (b : ℤ) (r : Tree A)
      → IsBalanced l
      → IsBalanced r
      → Leans b (levels l + 1) (levels r)
      → Steps (1 + max (levels l + 1) (levels r)) (items l ++ y ∷ items r) (remove_step0 l y b r)
  unfolding remove_step0 levels ◌+ℤ◌
  remove_step0_lem l y (pos zero) r hl hr h =
      (true, node l y (pos 1) r, refl, ground arith, ground arith, refl)
  remove_step0_lem l y (negsuc zero) r hl hr h =
      (false, node l y (pos 0) r, refl, ground arith, ground arith, refl)
  remove_step0_lem l y (pos (suc zero)) r hl hr h =
      let (stop, t, ran, b, n, k) = remove_fix1_lem l y r hl hr (omega arith) in
      (stop, t, ran, b, ground arith, k)
  remove_step0_lem l y (pos (suc (suc n))) r hl hr h = absurd (omega arith)
  remove_step0_lem l y (negsuc (suc n)) r hl hr h = absurd (omega arith)

  remove_step1_lem :
      (l : Tree A) (y : A) (b : ℤ) (r : Tree A)
      → IsBalanced l
      → IsBalanced r
      → Leans b (levels l) (levels r + 1)
      → Steps (1 + max (levels l) (levels r + 1)) (items l ++ y ∷ items r) (remove_step1 l y b r)
  unfolding remove_step1 levels ◌+ℤ◌
  remove_step1_lem l y (pos zero) r hl hr h =
      (true, node l y (negsuc 0) r, refl, ground arith, ground arith, refl)
  remove_step1_lem l y (pos (suc zero)) r hl hr h =
      (false, node l y (pos 0) r, refl, ground arith, ground arith, refl)
  remove_step1_lem l y (negsuc zero) r hl hr h =
      let (stop, t, ran, b, n, k) = remove_fix0_lem l y r hl hr (omega arith) in
      (stop, t, ran, b, ground arith, k)
  remove_step1_lem l y (pos (suc (suc n))) r hl hr h = absurd (omega arith)
  remove_step1_lem l y (negsuc (suc n)) r hl hr h = absurd (omega arith)

  -- A balanced tree of `n` levels makes the tree of the stack balanced.
  abbrev pub Hole : List (Frame A) → ℕ → Type 0
  Hole [] n = Unit
  Hole (in0 y b r ∷ fs) n = IsBalanced r × Leans b n (levels r) × Hole fs (1 + max n (levels r))
  Hole (in1 l y b ∷ fs) n = IsBalanced l × Leans b (levels l) n × Hole fs (1 + max (levels l) n)

  -- the items of the tree of the stack
  abbrev pub within : List (Frame A) → List A → List A
  within [] xs = xs
  within (in0 y b r ∷ fs) xs = within fs (xs ++ y ∷ items r)
  within (in1 l y b ∷ fs) xs = within fs (items l ++ y ∷ xs)

  pub plug_lem :
      (fs : List (Frame A)) (t : Tree A)
      → Hole fs (levels t)
      → IsBalanced t
      → IsBalanced (plug fs t) × (items (plug fs t) ≡ within fs (items t))
  unfolding plug levels
  plug_lem [] t h b = (b, refl)
  plug_lem (in0 y c r ∷ fs) t h b = plug_lem fs (node t y c r) h.2 (b, h.0, h.1)
  plug_lem (in1 l y c ∷ fs) t h b = plug_lem fs (node l y c t) h.2 (h.0, b, h.1)

  -- what the loop makes of the subtree
  abbrev pub Rises : List (Frame A) → List A → Option (Tree A) → Type 0
  Rises fs xs o = (t : Tree A) × (o ≡ some t) × IsBalanced t × (items t ≡ within fs xs)

  settle :
      (f : Frame A) (fs : List (Frame A)) (t : Tree A) (n : ℕ) (xs : List A)
      → Hole fs n
      → Steps n xs (remove_step f t)
      → ((u : Tree A) → Hole fs (levels u + 1) → IsBalanced u → Rises fs (items u) (rise fs u))
      → Rises fs xs (rise (f ∷ fs) t)
  unfolding rise
  settle f fs t n xs h (true, u, ran, b, e, k) next =
      let (b', k') = plug_lem fs u (subst (Hole fs) e h) b in
      (plug fs u, rw (ran, rise) refl, b', k' ∙ ap (within fs) k)
  settle f fs t n xs h (false, u, ran, b, e, k) next =
      let (t', ran', b', k') = next u (subst (Hole fs) e h) b in
      (t', rw (ran, rise) ran', b', k' ∙ ap (within fs) k)

  -- A subtree that has lost a level.
  pub rise_lem :
      (fs : List (Frame A)) (t : Tree A)
      → Hole fs (levels t + 1)
      → IsBalanced t
      → Rises fs (items t) (rise fs t)
  unfolding rise
  rise_lem [] t h b = (t, refl, b, refl)
  rise_lem (in0 y c r ∷ fs) t h b =
      settle (in0 y c r) fs t _ (items t ++ y ∷ items r) h.2 (remove_step0_lem t y c r b h.0 h.1)
        (rise_lem fs)
  rise_lem (in1 l y c ∷ fs) t h b =
      settle (in1 l y c) fs t _ (items l ++ y ∷ items t) h.2 (remove_step1_lem l y c t h.0 b h.1)
        (rise_lem fs)
