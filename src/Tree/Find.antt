-- ===== src/Tree/Find.antt =====
-- What the search for a key finds after an insertion and after a removal.
use Prim.Native.Nat.{Ordering}
use raleigh_fs.Common.{none, some, List, [], ◌∷◌, ◌≡◌, inl, inr, refl}
use raleigh_fs.Tree.{TreeInfo}
use raleigh_fs.Tree.Sorted.{IsOrder, Ordering-cases, After, IsSorted, insert, without, find}

-- `x` where the keys are the same, and `y` where they are not
abbrev pub at_same : {B : Type 0} → Ordering → B → B → B
at_same Ordering.lt x y = y
at_same Ordering.eq x y = x
at_same Ordering.gt x y = y

module _ {A K : Type 0} (info : TreeInfo A K) (order : IsOrder info) where
  open info use {key, compare}

  -- two comparisons that are made of `y` against `k` and of `k` against a lower or an equal key
  gt_trans :
      (i j k : K)
      → compare i j ≡ Ordering.gt
      → compare j k ≡ Ordering.gt
      → compare i k ≡ Ordering.gt
  gt_trans i j k h h' =
      order.lt_gt k i (order.lt_trans k j i (order.gt_lt j k h') (order.gt_lt i j h))

  pub find-insert :
      (x : A) (xs : List A) (k : K)
      → find info k (insert info x xs) ≡ at_same (compare (key x) k) (some x) (find info k xs)
  unfolding find insert
  find-insert x [] k = elim (Ordering-cases (compare (key x) k)) [
    | inl e ↦ rw (e, find) refl
    | inr (inl e) ↦ rw (e, find) refl
    | inr (inr e) ↦ rw (e, find) refl
  ]
  find-insert x (y ∷ ys) k = elim (Ordering-cases (compare (key y) (key x))) [
    | inr (inl e) ↦
        let same = order.same (key y) (key x) e in
        elim (Ordering-cases (compare (key x) k)) [
          | inl f ↦ rw (e, insert, same, f, find) refl
          | inr (inl f) ↦ rw (e, insert, same, f, find) refl
          | inr (inr f) ↦ rw (e, insert, same, f, find) refl
        ]
    | inr (inr e) ↦ elim (Ordering-cases (compare (key x) k)) [
      | inl f ↦ rw (e, insert, f, find) refl
      | inr (inl f) ↦ rw (e, insert, f, find) refl
      | inr (inr f) ↦ rw (e, insert, f, find, gt_trans (key y) (key x) k e f) refl
    ]
    | inl e ↦ elim (Ordering-cases (compare (key x) k)) [
      | inr (inl f) ↦
          let low : compare (key y) k ≡ Ordering.lt = rw (← order.same (key x) k f) e in
          rw (e, insert, low, find, find-insert x ys k, f) refl
      | inl f ↦ elim (Ordering-cases (compare (key y) k)) [
        | inl g ↦ rw (e, insert, g, find, find-insert x ys k, f) refl
        | inr (inl g) ↦ rw (e, insert, g, find, f) refl
        | inr (inr g) ↦ rw (e, insert, g, find, f) refl
      ]
      | inr (inr f) ↦ elim (Ordering-cases (compare (key y) k)) [
        | inl g ↦ rw (e, insert, g, find, find-insert x ys k, f) refl
        | inr (inl g) ↦ rw (e, insert, g, find, f) refl
        | inr (inr g) ↦ rw (e, insert, g, find, f) refl
      ]
    ]
  ]

  pub find-After : (k : K) (xs : List A) → After info k xs → find info k xs ≡ none
  unfolding find
  find-After k [] a = refl
  find-After k (x ∷ xs) a = rw (order.lt_gt k (key x) a.0, find) refl

  pub After-trans :
      (j k : K) (xs : List A) → compare j k ≡ Ordering.lt → After info k xs → After info j xs
  After-trans j k [] h a = tt
  After-trans j k (x ∷ xs) h a = (order.lt_trans j k (key x) h a.0, After-trans j k xs h a.1)

  pub find-without :
      (j : K) (xs : List A) (k : K)
      → IsSorted info xs
      → find info k (without info j xs) ≡ at_same (compare j k) none (find info k xs)
  unfolding find without
  find-without j [] k s = elim (Ordering-cases (compare j k)) [
    | inl e ↦ rw e refl
    | inr (inl e) ↦ rw e refl
    | inr (inr e) ↦ rw e refl
  ]
  find-without j (y ∷ ys) k s = elim (Ordering-cases (compare (key y) j)) [
    | inr (inl e) ↦
        let same = order.same (key y) j e in
        let above : After info j ys = rw (← same) s.0 in
        elim (Ordering-cases (compare j k)) [
          | inl f ↦ rw (e, without, same, f, find) refl
          | inr (inl f) ↦ rw (e, without, f) (find-After k ys (rw (← order.same j k f) above))
          | inr (inr f) ↦
              rw (e, without, same, f, find)
                (find-After k ys (After-trans k j ys (order.gt_lt j k f) above))
        ]
    | inr (inr e) ↦ elim (Ordering-cases (compare j k)) [
      | inl f ↦ rw (e, without, f) refl
      | inr (inl f) ↦
          let high : compare (key y) k ≡ Ordering.gt = rw (← order.same j k f) e in
          rw (e, without, f, high, find) refl
      | inr (inr f) ↦ rw (e, without, f) refl
    ]
    | inl e ↦ elim (Ordering-cases (compare j k)) [
      | inr (inl f) ↦
          let low : compare (key y) k ≡ Ordering.lt = rw (← order.same j k f) e in
          rw (e, without, low, find, find-without j ys k s.1, f) refl
      | inl f ↦ elim (Ordering-cases (compare (key y) k)) [
        | inl g ↦ rw (e, without, g, find, find-without j ys k s.1, f) refl
        | inr (inl g) ↦ rw (e, without, g, find, f) refl
        | inr (inr g) ↦ rw (e, without, g, find, f) refl
      ]
      | inr (inr f) ↦ elim (Ordering-cases (compare (key y) k)) [
        | inl g ↦ rw (e, without, g, find, find-without j ys k s.1, f) refl
        | inr (inl g) ↦ rw (e, without, g, find, f) refl
        | inr (inr g) ↦ rw (e, without, g, find, f) refl
      ]
    ]
  ]
