-- ===== src/Tree/Search.antt =====
-- The search for a key in a sorted list, and the list without it.
use Prim.Native.Nat.{Ordering}
use raleigh_fs.Common.{some, List, [], ◌∷◌, ◌++◌, ◌≡◌, inl, inr, refl, ap, ◌∙◌, arith}
use raleigh_fs.Tree.{TreeInfo}
use raleigh_fs.Tree.Sorted.{
  IsOrder, Ordering-cases, Before, After, IsSorted, insert, without, find, IsSorted-split,
  Before-trans,
}

module _ {A K : Type 0} (info : TreeInfo A K) where
  open info use {key, compare}

  pub without-before :
      (k : K) (xs : List A) (y : A) (ys : List A)
      → compare (key y) k ≡ Ordering.gt
      → without info k (xs ++ y ∷ ys) ≡ without info k xs ++ y ∷ ys
  unfolding without
  without-before k [] y ys h = rw (h, without) refl
  without-before k (z ∷ xs) y ys h = elim (Ordering-cases (compare (key z) k)) [
    | inl e ↦ ground (arith, without-before k xs y ys h)
    | inr (inl e) ↦ ground arith
    | inr (inr e) ↦ ground arith
  ]

  pub find-before :
      (k : K) (xs : List A) (y : A) (ys : List A)
      → compare (key y) k ≡ Ordering.gt
      → find info k (xs ++ y ∷ ys) ≡ find info k xs
  unfolding find
  find-before k [] y ys h = rw (h, find) refl
  find-before k (z ∷ xs) y ys h = elim (Ordering-cases (compare (key z) k)) [
    | inl e ↦ ground (arith, find-before k xs y ys h)
    | inr (inl e) ↦ ground arith
    | inr (inr e) ↦ ground arith
  ]

  without-beyond :
      (k : K) (xs ys : List A)
      → Before info k xs
      → without info k (xs ++ ys) ≡ xs ++ without info k ys
  unfolding without
  without-beyond k [] ys b = refl
  without-beyond k (z ∷ xs) ys b = rw b.0 (ap (λ l. z ∷ l) (without-beyond k xs ys b.1))

  find-beyond :
      (k : K) (xs ys : List A) → Before info k xs → find info k (xs ++ ys) ≡ find info k ys
  unfolding find
  find-beyond k [] ys b = refl
  find-beyond k (z ∷ xs) ys b = rw b.0 (find-beyond k xs ys b.1)

  module _ (order : IsOrder info) where
    -- on the right of an item with a lower key, and at the item with the key
    pub search_after :
        (k : K) (xs : List A) (y : A) (ys : List A)
        → compare (key y) k ≡ Ordering.lt
        → IsSorted info (xs ++ y ∷ ys)
        → (without info k (xs ++ y ∷ ys) ≡ xs ++ y ∷ without info k ys)
          × (find info k (xs ++ y ∷ ys) ≡ find info k ys)
    unfolding without find
    search_after k xs y ys h s =
        let low = Before-trans info order (key y) k xs h (IsSorted-split info order xs y ys s).0 in
        (
          without-beyond k xs (y ∷ ys) low ∙ rw (h, without) refl,
          find-beyond k xs (y ∷ ys) low ∙ rw (h, find) refl,
        )

    pub search_at :
        (k : K) (xs : List A) (y : A) (ys : List A)
        → compare (key y) k ≡ Ordering.eq
        → IsSorted info (xs ++ y ∷ ys)
        → (without info k (xs ++ y ∷ ys) ≡ xs ++ ys) × (find info k (xs ++ y ∷ ys) ≡ some y)
    unfolding without find
    search_at k xs y ys h s =
        let low : Before info k xs =
          rw (← order.same (key y) k h) (IsSorted-split info order xs y ys s).0 in
        (
          without-beyond k xs (y ∷ ys) low ∙ rw (h, without) refl,
          find-beyond k xs (y ∷ ys) low ∙ rw (h, find) refl,
        )

    After-insert :
        (k : K) (x : A) (xs : List A)
        → compare k (key x) ≡ Ordering.lt
        → After info k xs
        → After info k (insert info x xs)
    unfolding insert
    After-insert k x [] h a = (h, tt)
    After-insert k x (y ∷ ys) h a = elim (Ordering-cases (compare (key y) (key x))) [
      | inl e ↦ rw (e, insert) (a.0, After-insert k x ys h a.1)
      | inr (inl e) ↦ rw (e, insert) (h, a.1)
      | inr (inr e) ↦ rw (e, insert) (h, a)
    ]

    After-trans :
        (j k : K) (xs : List A) → compare j k ≡ Ordering.lt → After info k xs → After info j xs
    After-trans j k [] h a = tt
    After-trans j k (x ∷ xs) h a = (order.lt_trans j k (key x) h a.0, After-trans j k xs h a.1)

    pub insert-IsSorted :
        (x : A) (xs : List A) → IsSorted info xs → IsSorted info (insert info x xs)
    unfolding insert
    insert-IsSorted x [] s = (tt, tt)
    insert-IsSorted x (y ∷ ys) s = elim (Ordering-cases (compare (key y) (key x))) [
      | inl e ↦ rw (e, insert) (After-insert (key y) x ys e s.0, insert-IsSorted x ys s.1)
      | inr (inl e) ↦ rw (e, insert) (rw (← order.same (key y) (key x) e) s.0, s.1)
      | inr (inr e) ↦
          let below = order.gt_lt (key y) (key x) e in
          rw (e, insert) ((below, After-trans (key x) (key y) ys below s.0), s)
    ]

    After-without : (j k : K) (xs : List A) → After info j xs → After info j (without info k xs)
    unfolding without
    After-without j k [] a = tt
    After-without j k (y ∷ ys) a = elim (Ordering-cases (compare (key y) k)) [
      | inl e ↦ rw (e, without) (a.0, After-without j k ys a.1)
      | inr (inl e) ↦ rw (e, without) a.1
      | inr (inr e) ↦ rw (e, without) a
    ]

    pub without-IsSorted :
        (k : K) (xs : List A) → IsSorted info xs → IsSorted info (without info k xs)
    unfolding without
    without-IsSorted k [] s = tt
    without-IsSorted k (y ∷ ys) s = elim (Ordering-cases (compare (key y) k)) [
      | inl e ↦ rw (e, without) (After-without (key y) k ys s.0, without-IsSorted k ys s.1)
      | inr (inl e) ↦ rw (e, without) s.1
      | inr (inr e) ↦ rw (e, without) s
    ]
