-- ===== src/Tree/Sorted.antt =====
-- Sorted lists without equal keys, the abstract view of a tree: what an order is, and how an
-- insertion and a removal go to one side of an item.
use Prim.Native.Nat.{Ordering}
use raleigh_fs.Common.{
  Option, none, some, List, [], ◌∷◌, ◌++◌, All, ◌≡◌, ◌⊎◌, inl, inr, refl, ap, ◌∙◌, arith,
}
use raleigh_fs.Tree.{TreeInfo}

-- What a tree asks of the comparison of its keys.
pub record IsOrder {A K : Type 0} (info : TreeInfo A K) : Type 0 where
  pub same : (j k : K) → info.compare j k ≡ Ordering.eq → j ≡ k
  pub self : (k : K) → info.compare k k ≡ Ordering.eq
  pub lt_gt : (j k : K) → info.compare j k ≡ Ordering.lt → info.compare k j ≡ Ordering.gt
  pub gt_lt : (j k : K) → info.compare j k ≡ Ordering.gt → info.compare k j ≡ Ordering.lt
  pub lt_trans :
      (i j k : K)
      → info.compare i j ≡ Ordering.lt
      → info.compare j k ≡ Ordering.lt
      → info.compare i k ≡ Ordering.lt

-- To split on a comparison and keep the equation.
pub Ordering-cases : (o : Ordering) → (o ≡ Ordering.lt) ⊎ (o ≡ Ordering.eq) ⊎ (o ≡ Ordering.gt)
Ordering-cases Ordering.lt = inl refl
Ordering-cases Ordering.eq = inr (inl refl)
Ordering-cases Ordering.gt = inr (inr refl)

module _ {A K : Type 0} (info : TreeInfo A K) where
  open info use {key, compare}

  abbrev pub Before : K → List A → Type 0
  Before k xs = All (λ a. compare (key a) k ≡ Ordering.lt) xs

  abbrev pub After : K → List A → Type 0
  After k xs = All (λ a. compare k (key a) ≡ Ordering.lt) xs

  abbrev pub IsSorted : List A → Type 0
  IsSorted [] = Unit
  IsSorted (x ∷ xs) = After (key x) xs × IsSorted xs

  -- the list with the item at its place, instead of one with its key
  unfoldable pub insert : A → List A → List A
  insert x [] = x ∷ []
  insert x (y ∷ ys) = elim (compare (key y) (key x)) [
    | Ordering.lt ↦ y ∷ insert x ys
    | Ordering.eq ↦ x ∷ ys
    | Ordering.gt ↦ x ∷ y ∷ ys
  ]

  -- the list without the item of a key, and the item
  unfoldable pub without : K → List A → List A
  without k [] = []
  without k (y ∷ ys) = elim (compare (key y) k) [
    | Ordering.lt ↦ y ∷ without k ys
    | Ordering.eq ↦ ys
    | Ordering.gt ↦ y ∷ ys
  ]

  unfoldable pub find : K → List A → Option A
  find k [] = none
  find k (y ∷ ys) = elim (compare (key y) k) [
    | Ordering.lt ↦ find k ys
    | Ordering.eq ↦ some y
    | Ordering.gt ↦ none
  ]

  module _ (order : IsOrder info) where
    -- What a sorted list with an item in the middle says of its two sides.
    pub IsSorted-split :
        (xs : List A) (y : A) (ys : List A)
        → IsSorted (xs ++ y ∷ ys)
        → Before (key y) xs × IsSorted xs × After (key y) ys × IsSorted ys
    IsSorted-split [] y ys s = (tt, tt, s.0, s.1)
    IsSorted-split (x ∷ xs) y ys s =
        let (b, l, a, r) = IsSorted-split xs y ys s.1 in
        ((After-middle xs s.0, b), (After-left xs s.0, l), a, r)
      where
        After-middle :
            (zs : List A) → After (key x) (zs ++ y ∷ ys) → compare (key x) (key y) ≡ Ordering.lt
        After-middle [] h = h.0
        After-middle (z ∷ zs) h = After-middle zs h.1

        After-left : (zs : List A) → After (key x) (zs ++ y ∷ ys) → After (key x) zs
        After-left [] h = tt
        After-left (z ∷ zs) h = (h.0, After-left zs h.1)

    pub Before-trans :
        (j k : K) (xs : List A) → compare j k ≡ Ordering.lt → Before j xs → Before k xs
    Before-trans j k [] h b = tt
    Before-trans j k (x ∷ xs) h b = (order.lt_trans (key x) j k b.0 h, Before-trans j k xs h b.1)

    pub insert-before :
        (x : A) (xs : List A) (y : A) (ys : List A)
        → compare (key y) (key x) ≡ Ordering.gt
        → insert x (xs ++ y ∷ ys) ≡ insert x xs ++ y ∷ ys
    unfolding insert
    insert-before x [] y ys h = rw h refl
    insert-before x (z ∷ xs) y ys h = elim (Ordering-cases (compare (key z) (key x))) [
      | inl e ↦ ground (arith, insert-before x xs y ys h)
      | inr (inl e) ↦ ground arith
      | inr (inr e) ↦ ground arith
    ]

    pub insert-beyond :
        (x : A) (xs ys : List A) → Before (key x) xs → insert x (xs ++ ys) ≡ xs ++ insert x ys
    unfolding insert
    insert-beyond x [] ys b = refl
    insert-beyond x (z ∷ xs) ys b = rw b.0 (ap (λ l. z ∷ l) (insert-beyond x xs ys b.1))

    pub insert-after :
        (x : A) (xs : List A) (y : A) (ys : List A)
        → compare (key y) (key x) ≡ Ordering.lt
        → IsSorted (xs ++ y ∷ ys)
        → insert x (xs ++ y ∷ ys) ≡ xs ++ y ∷ insert x ys
    unfolding insert
    insert-after x xs y ys h s =
        let below = Before-trans (key y) (key x) xs h (IsSorted-split xs y ys s).0 in
        insert-beyond x xs (y ∷ ys) below ∙ rw (h, insert) refl

    pub insert-instead :
        (x : A) (xs : List A) (y : A) (ys : List A)
        → compare (key y) (key x) ≡ Ordering.eq
        → IsSorted (xs ++ y ∷ ys)
        → insert x (xs ++ y ∷ ys) ≡ xs ++ x ∷ ys
    unfolding insert
    insert-instead x xs y ys h s =
        let below : Before (key x) xs =
          rw (← order.same (key y) (key x) h) (IsSorted-split xs y ys s).0 in
        insert-beyond x xs (y ∷ ys) below ∙ rw (h, insert) refl
