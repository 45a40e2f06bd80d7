-- ===== src/Tree/Seek.antt =====
-- `z_tree_iter_seek_ge` and `z_tree_iter_seek_le`: the iterator at the least key from a key on, and
-- at the greatest up to it.
use Prim.Native.Nat.{Ordering}
use mathlib.Core.List.{append_assoc, append-nil}
use raleigh_fs.Common.{
  List, [], ◌∷◌, ◌++◌, take, ◌≡◌, ◌≢◌, ◌⊎◌, inl, inr, refl, sym, ap, ◌∙◌, arith,
}
use raleigh_fs.Common.Int.{ℤ}
use raleigh_fs.Tree.{Tree, leaf, node, TreeInfo}
use raleigh_fs.Tree.Detach.{Frame, in0, in1}
use raleigh_fs.Tree.Balance.{items}
use raleigh_fs.Tree.Sorted.{IsOrder, Ordering-cases, Before, IsSorted, IsSorted-split, Before-trans}
use raleigh_fs.Tree.Iter.{
  Position, down0, first, begin, open_iter, near_ceil, near_floor, seek_ge, seek_le, or_begin,
}
use raleigh_fs.Tree.Scan.{behind, ahead, onward, passed, position, passed-climb0, onward-climb1}

module _ {A : Type 0} where
  take_one :
      (xs : List A) (y : A) (ys zs : List A) → take 1 ((xs ++ y ∷ ys) ++ zs) ≡ take 1 (xs ++ y ∷ ys)
  take_one [] y ys zs = refl
  take_one (x ∷ xs) y ys zs = refl

  passed-down0 :
      (l : Tree A) (y : A) (b : ℤ) (r : Tree A) (stack : List (Frame A))
      → passed (down0 l y b r stack) ≡ ahead stack ++ take 1 (items (node l y b r))
  unfolding down0
  passed-down0 leaf y b r stack = refl
  passed-down0 (node ll ly lb lr) y b r stack =
      passed-down0 ll ly lb lr (in0 y b r ∷ stack)
      ∙ ap (λ xs. ahead stack ++ xs) (sym (take_one (items ll) ly (items lr) (y ∷ items r)))

  passed-begin : (t : Tree A) → passed (position (begin (open_iter t))) ≡ take 1 (items t)
  unfolding begin first
  passed-begin leaf = refl
  passed-begin (node l y b r) = passed-down0 l y b r []

  snoc-ne-nil : (xs : List A) (y : A) → xs ++ y ∷ [] ≢ []
  snoc-ne-nil [] y e = cc
  snoc-ne-nil (x ∷ xs) y e = cc

  passed-or_begin :
      (t : Tree A) (p : Position A) (xs : List A)
      → passed p ≡ xs
      → passed (position (or_begin p (open_iter t)))
        ≡ elim xs [ [] ↦ take 1 (items t) | x ∷ ys ↦ x ∷ ys ]
  passed-or_begin t (leaf, stack) [] e = passed-begin t
  passed-or_begin t (leaf, stack) (x ∷ xs) e = cc
  passed-or_begin t (node l y b r, stack) [] e =
      absurd
        (snoc-ne-nil (ahead stack ++ items l) y (append_assoc (ahead stack) (items l) (y ∷ []) ∙ e))
  passed-or_begin t (node l y b r, stack) (x ∷ xs) e = e

module _ {A K : Type 0} (info : TreeInfo A K) where
  open info use {key, compare}

  -- the items of a sorted list from a key on, and up to a key
  abbrev pub from_key : K → List A → List A
  from_key k [] = []
  from_key k (y ∷ ys) = elim (compare (key y) k) [
    | Ordering.lt ↦ from_key k ys
    | Ordering.eq ↦ y ∷ ys
    | Ordering.gt ↦ y ∷ ys
  ]

  abbrev pub up_to_key : K → List A → List A
  up_to_key k [] = []
  up_to_key k (y ∷ ys) = elim (compare (key y) k) [
    | Ordering.lt ↦ y ∷ up_to_key k ys
    | Ordering.eq ↦ y ∷ []
    | Ordering.gt ↦ []
  ]

  from_key-before :
      (k : K) (xs : List A) (y : A) (ys : List A)
      → compare (key y) k ≡ Ordering.gt
      → from_key k (xs ++ y ∷ ys) ≡ from_key k xs ++ y ∷ ys
  from_key-before k [] y ys h = rw h refl
  from_key-before k (z ∷ xs) y ys h = elim (Ordering-cases (compare (key z) k)) [
    | inl e ↦ ground (arith, from_key-before k xs y ys h)
    | inr (inl e) ↦ ground arith
    | inr (inr e) ↦ ground arith
  ]

  up_to_key-before :
      (k : K) (xs : List A) (y : A) (ys : List A)
      → compare (key y) k ≡ Ordering.gt
      → up_to_key k (xs ++ y ∷ ys) ≡ up_to_key k xs
  up_to_key-before k [] y ys h = rw h refl
  up_to_key-before k (z ∷ xs) y ys h = elim (Ordering-cases (compare (key z) k)) [
    | inl e ↦ ground (arith, up_to_key-before k xs y ys h)
    | inr (inl e) ↦ ground arith
    | inr (inr e) ↦ ground arith
  ]

  beyond :
      (k : K) (xs ys : List A)
      → Before info k xs
      → (from_key k (xs ++ ys) ≡ from_key k ys) × (up_to_key k (xs ++ ys) ≡ xs ++ up_to_key k ys)
  beyond k [] ys b = (refl, refl)
  beyond k (z ∷ xs) ys b = let (f, u) = beyond k xs ys b.1 in rw b.0 (f, ap (λ zs. z ∷ zs) u)

  module _ (order : IsOrder info) where
    low_side :
        (k : K) (xs : List A) (y : A) (ys : List A)
        → (compare (key y) k ≡ Ordering.lt) ⊎ (compare (key y) k ≡ Ordering.eq)
        → IsSorted info (xs ++ y ∷ ys)
        → Before info k xs
    low_side k xs y ys (inl h) s =
        Before-trans info order (key y) k xs h (IsSorted-split info order xs y ys s).0
    low_side k xs y ys (inr h) s =
        rw (← order.same (key y) k h) (IsSorted-split info order xs y ys s).0

    near_ceil_lem :
        (k : K) (t : Tree A) (stack : List (Frame A))
        → t ≢ leaf
        → IsSorted info (items t)
        → onward (near_ceil info k t stack) ≡ from_key k (items t) ++ behind stack
    unfolding near_ceil
    near_ceil_lem k leaf stack n s = absurd (n refl)
    near_ceil_lem k (node l y b r) stack n s =
        let sides = IsSorted-split info order (items l) y (items r) s in
        elim (Ordering-cases (compare (key y) k)) [
          | inl e ↦
              let low = low_side k (items l) y (items r) (inl e) s in
              to_right l y b r stack e
                ((beyond k (items l) (y ∷ items r) low).0 ∙ rw (e, from_key) refl)
                (λ m. near_ceil_lem k r (in1 l y b ∷ stack) m sides.3)
          | inr (inl e) ↦
              let low = low_side k (items l) y (items r) (inr e) s in
              rw (e, near_ceil) (rw ((beyond k (items l) (y ∷ items r) low).0, e, from_key) refl)
          | inr (inr e) ↦
              to_left l y b r stack e (from_key-before k (items l) y (items r) e)
                (λ m. near_ceil_lem k l (in0 y b r ∷ stack) m sides.1)
        ]
      where
        to_right :
            (l : Tree A) (y : A) (b : ℤ) (r : Tree A) (stack : List (Frame A))
            → compare (key y) k ≡ Ordering.lt
            → from_key k (items l ++ y ∷ items r) ≡ from_key k (items r)
            → (r ≢ leaf
                → onward (near_ceil info k r (in1 l y b ∷ stack))
                  ≡ from_key k (items r) ++ behind stack)
            → onward (near_ceil info k (node l y b r) stack)
              ≡ from_key k (items l ++ y ∷ items r) ++ behind stack
        to_right l y b leaf stack e f ih =
            rw (e, near_ceil) (rw f (onward-climb1 (node l y b leaf) stack))
        to_right l y b (node rl ry rb rr) stack e f ih = rw (e, near_ceil) (rw f (ih (λ z. cc)))

        to_left :
            (l : Tree A) (y : A) (b : ℤ) (r : Tree A) (stack : List (Frame A))
            → compare (key y) k ≡ Ordering.gt
            → from_key k (items l ++ y ∷ items r) ≡ from_key k (items l) ++ y ∷ items r
            → (l ≢ leaf
                → onward (near_ceil info k l (in0 y b r ∷ stack))
                  ≡ from_key k (items l) ++ y ∷ (items r ++ behind stack))
            → onward (near_ceil info k (node l y b r) stack)
              ≡ from_key k (items l ++ y ∷ items r) ++ behind stack
        to_left leaf y b r stack e f ih = rw (e, near_ceil) refl
        to_left (node ll ly lb lr) y b r stack e f ih =
            rw (e, near_ceil)
              (rw f (
                ih (λ z. cc)
                ∙ sym (
                    append_assoc (from_key k (items (node ll ly lb lr))) (y ∷ items r)
                      (behind stack))))

    near_floor_lem :
        (k : K) (t : Tree A) (stack : List (Frame A))
        → t ≢ leaf
        → IsSorted info (items t)
        → passed (near_floor info k t stack) ≡ ahead stack ++ up_to_key k (items t)
    unfolding near_floor
    near_floor_lem k leaf stack n s = absurd (n refl)
    near_floor_lem k (node l y b r) stack n s =
        let sides = IsSorted-split info order (items l) y (items r) s in
        elim (Ordering-cases (compare (key y) k)) [
          | inl e ↦
              let low = low_side k (items l) y (items r) (inl e) s in
              to_right l y b r stack e
                ((beyond k (items l) (y ∷ items r) low).1 ∙ rw (e, up_to_key) refl)
                (λ m. near_floor_lem k r (in1 l y b ∷ stack) m sides.3)
          | inr (inl e) ↦
              let low = low_side k (items l) y (items r) (inr e) s in
              rw (e, near_floor) (rw ((beyond k (items l) (y ∷ items r) low).1, e, up_to_key) refl)
          | inr (inr e) ↦
              to_left l y b r stack e (up_to_key-before k (items l) y (items r) e)
                (λ m. near_floor_lem k l (in0 y b r ∷ stack) m sides.1)
        ]
      where
        to_right :
            (l : Tree A) (y : A) (b : ℤ) (r : Tree A) (stack : List (Frame A))
            → compare (key y) k ≡ Ordering.lt
            → up_to_key k (items l ++ y ∷ items r) ≡ items l ++ y ∷ up_to_key k (items r)
            → (r ≢ leaf
                → passed (near_floor info k r (in1 l y b ∷ stack))
                  ≡ (ahead stack ++ (items l ++ y ∷ [])) ++ up_to_key k (items r))
            → passed (near_floor info k (node l y b r) stack)
              ≡ ahead stack ++ up_to_key k (items l ++ y ∷ items r)
        to_right l y b leaf stack e f ih = rw (e, near_floor) (rw f refl)
        to_right l y b (node rl ry rb rr) stack e f ih =
            rw (e, near_floor) (rw f (ih (λ z. cc) ∙ simp append_assoc))

        to_left :
            (l : Tree A) (y : A) (b : ℤ) (r : Tree A) (stack : List (Frame A))
            → compare (key y) k ≡ Ordering.gt
            → up_to_key k (items l ++ y ∷ items r) ≡ up_to_key k (items l)
            → (l ≢ leaf
                → passed (near_floor info k l (in0 y b r ∷ stack))
                  ≡ ahead stack ++ up_to_key k (items l))
            → passed (near_floor info k (node l y b r) stack)
              ≡ ahead stack ++ up_to_key k (items l ++ y ∷ items r)
        to_left leaf y b r stack e f ih =
            rw (e, near_floor)
              (passed-climb0 (node leaf y b r) stack ∙ sym (append-nil (ahead stack)))
        to_left (node ll ly lb lr) y b r stack e f ih = rw (e, near_floor) (rw f (ih (λ z. cc)))

    near_root :
        (k : K) (t : Tree A)
        → IsSorted info (items t)
        → (onward (near_ceil info k t []) ≡ from_key k (items t))
          × (passed (near_floor info k t []) ≡ up_to_key k (items t))
    unfolding near_ceil near_floor
    near_root k leaf s = (refl, refl)
    near_root k (node l y b r) s = (
      near_ceil_lem k (node l y b r) [] (λ z. cc) s
          ∙ append-nil (from_key k (items (node l y b r))),
      near_floor_lem k (node l y b r) [] (λ z. cc) s,
    )

    -- `z_tree_iter_seek_ge` leaves the items with a key from the given one on to go through.
    -- `z_tree_iter_seek_le` stands at the last item with a key up to the given one; where there is
    -- none it stands at the first item of the tree.
    pub seek_lem :
        (k : K) (t : Tree A)
        → IsSorted info (items t)
        → (onward (position (seek_ge info k (open_iter t))) ≡ from_key k (items t))
          × (passed (position (seek_le info k (open_iter t)))
              ≡ elim (up_to_key k (items t)) [ [] ↦ take 1 (items t) | x ∷ xs ↦ x ∷ xs ])
    unfolding seek_ge seek_le
    seek_lem k t s =
        let (c, f) = near_root k t s in
        (c, passed-or_begin t (near_floor info k t []) (up_to_key k (items t)) f)
