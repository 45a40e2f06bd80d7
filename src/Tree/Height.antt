-- ===== src/Tree/Height.antt =====
-- Z_TREE_MAX_HEIGHT: how many levels a balanced tree has, and how deep the stacks of the attach and
-- the detach get.
use Prim.Native.Nat.{Ordering}
use raleigh_fs.Common.{
  ℕ, zero, suc, ◌+◌, ◌≤◌, ◌<◌, Bool, true, false, Option, none, some, List, [], ◌∷◌, ◌++◌,
  if◌then◌else◌, length, length-append, Bool-cases, ◌==◌, ltb, ◌≡◌, ◌⊎◌, inl, inr, refl, arith,
}
use raleigh_fs.Common.Int.{ℤ, pos, eq_ℤ}
use raleigh_fs.Tree.{Tree, leaf, node, TreeInfo, max, levels, Place, taken, vacant, insert_lookup}
use raleigh_fs.Tree.Detach.{Frame, in0, in1, Found, leftmost, descend}
use raleigh_fs.Tree.Balance.{IsBalanced, items}
use raleigh_fs.Tree.Sorted.{Ordering-cases}

-- The fewest nodes of a balanced tree with `h` levels, and with one more.
fewest : ℕ → ℕ × ℕ
fewest zero = (0, 1)
fewest (suc h) = let (a, b) = fewest h in (b, a + b + 1)

fewest_up : (h : ℕ) → (fewest h).0 ≤ (fewest h).1
unfolding fewest
fewest_up zero = omega arith
fewest_up (suc h) = omega arith

fewest_next : (h : ℕ) → (fewest h).1 ≤ (fewest h).0 + (fewest h).0 + 1
unfolding fewest
fewest_next zero = omega arith
fewest_next (suc h) = omega (arith, fewest_up h)

fewest_pos : (h : ℕ) → 1 ≤ (fewest h).1
unfolding fewest
fewest_pos zero = omega arith
fewest_pos (suc h) = omega arith

fewest_mono : (h k : ℕ) → h ≤ k → ((fewest h).0 ≤ (fewest k).0) × ((fewest h).1 ≤ (fewest k).1)
unfolding fewest
fewest_mono zero k le = (omega arith, fewest_pos k)
fewest_mono (suc h) zero le = absurd (omega arith)
fewest_mono (suc h) (suc k) le = let (low, high) = fewest_mono h k (omega arith) in omega arith

near_cases : (m n : ℕ) → m ≤ n + 1 → n ≤ m + 1 → (m ≡ n) ⊎ (m ≡ suc n) ⊎ (n ≡ suc m)
near_cases m n h k = elim (Bool-cases (m == n)) [
  | inl e ↦ inl (ground arith)
  | inr e ↦ elim (Bool-cases (ltb m n)) [
    | inl f ↦ inr (inr (ground arith))
    | inr f ↦ inr (inl (ground arith))
  ]
]

-- Two trees whose levels differ by one at most, under a node.
fewest_node :
    (m n : ℕ) → m ≤ n + 1 → n ≤ m + 1 → (fewest (1 + max m n)).0 ≤ (fewest m).0 + (fewest n).0 + 1
unfolding fewest
fewest_node m n h k = elim (near_cases m n h k) [
  | inl e ↦
      let top : 1 + max m n ≡ suc n = ground arith in rw (top, e) (omega (arith, fewest_next n))
  | inr (inl e) ↦ let top : 1 + max m n ≡ suc (suc n) = ground arith in rw (top, e) (omega arith)
  | inr (inr e) ↦ let top : 1 + max m n ≡ suc (suc m) = ground arith in rw (top, e) (omega arith)
]

fewest_33 : (fewest 33).0 ≡ 9227464
unfolding fewest
fewest_33 = refl

module _ {A : Type 0} where
  fewest-le : (t : Tree A) → IsBalanced t → (fewest (levels t)).0 ≤ length (items t)
  unfolding fewest levels
  fewest-le leaf b = omega arith
  fewest-le (node l x c r) b =
      let left = fewest-le l b.0 in
      let right = fewest-le r b.1 in
      let size = length-append (items l) (x ∷ items r) in
      let here = fewest_node (levels l) (levels r) (omega arith) (omega arith) in omega arith

  -- the frames of the walk from a `child[1]` to the node that takes the place of its parent
  abbrev pub successor_depth : Tree A → ℕ
  successor_depth leaf = 0
  successor_depth (node l y b r) = 1 + length (leftmost l y b r []).stack

  leftmost_depth :
      (l : Tree A) (y : A) (b : ℤ) (r : Tree A) (above : List (Frame A))
      → let s = leftmost l y b r above in
        length s.stack + 1 + levels s.child1 ≤ length above + levels (node l y b r)
  unfolding leftmost levels
  leftmost_depth leaf y b r above = ground arith
  leftmost_depth (node ll ly lb lr) y b r above =
      let rest = leftmost_depth ll ly lb lr (in0 y b r ∷ above) in ground arith

  few_levels : (t : Tree A) → IsBalanced t → length (items t) < 9227464 → levels t ≤ 32
  few_levels t b small = elim (Bool-cases (ltb 32 (levels t))) [
    | inl high ↦
        let many = (fewest_mono 33 (levels t) (ground arith)).0 in
        let size = fewest-le t b in absurd (omega (arith, fewest_33))
    | inr low ↦ ground arith
  ]

way_step :
    (c : Bool) (above dstack : List Bool) (d : Bool)
    → length (if c then above else above ++ dstack) + length ((if c then dstack else []) ++ d ∷ [])
      ≡ length above + length dstack + 1
way_step true above dstack d = omega (arith, length-append dstack (d ∷ []))
way_step false above dstack d = omega (arith, length-append above dstack)

module _ {A K : Type 0} (info : TreeInfo A K) where
  open info use {key, compare}

  abbrev pub StackWithin : ℕ → Option (Found A) → Type 0
  StackWithin n none = Unit
  StackWithin n (some f) = length f.stack + levels (node f.child0 f.item f.balance f.child1) ≤ n

  -- the entries that `__do_remove` uses
  abbrev pub RemovalWithin : ℕ → Option (Found A) → Type 0
  RemovalWithin n none = Unit
  RemovalWithin n (some f) = 1 + length f.stack + successor_depth f.child1 ≤ n

  StackWithin-le : (m n : ℕ) (o : Option (Found A)) → m ≤ n → StackWithin m o → StackWithin n o
  StackWithin-le m n none h s = tt
  StackWithin-le m n (some f) h s = omega arith

  descend_depth :
      (k : K) (t : Tree A) (stack : List (Frame A))
      → StackWithin (length stack + levels t) (descend info k t stack)
  unfolding descend levels
  descend_depth k leaf stack = tt
  descend_depth k (node l y b r) stack = elim (Ordering-cases (compare (key y) k)) [
    | inl e ↦
        rw (e, descend)
          (StackWithin-le _ _ _ (ground arith) (descend_depth k r (in1 l y b ∷ stack)))
    | inr (inl e) ↦ rw (e, descend) (omega arith)
    | inr (inr e) ↦
        rw (e, descend)
          (StackWithin-le _ _ _ (ground arith) (descend_depth k l (in0 y b r ∷ stack)))
  ]

  -- The way of an attach, to the node with its key or to a missing child. `dstack` is at any time a
  -- part of the way so far.
  abbrev pub WayWithin : ℕ → Place → Type 0
  WayWithin n (taken path) = length path ≤ n
  WayWithin n (vacant above dstack) = length above + length dstack ≤ n

  insert_lookup_depth :
      (x : A) (t : Tree A) (above dstack : List Bool) (n : ℕ)
      → length above + length dstack + levels t ≤ n
      → WayWithin n (insert_lookup info x t above dstack)
  unfolding insert_lookup levels
  insert_lookup_depth x leaf above dstack n h = omega arith
  insert_lookup_depth x (node l y b r) above dstack n h =
      let kept = way_step (eq_ℤ b (pos 0)) above dstack in
      elim (Ordering-cases (compare (key y) (key x))) [
        | inl e ↦
            let long = kept true in
            rw (e, insert_lookup) (insert_lookup_depth x r _ _ n (ground arith))
        | inr (inl e) ↦ rw (e, insert_lookup) (omega (arith, length-append above dstack))
        | inr (inr e) ↦
            let long = kept false in
            rw (e, insert_lookup) (insert_lookup_depth x l _ _ n (ground arith))
      ]

  -- the nodes that the loop of `__avl_detach` goes past, whether it finds the key or not
  unfoldable pub walked : K → Tree A → ℕ
  walked k leaf = 0
  walked k (node l y b r) = elim (compare (key y) k) [
    | Ordering.lt ↦ 1 + walked k r
    | Ordering.eq ↦ 0
    | Ordering.gt ↦ 1 + walked k l
  ]

  walked-le : (k : K) (t : Tree A) → walked k t ≤ levels t
  unfolding walked levels
  walked-le k leaf = omega arith
  walked-le k (node l y b r) =
      let left = walked-le k l in
      let right = walked-le k r in
      elim (Ordering-cases (compare (key y) k)) [
        | inl e ↦ rw (e, walked) (ground arith)
        | inr (inl e) ↦ rw (e, walked) (omega arith)
        | inr (inr e) ↦ rw (e, walked) (ground arith)
      ]

  removal_depth-le : (n : ℕ) (o : Option (Found A)) → StackWithin n o → RemovalWithin (n + 1) o
  unfolding levels
  removal_depth-le n none h = tt
  removal_depth-le n (some f) h = removed f.child1 (ground arith)
    where
      removed :
          (c : Tree A)
          → length f.stack + 1 + levels c ≤ n
          → 1 + length f.stack + successor_depth c ≤ n + 1
      removed leaf e = omega arith
      removed (node l y b r) e = let deep = leftmost_depth l y b r [] in omega arith

  -- A balanced tree of less than 9,227,464 nodes has 32 levels at most, and the stacks of 33 entries
  -- hold what they have to: the way of an attach, whether it finds its key or not; and, of a detach,
  -- the pointer to the root with the nodes that it goes past, whether it finds the key or not, and,
  -- if it does, with the nodes on to the one that takes the place of the key's.
  pub stacks_fit :
      (t : Tree A) (x : A) (k : K)
      → IsBalanced t
      → length (items t) < 9227464
      → (levels t ≤ 32)
        × WayWithin 32 (insert_lookup info x t [] [])
        × (1 + walked k t ≤ 33)
        × RemovalWithin 33 (descend info k t [])
  stacks_fit t x k b small =
      let low : levels t ≤ 32 = few_levels t b small in
      (
        low,
        insert_lookup_depth x t [] [] 32 (omega arith),
        omega (arith, walked-le k t),
        removal_depth-le 32 _ (StackWithin-le _ 32 _ (omega arith) (descend_depth k t [])),
      )
