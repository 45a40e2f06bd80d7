-- ===== src/Merger/Picked.antt =====
-- What one round of the merger picks.
use Prim.Native.Nat.{Ordering}
use raleigh_fs.Common.{
  ℕ, ◌+◌, ◌≤◌, true, Option, none, some, List, [], ◌∷◌, length, ◌≡◌, ◌≢◌, ◌⊎◌, inl, inr, refl, sym,
  ap, ◌∙◌, arith,
}
use raleigh_fs.Tree.{TreeInfo}
use raleigh_fs.Tree.Sorted.{IsOrder, IsSorted, After, find, Ordering-cases}
use raleigh_fs.Tree.Find.{find-After, After-trans}
use raleigh_fs.Merger.{MapIter, iter, stepped, pick}

abbrev pub or_else : {A : Type 0} → Option A → Option A → Option A
or_else none o = o
or_else (some a) o = some a

module _ {E K : Type 0} (info : TreeInfo E K) where
  open info use {key, compare}

  abbrev pub LiveIter : MapIter E → Type 0
  LiveIter (iter x []) = (x ≢ x)
  LiveIter (iter x (e ∷ es)) = IsSorted info (e ∷ es)

  abbrev pub AllLive : List (MapIter E) → Type 0
  AllLive [] = Unit
  AllLive (i ∷ is) = LiveIter i × AllLive is

  abbrev pub AllAfter : K → List (MapIter E) → Type 0
  AllAfter k [] = Unit
  AllAfter k (iter x es ∷ is) = After info k es × AllAfter k is

  abbrev pub AllOther : ℕ → List (MapIter E) → Type 0
  AllOther a [] = Unit
  AllOther a (iter x es ∷ is) = (x ≢ a) × AllOther a is

  abbrev pub DistinctIters : List (MapIter E) → Type 0
  DistinctIters [] = Unit
  DistinctIters (iter x es ∷ is) = AllOther x is × DistinctIters is

  -- what the first of the iterators that has a key has there
  abbrev pub first_found : K → List (MapIter E) → Option E
  first_found k [] = none
  first_found k (iter x es ∷ is) = or_else (find info k es) (first_found k is)

  abbrev pub total : List (MapIter E) → ℕ
  total [] = 0
  total (iter x es ∷ is) = length es + total is

  -- the iterator that is chosen, among others with greater keys
  abbrev pub Chosen : ℕ → E → List (MapIter E) → Type 0
  Chosen a s [] = (a ≢ a)
  Chosen a s (iter x xs ∷ is) =
      ((x ≡ a) × (es : List E) × (xs ≡ s ∷ es) × AllAfter (key s) is)
      ⊎ ((x ≢ a) × After info (key s) xs × Chosen a s is)

  -- what was picked: the entry before these iterators, or one of theirs
  abbrev pub Ends : ℕ → E → List (MapIter E) → ℕ → E → Type 0
  Ends a s is' a' s' =
      ((a' ≡ a) × (s' ≡ s) × AllAfter (key s) is')
      ⊎ ((compare (key s') (key s) ≡ Ordering.lt) × Chosen a' s' is')

  -- the iterators that a round leaves
  abbrev pub Left : ℕ → E → List (MapIter E) → List (MapIter E) → ℕ → E → Type 0
  Left a s is is' a' s' =
      AllLive is'
      × DistinctIters is'
      × ((x : ℕ) → AllOther x is → AllOther x is')
      × Ends a s is' a' s'
      × ((k : K) → compare (key s) k ≢ Ordering.eq → first_found k is' ≡ first_found k is)
      × (total is' ≤ total is)

  module _ (order : IsOrder info) where
    pub find_tail :
        (e : E) (es : List E) (k : K)
        → After info (key e) es
        → compare (key e) k ≢ Ordering.eq
        → find info k (e ∷ es) ≡ find info k es
    unfolding find
    find_tail e es k after differ = elim (Ordering-cases (compare (key e) k)) [
      | inl h ↦ rw (h, find) refl
      | inr (inl h) ↦ absurd (differ h)
      | inr (inr h) ↦
          rw (h, find)
            (sym (
              find-After info order k es
                (After-trans info order k (key e) es (order.gt_lt (key e) k h) after)))
    ]

    pub Chosen-other :
        (a x : ℕ) (s : E) (is : List (MapIter E)) → Chosen a s is → AllOther x is → x ≢ a
    Chosen-other a x s [] c o = absurd (c refl)
    Chosen-other a x s (iter y ys ∷ is) (inl c) o = λ e. o.0 (c.0 ∙ sym e)
    Chosen-other a x s (iter y ys ∷ is) (inr c) o = Chosen-other a x s is c.2 o.1

    -- an iterator with a lower key, one with the same and one with a greater key
    lower-Left :
        (a : ℕ) (s : E) (x : ℕ) (e : E) (es : List E) (is is' : List (MapIter E)) (a' : ℕ) (s' : E)
        → compare (key e) (key s) ≡ Ordering.lt
        → IsSorted info (e ∷ es)
        → AllOther x is
        → Left x e is is' a' s'
        → Left a s (iter x (e ∷ es) ∷ is) (iter x (e ∷ es) ∷ is') a' s'
    unfolding find
    lower-Left a s x e es is is' a' s' h sorted other (live, d, others, ends, same, less) = (
      (sorted, live),
      (others x other, d),
      (λ y o. (o.0, others y o.1)),
      elim ends [
        | inl (p, q, r) ↦ inr (rw q h, inl (sym p, es, ap (λ z. z ∷ es) (sym q), rw q r))
        | inr (q, c) ↦ inr (
          order.lt_trans (key s') (key e) (key s) q h,
          inr (
            Chosen-other a' x s' is' c (others x other),
            (q, After-trans info order (key s') (key e) es q sorted.0),
            c,
          ),
        )
      ],
      (λ k differ. elim (Ordering-cases (compare (key e) k)) [
        | inl g ↦ ap (or_else (find info k (e ∷ es))) (same k (λ z. cc))
        | inr (inl g) ↦ rw (g, find) refl
        | inr (inr g) ↦ ap (or_else (find info k (e ∷ es))) (same k (λ z. cc))
      ]),
      omega arith,
    )

    higher-Left :
        (a : ℕ) (s : E) (x : ℕ) (e : E) (es : List E) (is is' : List (MapIter E)) (a' : ℕ) (s' : E)
        → compare (key e) (key s) ≡ Ordering.gt
        → IsSorted info (e ∷ es)
        → AllOther x is
        → Left a s is is' a' s'
        → Left a s (iter x (e ∷ es) ∷ is) (iter x (e ∷ es) ∷ is') a' s'
    higher-Left a s x e es is is' a' s' h sorted other (live, d, others, ends, same, less) =
        let up = order.gt_lt (key e) (key s) h in
        (
          (sorted, live),
          (others x other, d),
          (λ y o. (o.0, others y o.1)),
          elim ends [
            | inl (p, q, r) ↦
                inl (p, q, ((up, After-trans info order (key s) (key e) es up sorted.0), r))
            | inr (q, c) ↦
                let up' = order.lt_trans (key s') (key s) (key e) q up in
                inr (
                  q,
                  inr (
                    Chosen-other a' x s' is' c (others x other),
                    (up', After-trans info order (key s') (key e) es up' sorted.0),
                    c,
                  ),
                )
          ],
          (λ k differ. ap (or_else (find info k (e ∷ es))) (same k differ)),
          omega arith,
        )

    -- the one with the same key goes on to its next entry, if it has one
    ended-Left :
        (a : ℕ) (s : E) (x : ℕ) (e : E) (is is' : List (MapIter E)) (a' : ℕ) (s' : E)
        → compare (key e) (key s) ≡ Ordering.eq
        → Left a s is is' a' s'
        → Left a s (iter x (e ∷ []) ∷ is) is' a' s'
    unfolding find
    ended-Left a s x e is is' a' s' h (live, d, others, ends, same, less) =
        let equal = order.same (key e) (key s) h in
        (
          live,
          d,
          (λ y o. others y o.1),
          ends,
          (λ k differ.
              same k differ
              ∙ ap (λ o. or_else o (first_found k is))
                  (sym (find_tail e [] k tt (rw equal differ)))),
          omega arith,
        )

    stepped-Left :
        (a : ℕ) (s : E) (x : ℕ) (e f : E) (fs : List E) (is is' : List (MapIter E)) (a' : ℕ)
        (s' : E)
        → compare (key e) (key s) ≡ Ordering.eq
        → IsSorted info (e ∷ f ∷ fs)
        → AllOther x is
        → Left a s is is' a' s'
        → Left a s (iter x (e ∷ f ∷ fs) ∷ is) (iter x (f ∷ fs) ∷ is') a' s'
    stepped-Left a s x e f fs is is' a' s' h sorted other (live, d, others, ends, same, less) =
        let equal = order.same (key e) (key s) h in
        let up : compare (key s) (key f) ≡ Ordering.lt = rw (← equal) sorted.0.0 in
        (
          (sorted.1, live),
          (others x other, d),
          (λ y o. (o.0, others y o.1)),
          elim ends [
            | inl (p, q, r) ↦
                inl (p, q, ((up, After-trans info order (key s) (key f) fs up sorted.1.0), r))
            | inr (q, c) ↦
                let up' = order.lt_trans (key s') (key s) (key f) q up in
                inr (
                  q,
                  inr (
                    Chosen-other a' x s' is' c (others x other),
                    (up', After-trans info order (key s') (key f) fs up' sorted.1.0),
                    c,
                  ),
                )
          ],
          (λ k differ.
              ap (λ o. or_else o (first_found k is'))
                (sym (find_tail e (f ∷ fs) k sorted.0 (rw equal differ)))
              ∙ ap (or_else (find info k (e ∷ f ∷ fs))) (same k differ)),
          omega arith,
        )

    pub pick-Left :
        (a : ℕ) (s : E) (is : List (MapIter E))
        → AllLive is
        → DistinctIters is
        → (is' : List (MapIter E)) × (a' : ℕ) × (s' : E) × (pick info true a s is
            ≡ some (is', s', a'))
          × Left a s is is' a' s'
    unfolding pick
    pick-Left a s [] live d =
        ([], a, s, refl, (tt, tt, (λ x h. tt), inl (refl, refl, tt), (λ k d. refl), omega arith))
    pick-Left a s (iter x [] ∷ is) live d = absurd (live.0 refl)
    pick-Left a s (iter x (e ∷ es) ∷ is) live d = elim (Ordering-cases (compare (key e) (key s))) [
      | inl h ↦
          let (is', a', s', ran, left) = pick-Left x e is live.1 d.1 in
          (
            iter x (e ∷ es) ∷ is',
            a',
            s',
            rw (pick, h, ran) refl,
            lower-Left a s x e es is is' a' s' h live.0 d.0 left,
          )
      | inr (inl h) ↦
          let (is', a', s', ran, left) = pick-Left a s is live.1 d.1 in
          (stepped x es is', a', s', rw (pick, h, ran) refl, same_left es is' a' s' h live.0 left)
      | inr (inr h) ↦
          let (is', a', s', ran, left) = pick-Left a s is live.1 d.1 in
          (
            iter x (e ∷ es) ∷ is',
            a',
            s',
            rw (pick, h, ran) refl,
            higher-Left a s x e es is is' a' s' h live.0 d.0 left,
          )
    ]
      where
        same_left :
            (es : List E) (is' : List (MapIter E)) (a' : ℕ) (s' : E)
            → compare (key e) (key s) ≡ Ordering.eq
            → IsSorted info (e ∷ es)
            → Left a s is is' a' s'
            → Left a s (iter x (e ∷ es) ∷ is) (stepped x es is') a' s'
        same_left [] is' a' s' h sorted left = ended-Left a s x e is is' a' s' h left
        same_left (f ∷ fs) is' a' s' h sorted left =
            stepped-Left a s x e f fs is is' a' s' h sorted d.0 left
