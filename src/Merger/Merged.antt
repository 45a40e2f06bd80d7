-- ===== src/Merger/Merged.antt =====
-- All that a merger answers.
use Prim.Native.Nat.{Ordering}
use mathlib.Core.Path.{subst}
use raleigh_fs.Common.{
  ℕ, zero, suc, ◌≤◌, ◌<◌, true, Option, none, some, List, [], ◌∷◌, ◌≡◌, inl, inr, refl, sym, ap,
  ◌∙◌, arith,
}
use raleigh_fs.Tree.{TreeInfo}
use raleigh_fs.Tree.Sorted.{IsOrder, IsSorted, After, find, Ordering-cases}
use raleigh_fs.Tree.Find.{find-After, After-trans}
use raleigh_fs.Merger.{MapIter, iter, Merger, advance, pick_all, next, outputs}
use raleigh_fs.Merger.Picked.{
  or_else, AllLive, AllAfter, AllOther, DistinctIters, first_found, total, Chosen, Chosen-other,
  pick-Left,
}
use raleigh_fs.Merger.Advanced.{first_found-After, Advanced, advance-Advanced}

module _ {E : Type 0} where
  abbrev pub merger_of : List (MapIter E) → Option ℕ → Merger E
  merger_of is a = record { merge_list = is; smallest_iter = a; skip_equals = true }

  -- the list that the next round looks at
  abbrev pub ready : List (MapIter E) → Option ℕ → List (MapIter E)
  ready is none = is
  ready is (some a) = advance a is

module _ {E K : Type 0} (info : TreeInfo E K) (order : IsOrder info) where
  open info use {key, compare}

  AllAfter-trans :
      (j i : K) (ms : List (MapIter E))
      → compare j i ≡ Ordering.lt
      → AllAfter info i ms
      → AllAfter info j ms
  AllAfter-trans j i [] h b = tt
  AllAfter-trans j i (iter y ys ∷ ms) h b =
      (After-trans info order j i ys h b.0, AllAfter-trans j i ms h b.1)

  Chosen-found :
      (a : ℕ) (s : E) (is : List (MapIter E))
      → Chosen info a s is
      → (k : K)
      → (compare (key s) k ≡ Ordering.eq → first_found info k is ≡ some s)
        × (compare (key s) k ≡ Ordering.gt → first_found info k is ≡ none)
  unfolding find
  Chosen-found a s [] c k = absurd (c refl)
  Chosen-found a s (iter x xs ∷ is) (inl (p, es, q, r)) k = (
    (λ g. rw (q, g, find) refl),
    (λ g.
        rw (q, g, find)
          (first_found-After info order k is
            (AllAfter-trans k (key s) is (order.gt_lt (key s) k g) r))),
  )
  Chosen-found a s (iter x xs ∷ is) (inr (p, h, c)) k =
      let (at_key, above) = Chosen-found a s is c k in
      (
        (λ g.
            let none_here : find info k xs ≡ none =
              subst (λ z. find info z xs ≡ none) (order.same (key s) k g)
                (find-After info order (key s) xs h) in
            rw none_here (at_key g)),
        (λ g.
            rw
              (find-After info order k xs
                (After-trans info order k (key s) xs (order.gt_lt (key s) k g) h))
              (above g)),
      )

  -- an entry that is found in iterators with greater keys
  After-found :
      (j : K) (is : List (MapIter E)) (o : E)
      → AllAfter info j is
      → first_found info (key o) is ≡ some o
      → compare j (key o) ≡ Ordering.lt
  After-found j is o h e = elim (Ordering-cases (compare j (key o))) [
    | inl g ↦ g
    | inr (inl g) ↦
        let missing : first_found info (key o) is ≡ none =
          subst (λ z. first_found info z is ≡ none) (order.same j (key o) g)
            (first_found-After info order j is h) in
        absurd (cc)
    | inr (inr g) ↦
        let missing : first_found info (key o) is ≡ none =
          first_found-After info order (key o) is
            (AllAfter-trans (key o) j is (order.gt_lt j (key o) g) h) in
        absurd (cc)
  ]

  After-outputs :
      (j : K) (is : List (MapIter E)) (out : List E)
      → AllAfter info j is
      → IsSorted info out
      → ((k : K) → find info k out ≡ first_found info k is)
      → After info j out
  unfolding find
  After-outputs j is [] h sorted same = tt
  After-outputs j is (o ∷ out) h sorted same =
      let first : compare j (key o) ≡ Ordering.lt =
        After-found j is o h (sym (same (key o)) ∙ rw (find, order.self (key o)) refl) in
      (first, After-trans info order j (key o) out first sorted.0)

  -- what the loop over the whole list picks
  abbrev Picked : List (MapIter E) → List (MapIter E) → ℕ → E → Type 0
  Picked is is' a s =
      (pick_all info true is ≡ some (is', some (s, a)))
      × Chosen info a s is'
      × AllLive info is'
      × DistinctIters info is'
      × ((k : K) → first_found info k is' ≡ first_found info k is)
      × (total info is' ≤ total info is)

  picked :
      (x : ℕ) (e : E) (es : List E) (is : List (MapIter E))
      → IsSorted info (e ∷ es)
      → AllOther info x is
      → AllLive info is
      → DistinctIters info is
      → (is' : List (MapIter E)) × (a : ℕ) × (s : E) × Picked (iter x (e ∷ es) ∷ is) is' a s
  unfolding pick_all find
  picked x e es is sorted other live d =
      let (is', a, s, ran, (live', d', others, ends, same, less)) =
        pick-Left info order x e is live d in
      (
        iter x (e ∷ es) ∷ is',
        a,
        s,
        (
          rw (pick_all, ran) refl,
          elim ends [
            | inl (p, q, r) ↦ inl (sym p, es, ap (λ z. z ∷ es) (sym q), rw q r)
            | inr (q, c) ↦ inr (
              Chosen-other info order a x s is' c (others x other),
              (q, After-trans info order (key s) (key e) es q sorted.0),
              c,
            )
          ],
          (sorted, live'),
          (others x other, d'),
          (λ k. elim (Ordering-cases (compare (key e) k)) [
            | inl g ↦ ap (or_else (find info k (e ∷ es))) (same k (λ z. cc))
            | inr (inl g) ↦ rw (find, g) refl
            | inr (inr g) ↦ ap (or_else (find info k (e ∷ es))) (same k (λ z. cc))
          ]),
          omega arith,
        ),
      )

  abbrev answer : Option (List (MapIter E) × Option (E × ℕ)) → Option (Option E × Merger E)
  answer none = none
  answer (some (is, none)) = some (none, merger_of is none)
  answer (some (is, some (e, a))) = some (some e, merger_of is (some a))

  next-ready :
      (i : MapIter E) (is : List (MapIter E)) (a : Option ℕ)
      → (o : Option (List (MapIter E) × Option (E × ℕ))) → pick_all info true (ready (i ∷ is) a) ≡ o
      → next info (merger_of (i ∷ is) a) ≡ answer o
  unfolding next
  next-ready i is none none q = rw (next, q) refl
  next-ready i is none (some (ms, none)) q = rw (next, q) refl
  next-ready i is none (some (ms, some (e, b))) q = rw (next, q) refl
  next-ready i is (some c) none q = rw (next, q) refl
  next-ready i is (some c) (some (ms, none)) q = rw (next, q) refl
  next-ready i is (some c) (some (ms, some (e, b))) q = rw (next, q) refl

  abbrev Merges : ℕ → Merger E → List (MapIter E) → Type 0
  Merges n m is =
      (out : List E) × (outputs info n m ≡ some out)
      × IsSorted info out
      × ((k : K) → find info k out ≡ first_found info k is)

  -- one entry before those of the later rounds
  one_more :
      (n : ℕ) (m : Merger E) (is is' : List (MapIter E)) (a : ℕ) (s : E)
      → next info m ≡ some (some s, merger_of is' (some a))
      → Picked is is' a s
      → Advanced info order a s is'
      → Merges n (merger_of is' (some a)) (advance a is')
      → Merges (suc n) m is
  unfolding outputs find
  one_more n m is is' a s ran (p, c, live, d, same, less) adv (out, later, sorted, found) = (
    s ∷ out,
    rw (outputs, ran, later) refl,
    (After-outputs (key s) (advance a is') out adv.3 sorted found, sorted),
    (λ k.
        let (at_key, above) = Chosen-found a s is' c k in
        elim (Ordering-cases (compare (key s) k)) [
          | inl g ↦ rw (find, g) (found k ∙ adv.4 k ∙ rw g (same k))
          | inr (inl g) ↦ rw (find, g) (sym (at_key g) ∙ same k)
          | inr (inr g) ↦ rw (find, g) (sym (above g) ∙ same k)
        ]),
  )

  -- For keys in an order: a merger with `skip_equals`, whose iterators, the last chosen one advanced,
  -- have addresses of their own and entries left that are sorted and without equal keys, answers in more calls than there are entries a sorted list without
  -- equal keys, in which each key has the entry that the first iterator with that key has for it.
  pub outputs_lem :
      (n : ℕ) (is : List (MapIter E)) (a : Option ℕ)
      → AllLive info (ready is a)
      → DistinctIters info (ready is a)
      → total info (ready is a) < n
      → (out : List E) × (outputs info n (merger_of is a) ≡ some out)
        × IsSorted info out
        × ((k : K) → find info k out ≡ first_found info k (ready is a))
  unfolding outputs advance find pick_all
  outputs_lem zero is a live d h = absurd (omega arith)
  outputs_lem (suc n) [] none live d h = ([], refl, tt, (λ k. refl))
  outputs_lem (suc n) [] (some a) live d h = ([], refl, tt, (λ k. refl))
  outputs_lem (suc n) (i ∷ is) a live d h =
      from (λ ms b. outputs_lem n ms b) (ready (i ∷ is) a) refl live d h
    where
      from :
          ((ms : List (MapIter E)) (b : Option ℕ)
            → AllLive info (ready ms b)
            → DistinctIters info (ready ms b)
            → total info (ready ms b) < n
            → Merges n (merger_of ms b) (ready ms b))
          → (ms : List (MapIter E)) → ready (i ∷ is) a ≡ ms
          → AllLive info ms
          → DistinctIters info ms
          → total info ms < suc n
          → Merges (suc n) (merger_of (i ∷ is) a) ms
      from rest [] q live d h =
          let ran = next-ready i is a (some ([], none)) (rw q refl) in
          ([], rw (outputs, ran) refl, tt, (λ k. refl))
      from rest (iter x [] ∷ ms) q live d h = absurd (live.0 refl)
      from rest (iter x (e ∷ es) ∷ ms) q live d h =
          let (is', b, s, p) = picked x e es ms live.0 d.0 live.1 d.1 in
          let adv = advance-Advanced info order b s is' p.1 p.2 p.3 in
          let fewer : total info (advance b is') < n =
            (let size = adv.5 in let less = p.5 in omega arith) in
          let ran = next-ready i is a (some (is', some (s, b))) (rw q p.0) in
          one_more n (merger_of (i ∷ is) a) (iter x (e ∷ es) ∷ ms) is' b s ran p adv
            (rest is' (some b) adv.0 adv.1 fewer)
