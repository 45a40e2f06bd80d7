-- ===== src/Merger/Advanced.antt =====
-- What the advance of the chosen iterator of a merger leaves.
use mathlib.Core.Path.{subst, ap₂}
use raleigh_fs.Common.{
  ℕ, suc, Option, none, List, [], ◌∷◌, ==-true, ==-false, ◌≡◌, inl, inr, refl, sym, ap, arith,
}
use raleigh_fs.Tree.{TreeInfo}
use raleigh_fs.Tree.Sorted.{IsOrder, IsSorted, After, find, Ordering-cases}
use raleigh_fs.Tree.Find.{at_same, find-After}
use raleigh_fs.Merger.{MapIter, iter, advance}
use raleigh_fs.Merger.Picked.{
  or_else, AllLive, AllAfter, AllOther, DistinctIters, first_found, total, Chosen, find_tail,
}

module _ {E K : Type 0} (info : TreeInfo E K) (order : IsOrder info) where
  open info use {key, compare}

  pub first_found-After :
      (k : K) (is : List (MapIter E)) → AllAfter info k is → first_found info k is ≡ none
  first_found-After k [] h = refl
  first_found-After k (iter x es ∷ is) h =
      rw (find-After info order k es h.0, first_found-After k is h.1) refl

  -- what is after the advance of the chosen iterator
  abbrev pub Advanced : ℕ → E → List (MapIter E) → Type 0
  Advanced a s is =
      let is' = advance a is in
      AllLive info is'
      × DistinctIters info is'
      × ((y : ℕ) → AllOther info y is → AllOther info y is')
      × AllAfter info (key s) is'
      × ((k : K)
          → first_found info k is' ≡ at_same (compare (key s) k) none (first_found info k is))
      × (total info is ≡ suc (total info is'))

  abbrev head_or : E → List E → E
  head_or e [] = e
  head_or e (x ∷ xs) = x

  -- The chosen iterator loses its entry, and no other has one with its key.
  found_here :
      (e : E) (es : List E) (is : List (MapIter E)) (k : K)
      → After info (key e) es
      → AllAfter info (key e) is
      → or_else (find info k es) (first_found info k is)
        ≡ at_same (compare (key e) k) none (or_else (find info k (e ∷ es)) (first_found info k is))
  found_here e es is k h r = elim (Ordering-cases (compare (key e) k)) [
    | inl g ↦ rw g (
        ap (λ o. or_else o (first_found info k is)) (sym (find_tail info order e es k h (λ z. cc))))
    | inr (inl g) ↦
        let same = order.same (key e) k g in
        rw (g, ← same, find-After info order (key e) es h, first_found-After (key e) is r) refl
    | inr (inr g) ↦ rw g (
        ap (λ o. or_else o (first_found info k is)) (sym (find_tail info order e es k h (λ z. cc))))
  ]

  chosen_first :
      (x : ℕ) (e : E) (es : List E) (is : List (MapIter E))
      → IsSorted info (e ∷ es)
      → AllLive info is
      → AllOther info x is
      → DistinctIters info is
      → AllAfter info (key e) is
      → Advanced x e (iter x (e ∷ es) ∷ is)
  unfolding advance find
  chosen_first x e [] is sorted live other d r =
      rw (==-true x) (live, d, (λ y o. o.1), r, (λ k. found_here e [] is k tt r), omega arith)
  chosen_first x e (f ∷ fs) is sorted live other d r = rw (==-true x) (
    (sorted.1, live),
    (other, d),
    (λ y o. (o.0, o.1)),
    (sorted.0, r),
    (λ k. found_here e (f ∷ fs) is k sorted.0 r),
    omega arith,
  )

  found_there :
      (s : E) (es : List E) (k : K) (o o' : Option E)
      → After info (key s) es
      → o ≡ at_same (compare (key s) k) none o'
      → or_else (find info k es) o ≡ at_same (compare (key s) k) none (or_else (find info k es) o')
  found_there s es k o o' h e = elim (Ordering-cases (compare (key s) k)) [
    | inl g ↦ rw (e, g) refl
    | inr (inl g) ↦ rw (e, g, ← order.same (key s) k g, find-After info order (key s) es h) refl
    | inr (inr g) ↦ rw (e, g) refl
  ]

  pub advance-Advanced :
      (a : ℕ) (s : E) (is : List (MapIter E))
      → Chosen info a s is
      → AllLive info is
      → DistinctIters info is
      → Advanced a s is
  unfolding advance
  advance-Advanced a s [] c live d = absurd (c refl)
  advance-Advanced a s (iter x [] ∷ is) c live d = absurd (live.0 refl)
  advance-Advanced a s (iter x (e ∷ es) ∷ is) (inl (p, es', q, r)) live d =
      let same : e ≡ s = ap (head_or e) q in
      let r' : AllAfter info (key e) is = rw same r in
      subst {A = ℕ × E} (λ z. Advanced z.0 z.1 (iter x (e ∷ es) ∷ is))
        (ap₂ (λ (u : ℕ) (v : E). (u, v)) p same) (chosen_first x e es is live.0 live.1 d.0 d.1 r')
  advance-Advanced a s (iter x (e ∷ es) ∷ is) (inr (p, h, c)) live d =
      let (live', d', others, after, found, size) = advance-Advanced a s is c live.1 d.1 in
      rw (==-false x a p) (
        (live.0, live'),
        (others x d.0, d'),
        (λ y o. (o.0, others y o.1)),
        (h, after),
        (λ k. found_there s (e ∷ es) k _ _ h (found k)),
        omega arith,
      )
