-- ===== src/Tree/Way.antt =====
-- `__do_insert_lookup`: where it ends, and what a change at the end of a path does to the tree.
use Prim.Native.Nat.{Ordering}
use mathlib.Core.Path.{subst}
use raleigh_fs.Common.{
  zero, suc, Bool, true, false, List, [], ◌∷◌, ◌++◌, ◌≡◌, ◌≢◌, ◌⊎◌, inl, inr, refl, sym, arith,
  if◌then◌else◌, ==-false,
}
use raleigh_fs.Common.Int.{ℤ, pos, negsuc, eq_ℤ}
use raleigh_fs.Tree.{Tree, leaf, node, TreeInfo, Place, taken, vacant, insert_lookup}
use raleigh_fs.Tree.Balance.{root_balance}
use raleigh_fs.Tree.Lean.{Flat, FlatBelow}
use raleigh_fs.Tree.Sorted.{Ordering-cases}

module _ {A : Type 0} where
  -- The path leads to the subtree.
  abbrev pub Leads : List Bool → Tree A → Tree A → Type 0
  Leads [] t q = t ≡ q
  Leads (d ∷ ds) leaf q = ⊥
  Leads (false ∷ ds) (node l y b r) q = Leads ds l q
  Leads (true ∷ ds) (node l y b r) q = Leads ds r q

  -- ... by nodes that do not lean, and by such nodes after the first.
  abbrev pub Level : List Bool → Tree A → Tree A → Type 0
  Level [] t q = t ≡ q
  Level (d ∷ ds) leaf q = ⊥
  Level (false ∷ ds) (node l y b r) q = (b ≡ pos 0) × Level ds l q
  Level (true ∷ ds) (node l y b r) q = (b ≡ pos 0) × Level ds r q

  abbrev pub LevelBelow : List Bool → Tree A → Tree A → Type 0
  LevelBelow [] t q = t ≡ q
  LevelBelow (d ∷ ds) leaf q = ⊥
  LevelBelow (false ∷ ds) (node l y b r) q = Level ds l q
  LevelBelow (true ∷ ds) (node l y b r) q = Level ds r q

  abbrev child : Bool → Tree A → Tree A → Tree A
  child false l r = l
  child true l r = r

  Level-snoc :
      (ds : List Bool) (d : Bool) (p l : Tree A) (y : A) (r : Tree A)
      → Level ds p (node l y (pos 0) r)
      → Level (ds ++ d ∷ []) p (child d l r)
  Level-snoc [] false p l y r h = subst (λ t. Level (false ∷ []) t l) (sym h) (refl, refl)
  Level-snoc [] true p l y r h = subst (λ t. Level (true ∷ []) t r) (sym h) (refl, refl)
  Level-snoc (e ∷ ds) d leaf l y r h = absurd h
  Level-snoc (false ∷ ds) d (node pl py pb pr) l y r h = (h.0, Level-snoc ds d pl l y r h.1)
  Level-snoc (true ∷ ds) d (node pl py pb pr) l y r h = (h.0, Level-snoc ds d pr l y r h.1)

  pub LevelBelow-snoc :
      (ds : List Bool) (d : Bool) (p l : Tree A) (y : A) (r : Tree A)
      → LevelBelow ds p (node l y (pos 0) r)
      → LevelBelow (ds ++ d ∷ []) p (child d l r)
  LevelBelow-snoc [] false p l y r h = subst (λ t. LevelBelow (false ∷ []) t l) (sym h) refl
  LevelBelow-snoc [] true p l y r h = subst (λ t. LevelBelow (true ∷ []) t r) (sym h) refl
  LevelBelow-snoc (e ∷ ds) d leaf l y r h = absurd h
  LevelBelow-snoc (false ∷ ds) d (node pl py pb pr) l y r h = Level-snoc ds d pl l y r h
  LevelBelow-snoc (true ∷ ds) d (node pl py pb pr) l y r h = Level-snoc ds d pr l y r h

  LevelBelow-one :
      (d : Bool) (l : Tree A) (y : A) (b : ℤ) (r : Tree A)
      → LevelBelow (d ∷ []) (node l y b r) (child d l r)
  LevelBelow-one false l y b r = refl
  LevelBelow-one true l y b r = refl

  Level-Flat : (ds : List Bool) (p : Tree A) → Level ds p leaf → Flat ds p
  Level-Flat [] leaf h = tt
  Level-Flat [] (node l y b r) h = cc
  Level-Flat (d ∷ ds) leaf h = absurd h
  Level-Flat (false ∷ ds) (node l y b r) h = (h.0, Level-Flat ds l h.1)
  Level-Flat (true ∷ ds) (node l y b r) h = (h.0, Level-Flat ds r h.1)

  pub LevelBelow-FlatBelow : (ds : List Bool) (p : Tree A) → LevelBelow ds p leaf → FlatBelow ds p
  LevelBelow-FlatBelow [] leaf h = tt
  LevelBelow-FlatBelow [] (node l y b r) h = cc
  LevelBelow-FlatBelow (d ∷ ds) leaf h = absurd h
  LevelBelow-FlatBelow (false ∷ ds) (node l y b r) h = Level-Flat ds l h
  LevelBelow-FlatBelow (true ∷ ds) (node l y b r) h = Level-Flat ds r h

  Level-Leads : (ds : List Bool) (p q : Tree A) → Level ds p q → Leads ds p q
  Level-Leads [] p q h = h
  Level-Leads (d ∷ ds) leaf q h = h
  Level-Leads (false ∷ ds) (node l y b r) q h = Level-Leads ds l q h.1
  Level-Leads (true ∷ ds) (node l y b r) q h = Level-Leads ds r q h.1

  pub LevelBelow-Leads : (ds : List Bool) (p q : Tree A) → LevelBelow ds p q → Leads ds p q
  LevelBelow-Leads [] p q h = h
  LevelBelow-Leads (d ∷ ds) leaf q h = h
  LevelBelow-Leads (false ∷ ds) (node l y b r) q h = Level-Leads ds l q h
  LevelBelow-Leads (true ∷ ds) (node l y b r) q h = Level-Leads ds r q h

  pub Leads-append :
      (ds es : List Bool) (t p q : Tree A) → Leads ds t p → Leads es p q → Leads (ds ++ es) t q
  Leads-append [] es t p q h k = subst (λ u. Leads es u q) (sym h) k
  Leads-append (d ∷ ds) es leaf p q h k = h
  Leads-append (false ∷ ds) es (node l y b r) p q h k = Leads-append ds es l p q h k
  Leads-append (true ∷ ds) es (node l y b r) p q h k = Leads-append ds es r p q h k

module _ {A K : Type 0} (info : TreeInfo A K) where
  open info use {key, compare}

  -- The path goes where the comparisons with the item send it.
  abbrev pub Follows : A → List Bool → Tree A → Type 0
  Follows x [] t = Unit
  Follows x (d ∷ ds) leaf = ⊥
  Follows x (false ∷ ds) (node l y b r) = (compare (key y) (key x) ≡ Ordering.gt) × Follows x ds l
  Follows x (true ∷ ds) (node l y b r) = (compare (key y) (key x) ≡ Ordering.lt) × Follows x ds r

  pub Follows-append :
      (x : A) (ds es : List Bool) (t p : Tree A)
      → Leads ds t p
      → Follows x ds t
      → Follows x es p
      → Follows x (ds ++ es) t
  Follows-append x [] es t p h f g = subst (Follows x es) (sym h) g
  Follows-append x (d ∷ ds) es leaf p h f g = absurd h
  Follows-append x (false ∷ ds) es (node l y b r) p h f g =
      (f.0, Follows-append x ds es l p h f.1 g)
  Follows-append x (true ∷ ds) es (node l y b r) p h f g = (f.0, Follows-append x ds es r p h f.1 g)

  -- Where a lookup for the item ends: at the node with its key, or at a NULL.
  abbrev pub Ends : A → Tree A → Place → Type 0
  Ends x t (taken ds) =
      (l : Tree A) × (y : A) × (b : ℤ) × (r : Tree A) × Leads ds t (node l y b r)
      × Follows x ds t
      × (compare (key y) (key x) ≡ Ordering.eq)
  Ends x t (vacant above dstack) =
      (p : Tree A) × Leads above t p
      × Follows x above t
      × FlatBelow dstack p
      × Follows x dstack p
      × ((above ≡ []) ⊎ (root_balance p ≢ pos 0))

  -- What the lookup knows at the subtree `q` that it has come to.
  abbrev OnWay : A → Tree A → Tree A → List Bool → List Bool → Type 0
  OnWay x t q above dstack =
      (p : Tree A) × Leads above t p
      × Follows x above t
      × LevelBelow dstack p q
      × Follows x dstack p
      × ((above ≡ []) ⊎ (root_balance p ≢ pos 0))

  step_level :
      (x : A) (t l : Tree A) (y : A) (r : Tree A) (above dstack : List Bool) (d : Bool)
      → Follows x (d ∷ []) (node l y (pos 0) r)
      → OnWay x t (node l y (pos 0) r) above dstack
      → OnWay x t (child d l r) above (dstack ++ d ∷ [])
  step_level x t l y r above dstack d turn (p, h, f, w, g, c) =
      let way = LevelBelow-Leads dstack p (node l y (pos 0) r) w in
      (
        p,
        h,
        f,
        LevelBelow-snoc dstack d p l y r w,
        Follows-append x dstack (d ∷ []) p (node l y (pos 0) r) way g turn,
        c,
      )

  step_leaning :
      (x : A) (t l : Tree A) (y : A) (b : ℤ) (r : Tree A) (above dstack : List Bool) (d : Bool)
      → b ≢ pos 0
      → Follows x (d ∷ []) (node l y b r)
      → OnWay x t (node l y b r) above dstack
      → OnWay x t (child d l r) (above ++ dstack) (d ∷ [])
  step_leaning x t l y b r above dstack d n turn (p, h, f, w, g, c) =
      let way = LevelBelow-Leads dstack p (node l y b r) w in
      (
        node l y b r,
        Leads-append above dstack t p (node l y b r) h way,
        Follows-append x above dstack t p h f g,
        LevelBelow-one d l y b r,
        turn,
        inr n,
      )

  step :
      (x : A) (t l : Tree A) (y : A) (b : ℤ) (r : Tree A) (above dstack : List Bool) (d : Bool)
      → Follows x (d ∷ []) (node l y b r)
      → OnWay x t (node l y b r) above dstack
      → let balanced = eq_ℤ b (pos 0) in
        OnWay x t
          (child d l r)
          (if balanced then above else above ++ dstack)
          ((if balanced then dstack else []) ++ d ∷ [])
  step x t l y (pos zero) r above dstack d turn way = step_level x t l y r above dstack d turn way
  step x t l y (pos (suc n)) r above dstack d turn way =
      rw (==-false (suc n) 0 (λ k. omega arith))
        (step_leaning x t l y (pos (suc n)) r above dstack d (λ k. ground arith) turn way)
  step x t l y (negsuc n) r above dstack d turn way =
      step_leaning x t l y (negsuc n) r above dstack d (λ k. cc) turn way

  insert_lookup_from :
      (x : A) (t q : Tree A) (above dstack : List Bool)
      → OnWay x t q above dstack
      → Ends x t (insert_lookup info x q above dstack)
  unfolding insert_lookup
  insert_lookup_from x t leaf above dstack (p, h, f, w, g, c) =
      (p, h, f, LevelBelow-FlatBelow dstack p w, g, c)
  insert_lookup_from x t (node l y b r) above dstack way =
      elim (Ordering-cases (compare (key y) (key x))) [
        | inl e ↦
            rw (e, insert_lookup)
              (insert_lookup_from x t r _ _ (step x t l y b r above dstack true (e, tt) way))
        | inr (inl e) ↦
            let (p, h, f, w, g, c) = way in
            let leads = LevelBelow-Leads dstack p (node l y b r) w in
            rw (e, insert_lookup)
              (
                l,
                y,
                b,
                r,
                Leads-append above dstack t p (node l y b r) h leads,
                Follows-append x above dstack t p h f g,
                e,
              )
        | inr (inr e) ↦
            rw (e, insert_lookup)
              (insert_lookup_from x t l _ _ (step x t l y b r above dstack false (e, tt) way))
      ]

  pub insert_lookup-Ends : (x : A) (t : Tree A) → Ends x t (insert_lookup info x t [] [])
  insert_lookup-Ends x t = insert_lookup_from x t t [] [] (t, refl, tt, refl, tt, inl refl)
