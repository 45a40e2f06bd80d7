-- ===== src/Transaction/View.antt =====
-- What a transaction holds, as a plain table from objects to atoms, and that
-- `raleighsl_transaction_add` is an insertion into it.
use raleigh_fs.Common.{
  ℕ, true, Option, none, some, List, [], ◌∷◌, ◌++◌, All, All-map, ◌≡◌, ◌≢◌, refl, sym, ◌∙◌, inl,
  inr, arith, ◌==◌, if◌then◌else◌, Bool-cases, Option-cases, ==-true,
}
use raleigh_fs.Transaction.{
  Links, set_next, Group, object_group_alloc, object_group_add, append_atom, on_group,
}
use raleigh_fs.Transaction.Chain.{
  Chain, last, Fresh, Distinct, Chain-set_next, Chain-snoc, last-All, last-snoc, last-eq-none,
}

-- Each object of the transaction with its atoms, both in the order of their addition.
abbrev pub View : Type 0
View = List (ℕ × List ℕ)

abbrev pub FreshIn : ℕ → View → Type 0
FreshIn a [] = Unit {0}
FreshIn a ((o, xs) ∷ v) = Fresh a xs × FreshIn a v

-- No atom occurs twice.
abbrev pub DistinctIn : View → Type 0
DistinctIn [] = Unit {0}
DistinctIn ((o, xs) ∷ v) = Distinct xs × All (λ x. FreshIn x v) xs × DistinctIn v

-- The groups hold the view's atoms, chained from head to tail.
abbrev pub Represents : Links → List Group → View → Type 0
Represents links [] [] = Unit {0}
Represents links (g ∷ gs) ((o, xs) ∷ v) =
    (g.object ≡ o) × Chain links g.atoms_head xs × (g.atoms_tail ≡ last xs) × Represents links gs v
Represents links _ _ = ⊥

-- The table with an entry for the object.
unfoldable pub view_group : ℕ → View → View
view_group object [] = (object, []) ∷ []
view_group object ((o, xs) ∷ v) = if o == object then (o, xs) ∷ v else (o, xs) ∷ view_group object v

-- The atom behind those of the object.
unfoldable pub view_append : ℕ → ℕ → View → View
view_append object atom [] = []
view_append object atom ((o, xs) ∷ v) =
    if o == object then (o, xs ++ atom ∷ []) ∷ v else (o, xs) ∷ view_append object atom v

unfoldable pub view_add : ℕ → ℕ → View → View
unfolding view_group view_append
view_add object atom v = view_append object atom (view_group object v)

Represents-set_next :
    (links : Links) (gs : List Group) (v : View) (a : ℕ) (q : Option ℕ)
    → FreshIn a v
    → Represents links gs v
    → Represents (set_next links a q) gs v
Represents-set_next links [] [] a q f r = tt
Represents-set_next links [] (e ∷ v) a q f r = absurd r
Represents-set_next links (g ∷ gs) [] a q f r = absurd r
Represents-set_next links (g ∷ gs) ((o, xs) ∷ v) a q f r = (
  r.0,
  Chain-set_next links a q g.atoms_head xs f.0 r.1,
  r.2,
  Represents-set_next links gs v a q f.1 r.3,
)

-- With a group for the object the groups represent the table with an entry for it.
pub object_group_add-Represents :
    (links : Links) (gs : List Group) (v : View) (object : ℕ)
    → Represents links gs v
    → (gs' : List Group) × (object_group_add true object gs ≡ some gs')
      × Represents links gs' (view_group object v)
unfolding object_group_add object_group_alloc view_group
object_group_add-Represents links [] [] object r =
    (object_group_alloc object ∷ [], refl, (refl, tt, refl, tt))
object_group_add-Represents links [] (x ∷ v) object r = absurd r
object_group_add-Represents links (g ∷ gs) [] object r = absurd r
object_group_add-Represents links (g ∷ gs) ((o, xs) ∷ v) object r =
    let (gs', e, r') = object_group_add-Represents links gs v object r.3 in
    elim (Bool-cases (g.object == object)) [
      | inl h ↦ (g ∷ gs, rw h, rw (← r.0, h) (refl, r.1, r.2, r.3))
      | inr h ↦ (g ∷ gs', rw (h, e), rw (← r.0, h) (refl, r.1, r.2, r'))
    ]

-- Writes that `append_atom` makes: to the new atom, and to the tail.
append_atom-links :
    (atom : ℕ) (g : Group) (links : Links)
    → (append_atom atom g links).1 ≡ elim g.atoms_tail [
      | some tail ↦ set_next (set_next links atom none) tail (some atom)
      | none ↦ set_next links atom none
    ]
unfolding append_atom
append_atom-links atom g links = ground arith

-- Membership of a tail, the other way round: an atom apart from a list is not its last.
Fresh-last : (x t : ℕ) (ys : List ℕ) → Fresh x ys → last ys ≡ some t → t ≢ x
Fresh-last x t ys f e = last-All (λ y. y ≢ x) ys t f e

-- A chain apart from the new atom and from the group's is left as it is.
append_atom-Chain :
    (links : Links) (g : Group) (ys : List ℕ) (atom : ℕ) (p : Option ℕ) (xs : List ℕ)
    → g.atoms_tail ≡ last ys
    → Fresh atom xs
    → All (λ x. Fresh x ys) xs
    → Chain links p xs
    → Chain (append_atom atom g links).1 p xs
append_atom-Chain links g ys atom p xs e f d c = elim (Option-cases g.atoms_tail) [
  | inl h ↦ rw (append_atom-links atom g links, h) (Chain-set_next links atom none p xs f c)
  | inr (t, h) ↦
      rw (append_atom-links atom g links, h)
        (Chain-set_next (set_next links atom none) t (some atom) p xs
          (All-map (λ x k u. Fresh-last x t ys k (sym e ∙ h) (sym u)) xs d)
          (Chain-set_next links atom none p xs f c))
]

-- A chain apart from all atoms of the groups and from the new one is left as it is.
on_group-Chain :
    (links : Links) (gs : List Group) (v : View) (object atom : ℕ) (p : Option ℕ) (xs : List ℕ)
    → Represents links gs v
    → Fresh atom xs
    → All (λ x. FreshIn x v) xs
    → Chain links p xs
    → Chain (on_group object (append_atom atom) gs links).1 p xs
unfolding on_group
on_group-Chain links [] v object atom p xs r f d c = c
on_group-Chain links (g ∷ gs) [] object atom p xs r f d c = absurd r
on_group-Chain links (g ∷ gs) ((o, ys) ∷ v) object atom p xs r f d c =
    elim (Bool-cases (g.object == object)) [
      | inl h ↦ rw h (append_atom-Chain links g ys atom p xs r.2 f (All-map (λ x k. k.0) xs d) c)
      | inr h ↦
          rw h (on_group-Chain links gs v object atom p xs r.3 f (All-map (λ x k. k.1) xs d) c)
    ]

-- The group itself then holds the new atom last.
append_atom-group :
    (links : Links) (g : Group) (xs : List ℕ) (atom : ℕ)
    → Chain links g.atoms_head xs
    → g.atoms_tail ≡ last xs
    → Distinct xs
    → Fresh atom xs
    → let (g', links') = append_atom atom g links in
      (g'.object ≡ g.object)
      × Chain links' g'.atoms_head (xs ++ atom ∷ [])
      × (g'.atoms_tail ≡ last (xs ++ atom ∷ []))
unfolding append_atom
append_atom-group links g xs atom c e d f = elim (Option-cases g.atoms_tail) [
  | inl h ↦ rw (h, last-eq-none xs (sym e ∙ h), ◌++◌) (refl, (refl, rw (==-true atom) tt), refl)
  | inr (t, h) ↦
      rw (h, last-snoc xs atom)
        (refl, Chain-snoc links g.atoms_head xs t atom c d f (sym e ∙ h), refl)
]

-- The other groups are left as they are.
append_atom-Represents :
    (links : Links) (g : Group) (xs : List ℕ) (gs : List Group) (v : View) (atom : ℕ)
    → g.atoms_tail ≡ last xs
    → All (λ x. FreshIn x v) xs
    → FreshIn atom v
    → Represents links gs v
    → Represents (append_atom atom g links).1 gs v
append_atom-Represents links g xs gs v atom e d f r = elim (Option-cases g.atoms_tail) [
  | inl h ↦ rw (append_atom-links atom g links, h) (Represents-set_next links gs v atom none f r)
  | inr (t, h) ↦
      rw (append_atom-links atom g links, h)
        (Represents-set_next (set_next links atom none) gs v t (some atom)
          (last-All (λ x. FreshIn x v) xs t d (sym e ∙ h))
          (Represents-set_next links gs v atom none f r))
]

-- In place, the append to the object's group appends to the object's entry.
pub on_group-Represents :
    (links : Links) (gs : List Group) (v : View) (object atom : ℕ)
    → Represents links gs v
    → FreshIn atom v
    → DistinctIn v
    → let (gs', links') = on_group object (append_atom atom) gs links in
      Represents links' gs' (view_append object atom v)
unfolding on_group view_append
on_group-Represents links [] [] object atom r f d = tt
on_group-Represents links [] (x ∷ v) object atom r f d = absurd r
on_group-Represents links (g ∷ gs) [] object atom r f d = absurd r
on_group-Represents links (g ∷ gs) ((o, xs) ∷ v) object atom r f d =
    elim (Bool-cases (g.object == object)) [
      | inl h ↦
          let own = append_atom-group links g xs atom r.1 r.2 d.0 f.0 in
          rw (← r.0, h)
            (own.0, own.1, own.2, append_atom-Represents links g xs gs v atom r.2 d.1 f.1 r.3)
      | inr h ↦
          rw (← r.0, h)
            (
              refl,
              on_group-Chain links gs v object atom g.atoms_head xs r.3 f.0 d.1 r.1,
              r.2,
              on_group-Represents links gs v object atom r.3 f.1 d.2,
            )
    ]
