-- ===== src/Schedule/Table.antt =====
-- The table of a transaction that a list of calls of `raleighsl_transaction_add` builds.
use mathlib.Core.List.{append-nil, append_assoc}
use mathlib.Core.Path.{subst}
use raleigh_fs.Common.{
  ℕ, ◌+◌, ◌<◌, Bool, true, false, none, some, List, [], ◌∷◌, ◌++◌, length, length-append, ◌==◌,
  if◌then◌else◌, ==-true, ==-false, ◌≡◌, ◌≢◌, refl, sym, ap, ◌∙◌, inl, inr, arith, Bool-cases,
  ==_iff,
}
use raleigh_fs.Transaction.{Links, Group, Transaction, add, object_group}
use raleigh_fs.Transaction.View.{View, Represents, view_add}
use raleigh_fs.Schedule.Barrier.{Involves}
use raleigh_fs.Schedule.Phases.{DistinctObjects, FuelFor, atoms_in}

-- Calls of `raleighsl_transaction_add`, each with an object and an atom.
unfoldable pub add_all : ℕ → List (ℕ × ℕ) → Transaction → Links → Transaction × Links
add_all now [] txn links = (txn, links)
add_all now ((object, atom) ∷ calls) txn links =
    let (e, txn', links') = add true now txn object atom links in add_all now calls txn' links'

-- The atoms that the calls give to an object.
unfoldable pub atoms_for : ℕ → List (ℕ × ℕ) → List ℕ
atoms_for b [] = []
atoms_for b ((object, atom) ∷ calls) =
    if object == b then atom ∷ atoms_for b calls else atoms_for b calls

unfoldable pub touches : ℕ → List (ℕ × ℕ) → Bool
touches b [] = false
touches b ((object, atom) ∷ calls) = if object == b then true else touches b calls

abbrev pub atoms_of : List (ℕ × ℕ) → List ℕ
atoms_of [] = []
atoms_of ((object, atom) ∷ calls) = atom ∷ atoms_of calls

unfoldable pub view_all : List (ℕ × ℕ) → View → View
view_all [] v = v
view_all ((object, atom) ∷ calls) v = view_all calls (view_add object atom v)

unfoldable pub has_entry : ℕ → View → Bool
has_entry b [] = false
has_entry b ((o, xs) ∷ v) = if o == b then true else has_entry b v

abbrev pub DistinctKeys : View → Type 0
DistinctKeys [] = Unit {0}
DistinctKeys ((o, xs) ∷ v) = (has_entry o v ≡ false) × DistinctKeys v

abbrev pub total : View → ℕ
total [] = 0
total ((o, xs) ∷ v) = length xs + total v

true_not_false : false ≢ true
true_not_false e = cc

view_add-nil : (object atom : ℕ) → view_add object atom [] ≡ (object, atom ∷ []) ∷ []
unfolding view_add
view_add-nil object atom = rw (==-true object)

view_add-hit :
    (object atom : ℕ) (xs : List ℕ) (v : View)
    → view_add object atom ((object, xs) ∷ v) ≡ (object, xs ++ atom ∷ []) ∷ v
unfolding view_add
view_add-hit object atom xs v = rw (==-true object, view_add, ==-true object)

view_add-miss :
    (object atom o : ℕ) (xs : List ℕ) (v : View)
    → o ≢ object
    → view_add object atom ((o, xs) ∷ v) ≡ (o, xs) ∷ view_add object atom v
unfolding view_add
view_add-miss object atom o xs v n = rw (==-false o object n, view_add, ==-false o object n)

atoms_in-view_add :
    (b object atom : ℕ) (v : View)
    → atoms_in b (view_add object atom v) ≡ atoms_in b v ++ (if object == b then atom ∷ [] else [])
unfolding atoms_in
atoms_in-view_add b object atom [] = rw (view_add-nil object atom) refl
atoms_in-view_add b object atom ((o, xs) ∷ v) = elim (Bool-cases (o == object)) [
  | inl e ↦
      let same = (==_iff o object).0 e in
      rw (same, view_add-hit object atom xs v) (ground (arith, append-nil (atoms_in b v)))
  | inr e ↦
      rw (view_add-miss object atom o xs v (λ h. ground arith), atoms_in)
        (ground (arith, atoms_in-view_add b object atom v, append-nil xs))
]

has_entry-view_add :
    (b object atom : ℕ) (v : View)
    → has_entry b (view_add object atom v) ≡ (if object == b then true else has_entry b v)
unfolding has_entry
has_entry-view_add b object atom [] = rw (view_add-nil object atom) refl
has_entry-view_add b object atom ((o, xs) ∷ v) = elim (Bool-cases (o == object)) [
  | inl e ↦
      let same = (==_iff o object).0 e in rw (same, view_add-hit object atom xs v) (ground arith)
  | inr e ↦
      rw (view_add-miss object atom o xs v (λ h. ground arith), has_entry)
        (ground (arith, has_entry-view_add b object atom v))
]

total-view_add : (object atom : ℕ) (v : View) → total (view_add object atom v) ≡ total v + 1
total-view_add object atom [] = rw (view_add-nil object atom) refl
total-view_add object atom ((o, xs) ∷ v) = elim (Bool-cases (o == object)) [
  | inl e ↦
      let same = (==_iff o object).0 e in
      rw (same, view_add-hit object atom xs v) (ground (arith, length-append xs (atom ∷ [])))
  | inr e ↦
      rw (view_add-miss object atom o xs v (λ h. ground arith))
        (ground (arith, total-view_add object atom v))
]

pub atoms_in-view_all :
    (b : ℕ) (calls : List (ℕ × ℕ)) (v : View)
    → atoms_in b (view_all calls v) ≡ atoms_in b v ++ atoms_for b calls
unfolding view_all atoms_for
atoms_in-view_all b [] v = sym (append-nil (atoms_in b v))
atoms_in-view_all b ((object, atom) ∷ calls) v =
    atoms_in-view_all b calls (view_add object atom v)
    ∙ (ap (λ l. l ++ atoms_for b calls) (atoms_in-view_add b object atom v)
        ∙ elim (Bool-cases (object == b)) [
          | inl e ↦ rw e (append_assoc (atoms_in b v) (atom ∷ []) (atoms_for b calls))
          | inr e ↦ rw (e, append-nil (atoms_in b v))
        ])

pub has_entry-view_all :
    (b : ℕ) (calls : List (ℕ × ℕ)) (v : View)
    → has_entry b (view_all calls v) ≡ (if touches b calls then true else has_entry b v)
unfolding view_all touches
has_entry-view_all b [] v = refl
has_entry-view_all b ((object, atom) ∷ calls) v =
    ground (
      arith,
      has_entry-view_all b calls (view_add object atom v),
      has_entry-view_add b object atom v,
    )

pub total-view_all :
    (calls : List (ℕ × ℕ)) (v : View) → total (view_all calls v) ≡ total v + length calls
unfolding view_all
total-view_all [] v = omega arith
total-view_all ((object, atom) ∷ calls) v =
    ground (arith, total-view_all calls (view_add object atom v), total-view_add object atom v)

pub FuelFor-total : (fuel : ℕ) (v : View) → total v < fuel → FuelFor fuel v
FuelFor-total fuel [] h = tt
FuelFor-total fuel ((o, xs) ∷ v) h = (omega arith, FuelFor-total fuel v (omega arith))

DistinctKeys-view_add :
    (object atom : ℕ) (v : View) → DistinctKeys v → DistinctKeys (view_add object atom v)
unfolding has_entry
DistinctKeys-view_add object atom [] d = rw (view_add-nil object atom) (refl, tt)
DistinctKeys-view_add object atom ((o, xs) ∷ v) d = elim (Bool-cases (o == object)) [
  | inl e ↦
      let same = (==_iff o object).0 e in
      subst DistinctKeys
        (sym (ap (λ k. view_add object atom ((k, xs) ∷ v)) same ∙ view_add-hit object atom xs v))
        (subst (λ k. has_entry k v ≡ false) same d.0, d.1)
  | inr e ↦
      subst DistinctKeys (sym (view_add-miss object atom o xs v (λ h. ground arith))) (
        ground (arith, has_entry-view_add o object atom v),
        DistinctKeys-view_add object atom v d.1,
      )
]

pub DistinctKeys-view_all :
    (calls : List (ℕ × ℕ)) (v : View) → DistinctKeys v → DistinctKeys (view_all calls v)
unfolding view_all
DistinctKeys-view_all [] v d = d
DistinctKeys-view_all ((object, atom) ∷ calls) v d =
    DistinctKeys-view_all calls (view_add object atom v) (DistinctKeys-view_add object atom v d)

-- The groups of a transaction against the entries of its table.
pub Represents-none :
    (links : Links) (b : ℕ) (gs : List Group) (v : View)
    → Represents links gs v
    → has_entry b v ≡ false
    → object_group b gs ≡ none
unfolding has_entry object_group
Represents-none links b [] [] r h = refl
Represents-none links b [] (e ∷ v) r h = absurd r
Represents-none links b (g ∷ gs) [] r h = absurd r
Represents-none links b (g ∷ gs) ((o, xs) ∷ v) r h =
    ground (arith, Represents-none links b gs v r.3)

pub Represents-some :
    (links : Links) (b : ℕ) (gs : List Group) (v : View)
    → Represents links gs v
    → has_entry b v ≡ true
    → (g : Group) × (object_group b gs ≡ some g)
unfolding has_entry object_group
Represents-some links b [] [] r h = absurd (true_not_false h)
Represents-some links b [] (e ∷ v) r h = absurd r
Represents-some links b (g ∷ gs) [] r h = absurd r
Represents-some links b (g ∷ gs) ((o, xs) ∷ v) r h = elim (Bool-cases (g.object == b)) [
  | inl e ↦ (g, rw (e, object_group))
  | inr e ↦
      let (k, found) = Represents-some links b gs v r.3 (ground arith) in
      (k, rw (e, object_group) found)
]

pub DistinctObjects-keys :
    (links : Links) (gs : List Group) (v : View)
    → Represents links gs v
    → DistinctKeys v
    → DistinctObjects gs
DistinctObjects-keys links [] [] r d = tt
DistinctObjects-keys links [] (e ∷ v) r d = absurd r
DistinctObjects-keys links (g ∷ gs) [] r d = absurd r
DistinctObjects-keys links (g ∷ gs) ((o, xs) ∷ v) r d =
    (Represents-none links g.object gs v r.3 (rw r.0 d.0), DistinctObjects-keys links gs v r.3 d.1)

pub Involves-has_entry :
    (links : Links) (b : ℕ) (gs : List Group) (v : View)
    → Represents links gs v
    → Involves b gs
    → has_entry b v ≡ true
unfolding has_entry
Involves-has_entry links b [] v r m = absurd m
Involves-has_entry links b (g ∷ gs) [] r m = absurd r
Involves-has_entry links b (g ∷ gs) ((o, xs) ∷ v) r (inl m) = ground arith
Involves-has_entry links b (g ∷ gs) ((o, xs) ∷ v) r (inr m) =
    ground (arith, Involves-has_entry links b gs v r.3 m)
