-- ===== src/Transaction/Add.antt =====
-- `raleighsl_transaction_add` as an insertion into the table of a transaction's atoms.
use raleigh_fs.Common.{
  ℕ, Bool, true, false, none, some, List, [], ◌∷◌, All-map, All-append, All-zip, ◌≡◌, ◌≢◌, refl,
  sym, inl, inr, arith, ◌==◌, Bool-cases, Option-cases, ◌∙◌,
}
use raleigh_fs.Errno.{Errno}
use raleigh_fs.Transaction.{
  Links, Group, Transaction, object_group, object_group_alloc, object_group_add, add,
}
use raleigh_fs.Transaction.Chain.{Distinct-snoc}
use raleigh_fs.Transaction.View.{
  View, FreshIn, DistinctIn, Represents, view_group, view_append, view_add,
  object_group_add-Represents, on_group-Represents,
}

-- The transaction holds exactly the atoms of the table, none of them twice.
pub record Holds (links : Links) (txn : Transaction) (v : View) : Type 0 where
  pub represents : Represents links txn.objects v
  pub distinct : DistinctIn v

FreshIn-view_group : (a object : ℕ) (v : View) → FreshIn a v → FreshIn a (view_group object v)
unfolding view_group
FreshIn-view_group a object [] f = (tt, tt)
FreshIn-view_group a object ((o, xs) ∷ v) f = elim (Bool-cases (o == object)) [
  | inl h ↦ rw h f
  | inr h ↦ rw h (f.0, FreshIn-view_group a object v f.1)
]

DistinctIn-view_group : (object : ℕ) (v : View) → DistinctIn v → DistinctIn (view_group object v)
unfolding view_group
DistinctIn-view_group object [] d = (tt, tt, tt)
DistinctIn-view_group object ((o, xs) ∷ v) d = elim (Bool-cases (o == object)) [
  | inl h ↦ rw h d
  | inr h ↦
      rw h (
        d.0,
        All-map (λ x. FreshIn-view_group x object v) xs d.1,
        DistinctIn-view_group object v d.2,
      )
]

FreshIn-view_append :
    (a object atom : ℕ) (v : View) → atom ≢ a → FreshIn a v → FreshIn a (view_append object atom v)
unfolding view_append
FreshIn-view_append a object atom [] n f = tt
FreshIn-view_append a object atom ((o, xs) ∷ v) n f = elim (Bool-cases (o == object)) [
  | inl h ↦ rw h (All-append (λ x. x ≢ a) xs (atom ∷ []) f.0 (n, tt), f.1)
  | inr h ↦ rw h (f.0, FreshIn-view_append a object atom v n f.1)
]

pub FreshIn-view_add :
    (a object atom : ℕ) (v : View) → atom ≢ a → FreshIn a v → FreshIn a (view_add object atom v)
unfolding view_add
FreshIn-view_add a object atom v n f =
    FreshIn-view_append a object atom (view_group object v) n (FreshIn-view_group a object v f)

DistinctIn-view_append :
    (object atom : ℕ) (v : View)
    → FreshIn atom v
    → DistinctIn v
    → DistinctIn (view_append object atom v)
unfolding view_append
DistinctIn-view_append object atom [] f d = tt
DistinctIn-view_append object atom ((o, xs) ∷ v) f d = elim (Bool-cases (o == object)) [
  | inl h ↦ rw h (
    Distinct-snoc xs atom d.0 f.0,
    All-append (λ x. FreshIn x v) xs (atom ∷ []) d.1 (f.1, tt),
    d.2,
  )
  | inr h ↦ rw h (
    d.0,
    All-zip (λ x n k. FreshIn-view_append x object atom v (λ e. n (sym e)) k) xs f.0 d.1,
    DistinctIn-view_append object atom v f.1 d.2,
  )
]

-- Adding a new atom succeeds where the allocation does, and puts the atom behind those of its
-- object, in a new entry at the end of the table if the object has none. All other atoms stay as
-- they were, and so do the transaction's id and state.
pub add-Holds :
    (now : ℕ) (txn : Transaction) (object atom : ℕ) (links : Links) (v : View)
    → Holds links txn v
    → FreshIn atom v
    → let (e, txn', links') = add true now txn object atom links in
      (e ≡ Errno.ok)
      × Holds links' txn' (view_add object atom v)
      × (txn'.txn_id ≡ txn.txn_id)
      × (txn'.state ≡ txn.state)
unfolding add view_add
add-Holds now txn object atom links v h f =
    let (gs, e, r) = object_group_add-Represents links txn.objects v object h.represents in
    let fresh = FreshIn-view_group atom object v f in
    let distinct = DistinctIn-view_group object v h.distinct in
    rw (e, add)
      (
        refl,
        record {
          represents =
              on_group-Represents links gs (view_group object v) object atom r fresh distinct;
          distinct = DistinctIn-view_append object atom (view_group object v) fresh distinct;
        },
        refl,
        refl,
      )

object_group_add_known :
    (object : ℕ) (gs : List Group)
    → object_group object gs ≢ none
    → object_group_add false object gs ≡ object_group_add true object gs
unfolding object_group object_group_add
object_group_add_known object [] n = absurd (n refl)
object_group_add_known object (g ∷ gs) n = ground (arith, object_group_add_known object gs)

object_group_add_unknown :
    (object : ℕ) (gs : List Group)
    → object_group object gs ≡ none
    → object_group_add false object gs ≡ none
unfolding object_group object_group_add
object_group_add_unknown object [] n = refl
object_group_add_unknown object (g ∷ gs) n = ground (arith, object_group_add_unknown object gs)

some_not_none : (g : Group) → some g ≢ none
some_not_none g e = cc

-- Where memory runs out, adding to an object that has a group goes on as before, and adding to
-- another one reports it and changes neither the transaction nor any atom.
pub add_no_memory :
    (now : ℕ) (txn : Transaction) (object atom : ℕ) (links : Links)
    → add false now txn object atom links ≡ elim (object_group object txn.objects) [
      | none ↦ (Errno.no_memory, txn, links)
      | some g ↦ add true now txn object atom links
    ]
unfolding add
add_no_memory now txn object atom links = elim (Option-cases (object_group object txn.objects)) [
  | inl e ↦ rw (e, object_group_add_unknown object txn.objects e, add)
  | inr (g, e) ↦
      rw (e, object_group_add_known object txn.objects (λ h. some_not_none g (sym e ∙ h)), add)
]

pub txn_id-add :
    (allocated : Bool) (now : ℕ) (txn : Transaction) (object atom : ℕ) (links : Links)
    → (add allocated now txn object atom links).1.txn_id ≡ txn.txn_id
unfolding add
txn_id-add allocated now txn object atom links = ground arith

object_group_add_total :
    (object : ℕ) (gs : List Group)
    → (gs' : List Group) × (object_group_add true object gs ≡ some gs')
unfolding object_group_add object_group_alloc
object_group_add_total object [] = (object_group_alloc object ∷ [], refl)
object_group_add_total object (g ∷ gs) =
    let (gs', e) = object_group_add_total object gs in
    elim (Bool-cases (g.object == object)) [ inl h ↦ (g ∷ gs, rw h) | inr h ↦ (g ∷ gs', rw (h, e)) ]

-- With memory at hand an atom is always taken in.
pub add_ok :
    (now : ℕ) (txn : Transaction) (object atom : ℕ) (links : Links)
    → (add true now txn object atom links).0 ≡ Errno.ok
unfolding add
add_ok now txn object atom links =
    let (gs, e) = object_group_add_total object txn.objects in rw (e, add)
