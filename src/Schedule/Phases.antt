-- ===== src/Schedule/Phases.antt =====
-- Each phase of `__sched_txn_task_exec` as one update of every object of the transaction.
use mathlib.Core.Path.{subst}
use raleigh_fs.Common.{
  ℕ, zero, suc, ◌<◌, true, Option, none, some, List, [], ◌∷◌, length, ◌==◌, if◌then◌else◌, ◌≡◌, ◌≢◌,
  refl, sym, ap, ◌∙◌, inl, inr, arith, Bool-cases, ==_iff, ==-false, ==-true,
}
use raleigh_fs.Errno.{Errno}
use raleigh_fs.Rwcsem.{Op}
use raleigh_fs.Object.{ObjectPlug}
use raleigh_fs.Transaction.{Links, Group, object_group}
use raleigh_fs.Transaction.Chain.{Chain}
use raleigh_fs.Transaction.View.{View, Represents}
use raleigh_fs.Schedule.{
  Managed, set_object, CommitType, flagged, is_available, mark_pending, taken, lock_objects, settle,
  settle_atoms, settle_groups, commit_groups, release_locks, released,
}
use raleigh_fs.Schedule.Barrier.{Involves}

-- No object has two groups.
abbrev pub DistinctObjects : List Group → Type 0
DistinctObjects [] = Unit {0}
DistinctObjects (g ∷ gs) = (object_group g.object gs ≡ none) × DistinctObjects gs

-- The groups without their atoms' heads, as the apply loop leaves them.
abbrev pub emptied : List Group → List Group
emptied [] = []
emptied (g ∷ gs) = record g { atoms_head = none } ∷ emptied gs

Involves-apart : (a b : ℕ) (gs : List Group) → object_group a gs ≡ none → Involves b gs → a ≢ b
unfolding object_group
Involves-apart a b [] e m = absurd m
Involves-apart a b (g ∷ gs) e (inl m) = ground arith
Involves-apart a b (g ∷ gs) e (inr m) = ground (arith, Involves-apart a b gs)

module _ {S : Type 0} where
  -- one function on the cell of every object
  unfoldable pub update_all :
      (Group → Managed S → Managed S) → List Group → (ℕ → Managed S) → ℕ → Managed S
  update_all f [] store = store
  update_all f (g ∷ gs) store = update_all f gs (set_object store g.object (f g (store g.object)))

  pub update_all_lem :
      (f : Group → Managed S → Managed S) (gs : List Group) (store : ℕ → Managed S) (b : ℕ)
      → DistinctObjects gs
      → update_all f gs store b
        ≡ elim (object_group b gs) [ none ↦ store b | some g ↦ f g (store b) ]
  unfolding update_all object_group
  update_all_lem f [] store b d = refl
  update_all_lem f (g ∷ gs) store b d =
      let step = update_all_lem f gs (set_object store g.object (f g (store g.object))) b d.1 in
      elim (Bool-cases (g.object == b)) [
        | inl e ↦
            let same = (==_iff g.object b).0 e in
            let gone = subst (λ o. object_group o gs ≡ none) same d.0 in
            rw (e, object_group) (step ∙ rw (gone, same, ==-true b))
        | inr e ↦
            let differ : b ≢ g.object = λ h. ground arith in
            rw (e, object_group)
              (step
                ∙ ap (λ k. elim (object_group b gs) [ none ↦ k | some g' ↦ f g' k ])
                    (rw (==-false b g.object differ)))
      ]

  -- the atoms of an object, one after the other
  unfoldable pub settle_all : (ℕ → ObjectPlug S) → CommitType → ℕ → List ℕ → S → S
  settle_all plug type object [] s = s
  settle_all plug type object (a ∷ xs) s =
      settle_all plug type object xs (settle plug type object a s)

  pub settle_atoms-Chain :
      (plug : ℕ → ObjectPlug S) (links : Links) (k : ℕ) (type : CommitType) (object : ℕ)
      (p : Option ℕ) (xs : List ℕ) (s : S)
      → Chain links p xs
      → length xs < k
      → settle_atoms plug links k type object p s ≡ (none, settle_all plug type object xs s)
  unfolding settle_atoms settle_all
  settle_atoms-Chain plug links zero type object p xs s c h = absurd (omega arith)
  settle_atoms-Chain plug links (suc k) type object none [] s c h = refl
  settle_atoms-Chain plug links (suc k) type object (some a) [] s c h = absurd c
  settle_atoms-Chain plug links (suc k) type object none (x ∷ xs) s c h = absurd c
  settle_atoms-Chain plug links (suc k) type object (some a) (x ∷ xs) s c h = rw c.0 (
      settle_atoms-Chain plug links k type object (links x) xs (settle plug type object x s) c.1
        (omega arith))

  -- the barrier
  pub mark_pending-update :
      (id : ℕ) (gs : List Group) (store : ℕ → Managed S)
      → mark_pending id gs store
        ≡ update_all (λ g o. record o { pending_txn_id = id; word = flagged o.word }) gs store
  unfolding mark_pending update_all
  mark_pending-update id [] store = refl
  mark_pending-update id (g ∷ gs) store = mark_pending-update id gs _

  pub is_available_free :
      (gs : List Group) (store : ℕ → Managed S)
      → ((b : ℕ) → Involves b gs → (store b).pending_txn_id ≡ 0)
      → is_available gs store ≡ true
  unfolding is_available
  is_available_free [] store h = refl
  is_available_free (g ∷ gs) store h =
      rw (h g.object (inl refl)) (is_available_free gs store (λ b m. h b (inr m)))

  -- Writing one object's cell leaves what holds of the others' cells.
  others_keep {κ} :
      (P : Managed S → Type κ) (g : Group) (gs : List Group) (store : ℕ → Managed S) (m : Managed S)
      → object_group g.object gs ≡ none
      → ((b : ℕ) → Involves b (g ∷ gs) → P (store b))
      → (b : ℕ) → Involves b gs
      → P (set_object store g.object m b)
  others_keep P g gs store m e h b i =
      let differ = Involves-apart g.object b gs e i in
      rw (==-false b g.object (λ k. differ (sym k))) (h b (inr i))

  pub lock_objects-update :
      (n : ℕ) (gs : List Group) (store : ℕ → Managed S)
      → DistinctObjects gs
      → ((b : ℕ) → Involves b gs → taken Op.lock (store b).word ≡ some n)
      → lock_objects gs store ≡ ([], update_all (λ g o. record o { word = n }) gs store)
  unfolding lock_objects update_all
  lock_objects-update n [] store d h = refl
  lock_objects-update n (g ∷ gs) store d h =
      rw (h g.object (inl refl), lock_objects)
        (lock_objects-update n gs _ d.1
          (others_keep (λ m. taken Op.lock m.word ≡ some n) g gs store _ d.0 h))

  pub commit_groups-update :
      (plug : ℕ → ObjectPlug S) (c : ℕ → S → S) (gs : List Group) (store : ℕ → Managed S)
      → ((object : ℕ) (s : S) → (plug object).commit s ≡ some (Errno.ok, c object s))
      → commit_groups plug Errno.ok (emptied gs) store
        ≡ some (Errno.ok, update_all (λ g o. record o { state = c g.object o.state }) gs store)
  unfolding commit_groups update_all
  commit_groups-update plug c [] store h = refl
  commit_groups-update plug c (g ∷ gs) store h =
      rw (h g.object (store g.object).state, commit_groups) (commit_groups-update plug c gs _ h)

  pub release_locks-update :
      (id : ℕ) (gs : List Group) (store : ℕ → Managed S)
      → DistinctObjects gs
      → ((b : ℕ) → Involves b gs → (store b).pending_txn_id ≡ id)
      → release_locks id (emptied gs) store
        ≡ some (
            update_all
              (λ g o. record o { pending_txn_id = 0; word = released Op.lock o.word })
              gs
              store)
  unfolding release_locks update_all
  release_locks-update id [] store d h = refl
  release_locks-update id (g ∷ gs) store d h =
      rw (h g.object (inl refl), ==-true id)
        (release_locks-update id gs _ d.1
          (others_keep (λ m. m.pending_txn_id ≡ id) g gs store _ d.0 h))

-- The chains are shorter than the fuel.
abbrev pub FuelFor : ℕ → View → Type 0
FuelFor fuel [] = Unit {0}
FuelFor fuel ((o, xs) ∷ v) = (length xs < fuel) × FuelFor fuel v

-- The atoms of an object in the table.
unfoldable pub atoms_in : ℕ → View → List ℕ
atoms_in b [] = []
atoms_in b ((o, xs) ∷ v) = if o == b then xs else atoms_in b v

atoms_in_head : (b o : ℕ) (xs : List ℕ) (v : View) → b ≡ o → xs ≡ atoms_in b ((o, xs) ∷ v)
unfolding atoms_in
atoms_in_head b o xs v e = rw (e, ==-true o)

atoms_in_tail : (b o : ℕ) (xs : List ℕ) (v : View) → o ≢ b → atoms_in b ((o, xs) ∷ v) ≡ atoms_in b v
unfolding atoms_in
atoms_in_tail b o xs v n = rw (==-false o b n)

module _ {S : Type 0} (plug : ℕ → ObjectPlug S) (links : Links) (fuel : ℕ) where
  pub settle_groups-update :
      (type : CommitType) (gs : List Group) (v w : View) (store : ℕ → Managed S)
      → Represents links gs v
      → FuelFor fuel v
      → DistinctObjects gs
      → ((b : ℕ) → Involves b gs → atoms_in b v ≡ atoms_in b w)
      → settle_groups plug links fuel type gs store ≡ (
        emptied gs,
        update_all
            (λ g o. record o {
              state = settle_all plug type g.object (atoms_in g.object w) o.state;
            })
            gs
            store,
      )
  unfolding settle_groups update_all
  settle_groups-update type [] [] w store r f d h = refl
  settle_groups-update type [] (e ∷ v) w store r f d h = absurd r
  settle_groups-update type (g ∷ gs) [] w store r f d h = absurd r
  settle_groups-update type (g ∷ gs) ((o, xs) ∷ v) w store r f d h =
      let here =
        settle_atoms-Chain plug links fuel type g.object g.atoms_head xs (store g.object).state r.1
          f.0 in
      let mine : xs ≡ atoms_in g.object w =
        atoms_in_head g.object o xs v r.0 ∙ h g.object (inl refl) in
      let rest =
        settle_groups-update type gs v w
          (set_object store g.object (record (store g.object) {
            state = settle_all plug type g.object xs (store g.object).state;
          }))
          r.3 f.1 d.1
          (λ b i.
            sym (atoms_in_tail b o xs v (λ k. Involves-apart g.object b gs d.0 i (r.0 ∙ k)))
            ∙ h b (inr i)) in
      rw (here, settle_groups, rest, mine)
