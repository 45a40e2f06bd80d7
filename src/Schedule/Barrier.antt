-- ===== src/Schedule/Barrier.antt =====
-- `__txn_mgr_acquire_barrier` and `__txn_mgr_release_locks`: which transactions get past.
use raleigh_fs.Common.{
  ℕ, true, false, List, [], ◌∷◌, ◌≡◌, ◌≢◌, ◌⊎◌, sym, ◌∙◌, inl, inr, arith, Bool-cases,
}
use raleigh_fs.Transaction.{Group}
use raleigh_fs.Schedule.{Managed, is_available, mark_pending, acquire_barrier}

-- The object is one of those of the groups.
abbrev pub Involves : ℕ → List Group → Type 0
Involves b [] = ⊥
Involves b (g ∷ gs) = (g.object ≡ b) ⊎ Involves b gs

module _ {S : Type 0} where
  mark_pending_keeps :
      (id : ℕ) (gs : List Group) (store : ℕ → Managed S) (b : ℕ)
      → (store b).pending_txn_id ≡ id
      → (mark_pending id gs store b).pending_txn_id ≡ id
  unfolding mark_pending
  mark_pending_keeps id [] store b h = h
  mark_pending_keeps id (g ∷ gs) store b h = mark_pending_keeps id gs _ b (ground arith)

  mark_pending_lem :
      (id : ℕ) (gs : List Group) (store : ℕ → Managed S) (b : ℕ)
      → Involves b gs
      → (mark_pending id gs store b).pending_txn_id ≡ id
  unfolding mark_pending
  mark_pending_lem id [] store b m = absurd m
  mark_pending_lem id (g ∷ gs) store b (inl e) = mark_pending_keeps id gs _ b (ground arith)
  mark_pending_lem id (g ∷ gs) store b (inr m) = mark_pending_lem id gs _ b m

  is_available_pending :
      (gs : List Group) (store : ℕ → Managed S) (b : ℕ)
      → Involves b gs
      → (store b).pending_txn_id ≢ 0
      → is_available gs store ≡ false
  unfolding is_available
  is_available_pending [] store b m n = absurd m
  is_available_pending (g ∷ gs) store b (inl e) n = ground arith
  is_available_pending (g ∷ gs) store b (inr m) n =
      ground (arith, is_available_pending gs store b m n)

  barrier_passed :
      (id b : ℕ) (gs : List Group) (store : ℕ → Managed S) {store' : ℕ → Managed S}
      → acquire_barrier id gs store ≡ (true, store')
      → Involves b gs
      → ((store' b).pending_txn_id ≡ id) × (is_available gs store ≡ true)
  unfolding acquire_barrier
  barrier_passed id b gs store {store'} h m = elim (Bool-cases (is_available gs store)) [
    | inl e ↦ (ground (arith, mark_pending_lem id gs store b m), e)
    | inr e ↦ ground arith
  ]

  -- Two transactions that share an object do not both pass the barrier: once one has passed, the
  -- other's attempt is refused, and changes nothing.
  pub acquire_barrier_excludes :
      (id id' b : ℕ) (gs gs' : List Group) (store : ℕ → Managed S) {store' : ℕ → Managed S}
      → id ≢ 0
      → acquire_barrier id gs store ≡ (true, store')
      → Involves b gs
      → Involves b gs'
      → acquire_barrier id' gs' store' ≡ (false, store')
  unfolding acquire_barrier
  acquire_barrier_excludes id id' b gs gs' store {store'} n h m m' =
      let (mine, refused) = barrier_passed id b gs store h m in
      rw (is_available_pending gs' store' b m' (λ z. n (sym mine ∙ z)), acquire_barrier)
