-- ===== src/Number/Locking.antt =====
-- Who may write a number, and who sees the write.
use raleigh_fs.Common.{
  ℕ, true, Option, none, some, Option-cases, ◌≡◌, ◌≢◌, ◌⊎◌, inl, inr, refl, ap, ◌∙◌, arith,
  if◌then◌else◌,
}
use raleigh_fs.Common.Int.{pos, eq_ℤ}
use raleigh_fs.Errno.{Errno, failed}
use raleigh_fs.Transaction.{Transaction}
use raleigh_fs.Transaction.Add.{txn_id-add}
use raleigh_fs.Object.{World, Site, txn_id_of, exec_write}
use raleigh_fs.Number.{Number, Action, get, join, run_action, commit}

-- The answer to an action on a number that another transaction holds.
unfoldable pub refusal : Action → Errno
refusal (Action.dividing d) =
    if eq_ℤ d (pos 0) then Errno.number_divmod_byzero else Errno.txn_locked_operation
refusal (Action.setting v) = Errno.txn_locked_operation
refusal (Action.swapping old new) = Errno.txn_locked_operation
refusal (Action.adding v) = Errno.txn_locked_operation
refusal (Action.multiplying v) = Errno.txn_locked_operation

pub failed-cases : (e : Errno) → (failed e ≡ true) ⊎ (e ≡ Errno.ok)
failed-cases Errno.ok = inr refl
failed-cases _ = inl refl

module _ (site : Site) (atom : ℕ) where
  -- While a transaction holds a number, every action of anyone else is refused, outside a
  -- transaction too, and changes nothing: neither the number, nor the caller's transaction, nor
  -- any atom. The code is TXN_LOCKED_OPERATION, but for a division by zero, which is told first.
  pub run_action_locked :
      (a : Action) (w : World Number)
      → w.state.txn_id ≢ 0
      → w.state.txn_id ≢ txn_id_of w.txn
      → run_action site atom a w ≡ some (refusal a, tt, w)
  unfolding run_action refusal
  run_action_locked (Action.setting v) w h k = ground arith
  run_action_locked (Action.swapping old new) w h k = ground arith
  run_action_locked (Action.adding v) w h k = ground arith
  run_action_locked (Action.multiplying v) w h k = ground arith
  run_action_locked (Action.dividing d) w h k = ground arith

  pub join-state : (w : World Number) → (join site atom w).1.state ≡ w.state
  unfolding join
  join-state w = ground arith

  -- An action that fails leaves the number as it was.
  pub run_action-failed :
      (a : Action) (w : World Number) {e : Errno} {w' : World Number}
      → run_action site atom a w ≡ some (e, tt, w')
      → failed e ≡ true
      → w'.state ≡ w.state
  unfolding run_action
  run_action-failed (Action.setting v) w r f = ground (arith, join-state w)
  run_action-failed (Action.swapping old new) w r f = ground (arith, join-state w)
  run_action-failed (Action.adding v) w r f = ground (arith, join-state w)
  run_action-failed (Action.multiplying v) w r f = ground (arith, join-state w)
  run_action-failed (Action.dividing d) w r f = ground (arith, join-state w)

  pub join-txn_id : (w : World Number) → txn_id_of (join site atom w).1.txn ≡ txn_id_of w.txn
  unfolding join
  join-txn_id w = elim (Option-cases w.txn) [
    | inl e ↦ rw (e, join) (ground arith)
    | inr (t, e) ↦ ground (arith, txn_id-add site.allocated site.now t site.object atom w.links)
  ]

  -- A successful action takes the number for its caller, and leaves the committed value.
  pub run_action_done :
      (a : Action) (w : World Number) {w' : World Number}
      → run_action site atom a w ≡ some (Errno.ok, tt, w')
      → (w'.state.txn_id ≡ txn_id_of w.txn) × (w'.state.read_value ≡ w.state.read_value)
  unfolding run_action
  run_action_done (Action.setting v) w r = ground (arith, join-state w, join-txn_id w)
  run_action_done (Action.swapping old new) w r = ground (arith, join-state w, join-txn_id w)
  run_action_done (Action.adding v) w r = ground (arith, join-state w, join-txn_id w)
  run_action_done (Action.multiplying v) w r = ground (arith, join-state w, join-txn_id w)
  run_action_done (Action.dividing d) w r = ground (arith, join-state w, join-txn_id w)

  -- A reader other than the transaction `t`.
  abbrev pub IsOther : Transaction → Option Transaction → Type 0
  IsOther t none = Unit {0}
  IsOther t (some r) = (r.txn_id ≢ t.txn_id) × (r.txn_id ≢ 0)

  -- A successful action was not locked out.
  run_action_unlocked :
      (a : Action) (w : World Number) {w' : World Number}
      → run_action site atom a w ≡ some (Errno.ok, tt, w')
      → (w.state.txn_id ≡ 0) ⊎ (w.state.txn_id ≡ txn_id_of w.txn)
  unfolding run_action
  run_action_unlocked (Action.setting v) w r = ground arith
  run_action_unlocked (Action.swapping old new) w r = ground arith
  run_action_unlocked (Action.adding v) w r = ground arith
  run_action_unlocked (Action.multiplying v) w r = ground arith
  run_action_unlocked (Action.dividing d) w r = ground arith

  -- What the scheduler makes of an action in a transaction: either the number is as it was, or
  -- the transaction has it and the committed value is as it was.
  exec_write_cases :
      (a : Action) (w : World Number) {e : Errno} {w' : World Number} (t : Transaction)
      → w.txn ≡ some t
      → t.txn_id ≢ 0
      → exec_write commit (run_action site atom a) w ≡ some (e, tt, w')
      → (w'.state ≡ w.state)
        ⊎ ((w'.state.txn_id ≡ t.txn_id)
            × (w'.state.read_value ≡ w.state.read_value)
            × ((w.state.txn_id ≡ 0) ⊎ (w.state.txn_id ≡ t.txn_id)))
  unfolding exec_write commit
  exec_write_cases a w {e} {w'} t i n x = elim (Option-cases (run_action site atom a w)) [
    | inl none_ ↦ let y = rw (none_, exec_write) at x in cc
    | inr ((e₁, u, w₁), ran) ↦ elim (failed-cases e₁) [
      | inl f ↦ inl (ground (arith, ran, run_action-failed a w {e = e₁} {w' = w₁} ran f))
      | inr done ↦
          let ran' : run_action site atom a w ≡ some (Errno.ok, tt, w₁) =
            ran ∙ ap (λ k. some (k, tt, w₁)) done in
          let (holder, committed) = run_action_done a w {w' = w₁} ran' in
          let free = run_action_unlocked a w {w' = w₁} ran' in
          ground (arith, ran', holder, committed, free)
    ]
  ]

  -- Isolation: whatever a transaction runs on a number through the scheduler, failing or not, no
  -- other transaction and no reader outside sees any of it.
  pub exec_write_isolated :
      (a : Action) (w : World Number) {e : Errno} {w' : World Number} (t : Transaction)
      (r : Option Transaction)
      → w.txn ≡ some t
      → t.txn_id ≢ 0
      → IsOther t r
      → exec_write commit (run_action site atom a) w ≡ some (e, tt, w')
      → get r w'.state ≡ get r w.state
  unfolding get
  exec_write_isolated a w t none i n o x = ground (arith, exec_write_cases a w t i n x)
  exec_write_isolated a w t (some r) i n o x = ground (arith, exec_write_cases a w t i n x)
