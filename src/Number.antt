-- ===== src/Number.antt =====
-- src/raleighsl/objects/number/number.c: a 64-bit counter with a committed and a pending value.
--
-- What no int64_t holds is undefined behaviour, `none`: the overflow of `+` and `*`, and the one
-- quotient INT64_MIN / -1.
pub mod Locking
pub mod Register
pub mod Division
mod Tests
use raleigh_fs.Common.{
  ℕ, ◌^◌, ◌-◌, Bool, true, false, not, ◌&&◌, Option, none, some, ◌==◌, if◌then◌else◌,
}
use raleigh_fs.Common.Int.{ℤ, pos, negsuc, ◌+ℤ◌, ◌*ℤ◌, eq_ℤ, checked64, quot, rem}
use raleigh_fs.Errno.{Errno, failed}
use raleigh_fs.Transaction.{Transaction}
use raleigh_fs.Object.{ObjectPlug, World, Site, txn_id_of, enlist}

-- `struct raleighsl_number`, less its atom
pub record Number : Type 0 where
  pub read_value : ℤ
  pub write_value : ℤ
  pub txn_id : ℕ

-- `raleighsl_number_get`
unfoldable pub get : Option Transaction → Number → ℤ
get none n = n.read_value
get (some t) n = if n.txn_id == t.txn_id then n.write_value else n.read_value

-- `number->txn_id > 0 && number->txn_id != txn_id`
abbrev pub locked : Number → ℕ → Bool
locked n id = not (n.txn_id == 0) && not (n.txn_id == id)

-- What a client can ask of a number.
pub data Action : Type 0 where
  setting : ℤ → Action
  swapping : ℤ → ℤ → Action
  adding multiplying dividing : ℤ → Action

-- The site of a call and the address of the number's atom.
module _ (site : Site) (atom : ℕ) where
  -- `if (transaction != NULL && number->txn_id != txn_id) raleighsl_transaction_add(…)`
  unfoldable pub join : World Number → Errno × World Number
  unfolding enlist
  join w = if w.state.txn_id == txn_id_of w.txn then (Errno.ok, w) else enlist site atom w

  -- the end of each write: the pending value and the holder
  unfoldable pub write : ℤ → World Number → World Number
  write v w = record w { state = record (w.state) { write_value = v; txn_id = txn_id_of w.txn } }

  -- `raleighsl_number_set`
  unfoldable pub set : ℤ → World Number → Errno × World Number
  unfolding join write
  set v w =
      if locked w.state (txn_id_of w.txn)
      then (Errno.txn_locked_operation, w)
      else (let (e, w') = join w in if failed e then (e, w') else (Errno.ok, write v w'))

  -- the lock check, the entry into the transaction and the write of a value computed from the old,
  -- which overflows where there is none; with `*current_value`
  unfoldable pub update : (ℤ → Option ℤ) → World Number → Option (Errno × Option ℤ × World Number)
  unfolding join write
  update f w =
      if locked w.state (txn_id_of w.txn)
      then some (Errno.txn_locked_operation, none, w)
      else (let (e, w') = join w in
          if failed e then some (e, none, w') else elim (f (w'.state.write_value)) [
            | none ↦ none
            | some v ↦ some (Errno.ok, some v, write v w')
          ])

  -- `raleighsl_number_cas`, with what it leaves in `*current_value`
  unfoldable pub cas : ℤ → ℤ → World Number → Errno × Option ℤ × World Number
  unfolding join write
  cas old new w =
      if locked w.state (txn_id_of w.txn)
      then (Errno.txn_locked_operation, none, w)
      else if eq_ℤ (w.state.write_value) old
      then (let (e, w') = join w in
          if failed e
          then (e, some (w.state.write_value), w')
          else (Errno.ok, some (w.state.write_value), write new w'))
      else (Errno.data_cas, some (w.state.write_value), w)

  -- `raleighsl_number_add`
  unfoldable pub add : ℤ → World Number → Option (Errno × Option ℤ × World Number)
  unfolding update
  add v w = update (λ x. checked64 (x +ℤ v)) w

  -- `raleighsl_number_mul`
  unfoldable pub mul : ℤ → World Number → Option (Errno × Option ℤ × World Number)
  unfolding update
  mul v w = update (λ x. checked64 (x *ℤ v)) w

  -- `raleighsl_number_div`, with `*mody`; `*current_value` is the value that it writes
  unfoldable pub div : ℤ → World Number → Option (Errno × Option ℤ × World Number)
  unfolding join write
  div d w =
      if eq_ℤ d (pos 0)
      then some (Errno.number_divmod_byzero, none, w)
      else if locked w.state (txn_id_of w.txn)
      then some (Errno.txn_locked_operation, none, w)
      else (let (e, w') = join w in
          if failed e
          then some (e, none, w')
          else if eq_ℤ d (negsuc 0) && eq_ℤ (w'.state.write_value) (negsuc (2 ^ 63 - 1))
          then none
          else some (
            Errno.ok,
            some (rem (w'.state.write_value) d),
            write (quot (w'.state.write_value) d) w',
          ))

  abbrev handed_back :
      Option (Errno × Option ℤ × World Number) → Option (Errno × Unit {0} × World Number)
  handed_back none = none
  handed_back (some (e, v, w)) = some (e, tt, w)

  -- a write of a client, without the values handed back
  unfoldable pub run_action : Action → World Number → Option (Errno × Unit {0} × World Number)
  unfolding set cas add mul div
  run_action (Action.setting v) w = let (e, w') = set v w in some (e, tt, w')
  run_action (Action.swapping old new) w = let (e, c, w') = cas old new w in some (e, tt, w')
  run_action (Action.adding v) w = handed_back (add v w)
  run_action (Action.multiplying v) w = handed_back (mul v w)
  run_action (Action.dividing d) w = handed_back (div d w)

-- `__object_apply`, `__object_revert` and `__object_commit`. The assertions on the atom are compiled
-- to nothing.
unfoldable pub apply : ℕ → Number → Number
apply atom n = record n { read_value = n.write_value; txn_id = 0 }

unfoldable pub revert : ℕ → Number → Number
revert atom n = record n { write_value = n.read_value; txn_id = 0 }

unfoldable pub commit : Number → Option (Errno × Number)
commit n =
    if n.txn_id == 0
    then some (Errno.ok, record n { read_value = n.write_value })
    else some (Errno.ok, n)

-- `__object_create`
unfoldable pub create : Number
create = record { read_value = pos 0; write_value = pos 0; txn_id = 0 }

-- `raleighsl_object_number`
unfoldable pub plug : ObjectPlug Number
unfolding create apply revert commit
plug = record { create = create; apply = apply; revert = revert; commit = commit }
