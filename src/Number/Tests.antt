-- ===== src/Number/Tests.antt =====
-- Actions on concrete numbers.
use raleigh_fs.Common.{◌/◌, ◌<◌, true, none, some, List, [], ◌∷◌, ◌≡◌, refl, arith}
use raleigh_fs.Common.Int.{ℤ, pos, negsuc, ◌+ℤ◌, ◌*ℤ◌, magnitude, IsInt64, quot, rem}
use raleigh_fs.Errno.{Errno}
use raleigh_fs.Transaction.{Transaction, alloc, set_next}
use raleigh_fs.Object.{World, Site, exec_write}
use raleigh_fs.Number.{Number, Action, get, run_action, div, commit}
use raleigh_fs.Number.Locking.{exec_write_isolated}
use raleigh_fs.Number.Register.{
  perform, perform_all, clean, held, run_actions, Settles, exec_write-perform, run_actions-Settles,
}
use raleigh_fs.Number.Division.{div_lem}

abbrev test_site : Site
test_site = record { object = 7; allocated = true; now = 0 }

abbrev nine : Transaction
nine = alloc 9 0

-- The number 5, outside transactions and in transaction 9.
abbrev outside_five : World Number
outside_five = record { state = clean (pos 5); txn = none; links = λ a. none }

abbrev inside_five : World Number
inside_five = record { state = clean (pos 5); txn = some nine; links = λ a. none }

exec_write-perform_example :
    exec_write commit (run_action test_site 1 (Action.dividing (pos 2))) outside_five
    ≡ some (Errno.ok, tt, record outside_five { state = clean (pos 2) })
unfolding perform quot
exec_write-perform_example =
    exec_write-perform test_site 1 (Action.dividing (pos 2)) outside_five (pos 5) refl refl

abbrev two_actions : List Action
two_actions = Action.adding (pos 2) ∷ Action.multiplying (negsuc 0) ∷ []

run_actions-Settles_example :
    Settles 1
      (pos 5)
      (perform_all two_actions (pos 5))
      (run_actions test_site 1 two_actions inside_five)
unfolding alloc
run_actions-Settles_example =
    run_actions-Settles test_site 1 two_actions inside_five (pos 5) refl refl
      (λ e. absurd (omega arith))

-- The number after transaction 9 has set it to 8.
abbrev inside_eight : World Number
inside_eight = record {
  state = held (pos 5) (pos 8) 9;
  txn = some (record nine {
    objects = record { object = 7; atoms_head = some 1; atoms_tail = some 1 } ∷ [];
  });
  links = set_next (λ a. none) 1 none;
}

exec_write_isolated_example : get none (inside_eight.state) ≡ get none (inside_five.state)
unfolding exec_write commit run_action alloc raleigh_fs.Transaction.add
exec_write_isolated_example =
    exec_write_isolated test_site 1 (Action.setting (pos 8)) inside_five {e = Errno.ok}
      {w' = inside_eight} nine none refl (λ e. absurd (omega arith)) tt refl

abbrev outside_quotient : World Number
outside_quotient = record outside_five { state = record (clean (pos 5)) { write_value = negsuc 1 } }

div_lem_example :
    (r : ℤ) × (some (pos 1) ≡ some r)
    × (negsuc 1 *ℤ negsuc 1 +ℤ r ≡ pos 5)
    × (magnitude r < 2)
    × (2 ≡ 5 / 2)
    × IsInt64 (negsuc 1)
unfolding div rem quot
div_lem_example =
    div_lem test_site 1 (negsuc 1) outside_five outside_quotient (some (pos 1)) (omega arith) refl
