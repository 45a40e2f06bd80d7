-- ===== src/Transaction/Tests.antt =====
-- A transaction with three atoms on two objects.
use raleigh_fs.Common.{true, none, some, [], ◌∷◌, ◌≡◌, refl, arith}
use raleigh_fs.Errno.{Errno}
use raleigh_fs.Transaction.{Links, set_next, Transaction, alloc, add, replace_from}
use raleigh_fs.Transaction.Chain.{Chain, Distinct}
use raleigh_fs.Transaction.View.{View, view_add}
use raleigh_fs.Transaction.Add.{Holds, add-Holds}
use raleigh_fs.Transaction.Replace.{replace_from_lem, replace_from_head}

-- Atoms 1, 2 and 3, chained in that order.
abbrev three_links : Links
three_links = set_next (set_next (λ a. none) 2 (some 3)) 1 (some 2)

abbrev three_atoms : Transaction
three_atoms = record (alloc 9 0) {
  objects = record { object = 7; atoms_head = some 1; atoms_tail = some 3 } ∷ [];
}

abbrev three_view : View
three_view = (7, 1 ∷ 2 ∷ 3 ∷ []) ∷ []

abbrev three_distinct : Distinct (1 ∷ 2 ∷ 3 ∷ [])
three_distinct = (
  (λ e. absurd (omega arith), (λ e. absurd (omega arith), tt)),
  ((λ e. absurd (omega arith), tt), (tt, tt)),
)

three_held : Holds three_links three_atoms three_view
unfolding alloc
three_held = record {
  represents = (refl, (refl, (refl, (refl, tt))), refl, tt);
  distinct = (three_distinct, (tt, (tt, (tt, tt))), tt);
}

add-Holds_example :
    let (e, txn', links') = add true 5 three_atoms 7 4 three_links in
    (e ≡ Errno.ok)
    × Holds links' txn' ((7, 1 ∷ 2 ∷ 3 ∷ 4 ∷ []) ∷ [])
    × (txn'.txn_id ≡ 9)
    × (txn'.state ≡ (alloc 9 0).state)
unfolding alloc view_add
add-Holds_example =
    add-Holds 5 three_atoms 7 4 three_links three_view three_held (
      (λ e. absurd (omega arith), (λ e. absurd (omega arith), (λ e. absurd (omega arith), tt))),
      tt,
    )

replace_from_lem_example :
    Chain (replace_from 5 1 (some 1) 2 none three_links) (some 1) (1 ∷ 3 ∷ [])
replace_from_lem_example =
    replace_from_lem 5 three_links 1 2 none [] (3 ∷ []) (omega arith) three_distinct tt
      (refl, (refl, (refl, tt)))

replace_from_head_example :
    Chain (replace_from 5 1 (some 1) 1 none three_links) (some 1) (1 ∷ 2 ∷ 3 ∷ [])
replace_from_head_example =
    replace_from_head 4 three_links 1 none (2 ∷ 3 ∷ []) three_distinct tt (refl, (refl, (refl, tt)))
