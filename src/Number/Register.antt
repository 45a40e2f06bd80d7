-- ===== src/Number/Register.antt =====
-- A number as an atomic register, and a transaction on it as a private run over the register.
use mathlib.Core.Path.{ap₂}
use raleigh_fs.Common.{
  ℕ, ◌^◌, ◌-◌, true, ◌&&◌, Option, none, some, Option-cases, List, [], ◌∷◌, ◌≡◌, ◌≢◌, ◌⊎◌, inl, inr,
  refl, arith, if◌then◌else◌,
}
use raleigh_fs.Common.Int.{ℤ, pos, negsuc, ◌+ℤ◌, ◌*ℤ◌, eq_ℤ, checked64, quot}
use raleigh_fs.Errno.{Errno}
use raleigh_fs.Object.{World, Site, txn_id_of, exec_write}
use raleigh_fs.Transaction.Add.{add_ok}
use raleigh_fs.Number.Locking.{join-state, join-txn_id}
use raleigh_fs.Number.{Number, Action, get, join, run_action, apply, revert, commit}

-- What an action does to a register: its code and the new value; `none` is undefined behaviour.
unfoldable pub perform : Action → ℤ → Option (Errno × ℤ)
perform (Action.setting v) x = some (Errno.ok, v)
perform (Action.swapping old new) x =
    if eq_ℤ x old then some (Errno.ok, new) else some (Errno.data_cas, x)
perform (Action.adding v) x = elim (checked64 (x +ℤ v)) [
  | none ↦ none
  | some y ↦ some (Errno.ok, y)
]
perform (Action.multiplying v) x = elim (checked64 (x *ℤ v)) [
  | none ↦ none
  | some y ↦ some (Errno.ok, y)
]
perform (Action.dividing d) x =
    if eq_ℤ d (pos 0)
    then some (Errno.number_divmod_byzero, x)
    else if eq_ℤ d (negsuc 0) && eq_ℤ x (negsuc (2 ^ 63 - 1))
    then none
    else some (Errno.ok, quot x d)

-- A number that nobody holds, and one that transaction `id` holds with a pending value.
abbrev pub clean : ℤ → Number
clean x = record { read_value = x; write_value = x; txn_id = 0 }

abbrev pub held : ℤ → ℤ → ℕ → Number
held x y id = record { read_value = x; write_value = y; txn_id = id }

-- Outside transactions a number is an atomic register: from a clean state every action, run
-- through the scheduler, returns what the register returns and leaves the number clean at the
-- register's new value.
pub exec_write-perform :
    (site : Site) (atom : ℕ) (a : Action) (w : World Number) (x : ℤ)
    → w.state ≡ clean x
    → w.txn ≡ none
    → exec_write commit (run_action site atom a) w ≡ elim (perform a x) [
      | none ↦ none
      | some (e, y) ↦ some (e, tt, record w { state = clean y })
    ]
unfolding exec_write commit run_action perform
exec_write-perform site atom (Action.setting v) w x c o = ground arith
exec_write-perform site atom (Action.swapping old new) w x c o = ground arith
exec_write-perform site atom (Action.adding v) w x c o = ground arith
exec_write-perform site atom (Action.multiplying v) w x c o = ground arith
exec_write-perform site atom (Action.dividing d) w x c o = ground arith

-- A transaction's private state on a number: committed `x`, its own view `y`. Before its first
-- write it holds nothing.
abbrev pub IsPending : ℤ → ℤ → ℕ → World Number → Type 0
IsPending x y id w =
    ((w.state ≡ held x y id) ⊎ ((w.state ≡ clean x) × (y ≡ x))) × (txn_id_of w.txn ≡ id)

join_ok :
    (site : Site) (atom : ℕ) (w : World Number)
    → site.allocated ≡ true
    → (join site atom w).0 ≡ Errno.ok
unfolding join
join_ok site atom w h = elim (Option-cases w.txn) [
  | inl e ↦ rw (e, join) (ground arith)
  | inr (t, e) ↦ ground (arith, add_ok site.now t site.object atom w.links)
]

-- A run through the scheduler agrees with the register's.
abbrev Agrees : ℤ → ℕ → Option (Errno × ℤ) → Option (Errno × Unit {0} × World Number) → Type 0
Agrees x id none none = Unit {0}
Agrees x id (some (e, y)) (some (e', u, w)) = (e' ≡ e) × IsPending x y id w
Agrees x id _ _ = ⊥

exec_write-Agrees :
    (site : Site) (atom : ℕ) (a : Action) (w : World Number) (x y : ℤ) (id : ℕ)
    → site.allocated ≡ true
    → id ≢ 0
    → IsPending x y id w
    → Agrees x id (perform a y) (exec_write commit (run_action site atom a) w)
unfolding exec_write commit run_action perform
exec_write-Agrees site atom (Action.setting v) w x y id h n p =
    ground (arith, join_ok site atom w h, join-state site atom w, join-txn_id site atom w)
exec_write-Agrees site atom (Action.swapping old new) w x y id h n p =
    ground (arith, join_ok site atom w h, join-state site atom w, join-txn_id site atom w)
exec_write-Agrees site atom (Action.adding v) w x y id h n p =
    ground (arith, join_ok site atom w h, join-state site atom w, join-txn_id site atom w)
exec_write-Agrees site atom (Action.multiplying v) w x y id h n p =
    ground (arith, join_ok site atom w h, join-state site atom w, join-txn_id site atom w)
exec_write-Agrees site atom (Action.dividing d) w x y id h n p =
    ground (arith, join_ok site atom w h, join-state site atom w, join-txn_id site atom w)

-- A list of actions, each run through the scheduler: the codes, and the world at the end.
unfoldable pub run_actions :
    Site → ℕ → List Action → World Number → Option (List Errno × World Number)
run_actions site atom [] w = some ([], w)
run_actions site atom (a ∷ as_) w = elim (exec_write commit (run_action site atom a) w) [
  | none ↦ none
  | some (e, u, w') ↦ elim (run_actions site atom as_ w') [
    | none ↦ none
    | some (es, w'') ↦ some (e ∷ es, w'')
  ]
]

-- The same actions on a register.
unfoldable pub perform_all : List Action → ℤ → Option (List Errno × ℤ)
perform_all [] x = some ([], x)
perform_all (a ∷ as_) x = elim (perform a x) [
  | none ↦ none
  | some (e, y) ↦ elim (perform_all as_ y) [ none ↦ none | some (es, z) ↦ some (e ∷ es, z) ]
]

abbrev AllAgree : ℤ → ℕ → Option (List Errno × ℤ) → Option (List Errno × World Number) → Type 0
AllAgree x id none none = Unit {0}
AllAgree x id (some (es, y)) (some (es', w)) = (es' ≡ es) × IsPending x y id w
AllAgree x id _ _ = ⊥

cons_agree :
    (x : ℤ) (id : ℕ) (e e' : Errno) (s : Option (List Errno × ℤ))
    (r : Option (List Errno × World Number))
    → e' ≡ e
    → AllAgree x id s r
    → AllAgree x id
        (elim s [ none ↦ none | some (es, z) ↦ some (e ∷ es, z) ])
        (elim r [ none ↦ none | some (es, w) ↦ some (e' ∷ es, w) ])
cons_agree x id e e' none none h g = tt
cons_agree x id e e' none (some r) h g = absurd g
cons_agree x id e e' (some s) none h g = absurd g
cons_agree x id e e' (some (es, z)) (some (es', w)) h g = (ap₂ ◌∷◌ h g.0, g.1)

module _ (site : Site) (atom : ℕ) (x : ℤ) (id : ℕ) where
  -- one action, and what is known of the rest
  head-Agrees :
      (as_ : List Action) (s : Option (Errno × ℤ)) (r : Option (Errno × Unit {0} × World Number))
      → ((w : World Number) (z : ℤ)
          → IsPending x z id w
          → AllAgree x id (perform_all as_ z) (run_actions site atom as_ w))
      → Agrees x id s r
      → AllAgree x id
          (elim s [
            | none ↦ none
            | some (e, z) ↦ elim (perform_all as_ z) [
              | none ↦ none
              | some (es, u) ↦ some (e ∷ es, u)
            ]
          ])
          (elim r [
            | none ↦ none
            | some (e, u, w) ↦ elim (run_actions site atom as_ w) [
              | none ↦ none
              | some (es, w') ↦ some (e ∷ es, w')
            ]
          ])
  head-Agrees as_ none none rest g = tt
  head-Agrees as_ none (some r) rest g = absurd g
  head-Agrees as_ (some s) none rest g = absurd g
  head-Agrees as_ (some (e, z)) (some (e', u, w)) rest g =
      cons_agree x id e e' (perform_all as_ z) (run_actions site atom as_ w) g.0 (rest w z g.1)

  run_actions-AllAgree :
      (as_ : List Action) (w : World Number) (y : ℤ)
      → site.allocated ≡ true
      → id ≢ 0
      → IsPending x y id w
      → AllAgree x id (perform_all as_ y) (run_actions site atom as_ w)
  unfolding run_actions perform_all
  run_actions-AllAgree [] w y h n p = (refl, p)
  run_actions-AllAgree (a ∷ as_) w y h n p =
      head-Agrees as_ (perform a y) (exec_write commit (run_action site atom a) w)
        (λ w' z p'. run_actions-AllAgree as_ w' z h n p')
        (exec_write-Agrees site atom a w x y id h n p)

-- How a transaction's run may end: the codes are the register's; applying the atom leaves the
-- number clean at the register's last value, and reverting it at the first; until then the
-- transaction reads the last value and all others the first.
abbrev pub Settles : ℕ → ℤ → Option (List Errno × ℤ) → Option (List Errno × World Number) → Type 0
Settles atom x none none = Unit {0}
Settles atom x (some (es, y)) (some (es', w)) =
    (es' ≡ es)
    × (apply atom (w.state) ≡ clean y)
    × (revert atom (w.state) ≡ clean x)
    × (get (w.txn) (w.state) ≡ y)
    × (get none (w.state) ≡ x)
Settles atom x _ _ = ⊥

settle :
    (atom : ℕ) (x : ℤ) (id : ℕ) (s : Option (List Errno × ℤ))
    (r : Option (List Errno × World Number))
    → id ≢ 0
    → AllAgree x id s r
    → Settles atom x s r
unfolding apply revert get
settle atom x id none none n g = tt
settle atom x id none (some r) n g = absurd g
settle atom x id (some s) none n g = absurd g
settle atom x id (some (es, y)) (some (es', w)) n g = ground arith

-- All that a transaction does to a number, errors of single actions included, is one run of the
-- register on the value committed before it: nothing shows outside, and it is published whole or
-- taken back whole.
pub run_actions-Settles :
    (site : Site) (atom : ℕ) (as_ : List Action) (w : World Number) (x : ℤ)
    → site.allocated ≡ true
    → w.state ≡ clean x
    → txn_id_of w.txn ≢ 0
    → Settles atom x (perform_all as_ x) (run_actions site atom as_ w)
run_actions-Settles site atom as_ w x h c n =
    settle atom x (txn_id_of w.txn) (perform_all as_ x) (run_actions site atom as_ w) n
      (run_actions-AllAgree site atom x (txn_id_of w.txn) as_ w x h n (inr (c, refl), refl))
