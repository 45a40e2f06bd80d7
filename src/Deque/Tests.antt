-- ===== src/Deque/Tests.antt =====
-- Calls on concrete deques.
use raleigh_fs.Common.{ℕ, true, none, some, List, [], ◌∷◌, ◌≡◌, arith}
use raleigh_fs.Errno.{Errno}
use raleigh_fs.Object.{Site}
use raleigh_fs.Deque.{front, back, Entry}
use raleigh_fs.Deque.Queue.{
  Request, push_to, pop_from, queue_pop, queue_push, serve, run, outside, run-serve,
}

abbrev test_site : Site
test_site = record { object = 7; allocated = true; now = 0 }

abbrev entry_one : Entry ℕ
entry_one = record { addr = 1; value = 10 }

abbrev entry_two : Entry ℕ
entry_two = record { addr = 2; value = 20 }

abbrev some_requests : List (Request ℕ)
some_requests =
    push_to back 30 ∷ pop_from front ∷ pop_from back ∷ pop_from back ∷ pop_from front ∷ []

run-serve_example :
    run test_site 5 some_requests 3 (outside test_site 5 (entry_one ∷ entry_two ∷ []) (λ a. none))
    ≡ some (
        (Errno.ok, none)
        ∷ (Errno.ok, some 10)
        ∷ (Errno.ok, some 30)
        ∷ (Errno.ok, some 20)
        ∷ (Errno.data_no_items, none)
        ∷ [])
unfolding serve queue_pop queue_push
run-serve_example =
    run-serve test_site 5 some_requests 3 (entry_one ∷ entry_two ∷ []) (λ a. none)
      ((λ e. absurd (omega arith), tt), (tt, tt)) (omega arith, (omega arith, tt))
