-- ===== src/Tasks/Wakeup.antt =====
-- Who is woken: `z_task_rwcsem_acquire` and `z_task_rwcsem_release` as steps of several threads.
use raleigh_fs.Common.{ℕ, ◌<◌, ◌^◌, Bool, false, List, [], ◌∷◌, ◌++◌, ◌==◌, ◌≡◌, ◌≢◌, refl, arith}
use raleigh_fs.Rwcsem.{Op, Attempt, answer, swap, write_flag, try_acquire, release, is_runnable}
use raleigh_fs.Tasks.{TaskSem, add_waiting, runnables, opened}

-- Does the attempt at the word get in?
abbrev pub gets_in : Attempt → ℕ → Bool
gets_in (answer r) w = false
gets_in (swap e n) w = w == e

-- At every word but 0 a waiting task counts as runnable exactly if its attempt, made at that word,
-- gets in.
is_runnable_lem :
    (op : Op) (w : ℕ) → w < 2 ^ 32 → w ≢ 0 → is_runnable op w ≡ gets_in (try_acquire op w) w
unfolding is_runnable try_acquire
is_runnable_lem Op.read w b n = ground arith
is_runnable_lem Op.write w b n = ground arith
is_runnable_lem Op.commit w b n = ground arith
is_runnable_lem Op.lock w b n = ground arith

-- The semaphore, the tasks that were refused and are on their way to a queue, the words of the
-- releases that are on their way to the queues, and the tasks handed back to the dispatcher.
pub record Threads : Type 0 where
  pub sem : TaskSem
  pub refused : List (Op × ℕ)
  pub releasing : List ℕ
  pub woken : List ℕ

-- The steps: the two halves of an acquire that is refused, one that gets in, and the two halves of a
-- release. The wait-queue lock makes each second half one step.
pub data Step : Threads → Threads → Type 0 where
  enter :
      (t : Threads) (op : Op) (n : ℕ)
      → try_acquire op t.sem.word ≡ swap t.sem.word n
      → Step t (record t { sem = record t.sem { word = n } })
  refuse :
      (t : Threads) (op : Op) (task : ℕ)
      → try_acquire op t.sem.word ≡ answer false
      → Step t (record t { refused = (op, task) ∷ t.refused })
  enqueue :
      (t : Threads) (op : Op) (task : ℕ) (rest : List (Op × ℕ))
      → t.refused ≡ (op, task) ∷ rest
      → Step t (record t { sem = add_waiting op task t.sem; refused = rest })
  let_go :
      (t : Threads) (op : Op) (n : ℕ)
      → release op t.sem.word ≡ swap t.sem.word n
      → Step t (record t { sem = record t.sem { word = n }; releasing = n ∷ t.releasing })
  wake :
      (t : Threads) (state : ℕ) (rest : List ℕ)
      → t.releasing ≡ state ∷ rest
      → Step t (
          let (tasks, sem) = runnables state t.sem in
          record t { sem = sem; releasing = rest; woken = tasks ++ t.woken })

pub data Reach : Threads → Threads → Type 0 where
  here : {t : Threads} → Reach t t
  next : {t u v : Threads} → Reach t u → Step u v → Reach t v

abbrev pub start : Threads
start = record { sem = opened; refused = []; releasing = []; woken = [] }

-- A writer's turn, with task 1 refused in between.
abbrev written : Threads
written = record start { sem = record opened { word = write_flag } }

abbrev turned_away : ℕ → Threads
turned_away task = record written { refused = (Op.write, task) ∷ [] }

abbrev left_alone : ℕ → Threads
left_alone task = record start { refused = (Op.write, task) ∷ []; releasing = 0 ∷ [] }

abbrev woke_nobody : ℕ → Threads
woke_nobody task = record start { refused = (Op.write, task) ∷ [] }

-- A wake-up is lost: a task that is refused while a writer is inside, and comes to its queue after
-- the writer's release has looked there, waits on a semaphore with nobody inside, no release under
-- way and nobody woken.
pub lost_wakeup :
    (task : ℕ) → Reach start (record start { sem = record opened { writeq = task ∷ [] } })
unfolding try_acquire release runnables add_waiting
lost_wakeup task =
    next
      (next
        (next
          (next (next here (enter start Op.write write_flag refl))
            (refuse written Op.write task refl))
          (let_go (turned_away task) Op.write 0 refl))
        (wake (left_alone task) 0 [] refl))
      (enqueue (woke_nobody task) Op.write task [] refl)
