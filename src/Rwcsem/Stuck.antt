-- ===== src/Rwcsem/Stuck.antt =====
-- Where the semaphore goes wrong: a writer's release forgets the readers, the lock flag makes a
-- "try" spin, and a commit flag beside a lock flag lets nobody in ever again.
use mathlib.Core.Path.{subst}
use raleigh_fs.Common.{
  ℕ, zero, suc, ◌+◌, ◌-◌, ◌/◌, ◌^◌, ◌<◌, false, none, List, [], ◌∷◌, ◌≡◌, refl, sym, arith,
}
use raleigh_fs.Rwcsem.{
  Op, answer, swap, write_flag, commit_flag, lock_flag, cas_loop, try_acquire, release, try_switch,
  set_commit_flag, set_lock_flag, is_runnable,
}
use raleigh_fs.Rwcsem.Protocol.{
  Owner, Guarded, Step, read_in, read_out, write_in, write_out, mark_commit, switch_commit,
  switch_read, commit_in, commit_out, mark_lock, lock_in, lock_out, Reach, here, next, initial,
}

-- With `n` readers inside a writer may come in; when it has marked its commit and leaves, the
-- word has lost the readers, a commit comes in beside them, and the next reader to leave takes
-- the commit's write flag away.
pub readers_forgotten :
    (n : ℕ)
    → 0 < n
    → n < 2 ^ 29
    → (try_acquire Op.write n ≡ swap n (n + write_flag))
      × (set_commit_flag (n + write_flag) ≡ swap (n + write_flag) (n + write_flag + commit_flag))
      × (release Op.write (n + write_flag + commit_flag)
          ≡ swap (n + write_flag + commit_flag) commit_flag)
      × (try_acquire Op.commit commit_flag ≡ swap commit_flag (commit_flag + write_flag))
      × (release Op.read (commit_flag + write_flag)
          ≡ swap (commit_flag + write_flag) (commit_flag + write_flag - 1))
unfolding try_acquire set_commit_flag release
readers_forgotten n p h = (ground arith, ground arith, ground arith, refl, refl)

-- The same value, seen again and again.
abbrev pub seen : ℕ → ℕ → List ℕ
seen zero w = []
seen (suc k) w = w ∷ seen k w

-- While the word holds the lock flag and no commit flag and does not change,
-- `z_rwcsem_try_acquire_read` does not return: its loop spins however often it looks.
pub try_acquire_read_spins :
    (k w : ℕ) → w < 2 ^ 32 → w / 2 ^ 30 ≡ 2 → cas_loop (try_acquire Op.read) w (seen k w) ≡ none
unfolding cas_loop try_acquire
try_acquire_read_spins zero w b h = ground arith
try_acquire_read_spins (suc k) w b h = ground (arith, try_acquire_read_spins k w)

-- A transaction marks the lock while a writer is inside, and the writer marks its commit.
abbrev pub dead : Guarded
dead = record { word = commit_flag + lock_flag; readers = 0; owner = Owner.nobody; forgotten = 0 }

Reach-dead : Reach initial dead
unfolding try_acquire set_commit_flag set_lock_flag release
Reach-dead =
    next
      (next
        (next (next here (write_in initial write_flag refl)) (
          mark_lock (record { word = write_flag; readers = 0; owner = Owner.writer; forgotten = 0 })
            (write_flag + lock_flag) refl))
        (mark_commit
          (record {
            word = write_flag + lock_flag;
            readers = 0;
            owner = Owner.writer;
            forgotten = 0;
          })
          (write_flag + commit_flag + lock_flag) refl))
      (write_out
        (record {
          word = write_flag + commit_flag + lock_flag;
          readers = 0;
          owner = Owner.writer;
          forgotten = 0;
        })
        (commit_flag + lock_flag) refl refl)

Step-dead : (s : Guarded) {t : Guarded} → s ≡ dead → Step s t → t ≡ dead
unfolding try_acquire set_commit_flag set_lock_flag release try_switch
Step-dead s e (read_in _ n b h) = ground arith
Step-dead s e (read_out _ n r z h) = ground arith
Step-dead s e (write_in _ n h) = ground arith
Step-dead s e (write_out _ n o h) = ground arith
Step-dead s e (mark_commit _ n h) = ground arith
Step-dead s e (switch_commit _ o h) = ground arith
Step-dead s e (switch_read _ n o h) = ground arith
Step-dead s e (commit_in _ n h) = ground arith
Step-dead s e (commit_out _ n o h) = ground arith
Step-dead s e (mark_lock _ n h) = ground arith
Step-dead s e (lock_in _ n h) = ground arith
Step-dead s e (lock_out _ n o h) = ground arith

Reach-from_dead : {t : Guarded} → Reach dead t → t ≡ dead
Reach-from_dead here = refl
Reach-from_dead (next {t = t} r st) = Step-dead t (Reach-from_dead r) st

dead_refuses :
    (op : Op) → (try_acquire op dead.word ≡ answer false) × (is_runnable op dead.word ≡ false)
unfolding try_acquire is_runnable
dead_refuses Op.read = (refl, refl)
dead_refuses Op.write = (refl, refl)
dead_refuses Op.commit = (refl, refl)
dead_refuses Op.lock = (refl, refl)

-- The protocol can reach a state, `dead`, with nobody inside, that no step leaves: in every state
-- reached from it every operation is refused and no waiting task counts as runnable.
pub deadlock :
    (op : Op) {t : Guarded}
    → Reach dead t
    → Reach initial t
      × (t ≡ dead)
      × (try_acquire op t.word ≡ answer false)
      × (is_runnable op t.word ≡ false)
deadlock op {t} r =
    let same = Reach-from_dead r in
    let (refused, idle) = dead_refuses op in
    (
      subst (λ u. Reach initial u) (sym same) Reach-dead,
      same,
      subst (λ (u : Guarded). try_acquire op u.word ≡ answer false) (sym same) refused,
      subst (λ (u : Guarded). is_runnable op u.word ≡ false) (sym same) idle,
    )
