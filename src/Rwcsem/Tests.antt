-- ===== src/Rwcsem/Tests.antt =====
-- Runs of the semaphore at concrete words, and its masks against the machine's operations.
use Prim.Native.Nat.{bit_and, bit_or}
use raleigh_fs.Common.{
  ℕ, ◌+◌, ◌-◌, ◌^◌, Bool, true, false, not, ◌&&◌, none, List, [], ◌∷◌, ◌==◌, ◌≡◌, refl, arith,
}
use raleigh_fs.Rwcsem.{
  Op, answer, swap, swapped, write_flag, commit_flag, lock_flag, has_write, has_commit, has_lock,
  has_commit_or_write, readers_of, rw_of, lc_of, lock_of, or_write, or_commit, or_lock, cas_loop,
  try_acquire, release, set_commit_flag, is_runnable,
}
use raleigh_fs.Rwcsem.Linear.{acquiring, body_of, Among, ActsAt, cas_loop-ActsAt}
use raleigh_fs.Rwcsem.Protocol.{
  Owner, Guarded, read_in, Reach, here, next, initial, Admits, try_acquire-Admits,
}
use raleigh_fs.Rwcsem.Stuck.{dead, readers_forgotten, try_acquire_read_spins, deadlock}

-- Words with all combinations of the flags and with some readers.
abbrev sample_words : List ℕ
sample_words =
    0
    ∷ 1
    ∷ 5
    ∷ (2 ^ 29 - 1)
    ∷ write_flag
    ∷ (write_flag + 3)
    ∷ commit_flag
    ∷ (commit_flag + 7)
    ∷ (commit_flag + write_flag)
    ∷ (commit_flag + write_flag + 2)
    ∷ lock_flag
    ∷ (lock_flag + 4)
    ∷ (lock_flag + write_flag)
    ∷ (lock_flag + commit_flag)
    ∷ (lock_flag + commit_flag + write_flag + 9)
    ∷ (2 ^ 32 - 1)
    ∷ []

abbrev same : Bool → Bool → Bool
same true b = b
same false b = not b

abbrev masks_agree : ℕ → Bool
masks_agree w =
    readers_of w == bit_and w 0x1fffffff
    && rw_of w == bit_and w 0x3fffffff
    && lc_of w == bit_and w 0xc0000000
    && lock_of w == bit_and w 0x80000000
    && or_write w == bit_or w 0x20000000
    && or_commit w == bit_or w 0x40000000
    && or_lock w == bit_or w 0x80000000
    && same (has_write w) (not (bit_and w 0x20000000 == 0))
    && same (has_commit w) (not (bit_and w 0x40000000 == 0))
    && same (has_lock w) (not (bit_and w 0x80000000 == 0))
    && same (has_commit_or_write w) (not (bit_and w 0x60000000 == 0))

abbrev all_agree : List ℕ → Bool
all_agree [] = true
all_agree (w ∷ ws) = masks_agree w && all_agree ws

masks_on_samples : all_agree sample_words ≡ true
masks_on_samples = refl

-- One reader inside.
abbrev one_reader : Guarded
one_reader = record { word = 1; readers = 1; owner = Owner.nobody; forgotten = 0 }

Reach-reader : Reach initial one_reader
unfolding try_acquire
Reach-reader = next here (read_in initial 1 (omega arith) refl)

try_acquire-Admits_example : Admits Op.write one_reader
unfolding try_acquire
try_acquire-Admits_example = try_acquire-Admits Op.write (1 + write_flag) Reach-reader refl refl

cas_loop-ActsAt_example :
    (w : ℕ) × Among w (0 ∷ 3 ∷ 3 ∷ []) × ActsAt (body_of (acquiring Op.read)) (swapped 3 4) w
unfolding try_acquire cas_loop
cas_loop-ActsAt_example =
    cas_loop-ActsAt (acquiring Op.read) 0 (3 ∷ 3 ∷ [])
      (omega arith, (omega arith, (omega arith, tt))) refl

readers_forgotten_example :
    (try_acquire Op.write 2 ≡ swap 2 (2 + write_flag))
    × (set_commit_flag (2 + write_flag) ≡ swap (2 + write_flag) (2 + write_flag + commit_flag))
    × (release Op.write (2 + write_flag + commit_flag)
        ≡ swap (2 + write_flag + commit_flag) commit_flag)
    × (try_acquire Op.commit commit_flag ≡ swap commit_flag (commit_flag + write_flag))
    × (release Op.read (commit_flag + write_flag)
        ≡ swap (commit_flag + write_flag) (commit_flag + write_flag - 1))
readers_forgotten_example = readers_forgotten 2 (omega arith) (omega arith)

try_acquire_read_spins_example :
    cas_loop (try_acquire Op.read) lock_flag (lock_flag ∷ lock_flag ∷ []) ≡ none
try_acquire_read_spins_example = try_acquire_read_spins 2 lock_flag (omega arith) refl

deadlock_example :
    Reach initial dead
    × (dead ≡ dead)
    × (try_acquire Op.lock dead.word ≡ answer false)
    × (is_runnable Op.lock dead.word ≡ false)
deadlock_example = deadlock Op.lock here
