-- ===== src/Rwcsem.antt =====
-- src/zcl/threading/locking.c and locking.h: the read-write-commit semaphore, one 32-bit word.
--
-- Bits 0-28 count the readers; bit 29 is Z_RWCSEM_WRITE_FLAG, bit 30 the commit flag and bit 31
-- the lock flag. A mask is written as the division or remainder that it stands for below 2 ^ 32,
-- which `Rwcsem.Tests` compares with the native `&` and `|`.
--
-- Each operation is one `z_atomic_cas_loop` (src/zcl/system/atomic.h). Its body reads the
-- current value and either returns or proposes a swap: that is an `Attempt`.
pub mod Linear
pub mod Protocol
pub mod Stuck
mod Tests
use raleigh_fs.Common.{
  ℕ, ◌+◌, ◌-◌, ◌*◌, ◌/◌, ◌%◌, ◌^◌, Bool, true, false, Option, none, some, List, [], ◌∷◌, ◌==◌,
  if◌then◌else◌,
}

abbrev pub write_flag : ℕ
write_flag = 2 ^ 29

abbrev pub commit_flag : ℕ
commit_flag = 2 ^ 30

abbrev pub lock_flag : ℕ
lock_flag = 2 ^ 31

-- `state & Z_RWCSEM_…_FLAG`, as a test
abbrev pub has_write : ℕ → Bool
has_write w = w / 2 ^ 29 % 2 == 1

abbrev pub has_commit : ℕ → Bool
has_commit w = w / 2 ^ 30 % 2 == 1

abbrev pub has_lock : ℕ → Bool
has_lock w = w / 2 ^ 31 % 2 == 1

-- `state & Z_RWCSEM_CW_MASK`, as a test
abbrev pub has_commit_or_write : ℕ → Bool
has_commit_or_write w = if w / 2 ^ 29 % 4 == 0 then false else true

-- `state & Z_RWCSEM_READERS_MASK`, `… RW_MASK`, `… LC_MASK` and `… LOCK_FLAG`
abbrev pub readers_of : ℕ → ℕ
readers_of w = w % 2 ^ 29

abbrev pub rw_of : ℕ → ℕ
rw_of w = w % 2 ^ 30

abbrev pub lc_of : ℕ → ℕ
lc_of w = w / 2 ^ 30 * 2 ^ 30

abbrev pub lock_of : ℕ → ℕ
lock_of w = w / 2 ^ 31 * 2 ^ 31

-- `state | flag`
abbrev pub or_write : ℕ → ℕ
or_write w = if has_write w then w else w + write_flag

abbrev pub or_commit : ℕ → ℕ
or_commit w = if has_commit w then w else w + commit_flag

abbrev pub or_lock : ℕ → ℕ
or_lock w = if has_lock w then w else w + lock_flag

-- `enum z_rwcsem_op`
pub data Op : Type 0 where
  read write commit lock : Op

-- What the body of a loop does with the value that it read: it returns an answer, or it proposes
-- to swap the word from `expval` to `newval`.
pub data Attempt : Type 0 where
  answer : Bool → Attempt
  swap : ℕ → ℕ → Attempt

-- How a loop ends: with an answer, or with the swap that went through.
pub data Outcome : Type 0 where
  answered : Bool → Outcome
  swapped : ℕ → ℕ → Outcome

-- `z_atomic_cas_loop`: `curval` was loaded, and the list holds what the word is at each of the
-- compare-and-swap instructions that follow, other threads having moved it in between. `none` is
-- a loop that still spins when the list ends.
unfoldable pub cas_loop : (ℕ → Attempt) → ℕ → List ℕ → Option Outcome
cas_loop body curval [] = elim (body curval) [ answer r ↦ some (answered r) | swap e n ↦ none ]
cas_loop body curval (w ∷ ws) =
    let rest = cas_loop body w ws in
    elim (body curval) [
      | answer r ↦ some (answered r)
      | swap e n ↦ if w == e then some (swapped e n) else rest
    ]

-- the bodies of `z_rwcsem_try_acquire_read`, `z_rwcsem_release_read` and so on
unfoldable pub try_acquire_read : ℕ → Attempt
try_acquire_read w = if has_commit w then answer false else swap (rw_of w) ((rw_of w + 1) % 2 ^ 32)

unfoldable pub release_read : ℕ → Attempt
release_read w = swap w ((w + 2 ^ 32 - 1) % 2 ^ 32)

unfoldable pub try_acquire_write : ℕ → Attempt
try_acquire_write w =
    if has_commit_or_write w then answer false else swap (readers_of w) (or_write (readers_of w))

unfoldable pub release_write : ℕ → Attempt
release_write w = swap w (lc_of w)

unfoldable pub set_commit_flag : ℕ → Attempt
set_commit_flag w = swap w (or_commit w)

unfoldable pub try_acquire_commit : ℕ → Attempt
try_acquire_commit w =
    if w == commit_flag then swap commit_flag (commit_flag + write_flag) else answer false

unfoldable pub release_commit : ℕ → Attempt
release_commit w = swap w (lock_of w)

unfoldable pub set_lock_flag : ℕ → Attempt
set_lock_flag w = swap w (or_lock w)

unfoldable pub try_acquire_lock : ℕ → Attempt
try_acquire_lock w =
    if w == lock_flag then swap lock_flag (lock_flag + write_flag) else answer false

unfoldable pub try_release_lock : ℕ → Attempt
try_release_lock w = swap w 0

-- `z_rwcsem_try_switch`
unfoldable pub try_switch : Op → Op → ℕ → Attempt
try_switch Op.write Op.read w =
    if has_commit w then answer false else swap (rw_of w) (lc_of (rw_of w) + 1)
try_switch Op.write Op.commit w = answer (w == commit_flag + write_flag)
try_switch Op.write Op.write w = answer false
try_switch Op.write Op.lock w = answer false
try_switch Op.read next w = answer false
try_switch Op.commit next w = answer false
try_switch Op.lock next w = answer false

-- `z_rwcsem_try_acquire` and `z_rwcsem_release`
unfoldable pub try_acquire : Op → ℕ → Attempt
unfolding try_acquire_read try_acquire_write try_acquire_commit try_acquire_lock
try_acquire Op.read w = try_acquire_read w
try_acquire Op.write w = try_acquire_write w
try_acquire Op.commit w = try_acquire_commit w
try_acquire Op.lock w = try_acquire_lock w

unfoldable pub release : Op → ℕ → Attempt
unfolding release_read release_write release_commit try_release_lock
release Op.read w = release_read w
release Op.write w = release_write w
release Op.commit w = release_commit w
release Op.lock w = try_release_lock w

-- `z_rwcsem_is_readable` and its kin, on the state that a release returned
unfoldable pub is_runnable : Op → ℕ → Bool
is_runnable Op.read w = rw_of w == w
is_runnable Op.write w = readers_of w == w
is_runnable Op.commit w = if w == 0 then true else w == commit_flag
is_runnable Op.lock w = if w == 0 then true else w == lock_flag
