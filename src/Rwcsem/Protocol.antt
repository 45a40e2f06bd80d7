-- ===== src/Rwcsem/Protocol.antt =====
-- The semaphore's word against who is inside: an invariant of every protocol step, and what a
-- commit and a transaction's lock exclude.
use raleigh_fs.Common.{ℕ, suc, ◌+◌, ◌/◌, ◌%◌, ◌^◌, ◌≤◌, ◌<◌, true, ◌≡◌, ◌≢◌, arith}
use raleigh_fs.Rwcsem.{
  Op, answer, swap, commit_flag, write_flag, try_acquire, release, try_switch, set_commit_flag,
  set_lock_flag,
}

-- Who has the write flag.
pub data Owner : Type 0 where
  nobody writer committer locker : Owner

-- The word, and beside it what no code keeps: the tasks that are inside, and how many readers were
-- inside when a writer let go, over the run.
pub record Guarded : Type 0 where
  pub word : ℕ
  pub readers : ℕ
  pub owner : Owner
  pub forgotten : ℕ

abbrev pub OwnerFits : Owner → ℕ → ℕ → Type 0
OwnerFits Owner.nobody w readers = w / 2 ^ 29 % 2 ≡ 0
OwnerFits Owner.writer w readers = w / 2 ^ 29 % 2 ≡ 1
OwnerFits Owner.committer w readers = (w / 2 ^ 29 % 4 ≡ 3) × (readers ≡ 0)
OwnerFits Owner.locker w readers = (w / 2 ^ 29 % 2 ≡ 1) × (w / 2 ^ 31 ≡ 1) × (readers ≡ 0)

-- The word counts the readers, and its flags fit the owner.
pub record IsCoherent (s : Guarded) : Type 0 where
  pub in_word : s.word < 2 ^ 32
  pub counted : s.word % 2 ^ 29 ≡ s.readers
  pub owned : OwnerFits s.owner s.word s.readers

-- The steps that tasks take: each is the code's swap. A task releases what it has acquired, and
-- switches from there. Anyone may mark a commit or a lock at any time. The one bound is the
-- counter's: a reader comes in while fewer than 2 ^ 29 - 1 are inside. A writer that leaves, or
-- turns reader, does not look at the readers that came in before it.
pub data Step : Guarded → Guarded → Type 0 where
  read_in :
      (s : Guarded) (n : ℕ)
      → s.readers + 1 < 2 ^ 29
      → try_acquire Op.read s.word ≡ swap s.word n
      → Step s (record s { word = n; readers = s.readers + 1 })
  read_out :
      (s : Guarded) (n r : ℕ)
      → s.readers ≡ suc r
      → release Op.read s.word ≡ swap s.word n
      → Step s (record s { word = n; readers = r })
  write_in :
      (s : Guarded) (n : ℕ)
      → try_acquire Op.write s.word ≡ swap s.word n
      → Step s (record s { word = n; owner = Owner.writer })
  write_out :
      (s : Guarded) (n : ℕ)
      → s.owner ≡ Owner.writer
      → release Op.write s.word ≡ swap s.word n
      → Step s (record s { word = n; owner = Owner.nobody; forgotten = s.forgotten + s.readers })
  mark_commit :
      (s : Guarded) (n : ℕ)
      → set_commit_flag s.word ≡ swap s.word n
      → Step s (record s { word = n })
  switch_commit :
      (s : Guarded)
      → s.owner ≡ Owner.writer
      → try_switch Op.write Op.commit s.word ≡ answer true
      → Step s (record s { owner = Owner.committer })
  switch_read :
      (s : Guarded) (n : ℕ)
      → s.owner ≡ Owner.writer
      → try_switch Op.write Op.read s.word ≡ swap s.word n
      → Step s (record {
        word = n;
        readers = s.readers + 1;
        owner = Owner.nobody;
        forgotten = s.forgotten + s.readers;
      })
  commit_in :
      (s : Guarded) (n : ℕ)
      → try_acquire Op.commit s.word ≡ swap s.word n
      → Step s (record s { word = n; owner = Owner.committer })
  commit_out :
      (s : Guarded) (n : ℕ)
      → s.owner ≡ Owner.committer
      → release Op.commit s.word ≡ swap s.word n
      → Step s (record s { word = n; owner = Owner.nobody })
  mark_lock :
      (s : Guarded) (n : ℕ) → set_lock_flag s.word ≡ swap s.word n → Step s (record s { word = n })
  lock_in :
      (s : Guarded) (n : ℕ)
      → try_acquire Op.lock s.word ≡ swap s.word n
      → Step s (record s { word = n; owner = Owner.locker })
  lock_out :
      (s : Guarded) (n : ℕ)
      → s.owner ≡ Owner.locker
      → release Op.lock s.word ≡ swap s.word n
      → Step s (record s { word = n; owner = Owner.nobody })

-- Runs of any length.
pub data Reach : Guarded → Guarded → Type 0 where
  here : {s : Guarded} → Reach s s
  next : {s t u : Guarded} → Reach s t → Step t u → Reach s u

-- `z_rwcsem_init`
abbrev pub initial : Guarded
initial = record { word = 0; readers = 0; owner = Owner.nobody; forgotten = 0 }

Step-forgotten : {s t : Guarded} → Step s t → s.forgotten ≤ t.forgotten
Step-forgotten (read_in s n b h) = omega arith
Step-forgotten (read_out s n r e h) = omega arith
Step-forgotten (write_in s n h) = omega arith
Step-forgotten (write_out s n o h) = omega arith
Step-forgotten (mark_commit s n h) = omega arith
Step-forgotten (switch_commit s o h) = omega arith
Step-forgotten (switch_read s n o h) = omega arith
Step-forgotten (commit_in s n h) = omega arith
Step-forgotten (commit_out s n o h) = omega arith
Step-forgotten (mark_lock s n h) = omega arith
Step-forgotten (lock_in s n h) = omega arith
Step-forgotten (lock_out s n o h) = omega arith

Step-IsCoherent : {s t : Guarded} → Step s t → t.forgotten ≡ 0 → IsCoherent s → IsCoherent t
unfolding try_acquire release try_switch set_commit_flag set_lock_flag
Step-IsCoherent (read_in s n b h) f c = ground arith
Step-IsCoherent (read_out s n r e h) f c = ground arith
Step-IsCoherent (write_in s n h) f c = ground arith
Step-IsCoherent (write_out s n o h) f c = ground arith
Step-IsCoherent (mark_commit s n h) f c = ground arith
Step-IsCoherent (switch_commit s o h) f c = ground arith
Step-IsCoherent (switch_read s n o h) f c = ground arith
Step-IsCoherent (commit_in s n h) f c = ground arith
Step-IsCoherent (commit_out s n o h) f c = ground arith
Step-IsCoherent (mark_lock s n h) f c = ground arith
Step-IsCoherent (lock_in s n h) f c = ground arith
Step-IsCoherent (lock_out s n o h) f c = ground arith

pub Reach-IsCoherent : {s : Guarded} → Reach initial s → s.forgotten ≡ 0 → IsCoherent s
Reach-IsCoherent here f = omega arith
Reach-IsCoherent (next r st) f =
    let more = Step-forgotten st in Step-IsCoherent st f (Reach-IsCoherent r (omega arith))

-- Who must be outside when the operation lets a task in.
abbrev pub Admits : Op → Guarded → Type 0
Admits Op.read s = (s.owner ≢ Owner.committer) × (s.owner ≢ Owner.locker)
Admits Op.write s = s.owner ≡ Owner.nobody
Admits Op.commit s = (s.owner ≡ Owner.nobody) × (s.readers ≡ 0)
Admits Op.lock s = (s.owner ≡ Owner.nobody) × (s.readers ≡ 0)

coherent-Admits :
    (op : Op) {s : Guarded} (n : ℕ)
    → IsCoherent s
    → try_acquire op s.word ≡ swap s.word n
    → Admits op s
unfolding try_acquire
coherent-Admits Op.read {s} n c h = grind arith
coherent-Admits Op.write {s} n c h = grind arith
coherent-Admits Op.commit {s} n c h = grind arith
coherent-Admits Op.lock {s} n c h = grind arith

-- After any run in which no writer let go beside readers: a reader gets in only while nobody
-- commits or holds the lock, a writer only while nobody owns the word, and a commit or a
-- transaction's lock only while nobody owns it and no reader is inside.
pub try_acquire-Admits :
    (op : Op) {s : Guarded} (n : ℕ)
    → Reach initial s
    → s.forgotten ≡ 0
    → try_acquire op s.word ≡ swap s.word n
    → Admits op s
try_acquire-Admits op n r f h = coherent-Admits op n (Reach-IsCoherent r f) h

-- After any such run, once the owner and all readers have left a word whose commit flag is set and
-- whose lock flag is not, a commit gets in at once.
pub commit_enters :
    {s : Guarded}
    → Reach initial s
    → s.forgotten ≡ 0
    → s.owner ≡ Owner.nobody
    → s.readers ≡ 0
    → s.word / 2 ^ 30 ≡ 1
    → try_acquire Op.commit s.word ≡ swap s.word (commit_flag + write_flag)
unfolding try_acquire
commit_enters {s} r f o z c = ground (arith, Reach-IsCoherent r f)
