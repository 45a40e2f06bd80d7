-- ===== src/Lib.antt =====
-- RaleighSL, a storage engine with multi-object transactions, and the parts of its base library
-- zcl that it stands on.
--
-- A client names objects (numbers, deques, ...) and asks for reads and writes on them, alone or
-- in a transaction. Each object has a plugin with its operations and with create, apply, revert
-- and commit. A write leaves a pending value in the object and, in a transaction, enters an atom
-- in the transaction's group for the object. Outside a transaction the object scheduler commits
-- the object after each write. A transaction ends with a task that takes the barrier over its
-- objects, locks each of them, applies or reverts all atoms, commits each object and lets go.
-- Locks are words of a read-write-commit semaphore.
--
-- The files, and the code that each is about:
--
-- - Common: the names shared by all modules, tests and lemmas on lists and numbers
--   (Common/Tests, Common/Lists), and 64-bit integers over native numbers (Common/Int).
-- - Errno: src/raleighsl/core/errno.h.
-- - Rwcsem: src/zcl/threading/locking.c, z_rwcsem_*, and the loop of src/zcl/system/atomic.h.
--   Each function is the body of its compare-and-swap loop. Rwcsem/Linear: interference with the
--   loop. Rwcsem/Protocol: the callers' protocol as a step relation on the word and those
--   inside. Rwcsem/Stuck: what goes wrong.
-- - Transaction: src/raleighsl/core/transaction.c, groups and atoms; raleighsl_transaction_add
--   is Transaction.add, and so on. Transaction/Chain, View: the chains, and the table that they
--   stand for. Transaction/Add, Replace: the operations on it.
-- - Object: src/raleighsl/core/object.c and plugins.h, the plugin's record and the write and
--   commit steps of __sched_object_task_exec.
-- - Number: src/raleighsl/objects/number/number.c. Number/Locking, Register, Division: who may
--   write, the register that it is, and its division.
-- - Deque: src/raleighsl/objects/deque/deque.c. Deque/Order, Queue: the abstract queue.
--   Deque/Faults: transactions that go wrong.
-- - Schedule: src/raleighsl/core/transaction.c, __sched_txn_task_exec with the barrier.
--   Schedule/Barrier, Phases, Stores, Commit: its phases, the objects through them, and a whole
--   run. Schedule/Table, Session: a transaction from its first atom to its end.
-- - Semantic: src/raleighsl/core/semantic.c, names and object ids, and
--   src/raleighsl/semantics/flat/flat.c. The sorted set of the names and the hash of a name are
--   parameters of the flat plugin, and a lawful plugin is a parameter of the theorems on the
--   calls: the sorted set of sset.c queues its writes until the commit of the set, which the
--   semantic layer's root does later, so that the flat plugin is lawful only for a set whose
--   writes take effect at once. Semantic/Names: what a plugin promises. Semantic/Calls: the
--   calls. Semantic/Unshared, Ids: the ids that they hand out. Semantic/Flat: the flat plugin.
-- - Tasks: src/zcl/core/global/task.c, task queues and waiting for a semaphore. Tasks/Queue: the
--   intrusive lists. Tasks/Wakeup: acquire and release as steps of threads. Tasks/Timed: the
--   tree of pending tasks by time.
-- - Tree: src/zcl/tools/tree/tree.c and tree-avl.c, the search trees. Tree/Detach, Iter: the
--   removals and the iterators. Tree/Balance, Lean, Rise: levels and balances through the
--   rotations. Tree/Sorted, Search, Find: the sorted list of the items. Tree/Way, Attach,
--   Remove: a whole attach and a whole detach. Tree/Map: a tree under any calls. Tree/Height:
--   how high it gets. Tree/Scan, Seek: what an iterator goes through.
-- - Merger: src/zcl/tools/map/map-merger.c, the merge of sorted iterators, each of them the list
--   of its entries; the caller sets skip_equals in the record. Merger/Picked, Advanced, Merged:
--   what a round picks, what the advance of an iterator leaves, and all that a merger answers.
-- - Sset: src/raleighsl/objects/sset/sset.c, the sorted set, on the trees. Sset/Settle: create,
--   apply, revert and commit. Sset/Write: the search of a key, get, insert, remove and update.
--   Sset/Map: the map that it stands for. Sset/Queued, Enqueue, Single, Update, Calls: the calls
--   outside transactions. A run of calls ends where a commit has a balance scheduled.
--   Sset/Locks: keys that a transaction holds. Sset/Txn, Session: a transaction that writes a
--   key. Sset/Faults: what goes wrong with the locks. Sset/Halfway: an update that lacks memory
--   for its insert.
-- - Coding: src/zcl/io/coding/coding-int.c and coding-field.c. Coding/Rounds, Vint:
--   variable-length integers. Coding/Parts, Field: field heads. Coding/Group:
--   coding-int-group.c, groups of integers; Coding/Group/Round: their way there and back.
--
-- Machine integers are native numbers with their wrap-around written out; undefined behaviour is
-- `none`, signed overflow too. Z_ASSERT is nothing in this program, whose
-- src/zcl/core/debug/debug.h sets THZ_FORCE_DEBUG to 0: a failed one is nevertheless `none` in
-- the models, so that a theorem that a call returns says that it holds, but for those on the
-- atom of a number and at the end of a replacement, which are left out. Loops over chains and
-- over bytes run on fuel or on the list that they walk: one round for each atom of a chain, ten
-- for the bytes of a 64-bit integer, each with a theorem that it is enough. What the system
-- answers, such as an allocation or the time, is an argument. A ticket lock around an operation
-- makes it one step.
--
-- Not modelled: the balance that an object scheduler's task may schedule after a commit, the
-- scan and the balancing of a sorted set, whose blocks are functions from keys to values,
-- freeing of memory, logging, the threads that run the tasks, the object cache, the sockets and
-- the RPC layer, the server and the clients, and the containers of zcl that these parts do not
-- use.
pub mod Common
pub mod Errno
pub mod Rwcsem
pub mod Transaction
pub mod Object
pub mod Number
pub mod Deque
pub mod Schedule
pub mod Coding
pub mod Semantic
pub mod Tasks
pub mod Merger
pub mod Sset
pub mod Tree
