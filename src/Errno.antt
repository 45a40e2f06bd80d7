-- ===== src/Errno.antt =====
-- src/raleighsl/core/errno.h: the result codes that every operation returns.
use raleigh_fs.Common.{Bool, true, false}

-- `enum raleighsl_errno`; `ok` is RALEIGHSL_ERRNO_NONE.
pub data Errno : Type 0 where
  ok not_implemented sched_yield : Errno
  no_memory : Errno
  plugin_not_loaded : Errno
  txn_closed txn_not_found txn_rolledback txn_locked_key txn_locked_operation : Errno
  object_exists object_not_found : Errno
  object_wrong_type : Errno
  data_cas data_key_exists data_key_not_found data_no_items : Errno
  number_divmod_byzero number_divmod_overflow : Errno

-- The test `if (errno)`.
abbrev pub failed : Errno → Bool
failed Errno.ok = false
failed _ = true
