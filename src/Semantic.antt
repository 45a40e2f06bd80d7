-- ===== src/Semantic.antt =====
-- src/raleighsl/core/semantic.c and src/raleighsl/semantics/flat/flat.c: the names of objects, as
-- the semantic layer keeps them through its plugin, and the flat plugin over a sorted set.
--
-- A name is a number that stands for its bytes. What the object layer and the memory answer within
-- a call are arguments; `*oid` is `none` where it is not set. The sorted set and the hash are
-- parameters.
pub mod Names
pub mod Calls
pub mod Unshared
pub mod Ids
pub mod Flat
mod Tests
use raleigh_fs.Common.{
  ℕ, ◌+◌, ◌%◌, ◌^◌, Bool, true, false, Option, none, some, List, [], ◌∷◌, if◌then◌else◌,
}
use raleigh_fs.Errno.{Errno, failed}

-- `struct raleighsl_semantic_plug`: a Boolean tells whether an allocation succeeds.
pub record SemanticPlug (T : Type 0) : Type 0 where
  pub lookup : ℕ → T → Errno × Option ℕ
  pub create : Bool → ℕ → ℕ → T → Errno × T
  pub unlink : Bool → ℕ → T → Errno × Option ℕ × T

-- `struct raleighsl_semantic`, with the plugin's table
pub record Semantic (T : Type 0) : Type 0 where
  pub next_oid : ℕ
  pub names : T

-- What the rest of the system answers: the memory for an entry, in an unlink and in a create, the
-- object cache, and the object layer.
pub record Answers : Type 0 where
  pub unlink_memory : Bool
  pub create_memory : Bool
  pub cached : Bool
  pub object_code : Errno

-- Is this the code of a lookup that found nothing?
abbrev pub is_not_found : Errno → Bool
is_not_found Errno.object_not_found = true
is_not_found _ = false

module _ {T : Type 0} (plug : SemanticPlug T) where
  -- `raleighsl_semantic_create`
  unfoldable pub create : Answers → ℕ → Semantic T → Errno × Option ℕ × Semantic T
  create answers name s =
      let (e, oid) = plug.lookup name s.names in
      if is_not_found e
      then (let (e', names) = plug.create answers.create_memory name s.next_oid s.names in
          let s' = record s { next_oid = (s.next_oid + 1) % 2 ^ 64; names = names } in
          if failed e'
          then (e', some s.next_oid, s')
          else (answers.object_code, some s.next_oid, s'))
      else (e, oid, s)

  -- `raleighsl_semantic_open`
  unfoldable pub open_object : Answers → ℕ → Semantic T → Errno × Option ℕ
  open_object answers name s =
      let (e, oid) = plug.lookup name s.names in
      if failed e
      then (e, oid)
      else if answers.cached
      then (answers.object_code, oid)
      else (Errno.no_memory, oid)

  -- `raleighsl_semantic_unlink`
  unfoldable pub unlink : Answers → ℕ → Semantic T → Errno × Semantic T
  unlink answers name s =
      let (e, oid, names) = plug.unlink answers.unlink_memory name s.names in
      let s' = record s { names = names } in
      if failed e
      then (e, s')
      else if answers.cached
      then (answers.object_code, s')
      else (Errno.no_memory, s')

  -- the end of `raleighsl_semantic_rename`: the old name's unlink has answered
  unfoldable pub recreate : Answers → ℕ → Semantic T → Errno × Option ℕ × T → Errno × Semantic T
  recreate answers new s (e, none, names) = (e, record s { names = names })
  recreate answers new s (e, some oid, names) =
      if failed e
      then (e, record s { names = names })
      else (let (e', names') = plug.create answers.create_memory new oid names in
          (e', record s { names = names' }))

  -- `raleighsl_semantic_rename`
  unfoldable pub rename : Answers → ℕ → ℕ → Semantic T → Errno × Semantic T
  rename answers old new s =
      let (e, found) = plug.lookup new s.names in
      if is_not_found e
      then recreate answers new s (plug.unlink answers.unlink_memory old s.names)
      else (e, s)

-- A client's call, and the semantic layer after it.
pub data Call : Type 0 where
  creating opening unlinking : ℕ → Call
  renaming : ℕ → ℕ → Call

module _ {T : Type 0} (plug : SemanticPlug T) where
  unfoldable pub run_call : Answers → Call → Semantic T → Errno × Semantic T
  run_call answers (Call.creating name) s = let (e, oid, s') = create plug answers name s in (e, s')
  run_call answers (Call.opening name) s = ((open_object plug answers name s).0, s)
  run_call answers (Call.unlinking name) s = unlink plug answers name s
  run_call answers (Call.renaming old new) s = rename plug answers old new s

  unfoldable pub run_calls : List (Answers × Call) → Semantic T → Semantic T
  run_calls [] s = s
  run_calls ((answers, call) ∷ calls) s =
      let (e, s') = run_call answers call s in run_calls calls s'

-- `raleighsl_semantic_alloc`: the first ids are reserved.
unfoldable pub alloc : {T : Type 0} → ℕ → T → Semantic T
alloc reserved names = record { next_oid = reserved; names = names }

-- What the flat plugin asks of `raleighsl_sset_insert` without update, `raleighsl_sset_get` and
-- `raleighsl_sset_remove`, outside transactions, on 8-byte values. The codes are any, NO_MEMORY
-- too, and the set after a call is any: when a write takes effect is the set's own business.
pub record SortedSet (S : Type 0) : Type 0 where
  pub insert : ℕ → ℕ → S → Errno × S
  pub get : ℕ → S → Errno × Option ℕ
  pub remove : ℕ → S → Errno × Option ℕ × S

-- the `switch` on the set's code in a create, and in a lookup or an unlink
abbrev pub insert_code : Errno → Errno
insert_code Errno.data_key_exists = Errno.object_exists
insert_code e = e

abbrev pub find_code : Errno → Errno
find_code Errno.data_key_not_found = Errno.object_not_found
find_code e = e

-- `raleighsl_semantic_flat`: `hash` is `z_hash256_sha` on the name.
unfoldable pub flat : {S : Type 0} → (ℕ → ℕ) → SortedSet S → SemanticPlug S
flat hash set = record {
  lookup = λ name t. let (e, oid) = set.get (hash name) t in (find_code e, oid);
  create = λ allocated name oid t.
      if allocated
      then (let (e, t') = set.insert (hash name) oid t in (insert_code e, t'))
      else (Errno.no_memory, t);
  unlink = λ allocated name t.
      if allocated
      then (let (e, oid, t') = set.remove (hash name) t in (find_code e, oid, t'))
      else (Errno.no_memory, none, t);
}
