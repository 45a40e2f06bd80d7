-- ===== src/Deque.antt =====
-- src/raleighsl/objects/deque/deque.c: a double-ended queue with, for each end, the entries pushed
-- but not committed, a cursor past those popped but not committed, and the holding transaction.
--
-- A `z_dlink` ring is the list of its nodes from the head on; a node is its address with the data
-- of its entry. Reading or deleting through a pointer to no node of the ring is `none`.
pub mod Order
pub mod Queue
pub mod Faults
mod Tests
use raleigh_fs.Common.{
  ℕ, Bool, true, false, not, ◌&&◌, Option, none, some, List, [], ◌∷◌, ◌++◌, reverse, ◌==◌,
  if◌then◌else◌,
}
use raleigh_fs.Errno.{Errno, failed}
use raleigh_fs.Object.{ObjectPlug, World, Site, txn_id_of, enlist}

pub data Side : Type 0 where
  front back : Side

-- `z_dlink_node_t *`: NULL, the head of `deque->data`, or a node
pub data Cursor : Type 0 where
  null sentinel : Cursor
  at : ℕ → Cursor

-- `struct deque_entry`
pub record Entry (V : Type 0) : Type 0 where
  pub addr : ℕ
  pub value : V

-- `pending_front`, `removed_front` and `txn_id_front`, and the same for the back
pub record Half (V : Type 0) : Type 0 where
  pub pending : List (Entry V)
  pub removed : Cursor
  pub txn_id : ℕ

-- `struct raleighsl_deque`
pub record Deque (V : Type 0) : Type 0 where
  pub entries : List (Entry V)
  pub front_half : Half V
  pub back_half : Half V

abbrev pub other : Side → Side
other front = back
other back = front

abbrev pub is_sentinel : Cursor → Bool
is_sentinel sentinel = true
is_sentinel null = false
is_sentinel (at a) = false

module _ {V : Type 0} where
  abbrev pub half : Side → Deque V → Half V
  half front d = d.front_half
  half back d = d.back_half

  abbrev pub set_half : Side → Half V → Deque V → Deque V
  set_half front h d = record d { front_half = h }
  set_half back h d = record d { back_half = h }

  -- `z_dlink_front` and `z_dlink_back` of the ring of data
  abbrev pub first : List (Entry V) → Cursor
  first [] = sentinel
  first (x ∷ xs) = at x.addr

  -- The entry at a node, and the node behind it.
  unfoldable pub entry_at : ℕ → List (Entry V) → Option (V × Cursor)
  entry_at a [] = none
  entry_at a (x ∷ xs) = if x.addr == a then some (x.value, first xs) else entry_at a xs

  -- The ring as seen from an end: `next` from the front, `prev` from the back.
  abbrev pub seen_from : Side → List (Entry V) → List (Entry V)
  seen_from front xs = xs
  seen_from back xs = reverse xs

  -- `*removed_entry`, moved to the end of the ring if it is NULL, read and moved on
  unfoldable pub advance : Cursor → List (Entry V) → Option (V × Cursor)
  unfolding entry_at
  advance null [] = none
  advance null (x ∷ xs) = some (x.value, first xs)
  advance sentinel xs = none
  advance (at a) xs = entry_at a xs

  -- `z_dlink_back` of a pending ring, taken out
  unfoldable pub split_last : List (Entry V) → Option (V × List (Entry V))
  split_last [] = none
  split_last (x ∷ xs) = elim (split_last xs) [
    | none ↦ some (x.value, [])
    | some (v, ys) ↦ some (v, x ∷ ys)
  ]

  abbrev pub is_nil : List (Entry V) → Bool
  is_nil [] = true
  is_nil (x ∷ xs) = false

  -- `txn_atom->txn_id > 0 && txn_atom->txn_id != txn_id`
  abbrev pub locked : Half V → ℕ → Bool
  locked h id = not (h.txn_id == 0) && not (h.txn_id == id)

  -- `if (transaction != NULL && txn_id != txn_atom->txn_id) raleighsl_transaction_add(…)`
  unfoldable pub join : Site → ℕ → Half V → World (Deque V) → Errno × World (Deque V)
  unfolding enlist
  join site atom h w = if h.txn_id == txn_id_of w.txn then (Errno.ok, w) else enlist site atom w

  -- `raleighsl_deque_push`: `entry` is the address of the new entry, if there is memory for it, and
  -- `atom` that of the end's atom.
  unfoldable pub push : Site → ℕ → Option ℕ → Side → V → World (Deque V) → Errno × World (Deque V)
  unfolding join
  push site atom entry side v w =
      let h = half side w.state in
      if locked h (txn_id_of w.txn) then (Errno.txn_locked_operation, w) else elim entry [
        | none ↦ (Errno.no_memory, w)
        | some a ↦
            let (e, w') = join site atom h w in
            if failed e
            then (e, w')
            else (let h' = record h {
              pending = record { addr = a; value = v } ∷ h.pending;
              txn_id = txn_id_of w.txn;
            } in
                (Errno.ok, record w' { state = set_half side h' w'.state }))
      ]

  -- "Remove from the other side": the last pending entry of the other end
  unfoldable pub pop_other : Side → World (Deque V) → Option (Errno × Option V × World (Deque V))
  unfolding split_last
  pop_other side w =
      let h = half (other side) w.state in
      elim (split_last h.pending) [
        | none ↦ some (Errno.data_no_items, none, w)
        | some (v, rest) ↦
            let d = set_half (other side) (record h { pending = rest }) w.state in
            some (Errno.ok, some v, record w { state = d })
      ]

  -- the committed entries: the one at the cursor, which moves on
  unfoldable pub pop_data : Side → World (Deque V) → Option (Errno × Option V × World (Deque V))
  unfolding advance
  pop_data side w =
      let h = half side w.state in
      elim (advance h.removed (seen_from side w.state.entries)) [
        | none ↦ none
        | some (v, c) ↦
            let h' = record h { removed = c; txn_id = txn_id_of w.txn } in
            some (Errno.ok, some v, record w { state = set_half side h' w.state })
      ]

  -- `raleighsl_deque_pop`
  unfoldable pub pop : Side → World (Deque V) → Option (Errno × Option V × World (Deque V))
  unfolding pop_other pop_data
  pop side w =
      let h = half side w.state in
      if locked h (txn_id_of w.txn)
      then some (Errno.txn_locked_operation, none, w)
      else elim h.pending [
        | x ∷ rest ↦
            let d = set_half side (record h { pending = rest }) w.state in
            some (Errno.ok, some x.value, record w { state = d })
        | [] ↦
            if not (is_sentinel h.removed) && not (is_nil w.state.entries)
            then pop_data side w
            else pop_other side w
      ]

  -- `while (node != removed) { … }`: the ring without the entries before the cursor. At the end of
  -- the ring the loop would delete its head.
  unfoldable pub drop_until : Cursor → List (Entry V) → Option (List (Entry V))
  drop_until null xs = some xs
  drop_until sentinel xs = some []
  drop_until (at a) [] = none
  drop_until (at a) (x ∷ xs) = if x.addr == a then some (x ∷ xs) else drop_until (at a) xs

  -- `while (z_dlink_is_not_empty(pending)) z_dlink_move(data, z_dlink_back(pending))`, the pending
  -- entries listed from the back
  unfoldable pub move_all : List (Entry V) → List (Entry V) → List (Entry V)
  move_all [] xs = xs
  move_all (p ∷ ps) xs = move_all ps (p ∷ xs)

  -- one end of `__object_commit`, the ring seen from that end
  unfoldable pub commit_end : Half V → List (Entry V) → Option (List (Entry V))
  unfolding drop_until move_all
  commit_end h xs = elim (drop_until h.removed xs) [
    | none ↦ none
    | some ys ↦ some (move_all (reverse h.pending) ys)
  ]

  -- the half after its commit
  abbrev pub settled : Half V → Half V
  settled h = record h { pending = []; removed = null }

  unfoldable pub commit_side : Side → Deque V → Option (Deque V)
  commit_side side d =
      let h = half side d in
      if h.txn_id == 0
      then elim (commit_end h (seen_from side d.entries)) [
        | none ↦ none
        | some ys ↦ some (record (set_half side (settled h) d) { entries = seen_from side ys })
      ]
      else some d

  -- `__object_commit`: the front, then the back
  unfoldable pub commit : Deque V → Option (Errno × Deque V)
  commit d = elim (commit_side front d) [
    | none ↦ none
    | some d' ↦ elim (commit_side back d') [ none ↦ none | some d'' ↦ some (Errno.ok, d'') ]
  ]

  abbrev pub cleared : Half V → Half V
  cleared h = record { pending = []; removed = null; txn_id = h.txn_id }

  -- `__object_apply` and `__object_revert`, on the atom of an end. The revert picks the end to
  -- clear by comparing transaction ids, and resets the id of the atom's own end.
  unfoldable pub apply : Side → Deque V → Deque V
  apply side d = set_half side (record (half side d) { txn_id = 0 }) d

  abbrev release : Side → Deque V → Deque V
  release side d = set_half side (record (half side d) { txn_id = 0 }) d

  unfoldable pub revert : Side → Deque V → Deque V
  revert side d =
      let id = (half side d).txn_id in
      if id == d.front_half.txn_id
      then release side (set_half front (cleared d.front_half) d)
      else if id == d.back_half.txn_id
      then release side (set_half back (cleared d.back_half) d)
      else d

  -- `__object_create`
  abbrev pub idle : Half V
  idle = record { pending = []; removed = null; txn_id = 0 }

  unfoldable pub create : Deque V
  create = record { entries = []; front_half = idle; back_half = idle }

  -- `raleighsl_object_deque`: `back_atom` is the address of `txn_id_back`'s atom
  unfoldable pub plug : ℕ → ObjectPlug (Deque V)
  plug back_atom = record {
    create = create;
    apply = λ atom. apply (if atom == back_atom then back else front);
    revert = λ atom. revert (if atom == back_atom then back else front);
    commit = commit;
  }
