-- ===== src/Deque/Faults.antt =====
-- Where transactions on a deque go wrong.
use raleigh_fs.Common.{Option, none, some, List, [], ◌∷◌, ◌≡◌, ◌≢◌, arith}
use raleigh_fs.Errno.{Errno}
use raleigh_fs.Transaction.{Links, Transaction}
use raleigh_fs.Object.{World}
use raleigh_fs.Deque.{
  Side, front, back, other, sentinel, Entry, Half, Deque, half, set_half, pop, pop_data, pop_other,
  split_last, drop_until, commit_end, commit_side, commit, apply, revert,
}
use raleigh_fs.Deque.Order.{resting}

module _ {V : Type 0} where
  -- A transaction whose first act on a deque is to pop takes the end's operation-lock, and is not
  -- told of it: no atom is added, so neither its commit nor its rollback will come to the deque.
  pub pop_enlists_nothing :
      (side : Side) (x : Entry V) (xs : List (Entry V)) (t : Transaction) (links : Links)
      {e : Errno} {o : Option V} {w' : World (Deque V)}
      → pop side (record { state = resting (x ∷ xs); txn = some t; links = links })
        ≡ some (e, o, w')
      → (w'.txn ≡ some t) × (w'.links ≡ links) × ((half side w'.state).txn_id ≡ t.txn_id)
  unfolding pop pop_data
  pop_enlists_nothing front x xs t links h = ground arith
  pop_enlists_nothing back x xs t links h = ground arith

  -- A pop that finds no committed entry takes what another transaction has pushed at the other
  -- end and not committed; that end's operation-lock is not looked at.
  pub pop_takes_uncommitted :
      (side : Side) (h : Half V) (e : Entry V) (links : Links) (t : Option Transaction)
      → h.pending ≡ e ∷ []
      → pop side (record { state = set_half (other side) h (resting []); txn = t; links = links })
        ≡ some (
          Errno.ok,
          some e.value,
          record {
            state = set_half (other side) (record h { pending = [] }) (resting []);
            txn = t;
            links = links;
          },
        )
  unfolding pop pop_other split_last
  pop_takes_uncommitted front h e links t p = rw p
  pop_takes_uncommitted back h e links t p = rw p

  -- Where one transaction holds both ends, a rollback that comes to the back's atom first clears
  -- the front and releases the back: what was pushed at the back is still pending, its cursor is
  -- where it was, and nobody holds it.
  pub revert_keeps_back :
      (d : Deque V)
      → d.front_half.txn_id ≡ d.back_half.txn_id
      → d.front_half.txn_id ≢ 0
      → let r = revert front (revert back d) in
        (r.back_half.pending ≡ d.back_half.pending)
        × (r.back_half.removed ≡ d.back_half.removed)
        × (r.back_half.txn_id ≡ 0)
        × (r.front_half.pending ≡ [])
  unfolding revert
  revert_keeps_back d e n = ground arith

  -- The ends do not look at each other's cursors: in one transaction the only entry is popped at
  -- one end and then again at the other.
  pub popped_twice :
      (x : Entry V) (t : Transaction) (links : Links) {w : World (Deque V)} {o : Option V}
      → t.txn_id ≢ 0
      → pop front (record { state = resting (x ∷ []); txn = some t; links = links })
        ≡ some (Errno.ok, o, w)
      → (o ≡ some x.value)
        × (w' : World (Deque V)) × (pop back w ≡ some (Errno.ok, some x.value, w'))
  unfolding pop pop_data
  popped_twice x t links {w} {o} n h =
      let end : Half V = record { pending = []; removed = sentinel; txn_id = t.txn_id } in
      (ground arith, record w { state = set_half back end w.state }, ground arith)

  -- A transaction that pops both of two entries, one at each end, can not commit: the front's
  -- commit frees the entry that the back's cursor is at, and the back's then runs past the end of
  -- the ring.
  pub pops_meet :
      (x y : Entry V) (t : Transaction) (links : Links) {w w' : World (Deque V)} {o o' : Option V}
      → y.addr ≢ x.addr
      → t.txn_id ≢ 0
      → pop front (record { state = resting (x ∷ y ∷ []); txn = some t; links = links })
        ≡ some (Errno.ok, o, w)
      → pop back w ≡ some (Errno.ok, o', w')
      → (o ≡ some x.value)
        × (o' ≡ some y.value)
        × (commit (apply back (apply front w'.state)) ≡ none)
  unfolding pop pop_data commit commit_side commit_end drop_until apply
  pops_meet x y t links {w} {w'} u n h k = ground arith
