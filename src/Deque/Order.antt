-- ===== src/Deque/Order.antt =====
-- The ring of a deque seen from either end, and what the cursors do on distinct addresses.
use mathlib.Core.Path.{subst}
use mathlib.Core.List.{reverse-reverse, reverse-cons}
use raleigh_fs.Common.{
  some, List, [], ◌∷◌, ◌++◌, reverse, All, All-append, All-reverse, ◌≡◌, ◌≢◌, refl, sym, ap, ◌∙◌,
  arith, ==-false, ==-true,
}
use raleigh_fs.Errno.{Errno}
use raleigh_fs.Deque.{
  Side, front, back, null, Entry, Half, Deque, half, set_half, first, seen_from, drop_until,
  move_all, commit_end, commit_side, commit, idle, settled,
}

module _ {V : Type 0} where
  -- A deque that no transaction holds and with nothing pending.
  abbrev pub resting : List (Entry V) → Deque V
  resting xs = record { entries = xs; front_half = idle; back_half = idle }

  -- No address occurs twice.
  abbrev pub Unique : List (Entry V) → Type 0
  Unique [] = Unit {0}
  Unique (x ∷ xs) = All (λ y. y.addr ≢ x.addr) xs × Unique xs

  pub seen_from_twice :
      (side : Side) (xs : List (Entry V)) → seen_from side (seen_from side xs) ≡ xs
  seen_from_twice front xs = refl
  seen_from_twice back xs = reverse-reverse xs

  Unique-snoc :
      (xs : List (Entry V)) (e : Entry V)
      → Unique xs
      → All (λ y. y.addr ≢ e.addr) xs
      → Unique (xs ++ e ∷ [])
  Unique-snoc [] e u f = (tt, tt)
  Unique-snoc (x ∷ xs) e u f = (
    All-append (λ y. y.addr ≢ x.addr) xs (e ∷ []) u.0 (λ h. f.0 (sym h), tt),
    Unique-snoc xs e u.1 f.1,
  )

  Unique-reverse : (xs : List (Entry V)) → Unique xs → Unique (reverse xs)
  Unique-reverse [] u = tt
  Unique-reverse (x ∷ xs) u = subst Unique (sym (reverse-cons x xs)) (
      Unique-snoc (reverse xs) x (Unique-reverse xs u.1)
        (All-reverse (λ y. y.addr ≢ x.addr) xs u.0))

  pub Unique-seen_from :
      (side : Side) (xs : List (Entry V)) → Unique xs → Unique (seen_from side xs)
  Unique-seen_from front xs u = u
  Unique-seen_from back xs u = Unique-reverse xs u

  pub All-seen_from {κ} :
      (P : Entry V → Type κ) (side : Side) (xs : List (Entry V))
      → All P xs
      → All P (seen_from side xs)
  All-seen_from P front xs h = h
  All-seen_from P back xs h = All-reverse P xs h

  pub drop_until-first :
      (x : Entry V) (ys : List (Entry V))
      → Unique (x ∷ ys)
      → drop_until (first ys) (x ∷ ys) ≡ some ys
  unfolding drop_until
  drop_until-first x [] u = refl
  drop_until-first x (y ∷ ys) u = rw (==-false x.addr y.addr (λ e. u.0.0 (sym e)), ==-true y.addr)

  front_idle :
      (xs : List (Entry V)) (h : Half V)
      → let d : Deque V = record { entries = xs; front_half = idle; back_half = h } in
        commit_side front d ≡ some d
  unfolding commit_side commit_end drop_until move_all
  front_idle xs h = refl

  back_idle :
      (xs : List (Entry V)) (h : Half V)
      → let d : Deque V = record { entries = xs; front_half = h; back_half = idle } in
        commit_side back d ≡ some d
  unfolding commit_side commit_end drop_until move_all
  back_idle xs h = rw (reverse-reverse xs)

  pub commit_side_held :
      (side : Side) (d : Deque V) → (half side d).txn_id ≢ 0 → commit_side side d ≡ some d
  unfolding commit_side
  commit_side_held side d n = rw (==-false (half side d).txn_id 0 n)

  commit_side_end :
      (side : Side) (d : Deque V) (ys : List (Entry V))
      → (half side d).txn_id ≡ 0
      → commit_end (half side d) (seen_from side d.entries) ≡ some ys
      → commit_side side d
        ≡ some (record (set_half side (settled (half side d)) d) { entries = seen_from side ys })
  unfolding commit_side
  commit_side_end side d ys z e = ground arith

  pub commit_sides :
      (d : Deque V) {d' d'' : Deque V}
      → commit_side front d ≡ some d'
      → commit_side back d' ≡ some d''
      → commit d ≡ some (Errno.ok, d'')
  unfolding commit
  commit_sides d e f = rw (e, commit, f)

  settled-idle : (h : Half V) → h.txn_id ≡ 0 → settled h ≡ idle
  settled-idle h z = ap (λ k. record { pending = []; removed = null; txn_id = k }) z

  -- One end pending, the other at rest: the commit of an unheld deque.
  pub commit_one_end :
      (side : Side) (h : Half V) (xs ys : List (Entry V))
      → h.txn_id ≡ 0
      → commit_end h (seen_from side xs) ≡ some ys
      → commit (set_half side h (resting xs)) ≡ some (Errno.ok, resting (seen_from side ys))
  commit_one_end front h xs ys z e =
      commit_sides (set_half front h (resting xs))
        (commit_side_end front (set_half front h (resting xs)) ys z e)
        (back_idle ys (settled h)
          ∙ ap (λ k. some (record { entries = ys; front_half = k; back_half = idle }))
              (settled-idle h z))
  commit_one_end back h xs ys z e = commit_sides (set_half back h (resting xs)) (front_idle xs h) (
      commit_side_end back (set_half back h (resting xs)) ys z e
      ∙ ap (λ k. some (record { entries = reverse ys; front_half = idle; back_half = k }))
          (settled-idle h z))
