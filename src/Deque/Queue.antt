-- ===== src/Deque/Queue.antt =====
-- Outside transactions a deque is an abstract double-ended queue.
use mathlib.Core.Option
use mathlib.Core.List.{map, map-append, reverse-reverse, reverse-cons}
use raleigh_fs.Common.{
  ℕ, ◌+◌, ◌<◌, Option, none, some, List, [], ◌∷◌, ◌++◌, reverse, All, ◌≡◌, refl, sym, ap, ◌∙◌,
  arith, All-map, List-cases, inl, inr,
}
use raleigh_fs.Errno.{Errno}
use raleigh_fs.Transaction.{Links}
use raleigh_fs.Object.{World, Site, exec_write, exec_write_commits}
use raleigh_fs.Deque.{
  Side, front, back, null, Entry, Deque, set_half, first, seen_from, advance, push, pop, drop_until,
  move_all, commit_end, commit,
}
use raleigh_fs.Deque.Order.{
  resting, Unique, drop_until-first, commit_one_end, seen_from_twice, Unique-seen_from,
  All-seen_from,
}

-- A client's calls, the abstract queue, and its answers.
pub data Request (V : Type 0) : Type 0 where
  push_to : Side → V → Request V
  pop_from : Side → Request V

module _ {V : Type 0} where
  unfoldable pub queue_push : Side → V → List V → List V
  queue_push front v q = v ∷ q
  queue_push back v q = q ++ v ∷ []

  unfoldable pub queue_pop : Side → List V → Option (V × List V)
  queue_pop front [] = none
  queue_pop front (v ∷ q) = some (v, q)
  queue_pop back q = elim (reverse q) [ [] ↦ none | v ∷ r ↦ some (v, reverse r) ]

  unfoldable pub serve : List (Request V) → List V → List (Errno × Option V)
  serve [] q = []
  serve (push_to side v ∷ rs) q = (Errno.ok, none) ∷ serve rs (queue_push side v q)
  serve (pop_from side ∷ rs) q =
      let empty = (Errno.data_no_items, none) ∷ serve rs q in
      elim (queue_pop side q) [ none ↦ empty | some (v, r) ↦ (Errno.ok, some v) ∷ serve rs r ]

module _ {V : Type 0} (site : Site) (atom : ℕ) where
  -- the scheduler's two calls
  unfoldable pub exec_push :
      Option ℕ → Side → V → World (Deque V) → Option (Errno × Unit {0} × World (Deque V))
  exec_push entry side v w =
      exec_write commit (λ w₀. let (e, w') = push site atom entry side v w₀ in some (e, tt, w')) w

  unfoldable pub exec_pop : Side → World (Deque V) → Option (Errno × Option V × World (Deque V))
  exec_pop side w = exec_write commit (pop side) w

  -- a world with no transaction, around a deque at rest
  abbrev pub outside : List (Entry V) → Links → World (Deque V)
  outside xs links = record { state = resting xs; txn = none; links = links }

  exec_push-outside :
      (a : ℕ) (side : Side) (v : V) (xs : List (Entry V)) (links : Links)
      → exec_push (some a) side v (outside xs links)
        ≡ some (
          Errno.ok,
          tt,
          outside (seen_from side (record { addr = a; value = v } ∷ seen_from side xs)) links,
        )
  unfolding exec_push exec_write commit push commit_end drop_until move_all
  exec_push-outside a front v xs links = rw (
      commit_one_end front
        (record { pending = record { addr = a; value = v } ∷ []; removed = null; txn_id = 0 }) xs
        (record { addr = a; value = v } ∷ xs) refl refl)
  exec_push-outside a back v xs links = rw (
      commit_one_end back
        (record { pending = record { addr = a; value = v } ∷ []; removed = null; txn_id = 0 }) xs
        (record { addr = a; value = v } ∷ reverse xs) refl refl)

  exec_pop_empty :
      (side : Side) (links : Links)
      → exec_pop side (outside [] links) ≡ some (Errno.data_no_items, none, outside [] links)
  unfolding exec_pop exec_write pop
  exec_pop_empty front links = refl
  exec_pop_empty back links = refl

  popped : Side → List (Entry V) → List (Entry V) → Links → World (Deque V)
  popped side xs ys links = record {
    state = set_half side (record { pending = []; removed = first ys; txn_id = 0 }) (resting xs);
    txn = none;
    links = links;
  }

  pop-outside :
      (side : Side) (xs : List (Entry V)) (x : Entry V) (ys : List (Entry V)) (links : Links)
      → seen_from side xs ≡ x ∷ ys
      → pop side (outside xs links) ≡ some (Errno.ok, some x.value, popped side xs ys links)
  unfolding pop popped
  pop-outside front [] x ys links e = cc
  pop-outside front (z ∷ zs) x ys links e = ground arith
  pop-outside back [] x ys links e = cc
  pop-outside back (z ∷ zs) x ys links e = rw (e, advance)

  exec_pop-outside :
      (side : Side) (xs : List (Entry V)) (x : Entry V) (ys : List (Entry V)) (links : Links)
      → seen_from side xs ≡ x ∷ ys
      → Unique (x ∷ ys)
      → exec_pop side (outside xs links)
        ≡ some (Errno.ok, some x.value, outside (seen_from side ys) links)
  unfolding exec_pop commit popped commit_end
  exec_pop-outside side xs x ys links e u =
      exec_write_commits commit (pop side) (outside xs links) (pop-outside side xs x ys links e) (
        commit_one_end side (record { pending = []; removed = first ys; txn_id = 0 }) xs ys refl
          (rw (e, commit_end, drop_until-first x ys u) refl))

  -- The calls through the scheduler, new entries at the addresses from `n` on.
  unfoldable pub run : List (Request V) → ℕ → World (Deque V) → Option (List (Errno × Option V))
  run [] n w = some []
  run (push_to side v ∷ rs) n w = elim (exec_push (some n) side v w) [
    | none ↦ none
    | some (e, u, w') ↦ Option.map (λ l. (e, none) ∷ l) (run rs (n + 1) w')
  ]
  run (pop_from side ∷ rs) n w = elim (exec_pop side w) [
    | none ↦ none
    | some (e, o, w') ↦ Option.map (λ l. (e, o) ∷ l) (run rs n w')
  ]

  abbrev pub values : List (Entry V) → List V
  values xs = map (λ e. e.value) xs

  values-push :
      (side : Side) (e : Entry V) (xs : List (Entry V))
      → values (seen_from side (e ∷ seen_from side xs)) ≡ queue_push side e.value (values xs)
  unfolding queue_push
  values-push front e xs = refl
  values-push back e xs =
      rw (reverse-cons e (reverse xs), reverse-reverse xs)
        (map-append (λ (k : Entry V). k.value) xs (e ∷ []))

  reverse-values : (xs : List (Entry V)) → reverse (values xs) ≡ values (reverse xs)
  reverse-values [] = refl
  reverse-values (x ∷ xs) =
      rw (reverse-cons x.value (values xs), reverse-cons x xs, reverse-values xs)
        (sym (map-append (λ (k : Entry V). k.value) (reverse xs) (x ∷ [])))

  queue_pop-values :
      (side : Side) (xs : List (Entry V)) (x : Entry V) (ys : List (Entry V))
      → seen_from side xs ≡ x ∷ ys
      → queue_pop side (values xs) ≡ some (x.value, values (seen_from side ys))
  unfolding queue_pop
  queue_pop-values front xs x ys e = rw (e)
  queue_pop-values back xs x ys e = rw (queue_pop, reverse-values xs, e, reverse-values ys)

  seen_from-nil : (side : Side) (xs : List (Entry V)) → seen_from side xs ≡ [] → xs ≡ []
  seen_from-nil side xs e = sym (seen_from_twice side xs) ∙ (ap (seen_from side) e ∙ nothing side)
    where
      nothing : (s : Side) → seen_from {V = V} s [] ≡ []
      nothing front = refl
      nothing back = refl

  queue_pop-nil : (side : Side) → queue_pop side (values []) ≡ none
  unfolding queue_pop
  queue_pop-nil front = refl
  queue_pop-nil back = refl

  -- In any sequence of calls outside transactions every call returns, and the answers are those of
  -- an abstract double-ended queue of the data.
  pub run-serve :
      (rs : List (Request V)) (n : ℕ) (xs : List (Entry V)) (links : Links)
      → Unique xs
      → All (λ e. e.addr < n) xs
      → run rs n (outside xs links) ≡ some (serve rs (values xs))
  unfolding run serve
  run-serve [] n xs links u b = refl
  run-serve (push_to side v ∷ rs) n xs links u b =
      let e : Entry V = record { addr = n; value = v } in
      let bound = All-seen_from (λ k. k.addr < n) side xs b in
      let zs = seen_from side (e ∷ seen_from side xs) in
      let unique =
        Unique-seen_from side (e ∷ seen_from side xs)
          (All-map (λ k h. omega arith) (seen_from side xs) bound, Unique-seen_from side xs u) in
      let below =
        All-seen_from (λ k. k.addr < n + 1) side (e ∷ seen_from side xs)
          (omega arith, All-map (λ k h. omega arith) (seen_from side xs) bound) in
      rw (
        exec_push-outside n side v xs links,
        run,
        run-serve rs (n + 1) zs links unique below,
        values-push side e xs,
      )
  run-serve (pop_from side ∷ rs) n xs links u b = elim (List-cases (seen_from side xs)) [
    | inl e ↦
        let z = seen_from-nil side xs e in
        let rest = rw z at (run-serve rs n xs links u b) in
        rw (z, exec_pop_empty side links, run, queue_pop-nil side, serve, rest, z)
    | inr (x, ys, e) ↦
        let unique = rw e at (Unique-seen_from side xs u) in
        let bound = rw e at (All-seen_from (λ k. k.addr < n) side xs b) in
        let rest =
          run-serve rs n (seen_from side ys) links (Unique-seen_from side ys unique.1)
            (All-seen_from (λ k. k.addr < n) side ys bound.1) in
        rw (
          exec_pop-outside side xs x ys links e unique,
          run,
          queue_pop-values side xs x ys e,
          serve,
          rest,
        )
  ]
