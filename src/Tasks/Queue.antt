-- ===== src/Tasks/Queue.antt =====
-- `z_task_queue_push` and `z_task_queue_pop` as the ends of a list.
use mathlib.Core.Path.{subst}
use raleigh_fs.Common.{
  ℕ, Option, none, some, List, [], ◌∷◌, ◌++◌, ◌≡◌, ◌≢◌, refl, sym, ap, ◌∙◌, arith, ==-true,
  ==-false,
}
use raleigh_fs.Transaction.{Links, set_next}
use raleigh_fs.Transaction.Chain.{
  Chain, last, Fresh, Distinct, Chain-set_next, Chain-snoc, last-All, last-snoc,
}
use raleigh_fs.Tasks.{Nodes, push, pop}

-- The queue holds the tasks: they are chained from its head, which knows the last of them.
abbrev pub Queued : Nodes → Option ℕ → List ℕ → Type 0
Queued nodes none [] = Unit {0}
Queued nodes (some h) (x ∷ xs) =
    (h ≡ x) × Chain nodes.child0 (nodes.child0 x) xs × (nodes.child1 x ≡ last (x ∷ xs))
Queued nodes _ _ = ⊥

-- Two writes at different places may be swapped.
set_next_swap :
    (links : Links) (a b : ℕ) (p q : Option ℕ)
    → a ≢ b
    → set_next (set_next links a p) b q ≡ set_next (set_next links b q) a p
set_next_swap links a b p q n = λ i c. at c i
  where
    at : (c : ℕ) → set_next (set_next links a p) b q c ≡ set_next (set_next links b q) a p c
    at c = ground arith

last-some : (x : ℕ) (xs : List ℕ) → (t : ℕ) × (last (x ∷ xs) ≡ some t)
last-some x [] = (x, refl)
last-some x (y ∷ ys) = last-some y ys

push_behind :
    (task : ℕ) (nodes : Nodes) (x : ℕ) (xs : List ℕ)
    → Chain nodes.child0 (nodes.child0 x) xs
    → nodes.child1 x ≡ last (x ∷ xs)
    → Distinct (x ∷ xs)
    → Fresh task (x ∷ xs)
    → (head' : Option ℕ) × (nodes' : Nodes) × (push task (some x) nodes ≡ some (head', nodes'))
      × Queued nodes' head' (x ∷ (xs ++ task ∷ []))
unfolding push
push_behind task nodes x xs c l d f =
    let (t, e) = last-some x xs in
    let apart : t ≢ task = last-All (λ y. y ≢ task) (x ∷ xs) t f e in
    let links = set_next (set_next nodes.child0 t (some task)) task none in
    let chained = Chain-snoc nodes.child0 (some x) (x ∷ xs) t task (refl, c) d f e in
    let ordered =
      subst (λ k. Chain k (some x) (x ∷ (xs ++ task ∷ [])))
        (sym (set_next_swap nodes.child0 t task (some task) none apart)) chained in
    (
      some x,
      record { child0 = links; child1 = set_next (set_next nodes.child1 x (some task)) task none },
      rw (l ∙ e, push) refl,
      (refl, ordered.1, rw (==-false x task f.0, ==-true x) (sym (last-snoc (x ∷ xs) task))),
    )

Chain-nil : (links : Links) (p : Option ℕ) → Chain links p [] → p ≡ none
Chain-nil links none c = refl
Chain-nil links (some a) c = absurd c

Chain-cons :
    (links : Links) (p : Option ℕ) (y : ℕ) (ys : List ℕ)
    → Chain links p (y ∷ ys)
    → (p ≡ some y) × Chain links (links y) ys
Chain-cons links none y ys c = absurd c
Chain-cons links (some a) y ys c = (ap some c.0, c.1)

pop_first :
    (nodes : Nodes) (x : ℕ) (xs : List ℕ)
    → Chain nodes.child0 (nodes.child0 x) xs
    → nodes.child1 x ≡ last (x ∷ xs)
    → Distinct (x ∷ xs)
    → let (task, head', nodes') = pop (some x) nodes in (task ≡ some x) × Queued nodes' head' xs
unfolding pop
pop_first nodes x [] c l d = rw (Chain-nil nodes.child0 (nodes.child0 x) c) (refl, tt)
pop_first nodes x (y ∷ ys) c l d =
    let (e, rest) = Chain-cons nodes.child0 (nodes.child0 x) y ys c in
    let other : y ≢ x = d.0.0 in
    rw e (
      refl,
      (
        refl,
        rw (==-false y x other) (Chain-set_next nodes.child0 x none (nodes.child0 y) ys d.0.1 rest),
        rw (==-false y x other, ==-true y) l,
      ),
    )

-- A new task goes behind the others, and the queue is well-formed again.
pub push-Queued :
    (task : ℕ) (head : Option ℕ) (nodes : Nodes) (xs : List ℕ)
    → Queued nodes head xs
    → Distinct xs
    → Fresh task xs
    → (head' : Option ℕ) × (nodes' : Nodes) × (push task head nodes ≡ some (head', nodes'))
      × Queued nodes' head' (xs ++ task ∷ [])
unfolding push
push-Queued task none nodes [] q d f =
    (some task, _, refl, (refl, rw (==-true task) tt, rw (==-true task) refl))
push-Queued task none nodes (x ∷ xs) q d f = absurd q
push-Queued task (some h) nodes [] q d f = absurd q
push-Queued task (some h) nodes (x ∷ xs) q d f = rw q.0 (push_behind task nodes x xs q.1 q.2 d f)

-- The first task comes out, and the queue of the others is well-formed again.
pub pop-Queued :
    (nodes : Nodes) (head : Option ℕ) (x : ℕ) (xs : List ℕ)
    → Queued nodes head (x ∷ xs)
    → Distinct (x ∷ xs)
    → let (task, head', nodes') = pop head nodes in (task ≡ some x) × Queued nodes' head' xs
pop-Queued nodes none x xs q d = absurd q
pop-Queued nodes (some h) x xs q d = rw q.0 (pop_first nodes x xs q.1 q.2 d)
