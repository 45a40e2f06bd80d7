-- ===== src/Rwcsem/Linear.antt =====
-- Every compare-and-swap loop of the semaphore acts in one instant.
use mathlib.Core.Path.{subst}
use mathlib.Core.Option.{some-injective}
use raleigh_fs.Common.{
  ℕ, ◌<◌, ◌^◌, Bool, some, List, [], ◌∷◌, All, ◌≡◌, ◌⊎◌, refl, ap, ◌∙◌, inl, inr, arith, ◌==◌,
  ==_iff, Bool-cases,
}
use raleigh_fs.Rwcsem.{
  Op, Attempt, answer, swap, Outcome, answered, swapped, cas_loop, try_acquire, release, try_switch,
  set_commit_flag, set_lock_flag,
}

-- The operations of the semaphore, and the body of each one's loop.
pub data Call : Type 0 where
  acquiring releasing : Op → Call
  switching : Op → Op → Call
  marking_commit marking_lock : Call

abbrev pub body_of : Call → ℕ → Attempt
body_of (acquiring op) = try_acquire op
body_of (releasing op) = release op
body_of (switching op next) = try_switch op next
body_of marking_commit = set_commit_flag
body_of marking_lock = set_lock_flag

-- A body is stable if, wherever it proposes a swap, it proposes the same one at the value that the
-- swap expects.
abbrev IsStable : (ℕ → Attempt) → Type 0
IsStable body = (w e n : ℕ) → w < 2 ^ 32 → body w ≡ swap e n → body e ≡ swap e n

try_acquire-IsStable : (op : Op) → IsStable (try_acquire op)
unfolding try_acquire
try_acquire-IsStable Op.read w e n b h = ground arith
try_acquire-IsStable Op.write w e n b h = ground arith
try_acquire-IsStable Op.commit w e n b h = ground arith
try_acquire-IsStable Op.lock w e n b h = ground arith

release-IsStable : (op : Op) → IsStable (release op)
unfolding release
release-IsStable Op.read w e n b h = ground arith
release-IsStable Op.write w e n b h = ground arith
release-IsStable Op.commit w e n b h = ground arith
release-IsStable Op.lock w e n b h = ground arith

try_switch-IsStable : (op next : Op) → IsStable (try_switch op next)
unfolding try_switch
try_switch-IsStable Op.write Op.read w e n b h = ground arith
try_switch-IsStable Op.write Op.write w e n b h = cc
try_switch-IsStable Op.write Op.commit w e n b h = cc
try_switch-IsStable Op.write Op.lock w e n b h = cc
try_switch-IsStable Op.read next w e n b h = cc
try_switch-IsStable Op.commit next w e n b h = cc
try_switch-IsStable Op.lock next w e n b h = cc

body_of-IsStable : (c : Call) → IsStable (body_of c)
unfolding set_commit_flag set_lock_flag
body_of-IsStable (acquiring op) w e n b h = try_acquire-IsStable op w e n b h
body_of-IsStable (releasing op) w e n b h = release-IsStable op w e n b h
body_of-IsStable (switching op next) w e n b h = try_switch-IsStable op next w e n b h
body_of-IsStable marking_commit w e n b h = ground arith
body_of-IsStable marking_lock w e n b h = ground arith

-- The value is one of those that the loop saw.
abbrev pub Among : ℕ → List ℕ → Type 0
Among w [] = ⊥
Among w (x ∷ xs) = (w ≡ x) ⊎ Among w xs

-- The outcome is what the body does, undisturbed, at the value.
abbrev pub ActsAt : (ℕ → Attempt) → Outcome → ℕ → Type 0
ActsAt body (answered r) w = body w ≡ answer r
ActsAt body (swapped e n) w = (w ≡ e) × (body w ≡ swap e n)

-- A body that answers, and one that swaps, at the value just loaded.
answer_now :
    (body : ℕ → Attempt) (o : Outcome) (r : Bool) (w : ℕ) (ws : List ℕ)
    → body w ≡ answer r
    → some (answered r) ≡ some o
    → (v : ℕ) × Among v (w ∷ ws) × ActsAt body o v
answer_now body o r w ws h e = (w, inl refl, subst (λ k. ActsAt body k w) (some-injective _ _ e) h)

Attempt-cases : (a : Attempt) → ((r : Bool) × (a ≡ answer r)) ⊎ ((e : ℕ) × (n : ℕ) × (a ≡ swap e n))
Attempt-cases (answer r) = inl (r, refl)
Attempt-cases (swap e n) = inr (e, n, refl)

cas_loop_stable :
    (body : ℕ → Attempt) (o : Outcome)
    → IsStable body
    → (curval : ℕ) (ws : List ℕ) → All (λ w. w < 2 ^ 32) (curval ∷ ws)
    → cas_loop body curval ws ≡ some o
    → (w : ℕ) × Among w (curval ∷ ws) × ActsAt body o w
unfolding cas_loop
cas_loop_stable body o stable curval [] b h = elim (Attempt-cases (body curval)) [
  | inl (r, e) ↦ answer_now body o r curval [] e (rw (e, cas_loop) at h)
  | inr (e, n, k) ↦ let h' = rw (k, cas_loop) at h in cc
]
cas_loop_stable body o stable curval (w ∷ ws) b h = elim (Attempt-cases (body curval)) [
  | inl (r, e) ↦ answer_now body o r curval (w ∷ ws) e (rw (e, cas_loop) at h)
  | inr (e, n, k) ↦ elim (Bool-cases (w == e)) [
    | inl same ↦
        let at_e = (==_iff w e).0 same in
        (
          w,
          inr (inl refl),
          subst (λ v. ActsAt body v w) (some-injective _ _ (rw (k, cas_loop, same) at h))
              (at_e, ap body at_e ∙ stable curval e n b.0 k),
        )
    | inr other ↦
        let (v, m, a) = cas_loop_stable body o stable w ws b.1 (rw (k, cas_loop, other) at h) in
        (v, inr m, a)
  ]
]

-- Whatever other threads do to the word while an operation loops, once it ends it has acted in one
-- instant: there is a value, among those that it saw in the word, at which its body gives that
-- answer, or expects exactly that value and swaps it for the new one.
pub cas_loop-ActsAt :
    (c : Call) (curval : ℕ) (ws : List ℕ) {o : Outcome}
    → All (λ w. w < 2 ^ 32) (curval ∷ ws)
    → cas_loop (body_of c) curval ws ≡ some o
    → (w : ℕ) × Among w (curval ∷ ws) × ActsAt (body_of c) o w
cas_loop-ActsAt c curval ws {o} b h =
    cas_loop_stable (body_of c) o (body_of-IsStable c) curval ws b h
