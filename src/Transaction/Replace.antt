-- ===== src/Transaction/Replace.antt =====
-- `raleighsl_transaction_replace` and `raleighsl_transaction_remove` on the chain of a group.
use mathlib.Core.Path.{subst}
use raleigh_fs.Common.{
  ℕ, zero, suc, ◌<◌, Option, none, some, List, [], ◌∷◌, ◌++◌, All, length, ◌≡◌, ◌≢◌, refl, sym, ap,
  arith, ◌+◌, ==-false, ==-true,
}
use raleigh_fs.Transaction.{Links, set_next, replace_from}
use raleigh_fs.Transaction.Chain.{Chain, Fresh, Distinct, Chain-set_next}

-- The atoms that take the place of a replaced one.
abbrev pub replacement : Option ℕ → List ℕ → List ℕ
replacement none ys = ys
replacement (some q) ys = q ∷ ys

abbrev pub NewAtom : Option ℕ → List ℕ → Type 0
NewAtom none xs = Unit {0}
NewAtom (some q) xs = Fresh q xs

-- What the loop writes at the atom that it looks for.
abbrev relink : Links → ℕ → ℕ → Option ℕ → Links
relink links prev atom none = set_next links prev (links atom)
relink links prev atom (some q) = set_next (set_next links q (links atom)) prev (some q)

relink-Chain :
    (links : Links) (prev atom : ℕ) (new : Option ℕ) (ys : List ℕ)
    → Fresh prev ys
    → NewAtom new (prev ∷ ys)
    → Chain links (links atom) ys
    → Chain (relink links prev atom new) (relink links prev atom new prev) (replacement new ys)
relink-Chain links prev atom none ys f n c =
    rw (==-true prev) (Chain-set_next links prev (links atom) (links atom) ys f c)
relink-Chain links prev atom (some q) ys f n c = rw (==-true prev) (
  refl,
  rw (==-false q prev (λ e. n.0 (sym e)), ==-true q)
      (Chain-set_next (set_next links q (links atom)) prev (some q) (links atom) ys f
        (Chain-set_next links q (links atom) (links atom) ys n.1 c)),
)

relink-other :
    (links : Links) (prev atom b : ℕ) (new : Option ℕ)
    → prev ≢ b
    → NewAtom new (b ∷ [])
    → relink links prev atom new b ≡ links b
relink-other links prev atom b none n f = rw (==-false b prev (λ e. n (sym e)))
relink-other links prev atom b (some q) n f =
    rw (==-false b prev (λ e. n (sym e)), ==-false b q f.0)

Chain-head :
    (links : Links) (p : Option ℕ) (x : ℕ) (xs : List ℕ)
    → Chain links p (x ∷ xs)
    → (p ≡ some x) × Chain links (links x) xs
Chain-head links none x xs c = absurd c
Chain-head links (some a) x xs c = (ap some c.0, c.1)

All-middle {ℓ κ} :
    {A : Type ℓ} (P : A → Type κ) (xs : List A) (a : A) (ys : List A)
    → All P (xs ++ a ∷ ys)
    → All P xs × P a × All P ys
All-middle P [] a ys h = (tt, h.0, h.1)
All-middle P (x ∷ xs) a ys h =
    let (front, middle, back) = All-middle P xs a ys h.1 in ((h.0, front), middle, back)

NewAtom-cons :
    (new : Option ℕ) (x : ℕ) (xs : List ℕ)
    → NewAtom new (x ∷ xs)
    → NewAtom new (x ∷ []) × NewAtom new xs
NewAtom-cons none x xs n = (tt, tt)
NewAtom-cons (some q) x xs n = ((n.0, tt), n.1)

NewAtom-skip :
    (new : Option ℕ) (x y : ℕ) (xs : List ℕ) → NewAtom new (x ∷ y ∷ xs) → NewAtom new (x ∷ xs)
NewAtom-skip none x y xs n = tt
NewAtom-skip (some q) x y xs n = (n.0, n.1.1)

-- One round of the loop.
replace_hit :
    (fuel prev atom : ℕ) (new : Option ℕ) (links : Links)
    → replace_from (suc fuel) prev (some atom) atom new links ≡ relink links prev atom new
unfolding replace_from
replace_hit fuel prev atom none links = rw (==-true atom)
replace_hit fuel prev atom (some q) links = rw (==-true atom)

replace_miss :
    (fuel prev p atom : ℕ) (new : Option ℕ) (links : Links)
    → p ≢ atom
    → replace_from (suc fuel) prev (some p) atom new links
      ≡ replace_from fuel p (links p) atom new links
unfolding replace_from
replace_miss fuel prev p atom new links n = rw (==-false p atom n)

-- The loop, from the atom behind `prev` on: the atom gives way to its replacement, and an atom
-- before the list keeps its `next`.
replace_from-Chain :
    (fuel : ℕ) (links : Links) (prev atom : ℕ) (new : Option ℕ) (xs ys : List ℕ)
    → length xs < fuel
    → Distinct (prev ∷ (xs ++ atom ∷ ys))
    → NewAtom new (prev ∷ (xs ++ atom ∷ ys))
    → Chain links (links prev) (xs ++ atom ∷ ys)
    → let links' = replace_from fuel prev (links prev) atom new links in
      Chain links' (links' prev) (xs ++ replacement new ys)
      × ((b : ℕ) → Fresh b (prev ∷ xs) → NewAtom new (b ∷ []) → links' b ≡ links b)
replace_from-Chain zero links prev atom new xs ys m d n c = absurd (omega arith)
replace_from-Chain (suc fuel) links prev atom new [] ys m d n c =
    let (e, c') = Chain-head links (links prev) atom ys c in
    rw (e, replace_hit fuel prev atom new links)
      (
        relink-Chain links prev atom new ys d.0.1 (NewAtom-skip new prev atom ys n) c',
        λ b f k. relink-other links prev atom b new f.0 k,
      )
replace_from-Chain (suc fuel) links prev atom new (x ∷ xs) ys m d n c =
    let (e, c') = Chain-head links (links prev) x (xs ++ atom ∷ ys) c in
    let apart = All-middle (λ y. y ≢ x) xs atom ys d.1.0 in
    let (front, keep) =
      replace_from-Chain fuel links x atom new xs ys (omega arith) d.1
        (NewAtom-cons new prev (x ∷ (xs ++ atom ∷ ys)) n).1 c' in
    let before = All-middle (λ y. y ≢ prev) (x ∷ xs) atom ys d.0 in
    rw (e, replace_miss fuel prev x atom new links (λ h. apart.1 (sym h)))
      (
        rw (keep prev before.0 (NewAtom-cons new prev (x ∷ (xs ++ atom ∷ ys)) n).0, e)
            (refl, front),
        λ b f k. keep b f.1 k,
      )

-- `raleighsl_transaction_replace` on the chain of a group puts the new atom in the place of any
-- atom but the first, and `raleighsl_transaction_remove` (no new atom) takes that atom out, with
-- fuel for one round for each atom. All others keep their places.
pub replace_from_lem :
    (fuel : ℕ) (links : Links) (head atom : ℕ) (new : Option ℕ) (xs ys : List ℕ)
    → length xs + 1 < fuel
    → Distinct (head ∷ (xs ++ atom ∷ ys))
    → NewAtom new (head ∷ (xs ++ atom ∷ ys))
    → Chain links (some head) (head ∷ (xs ++ atom ∷ ys))
    → Chain
        (replace_from fuel head (some head) atom new links)
        (some head)
        (head ∷ (xs ++ replacement new ys))
replace_from_lem zero links head atom new xs ys m d n c = absurd (omega arith)
replace_from_lem (suc fuel) links head atom new xs ys m d n c =
    let missed =
      replace_miss fuel head head atom new links
        (λ h. (All-middle (λ y. y ≢ head) xs atom ys d.0).1 (sym h)) in
    subst (λ l. Chain l (some head) (head ∷ (xs ++ replacement new ys))) (sym missed)
      (refl, (replace_from-Chain fuel links head atom new xs ys (omega arith) d n c.1).0)

-- The first atom is another matter. Its removal writes its own `next` back to it: every atom
-- stays in its place. Its replacement goes behind it instead.
pub replace_from_head :
    (fuel : ℕ) (links : Links) (head : ℕ) (new : Option ℕ) (ys : List ℕ)
    → Distinct (head ∷ ys)
    → NewAtom new (head ∷ ys)
    → Chain links (some head) (head ∷ ys)
    → Chain
        (replace_from (suc fuel) head (some head) head new links)
        (some head)
        (head ∷ replacement new ys)
replace_from_head fuel links head new ys d n c =
    subst (λ l. Chain l (some head) (head ∷ replacement new ys))
      (sym (replace_hit fuel head head new links))
      (refl, relink-Chain links head head new ys d.0 n c.1)
