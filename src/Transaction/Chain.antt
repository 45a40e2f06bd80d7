-- ===== src/Transaction/Chain.antt =====
-- Which atoms a group holds: the ones met from its head on along `next`, the last of them its tail.
use mathlib.Core.Path.{subst}
use mathlib.Core.Option.{some-injective}
use raleigh_fs.Common.{
  ℕ, Option, none, some, List, [], ◌∷◌, ◌++◌, All, ◌≡◌, ◌≢◌, refl, sym, arith, All-append, ==-false,
  ==-true,
}
use raleigh_fs.Transaction.{Links, set_next}

-- The atoms from `p` on are `xs`.
abbrev pub Chain : Links → Option ℕ → List ℕ → Type 0
Chain links none [] = Unit {0}
Chain links (some a) (x ∷ xs) = (a ≡ x) × Chain links (links x) xs
Chain links _ _ = ⊥

abbrev pub last : List ℕ → Option ℕ
last [] = none
last (x ∷ []) = some x
last (x ∷ y ∷ ys) = last (y ∷ ys)

-- The atom is none of the list.
abbrev pub Fresh : ℕ → List ℕ → Type 0
Fresh a xs = All (λ x. x ≢ a) xs

abbrev pub Distinct : List ℕ → Type 0
Distinct [] = Unit {0}
Distinct (x ∷ xs) = Fresh x xs × Distinct xs

-- A write to an atom outside the chain leaves it.
pub Chain-set_next :
    (links : Links) (a : ℕ) (q : Option ℕ) (p : Option ℕ) (xs : List ℕ)
    → Fresh a xs
    → Chain links p xs
    → Chain (set_next links a q) p xs
Chain-set_next links a q none [] f c = tt
Chain-set_next links a q none (x ∷ xs) f c = absurd c
Chain-set_next links a q (some b) [] f c = absurd c
Chain-set_next links a q (some b) (x ∷ xs) f c =
    (c.0, rw (==-false x a f.0) (Chain-set_next links a q (links x) xs f.1 c.1))

-- The last atom is one of the list.
last-ne : (a t : ℕ) (xs : List ℕ) → Fresh a xs → last xs ≡ some t → t ≢ a
last-ne a t [] f e = cc
last-ne a t (x ∷ []) f e = ground arith
last-ne a t (x ∷ y ∷ ys) f e = last-ne a t (y ∷ ys) f.1 e

Chain-one :
    (links : Links) (x a : ℕ)
    → x ≢ a
    → Chain (set_next (set_next links a none) x (some a)) (some x) (x ∷ a ∷ [])
Chain-one links x a n =
    (refl, rw (==-true x) (refl, rw (==-false a x (λ k. n (sym k)), ==-true a) tt))

-- Writing the `next` of the end extends the chain.
pub Chain-snoc :
    (links : Links) (p : Option ℕ) (xs : List ℕ) (t a : ℕ)
    → Chain links p xs
    → Distinct xs
    → Fresh a xs
    → last xs ≡ some t
    → Chain (set_next (set_next links a none) t (some a)) p (xs ++ a ∷ [])
Chain-snoc links none [] t a c d f e = cc
Chain-snoc links none (x ∷ xs) t a c d f e = absurd c
Chain-snoc links (some b) [] t a c d f e = absurd c
Chain-snoc links (some b) (x ∷ []) t a c d f e =
    subst (λ u. Chain (set_next (set_next links a none) u (some a)) (some b) (x ∷ a ∷ []))
      (some-injective _ _ e) (rw c.0 (Chain-one links x a f.0))
Chain-snoc links (some b) (x ∷ y ∷ ys) t a c d f e = (
  c.0,
  rw (==-false x t (λ h. last-ne x t (y ∷ ys) d.0 e (sym h)), ==-false x a f.0)
      (Chain-snoc links (links x) (y ∷ ys) t a c.1 d.1 f.1 e),
)

-- What holds of every atom holds of the last one.
pub last-All {κ} : (P : ℕ → Type κ) (xs : List ℕ) (t : ℕ) → All P xs → last xs ≡ some t → P t
last-All P [] t h e = cc
last-All P (x ∷ []) t h e = subst P (ground arith) h.0
last-All P (x ∷ y ∷ ys) t h e = last-All P (y ∷ ys) t h.1 e

pub last-snoc : (xs : List ℕ) (a : ℕ) → last (xs ++ a ∷ []) ≡ some a
last-snoc [] a = refl
last-snoc (x ∷ []) a = refl
last-snoc (x ∷ y ∷ ys) a = last-snoc (y ∷ ys) a

pub last-eq-none : (xs : List ℕ) → last xs ≡ none → xs ≡ []
last-eq-none [] e = refl
last-eq-none (x ∷ []) e = cc
last-eq-none (x ∷ y ∷ ys) e = absurd (nonempty (last-eq-none (y ∷ ys) e))
  where
    nonempty : y ∷ ys ≡ [] → ⊥
    nonempty h = cc

pub Distinct-snoc : (xs : List ℕ) (a : ℕ) → Distinct xs → Fresh a xs → Distinct (xs ++ a ∷ [])
Distinct-snoc [] a d f = (tt, tt)
Distinct-snoc (x ∷ xs) a d f =
    (All-append (λ y. y ≢ x) xs (a ∷ []) d.0 (λ h. f.0 (sym h), tt), Distinct-snoc xs a d.1 f.1)

pub ruleset chain_laws = (==-true, last-snoc)
