-- ===== src/Semantic/Unshared.antt =====
-- Tables in which every id has one name, and what changes keep them so.
use mathlib.Core.Path.{subst}
use mathlib.Core.Option.{some-injective}
use raleigh_fs.Common.{
  ℕ, ◌<◌, ◌≤◌, Option, none, some, ◌≡◌, ◌≢◌, ◌⊎◌, inl, inr, sym, ap, ◌∙◌, arith, Bool-cases, ◌==◌,
  ==_iff,
}
use raleigh_fs.Semantic.Names.{Find, Updates}
use raleigh_fs.Semantic.Calls.{some-none}

-- Every id in the table has been given out, and to one name only.
pub record IsUnshared {T : Type 0} (find : Find T) (next : ℕ) (t : T) : Type 0 where
  pub below : (name oid : ℕ) → find name t ≡ some oid → oid < next
  pub alone : (name other oid : ℕ) → find name t ≡ some oid → find other t ≡ some oid → name ≡ other

module _ {T : Type 0} (find : Find T) where
  pub same_table :
      (next next' : ℕ) (t t' : T)
      → next ≤ next'
      → t' ≡ t
      → IsUnshared find next t
      → IsUnshared find next' t'
  same_table next next' t t' le e u =
      subst (IsUnshared find next') (sym e) (record {
        below = λ name oid h. let b = u.below name oid h in omega arith;
        alone = u.alone;
      })

  -- A set name is the one that was set, or was there before.
  pub after_set :
      (name m oid : ℕ) (r : Option ℕ) (t t' : T)
      → Updates find name r t t'
      → find m t' ≡ some oid
      → ((m ≡ name) × (r ≡ some oid)) ⊎ ((m ≢ name) × (find m t ≡ some oid))
  after_set name m oid r t t' w h = elim (Bool-cases (m == name)) [
    | inl e ↦
        let same = (==_iff m name).0 e in inl (same, sym w.0 ∙ (ap (λ k. find k t') (sym same) ∙ h))
    | inr e ↦ let other : m ≢ name = λ k. ground arith in inr (other, sym (w.1 m other) ∙ h)
  ]

  pub removed_name :
      (next name : ℕ) (t t' : T)
      → Updates find name none t t'
      → IsUnshared find next t
      → IsUnshared find next t'
  removed_name next name t t' w u = record {
    below = λ m oid h. elim (after_set name m oid none t t' w h) [
      | inl (e, k) ↦ absurd (some-none oid (sym k))
      | inr (n, k) ↦ u.below m oid k
    ];
    alone = λ m m' oid h h'. elim (after_set name m oid none t t' w h) [
      | inl (e, k) ↦ absurd (some-none oid (sym k))
      | inr (n, k) ↦ elim (after_set name m' oid none t t' w h') [
        | inl (e', k') ↦ absurd (some-none oid (sym k'))
        | inr (n', k') ↦ u.alone m m' oid k k'
      ]
    ];
  }

  pub set_name :
      (next next' name id : ℕ) (t t' : T)
      → Updates find name (some id) t t'
      → next ≤ next'
      → id < next'
      → ((m : ℕ) → find m t ≢ some id)
      → IsUnshared find next t
      → IsUnshared find next' t'
  set_name next next' name id t t' w le new fresh u = record {
    below = λ m oid h. elim (after_set name m oid (some id) t t' w h) [
      | inl (e, k) ↦ let q = some-injective _ _ k in omega arith
      | inr (n, k) ↦ let b = u.below m oid k in omega arith
    ];
    alone = λ m m' oid h h'. elim (after_set name m oid (some id) t t' w h) [
      | inl (e, k) ↦ elim (after_set name m' oid (some id) t t' w h') [
        | inl (e', k') ↦ e ∙ sym e'
        | inr (n', k') ↦ absurd (fresh m' (k' ∙ sym k))
      ]
      | inr (n, k) ↦ elim (after_set name m' oid (some id) t t' w h') [
        | inl (e', k') ↦ absurd (fresh m (k ∙ sym k'))
        | inr (n', k') ↦ u.alone m m' oid k k'
      ]
    ];
  }
