-- ===== src/Merger.antt =====
-- src/zcl/tools/map/map-merger.c: the merge of sorted map iterators.
--
-- An iterator is the list of the entries from its current one on, with its address.
pub mod Picked
pub mod Advanced
pub mod Merged
pub mod Tests
use Prim.Native.Nat.{Ordering}
use raleigh_fs.Common.{
  ℕ, zero, suc, ◌+◌, Bool, true, false, Option, none, some, List, [], ◌∷◌, ◌++◌, ◌==◌,
  if◌then◌else◌,
}
use raleigh_fs.Tree.{TreeInfo}

-- `z_map_iterator_t`, as far as the merger uses it
pub data MapIter (E : Type 0) : Type 0 where
  iter : (addr : ℕ) (entries : List E) → MapIter E

-- `z_map_merger_t`
pub record Merger (E : Type 0) : Type 0 where
  pub merge_list : List (MapIter E)
  pub smallest_iter : Option ℕ
  pub skip_equals : Bool

module _ {E : Type 0} where
  -- `z_map_merger_open`, with the `skip_equals` that its caller sets
  abbrev pub open_merger : Bool → Merger E
  open_merger skip_equals = record {
    merge_list = [];
    smallest_iter = none;
    skip_equals = skip_equals;
  }

  -- `z_map_merger_add`: it answers 1 for an iterator at its end
  unfoldable pub add : MapIter E → Merger E → ℕ × Merger E
  add (iter x []) m = (1, m)
  add (iter x (e ∷ es)) m = (0, record m { merge_list = m.merge_list ++ iter x (e ∷ es) ∷ [] })

  -- `z_map_iterator_next`, and the iterator's place in the list if it is not at its end
  abbrev pub stepped : ℕ → List E → List (MapIter E) → List (MapIter E)
  stepped x [] is = is
  stepped x (e ∷ es) is = iter x (e ∷ es) ∷ is

  unfoldable pub advance : ℕ → List (MapIter E) → List (MapIter E)
  advance a [] = []
  advance a (iter x [] ∷ is) = if x == a then is else iter x [] ∷ advance a is
  advance a (iter x (e ∷ es) ∷ is) =
      if x == a then stepped x es is else iter x (e ∷ es) ∷ advance a is

module _ {E K : Type 0} (info : TreeInfo E K) where
  open info use {key, compare}

  abbrev pub kept :
      MapIter E → Option (List (MapIter E) × E × ℕ) → Option (List (MapIter E) × E × ℕ)
  kept i none = none
  kept i (some (is, s, a)) = some (i ∷ is, s, a)

  abbrev pub skipped :
      ℕ → List E → Option (List (MapIter E) × E × ℕ) → Option (List (MapIter E) × E × ℕ)
  skipped x es none = none
  skipped x es (some (is, s, a)) = some (stepped x es is, s, a)

  -- The loop of `z_map_merger_next` from its second round on, with `smallest_iter` and
  -- `smallest_entry`. An iterator at its end is a failed assertion.
  unfoldable pub pick : Bool → ℕ → E → List (MapIter E) → Option (List (MapIter E) × E × ℕ)
  pick skip a s [] = some ([], s, a)
  pick skip a s (iter x [] ∷ is) = none
  pick skip a s (iter x (e ∷ es) ∷ is) = elim (compare (key e) (key s)) [
    | Ordering.lt ↦ kept (iter x (e ∷ es)) (pick skip x e is)
    | Ordering.eq ↦
        if skip then skipped x es (pick skip a s is) else kept (iter x (e ∷ es)) (pick skip a s is)
    | Ordering.gt ↦ kept (iter x (e ∷ es)) (pick skip a s is)
  ]

  -- the whole loop
  unfoldable pub pick_all : Bool → List (MapIter E) → Option (List (MapIter E) × Option (E × ℕ))
  unfolding pick
  pick_all skip [] = some ([], none)
  pick_all skip (iter x [] ∷ is) = none
  pick_all skip (iter x (e ∷ es) ∷ is) = elim (kept (iter x (e ∷ es)) (pick skip x e is)) [
    | none ↦ none
    | some (is', s, a) ↦ some (is', some (s, a))
  ]

  -- `z_map_merger_next`
  unfoldable pub next : Merger E → Option (Option E × Merger E)
  unfolding advance pick_all
  next m = elim (m.merge_list) [
    | [] ↦ some (none, m)
    | i ∷ is ↦
        let list : List (MapIter E) = elim (m.smallest_iter) [
          | none ↦ i ∷ is
          | some a ↦ advance a (i ∷ is)
        ] in
        elim (pick_all m.skip_equals list) [
          | none ↦ none
          | some (list', none) ↦ some (none, record m { merge_list = list'; smallest_iter = none })
          | some (list', some (e, a)) ↦
              some (some e, record m { merge_list = list'; smallest_iter = some a })
        ]
  ]

  -- the entries that so many calls answer, up to the first that answers NULL
  unfoldable pub outputs : ℕ → Merger E → Option (List E)
  unfolding next
  outputs zero m = some []
  outputs (suc n) m = elim (next m) [
    | none ↦ none
    | some (none, m') ↦ some []
    | some (some e, m') ↦ elim (outputs n m') [ none ↦ none | some es ↦ some (e ∷ es) ]
  ]
