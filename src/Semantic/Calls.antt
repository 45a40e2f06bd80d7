-- ===== src/Semantic/Calls.antt =====
-- The calls of the semantic layer over a lawful plugin.
use raleigh_fs.Common.{
  ℕ, ◌+◌, ◌%◌, ◌^◌, Bool, true, false, Option, none, some, ◌≡◌, ◌≢◌, refl, arith,
}
use raleigh_fs.Errno.{Errno, failed}
use raleigh_fs.Semantic.{SemanticPlug, Semantic, Answers, create, rename}
use raleigh_fs.Semantic.Names.{Find, Updates, IsLawful}

pub some-none : (oid : ℕ) → some oid ≢ none
some-none oid e = cc

module _ {T : Type 0} (plug : SemanticPlug T) (find : Find T) (laws : IsLawful plug find) where
  -- A new name with memory at hand gets the next id, whatever the object layer then answers; the
  -- code is the object layer's, and no other name changes.
  pub create_new_name :
      (answers : Answers) (name : ℕ) (s : Semantic T)
      → answers.create_memory ≡ true
      → find name s.names ≡ none
      → let (e, oid, s') = create plug answers name s in
        (e ≡ answers.object_code)
        × (oid ≡ some s.next_oid)
        × (s'.next_oid ≡ (s.next_oid + 1) % 2 ^ 64)
        × Updates find name (some s.next_oid) s.names s'.names
  unfolding create
  create_new_name answers name s m n =
      let law = laws.create_new name s.next_oid s.names n in
      let missing = laws.lookup_none name s.names n in ground arith

  pub create_existing :
      (answers : Answers) (name oid : ℕ) (s : Semantic T)
      → find name s.names ≡ some oid
      → create plug answers name s ≡ (Errno.ok, some oid, s)
  unfolding create
  create_existing answers name oid s h = rw (laws.lookup_some name oid s.names h) refl

  pub rename_onto_existing :
      (answers : Answers) (old new oid : ℕ) (s : Semantic T)
      → find new s.names ≡ some oid
      → rename plug answers old new s ≡ (Errno.ok, s)
  unfolding rename
  rename_onto_existing answers old new oid s h = rw (laws.lookup_some new oid s.names h) refl

  -- What a rename has to do: from the memory for its two steps, and from what the new and the old
  -- name lead to.
  abbrev pub Renames :
      Bool → Bool → Option ℕ → Option ℕ → ℕ → ℕ → Semantic T → Errno × Semantic T → Type 0
  Renames um cm (some taken) o old new s r = r ≡ (Errno.ok, s)
  Renames false cm none o old new s r = (failed r.0 ≡ true) × (r.1 ≡ s)
  Renames true cm none none old new s r = (failed r.0 ≡ true) × (r.1 ≡ s)
  Renames true true none (some oid) old new s r =
      (r.0 ≡ Errno.ok)
      × (find new r.1.names ≡ some oid)
      × (find old r.1.names ≡ none)
      × ((m : ℕ) → m ≢ old → m ≢ new → find m r.1.names ≡ find m s.names)
  Renames true false none (some oid) old new s r =
      (failed r.0 ≡ true)
      × (find old r.1.names ≡ none)
      × (find new r.1.names ≡ none)
      × ((m : ℕ) → m ≢ old → find m r.1.names ≡ find m s.names)
