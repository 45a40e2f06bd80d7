-- ===== src/Semantic/Names.antt =====
-- What a semantic plugin promises of its table of names.
use raleigh_fs.Common.{ℕ, Bool, true, false, Option, none, some, ◌≡◌, ◌≢◌, ◌⊎◌}
use raleigh_fs.Errno.{Errno, failed}
use raleigh_fs.Semantic.{SemanticPlug}

-- A table seen as a map from names to object ids.
abbrev pub Find : Type 0 → Type 0
Find T = ℕ → T → Option ℕ

-- The second table is the first with the name set to `r`.
abbrev pub Updates : {T : Type 0} → Find T → ℕ → Option ℕ → T → T → Type 0
Updates find name r t t' = (find name t' ≡ r) × ((m : ℕ) → m ≢ name → find m t' ≡ find m t)

-- Lookup tells what the map holds. Create and unlink do their work or fail and change nothing;
-- create fails on a name that is there, unlink on one that is not, and both succeed elsewhere if
-- there is memory.
pub record IsLawful {T : Type 0} (plug : SemanticPlug T) (find : Find T) : Type 0 where
  pub lookup_some :
      (name oid : ℕ) (t : T) → find name t ≡ some oid → plug.lookup name t ≡ (Errno.ok, some oid)
  pub lookup_none :
      (name : ℕ) (t : T) → find name t ≡ none → plug.lookup name t ≡ (Errno.object_not_found, none)
  pub create_new :
      (name oid : ℕ) (t : T)
      → find name t ≡ none
      → ((plug.create true name oid t).0 ≡ Errno.ok)
        × Updates find name (some oid) t (plug.create true name oid t).1
  pub create_other :
      (allocated : Bool) (name oid : ℕ) (t : T)
      → (allocated ≡ false) ⊎ (find name t ≢ none)
      → (failed (plug.create allocated name oid t).0 ≡ true)
        × ((plug.create allocated name oid t).1 ≡ t)
  pub unlink_old :
      (name oid : ℕ) (t : T)
      → find name t ≡ some oid
      → ((plug.unlink true name t).0 ≡ Errno.ok)
        × ((plug.unlink true name t).1 ≡ some oid)
        × Updates find name none t (plug.unlink true name t).2
  pub unlink_other :
      (allocated : Bool) (name : ℕ) (t : T)
      → (allocated ≡ false) ⊎ (find name t ≡ none)
      → (failed (plug.unlink allocated name t).0 ≡ true) × ((plug.unlink allocated name t).2 ≡ t)
