-- ===== src/Semantic/Ids.antt =====
-- No two names ever lead to the same object.
use raleigh_fs.Errno.{Errno}
use raleigh_fs.Semantic.{SemanticPlug, Semantic}
use raleigh_fs.Semantic.Names.{Find, IsLawful}
use raleigh_fs.Semantic.Unshared.{IsUnshared}

module _ {T : Type 0} (plug : SemanticPlug T) (find : Find T) (laws : IsLawful plug find) where
  -- the state of a semantic layer with its parts
  abbrev Unshared : Semantic T → Type 0
  Unshared s = IsUnshared find s.next_oid s.names
