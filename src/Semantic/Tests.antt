-- ===== src/Semantic/Tests.antt =====
-- The semantic layer over a set that is a function.
use raleigh_fs.Common.{ℕ, ◌+◌, true, Option, none, some, ◌==◌, if◌then◌else◌}
use raleigh_fs.Errno.{Errno}
use raleigh_fs.Semantic.{Semantic, Answers, SortedSet}
use raleigh_fs.Semantic.Names.{Find}

abbrev Cells : Type 0
Cells = ℕ → Option ℕ

abbrev write_cell : ℕ → Option ℕ → Cells → Cells
write_cell key r t k = if k == key then r else t k

abbrev cell : Find Cells
cell key t = t key

abbrev insert_cell : Option ℕ → ℕ → ℕ → Cells → Errno × Cells
insert_cell none key oid t = (Errno.ok, write_cell key (some oid) t)
insert_cell (some k) key oid t = (Errno.data_key_exists, t)

abbrev get_cell : Option ℕ → Errno × Option ℕ
get_cell none = (Errno.data_key_not_found, none)
get_cell (some k) = (Errno.ok, some k)

abbrev remove_cell : Option ℕ → ℕ → Cells → Errno × Option ℕ × Cells
remove_cell none key t = (Errno.data_key_not_found, none, t)
remove_cell (some k) key t = (Errno.ok, some k, write_cell key none t)

abbrev cells : SortedSet Cells
cells = record {
  insert = λ key oid t. insert_cell (t key) key oid t;
  get = λ key t. get_cell (t key);
  remove = λ key t. remove_cell (t key) key t;
}

abbrev shifted : ℕ → ℕ
shifted name = name + 100

abbrev plenty : Answers
plenty = record {
  unlink_memory = true;
  create_memory = true;
  cached = true;
  object_code = Errno.ok;
}

-- The name 3 leads to the object 20.
abbrev one_name : Semantic Cells
one_name = record { next_oid = 21; names = write_cell 103 (some 20) (λ k. none) }
