-- ===== src/Semantic/Flat.antt =====
-- src/raleighsl/semantics/flat/flat.c over a set whose writes take effect at once: a plugin as the
-- calls of the semantic layer want it.
use raleigh_fs.Common.{ℕ, Bool, true, false, Option, none, some, ◌≡◌, ◌≢◌, ◌⊎◌, inl, inr, refl, ap}
use raleigh_fs.Errno.{Errno, failed}
use raleigh_fs.Semantic.{SortedSet, insert_code, find_code, flat}
use raleigh_fs.Semantic.Names.{Find, Updates, IsLawful}

-- A set whose calls are those of a map at once, with the codes of sset.c, and with memory always at
-- hand. The sorted set of sset.c is not: its writes wait for a commit.
pub record IsMap {S : Type 0} (set : SortedSet S) (find : Find S) : Type 0 where
  pub get_some :
      (key oid : ℕ) (t : S) → find key t ≡ some oid → set.get key t ≡ (Errno.ok, some oid)
  pub get_none :
      (key : ℕ) (t : S) → find key t ≡ none → set.get key t ≡ (Errno.data_key_not_found, none)
  pub insert_new :
      (key oid : ℕ) (t : S)
      → find key t ≡ none
      → ((set.insert key oid t).0 ≡ Errno.ok)
        × Updates find key (some oid) t (set.insert key oid t).1
  pub insert_old :
      (key oid : ℕ) (t : S) → find key t ≢ none → set.insert key oid t ≡ (Errno.data_key_exists, t)
  pub remove_some :
      (key oid : ℕ) (t : S)
      → find key t ≡ some oid
      → ((set.remove key t).0 ≡ Errno.ok)
        × ((set.remove key t).1 ≡ some oid)
        × Updates find key none t (set.remove key t).2
  pub remove_none :
      (key : ℕ) (t : S) → find key t ≡ none → set.remove key t ≡ (Errno.data_key_not_found, none, t)

true_not_false : true ≢ false
true_not_false e = cc

module _ {S : Type 0} (set : SortedSet S) (find : Find S) (hash : ℕ → ℕ) where
  -- a name's entry is that of its hash
  abbrev pub find_name : Find S
  find_name name t = find (hash name) t

  Updates-find_name :
      (name : ℕ) (r : Option ℕ) (t t' : S)
      → ((m n : ℕ) → hash m ≡ hash n → m ≡ n)
      → Updates find (hash name) r t t'
      → Updates find_name name r t t'
  Updates-find_name name r t t' inj w = (w.0, λ m n. w.1 (hash m) (λ e. n (inj m name e)))

  create_fails :
      (allocated : Bool) (name oid : ℕ) (t : S)
      → IsMap set find
      → (allocated ≡ false) ⊎ (find (hash name) t ≢ none)
      → (failed ((flat hash set).create allocated name oid t).0 ≡ true)
        × (((flat hash set).create allocated name oid t).1 ≡ t)
  unfolding flat
  create_fails false name oid t laws h = (refl, refl)
  create_fails true name oid t laws (inl e) = absurd (true_not_false e)
  create_fails true name oid t laws (inr n) = rw (laws.insert_old (hash name) oid t n) (refl, refl)

  unlink_fails :
      (allocated : Bool) (name : ℕ) (t : S)
      → IsMap set find
      → (allocated ≡ false) ⊎ (find (hash name) t ≡ none)
      → (failed ((flat hash set).unlink allocated name t).0 ≡ true)
        × (((flat hash set).unlink allocated name t).2 ≡ t)
  unfolding flat
  unlink_fails false name t laws h = (refl, refl)
  unlink_fails true name t laws (inl e) = absurd (true_not_false e)
  unlink_fails true name t laws (inr n) = rw (laws.remove_none (hash name) t n) (refl, refl)

  -- Over a set that is a map at once, and where no two names have the same hash, the flat plugin is
  -- lawful.
  pub flat-IsLawful :
      IsMap set find → ((m n : ℕ) → hash m ≡ hash n → m ≡ n) → IsLawful (flat hash set) find_name
  unfolding flat
  flat-IsLawful laws inj = record {
    lookup_some = λ name oid t h. rw (laws.get_some (hash name) oid t h) refl;
    lookup_none = λ name t h. rw (laws.get_none (hash name) t h) refl;
    create_new = λ name oid t h.
        let law = laws.insert_new (hash name) oid t h in
        (
          ap insert_code law.0,
          Updates-find_name name (some oid) t (set.insert (hash name) oid t).1 inj law.1,
        );
    create_other = λ allocated name oid t h. create_fails allocated name oid t laws h;
    unlink_old = λ name oid t h.
        let law = laws.remove_some (hash name) oid t h in
        (
          ap find_code law.0,
          law.1,
          Updates-find_name name none t (set.remove (hash name) t).2 inj law.2,
        );
    unlink_other = λ allocated name t h. unlink_fails allocated name t laws h;
  }
