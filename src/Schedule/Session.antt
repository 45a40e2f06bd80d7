-- ===== src/Schedule/Session.antt =====
-- A transaction from its first atom to its end: `raleighsl_transaction_alloc`, calls of
-- `raleighsl_transaction_add`, and the task of its commit or rollback.
use raleigh_fs.Common.{
  ℕ, ◌<◌, true, some, List, [], ◌∷◌, length, All, All-zip, if◌then◌else◌, ◌≡◌, refl, sym, ap, ◌∙◌,
  inl, inr, arith, Bool-cases,
}
use raleigh_fs.Errno.{Errno}
use raleigh_fs.Rwcsem.{commit_flag}
use raleigh_fs.Object.{ObjectPlug}
use raleigh_fs.Transaction.{Links, Group, Transaction, TxnState, alloc}
use raleigh_fs.Transaction.Chain.{Distinct}
use raleigh_fs.Transaction.View.{View, FreshIn, Represents, view_add}
use raleigh_fs.Transaction.Add.{Holds, add-Holds, FreshIn-view_add}
use raleigh_fs.Schedule.{Managed, CommitType, new_task, Scene, Run, effective_type, verdict, exec}
use raleigh_fs.Schedule.Phases.{settle_all, atoms_in}
use raleigh_fs.Schedule.Stores.{published, Idle}
use raleigh_fs.Schedule.Commit.{exec_lem}
use raleigh_fs.Schedule.Table.{
  add_all, atoms_for, touches, atoms_of, view_all, has_entry, atoms_in-view_all, has_entry-view_all,
  total-view_all, FuelFor-total, DistinctKeys-view_all, Represents-none, Represents-some,
  DistinctObjects-keys, Involves-has_entry,
}

add_all-Holds :
    (now : ℕ) (calls : List (ℕ × ℕ)) (txn : Transaction) (links : Links) (v : View)
    → Holds links txn v
    → Distinct (atoms_of calls)
    → All (λ a. FreshIn a v) (atoms_of calls)
    → let (txn', links') = add_all now calls txn links in
      Holds links' txn' (view_all calls v) × (txn'.txn_id ≡ txn.txn_id) × (txn'.state ≡ txn.state)
unfolding add_all view_all
add_all-Holds now [] txn links v h d f = (h, refl, refl)
add_all-Holds now ((object, atom) ∷ calls) txn links v h d f =
    let (ok, held, id, state) = add-Holds now txn object atom links v h f.0 in
    let (held', id', state') = add_all-Holds now calls _ _ (view_add object atom v) held d.1 (
      All-zip (λ a n g. FreshIn-view_add a object atom v (λ e. n (sym e)) g) (atoms_of calls) d.0
        f.1) in
    (held', id' ∙ id, state' ∙ state)

alloc-Holds : (id now : ℕ) (links : Links) → Holds links (alloc id now) []
unfolding alloc
alloc-Holds id now links = record { represents = tt; distinct = tt }

-- What becomes of a cell: the object's atoms in the order of the calls, and one commit.
abbrev pub outcome :
    {S : Type 0}
    → (ℕ → ObjectPlug S)
    → (ℕ → S → S)
    → CommitType
    → List (ℕ × ℕ)
    → ℕ
    → Managed S
    → Managed S
outcome plug c type calls b o =
    if touches b calls
    then record {
      pending_txn_id = 0;
      word = 0;
      state = c b (settle_all plug type b (atoms_for b calls) o.state);
    }
    else o

-- the state that a transaction ends in
abbrev pub end_state : CommitType → TxnState
end_state CommitType.to_apply = TxnState.committed
end_state CommitType.to_revert = TxnState.rolledback

open_verdict :
    (type : CommitType) (id now : ℕ) (st : TxnState)
    → st ≡ (alloc id now).state
    → (effective_type type st ≡ type)
      × (verdict Errno.ok (effective_type type st) st ≡ (Errno.ok, end_state type))
unfolding effective_type verdict alloc
open_verdict CommitType.to_apply id now st e = rw (e, effective_type, verdict) (refl, refl)
open_verdict CommitType.to_revert id now st e = (refl, refl)

All-fresh : (xs : List ℕ) → All (λ a. FreshIn a []) xs
All-fresh [] = tt
All-fresh (x ∷ xs) = (tt, All-fresh xs)

touched :
    (b : ℕ) (calls : List (ℕ × ℕ)) → has_entry b (view_all calls []) ≡ true → touches b calls ≡ true
unfolding has_entry
touched b calls h = ground (arith, has_entry-view_all b calls [])

module _ {S : Type 0} (plug : ℕ → ObjectPlug S) (c : ℕ → S → S) where
  published-outcome :
      (type : CommitType) (calls : List (ℕ × ℕ)) (links : Links) (gs : List Group) (b : ℕ)
      (o : Managed S)
      → Represents links gs (view_all calls [])
      → published plug c type gs (view_all calls []) b o ≡ outcome plug c type calls b o
  unfolding has_entry atoms_in
  published-outcome type calls links gs b o r =
      let entry = has_entry-view_all b calls [] in
      elim (Bool-cases (touches b calls)) [
        | inl e ↦
            let (g, found) = Represents-some links b gs (view_all calls []) r (entry ∙ rw e) in
            rw (found, published, e, atoms_in-view_all b calls [])
        | inr e ↦ rw (Represents-none links b gs (view_all calls []) r (entry ∙ rw e), published, e)
      ]

  -- A transaction that is created, given any number of atoms on any objects, in any order, and then
  -- committed or rolled back while its objects are idle, is done in one run of its task, reports
  -- success, and leaves every object with the effect of exactly its own atoms, in the order in
  -- which they were given, and one commit. No other object changes. No atom may be given twice, and
  -- the plugins' commit does not fail.
  pub exec_session :
      (type : CommitType) (id now fuel : ℕ) (calls : List (ℕ × ℕ)) (links : Links)
      (store : ℕ → Managed S)
      → ((object : ℕ) (x : S) → (plug object).commit x ≡ some (Errno.ok, c object x))
      → Distinct (atoms_of calls)
      → length calls < fuel
      → ((b : ℕ) → touches b calls ≡ true → Idle (store b))
      → let (txn, links') = add_all now calls (alloc id now) links in
        let scene : Scene S = record { store = store; semaphore = commit_flag; txn = txn } in
        (s' : Scene S) × (exec plug links' fuel (new_task type) scene
          ≡ some (Run.finished Errno.ok s'))
        × (s'.txn.state ≡ end_state type)
        × (s'.semaphore ≡ 0)
        × ((b : ℕ) → s'.store b ≡ outcome plug c type calls b (store b))
  exec_session type id now fuel calls links store h d f i =
      let (txn, links') = add_all now calls (alloc id now) links in
      let v = view_all calls [] in
      let (held, same_id, same_state) =
        add_all-Holds now calls (alloc id now) links [] (alloc-Holds id now links) d
          (All-fresh (atoms_of calls)) in
      let scene : Scene S = record { store = store; semaphore = commit_flag; txn = txn } in
      let keys = DistinctKeys-view_all calls [] tt in
      let (s', ran, ended, free, cells) =
        exec_lem plug links' fuel c type scene v h held.represents
          (FuelFor-total fuel v (omega (arith, total-view_all calls [])))
          (DistinctObjects-keys links' txn.objects v held.represents keys)
          (λ b m.
            i b (touched b calls (Involves-has_entry links' b txn.objects v held.represents m)))
          refl in
      let (kind, codes) = open_verdict type id now txn.state same_state in
      (
        s',
        ran ∙ ap (λ (k : Errno × TxnState). some (Run.finished k.0 s')) codes,
        ap (λ (t : Transaction). t.state) ended ∙ ap (λ (k : Errno × TxnState). k.1) codes,
        free,
        λ b.
            cells b
            ∙ (ap (λ k. published plug c k txn.objects v b (store b)) kind
                ∙ published-outcome type calls links' txn.objects b (store b) held.represents),
      )
