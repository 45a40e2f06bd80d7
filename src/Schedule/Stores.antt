-- ===== src/Schedule/Stores.antt =====
-- The objects' cells through the phases of `__sched_txn_task_exec`, from idle to published.
use raleigh_fs.Common.{
  ℕ, ◌+◌, none, some, Option-cases, List, [], ◌∷◌, ◌==◌, ◌≡◌, ap, ◌∙◌, inl, inr, arith, Bool-cases,
}
use raleigh_fs.Rwcsem.{Op, lock_flag, write_flag}
use raleigh_fs.Object.{ObjectPlug}
use raleigh_fs.Transaction.{Group, object_group}
use raleigh_fs.Transaction.View.{View}
use raleigh_fs.Schedule.{Managed, CommitType, Scene, flagged, released}
use raleigh_fs.Schedule.Barrier.{Involves}
use raleigh_fs.Schedule.Phases.{DistinctObjects, update_all, update_all_lem, settle_all, atoms_in}

object_group-object :
    (b : ℕ) (gs : List Group) (g : Group) → object_group b gs ≡ some g → g.object ≡ b
unfolding object_group
object_group-object b [] g e = cc
object_group-object b (h ∷ gs) g e = ground (arith, object_group-object b gs g)

pub Involves-object_group :
    (b : ℕ) (gs : List Group) → Involves b gs → (g : Group) × (object_group b gs ≡ some g)
unfolding object_group
Involves-object_group b [] m = absurd m
Involves-object_group b (g ∷ gs) (inl e) = (g, ground arith)
Involves-object_group b (g ∷ gs) (inr m) = elim (Bool-cases (g.object == b)) [
  | inl e ↦ (g, rw (e, object_group))
  | inr e ↦ let (h, k) = Involves-object_group b gs m in (h, rw (e, object_group) k)
]

-- What a transaction of kind `type` makes of an object's cell: its atoms applied or reverted in
-- the order of their addition, one commit, and no trace of the transaction.
abbrev pub published :
    {S : Type 0}
    → (ℕ → ObjectPlug S)
    → (ℕ → S → S)
    → CommitType
    → List Group
    → View
    → ℕ
    → Managed S
    → Managed S
published plug c type gs v b o = elim (object_group b gs) [
  | none ↦ o
  | some g ↦ record {
    pending_txn_id = 0;
    word = 0;
    state = c b (settle_all plug type b (atoms_in b v) o.state);
  }
]

-- No transaction has the object, and nobody is inside.
abbrev pub Idle : {S : Type 0} → Managed S → Type 0
Idle o = (o.pending_txn_id ≡ 0) × (o.word ≡ 0)

-- the store after each phase
abbrev pub marked : {S : Type 0} → ℕ → List Group → (ℕ → Managed S) → ℕ → Managed S
marked id gs = update_all (λ g o. record o { pending_txn_id = id; word = flagged o.word }) gs

abbrev pub locked : {S : Type 0} → List Group → (ℕ → Managed S) → ℕ → Managed S
locked gs = update_all (λ g o. record o { word = lock_flag + write_flag }) gs

abbrev pub written :
    {S : Type 0}
    → (ℕ → ObjectPlug S)
    → CommitType
    → View
    → List Group
    → (ℕ → Managed S)
    → ℕ
    → Managed S
written plug type v gs =
    update_all
      (λ g o. record o { state = settle_all plug type g.object (atoms_in g.object v) o.state }) gs

abbrev pub committed_store :
    {S : Type 0} → (ℕ → S → S) → List Group → (ℕ → Managed S) → ℕ → Managed S
committed_store c gs = update_all (λ g o. record o { state = c g.object o.state }) gs

abbrev pub unlocked : {S : Type 0} → List Group → (ℕ → Managed S) → ℕ → Managed S
unlocked gs = update_all (λ g o. record o { pending_txn_id = 0; word = released Op.lock o.word }) gs

module _ {S : Type 0} where
  pub update_all_at :
      (f : Group → Managed S → Managed S) (gs : List Group) (store : ℕ → Managed S) (b : ℕ)
      (g : Group)
      → DistinctObjects gs
      → object_group b gs ≡ some g
      → update_all f gs store b ≡ f g (store b)
  update_all_at f gs store b g d e = update_all_lem f gs store b d ∙ rw e

  pub update_all_off :
      (f : Group → Managed S → Managed S) (gs : List Group) (store : ℕ → Managed S) (b : ℕ)
      → DistinctObjects gs
      → object_group b gs ≡ none
      → update_all f gs store b ≡ store b
  update_all_off f gs store b d e = update_all_lem f gs store b d ∙ rw e

  -- what an idle object's cell is after the barrier
  pub marked_cell :
      (s : Scene S) (b : ℕ)
      → DistinctObjects s.txn.objects
      → ((b' : ℕ) → Involves b' s.txn.objects → Idle (s.store b'))
      → Involves b s.txn.objects
      → ((marked s.txn.txn_id s.txn.objects s.store b).pending_txn_id ≡ s.txn.txn_id)
        × ((marked s.txn.txn_id s.txn.objects s.store b).word ≡ lock_flag)
  unfolding flagged
  marked_cell s b d i m =
      let (g, e) = Involves-object_group b s.txn.objects m in
      let mark : Managed S → Managed S =
        λ o. record o { pending_txn_id = s.txn.txn_id; word = flagged o.word } in
      let at : marked s.txn.txn_id s.txn.objects s.store b ≡ mark (s.store b) =
        update_all_at _ s.txn.objects s.store b g d e in
      (
        ap (λ (o : Managed S). o.pending_txn_id) at,
        ap (λ (o : Managed S). o.word) at ∙ rw (i b m).1,
      )

  pub locked_cell :
      (gs : List Group) (store : ℕ → Managed S) (b : ℕ)
      → DistinctObjects gs
      → Involves b gs
      → (locked gs store b).pending_txn_id ≡ (store b).pending_txn_id
  locked_cell gs store b d m =
      let (g, e) = Involves-object_group b gs m in
      ap (λ (o : Managed S). o.pending_txn_id) (update_all_at _ gs store b g d e)

module _ {S : Type 0} (plug : ℕ → ObjectPlug S) (c : ℕ → S → S) where
  -- the store at the end, object by object
  abbrev pub final : CommitType → View → Scene S → ℕ → Managed S
  final type v s =
      let gs = s.txn.objects in
      unlocked gs
        (committed_store c gs (written plug type v gs (locked gs (marked s.txn.txn_id gs s.store))))

  final_at :
      (type : CommitType) (v : View) (s : Scene S) (b : ℕ) (g : Group)
      → DistinctObjects s.txn.objects
      → object_group b s.txn.objects ≡ some g
      → final type v s b ≡ record {
        pending_txn_id = 0;
        word = 0;
        state = c b (settle_all plug type b (atoms_in b v) (s.store b).state);
      }
  unfolding released
  final_at type v s b g d e =
      let gs = s.txn.objects in
      let run : Managed S → S = λ o. settle_all plug type g.object (atoms_in g.object v) o.state in
      let unlock : Managed S → Managed S =
        λ o. record o { pending_txn_id = 0; word = released Op.lock o.word } in
      let publish : Managed S → Managed S = λ o. record o { state = c g.object o.state } in
      let settling : Managed S → Managed S = λ o. record o { state = run o } in
      let take : Managed S → Managed S = λ o. record o { word = lock_flag + write_flag } in
      update_all_at _ gs _ b g d e
      ∙ ap unlock (
          update_all_at _ gs _ b g d e
          ∙ ap publish (
              update_all_at _ gs _ b g d e
              ∙ ap settling
                  (update_all_at _ gs _ b g d e ∙ ap take (update_all_at _ gs s.store b g d e))))
      ∙ rw (object_group-object b gs g e)

  final_off :
      (type : CommitType) (v : View) (s : Scene S) (b : ℕ)
      → DistinctObjects s.txn.objects
      → object_group b s.txn.objects ≡ none
      → final type v s b ≡ s.store b
  final_off type v s b d e =
      let gs = s.txn.objects in
      update_all_off _ gs _ b d e
      ∙ (update_all_off _ gs _ b d e
          ∙ (update_all_off _ gs _ b d e
              ∙ (update_all_off _ gs _ b d e ∙ update_all_off _ gs s.store b d e)))

  pub final_lem :
      (type : CommitType) (v : View) (s : Scene S) (b : ℕ)
      → DistinctObjects s.txn.objects
      → final type v s b ≡ published plug c type s.txn.objects v b (s.store b)
  final_lem type v s b d = elim (Option-cases (object_group b s.txn.objects)) [
    | inl e ↦ final_off type v s b d e ∙ rw (e, published)
    | inr (g, e) ↦ final_at type v s b g d e ∙ rw (e, published)
  ]
