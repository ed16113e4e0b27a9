-- ===== src/Kernel/Evolution.antt =====
-- How the requests of walter/orchestration.py that work on the existing tasks of a run may change
-- them, as a relation between the tasks before and after, indexed by the moves that are allowed.
pub mod Moves
pub mod Slots
pub mod Order
pub mod Frames
pub mod Amending
pub mod Entering
pub mod Replanning
pub mod Refreshing
pub mod Completing
pub mod Assigning
pub mod Reviewing
pub mod Recovering
pub mod Binding
use walter.Prelude.{
  ℕ, ◌+◌, ◌≤◌, String, ◌≡◌, refl, ◌∙◌, sym, ap, subst, Bool, true, false, ◌&&◌, not, ◌==◌, eq_iff,
  Option, none, some, List, [], ◌∷◌, ◌++◌, arith, length, Bool-cases, inl, inr, append_assoc,
  append-nil,
}
use walter.Prelude.Dict.{Dict, lookup, insert, lookup-insert, insert-insert}
use walter.Models.{
  Run, TaskStatus, TaskPacket, CapabilityProfile, TaskNode, WorkerAssignment, WorkerResult,
}
use walter.Kernel.Monad.{Ctx, Op, Result, ok, and_then, ◌>>=◌}
use walter.Kernel.Transitions.{transitions}
use walter.Kernel.Operator.{is_in_flight}

-- From which status to which a request may move a task.
abbrev pub MoveTable : Type 0
MoveTable = TaskStatus → TaskStatus → Bool

-- Any number of transitions, each legal and one of the table.
pub data Reach (moves : MoveTable) (from : TaskStatus) : TaskStatus → Type 0 where
  here : Reach moves from from
  next :
      {by to : TaskStatus}
      → Reach moves from by
      → transitions by to ≡ true
      → moves by to ≡ true
      → Reach moves from to

pub Reach-trans :
    {moves : MoveTable} {a b c : TaskStatus} → Reach moves a b → Reach moves b c → Reach moves a c
Reach-trans r here = r
Reach-trans r (next s legal e) = next (Reach-trans r s) legal e

Reach-wider :
    {moves wider : MoveTable} {a b : TaskStatus}
    → ((x y : TaskStatus) → moves x y ≡ true → wider x y ≡ true)
    → Reach moves a b
    → Reach wider a b
Reach-wider w here = here
Reach-wider w (next r legal e) = next (Reach-wider w r) legal (w _ _ e)

-- The fields of a task that say what it is.
abbrev pub identity : TaskNode → TaskPacket × CapabilityProfile × List String × Bool × Bool
identity t = (t.packet, t.capability, t.required_checks, t.review_required, t.high_risk)

-- The limits of a task, and where the current plan revision started to count.
abbrev pub limits : TaskNode → ℕ × ℕ × ℕ × ℕ
limits t = (t.max_attempts, t.max_revisions, t.attempt_baseline, t.revision_baseline)

-- The attempts and the revisions stay within the budgets.
abbrev pub IsWithin : TaskNode → Type 0
IsWithin t =
    (t.attempts ≤ t.max_attempts + t.attempt_baseline)
    × (t.revisions ≤ t.max_revisions + t.revision_baseline)

abbrev pub is_assigned_to_someone : Option WorkerAssignment → Bool
is_assigned_to_someone none = false
is_assigned_to_someone (some a) = true

-- Work in flight has a worker.
abbrev pub IsHeld : TaskNode → Type 0
IsHeld t = (is_in_flight t.status && not (is_assigned_to_someone t.assignment)) ≡ false

pub record Evolves (moves : MoveTable) (t t' : TaskNode) : Type 0 where
  pub moved : Reach moves t.status t'.status
  pub same_identity : identity t' ≡ identity t
  pub same_limits : limits t' ≡ limits t
  pub within : IsWithin t → IsWithin t'
  pub held : IsHeld t → IsHeld t'
  pub counted :
      t'.attempts + length t.assignment_history ≡ t.attempts + length t'.assignment_history
  pub more_history :
      (added : List WorkerAssignment) × (t'.assignment_history ≡ t.assignment_history ++ added)
  pub more_artifacts : (added : List String) × (t'.artifact_ids ≡ t.artifact_ids ++ added)

pub Evolves-refl : {moves : MoveTable} (t : TaskNode) → Evolves moves t t
Evolves-refl t = record {
  moved = Reach.here;
  same_identity = refl;
  same_limits = refl;
  within = λ h. h;
  held = λ h. h;
  counted = refl;
  more_history = ([], sym (append-nil _));
  more_artifacts = ([], sym (append-nil _));
}

longer {ℓ} :
    {A : Type ℓ} (xs : List A) {ys zs : List A}
    → (added : List A) × (ys ≡ xs ++ added)
    → (added : List A) × (zs ≡ ys ++ added)
    → (added : List A) × (zs ≡ xs ++ added)
longer xs (us, p) (vs, q) = (us ++ vs, q ∙ ap (λ l. l ++ vs) p ∙ append_assoc xs us vs)

pub Evolves-trans :
    {moves : MoveTable} {t u v : TaskNode}
    → Evolves moves t u
    → Evolves moves u v
    → Evolves moves t v
Evolves-trans a b = record {
  moved = Reach-trans a.moved b.moved;
  same_identity = b.same_identity ∙ a.same_identity;
  same_limits = b.same_limits ∙ a.same_limits;
  within = λ h. b.within (a.within h);
  held = λ h. b.held (a.held h);
  counted = omega (arith, a.counted, b.counted);
  more_history = longer _ a.more_history b.more_history;
  more_artifacts = longer _ a.more_artifacts b.more_artifacts;
}

pub Evolves-wider :
    {moves wider : MoveTable} {t t' : TaskNode}
    → ((x y : TaskStatus) → moves x y ≡ true → wider x y ≡ true)
    → Evolves moves t t'
    → Evolves wider t t'
Evolves-wider w ev = record {
  moved = Reach-wider w ev.moved;
  same_identity = ev.same_identity;
  same_limits = ev.same_limits;
  within = ev.within;
  held = ev.held;
  counted = ev.counted;
  more_history = ev.more_history;
  more_artifacts = ev.more_artifacts;
}

-- What a request leaves alone unless it delegates.
abbrev pub work : TaskNode → Option WorkerAssignment × List WorkerAssignment × ℕ × (ℕ × ℕ × ℕ × ℕ)
work t = (t.assignment, t.assignment_history, t.attempts, limits t)

abbrev pub is_delegated : TaskStatus → Bool
is_delegated TaskStatus.delegated = true
is_delegated _ = false

-- Only a delegation puts work in flight.
in_flight_before :
    (a b : TaskStatus)
    → transitions a b ≡ true
    → is_delegated b ≡ false
    → is_in_flight b ≡ true
    → is_in_flight a ≡ true
unfolding transitions
in_flight_before a b legal other h = ground arith

pub IsHeld-along :
    (t t' : TaskNode)
    → transitions t.status t'.status ≡ true
    → is_delegated t'.status ≡ false
    → t'.assignment ≡ t.assignment
    → IsHeld t
    → IsHeld t'
IsHeld-along t t' legal other same h = elim (Bool-cases (is_in_flight t'.status)) [
  | inl flying ↦ ground (arith, in_flight_before t.status t'.status legal other flying)
  | inr landed ↦ rw landed
]

-- One legal transition that delegates nothing.
pub Evolves-moved :
    {moves : MoveTable} (t t' : TaskNode)
    → transitions t.status t'.status ≡ true
    → moves t.status t'.status ≡ true
    → is_delegated t'.status ≡ false
    → identity t' ≡ identity t
    → work t' ≡ work t
    → (IsWithin t → IsWithin t')
    → (added : List String) × (t'.artifact_ids ≡ t.artifact_ids ++ added)
    → Evolves moves t t'
Evolves-moved t t' legal listed other same untouched within artifacts = record {
  moved = Reach.next Reach.here legal listed;
  same_identity = same;
  same_limits = ap (λ w. w.3) untouched;
  within = within;
  held = IsHeld-along t t' legal other (ap (λ w. w.0) untouched);
  counted = cc;
  more_history = ([], ap (λ w. w.1) untouched ∙ sym (append-nil _));
  more_artifacts = artifacts;
}

-- The status, the blocker and the result change, and nothing else.
pub Evolves-restated :
    {moves : MoveTable} (t : TaskNode) (s : TaskStatus) (blocker : Option String)
    → transitions t.status s ≡ true
    → moves t.status s ≡ true
    → is_delegated s ≡ false
    → Evolves moves t (record t { status = s; blocker = blocker })
Evolves-restated t s blocker legal listed other =
    Evolves-moved t (record t { status = s; blocker = blocker }) legal listed other refl refl
      (λ h. h) ([], sym (append-nil _))

-- The status stays, and so does all that counts.
pub Evolves-noted :
    {moves : MoveTable} (t : TaskNode) (result : Option WorkerResult)
    (blocker workspace_id : Option String)
    → Evolves moves t (record t { result = result; blocker = blocker; workspace_id = workspace_id })
Evolves-noted t result blocker workspace_id = record {
  moved = Reach.here;
  same_identity = refl;
  same_limits = refl;
  within = λ h. h;
  held = λ h. h;
  counted = refl;
  more_history = ([], sym (append-nil _));
  more_artifacts = ([], sym (append-nil _));
}
