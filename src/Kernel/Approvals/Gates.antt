-- ===== src/Kernel/Approvals/Gates.antt =====
-- `gate_task`, `recover_legacy_approval_gate` and `decide_approval` of walter/orchestration.py.
use walter.Models.BlockerReason
use walter.Prelude.{
  String, Bool, true, false, not, ◌&&◌, ◌||◌, Option, none, some, List, [], ◌∷◌, ◌++◌, ◌<>◌, ◌==◌,
  ◌=ℕ=◌, elem, is_empty, is_nonempty, is_given, opt_eq, join, if◌then◌else◌,
}
use walter.Prelude.Dict.{lookup, insert, keys, contains}
use walter.Models.{
  Run, TaskNode, TaskStatus, ApprovalGate, ApprovalRequest, ApprovalDecision, ApprovalStatus,
  EventData, Fields, is_ready, is_blocked, is_unstarted, is_developer, is_approved, is_pending,
  is_rejected, is_superseded,
}
use walter.Kernel.Monad.{
  Error, Result, ok, bind, refuse, or_raise, Op, ◌>>=◌, ◌>>◌, pure, gets, reads, raise_if, modify,
  put_task, task_at, emit,
}
use walter.Kernel.Transitions.{transition}
use walter.Kernel.Readiness.{refresh}
use walter.Kernel.Authority.{Orchestrator}
use walter.Kernel.Approvals.{is_exact, put_approval, is_bound}

-- `run.approvals.get(approval_id)`, current and exactly for this action and scope.
abbrev pub current_request :
    Orchestrator
    → (approval_id action : String) → Fields
    → (message : String) → Run
    → Result ApprovalRequest
current_request o approval_id action scope message run =
    bind (or_raise (lookup approval_id run.approvals) (Error.gate_error message)) λ request.
      bind
        (refuse (is_superseded request.status || not (is_exact o request action scope))
          (Error.gate_error message))
        λ _. ok request

abbrev pub exact_gate : Orchestrator → (approval_id action : String) → Fields → ApprovalGate
exact_gate o approval_id action scope = record {
  request_id = approval_id;
  action = action;
  scope_json = o.dumps scope;
  scope_digest = o.sha256 (o.dumps scope);
}

-- The blocker of a task whose gate is not approved.
abbrev pub unapproved_blocker : ApprovalStatus → String
unapproved_blocker status =
    if is_rejected status then BlockerReason.approval_rejected else BlockerReason.approval_pending

-- The blocker of a task whose gate is approved, which `_refresh` evaluates again.
abbrev pub approved_blocker : TaskNode → String
approved_blocker task =
    if is_developer task.capability && not (is_given task.workspace_id)
    then BlockerReason.capability_prerequisites_missing
    else BlockerReason.approval_prerequisites_satisfied

-- A READY task stops being so behind a gate that is not approved.
unfoldable pub hold_back : (key : String) → TaskNode → ApprovalStatus → Op (Unit {0})
unfolding transition
hold_back key task status =
    if is_ready task.status && not (is_approved status)
    then (do
      moved ← transition key task TaskStatus.blocked BlockerReason.approval_pending
      put_task key (record moved { blocker = some (unapproved_blocker status) }))
    else pure tt

unfoldable pub gate_task :
    Orchestrator → (task_id approval_id action : String) → Fields → Op (Unit {0})
gate_task o task_id approval_id action scope = do
  task ← reads (task_at task_id)
  raise_if (not (is_unstarted task.status) || not (task.attempts =ℕ= 0))
      (Error.gate_error "Approval gates must be attached before delegation")
  request ←
      reads (
        current_request o approval_id action scope
          "Task gate must match the exact approval request")
  raise_if (is_bound approval_id task) (Error.gate_error "Approval gate already attached")
  let gate = exact_gate o approval_id action scope
  let bound = record task { approval_gates = task.approval_gates ++ gate ∷ [] }
  put_task task_id bound
  hold_back task_id bound request.status
  emit "task.approval_gated" (EventData.gated task_id none gate)
  refresh

-- `task.approval_ids.remove(id)`
abbrev pub remove_first : String → List String → List String
remove_first id [] = []
remove_first id (x ∷ xs) = if x == id then xs else x ∷ remove_first id xs

-- The blocker behind the re-gating, `remaining` being the bare identifiers left.
abbrev pub regated_blocker : TaskNode → ApprovalStatus → (remaining : List String) → String
regated_blocker task status remaining =
    if not (is_empty remaining)
    then BlockerReason.legacy_approval_regate <> ": " <> join ", " remaining
    else if is_approved status
    then approved_blocker task
    else unapproved_blocker status

unfoldable pub recover_legacy_approval_gate :
    Orchestrator → (task_id legacy_id approval_id action : String) → Fields → Op (Unit {0})
unfolding join
recover_legacy_approval_gate o task_id legacy_id approval_id action scope = do
  task ← reads (task_at task_id)
  raise_if (not (elem legacy_id task.approval_ids) || not (is_unstarted task.status))
      (Error.gate_error "Task has no recoverable legacy approval gate in a safe state")
  request ← reads (
      current_request o approval_id action scope
        "Recovery gate must match the exact approval request")
  raise_if (is_bound approval_id task) (Error.gate_error "Approval gate already attached")
  let gate = exact_gate o approval_id action scope
  let remaining = remove_first legacy_id task.approval_ids
  put_task task_id (record task {
    approval_gates = task.approval_gates ++ gate ∷ [];
    approval_ids = remaining;
    blocker = some (regated_blocker task request.status remaining);
  })
  emit "task.legacy_approval_gate_recovered" (EventData.gated task_id (some legacy_id) gate)
  refresh

-- What a decision does to the blocker of a task that it gates.
abbrev pub decided_blocker : (approved : Bool) → TaskNode → Option String
decided_blocker true task =
    if is_blocked task.status && opt_eq task.blocker (some BlockerReason.approval_pending)
    then some (approved_blocker task)
    else task.blocker
decided_blocker false task = some BlockerReason.approval_rejected

unfoldable pub notify_task :
    (approval_id : String) → (approved : Bool) → (key : String) → Op (Unit {0})
notify_task approval_id approved key = do
  task ← reads (task_at key)
  (if is_bound approval_id task
      then put_task key (record task { blocker = decided_blocker approved task })
      else pure tt)

unfoldable pub notify_tasks :
    (approval_id : String) → (approved : Bool) → List String → Op (Unit {0})
notify_tasks approval_id approved [] = pure tt
notify_tasks approval_id approved (key ∷ slots) =
    notify_task approval_id approved key >> notify_tasks approval_id approved slots

-- The part of `decide_approval` before its refresh.
unfoldable pub record_decision :
    (approval_id : String) → (approved : Bool) → (human_id reason : String) → Op ApprovalDecision
record_decision approval_id approved human_id reason = do
  request ← reads (λ run.
      or_raise (lookup approval_id run.approvals)
        (Error.gate_error "Approval missing or already decided"))
  decided ← gets (λ run. contains approval_id run.approval_decisions)
  raise_if (not (is_pending request.status) || decided)
      (Error.gate_error "Approval missing or already decided")
  raise_if (not (is_nonempty human_id) || not (is_nonempty reason)) Error.validation_error
  let status = if approved then ApprovalStatus.approved else ApprovalStatus.rejected
  let decision : ApprovalDecision = record {
    request_id = approval_id;
    approved = approved;
    human_id = human_id;
    reason = reason;
    status = status;
  }
  modify (λ run. record run {
    approval_decisions = insert approval_id decision run.approval_decisions;
  })
  put_approval approval_id (record request { status = status })
  emit (if approved then "approval.granted" else "approval.rejected") (EventData.decided decision)
  pure decision

unfoldable pub decide_approval :
    (approval_id : String) → (approved : Bool) → (human_id reason : String) → Op ApprovalDecision
decide_approval approval_id approved human_id reason = do
  decision ← record_decision approval_id approved human_id reason
  slots ← gets (λ run. keys run.tasks)
  notify_tasks approval_id approved slots
  refresh
  pure decision
