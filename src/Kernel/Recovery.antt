-- ===== src/Kernel/Recovery.antt =====
-- `_fail`, `fail`, `fail_assignment` and `recover` of walter/orchestration.py.
use walter.Prelude.{
  ◌+◌, String, Bool, not, ◌||◌, Option, none, some, List, [], ◌∷◌, ◌++◌, ◌==◌, leb, any,
  is_nonempty, last?, if◌then◌else◌,
}
use walter.Models.{
  Run, TaskStatus, FailureClass, ArtifactStatus, TaskNode, WorkerAssignment, WorkerFailure,
  RecoveryDecision, EventData, is_failed,
}
use walter.Models.BlockerReason
use walter.Kernel.Monad.{
  Error, Result, or_raise, Op, ◌>>=◌, ◌>>◌, pure, gets, reads, raise_if, modify, put_task,
  put_artifact, task_at, artifact_at, emit,
}
use walter.Kernel.Readiness.{is_ready_task}
use walter.Kernel.Transitions.{transition}
use walter.Kernel.Authority.{Orchestrator}
use walter.Kernel.Assignment.{attempts_exhausted, holds_assignment}

abbrev pub add_failure : WorkerFailure → Op (Unit {0})
add_failure failure = modify (λ run. record run { failures = run.failures ++ failure ∷ [] })

-- `if task.assignment: self._event(run, events, "assignment.failed", ...)`
abbrev pub emit_assignment_failed :
    Option WorkerAssignment → (task_id reason : String) → Op (Unit {0})
emit_assignment_failed none task_id reason = pure tt
emit_assignment_failed (some assignment) task_id reason = emit "assignment.failed" (
    EventData.fields (
      ("assignment_id", some assignment.id)
      ∷ ("task_id", some task_id)
      ∷ ("reason", some reason)
      ∷ []))

abbrev pub failure_of : TaskNode → FailureClass → (evidence new_id : String) → WorkerFailure
failure_of task classification evidence new_id = record {
  id = new_id;
  task_id = task.packet.task_id;
  classification = classification;
  evidence = evidence;
}

-- `_fail`, for the object in slot `key`.
unfoldable pub fail_task :
    (key : String) → TaskNode → FailureClass → (evidence new_id : String) → Op WorkerFailure
unfolding transition
fail_task key task classification evidence new_id = do
  raise_if (not (is_nonempty evidence)) Error.validation_error
  let failure = failure_of task classification evidence new_id
  moved ← transition key task TaskStatus.failed evidence
  put_task key (record moved { blocker = some evidence })
  add_failure failure
  emit "failure.classified" (EventData.failure failure)
  emit_assignment_failed task.assignment task.packet.task_id evidence
  pure failure

unfoldable pub fail :
    (task_id : String) → FailureClass → (evidence new_id : String) → Op WorkerFailure
unfolding fail_task
fail task_id classification evidence new_id = do
  task ← reads (task_at task_id)
  fail_task task_id task classification evidence new_id

unfoldable pub fail_assignment :
    (task_id assignment_id worker_id : String)
    → FailureClass
    → (evidence new_id : String) → Op WorkerFailure
unfolding fail_task
fail_assignment task_id assignment_id worker_id classification evidence new_id = do
  task ← reads (task_at task_id)
  raise_if (not (holds_assignment task.assignment assignment_id worker_id))
      (Error.gate_error "Failure does not match the current worker assignment")
  fail_task task_id task classification evidence new_id

pub data RecoveryAction : Type 0 where
  retry revise replace escalate replan : RecoveryAction

abbrev pub action_value : RecoveryAction → String
action_value RecoveryAction.retry = "RETRY"
action_value RecoveryAction.revise = "REVISE"
action_value RecoveryAction.replace = "REPLACE"
action_value RecoveryAction.escalate = "ESCALATE"
action_value RecoveryAction.replan = "REPLAN"

-- The first routing, by the failure's class.
unfoldable pub route : FailureClass → RecoveryAction
route FailureClass.provider_failure = RecoveryAction.retry
route FailureClass.timeout = RecoveryAction.retry
route FailureClass.stale_base = RecoveryAction.retry
route FailureClass.bad_output = RecoveryAction.revise
route FailureClass.missing_evidence = RecoveryAction.revise
route FailureClass.repeated_bad_output = RecoveryAction.replace
route FailureClass.constraint_violation = RecoveryAction.replace
route FailureClass.capability_unavailable = RecoveryAction.escalate
route FailureClass.unsupported_capability = RecoveryAction.escalate
route FailureClass.tool_failure = RecoveryAction.escalate
route _ = RecoveryAction.replan

-- `if action in {"RETRY", "REVISE"} and <attempts exhausted>: action = "REPLAN"`
unfoldable pub within_attempts : TaskNode → RecoveryAction → RecoveryAction
within_attempts task RecoveryAction.retry =
    if attempts_exhausted task then RecoveryAction.replan else RecoveryAction.retry
within_attempts task RecoveryAction.revise =
    if attempts_exhausted task then RecoveryAction.replan else RecoveryAction.revise
within_attempts task action = action

abbrev pub revisions_exhausted : TaskNode → Bool
revisions_exhausted task = leb (task.max_revisions + task.revision_baseline) task.revisions

-- `if action == "REVISE" and <revisions exhausted>: action = "REPLACE"`
unfoldable pub within_revisions : TaskNode → RecoveryAction → RecoveryAction
within_revisions task RecoveryAction.revise =
    if revisions_exhausted task then RecoveryAction.replace else RecoveryAction.revise
within_revisions task action = action

unfoldable pub recovery_action : FailureClass → TaskNode → RecoveryAction
unfolding route within_attempts within_revisions
recovery_action kind task = within_revisions task (within_attempts task (route kind))

-- The blocker of an escalated task. Only the three classes of the source's table are escalated.
abbrev pub escalation_blocker : FailureClass → Result String
escalation_blocker FailureClass.capability_unavailable =
    Result.ok BlockerReason.capability_escalation_pending
escalation_blocker FailureClass.unsupported_capability =
    Result.ok BlockerReason.unsupported_capability
escalation_blocker FailureClass.tool_failure = Result.ok BlockerReason.tool_failure
escalation_blocker _ = Result.err (Error.key_error "classification")

-- The branches of `recover`, for the object in slot `key`.
unfoldable pub route_task :
    RecoveryAction → (key : String) → TaskNode → WorkerFailure → (reason : String) → Op (Unit {0})
unfolding transition
route_task RecoveryAction.retry key task failure reason = do
  ready ← reads (λ run. is_ready_task run task)
  raise_if (not ready) (Error.gate_error "Retry gates unresolved")
  moved ← transition key task TaskStatus.ready reason
  put_task key (record moved { blocker = none })
  emit "retry.scheduled" (EventData.retry task.packet.task_id failure.id (task.attempts + 1))
route_task RecoveryAction.revise key task failure reason = do
  let counted = record task { revisions = task.revisions + 1 }
  moved ← transition key counted TaskStatus.revision_required reason
  put_task key (record moved { blocker = some failure.evidence })
route_task RecoveryAction.replace key task failure reason = do
  moved ← transition key task TaskStatus.replaced reason
  put_task key (record moved { blocker = some BlockerReason.worker_replacement_required })
  emit "worker.replaced" (
      EventData.fields (
        ("task_id", some task.packet.task_id)
        ∷ ("failure_id", some failure.id)
        ∷ ("worker_id", elim task.assignment [ none ↦ none | some a ↦ some a.worker_id ])
        ∷ []))
route_task RecoveryAction.escalate key task failure reason = do
  moved ← transition key task TaskStatus.blocked reason
  blocker ← reads (λ _. escalation_blocker failure.classification)
  put_task key (record moved { blocker = some blocker })
route_task RecoveryAction.replan key task failure reason = do
  moved ← transition key task TaskStatus.blocked reason
  put_task key (record moved { blocker = some BlockerReason.manager_replan_required })

-- `if task.artifact_ids: ...`: the last candidate is rejected.
unfoldable pub reject_candidate : Option String → (reason failure_id : String) → Op (Unit {0})
reject_candidate none reason failure_id = pure tt
reject_candidate (some id) reason failure_id = do
  rejected ← reads (artifact_at id)
  put_artifact id (record rejected { status = ArtifactStatus.rejected })
  emit "artifact.rejected" (
      EventData.fields (
        ("artifact_id", some rejected.id)
        ∷ ("reason", some reason)
        ∷ ("failure_id", some failure_id)
        ∷ []))

-- `next((f for f in run.failures if f.id == failure_id), None)`
abbrev pub find_failure : String → List WorkerFailure → Option WorkerFailure
find_failure id [] = none
find_failure id (f ∷ rest) = if f.id == id then some f else find_failure id rest

-- `any(r.failure_id == failure_id for r in run.recoveries)`
abbrev pub is_recovered : Run → String → Bool
is_recovered run failure_id =
    any (λ (r : RecoveryDecision). r.failure_id == failure_id) run.recoveries

abbrev pub recovery_decision :
    Orchestrator
    → RecoveryAction
    → (failure_id reason task_id new_id : String) → WorkerFailure
    → RecoveryDecision
recovery_decision o action failure_id reason task_id new_id failure = record {
  decision = record {
    id = new_id;
    action = action_value action;
    reason = reason;
    actor_id = o.manager_id;
    affected_ids = task_id ∷ [];
    evidence = failure.evidence ∷ [];
  };
  failure_id = failure_id;
}

-- The end of `recover`: the decision is built, and refused if its reason is empty, only here.
unfoldable pub record_recovery :
    Orchestrator
    → RecoveryAction
    → (failure_id reason task_id new_id : String) → WorkerFailure
    → Op RecoveryDecision
record_recovery o action failure_id reason task_id new_id failure = do
  raise_if (not (is_nonempty reason)) Error.validation_error
  let decided = recovery_decision o action failure_id reason task_id new_id failure
  modify (λ run. record run {
    recoveries = run.recoveries ++ decided ∷ [];
    decisions = run.decisions ++ decided.decision ∷ [];
  })
  emit "recovery.decided" (EventData.recovery decided)
  pure decided

-- `any(...) or task.status != TaskStatus.FAILED`
abbrev pub is_settled : String → TaskNode → Run → Bool
is_settled failure_id task run = is_recovered run failure_id || not (is_failed task.status)

unfoldable pub recover :
    Orchestrator → (failure_id reason actor_id new_id : String) → Op RecoveryDecision
recover o failure_id reason actor_id new_id = do
  raise_if (not (actor_id == "manager" || actor_id == o.manager_id))
      (Error.gate_error "Recovery authority does not match configured Manager")
  failure ←
      reads
        λ run. or_raise (find_failure failure_id run.failures) (Error.gate_error "Unknown failure")
  task ← reads (task_at failure.task_id)
  settled ← gets (is_settled failure_id task)
  raise_if settled (Error.gate_error "Failure already recovered or superseded")
  let action = recovery_action failure.classification task
  route_task action failure.task_id task failure reason
  reject_candidate (last? task.artifact_ids) reason failure.id
  record_recovery o action failure_id reason task.packet.task_id new_id failure
