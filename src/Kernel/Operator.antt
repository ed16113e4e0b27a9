-- ===== src/Kernel/Operator.antt =====
-- `resume` and `abandon` of walter/orchestration.py: what an operator does to a run from outside.
use walter.Prelude.{
  String, Bool, true, false, not, Option, some, List, [], ◌∷◌, any, is_substantive, if◌then◌else◌,
}
use walter.Prelude.Dict.{keys, values}
use walter.Models.{
  RunStatus, TaskStatus, FailureClass, ApprovalRequest, CapabilityRequest, TaskNode, EventData,
  is_assigned, is_pending, is_open_request,
}
use walter.Kernel.Monad.{
  Error, Op, ◌>>=◌, ◌>>◌, pure, gets, reads, raise_if, modify, put_task, task_at, emit,
}
use walter.Kernel.Transitions.{transition}
use walter.Kernel.Recovery.{add_failure, emit_assignment_failed, failure_of}

abbrev pub interrupted : String
interrupted = "Assignment interrupted before durable submission"

-- The loop body of `resume` for an interrupted task: unlike `_fail` it lists the failure first.
unfoldable pub interrupt : (key : String) → TaskNode → (new_id : String) → Op (Unit {0})
unfolding transition
interrupt key task new_id = do
  let failure = failure_of task FailureClass.timeout interrupted new_id
  add_failure failure
  moved ← transition key task TaskStatus.failed interrupted
  put_task key (record moved { blocker = some interrupted })
  emit "failure.classified" (EventData.failure failure)
  emit_assignment_failed task.assignment task.packet.task_id interrupted

unfoldable pub resume_task : (String → String) → (key : String) → Op (Unit {0})
unfolding interrupt
resume_task new_id key = do
  task ← reads (task_at key)
  if is_assigned task.status then interrupt key task (new_id key) else pure tt

unfoldable pub resume_keys : (String → String) → List String → Op (Unit {0})
unfolding resume_task
resume_keys new_id [] = pure tt
resume_keys new_id (key ∷ rest) = resume_task new_id key >> resume_keys new_id rest

-- `resume`: `new_id key` is what `uid()` draws for the failure of the task in slot `key`.
unfoldable pub resume : (new_id : String → String) → Op (Unit {0})
unfolding resume_keys
resume new_id = do
  slots ← gets (λ run. keys run.tasks)
  resume_keys new_id slots
  emit "run.resumed" (EventData.fields (("reason", some "Operator resumed durable run") ∷ []))

-- `status in IN_FLIGHT_TASK_STATUSES`
abbrev pub is_in_flight : TaskStatus → Bool
is_in_flight TaskStatus.delegated = true
is_in_flight TaskStatus.running = true
is_in_flight TaskStatus.submitted = true
is_in_flight TaskStatus.reviewing = true
is_in_flight _ = false

unfoldable pub abandon : (reason : String) → (actor_id : Option String) → Op (Unit {0})
abandon reason actor_id = do
  raise_if (not (is_substantive reason))
      (Error.gate_error "Abandonment requires an audit-worthy reason")
  tasks ← gets (λ run. values run.tasks)
  raise_if (any (λ (t : TaskNode). is_in_flight t.status) tasks)
      (Error.gate_error "Run still has in-flight work")
  approvals ← gets (λ run. values run.approvals)
  raise_if (any (λ (r : ApprovalRequest). is_pending r.status) approvals)
      (Error.gate_error "Run still has pending approval gates")
  requests ← gets (λ run. values run.capability_requests)
  raise_if (any (λ (r : CapabilityRequest). is_open_request r.status) requests)
      (Error.gate_error "Run still has pending capability requests")
  issues ← gets (λ run. run.unresolved_issues)
  modify (λ run. record run {
    status = RunStatus.abandoned;
    plan = record run.plan { status = RunStatus.abandoned };
  })
  emit "run.abandoned" (EventData.abandoned reason actor_id issues)
