-- ===== src/Kernel/Assignment.antt =====
-- `delegate`, `start`, `submit`, `_provisional_result`, `record_provisional_result` and
-- `record_capability_request` of walter/orchestration.py. The identifier that `uid()` draws for a
-- new record is an argument. The `run_id` argument of the source is `run.id` here: `load` returns
-- no other run.
use walter.Prelude.{
  ◌+◌, String, Bool, true, false, not, ◌&&◌, ◌||◌, Option, none, some, [], ◌∷◌, ◌++◌, ◌==◌, leb,
  is_substantive, is_nonempty, is_given, last?, length, if◌then◌else◌,
}
use walter.Prelude.Dict.{insert}
use walter.Models.{
  TaskStatus, CapabilityRequestStatus, ResultStatus, ArtifactStatus, TaskNode, WorkerAssignment,
  WorkerResult, CapabilityRequest, Artifact, EventData, is_running, is_delegatable, is_developer,
  same_capability,
}
use walter.Kernel.Monad.{
  Error, or_raise, Op, ◌>>=◌, ◌>>◌, pure, gets, reads, raise_if, modify, put_task, put_artifact,
  task_at, emit,
}
use walter.Kernel.Lineage.{input_artifact_ids}
use walter.Kernel.Readiness.{readiness_blocker, is_ready_task}
use walter.Kernel.Transitions.{transition}
use walter.Kernel.Authority.{Orchestrator}

abbrev pub refuse_blocker : Option String → Op (Unit {0})
refuse_blocker none = pure tt
refuse_blocker (some reason) = raise_if true (Error.gate_error reason)

-- `task.attempts - task.attempt_baseline >= task.max_attempts`; Python's difference is an integer,
-- so the comparison is written without it.
abbrev pub attempts_exhausted : TaskNode → Bool
attempts_exhausted task = leb (task.max_attempts + task.attempt_baseline) task.attempts

abbrev pub assigned_to : TaskNode → (id worker_id : String) → WorkerAssignment
assigned_to task id worker_id = record {
  id = id;
  worker_id = worker_id;
  task_id = task.packet.task_id;
  capability = task.capability;
  workspace_id = task.workspace_id;
}

unfoldable pub delegate : Orchestrator → (task_id worker_id new_id : String) → Op WorkerAssignment
unfolding transition
delegate o task_id worker_id new_id = do
  task ← reads (task_at task_id)
  raise_if (not (is_substantive worker_id) || worker_id == o.manager_id)
      (Error.gate_error "Worker identity is not delegatable")
  raise_if (attempts_exhausted task) (Error.gate_error "Attempt budget exhausted")
  blocker ← reads (λ run. readiness_blocker run task)
  refuse_blocker blocker
  raise_if (not (is_delegatable task.status)) (Error.gate_error "Task is not delegatable")
  moved ← transition task_id task TaskStatus.delegated "Manager delegation"
  let assignment = record (assigned_to task new_id worker_id) { task_id = task_id }
  let assigned = record moved {
    assignment = some assignment;
    assignment_history = moved.assignment_history ++ assignment ∷ [];
    attempts = moved.attempts + 1;
  }
  put_task task_id assigned
  emit "assignment.created" (EventData.assigned assignment assigned.attempts)
  pure assignment

unfoldable pub start : (task_id : String) → Op (Unit {0})
unfolding transition
start task_id = do
  task ← reads (task_at task_id)
  ready ← reads (λ run. is_ready_task run task)
  raise_if (not ready) (Error.gate_error "Execution gates no longer satisfied")
  moved ← transition task_id task TaskStatus.running "Worker started"
  assignment ← reads (λ _. or_raise moved.assignment Error.attribute_error)
  emit "assignment.started" (
      EventData.fields (
        ("assignment_id", some assignment.id)
        ∷ ("task_id", some task.packet.task_id)
        ∷ ("worker_id", some assignment.worker_id)
        ∷ []))

-- `task.assignment and task.assignment.id == id and task.assignment.worker_id == worker`
abbrev pub holds_assignment : Option WorkerAssignment → (id worker_id : String) → Bool
holds_assignment none id worker_id = false
holds_assignment (some a) id worker_id = a.id == id && a.worker_id == worker_id

abbrev pub is_completed : ResultStatus → Bool
is_completed ResultStatus.completed = true
is_completed _ = false

unfoldable pub submit :
    Orchestrator
    → (task_id assignment_id worker_id : String) → WorkerResult
    → (workspace_fingerprint : Option String) → (new_id : String) → Op Artifact
unfolding transition
submit o task_id assignment_id worker_id result workspace_fingerprint new_id = do
  task ← reads (task_at task_id)
  raise_if (not (holds_assignment task.assignment assignment_id worker_id))
      (Error.gate_error "Submission does not match the current worker assignment")
  raise_if
      (not (result.task_id == task_id)
        || not (is_completed result.status)
        || not (is_substantive result.deliverable))
      (Error.gate_error "Expected matching completed candidate; route blockers through fail")
  inputs ← reads (λ run. input_artifact_ids run task)
  moved ← transition task_id task TaskStatus.submitted "Candidate received"
  raise_if (is_developer moved.capability && not (is_given workspace_fingerprint))
      (Error.gate_error "Developer candidate requires observed workspace fingerprint")
  run_id ← gets (λ run. run.id)
  let artifact : Artifact = record {
    id = new_id;
    run_id = run_id;
    task_id = task_id;
    worker_id = worker_id;
    content = result.deliverable;
    content_digest = o.sha256 result.deliverable;
    workspace_fingerprint = workspace_fingerprint;
    version = length moved.artifact_ids + 1;
    predecessor_id = last? moved.artifact_ids;
    input_artifact_ids = inputs;
    status = ArtifactStatus.candidate;
    integrated_commit = none;
    validations = [];
    reviews = [];
  }
  put_task task_id
      (record moved { result = some result; artifact_ids = moved.artifact_ids ++ new_id ∷ [] })
  put_artifact new_id artifact
  emit "artifact.created" (EventData.artifact artifact)
  emit "artifact.submitted" (EventData.submitted new_id task_id artifact.version)
  emit "assignment.completed" (
      EventData.fields (
        ("assignment_id", some assignment_id)
        ∷ ("task_id", some task.packet.task_id)
        ∷ ("artifact_id", some new_id)
        ∷ []))
  pure artifact

-- `result.blocker or result.summary`
abbrev pub stated_blocker : WorkerResult → String
stated_blocker result = elim result.blocker [
  | none ↦ result.summary
  | some text ↦ if is_nonempty text then text else result.summary
]

-- The object in slot `key`.
unfoldable pub provisional_result :
    (key : String) → TaskNode → (assignment_id worker_id : String) → WorkerResult → Op (Unit {0})
provisional_result key task assignment_id worker_id result = do
  raise_if
      (not (is_running task.status)
        || not (holds_assignment task.assignment assignment_id worker_id))
      (Error.gate_error "Provisional result does not match the current active assignment")
  raise_if (not (result.task_id == task.packet.task_id) || is_completed result.status)
      (Error.gate_error "Expected a matching blocked or needs_revision result")
  put_task key (record task { result = some result; blocker = some (stated_blocker result) })

unfoldable pub record_provisional_result :
    (task_id assignment_id worker_id : String) → WorkerResult → Op (Unit {0})
unfolding provisional_result
record_provisional_result task_id assignment_id worker_id result = do
  task ← reads (task_at task_id)
  provisional_result task_id task assignment_id worker_id result
  emit "assignment.result_provisional"
      (EventData.provisional task_id assignment_id worker_id result)

unfoldable pub record_capability_request :
    (task_id assignment_id worker_id : String)
    → WorkerResult
    → (new_id : String) → Op CapabilityRequest
unfolding provisional_result
record_capability_request task_id assignment_id worker_id result new_id = do
  task ← reads (task_at task_id)
  provisional_result task_id task assignment_id worker_id result
  payload ← reads λ _.
      or_raise result.capability_request (Error.gate_error "Structured capability request required")
  raise_if (same_capability payload.requested_capability task.capability)
      (Error.gate_error "Requested capability is already assigned")
  raise_if (not (is_nonempty payload.reason) || not (is_nonempty payload.risk))
      Error.validation_error
  run_id ← gets (λ run. run.id)
  let request : CapabilityRequest = record {
    id = new_id;
    run_id = run_id;
    task_id = task_id;
    assignment_id = assignment_id;
    worker_id = worker_id;
    requested_capability = payload.requested_capability;
    reason = payload.reason;
    risk = payload.risk;
    status = CapabilityRequestStatus.pending;
    approval_id = none;
    workspace_id = none;
  }
  modify (λ run. record run { capability_requests = insert new_id request run.capability_requests })
  emit "capability.requested" (EventData.requested request result)
  pure request
