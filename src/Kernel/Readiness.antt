-- ===== src/Kernel/Readiness.antt =====
-- `_readiness_blocker`, `_ready`, `_refreshable_blocker` and `_refresh` of
-- walter/orchestration.py.
use walter.Prelude.{
  String, Bool, true, false, not, ◌&&◌, ◌||◌, Option, none, some, List, [], ◌∷◌, ◌<>◌, ◌==◌,
  starts_with, is_empty, is_given, if◌then◌else◌,
}
use walter.Prelude.Dict.{lookup, keys}
use walter.Models.{
  Run, TaskNode, TaskStatus, ApprovalGate, ApprovalRequest, ApprovalDecision, is_developer,
  is_approved,
}
use walter.Models.BlockerReason
use walter.Kernel.Monad.{
  Error, Result, ok, err, bind, Op, ◌>>=◌, ◌>>◌, pure, reads, put_task, task_at,
}
use walter.Kernel.Lineage.{input_artifact_ids}
use walter.Kernel.Transitions.{transition}

-- The request and the decision that a gate names are exactly those it was bound to, and approved.
abbrev pub gate_open : ApprovalGate → Option ApprovalRequest → Option ApprovalDecision → Bool
gate_open gate (some request) (some decision) =
    is_approved request.status
    && decision.approved
    && request.action == gate.action
    && request.scope_digest == gate.scope_digest
    && request.scope_json == gate.scope_json
gate_open gate _ _ = false

abbrev pub is_open : Run → ApprovalGate → Bool
is_open run gate =
    gate_open gate (lookup gate.request_id run.approvals)
      (lookup gate.request_id run.approval_decisions)

-- The first gate that is not exactly approved.
unfoldable pub gates_blocker : Run → List ApprovalGate → Option String
gates_blocker run [] = none
gates_blocker run (gate ∷ gates) =
    if is_open run gate
    then gates_blocker run gates
    else some ("approval gate " <> gate.request_id <> " is not exactly approved")

-- The gates that stand behind the inputs.
unfoldable pub gate_blocker : Run → TaskNode → Option String
unfolding gates_blocker
gate_blocker run task =
    if is_developer task.capability && not (is_given task.workspace_id)
    then some "developer sandbox task has no bound workspace"
    else if not (is_empty task.approval_ids)
    then some "task has unresolved approval gates"
    else elim (gates_blocker run task.approval_gates) [
      | some reason ↦ some reason
      | none ↦
          if is_empty task.packet.acceptance_criteria
          then some "task packet has no acceptance criteria"
          else none
    ]

-- `except GateError as exc: return str(exc)`; any other error passes.
abbrev pub blocker_of : Result (List String) → Option String → Result (Option String)
blocker_of (ok inputs) rest = ok rest
blocker_of (err (Error.gate_error reason)) rest = ok (some reason)
blocker_of (err e) rest = err e

unfoldable pub readiness_blocker : Run → TaskNode → Result (Option String)
readiness_blocker run task = blocker_of (input_artifact_ids run task) (gate_blocker run task)

abbrev pub is_none : Option String → Bool
is_none none = true
is_none (some reason) = false

-- `_ready`
unfoldable pub is_ready_task : Run → TaskNode → Result Bool
unfolding readiness_blocker
is_ready_task run task = bind (readiness_blocker run task) λ blocker. ok (is_none blocker)

-- `task.blocker or ""`
abbrev pub blocker_text : TaskNode → String
blocker_text task = elim task.blocker [ none ↦ "" | some reason ↦ reason ]

-- `_refreshable_blocker`
unfoldable pub is_refreshable : TaskNode → Bool
is_refreshable task =
    blocker_text task == BlockerReason.capability_prerequisites_missing
    || blocker_text task == BlockerReason.approval_prerequisites_satisfied
    || starts_with (blocker_text task) BlockerReason.readiness_lapsed

unfoldable pub promote : String → TaskNode → Op (Unit {0})
unfolding transition
promote key task = do
  transition key task TaskStatus.ready "Dependencies and input gates satisfied"
  pure tt

unfoldable pub unblock : String → TaskNode → Op (Unit {0})
unfolding transition
unblock key task = do
  let cleared = record task { blocker = none }
  put_task key cleared
  transition key cleared TaskStatus.ready "Capability prerequisites satisfied"
  pure tt

unfoldable pub demote : String → TaskNode → Option String → Op (Unit {0})
unfolding transition
demote key task none = pure tt
demote key task (some lapsed) = do
  moved ← transition key task TaskStatus.blocked lapsed
  put_task key (record moved { blocker = some (BlockerReason.readiness_lapsed <> ": " <> lapsed) })

-- The body of the loop over `run.tasks.values()`, for the object in slot `key`. Readiness is
-- computed only where the source computes it.
unfoldable pub refresh_status : String → TaskNode → TaskStatus → Op (Unit {0})
refresh_status key task TaskStatus.planned = do
  ready ← reads (λ run. is_ready_task run task)
  if ready then promote key task else pure tt
refresh_status key task TaskStatus.blocked =
    if is_refreshable task
    then (do
      ready ← reads (λ run. is_ready_task run task)
      if ready then unblock key task else pure tt)
    else pure tt
refresh_status key task TaskStatus.ready = do
  lapsed ← reads (λ run. readiness_blocker run task)
  demote key task lapsed
refresh_status key task _ = pure tt

unfoldable pub refresh_task : String → Op (Unit {0})
refresh_task key = do task ← reads (task_at key); refresh_status key task task.status

unfoldable pub refresh_keys : List String → Op (Unit {0})
refresh_keys [] = pure tt
refresh_keys (key ∷ rest) = refresh_task key >> refresh_keys rest

-- `_refresh`: no slot is added or removed on the way.
unfoldable pub refresh : Op (Unit {0})
refresh c = refresh_keys (keys c.run.tasks) c
