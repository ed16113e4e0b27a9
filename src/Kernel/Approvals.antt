-- ===== src/Kernel/Approvals.antt =====
-- `_scope`, `_approved`, `require_approval` and `request_approval` of walter/orchestration.py.
-- The target of a request, which only displays, is left out.
pub mod Gates
pub mod Deciding
use walter.Prelude.{
  String, Bool, true, false, not, ◌&&◌, ◌||◌, Option, none, some, List, [], ◌∷◌, ◌++◌, ◌==◌, any,
  is_nonempty, if◌then◌else◌,
}
use walter.Prelude.Dict.{lookup, insert, keys, values}
use walter.Models.{
  Run, TaskNode, TaskStatus, ApprovalGate, ApprovalRequest, ApprovalDecision, ApprovalStatus,
  CapabilityProfile, EventData, Fields, is_ready, is_approved, is_superseded,
}
use walter.Models.BlockerReason
use walter.Kernel.Monad.{
  Error, Result, ok, err, bind, refuse, or_raise, Op, ◌>>=◌, ◌>>◌, pure, gets, reads, raise_if,
  modify, put_task, task_at, emit,
}
use walter.Kernel.Transitions.{transition}
use walter.Kernel.Authority.{Orchestrator}
use walter.Kernel.Operator.{is_in_flight}

-- `request.action == action and request.scope_digest == digest and request.scope_json == value`
abbrev pub is_exact : Orchestrator → ApprovalRequest → (action : String) → Fields → Bool
is_exact o request action scope =
    request.action == action
    && request.scope_digest == o.sha256 (o.dumps scope)
    && request.scope_json == o.dumps scope

abbrev pub is_grant :
    Orchestrator
    → (action : String) → Fields
    → Option ApprovalRequest
    → Option ApprovalDecision
    → Bool
is_grant o action scope (some request) (some decision) =
    is_approved request.status && decision.approved && is_exact o request action scope
is_grant o action scope _ _ = false

-- `_approved`
unfoldable pub approved :
    Orchestrator → Run → (approval_id action : String) → Fields → Result (Unit {0})
approved o run approval_id action scope =
    refuse
      (not (
        is_grant o action scope (lookup approval_id run.approvals)
          (lookup approval_id run.approval_decisions)))
      (Error.gate_error "Exact scoped human approval required")

abbrev pub put_approval : (key : String) → ApprovalRequest → Op (Unit {0})
put_approval key request =
    modify (λ run. record run { approvals = insert key request run.approvals })

abbrev pub gate_of : ApprovalRequest → ApprovalGate
gate_of request = record {
  request_id = request.id;
  action = request.action;
  scope_json = request.scope_json;
  scope_digest = request.scope_digest;
}

-- `any(gate.request_id == approval_id for gate in task.approval_gates)`
abbrev pub is_bound : (approval_id : String) → TaskNode → Bool
is_bound approval_id task =
    any (λ (gate : ApprovalGate). gate.request_id == approval_id) task.approval_gates

-- The replacement of one gate of the task in slot `key`: `done` and `rest` are its other gates.
unfoldable pub replace_gate :
    (supersedes : String)
    → ApprovalRequest
    → (key : String) → (done rest : List ApprovalGate) → Op (Unit {0})
unfolding transition
replace_gate supersedes request key done rest = do
  task ← reads (task_at key)
  let bound = record task { approval_gates = done ++ gate_of request ∷ rest }
  put_task key bound
  moved ←
      (if is_ready bound.status
        then transition key bound TaskStatus.blocked "Replacement approval pending"
        else pure bound)
  put_task key (record moved { blocker = some BlockerReason.approval_pending })
  emit "task.approval_gate_replaced"
      (EventData.gated task.packet.task_id (some supersedes) (gate_of request))

-- `for index, gate in enumerate(task.approval_gates)`
unfoldable pub replace_gates :
    (supersedes : String)
    → ApprovalRequest
    → (key : String) → (done rest : List ApprovalGate) → Op (Unit {0})
replace_gates supersedes request key done [] = pure tt
replace_gates supersedes request key done (gate ∷ rest) =
    (if gate.request_id == supersedes
      then replace_gate supersedes request key done rest
      else pure tt)
    >> replace_gates supersedes request key
        (done ++ (if gate.request_id == supersedes then gate_of request else gate) ∷ []) rest

unfoldable pub regate_tasks : (supersedes : String) → ApprovalRequest → List String → Op (Unit {0})
regate_tasks supersedes request [] = pure tt
regate_tasks supersedes request (key ∷ slots) =
    (reads (task_at key) >>= λ task. replace_gates supersedes request key [] task.approval_gates)
    >> regate_tasks supersedes request slots

-- The branch of `request_approval` for `supersedes is not None`.
unfoldable pub supersede : (supersedes : String) → ApprovalRequest → Op (Unit {0})
supersede supersedes request = do
  prior ← reads (λ run.
      or_raise (lookup supersedes run.approvals)
        (Error.gate_error "Approval is missing or already superseded"))
  raise_if (is_superseded prior.status)
      (Error.gate_error "Approval is missing or already superseded")
  tasks ← gets (λ run. values run.tasks)
  raise_if (any (λ (t : TaskNode). is_in_flight t.status && is_bound supersedes t) tasks) (
      Error.gate_error
        "Cannot supersede approval while bound work is active; fail and recover the task first")
  put_approval supersedes
      (record prior { status = ApprovalStatus.superseded; replacement_id = some request.id })
  emit "approval.superseded" (
      EventData.fields
        (("approval_id", some supersedes) ∷ ("replacement_id", some request.id) ∷ []))
  slots ← gets (λ run. keys run.tasks)
  regate_tasks supersedes request slots

abbrev pub supersede_if : Option String → ApprovalRequest → Op (Unit {0})
supersede_if none request = pure tt
supersede_if (some supersedes) request = supersede supersedes request

-- `category or action`
abbrev or_action : Option String → String → String
or_action none action = action
or_action (some category) action = if is_nonempty category then category else action

-- The request's fields may not be empty; the record is built before anything is read.
unfoldable pub request_approval :
    Orchestrator
    → (action : String) → Fields
    → (reason : String) → (category : Option String) → (risk : String)
    → (artifact_refs : List String) → (requested_capability : Option CapabilityProfile)
    → (required : Bool) → (supersedes : Option String) → (new_id : String) → Op ApprovalRequest
request_approval o action scope reason category risk refs requested required supersedes new_id = do
  raise_if
      (not (is_nonempty action)
        || not (is_nonempty (or_action category action))
        || not (is_nonempty reason)
        || not (is_nonempty risk))
      Error.validation_error
  run_id ← gets (λ run. run.id)
  let request : ApprovalRequest = record {
    id = new_id;
    run_id = run_id;
    category = or_action category action;
    action = action;
    scope_json = o.dumps scope;
    scope_digest = o.sha256 (o.dumps scope);
    rationale = reason;
    risk = risk;
    artifact_refs = refs;
    requested_capability = requested;
    required = required;
    status = ApprovalStatus.pending;
    replacement_id = none;
  }
  supersede_if supersedes request
  put_approval new_id request
  emit "approval.required" (EventData.approval request)
  pure request
