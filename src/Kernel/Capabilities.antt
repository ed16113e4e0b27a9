-- ===== src/Kernel/Capabilities.antt =====
-- The capability escalation of walter/orchestration.py: `link_capability_approval`,
-- `approve_capability_request`, `deny_capability_request`, `mark_capability_escalated`,
-- `change_capability`, and the body of `apply_capability_escalation`.
pub mod Granting
use walter.Models.BlockerReason
use walter.Prelude.{
  String, Bool, true, false, not, ◌&&◌, ◌||◌, Option, none, some, List, [], ◌∷◌, ◌++◌, ◌==◌, opt_eq,
  is_given, is_substantive, if◌then◌else◌,
}
use walter.Prelude.Dict.{lookup, insert}
use walter.Models.{
  Run, TaskNode, TaskStatus, CapabilityProfile, CapabilityRequest, CapabilityRequestStatus,
  ApprovalRequest, ApprovalDecision, EventData, Json, Fields, is_ready, is_blocked, is_approved,
  is_superseded, is_open_request, is_undecided, is_granted, is_developer, same_capability,
  capability_value,
}
use walter.Kernel.Monad.{
  Error, Result, ok, err, bind, refuse, or_raise, Op, ◌>>=◌, ◌>>◌, pure, gets, reads, raise_if,
  modify, put_task, task_at, emit,
}
use walter.Kernel.Transitions.{transition}
use walter.Kernel.Readiness.{is_ready_task, refresh}
use walter.Kernel.Authority.{Orchestrator}
use walter.Kernel.Planning.{validate_capability_checks}
use walter.Kernel.Approvals.{is_exact, approved}

-- `run.capability_requests[key]`
abbrev pub request_at : String → Run → Result CapabilityRequest
request_at key run = or_raise (lookup key run.capability_requests) (Error.key_error key)

abbrev pub put_request : (key : String) → CapabilityRequest → Op (Unit {0})
put_request key request =
    modify (λ run. record run { capability_requests = insert key request run.capability_requests })

abbrev pub optional_text : Option String → Json
optional_text none = Json.null
optional_text (some s) = Json.text s

-- `{"task_id": ..., "capability": ..., "workspace_id": ...}`
abbrev pub capability_scope : (task_id : String) → CapabilityProfile → Option String → Fields
capability_scope task_id capability workspace_id = Fields.field "task_id" (Json.text task_id) (
    Fields.field "capability" (Json.text (capability_value capability))
      (Fields.field "workspace_id" (optional_text workspace_id) Fields.end))

-- `capability in {CapabilityProfile.REPO_READER, CapabilityProfile.DEVELOPER_SANDBOX}`
abbrev pub needs_workspace : CapabilityProfile → Bool
needs_workspace CapabilityProfile.repo_reader = true
needs_workspace CapabilityProfile.developer_sandbox = true
needs_workspace _ = false

-- `not approval or approval.status == SUPERSEDED or <not exact>`
abbrev pub is_linkable : Orchestrator → Fields → Option ApprovalRequest → Bool
is_linkable o scope none = false
is_linkable o scope (some approval) =
    not (is_superseded approval.status) && is_exact o approval "change_capability" scope

unfoldable pub link_capability_approval :
    Orchestrator
    → (request_id approval_id : String) → (workspace_id : Option String) → Op (Unit {0})
link_capability_approval o request_id approval_id workspace_id = do
  request ← reads (request_at request_id)
  raise_if (not (is_open_request request.status) || not (opt_eq request.approval_id none))
      (Error.gate_error "Capability request is not pending and unlinked")
  approval ← gets (λ run. lookup approval_id run.approvals)
  raise_if (needs_workspace request.requested_capability && not (is_given workspace_id))
      (Error.gate_error "Repository capabilities require an approved workspace binding")
  raise_if
      (not (
        is_linkable o (capability_scope request.task_id request.requested_capability workspace_id)
          approval))
      (Error.gate_error "Capability request requires an exact current approval request")
  put_request request_id
      (record request { approval_id = some approval_id; workspace_id = workspace_id })
  emit "capability.approval_linked" (
      EventData.fields
        (("capability_request_id", some request_id) ∷ ("approval_id", some approval_id) ∷ []))

abbrev pub is_yes : Option ApprovalRequest → Option ApprovalDecision → Bool
is_yes (some approval) (some decision) = is_approved approval.status && decision.approved
is_yes _ _ = false

-- The linked approval is approved, by a decision of a human.
abbrev pub is_approved_link : Run → (approval_id : String) → Bool
is_approved_link run approval_id =
    is_yes (lookup approval_id run.approvals) (lookup approval_id run.approval_decisions)

-- `capability_request.approval_id`, where it is one: the empty text counts as none.
abbrev pub linked : Option String → Result String
linked none = err (Error.gate_error "Capability request is not awaiting linked approval")
linked (some id) =
    if id == ""
    then err (Error.gate_error "Capability request is not awaiting linked approval")
    else ok id

unfoldable pub approve_capability_request : (request_id : String) → Op (Unit {0})
approve_capability_request request_id = do
  request ← reads (request_at request_id)
  raise_if (not (is_open_request request.status))
      (Error.gate_error "Capability request is not awaiting linked approval")
  approval_id ← reads (λ _. linked request.approval_id)
  granted ← gets (λ run. is_approved_link run approval_id)
  raise_if (not granted) (Error.gate_error "Linked capability approval has not been granted")
  put_request request_id (record request { status = CapabilityRequestStatus.approved })
  emit "capability.approved" (
      EventData.fields
        (("capability_request_id", some request_id) ∷ ("approval_id", some approval_id) ∷ []))

unfoldable pub deny_capability_request : (request_id reason : String) → Op (Unit {0})
deny_capability_request request_id reason = do
  request ← reads (request_at request_id)
  raise_if (not (is_undecided request.status) || not (is_substantive reason))
      (Error.gate_error "Capability request cannot be denied")
  put_request request_id (record request { status = CapabilityRequestStatus.denied })
  emit "capability.denied"
      (EventData.fields (("capability_request_id", some request_id) ∷ ("reason", some reason) ∷ []))

unfoldable pub mark_capability_escalated : (request_id : String) → Op (Unit {0})
mark_capability_escalated request_id = do
  request ← reads (request_at request_id)
  task ← reads (task_at request.task_id)
  raise_if
      (not (is_granted request.status)
        || not (same_capability task.capability request.requested_capability))
      (Error.gate_error "Approved capability has not been applied to the task")
  put_request request_id (record request { status = CapabilityRequestStatus.escalated })
  emit "capability.escalated" (
      EventData.fields (
        ("capability_request_id", some request_id)
        ∷ ("task_id", some task.packet.task_id)
        ∷ ("capability", some (capability_value task.capability))
        ∷ ("approval_id", request.approval_id)
        ∷ []))

-- `status in {PLANNED, READY, REVISION_REQUIRED, BLOCKED}`
abbrev pub is_changeable : TaskStatus → Bool
is_changeable TaskStatus.planned = true
is_changeable TaskStatus.ready = true
is_changeable TaskStatus.revision_required = true
is_changeable TaskStatus.blocked = true
is_changeable _ = false

-- `task.status == BLOCKED and task.blocker == CAPABILITY_ESCALATION_PENDING`
abbrev pub awaits_escalation : TaskNode → Bool
awaits_escalation task =
    is_blocked task.status && opt_eq task.blocker (some BlockerReason.capability_escalation_pending)

-- The task with the new grant: a blocker that waited for it becomes one that `_refresh` evaluates.
abbrev pub regranted : TaskNode → CapabilityProfile → Option String → TaskNode
regranted task capability workspace_id = record task {
  capability = capability;
  workspace_id = workspace_id;
  blocker =
      if awaits_escalation task
      then some (
          if is_developer capability && not (is_given workspace_id)
          then BlockerReason.capability_prerequisites_missing
          else BlockerReason.approval_prerequisites_satisfied)
      else task.blocker;
}

-- A READY task whose gates no longer hold under its new grant is blocked.
unfoldable pub block_unready : (key : String) → TaskNode → Op (Unit {0})
unfolding transition
block_unready key task =
    if is_ready task.status
    then (reads (λ run. is_ready_task run task) >>= λ ready.
        if ready
        then pure tt
        else (transition key task TaskStatus.blocked BlockerReason.capability_prerequisites_missing
            >>= λ moved.
                put_task key
                  (record moved { blocker = some BlockerReason.capability_prerequisites_missing })))
    else pure tt

unfoldable pub change_capability :
    Orchestrator
    → (task_id : String) → CapabilityProfile
    → (approval_id : String) → (workspace_id : Option String) → Op (Unit {0})
change_capability o task_id capability approval_id workspace_id = do
  task ← reads (task_at task_id)
  raise_if (not (is_changeable task.status))
      (Error.gate_error "Cannot change capabilities of active or terminal task")
  reads (λ _. validate_capability_checks task capability)
  reads (λ run.
      approved o run approval_id "change_capability"
        (capability_scope task_id capability workspace_id))
  let changed = regranted task capability workspace_id
  put_task task_id changed
  emit "capability.escalated" (
      EventData.fields (
        ("task_id", some task_id)
        ∷ ("capability", some (capability_value capability))
        ∷ ("workspace_id", workspace_id)
        ∷ ("approval_id", some approval_id)
        ∷ []))
  block_unready task_id changed
  refresh

-- `status in {BLOCKED, READY, REVISION_REQUIRED}`
abbrev pub is_settled_down : TaskStatus → Bool
is_settled_down TaskStatus.blocked = true
is_settled_down TaskStatus.ready = true
is_settled_down TaskStatus.revision_required = true
is_settled_down _ = false

abbrev linked_for_escalation : Option String → Result String
linked_for_escalation none =
    err (Error.gate_error "Capability request is not linked for escalation")
linked_for_escalation (some id) =
    if id == ""
    then err (Error.gate_error "Capability request is not linked for escalation")
    else ok id

-- The event of a workspace that the escalation changes.
unfoldable pub emit_workspace : TaskNode → (workspace_id : Option String) → Op (Unit {0})
emit_workspace task workspace_id =
    if opt_eq task.workspace_id workspace_id
    then pure tt
    else emit (if is_given task.workspace_id then "workspace.replaced" else "workspace.bound") (
        EventData.fields (
          ("task_id", some task.packet.task_id)
          ∷ ("old_workspace_id", task.workspace_id)
          ∷ ("new_workspace_id", workspace_id)
          ∷ ("reason", some "Approved capability escalation")
          ∷ []))

-- The task after an escalation: a blocker that waited for it is lifted.
abbrev pub escalated : TaskNode → CapabilityRequest → TaskNode
escalated task request = record task {
  capability = request.requested_capability;
  workspace_id = request.workspace_id;
  blocker =
      if awaits_escalation task
      then some BlockerReason.approval_prerequisites_satisfied
      else task.blocker;
}

-- The checks of the body of `apply_capability_escalation`, in the order of the source.
unfoldable pub escalation_gates :
    Orchestrator → (approval_id : String) → CapabilityRequest → TaskNode → Run → Result (Unit {0})
escalation_gates o approval_id request task run =
    bind
      (refuse (not (is_settled_down task.status))
        (Error.gate_error "Capability can only be applied in a safe non-active task state"))
      λ _. bind (validate_capability_checks task request.requested_capability) λ _.
        bind
          (refuse (not (is_approved_link run approval_id))
            (Error.gate_error "Linked capability approval has not been granted"))
          λ _.
            bind
              (approved o run approval_id "change_capability" (
                capability_scope task.packet.task_id request.requested_capability
                  request.workspace_id))
              λ _.
                refuse
                  (needs_workspace request.requested_capability
                    && not (is_given request.workspace_id))
                  (Error.gate_error "Repository capabilities require an approved workspace binding")

-- The body of `apply_capability_escalation`.
unfoldable pub escalate : Orchestrator → (request_id : String) → Op CapabilityRequest
escalate o request_id = do
  request ← reads (request_at request_id)
  task ← reads (task_at request.task_id)
  raise_if (not (is_undecided request.status))
      (Error.gate_error "Capability request is not linked for escalation")
  approval_id ← reads (λ _. linked_for_escalation request.approval_id)
  reads (escalation_gates o approval_id request task)
  put_task request.task_id (escalated task request)
  emit_workspace task request.workspace_id
  (if is_open_request request.status
      then emit "capability.approved" (
          EventData.fields
            (("capability_request_id", some request.id) ∷ ("approval_id", some approval_id) ∷ []))
      else pure tt)
  let closed = record request { status = CapabilityRequestStatus.escalated }
  put_request request_id closed
  emit "capability.escalated" (
      EventData.fields (
        ("capability_request_id", some request.id)
        ∷ ("task_id", some task.packet.task_id)
        ∷ ("capability", some (capability_value request.requested_capability))
        ∷ ("workspace_id", request.workspace_id)
        ∷ ("approval_id", some approval_id)
        ∷ []))
  refresh
  pure closed
