-- ===== src/Kernel/Evolution/Amending.antt =====
-- The approvals, the capabilities, the completion and the plan of walter/orchestration.py: every one
-- of these mutations keeps the tasks within their budgets and the work in flight held.
use walter.Prelude.{
  String, Bool, refl, Option, none, some, List, [], ◌∷◌, ◌++◌, ◌==◌, if◌then◌else◌,
}
use walter.Prelude.Dict.{Dict}
use walter.Models.{
  TaskNode, ApprovalGate, ApprovalRequest, ApprovalStatus, CapabilityProfile, CapabilityRequest,
  Fields,
}
use walter.Kernel.Authority.{Orchestrator}
use walter.Kernel.Approvals.{
  gate_of, put_approval, replace_gate, replace_gates, regate_tasks, supersede, supersede_if,
  request_approval,
}
use walter.Kernel.Approvals.Gates.{
  hold_back, gate_task, recover_legacy_approval_gate, notify_task, notify_tasks, record_decision,
  decide_approval,
}
use walter.Kernel.Capabilities.{
  put_request, link_capability_approval, approve_capability_request, deny_capability_request,
  mark_capability_escalated, block_unready, change_capability, emit_workspace, escalate,
}
use walter.Kernel.Completion.{complete}
use walter.Kernel.Evolution.Order.{
  IsFine, Keeps, then-Keeps, pure-Keeps, reads-Keeps, task-Keeps, keeping, modify-Keeps,
  put_task-Keeps, transition-Keeps, if-Keeps,
}

put_approval-Keeps : (key : String) (request : ApprovalRequest) → Keeps (put_approval key request)
put_approval-Keeps key request = modify-Keeps _ (λ run. refl)

put_request-Keeps : (key : String) (request : CapabilityRequest) → Keeps (put_request key request)
put_request-Keeps key request = modify-Keeps _ (λ run. refl)

hold_back-Keeps :
    (key : String) (task : TaskNode) (status : ApprovalStatus)
    → IsFine task
    → Keeps (hold_back key task status)
unfolding hold_back
hold_back-Keeps key task status fine =
    if-Keeps _ (transition-Keeps _ _ _ _ refl fine (λ moved good. put_task-Keeps _ _ good))
      (pure-Keeps tt)

pub gate_task-Keeps :
    (o : Orchestrator) (task_id approval_id action : String) (scope : Fields)
    → Keeps (gate_task o task_id approval_id action scope)
unfolding gate_task
gate_task-Keeps o task_id approval_id action scope =
    task-Keeps _ λ task fine. search (keeping, hold_back-Keeps) depth 40

replace_gate-Keeps :
    (supersedes : String) (request : ApprovalRequest) (key : String) (done rest : List ApprovalGate)
    → Keeps (replace_gate supersedes request key done rest)
unfolding replace_gate
replace_gate-Keeps supersedes request key done rest =
    task-Keeps _ λ task fine. search keeping depth 20

pub recover_legacy_approval_gate-Keeps :
    (o : Orchestrator) (task_id legacy_id approval_id action : String) (scope : Fields)
    → Keeps (recover_legacy_approval_gate o task_id legacy_id approval_id action scope)
unfolding recover_legacy_approval_gate
recover_legacy_approval_gate-Keeps o task_id legacy_id approval_id action scope =
    task-Keeps _ λ task fine. search keeping depth 40

record_decision-Keeps :
    (approval_id : String) (approved : Bool) (human_id reason : String)
    → Keeps (record_decision approval_id approved human_id reason)
unfolding record_decision
record_decision-Keeps approval_id approved human_id reason =
    search (keeping, put_approval-Keeps, modify-Keeps) depth 40

notify_task-Keeps :
    (approval_id : String) (approved : Bool) (key : String)
    → Keeps (notify_task approval_id approved key)
unfolding notify_task
notify_task-Keeps approval_id approved key = task-Keeps _ λ task fine. search keeping depth 40

notify_tasks-Keeps :
    (approval_id : String) (approved : Bool) (slots : List String)
    → Keeps (notify_tasks approval_id approved slots)
unfolding notify_tasks
notify_tasks-Keeps approval_id approved [] = pure-Keeps tt
notify_tasks-Keeps approval_id approved (key ∷ slots) =
    then-Keeps (notify_task-Keeps approval_id approved key)
      λ _. notify_tasks-Keeps approval_id approved slots

pub decide_approval-Keeps :
    (approval_id : String) (approved : Bool) (human_id reason : String)
    → Keeps (decide_approval approval_id approved human_id reason)
unfolding decide_approval
decide_approval-Keeps approval_id approved human_id reason =
    search (keeping, record_decision-Keeps, notify_tasks-Keeps) depth 20

replace_gates-Keeps :
    (supersedes : String) (request : ApprovalRequest) (key : String) (done rest : List ApprovalGate)
    → Keeps (replace_gates supersedes request key done rest)
unfolding replace_gates
replace_gates-Keeps supersedes request key done [] = pure-Keeps tt
replace_gates-Keeps supersedes request key done (gate ∷ rest) =
    then-Keeps (if-Keeps _ (replace_gate-Keeps supersedes request key done rest) (pure-Keeps tt))
      λ _.
        replace_gates-Keeps supersedes request key
          (done ++ (if gate.request_id == supersedes then gate_of request else gate) ∷ []) rest

regate_tasks-Keeps :
    (supersedes : String) (request : ApprovalRequest) (slots : List String)
    → Keeps (regate_tasks supersedes request slots)
unfolding regate_tasks
regate_tasks-Keeps supersedes request [] = pure-Keeps tt
regate_tasks-Keeps supersedes request (key ∷ slots) =
    then-Keeps
      (task-Keeps key
        λ task fine. replace_gates-Keeps supersedes request key [] task.approval_gates)
      λ _. regate_tasks-Keeps supersedes request slots

supersede-Keeps :
    (supersedes : String) (request : ApprovalRequest) → Keeps (supersede supersedes request)
unfolding supersede
supersede-Keeps supersedes request =
    search (keeping, put_approval-Keeps, regate_tasks-Keeps) depth 40

supersede_if-Keeps :
    (supersedes : Option String) (request : ApprovalRequest)
    → Keeps (supersede_if supersedes request)
supersede_if-Keeps none request = pure-Keeps tt
supersede_if-Keeps (some id) request = supersede-Keeps id request

pub request_approval-Keeps :
    (o : Orchestrator) (action : String) (scope : Fields) (reason : String)
    (category : Option String) (risk : String) (refs : List String)
    (requested : Option CapabilityProfile) (required : Bool) (supersedes : Option String)
    (new_id : String)
    → Keeps (
        request_approval o action scope reason category risk refs requested required supersedes
          new_id)
unfolding request_approval
request_approval-Keeps o action scope reason category risk refs requested required supersedes
      new_id =
    search (keeping, put_approval-Keeps, supersede_if-Keeps) depth 40

pub link_capability_approval-Keeps :
    (o : Orchestrator) (request_id approval_id : String) (workspace_id : Option String)
    → Keeps (link_capability_approval o request_id approval_id workspace_id)
unfolding link_capability_approval
link_capability_approval-Keeps o request_id approval_id workspace_id =
    search (keeping, put_request-Keeps) depth 40

pub approve_capability_request-Keeps :
    (request_id : String) → Keeps (approve_capability_request request_id)
unfolding approve_capability_request
approve_capability_request-Keeps request_id = search (keeping, put_request-Keeps) depth 40

pub deny_capability_request-Keeps :
    (request_id reason : String) → Keeps (deny_capability_request request_id reason)
unfolding deny_capability_request
deny_capability_request-Keeps request_id reason = search (keeping, put_request-Keeps) depth 40

pub mark_capability_escalated-Keeps :
    (request_id : String) → Keeps (mark_capability_escalated request_id)
unfolding mark_capability_escalated
mark_capability_escalated-Keeps request_id = search (keeping, put_request-Keeps) depth 40

block_unready-Keeps : (key : String) (t : TaskNode) → IsFine t → Keeps (block_unready key t)
unfolding block_unready
block_unready-Keeps key t fine = search keeping depth 20

pub change_capability-Keeps :
    (o : Orchestrator) (task_id : String) (capability : CapabilityProfile) (approval_id : String)
    (workspace_id : Option String)
    → Keeps (change_capability o task_id capability approval_id workspace_id)
unfolding change_capability
change_capability-Keeps o task_id capability approval_id workspace_id =
    task-Keeps _ λ task fine. search (keeping, block_unready-Keeps) depth 40

emit_workspace-Keeps :
    (t : TaskNode) (workspace_id : Option String) → Keeps (emit_workspace t workspace_id)
unfolding emit_workspace
emit_workspace-Keeps t workspace_id = search keeping depth 20

pub escalate-Keeps : (o : Orchestrator) (request_id : String) → Keeps (escalate o request_id)
unfolding escalate
escalate-Keeps o request_id = then-Keeps (reads-Keeps _) λ request.
    task-Keeps _ λ task fine. search (keeping, put_request-Keeps, emit_workspace-Keeps) depth 60

pub complete-Keeps :
    (final_result : String) (evidence : Dict (List String)) → Keeps (complete final_result evidence)
unfolding complete
complete-Keeps final_result evidence = search (keeping, modify-Keeps) depth 20
