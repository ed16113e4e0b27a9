-- ===== src/Session/Queries.antt =====
-- The methods of `Orchestrator` in walter/orchestration.py that read the stored run:
-- `require_approval`, `validate_replan` and `replan_materiality`; and
-- `apply_capability_escalation`, which reads it before it decides whether to change it.
use walter.Prelude.{
  String, Bool, false, not, ◌||◌, Option, none, some, List, opt_eq, ◌==◌, if◌then◌else◌,
}
use walter.Models.{Run, Fields, ReplanProposal, CapabilityRequest, same_capability, is_escalated}
use walter.Kernel.Monad.{Error, Result, ok, bind, refuse, task_at}
use walter.Kernel.Authority.{Orchestrator}
use walter.Kernel.Approvals.{approved}
use walter.Kernel.Capabilities.{request_at, escalate}
use walter.Kernel.Replanning.{is_workable, replan_materiality}
use walter.Store.{Store, load}
use walter.Session.{mutate}

unfoldable pub require_approval :
    Orchestrator → Store → (run_id approval_id action : String) → Fields → Result (Unit {0})
require_approval o store run_id approval_id action scope =
    bind (load store run_id) λ run. approved o run approval_id action scope

unfoldable pub validate_replan : Store → (run_id : String) → ReplanProposal → Result (Unit {0})
validate_replan store run_id proposal = bind (load store run_id) λ run. is_workable proposal run

unfoldable pub stored_materiality :
    Store → (run_id : String) → ReplanProposal → Result (List String)
stored_materiality store run_id proposal =
    bind (load store run_id) λ run. replan_materiality run proposal

-- `manager_id is not None and manager_id != self.manager_id`
abbrev is_foreign : Orchestrator → (manager_id : Option String) → Bool
is_foreign o none = false
is_foreign o (some id) = not (id == o.manager_id)

-- A request that is escalated already is returned as it is, if the task still agrees with it.
unfoldable pub settled_escalation : Run → CapabilityRequest → Result CapabilityRequest
settled_escalation run existing = bind (task_at existing.task_id run) λ task.
    bind
      (refuse
        (not (same_capability task.capability existing.requested_capability)
          || not (opt_eq task.workspace_id existing.workspace_id))
        (Error.gate_error "Escalated capability request conflicts with durable task state"))
      λ _. ok existing

unfoldable pub apply_capability_escalation :
    Orchestrator
    → Store
    → (run_id request_id : String) → (manager_id : Option String)
    → Result (CapabilityRequest × Store)
apply_capability_escalation o store run_id request_id manager_id =
    bind
      (refuse (is_foreign o manager_id)
        (Error.gate_error "Capability authority does not match configured Manager"))
      λ _. bind (load store run_id) λ run. bind (request_at request_id run) λ existing.
        if is_escalated existing.status
        then (bind (settled_escalation run existing) λ request. ok (request, store))
        else mutate store run_id (escalate o request_id)
