-- ===== src/Commands/Amendments.antt =====
-- The mutations of walter/orchestration.py that change what a run is: its tasks, gates, approvals,
-- capabilities and plan, and its completion. As one type of requests.
use walter.Prelude.{String, Bool, Option, List, some, ◌≡◌, All}
use walter.Prelude.Dict.{Dict, lookup}
use walter.Models.{Run, TaskNode, CapabilityProfile, Fields, ReplanProposal}
use walter.Kernel.Monad.{Ctx, Op, ok}
use walter.Kernel.Authority.{Orchestrator}
use walter.Kernel.Planning
use walter.Kernel.Approvals
use walter.Kernel.Approvals.Gates
use walter.Kernel.Capabilities
use walter.Kernel.Replanning
use walter.Kernel.Replanning.Applying
use walter.Kernel.Completion
use walter.Kernel.Evolution.Order.{IsOrderly, Keeps, then-Keeps, pure-Keeps}
use walter.Kernel.Evolution.Amending.{
  gate_task-Keeps, recover_legacy_approval_gate-Keeps, decide_approval-Keeps,
  request_approval-Keeps, link_capability_approval-Keeps, approve_capability_request-Keeps,
  deny_capability_request-Keeps, mark_capability_escalated-Keeps, change_capability-Keeps,
  escalate-Keeps, complete-Keeps,
}
use walter.Kernel.Evolution.Entering.{HasRevisionsLeft, add_tasks-Keeps}
use walter.Kernel.Evolution.Replanning.{propose_replan-Keeps, apply_replan-IsOrderly}
use walter.Commands.{quietly}

-- The arguments of each public method.
pub data Amendment : Type 0 where
  add_tasks : List TaskNode → Amendment
  request_approval :
      (action : String)
      → Fields
      → (reason : String) → (category : Option String) → (risk : String) → List String
      → Option CapabilityProfile
      → (required : Bool) → (supersedes : Option String) → (new_id : String) → Amendment
  gate_task : (task_id approval_id action : String) → Fields → Amendment
  recover_gate : (task_id legacy_id approval_id action : String) → Fields → Amendment
  decide : (approval_id : String) → Bool → (human_id reason : String) → Amendment
  link_capability : (request_id approval_id : String) → (workspace_id : Option String) → Amendment
  approve_capability : (request_id : String) → Amendment
  deny_capability : (request_id reason : String) → Amendment
  mark_escalated : (request_id : String) → Amendment
  change_capability :
      (task_id : String)
      → CapabilityProfile
      → (approval_id : String) → (workspace_id : Option String) → Amendment
  escalate : (request_id : String) → Amendment
  propose : ReplanProposal → Amendment
  apply : (proposal_id : String) → Amendment
  complete : (final_result : String) → Dict (List String) → Amendment

unfoldable pub amend : Orchestrator → Amendment → Op (Unit {0})
amend o (Amendment.add_tasks tasks) = Planning.add_tasks tasks
amend o (Amendment.request_approval a s r c k refs p q u n) =
    quietly (Approvals.request_approval o a s r c k refs p q u n)
amend o (Amendment.gate_task t i a s) = Gates.gate_task o t i a s
amend o (Amendment.recover_gate t l i a s) = Gates.recover_legacy_approval_gate o t l i a s
amend o (Amendment.decide i a h r) = quietly (Gates.decide_approval i a h r)
amend o (Amendment.link_capability r i w) = Capabilities.link_capability_approval o r i w
amend o (Amendment.approve_capability r) = Capabilities.approve_capability_request r
amend o (Amendment.deny_capability r reason) = Capabilities.deny_capability_request r reason
amend o (Amendment.mark_escalated r) = Capabilities.mark_capability_escalated r
amend o (Amendment.change_capability t p i w) = Capabilities.change_capability o t p i w
amend o (Amendment.escalate r) = quietly (Capabilities.escalate o r)
amend o (Amendment.propose p) = quietly (Replanning.propose_replan p)
amend o (Amendment.apply i) = Applying.apply_replan o i
amend o (Amendment.complete r e) = Completion.complete r e

-- The tasks that come into the run by the request arrive with revisions left.
unfoldable pub IsAdmissible : Run → Amendment → Type 0
IsAdmissible run (Amendment.add_tasks tasks) = All HasRevisionsLeft tasks
IsAdmissible run (Amendment.apply i) =
    (p : ReplanProposal) → lookup i run.replans ≡ some p → All HasRevisionsLeft p.add
IsAdmissible run _ = Unit

quietly-Keeps : {A : Type 0} (m : Op A) → Keeps m → Keeps (quietly m)
quietly-Keeps m k = then-Keeps k λ _. pure-Keeps tt

pub amend-IsOrderly :
    (o : Orchestrator) (amendment : Amendment) (c c' : Ctx)
    → IsAdmissible c.run amendment
    → amend o amendment c ≡ ok (tt, c')
    → IsOrderly c.run.tasks
    → IsOrderly c'.run.tasks
unfolding amend IsAdmissible
amend-IsOrderly o (Amendment.add_tasks tasks) c c' ok_tasks e h =
    (add_tasks-Keeps tasks ok_tasks).keeps c c' tt e h
amend-IsOrderly o (Amendment.request_approval a s r x k refs p q u n) c c' _ e h =
    (quietly-Keeps _ (request_approval-Keeps o a s r x k refs p q u n)).keeps c c' tt e h
amend-IsOrderly o (Amendment.gate_task t i a s) c c' _ e h =
    (gate_task-Keeps o t i a s).keeps c c' tt e h
amend-IsOrderly o (Amendment.recover_gate t l i a s) c c' _ e h =
    (recover_legacy_approval_gate-Keeps o t l i a s).keeps c c' tt e h
amend-IsOrderly o (Amendment.decide i a x r) c c' _ e h =
    (quietly-Keeps _ (decide_approval-Keeps i a x r)).keeps c c' tt e h
amend-IsOrderly o (Amendment.link_capability r i w) c c' _ e h =
    (link_capability_approval-Keeps o r i w).keeps c c' tt e h
amend-IsOrderly o (Amendment.approve_capability r) c c' _ e h =
    (approve_capability_request-Keeps r).keeps c c' tt e h
amend-IsOrderly o (Amendment.deny_capability r reason) c c' _ e h =
    (deny_capability_request-Keeps r reason).keeps c c' tt e h
amend-IsOrderly o (Amendment.mark_escalated r) c c' _ e h =
    (mark_capability_escalated-Keeps r).keeps c c' tt e h
amend-IsOrderly o (Amendment.change_capability t p i w) c c' _ e h =
    (change_capability-Keeps o t p i w).keeps c c' tt e h
amend-IsOrderly o (Amendment.escalate r) c c' _ e h =
    (quietly-Keeps _ (escalate-Keeps o r)).keeps c c' tt e h
amend-IsOrderly o (Amendment.propose p) c c' _ e h =
    (quietly-Keeps _ (propose_replan-Keeps p)).keeps c c' tt e h
amend-IsOrderly o (Amendment.apply i) c c' fresh e h = apply_replan-IsOrderly o i c c' fresh e h
amend-IsOrderly o (Amendment.complete r e) c c' _ done h = (complete-Keeps r e).keeps c c' tt done h
