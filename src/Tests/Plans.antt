-- ===== src/Tests/Plans.antt =====
-- A plan of two tasks, with an approval, a change of a capability and a replan; and the completion
-- of the run of Samples.
use walter.Prelude.{
  ◌≡◌, ◌⊎◌, refl, String, Bool, true, false, none, some, List, [], ◌∷◌, ◌++◌, Within,
  is_substantive, join, ◌+◌, ◌≤◌,
}
use walter.Prelude.Dict.{lookup, insert, keys, values}
use walter.Models.{
  RunStatus, TaskNode, TaskStatus, CapabilityProfile, ApprovalDecision, ApprovalStatus,
  ReplanProposal,
}
use walter.Kernel.Monad.{Error, Ctx, ok, err, emit}
use walter.Kernel.Assignment
use walter.Kernel.Evidence
use walter.Kernel.Readiness
use walter.Kernel.Lineage
use walter.Kernel.Transitions
use walter.Kernel.Planning
use walter.Kernel.Planning.Graph
use walter.Kernel.Planning.Graph.Acyclic.{Chain, graph_acyclic}
use walter.Kernel.Planning.Graph.Total.{graph_total}
use walter.Kernel.Approvals
use walter.Kernel.Approvals.Gates
use walter.Kernel.Approvals.Deciding.{IsGranted, Decided, decide_approval-once}
use walter.Kernel.Capabilities
use walter.Kernel.Capabilities.Granting.{HasCapability, change_capability-IsGranted}
use walter.Kernel.Replanning
use walter.Kernel.Replanning.Applying
use walter.Kernel.Replanning.Revising.{IsAuthorized, apply_replan-revision}
use walter.Kernel.Replanning.Spreading.{IsClosed}
use walter.Kernel.Replanning.Affected.{replan_affected-least}
use walter.Kernel.Completion
use walter.Kernel.Completion.Finished.{IsFinished, complete-IsFinished}
use walter.Commands.{perform}
use walter.Commands.Immaterial.{IsAcceptedAt, apply_replan-immaterial}
use walter.Session.{new_run}
use walter.Tests.Samples.{kernel, task, follow_up, accepted, ctx_after}

abbrev blank : Ctx
blank = record { run = new_run "ship" ("works" ∷ []) 3 "r"; events = [] }

abbrev first : TaskNode
first = record task { status = TaskStatus.planned }

abbrev planned : Ctx
planned = ctx_after blank (Planning.add_tasks (first ∷ follow_up ∷ []) blank)

plans : Planning.add_tasks (first ∷ follow_up ∷ []) blank ≡ ok (tt, planned)
unfolding lookup insert keys values is_substantive join emit Transitions.transitions
    Transitions.transition Transitions.status_event Readiness.readiness_blocker
    Readiness.is_ready_task Readiness.gate_blocker Readiness.gates_blocker Readiness.is_refreshable
    Readiness.promote Readiness.unblock Readiness.demote Readiness.refresh Readiness.refresh_keys
    Readiness.refresh_task Readiness.refresh_status Lineage.input_artifact_ids Lineage.gather
    Lineage.resolve Graph.graph Graph.visit_tasks Graph.visit Graph.visit_all Graph.successor
    Planning.add_tasks Planning.add_each Planning.add_task Planning.enter_task
    Planning.reject_identifier_collision Planning.validate_capability_checks
plans = refl

walks : Graph.graph planned.run ≡ ok ("u" ∷ "t" ∷ [])
unfolding lookup insert keys values is_substantive join emit Transitions.transitions
    Transitions.transition Transitions.status_event Readiness.readiness_blocker
    Readiness.is_ready_task Readiness.gate_blocker Readiness.gates_blocker Readiness.is_refreshable
    Readiness.promote Readiness.unblock Readiness.demote Readiness.refresh Readiness.refresh_keys
    Readiness.refresh_task Readiness.refresh_status Lineage.input_artifact_ids Lineage.gather
    Lineage.resolve Graph.graph Graph.visit_tasks Graph.visit Graph.visit_all Graph.successor
    Planning.add_tasks Planning.add_each Planning.add_task Planning.enter_task
    Planning.reject_identifier_collision Planning.validate_capability_checks
walks = refl

abbrev ready_first : TaskNode
ready_first = record first { status = TaskStatus.ready }

finds : lookup "t" planned.run.tasks ≡ some ready_first
unfolding lookup insert keys values is_substantive join emit Transitions.transitions
    Transitions.transition Transitions.status_event Readiness.readiness_blocker
    Readiness.is_ready_task Readiness.gate_blocker Readiness.gates_blocker Readiness.is_refreshable
    Readiness.promote Readiness.unblock Readiness.demote Readiness.refresh Readiness.refresh_keys
    Readiness.refresh_task Readiness.refresh_status Lineage.input_artifact_ids Lineage.gather
    Lineage.resolve Graph.graph Graph.visit_tasks Graph.visit Graph.visit_all Graph.successor
    Planning.add_tasks Planning.add_each Planning.add_task Planning.enter_task
    Planning.reject_identifier_collision Planning.validate_capability_checks
finds = refl

graph_acyclic_example : ¬ Chain planned.run "t" "t"
graph_acyclic_example = graph_acyclic planned.run ("u" ∷ "t" ∷ []) "t" ready_first walks finds refl

graph_total_example :
    ((visited : List String) × (Graph.graph planned.run ≡ ok visited))
    ⊎ ((reason : String) × (Graph.graph planned.run ≡ err (Error.gate_error reason)))
graph_total_example = graph_total planned.run

abbrev asked : Ctx
asked = ctx_after planned (
    Approvals.request_approval kernel "change_capability"
      (Capabilities.capability_scope "t" CapabilityProfile.repo_reader (some "w")) "reads code" none
      "material action" [] none true none "p1" planned)

abbrev given : ApprovalDecision
given = record {
  request_id = "p1";
  approved = true;
  human_id = "hal";
  reason = "fine";
  status = ApprovalStatus.approved;
}

abbrev decided : Ctx
decided = ctx_after asked (Gates.decide_approval "p1" true "hal" "fine" asked)

decides : Gates.decide_approval "p1" true "hal" "fine" asked ≡ ok (given, decided)
unfolding lookup insert keys values is_substantive join emit Transitions.transitions
    Transitions.transition Transitions.status_event Readiness.readiness_blocker
    Readiness.is_ready_task Readiness.gate_blocker Readiness.gates_blocker Readiness.is_refreshable
    Readiness.promote Readiness.unblock Readiness.demote Readiness.refresh Readiness.refresh_keys
    Readiness.refresh_task Readiness.refresh_status Lineage.input_artifact_ids Lineage.gather
    Lineage.resolve Graph.graph Graph.visit_tasks Graph.visit Graph.visit_all Graph.successor
    Planning.add_tasks Planning.add_each Planning.add_task Planning.enter_task
    Planning.reject_identifier_collision Planning.validate_capability_checks
    Approvals.request_approval Gates.decide_approval Gates.record_decision Gates.notify_tasks
    Gates.notify_task
decides = refl

decide_approval-once_example :
    Decided asked decided "p1" true "hal" "fine" given
    × ((v : Bool) (h r : String)
        → Gates.decide_approval "p1" v h r decided
          ≡ err (Error.gate_error "Approval missing or already decided"))
decide_approval-once_example =
    decide_approval-once "p1" true "hal" "fine" asked decided given decides

abbrev regranted : Ctx
regranted = ctx_after decided (
    Capabilities.change_capability kernel "t" CapabilityProfile.repo_reader "p1" (some "w") decided)

regrants :
    Capabilities.change_capability kernel "t" CapabilityProfile.repo_reader "p1" (some "w") decided
    ≡ ok (tt, regranted)
unfolding lookup insert keys values is_substantive join emit Transitions.transitions
    Transitions.transition Transitions.status_event Readiness.readiness_blocker
    Readiness.is_ready_task Readiness.gate_blocker Readiness.gates_blocker Readiness.is_refreshable
    Readiness.promote Readiness.unblock Readiness.demote Readiness.refresh Readiness.refresh_keys
    Readiness.refresh_task Readiness.refresh_status Lineage.input_artifact_ids Lineage.gather
    Lineage.resolve Graph.graph Graph.visit_tasks Graph.visit Graph.visit_all Graph.successor
    Planning.add_tasks Planning.add_each Planning.add_task Planning.enter_task
    Planning.reject_identifier_collision Planning.validate_capability_checks
    Approvals.request_approval Gates.decide_approval Gates.record_decision Gates.notify_tasks
    Gates.notify_task Approvals.approved Capabilities.change_capability Capabilities.block_unready
regrants = refl

change_capability-IsGranted_example :
    ((t : TaskNode) × (lookup "t" decided.run.tasks ≡ some t)
      × (Capabilities.is_changeable t.status ≡ true)
      × (Planning.validate_capability_checks t CapabilityProfile.repo_reader ≡ ok tt))
    × IsGranted kernel decided.run "p1" "change_capability"
        (Capabilities.capability_scope "t" CapabilityProfile.repo_reader (some "w"))
    × HasCapability regranted.run "t" CapabilityProfile.repo_reader
change_capability-IsGranted_example =
    change_capability-IsGranted kernel "t" CapabilityProfile.repo_reader "p1" (some "w") decided
      regranted regrants

abbrev again : ReplanProposal
again = record {
  id = "q";
  base_revision = 0;
  trigger = "a defect";
  evidence = [];
  add = [];
  remove = [];
  reopen = "t" ∷ [];
  dependencies = [];
  risks = [];
  approval_id = none;
  requires_approval = false;
}

replan_affected-least_example :
    (affected : List String) × (Replanning.replan_affected planned.run again ≡ ok affected)
    × Within (Replanning.named_tasks planned.run again) affected
    × IsClosed planned.run.tasks affected
    × ((closed : List String)
        → IsClosed planned.run.tasks closed
        → Within (Replanning.named_tasks planned.run again) closed
        → Within affected closed)
replan_affected-least_example = replan_affected-least planned.run again

abbrev proposed : Ctx
proposed = ctx_after planned (Replanning.propose_replan again planned)

abbrev replanned : Ctx
replanned = ctx_after proposed (Applying.apply_replan kernel "q" proposed)

replans : Applying.apply_replan kernel "q" proposed ≡ ok (tt, replanned)
unfolding lookup insert keys values is_substantive join emit Transitions.transitions
    Transitions.transition Transitions.status_event Readiness.readiness_blocker
    Readiness.is_ready_task Readiness.gate_blocker Readiness.gates_blocker Readiness.is_refreshable
    Readiness.promote Readiness.unblock Readiness.demote Readiness.refresh Readiness.refresh_keys
    Readiness.refresh_task Readiness.refresh_status Lineage.input_artifact_ids Lineage.gather
    Lineage.resolve Graph.graph Graph.visit_tasks Graph.visit Graph.visit_all Graph.successor
    Planning.add_tasks Planning.add_each Planning.add_task Planning.enter_task
    Planning.reject_identifier_collision Planning.validate_capability_checks
    Replanning.propose_replan Replanning.is_workable Replanning.replan_defects
    Replanning.structural_defects Replanning.additions_defects Replanning.addition_defects
    Replanning.sorted Replanning.distinct Replanning.projected Replanning.cancel_tasks
    Replanning.rewire_tasks Replanning.adopt_tasks Applying.apply_replan Applying.replan_gates
    Applying.replan_authority Applying.carry_out Applying.invalidate_tasks Applying.invalidate_task
    Applying.supersede_artifacts Applying.supersede_artifact Applying.install_tasks
    Applying.revise_plan Applying.live_keys Replanning.replan_affected Replanning.spread_all
    Replanning.spread Replanning.artifacts_of
replans = refl

apply_replan-revision_example :
    (proposal : ReplanProposal) × (lookup "q" proposed.run.replans ≡ some proposal)
    × (proposal.base_revision ≡ proposed.run.plan.revision)
    × IsAuthorized kernel proposed.run proposal
    × (replanned.run.plan.revision ≡ proposed.run.plan.revision + 1)
    × (replanned.run.plan.max_replans ≡ proposed.run.plan.max_replans)
    × (replanned.run.plan.revision ≤ replanned.run.plan.max_replans)
    × (replanned.run.plan.revision_history ≡ proposed.run.plan.revision_history ++ proposal ∷ [])
apply_replan-revision_example = apply_replan-revision kernel "q" proposed replanned replans

abbrev closed_run : Ctx
closed_run = ctx_after accepted (Completion.complete "done" (("works", "f1" ∷ []) ∷ []) accepted)

closes : Completion.complete "done" (("works", "f1" ∷ []) ∷ []) accepted ≡ ok (tt, closed_run)
unfolding lookup insert keys values is_substantive join emit Transitions.transitions
    Transitions.transition Transitions.status_event Readiness.readiness_blocker
    Readiness.is_ready_task Readiness.gate_blocker Readiness.gates_blocker Readiness.is_refreshable
    Readiness.promote Readiness.unblock Readiness.demote Readiness.refresh Readiness.refresh_keys
    Readiness.refresh_task Readiness.refresh_status Lineage.input_artifact_ids Lineage.gather
    Lineage.resolve Graph.graph Graph.visit_tasks Graph.visit Graph.visit_all Graph.successor
    perform Assignment.delegate Assignment.start Assignment.submit Evidence.validate Evidence.review
    Evidence.accept Evidence.candidate Evidence.candidate_gates Evidence.begin_review
    Evidence.evidence_gates Evidence.input_gates Evidence.record_acceptance
    Lineage.validate_task_inputs Lineage.validate_accepted_artifact Lineage.current_accepted
    Lineage.canonical Completion.complete Completion.completion_gates Completion.check_tasks
    Completion.check_task Completion.check_evidence Completion.check_artifacts
closes = refl

complete-IsFinished_example :
    IsFinished accepted.run (("works", "f1" ∷ []) ∷ [])
    × (is_substantive "done" ≡ true)
    × (closed_run.run ≡ record accepted.run {
      final_result = some "done";
      status = RunStatus.completed;
      plan = record accepted.run.plan { status = RunStatus.completed };
    })
complete-IsFinished_example =
    complete-IsFinished "done" (("works", "f1" ∷ []) ∷ []) accepted closed_run closes

abbrev reopened : ReplanProposal
reopened = record again { reopen = "u" ∷ [] }

-- An accepted task, and another one that failed on its own.
abbrev accepted_first : TaskNode
accepted_first = record task { status = TaskStatus.accepted }

abbrev other : TaskNode
other = record task { packet = record task.packet { task_id = "u" }; status = TaskStatus.failed }

abbrev before_reopening : Ctx
before_reopening = record blank {
  run = record blank.run {
    tasks = ("t", accepted_first) ∷ ("u", other) ∷ [];
    replans = ("q", reopened) ∷ [];
  };
}

abbrev after_reopening : Ctx
after_reopening = ctx_after before_reopening (Applying.apply_replan kernel "q" before_reopening)

reopens : Applying.apply_replan kernel "q" before_reopening ≡ ok (tt, after_reopening)
unfolding lookup insert keys values is_substantive join emit Transitions.transitions
    Transitions.transition Transitions.status_event Readiness.readiness_blocker
    Readiness.is_ready_task Readiness.gate_blocker Readiness.gates_blocker Readiness.is_refreshable
    Readiness.promote Readiness.unblock Readiness.demote Readiness.refresh Readiness.refresh_keys
    Readiness.refresh_task Readiness.refresh_status Lineage.input_artifact_ids Lineage.gather
    Lineage.resolve Graph.graph Graph.visit_tasks Graph.visit Graph.visit_all Graph.successor
    Planning.add_tasks Planning.add_each Planning.add_task Planning.enter_task
    Planning.reject_identifier_collision Planning.validate_capability_checks
    Replanning.propose_replan Replanning.is_workable Replanning.replan_defects
    Replanning.structural_defects Replanning.additions_defects Replanning.addition_defects
    Replanning.sorted Replanning.distinct Replanning.projected Replanning.cancel_tasks
    Replanning.rewire_tasks Replanning.adopt_tasks Applying.apply_replan Applying.replan_gates
    Applying.replan_authority Applying.carry_out Applying.invalidate_tasks Applying.invalidate_task
    Applying.supersede_artifacts Applying.supersede_artifact Applying.install_tasks
    Applying.revise_plan Applying.live_keys Replanning.replan_affected Replanning.spread_all
    Replanning.spread Replanning.artifacts_of
reopens = refl

stores : lookup "q" before_reopening.run.replans ≡ some reopened
unfolding lookup
stores = refl

weighs : Replanning.replan_materiality before_reopening.run reopened ≡ ok []
unfolding lookup insert keys values is_substantive join emit Transitions.transitions
    Transitions.transition Transitions.status_event Readiness.readiness_blocker
    Readiness.is_ready_task Readiness.gate_blocker Readiness.gates_blocker Readiness.is_refreshable
    Readiness.promote Readiness.unblock Readiness.demote Readiness.refresh Readiness.refresh_keys
    Readiness.refresh_task Readiness.refresh_status Lineage.input_artifact_ids Lineage.gather
    Lineage.resolve Graph.graph Graph.visit_tasks Graph.visit Graph.visit_all Graph.successor
    Planning.add_tasks Planning.add_each Planning.add_task Planning.enter_task
    Planning.reject_identifier_collision Planning.validate_capability_checks
    Replanning.propose_replan Replanning.is_workable Replanning.replan_defects
    Replanning.structural_defects Replanning.additions_defects Replanning.addition_defects
    Replanning.sorted Replanning.distinct Replanning.projected Replanning.cancel_tasks
    Replanning.rewire_tasks Replanning.adopt_tasks Applying.apply_replan Applying.replan_gates
    Applying.replan_authority Applying.carry_out Applying.invalidate_tasks Applying.invalidate_task
    Applying.supersede_artifacts Applying.supersede_artifact Applying.install_tasks
    Applying.revise_plan Applying.live_keys Replanning.replan_affected Replanning.spread_all
    Replanning.spread Replanning.artifacts_of Replanning.replan_materiality
weighs = refl

stands : lookup "t" before_reopening.run.tasks ≡ some accepted_first
unfolding lookup
stands = refl

apply_replan-immaterial_example : IsAcceptedAt "t" after_reopening.run
apply_replan-immaterial_example =
    apply_replan-immaterial kernel "q" reopened before_reopening after_reopening "t" stores weighs
      reopens (accepted_first, stands, refl)
