-- ===== src/Kernel/Replanning/Applying.antt =====
-- `apply_replan` of walter/orchestration.py. The affected tasks are a set in the source; here they
-- are taken in the order in which they were found.
use walter.Prelude.{◌+◌, String, not, none, some, List, [], ◌∷◌, ◌++◌, ◌=ℕ=◌, elem, if◌then◌else◌}
use walter.Prelude.Dict.{Dict, lookup}
use walter.Models.{
  Run, TaskNode, TaskStatus, ArtifactStatus, ReplanProposal, EventData, Json, Fields,
}
use walter.Kernel.Monad.{
  Error, Result, ok, bind, refuse, or_raise, Op, ◌>>=◌, ◌>>◌, pure, gets, reads, modify, put_task,
  put_artifact, task_at, artifact_at, emit,
}
use walter.Kernel.Readiness.{refresh}
use walter.Kernel.Authority.{Orchestrator}
use walter.Kernel.Approvals.{approved}
use walter.Kernel.Approvals.Gates.{remove_first}
use walter.Kernel.Completion.{is_cancelled}
use walter.Kernel.Planning.Graph.{graph}
use walter.Kernel.Replanning.{rewire_tasks, adopt_tasks, replan_affected, is_workable, sorted}

-- `{"proposal_id": ..., "base_revision": ...}`
abbrev pub replan_scope : ReplanProposal → Fields
replan_scope proposal =
    Fields.field "proposal_id" (Json.text proposal.id)
      (Fields.field "base_revision" (Json.number proposal.base_revision) Fields.end)

-- The exact approval, where the proposal asks for one.
unfoldable pub replan_authority : Orchestrator → ReplanProposal → Run → Result (Unit {0})
replan_authority o proposal run =
    if proposal.requires_approval
    then (bind
        (or_raise proposal.approval_id (Error.gate_error "Exact scoped human approval required"))
        λ id. approved o run id "replan" (replan_scope proposal))
    else ok tt

-- One artifact of an affected task loses its standing.
unfoldable pub supersede_artifact : ReplanProposal → (artifact_id : String) → Op (Unit {0})
supersede_artifact proposal artifact_id = do
  artifact ← reads (artifact_at artifact_id)
  put_artifact artifact_id (record artifact { status = ArtifactStatus.superseded })
  emit "artifact.superseded" (
      EventData.fields (
        ("artifact_id", some artifact_id)
        ∷ ("reason", some proposal.trigger)
        ∷ ("proposal_id", some proposal.id)
        ∷ []))
  modify
      (λ run. record run { accepted_artifacts = remove_first artifact_id run.accepted_artifacts })

unfoldable pub supersede_artifacts : ReplanProposal → List String → Op (Unit {0})
supersede_artifacts proposal [] = pure tt
supersede_artifacts proposal (id ∷ rest) =
    supersede_artifact proposal id >> supersede_artifacts proposal rest

-- A removed task is cancelled; another one is planned again, with its budgets counted from now.
abbrev pub invalidated : ReplanProposal → (key : String) → TaskNode → TaskNode
invalidated proposal key task =
    if elem key proposal.remove
    then record task {
      status = TaskStatus.cancelled;
      assignment = none;
      result = none;
      blocker = none;
    }
    else record task {
      status = TaskStatus.planned;
      assignment = none;
      result = none;
      blocker = none;
      attempt_baseline = task.attempts;
      revision_baseline = task.revisions;
    }

unfoldable pub invalidate_task : ReplanProposal → (key : String) → Op (Unit {0})
invalidate_task proposal key = do
  task ← reads (task_at key)
  supersede_artifacts proposal task.artifact_ids
  put_task key (invalidated proposal key task)
  emit "task.invalidated"
      (EventData.fields (("task_id", some key) ∷ ("reason", some proposal.trigger) ∷ []))

-- `for key in affected`
unfoldable pub invalidate_tasks : ReplanProposal → List String → Op (Unit {0})
invalidate_tasks proposal [] = pure tt
invalidate_tasks proposal (key ∷ rest) =
    invalidate_task proposal key >> invalidate_tasks proposal rest

-- `[key for key, t in run.tasks.items() if t.status != TaskStatus.CANCELLED]`
unfoldable pub live_keys : Dict TaskNode → List String
live_keys [] = []
live_keys ((key, t) ∷ rest) = if is_cancelled t.status then live_keys rest else key ∷ live_keys rest

-- The dependencies and the new tasks of the proposal.
unfoldable pub install_tasks : ReplanProposal → Op (Unit {0})
install_tasks proposal = do
  rewired ← reads (λ run. rewire_tasks proposal.dependencies run.tasks)
  modify (λ run. record run { tasks = adopt_tasks proposal.add rewired })

-- The new revision of the plan.
unfoldable pub revise_plan : ReplanProposal → Op (Unit {0})
revise_plan proposal = modify (λ run. record run {
  plan = record run.plan {
    task_ids = live_keys run.tasks;
    revision = run.plan.revision + 1;
    revision_history = run.plan.revision_history ++ proposal ∷ [];
  };
})

-- The checks of `apply_replan`, in the order of the source.
unfoldable pub replan_gates : Orchestrator → ReplanProposal → Run → Result (Unit {0})
replan_gates o proposal run =
    bind
      (refuse (not (proposal.base_revision =ℕ= run.plan.revision))
        (Error.gate_error "Stale proposal"))
      λ _. bind (is_workable proposal run) λ _. replan_authority o proposal run

-- What `apply_replan` changes.
unfoldable pub carry_out : ReplanProposal → Op (Unit {0})
carry_out proposal = do
  affected ← reads (λ run. replan_affected run proposal)
  invalidate_tasks proposal affected
  install_tasks proposal
  reads (λ run. bind (graph run) λ _. ok tt)
  revise_plan proposal
  revision ← gets (λ run. run.plan.revision)
  emit "plan.replan_applied" (EventData.replanned proposal.id revision (sorted affected))
  refresh

unfoldable pub apply_replan : Orchestrator → (proposal_id : String) → Op (Unit {0})
apply_replan o proposal_id = do
  proposal ← reads (λ run. or_raise (lookup proposal_id run.replans) (Error.key_error proposal_id))
  reads (replan_gates o proposal)
  carry_out proposal
