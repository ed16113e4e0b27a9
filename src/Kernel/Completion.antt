-- ===== src/Kernel/Completion.antt =====
-- `complete` of walter/orchestration.py. The message that shows the accepted shape of the evidence
-- is shortened.
pub mod Finished
use walter.Prelude.{
  ℕ, String, Bool, true, false, not, ◌&&◌, ◌||◌, Option, none, some, List, [], ◌∷◌, ◌++◌, select,
  any, is_empty, is_subset, same_set, is_substantive, last?,
}
use walter.Prelude.Dict.{Dict, keys, values}
use walter.Models.{
  Run, RunStatus, TaskNode, TaskStatus, ApprovalRequest, EventData, is_accepted, is_pending,
}
use walter.Kernel.Monad.{
  Error, Result, ok, err, bind, refuse, or_raise, Op, ◌>>=◌, ◌>>◌, gets, reads, raise_if, modify,
  emit,
}
use walter.Kernel.Lineage.{validate_accepted_artifact, lineage_fuel}
use walter.Kernel.Readiness.{is_ready_task}
use walter.Kernel.Planning.Graph.{graph}

abbrev pub is_cancelled : TaskStatus → Bool
is_cancelled TaskStatus.cancelled = true
is_cancelled _ = false

-- `[t for t in run.tasks.values() if t.status != TaskStatus.CANCELLED]`
abbrev pub active_tasks : Run → List TaskNode
active_tasks run = select (λ (t : TaskNode). not (is_cancelled t.status)) (values run.tasks)

-- `self._validate_accepted_artifact(run, artifact_id, checked=checked)`
abbrev pub check_artifact : Run → String → List String → Result (List String)
check_artifact run id checked = validate_accepted_artifact (lineage_fuel run) run [] id checked

-- One accepted task: its artifact and the lineage of its inputs.
unfoldable pub check_task : Run → TaskNode → List String → Result (List String)
check_task run task checked =
    bind
      (or_raise (last? task.artifact_ids)
        (Error.gate_error "Accepted task inputs are no longer valid"))
      λ id. bind (is_ready_task run task) λ ready.
        bind (refuse (not ready) (Error.gate_error "Accepted task inputs are no longer valid"))
          λ _. check_artifact run id checked

unfoldable pub check_tasks : Run → List TaskNode → List String → Result (List String)
check_tasks run [] checked = ok checked
check_tasks run (task ∷ rest) checked =
    bind (check_task run task checked) λ checked'. check_tasks run rest checked'

unfoldable pub check_artifacts : Run → List String → List String → Result (List String)
check_artifacts run [] checked = ok checked
check_artifacts run (id ∷ rest) checked =
    bind (check_artifact run id checked) λ checked'. check_artifacts run rest checked'

-- `for ids in criterion_evidence.values(): for artifact_id in ids: ...`
unfoldable pub check_evidence : Run → List (List String) → List String → Result (List String)
check_evidence run [] checked = ok checked
check_evidence run (ids ∷ rest) checked =
    bind (check_artifacts run ids checked) λ checked'. check_evidence run rest checked'

-- The evidence names exactly the criteria, each with accepted artifacts.
abbrev pub is_covering : Run → (evidence : Dict (List String)) → Bool
is_covering run evidence =
    same_set (keys evidence) run.plan.completion_criteria
    && not
        (any (λ ids. is_empty ids || not (is_subset ids run.accepted_artifacts)) (values evidence))

abbrev pub is_outstanding : ApprovalRequest → Bool
is_outstanding request = request.required && is_pending request.status

-- The gates of `complete`, in the order of the source.
unfoldable pub completion_gates :
    (final_result : String) → (evidence : Dict (List String)) → Run → Result (Unit {0})
completion_gates final_result evidence run =
    bind
      (refuse
        (is_empty (active_tasks run)
          || any (λ (t : TaskNode). not (is_accepted t.status)) (active_tasks run)
          || not (is_empty run.unresolved_issues))
        (Error.gate_error "Required work remains unresolved"))
      λ _. bind (graph run) λ _. bind (check_tasks run (active_tasks run) []) λ checked.
        bind
          (refuse (any is_outstanding (values run.approvals))
            (Error.gate_error "Outstanding required approval gate"))
          λ _.
            bind
              (refuse (not (is_covering run evidence))
                (Error.gate_error "criterion_evidence must be a JSON object"))
              λ _. bind (check_evidence run (values evidence) checked) λ _.
                refuse (not (is_substantive final_result))
                  (Error.gate_error "Final result required")

unfoldable pub complete : (final_result : String) → (evidence : Dict (List String)) → Op (Unit {0})
complete final_result evidence = do
  reads (completion_gates final_result evidence)
  modify (λ run. record run {
    final_result = some final_result;
    status = RunStatus.completed;
    plan = record run.plan { status = RunStatus.completed };
  })
  emit "run.completed" (EventData.listed evidence)
