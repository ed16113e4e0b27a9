-- ===== src/Kernel/Completion/Finished.antt =====
-- What `complete` of walter/orchestration.py guarantees of the run that it closes.
use walter.Prelude.{
  String, Bool, true, false, not, ◌||◌, ◌≡◌, some, List, [], ◌∷◌, any, is_empty, is_subset,
  same_set, is_substantive, last?, All, arith, inl, inr, Option-cases,
}
use walter.Prelude.Dict.{Dict, keys, values}
use walter.Models.{Run, RunStatus, TaskNode, ApprovalRequest, is_accepted}
use walter.Kernel.Monad.{Ctx, ok, emit, Result-cases}
use walter.Kernel.Readiness.{is_ready_task}
use walter.Kernel.Planning.Graph.{graph}
use walter.Kernel.Completion.{
  active_tasks, check_artifact, check_task, check_tasks, check_evidence, is_outstanding,
  completion_gates, complete,
}

-- An accepted task with a last artifact, whose gates and inputs still hold.
pub record IsStanding (run : Run) (t : TaskNode) : Type 0 where
  pub accepted : is_accepted t.status ≡ true
  pub artifact_id : String
  pub last_artifact : last? t.artifact_ids ≡ some artifact_id
  pub ready : is_ready_task run t ≡ ok true

-- Every criterion of the plan, and nothing else, is answered by accepted artifacts.
pub record IsAnswered (run : Run) (evidence : Dict (List String)) : Type 0 where
  pub same_criteria : same_set (keys evidence) run.plan.completion_criteria ≡ true
  pub accepted_only :
      All
        (λ ids. (is_empty ids ≡ false) × (is_subset ids run.accepted_artifacts ≡ true))
        (values evidence)

pub record IsFinished (run : Run) (evidence : Dict (List String)) : Type 0 where
  pub some_work : is_empty (active_tasks run) ≡ false
  pub settled : is_empty run.unresolved_issues ≡ true
  pub standing : All (IsStanding run) (active_tasks run)
  pub order : List String
  pub sound_plan : graph run ≡ ok order
  pub decided : All (λ (a : ApprovalRequest). is_outstanding a ≡ false) (values run.approvals)
  pub answered : IsAnswered run evidence

check_tasks-All :
    (run : Run) (tasks : List TaskNode) (checked checked' : List String)
    → any (λ (t : TaskNode). not (is_accepted t.status)) tasks ≡ false
    → check_tasks run tasks checked ≡ ok checked'
    → All (IsStanding run) tasks
unfolding check_tasks check_task
check_tasks-All run [] checked checked' h e = tt
check_tasks-All run (t ∷ rest) checked checked' h e = elim (Option-cases (last? t.artifact_ids)) [
  | inl e1 ↦ absurd (ground arith)
  | inr (id, e1) ↦ elim (Result-cases (is_ready_task run t)) [
    | inr (x, e2) ↦ absurd (ground arith)
    | inl (false, e2) ↦ absurd (ground arith)
    | inl (true, e2) ↦ elim (Result-cases (check_artifact run id checked)) [
      | inr (x, e3) ↦ absurd (ground arith)
      | inl (more, e3) ↦ (
        record { accepted = ground arith; artifact_id = id; last_artifact = e1; ready = e2 },
        check_tasks-All run rest more checked' (ground arith) (ground arith),
      )
    ]
  ]
]

none_any : {A : Type 0} (f : A → Bool) (xs : List A) → any f xs ≡ false → All (λ a. f a ≡ false) xs
none_any f [] h = tt
none_any f (x ∷ xs) h = (ground arith, none_any f xs (ground arith))

answers :
    (accepted : List String) (lists : List (List String))
    → any (λ ids. is_empty ids || not (is_subset ids accepted)) lists ≡ false
    → All (λ ids. (is_empty ids ≡ false) × (is_subset ids accepted ≡ true)) lists
answers accepted [] h = tt
answers accepted (ids ∷ rest) h =
    ((ground arith, ground arith), answers accepted rest (ground arith))

gates-IsFinished :
    (final_result : String) (evidence : Dict (List String)) (run : Run)
    → completion_gates final_result evidence run ≡ ok tt
    → IsFinished run evidence × (is_substantive final_result ≡ true)
unfolding completion_gates
gates-IsFinished final_result evidence run e = elim (Result-cases (graph run)) [
  | inr (x, e1) ↦ absurd (ground arith)
  | inl (order, e1) ↦ elim (Result-cases (check_tasks run (active_tasks run) [])) [
    | inr (x, e2) ↦ absurd (ground arith)
    | inl (checked, e2) ↦ elim (Result-cases (check_evidence run (values evidence) checked)) [
      | inr (x, e3) ↦ absurd (ground arith)
      | inl (all, e3) ↦ (
        record {
          some_work = ground arith;
          settled = ground arith;
          standing = check_tasks-All run (active_tasks run) [] checked (ground arith) e2;
          order = order;
          sound_plan = e1;
          decided = none_any is_outstanding (values run.approvals) (ground arith);
          answered = record {
            same_criteria = ground arith;
            accepted_only = answers run.accepted_artifacts (values evidence) (ground arith);
          };
        },
        ground arith,
      )
    ]
  ]
]

-- A run is completed only if it has work, all of it is accepted with a last artifact and with gates
-- and inputs that still hold, its plan passes the graph walk, nothing is unresolved, no required
-- approval is open, and every criterion is answered by accepted artifacts; the completed run has
-- the result, and its tasks, artifacts and approvals are those before.
pub complete-IsFinished :
    (final_result : String) (evidence : Dict (List String)) (c c' : Ctx)
    → complete final_result evidence c ≡ ok (tt, c')
    → IsFinished c.run evidence
      × (is_substantive final_result ≡ true)
      × (c'.run ≡ record c.run {
        final_result = some final_result;
        status = RunStatus.completed;
        plan = record c.run.plan { status = RunStatus.completed };
      })
unfolding complete emit
complete-IsFinished final_result evidence c c' e =
    elim (Result-cases (completion_gates final_result evidence c.run)) [
      | inr (x, e1) ↦ absurd (ground arith)
      | inl (_, e1) ↦
          let (finished, told) = gates-IsFinished final_result evidence c.run e1 in
          (finished, told, ground arith)
    ]
