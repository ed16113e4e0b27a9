-- ===== src/Kernel/Replanning/Revising.antt =====
-- What `apply_replan` of walter/orchestration.py does to the plan.
use walter.Prelude.{
  false, refl, is_empty, ◌+◌, ◌≤◌, String, true, ◌≡◌, ap, ◌∙◌, some, List, [], ◌∷◌, ◌++◌, arith,
  inl, inr, Option-cases,
}
use walter.Prelude.Dict.{lookup}
use walter.Models.{Run, WorkPlan, ReplanProposal, EventData}
use walter.Kernel.Monad.{Ctx, Op, ok, bind, reads, gets, emit, ◌>>=◌, ◌>>◌, Result-cases}
use walter.Kernel.Readiness.{refresh}
use walter.Kernel.Authority.{Orchestrator}
use walter.Kernel.Approvals.Deciding.{IsGranted, approved-IsGranted}
use walter.Kernel.Planning.Graph.{graph}
use walter.Kernel.Replanning.{replan_affected, sorted, insert_text, is_workable}
use walter.Kernel.Replanning.Applying.{
  replan_scope, replan_authority, supersede_artifact, supersede_artifacts, invalidate_task,
  invalidate_tasks, install_tasks, live_keys, revise_plan, replan_gates, carry_out, apply_replan,
}
use walter.Kernel.Evolution.Frames.{
  Leaves, leaving, then_split, then-Leaves, pure-Leaves, reads-Leaves, modify-Leaves,
  refresh-Leaves,
}
use walter.Kernel.Evolution.Entering.{structural-left}
use walter.Kernel.Evolution.Replanning.{workable-structural, replan_gates-workable}

abbrev plan_of : Run → WorkPlan
plan_of run = run.plan

refresh_plan : Leaves plan_of refresh
refresh_plan = record { leaves = λ c c' a e. ap plan_of (refresh-Leaves.leaves c c' a e) }

supersede_artifact-Leaves :
    (proposal : ReplanProposal) (id : String) → Leaves plan_of (supersede_artifact proposal id)
unfolding supersede_artifact
supersede_artifact-Leaves proposal id = search (leaving, modify-Leaves) depth 40

supersede_artifacts-Leaves :
    (proposal : ReplanProposal) (ids : List String)
    → Leaves plan_of (supersede_artifacts proposal ids)
unfolding supersede_artifacts
supersede_artifacts-Leaves proposal [] = pure-Leaves tt
supersede_artifacts-Leaves proposal (id ∷ rest) =
    then-Leaves (supersede_artifact-Leaves proposal id)
      λ _. supersede_artifacts-Leaves proposal rest

invalidate_task-Leaves :
    (proposal : ReplanProposal) (key : String) → Leaves plan_of (invalidate_task proposal key)
unfolding invalidate_task
invalidate_task-Leaves proposal key =
    search (leaving, modify-Leaves, supersede_artifacts-Leaves) depth 40

invalidate_tasks-Leaves :
    (proposal : ReplanProposal) (slots : List String)
    → Leaves plan_of (invalidate_tasks proposal slots)
unfolding invalidate_tasks
invalidate_tasks-Leaves proposal [] = pure-Leaves tt
invalidate_tasks-Leaves proposal (key ∷ rest) =
    then-Leaves (invalidate_task-Leaves proposal key) λ _. invalidate_tasks-Leaves proposal rest

install_tasks-Leaves : (proposal : ReplanProposal) → Leaves plan_of (install_tasks proposal)
unfolding install_tasks
install_tasks-Leaves proposal = search (leaving, modify-Leaves) depth 40

-- The plan after a revision, whatever its list of tasks.
abbrev revised : WorkPlan → ReplanProposal → List String → WorkPlan
revised plan proposal slots = record plan {
  task_ids = slots;
  revision = plan.revision + 1;
  revision_history = plan.revision_history ++ proposal ∷ [];
}

finish_replan : ReplanProposal → List String → Op (Unit {0})
finish_replan proposal affected = gets (λ run. run.plan.revision) >>= λ revision.
    emit "plan.replan_applied" (EventData.replanned proposal.id revision (sorted affected))
    >> refresh

finish_replan-Leaves :
    (proposal : ReplanProposal) (affected : List String)
    → Leaves plan_of (finish_replan proposal affected)
unfolding finish_replan
finish_replan-Leaves proposal affected = search (leaving, refresh_plan) depth 40

abbrev checked_graph : Op (Unit {0})
checked_graph = reads (λ run. bind (graph run) λ _. ok tt)

revise_plan-plan :
    (proposal : ReplanProposal) (c c' : Ctx)
    → revise_plan proposal c ≡ ok (tt, c')
    → c'.run.plan ≡ revised c.run.plan proposal (live_keys c.run.tasks)
unfolding revise_plan
revise_plan-plan proposal c c' e = ground arith

carry_out-plan :
    (proposal : ReplanProposal) (c c' : Ctx)
    → carry_out proposal c ≡ ok (tt, c')
    → (slots : List String) × (c'.run.plan ≡ revised c.run.plan proposal slots)
unfolding carry_out finish_replan
carry_out-plan proposal c c' e = elim (Result-cases (replan_affected c.run proposal)) [
  | inr (x, e1) ↦ absurd (ground arith)
  | inl (affected, e1) ↦
      let finish = finish_replan proposal affected in
      let (_, c1, f1, r1) =
        then_split (invalidate_tasks proposal affected)
          (λ _. install_tasks proposal >> (checked_graph >> (revise_plan proposal >> finish))) c c'
          tt (ground arith) in
      let (_, c2, f2, r2) =
        then_split (install_tasks proposal) (λ _. checked_graph >> (revise_plan proposal >> finish))
          c1 c' tt r1 in
      let (_, c3, f3, r3) =
        then_split checked_graph (λ _. revise_plan proposal >> finish) c2 c' tt r2 in
      let (_, c4, f4, r4) = then_split (revise_plan proposal) (λ _. finish) c3 c' tt r3 in
      let before =
        checked_graph-Leaves.leaves c2 c3 tt f3
        ∙ (install_tasks-Leaves proposal).leaves c1 c2 tt f2
        ∙ (invalidate_tasks-Leaves proposal affected).leaves c c1 tt f1 in
      (
        live_keys c3.run.tasks,
        (finish_replan-Leaves proposal affected).leaves c4 c' tt r4
            ∙ revise_plan-plan proposal c3 c4 f4
            ∙ ap (λ plan. revised plan proposal (live_keys c3.run.tasks)) before,
      )
]
  where
    checked_graph-Leaves : Leaves plan_of checked_graph
    checked_graph-Leaves = reads-Leaves _

replan_gates-authority :
    (o : Orchestrator) (proposal : ReplanProposal) (run : Run)
    → replan_gates o proposal run ≡ ok tt
    → (proposal.base_revision ≡ run.plan.revision) × (replan_authority o proposal run ≡ ok tt)
unfolding replan_gates
replan_gates-authority o proposal run e = elim (Result-cases (is_workable proposal run)) [
  | inr (x, e1) ↦ absurd (ground arith)
  | inl (_, e1) ↦ (ground arith, ground arith)
]

-- Where a proposal asks for an approval, a human approved exactly it.
abbrev pub IsAuthorized : Orchestrator → Run → ReplanProposal → Type 0
IsAuthorized o run proposal =
    proposal.requires_approval ≡ true
    → (id : String) × (proposal.approval_id ≡ some id)
      × IsGranted o run id "replan" (replan_scope proposal)

authority-IsAuthorized :
    (o : Orchestrator) (run : Run) (proposal : ReplanProposal)
    → replan_authority o proposal run ≡ ok tt
    → IsAuthorized o run proposal
unfolding replan_authority
authority-IsAuthorized o run proposal e asks = elim (Option-cases proposal.approval_id) [
  | inl e1 ↦ absurd (ground arith)
  | inr (id, e1) ↦
      (id, e1, approved-IsGranted o run id "replan" (replan_scope proposal) (ground arith))
]

-- A replan that is applied was stored, is based on the current revision, and is approved by a human
-- where it asks for that; it raises the revision of the plan by one, which stays within the budget
-- of replans, and appends the proposal to the history of the plan.
pub apply_replan-revision :
    (o : Orchestrator) (proposal_id : String) (c c' : Ctx)
    → apply_replan o proposal_id c ≡ ok (tt, c')
    → (proposal : ReplanProposal) × (lookup proposal_id c.run.replans ≡ some proposal)
      × (proposal.base_revision ≡ c.run.plan.revision)
      × IsAuthorized o c.run proposal
      × (c'.run.plan.revision ≡ c.run.plan.revision + 1)
      × (c'.run.plan.max_replans ≡ c.run.plan.max_replans)
      × (c'.run.plan.revision ≤ c'.run.plan.max_replans)
      × (c'.run.plan.revision_history ≡ c.run.plan.revision_history ++ proposal ∷ [])
unfolding apply_replan
apply_replan-revision o proposal_id c c' e =
    elim (Option-cases (lookup proposal_id c.run.replans)) [
      | inl e1 ↦ absurd (ground arith)
      | inr (p, e1) ↦ elim (Result-cases (replan_gates o p c.run)) [
        | inr (x, e2) ↦ absurd (ground arith)
        | inl (_, e2) ↦
            let (current, authority) = replan_gates-authority o p c.run e2 in
            let left =
              structural-left c.run p
                (workable-structural c.run p (replan_gates-workable o p c.run e2)) in
            let (slots, plan) = carry_out-plan p c c' (ground arith) in
            let next = ap (λ (w : WorkPlan). w.revision) plan in
            let same = ap (λ (w : WorkPlan). w.max_replans) plan in
            (
              p,
              e1,
              current,
              authority-IsAuthorized o c.run p authority,
              next,
              same,
              omega (arith, next, same, left),
              ap (λ (w : WorkPlan). w.revision_history) plan,
            )
      ]
    ]

inserted_some : (s : String) (xs : List String) → is_empty (insert_text s xs) ≡ false
unfolding insert_text
inserted_some s [] = refl
inserted_some s (x ∷ xs) = ground arith

-- Only the empty list is sorted to the empty list.
pub sorted-nil : (xs : List String) → sorted xs ≡ [] → xs ≡ []
unfolding sorted
sorted-nil [] e = refl
sorted-nil (x ∷ xs) e = absurd (ground (arith, inserted_some x (sorted xs)))
