-- ===== src/Kernel/Evolution/Replanning.antt =====
-- `propose_replan` and `apply_replan` of walter/orchestration.py: they keep the tasks within their
-- budgets and the work in flight held, if the new tasks arrive with revisions left.
use walter.Prelude.{
  String, true, ◌≡◌, refl, subst, some, List, [], ◌∷◌, arith, All, inl, inr, Bool-cases,
  Option-cases, elem,
}
use walter.Prelude.Dict.{Dict, lookup, insert}
use walter.Models.{Run, TaskNode, ReplanProposal}
use walter.Kernel.Monad.{Ctx, ok, Result-cases}
use walter.Kernel.Authority.{Orchestrator}
use walter.Kernel.Planning.{is_fresh_task}
use walter.Kernel.Replanning.{
  structural_defects, replan_defects, is_workable, rewire_tasks, adopt_tasks, propose_replan,
}
use walter.Kernel.Replanning.Applying.{
  supersede_artifact, supersede_artifacts, invalidated, invalidate_task, invalidate_tasks,
  install_tasks, revise_plan, replan_gates, carry_out, apply_replan,
}
use walter.Kernel.Evolution.Order.{
  IsFine, IsOrderly, IsOrderly-insert, Keeps, keeping, then-Keeps, pure-Keeps, task-Keeps,
  modify-Keeps,
}
use walter.Kernel.Evolution.Entering.{HasRevisionsLeft, fresh-IsFine, structural-fresh}

pub propose_replan-Keeps : (proposal : ReplanProposal) → Keeps (propose_replan proposal)
unfolding propose_replan
propose_replan-Keeps proposal = search (keeping, modify-Keeps) depth 40

invalidated-IsFine :
    (proposal : ReplanProposal) (key : String) (t : TaskNode)
    → IsFine t
    → IsFine (invalidated proposal key t)
invalidated-IsFine proposal key t fine = elim (Bool-cases (elem key proposal.remove)) [
  | inl removed ↦ rw removed (fine.0, refl)
  | inr kept ↦ rw kept ((omega arith, omega arith), refl)
]

supersede_artifact-Keeps :
    (proposal : ReplanProposal) (id : String) → Keeps (supersede_artifact proposal id)
unfolding supersede_artifact
supersede_artifact-Keeps proposal id = search (keeping, modify-Keeps) depth 40

supersede_artifacts-Keeps :
    (proposal : ReplanProposal) (ids : List String) → Keeps (supersede_artifacts proposal ids)
unfolding supersede_artifacts
supersede_artifacts-Keeps proposal [] = pure-Keeps tt
supersede_artifacts-Keeps proposal (id ∷ rest) =
    then-Keeps (supersede_artifact-Keeps proposal id) λ _. supersede_artifacts-Keeps proposal rest

invalidate_task-Keeps :
    (proposal : ReplanProposal) (key : String) → Keeps (invalidate_task proposal key)
unfolding invalidate_task
invalidate_task-Keeps proposal key = task-Keeps key λ t fine.
    let good = invalidated-IsFine proposal key t fine in
    search (keeping, supersede_artifacts-Keeps) depth 20

invalidate_tasks-Keeps :
    (proposal : ReplanProposal) (slots : List String) → Keeps (invalidate_tasks proposal slots)
unfolding invalidate_tasks
invalidate_tasks-Keeps proposal [] = pure-Keeps tt
invalidate_tasks-Keeps proposal (key ∷ rest) =
    then-Keeps (invalidate_task-Keeps proposal key) λ _. invalidate_tasks-Keeps proposal rest

rewire_tasks-IsOrderly :
    (dependencies : Dict (List String)) (d d' : Dict TaskNode)
    → rewire_tasks dependencies d ≡ ok d'
    → IsOrderly d
    → IsOrderly d'
unfolding rewire_tasks
rewire_tasks-IsOrderly [] d d' e h = subst IsOrderly (ground (arith, e)) h
rewire_tasks-IsOrderly ((key, deps) ∷ rest) d d' e h = elim (Option-cases (lookup key d)) [
  | inl e1 ↦ absurd (ground arith)
  | inr (t, e1) ↦
      rewire_tasks-IsOrderly rest
        (insert key (record t { packet = record t.packet { dependencies = deps } }) d) d'
        (ground arith)
        (IsOrderly-insert d key (record t { packet = record t.packet { dependencies = deps } })
          (h key t e1) h)
]

adopt_tasks-IsOrderly :
    (tasks : List TaskNode) (d : Dict TaskNode)
    → All IsFine tasks
    → IsOrderly d
    → IsOrderly (adopt_tasks tasks d)
unfolding adopt_tasks
adopt_tasks-IsOrderly [] d fine h = h
adopt_tasks-IsOrderly (t ∷ rest) d fine h =
    adopt_tasks-IsOrderly rest (insert t.packet.task_id t d) fine.1
      (IsOrderly-insert d t.packet.task_id t fine.0 h)

install_tasks-Keeps :
    (proposal : ReplanProposal) → All IsFine proposal.add → Keeps (install_tasks proposal)
unfolding install_tasks
install_tasks-Keeps proposal fine = record {
  keeps = λ c c' a e h. elim (Result-cases (rewire_tasks proposal.dependencies c.run.tasks)) [
    | inr (x, e1) ↦ absurd (ground arith)
    | inl (d, e1) ↦ subst IsOrderly (installed c c' a d e1 e) (
        adopt_tasks-IsOrderly proposal.add d fine
          (rewire_tasks-IsOrderly proposal.dependencies c.run.tasks d e1 h))
  ];
}
  where
    installed :
        (c c' : Ctx) (a : Unit {0}) (d : Dict TaskNode)
        → rewire_tasks proposal.dependencies c.run.tasks ≡ ok d
        → install_tasks proposal c ≡ ok (a, c')
        → adopt_tasks proposal.add d ≡ c'.run.tasks
    installed c c' a d e1 e = ground arith

revise_plan-Keeps : (proposal : ReplanProposal) → Keeps (revise_plan proposal)
unfolding revise_plan
revise_plan-Keeps proposal = search modify-Keeps

carry_out-Keeps : (proposal : ReplanProposal) → All IsFine proposal.add → Keeps (carry_out proposal)
unfolding carry_out
carry_out-Keeps proposal fine =
    search (keeping, invalidate_tasks-Keeps, install_tasks-Keeps, revise_plan-Keeps) depth 40

pub workable-structural :
    (run : Run) (proposal : ReplanProposal)
    → is_workable proposal run ≡ ok tt
    → structural_defects run proposal ≡ ok []
unfolding is_workable replan_defects
workable-structural run proposal e = elim (Result-cases (structural_defects run proposal)) [
  | inr (x, e1) ↦ absurd (ground arith)
  | inl ([], e1) ↦ e1
  | inl (d ∷ ds, e1) ↦ absurd (ground arith)
]

all-IsFine :
    (run : Run) (tasks : List TaskNode)
    → All (λ t. is_fresh_task run t ≡ true) tasks
    → All HasRevisionsLeft tasks
    → All IsFine tasks
all-IsFine run [] fresh left = tt
all-IsFine run (t ∷ rest) fresh left =
    (fresh-IsFine run t fresh.0 left.0, all-IsFine run rest fresh.1 left.1)

pub replan_gates-workable :
    (o : Orchestrator) (proposal : ReplanProposal) (run : Run)
    → replan_gates o proposal run ≡ ok tt
    → is_workable proposal run ≡ ok tt
unfolding replan_gates
replan_gates-workable o proposal run e = elim (Result-cases (is_workable proposal run)) [
  | inr (x, e1) ↦ absurd (ground arith)
  | inl (_, e1) ↦ e1
]

-- If the stored proposal brings tasks with revisions left.
pub apply_replan-IsOrderly :
    (o : Orchestrator) (proposal_id : String) (c c' : Ctx)
    → ((p : ReplanProposal)
        → lookup proposal_id c.run.replans ≡ some p
        → All HasRevisionsLeft p.add)
    → apply_replan o proposal_id c ≡ ok (tt, c')
    → IsOrderly c.run.tasks
    → IsOrderly c'.run.tasks
unfolding apply_replan
apply_replan-IsOrderly o proposal_id c c' left e h =
    elim (Option-cases (lookup proposal_id c.run.replans)) [
      | inl e1 ↦ absurd (ground arith)
      | inr (p, e1) ↦ elim (Result-cases (replan_gates o p c.run)) [
        | inr (x, e2) ↦ absurd (ground arith)
        | inl (_, e2) ↦
            let fresh =
              structural-fresh c.run p
                (workable-structural c.run p (replan_gates-workable o p c.run e2)) in
            (carry_out-Keeps p (all-IsFine c.run p.add fresh (left p e1))).keeps c c' tt
              (ground arith) h
      ]
    ]
