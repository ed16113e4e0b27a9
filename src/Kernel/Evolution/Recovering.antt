-- ===== src/Kernel/Evolution/Recovering.antt =====
-- `fail`, `fail_assignment`, `recover`, `resume` and `abandon` of walter/orchestration.py: how they
-- let the tasks evolve.
use walter.Prelude.{
  ◌+◌, String, ◌≡◌, refl, sym, ap, true, false, Option, none, some, List, [], ◌∷◌, arith,
  Option-cases, Bool-cases, inl, inr, append-nil, last?, ◌++◌, ◌∙◌,
}
use walter.Prelude.Dict.{lookup, insert, keys}
use walter.Models.{
  Run, TaskNode, TaskStatus, FailureClass, WorkerFailure, RecoveryDecision, is_assigned,
}
use walter.Models.BlockerReason
use walter.Kernel.Monad.{Ctx, ok, emit, Result-cases}
use walter.Kernel.Authority.{Orchestrator}
use walter.Kernel.Transitions.{transitions}
use walter.Kernel.Recovery.{
  RecoveryAction, recovery_action, revisions_exhausted, fail_task, fail, fail_assignment,
  route_task, reject_candidate, find_failure, is_settled, recovery_decision, record_recovery,
  recover, escalation_blocker,
}
use walter.Kernel.Operator.{resume, resume_keys, resume_task, interrupt, interrupted, abandon}
use walter.Kernel.Evolution.{is_delegated, Evolves-moved, Evolves-restated}
use walter.Kernel.Evolution.Slots.{
  TasksEvolve, TasksEvolve-trans, TasksEvolve-same, TasksEvolve-twice,
}
use walter.Kernel.Evolution.Moves.{
  no_moves, fail_moves, resume_moves, recover_moves, fail_listed, resume_listed,
}

module _ (key : String) (t : TaskNode) (c c' : Ctx) (found : lookup key c.run.tasks ≡ some t) where
  fail_task-evolves :
      (kind : FailureClass) (evidence new_id : String) (f : WorkerFailure)
      → fail_task key t kind evidence new_id c ≡ ok (f, c')
      → TasksEvolve fail_moves c.run.tasks c'.run.tasks
  unfolding fail_task
  fail_task-evolves kind evidence new_id f h =
      TasksEvolve-twice fail_moves key t (record t { status = TaskStatus.failed })
        (record t { status = TaskStatus.failed; blocker = some evidence }) c.run.tasks c'.run.tasks
        found
        (Evolves-restated t TaskStatus.failed (some evidence) (ground arith)
          (fail_listed t.status (ground arith)) refl)
        (ground arith)

  interrupt-evolves :
      (new_id : String)
      → is_assigned t.status ≡ true
      → interrupt key t new_id c ≡ ok (tt, c')
      → TasksEvolve resume_moves c.run.tasks c'.run.tasks
  unfolding interrupt
  interrupt-evolves new_id held h =
      TasksEvolve-twice resume_moves key t (record t { status = TaskStatus.failed })
        (record t { status = TaskStatus.failed; blocker = some interrupted }) c.run.tasks
        c'.run.tasks found
        (Evolves-restated t TaskStatus.failed (some interrupted) (ground arith)
          (resume_listed t.status held) refl)
        (ground arith)

  -- The part that `retry`, `replace`, `escalate` and `replan` share.
  rerouted :
      (s : TaskStatus) (blocker : Option String)
      → transitions t.status s ≡ true
      → recover_moves t.status s ≡ true
      → is_delegated s ≡ false
      → c'.run.tasks
        ≡ insert key
            (record t { status = s; blocker = blocker })
            (insert key (record t { status = s }) c.run.tasks)
      → TasksEvolve recover_moves c.run.tasks c'.run.tasks
  rerouted s blocker legal listed other e =
      TasksEvolve-twice recover_moves key t (record t { status = s })
        (record t { status = s; blocker = blocker }) c.run.tasks c'.run.tasks found
        (Evolves-restated t s blocker legal listed other) e

  route_task-evolves :
      (action : RecoveryAction) (f : WorkerFailure) (reason : String)
      → t.status ≡ TaskStatus.failed
      → (action ≡ RecoveryAction.revise → revisions_exhausted t ≡ false)
      → route_task action key t f reason c ≡ ok (tt, c')
      → TasksEvolve recover_moves c.run.tasks c'.run.tasks
  unfolding route_task
  route_task-evolves RecoveryAction.retry f reason broken left h =
      rerouted TaskStatus.ready none (ground arith) (rw broken) refl (ground arith)
  route_task-evolves RecoveryAction.revise f reason broken left h =
      let free = left refl in
      TasksEvolve-twice recover_moves key t
        (record t { revisions = t.revisions + 1; status = TaskStatus.revision_required })
        (record t {
          revisions = t.revisions + 1;
          status = TaskStatus.revision_required;
          blocker = some f.evidence;
        })
        c.run.tasks c'.run.tasks found
        (Evolves-moved t _ (ground arith) (rw broken) refl refl refl (λ w. (w.0, ground arith))
          ([], sym (append-nil _)))
        (ground arith)
  route_task-evolves RecoveryAction.replace f reason broken left h =
      rerouted TaskStatus.replaced (some BlockerReason.worker_replacement_required) (ground arith)
        (rw broken) refl (ground arith)
  route_task-evolves RecoveryAction.escalate f reason broken left h =
      elim (Result-cases (escalation_blocker f.classification)) [
        | inr (_, e) ↦ absurd (ground arith)
        | inl (b, e) ↦
            rerouted TaskStatus.blocked (some b) (ground arith) (rw broken) refl (ground arith)
      ]
  route_task-evolves RecoveryAction.replan f reason broken left h =
      rerouted TaskStatus.blocked (some BlockerReason.manager_replan_required) (ground arith)
        (rw broken) refl (ground arith)

-- `recover` revises only within the revision budget.
pub recovery_action_revise :
    (kind : FailureClass) (t : TaskNode)
    → recovery_action kind t ≡ RecoveryAction.revise
    → revisions_exhausted t ≡ false
unfolding recovery_action
recovery_action_revise kind t h = ground arith

pub fail-evolves :
    (key : String) (kind : FailureClass) (evidence new_id : String) (c c' : Ctx) (f : WorkerFailure)
    → fail key kind evidence new_id c ≡ ok (f, c')
    → TasksEvolve fail_moves c.run.tasks c'.run.tasks
unfolding fail
fail-evolves key kind evidence new_id c c' f h = elim (Option-cases (lookup key c.run.tasks)) [
  | inl e ↦ absurd (ground arith)
  | inr (t, e) ↦ fail_task-evolves key t c c' e kind evidence new_id f (ground arith)
]

pub fail_assignment-evolves :
    (key id worker_id : String) (kind : FailureClass) (evidence new_id : String) (c c' : Ctx)
    (f : WorkerFailure)
    → fail_assignment key id worker_id kind evidence new_id c ≡ ok (f, c')
    → TasksEvolve fail_moves c.run.tasks c'.run.tasks
unfolding fail_assignment
fail_assignment-evolves key id worker_id kind evidence new_id c c' f h =
    elim (Option-cases (lookup key c.run.tasks)) [
      | inl e ↦ absurd (ground arith)
      | inr (t, e) ↦ fail_task-evolves key t c c' e kind evidence new_id f (ground arith)
    ]

pub reject_candidate-same :
    (slot : Option String) (reason failure_id : String) (c c' : Ctx)
    → reject_candidate slot reason failure_id c ≡ ok (tt, c')
    → c'.run.tasks ≡ c.run.tasks
unfolding reject_candidate emit
reject_candidate-same none reason failure_id c c' h = ground arith
reject_candidate-same (some id) reason failure_id c c' h = ground arith

pub record_recovery-eq :
    (o : Orchestrator) (action : RecoveryAction) (failure_id reason task_id new_id : String)
    (f : WorkerFailure) (c c' : Ctx) (r : RecoveryDecision)
    → record_recovery o action failure_id reason task_id new_id f c ≡ ok (r, c')
    → (r ≡ recovery_decision o action failure_id reason task_id new_id f)
      × (c'.run ≡ record c.run {
        recoveries = c.run.recoveries ++ r ∷ [];
        decisions = c.run.decisions ++ r.decision ∷ [];
      })
unfolding record_recovery emit
record_recovery-eq o action failure_id reason task_id new_id f c c' r h =
    (ground arith, ground arith)

-- A recovery, taken apart.
pub record Recovered (o : Orchestrator) (failure_id reason new_id : String) (c c' : Ctx)
    (r : RecoveryDecision) : Type 0 where
  pub failure : WorkerFailure
  pub task : TaskNode
  pub d : Ctx
  pub e : Ctx
  pub failure_found : find_failure failure_id c.run.failures ≡ some failure
  pub found : lookup failure.task_id c.run.tasks ≡ some task
  pub unsettled : is_settled failure_id task c.run ≡ false
  pub routed :
      route_task (recovery_action failure.classification task) failure.task_id task failure reason c
      ≡ ok (tt, d)
  pub rejected : reject_candidate (last? task.artifact_ids) reason failure.id d ≡ ok (tt, e)
  pub recorded :
      record_recovery o
        (recovery_action failure.classification task)
        failure_id
        reason
        task.packet.task_id
        new_id
        failure
        e
      ≡ ok (r, c')

pub recover-Recovered :
    (o : Orchestrator) (failure_id reason actor_id new_id : String) (c c' : Ctx)
    (r : RecoveryDecision)
    → recover o failure_id reason actor_id new_id c ≡ ok (r, c')
    → Recovered o failure_id reason new_id c c' r
unfolding recover
recover-Recovered o failure_id reason actor_id new_id c c' r h =
    elim (Option-cases (find_failure failure_id c.run.failures)) [
      | inl e ↦ absurd (ground arith)
      | inr (f, e) ↦ elim (Option-cases (lookup f.task_id c.run.tasks)) [
        | inl e1 ↦ absurd (ground arith)
        | inr (t, e1) ↦
            let action = recovery_action f.classification t in
            elim (Result-cases (route_task action f.task_id t f reason c)) [
              | inr (_, e2) ↦ absurd (ground arith)
              | inl ((_, d), e2) ↦
                  elim (Result-cases (reject_candidate (last? t.artifact_ids) reason f.id d)) [
                    | inr (_, e3) ↦ absurd (ground arith)
                    | inl ((_, w), e3) ↦ record {
                      failure = f;
                      task = t;
                      d = d;
                      e = w;
                      failure_found = e;
                      found = e1;
                      unsettled = ground arith;
                      routed = e2;
                      rejected = e3;
                      recorded = ground arith;
                    }
                  ]
            ]
      ]
    ]

pub unsettled_failed :
    (failure_id : String) (t : TaskNode) (run : Run)
    → is_settled failure_id t run ≡ false
    → t.status ≡ TaskStatus.failed
unsettled_failed failure_id t run h = ground arith

pub recover-evolves :
    (o : Orchestrator) (failure_id reason actor_id new_id : String) (c c' : Ctx)
    (r : RecoveryDecision)
    → recover o failure_id reason actor_id new_id c ≡ ok (r, c')
    → TasksEvolve recover_moves c.run.tasks c'.run.tasks
recover-evolves o failure_id reason actor_id new_id c c' r h =
    let x = recover-Recovered o failure_id reason actor_id new_id c c' r h in
    TasksEvolve-trans recover_moves c.run.tasks x.d.run.tasks c'.run.tasks
      (route_task-evolves x.failure.task_id x.task c x.d x.found _ x.failure reason
        (unsettled_failed failure_id x.task c.run x.unsettled)
        (recovery_action_revise x.failure.classification x.task) x.routed)
      (TasksEvolve-same recover_moves x.d.run.tasks c'.run.tasks (
        ap (λ run. run.tasks)
          (record_recovery-eq o _ failure_id reason _ new_id x.failure x.e c' r x.recorded).1
        ∙ reject_candidate-same _ _ _ x.d x.e x.rejected))

resume_task-evolves :
    (new_id : String → String) (key : String) (c c' : Ctx)
    → resume_task new_id key c ≡ ok (tt, c')
    → TasksEvolve resume_moves c.run.tasks c'.run.tasks
unfolding resume_task
resume_task-evolves new_id key c c' h = elim (Option-cases (lookup key c.run.tasks)) [
  | inl e ↦ absurd (ground arith)
  | inr (t, e) ↦ elim (Bool-cases (is_assigned t.status)) [
    | inl now ↦ interrupt-evolves key t c c' e (new_id key) now (ground arith)
    | inr other ↦ TasksEvolve-same resume_moves _ _ (ground arith)
  ]
]

resume_keys-evolves :
    (new_id : String → String) (slots : List String) (c c' : Ctx)
    → resume_keys new_id slots c ≡ ok (tt, c')
    → TasksEvolve resume_moves c.run.tasks c'.run.tasks
unfolding resume_keys
resume_keys-evolves new_id [] c c' h = TasksEvolve-same resume_moves _ _ (ground arith)
resume_keys-evolves new_id (key ∷ rest) c c' h = elim (Result-cases (resume_task new_id key c)) [
  | inr (_, e) ↦ absurd (ground arith)
  | inl ((_, d), e) ↦
      TasksEvolve-trans resume_moves c.run.tasks d.run.tasks c'.run.tasks
        (resume_task-evolves new_id key c d e) (resume_keys-evolves new_id rest d c' (ground arith))
]

pub resume-evolves :
    (new_id : String → String) (c c' : Ctx)
    → resume new_id c ≡ ok (tt, c')
    → TasksEvolve resume_moves c.run.tasks c'.run.tasks
unfolding resume emit
resume-evolves new_id c c' h = elim (Result-cases (resume_keys new_id (keys c.run.tasks) c)) [
  | inr (_, e) ↦ absurd (ground arith)
  | inl ((_, d), e) ↦
      TasksEvolve-trans resume_moves c.run.tasks d.run.tasks c'.run.tasks
        (resume_keys-evolves new_id (keys c.run.tasks) c d e)
        (TasksEvolve-same resume_moves _ _ (ground arith))
]

pub abandon-evolves :
    (reason : String) (actor_id : Option String) (c c' : Ctx)
    → abandon reason actor_id c ≡ ok (tt, c')
    → TasksEvolve no_moves c.run.tasks c'.run.tasks
unfolding abandon emit
abandon-evolves reason actor_id c c' h = TasksEvolve-same no_moves _ _ (ground arith)
