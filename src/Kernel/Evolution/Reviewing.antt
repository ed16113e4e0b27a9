-- ===== src/Kernel/Evolution/Reviewing.antt =====
-- `_candidate`, `validate`, `review` and `accept` of walter/orchestration.py: how they let the
-- tasks evolve, and what a candidate that is examined is known to be.
use walter.Prelude.{
  String, ◌≡◌, refl, Bool, true, Option, some, arith, eq_iff, last?, Option-cases, Bool-cases, inl,
  inr, subst, ap, ◌∙◌,
}
use walter.Prelude.Dict.{lookup, lookup-insert_self}
use walter.Models.{
  TaskNode, TaskStatus, Artifact, ArtifactValidation, Review, AcceptanceDecision, is_submitted,
}
use walter.Kernel.Monad.{Ctx, ok, emit, Result-cases}
use walter.Kernel.Authority.{Orchestrator}
use walter.Kernel.Transitions.{transitions}
use walter.Kernel.Readiness.{refresh}
use walter.Kernel.Evidence.{
  is_candidate, begin_review, candidate_gates, candidate, validate, review, accept, acceptance,
  evidence_gates, input_gates, record_acceptance,
}
use walter.Kernel.Evolution.{Evolves-restated}
use walter.Kernel.Evolution.Slots.{
  TasksEvolve, TasksEvolve-trans, TasksEvolve-same, TasksEvolve-once, TasksEvolve-wider,
}
use walter.Kernel.Evolution.Moves.{
  refresh_moves, examine_moves, accept_moves, examine_listed, examine_accepting, refresh_accepting,
}
use walter.Kernel.Evolution.Refreshing.{refresh-evolves}

-- What `_candidate` has checked when it returns.
pub record Examined (o : Orchestrator) (id : String) (c : Ctx) (artifact : Artifact)
    (task : TaskNode) (c' : Ctx) : Type 0 where
  pub found : lookup id c.run.artifacts ≡ some artifact
  pub before : TaskNode
  pub stood : lookup artifact.task_id c.run.tasks ≡ some before
  pub same_task : task ≡ record before { status = task.status }
  pub current : lookup artifact.task_id c'.run.tasks ≡ some task
  pub reviewing : task.status ≡ TaskStatus.reviewing
  pub is_open : is_candidate artifact.status ≡ true
  pub intact : o.sha256 artifact.content ≡ artifact.content_digest
  pub latest : last? task.artifact_ids ≡ some id
  pub evolves : TasksEvolve examine_moves c.run.tasks c'.run.tasks
  pub same_run : c'.run ≡ record c.run { tasks = c'.run.tasks }

-- What the start of a review changes: at most the status of the task in slot `key`.
record Begun (key : String) (t : TaskNode) (c : Ctx) (t' : TaskNode) (c' : Ctx) : Type 0 where
  current : lookup key c'.run.tasks ≡ some t'
  same_task : t' ≡ record t { status = t'.status }
  same_run : c'.run ≡ record c.run { tasks = c'.run.tasks }
  evolves : TasksEvolve examine_moves c.run.tasks c'.run.tasks

begin_review-Begun :
    (key : String) (t : TaskNode) (c : Ctx) (t' : TaskNode) (c' : Ctx)
    → lookup key c.run.tasks ≡ some t
    → begin_review key t c ≡ ok (t', c')
    → Begun key t c t' c'
unfolding begin_review
begin_review-Begun key t c t' c' found h = elim (Bool-cases (is_submitted t.status)) [
  | inl waits ↦ record {
    current =
        ground
          (arith, lookup-insert_self key (record t { status = TaskStatus.reviewing }) c.run.tasks);
    same_task = ground arith;
    same_run = ground arith;
    evolves =
        TasksEvolve-once examine_moves key t (record t { status = TaskStatus.reviewing })
          c.run.tasks c'.run.tasks found
          (Evolves-restated t TaskStatus.reviewing t.blocker (ground arith)
            (examine_listed t.status (ground arith)) refl)
          (ground arith);
  }
  | inr begun ↦ record {
    current = ground arith;
    same_task = ground arith;
    same_run = ground arith;
    evolves = TasksEvolve-same examine_moves _ _ (ground arith);
  }
]

Examined-cast :
    {o : Orchestrator} {id : String} {c : Ctx} {x artifact : Artifact} {t task : TaskNode}
    {d c' : Ctx}
    → x ≡ artifact
    → t ≡ task
    → d ≡ c'
    → Examined o id c x t d
    → Examined o id c artifact task c'
Examined-cast {o} {id} {c} {x} {artifact} {t} {task} {d} {c'} p q r ex =
    subst (λ a. Examined o id c a task c') p
      (subst (λ u. Examined o id c x u c') q (subst (λ s. Examined o id c x t s) r ex))

candidate_gates-passed :
    (o : Orchestrator) (id : String) (observed : Option String) (artifact : Artifact)
    (task : TaskNode)
    → candidate_gates o id observed artifact task ≡ ok tt
    → (is_candidate artifact.status ≡ true)
      × (o.sha256 artifact.content ≡ artifact.content_digest)
      × (last? task.artifact_ids ≡ some id)
unfolding candidate_gates
candidate_gates-passed o id observed artifact task h =
    elim (Option-cases (last? task.artifact_ids)) [
      | inl e ↦ absurd (ground arith)
      | inr (latest, e) ↦ (
        ground arith,
        ground (arith, eq_iff (o.sha256 artifact.content) artifact.content_digest),
        ground (arith, eq_iff latest id),
      )
    ]

pub candidate-Examined :
    (o : Orchestrator) (id : String) (observed : Option String) (c : Ctx) (artifact : Artifact)
    (task : TaskNode) (c' : Ctx)
    → candidate o id observed c ≡ ok ((artifact, task), c')
    → Examined o id c artifact task c'
unfolding candidate
candidate-Examined o id observed c artifact task c' h =
    elim (Option-cases (lookup id c.run.artifacts)) [
      | inl e ↦ absurd (ground arith)
      | inr (x, e) ↦ elim (Option-cases (lookup x.task_id c.run.tasks)) [
        | inl e' ↦ absurd (ground arith)
        | inr (t, e') ↦ elim (Result-cases (candidate_gates o id observed x t)) [
          | inr (_, e2) ↦ absurd (ground arith)
          | inl (_, e2) ↦ elim (Result-cases (begin_review x.task_id t c)) [
            | inr (_, e3) ↦ absurd (ground arith)
            | inl ((t', d), e3) ↦
                let passed = candidate_gates-passed o id observed x t e2 in
                let begun = begin_review-Begun x.task_id t c t' d e' e3 in
                Examined-cast {x = x} {t = t'} {d = d} (ground arith) (ground arith) (ground arith)
                  (record {
                    found = e;
                    before = t;
                    stood = e';
                    same_task = begun.same_task;
                    current = begun.current;
                    reviewing = ground arith;
                    is_open = passed.0;
                    intact = passed.1;
                    latest = ap (λ (u : TaskNode). last? u.artifact_ids) begun.same_task ∙ passed.2;
                    evolves = begun.evolves;
                    same_run = begun.same_run;
                  })
          ]
        ]
      ]
    ]

module _ (o : Orchestrator) (c c' : Ctx) where
  pub validate-evolves :
      (id check : String) (passed : Bool) (evidence validator_id : String)
      (observed : Option String) (new_id : String) (v : ArtifactValidation)
      → validate o id check passed evidence validator_id observed new_id c ≡ ok (v, c')
      → TasksEvolve examine_moves c.run.tasks c'.run.tasks
  unfolding validate emit
  validate-evolves id check passed evidence validator_id observed new_id v h =
      elim (Result-cases (candidate o id observed c)) [
        | inr (_, e) ↦ absurd (ground arith)
        | inl (((x, t), d), e) ↦
            TasksEvolve-trans examine_moves c.run.tasks d.run.tasks c'.run.tasks
              (candidate-Examined o id observed c x t d e).evolves
              (TasksEvolve-same examine_moves _ _ (ground arith))
      ]

  pub review-evolves :
      (id reviewer_id : String) (passed : Bool) (evidence : String) (observed : Option String)
      (new_id : String) (r : Review)
      → review o id reviewer_id passed evidence observed new_id c ≡ ok (r, c')
      → TasksEvolve examine_moves c.run.tasks c'.run.tasks
  unfolding review emit
  review-evolves id reviewer_id passed evidence observed new_id r h =
      elim (Result-cases (candidate o id observed c)) [
        | inr (_, e) ↦ absurd (ground arith)
        | inl (((x, t), d), e) ↦
            TasksEvolve-trans examine_moves c.run.tasks d.run.tasks c'.run.tasks
              (candidate-Examined o id observed c x t d e).evolves
              (TasksEvolve-same examine_moves _ _ (ground arith))
      ]

record_acceptance-evolves :
    (slot reason : String) (accepted : AcceptanceDecision) (artifact : Artifact) (task : TaskNode)
    (c c' : Ctx)
    → lookup artifact.task_id c.run.tasks ≡ some task
    → task.status ≡ TaskStatus.reviewing
    → record_acceptance slot reason accepted artifact task c ≡ ok (tt, c')
    → TasksEvolve accept_moves c.run.tasks c'.run.tasks
unfolding record_acceptance transitions
record_acceptance-evolves slot reason accepted artifact task c c' found reviewing h =
    TasksEvolve-once accept_moves artifact.task_id task
      (record task { status = TaskStatus.accepted }) c.run.tasks c'.run.tasks found
      (Evolves-restated task TaskStatus.accepted task.blocker (rw reviewing) (rw reviewing) refl)
      (ground arith)

-- An acceptance, taken apart: the candidate that was examined, its gates, what was written, and
-- the refresh.
pub record Accepted (o : Orchestrator) (named reason new_id : String) (c c' : Ctx) : Type 0 where
  pub slot : String
  pub artifact : Artifact
  pub task : TaskNode
  pub d : Ctx
  pub e : Ctx
  pub named_task : TaskNode
  pub named_found : lookup named c.run.tasks ≡ some named_task
  pub named_slot : last? named_task.artifact_ids ≡ some slot
  pub examined : Examined o slot c artifact task d
  pub evidence : evidence_gates o artifact task ≡ ok tt
  pub inputs : input_gates d.run task ≡ ok tt
  pub recorded :
      record_acceptance slot reason (acceptance o named reason new_id artifact) artifact task d
      ≡ ok (tt, e)
  pub refreshed : refresh e ≡ ok (tt, c')

pub accept-Accepted :
    (o : Orchestrator) (named : String) (claimed : Option String) (reason : String)
    (observed : Option String) (new_id : String) (c c' : Ctx) (a : AcceptanceDecision)
    → accept o named claimed reason observed new_id c ≡ ok (a, c')
    → Accepted o named reason new_id c c'
unfolding accept
accept-Accepted o named claimed reason observed new_id c c' a h =
    elim (Option-cases (lookup named c.run.tasks)) [
      | inl e ↦ absurd (ground arith)
      | inr (n, e) ↦ elim (Option-cases (last? n.artifact_ids)) [
        | inl e1 ↦ absurd (ground arith)
        | inr (slot, e1) ↦ elim (Result-cases (candidate o slot observed c)) [
          | inr (_, e2) ↦ absurd (ground arith)
          | inl (((x, t), d), e2) ↦ elim (Result-cases (evidence_gates o x t)) [
            | inr (_, e3) ↦ absurd (ground arith)
            | inl (_, e3) ↦ elim (Result-cases (input_gates d.run t)) [
              | inr (_, e4) ↦ absurd (ground arith)
              | inl (_, e4) ↦
                  let written = acceptance o named reason new_id x in
                  elim (Result-cases (record_acceptance slot reason written x t d)) [
                    | inr (_, e5) ↦ absurd (ground arith)
                    | inl ((_, w), e5) ↦ record {
                      slot = slot;
                      artifact = x;
                      task = t;
                      d = d;
                      e = w;
                      named_task = n;
                      named_found = e;
                      named_slot = e1;
                      examined = candidate-Examined o slot observed c x t d e2;
                      evidence = e3;
                      inputs = e4;
                      recorded = e5;
                      refreshed = ground arith;
                    }
                  ]
            ]
          ]
        ]
      ]
    ]

pub accept-evolves :
    (o : Orchestrator) (named : String) (claimed : Option String) (reason : String)
    (observed : Option String) (new_id : String) (c c' : Ctx) (a : AcceptanceDecision)
    → accept o named claimed reason observed new_id c ≡ ok (a, c')
    → TasksEvolve accept_moves c.run.tasks c'.run.tasks
accept-evolves o named claimed reason observed new_id c c' a h =
    let x = accept-Accepted o named claimed reason observed new_id c c' a h in
    TasksEvolve-trans accept_moves c.run.tasks x.d.run.tasks c'.run.tasks
      (TasksEvolve-wider examine_moves accept_moves c.run.tasks x.d.run.tasks examine_accepting
        x.examined.evolves)
      (TasksEvolve-trans accept_moves x.d.run.tasks x.e.run.tasks c'.run.tasks
        (record_acceptance-evolves x.slot reason _ x.artifact x.task x.d x.e x.examined.current
          x.examined.reviewing x.recorded)
        (TasksEvolve-wider refresh_moves accept_moves x.e.run.tasks c'.run.tasks refresh_accepting
          (refresh-evolves x.e c' x.refreshed)))
