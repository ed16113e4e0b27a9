-- ===== src/Kernel/Evolution/Assigning.antt =====
-- `delegate`, `start`, `submit` and the two records of provisional results, of
-- walter/orchestration.py: how they let the tasks evolve.
use walter.Prelude.{
  ◌+◌, String, ◌≡◌, refl, sym, true, false, Option, some, [], ◌∷◌, ◌++◌, arith, Option-cases, inl,
  inr, append-nil, length-append,
}
use walter.Prelude.Dict.{lookup}
use walter.Models.{
  TaskNode, TaskStatus, WorkerAssignment, WorkerResult, Artifact, CapabilityRequest,
}
use walter.Kernel.Monad.{Ctx, ok, emit}
use walter.Kernel.Authority.{Orchestrator}
use walter.Kernel.Transitions.{transitions}
use walter.Kernel.Assignment.{
  attempts_exhausted, delegate, start, submit, stated_blocker, record_provisional_result,
  record_capability_request,
}
use walter.Kernel.Evolution.{Reach, Evolves, Evolves-moved, Evolves-restated, Evolves-noted}
use walter.Kernel.Evolution.Slots.{TasksEvolve, TasksEvolve-once, TasksEvolve-twice}
use walter.Kernel.Evolution.Moves.{
  no_moves, delegate_moves, start_moves, submit_moves, delegate_listed, start_listed, submit_listed,
}

-- The task after a delegation.
abbrev pub delegated_to : TaskNode → WorkerAssignment → TaskNode
delegated_to t a = record t {
  status = TaskStatus.delegated;
  assignment = some a;
  assignment_history = t.assignment_history ++ a ∷ [];
  attempts = t.attempts + 1;
}

Evolves-delegated :
    (t : TaskNode) (a : WorkerAssignment)
    → transitions t.status TaskStatus.delegated ≡ true
    → attempts_exhausted t ≡ false
    → Evolves delegate_moves t (delegated_to t a)
Evolves-delegated t a legal left = record {
  moved = Reach.next Reach.here legal (delegate_listed t.status legal);
  same_identity = refl;
  same_limits = refl;
  within = λ h. (ground arith, h.1);
  held = λ h. refl;
  counted = omega (arith, length-append t.assignment_history (a ∷ []));
  more_history = (a ∷ [], refl);
  more_artifacts = ([], sym (append-nil _));
}

module _ (key : String) (c c' : Ctx) where
  pub delegate-evolves :
      (o : Orchestrator) (worker_id new_id : String) (a : WorkerAssignment)
      → delegate o key worker_id new_id c ≡ ok (a, c')
      → TasksEvolve delegate_moves c.run.tasks c'.run.tasks
  unfolding delegate
  delegate-evolves o worker_id new_id a h = elim (Option-cases (lookup key c.run.tasks)) [
    | inl e ↦ absurd (ground arith)
    | inr (t, e) ↦
        TasksEvolve-twice delegate_moves key t (record t { status = TaskStatus.delegated })
          (delegated_to t a) c.run.tasks c'.run.tasks e
          (Evolves-delegated t a (ground arith) (ground arith)) (ground arith)
  ]

  pub start-evolves : start key c ≡ ok (tt, c') → TasksEvolve start_moves c.run.tasks c'.run.tasks
  unfolding start
  start-evolves h = elim (Option-cases (lookup key c.run.tasks)) [
    | inl e ↦ absurd (ground arith)
    | inr (t, e) ↦
        TasksEvolve-once start_moves key t (record t { status = TaskStatus.running }) c.run.tasks
          c'.run.tasks e
          (Evolves-restated t TaskStatus.running t.blocker (ground arith)
            (start_listed t.status (ground arith)) refl)
          (ground arith)
  ]

  pub submit-evolves :
      (o : Orchestrator) (assignment_id worker_id : String) (result : WorkerResult)
      (fingerprint : Option String) (new_id : String) (a : Artifact)
      → submit o key assignment_id worker_id result fingerprint new_id c ≡ ok (a, c')
      → TasksEvolve submit_moves c.run.tasks c'.run.tasks
  unfolding submit
  submit-evolves o assignment_id worker_id result fingerprint new_id a h =
      elim (Option-cases (lookup key c.run.tasks)) [
        | inl e ↦ absurd (ground arith)
        | inr (t, e) ↦
            TasksEvolve-twice submit_moves key t (record t { status = TaskStatus.submitted })
              (record t {
                status = TaskStatus.submitted;
                result = some result;
                artifact_ids = t.artifact_ids ++ new_id ∷ [];
              })
              c.run.tasks c'.run.tasks e
              (Evolves-moved t _ (ground arith) (submit_listed t.status (ground arith)) refl refl
                refl (λ w. w) (new_id ∷ [], refl))
              (ground arith)
      ]

  pub record_provisional_result-evolves :
      (assignment_id worker_id : String) (result : WorkerResult)
      → record_provisional_result key assignment_id worker_id result c ≡ ok (tt, c')
      → TasksEvolve no_moves c.run.tasks c'.run.tasks
  unfolding record_provisional_result emit
  record_provisional_result-evolves assignment_id worker_id result h =
      elim (Option-cases (lookup key c.run.tasks)) [
        | inl e ↦ absurd (ground arith)
        | inr (t, e) ↦
            TasksEvolve-once no_moves key t
              (record t { result = some result; blocker = some (stated_blocker result) })
              c.run.tasks c'.run.tasks e
              (Evolves-noted t (some result) (some (stated_blocker result)) t.workspace_id)
              (ground arith)
      ]

  pub record_capability_request-evolves :
      (assignment_id worker_id : String) (result : WorkerResult) (new_id : String)
      (a : CapabilityRequest)
      → record_capability_request key assignment_id worker_id result new_id c ≡ ok (a, c')
      → TasksEvolve no_moves c.run.tasks c'.run.tasks
  unfolding record_capability_request emit
  record_capability_request-evolves assignment_id worker_id result new_id a h =
      elim (Option-cases (lookup key c.run.tasks)) [
        | inl e ↦ absurd (ground arith)
        | inr (t, e) ↦
            TasksEvolve-once no_moves key t
              (record t { result = some result; blocker = some (stated_blocker result) })
              c.run.tasks c'.run.tasks e
              (Evolves-noted t (some result) (some (stated_blocker result)) t.workspace_id)
              (ground arith)
      ]
