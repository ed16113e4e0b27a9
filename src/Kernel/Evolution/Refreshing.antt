-- ===== src/Kernel/Evolution/Refreshing.antt =====
-- `_refresh` of walter/orchestration.py: what it may do to a task, and that nothing stands in its
-- way once the lineage of the inputs is computed.
use walter.Models.BlockerReason
use walter.Prelude.{
  ◌<>◌, String, ◌≡◌, refl, Option, none, some, List, [], ◌∷◌, arith, Option-cases, Bool-cases, inl,
  inr,
}
use walter.Prelude.Dict.{lookup, keys}
use walter.Models.{TaskNode, TaskStatus}
use walter.Kernel.Monad.{Ctx, ok, Result-cases}
use walter.Kernel.Transitions.{transitions}
use walter.Kernel.Readiness.{
  refresh, refresh_keys, refresh_task, refresh_status, promote, unblock, demote, is_ready_task,
  readiness_blocker, is_refreshable,
}
use walter.Kernel.Evolution.{Evolves-restated}
use walter.Kernel.Evolution.Slots.{
  TasksEvolve, TasksEvolve-trans, TasksEvolve-same, TasksEvolve-once, TasksEvolve-twice,
}
use walter.Kernel.Evolution.Moves.{refresh_moves}

abbrev demoted : TaskNode → String → TaskNode
demoted t lapsed = record t {
  status = TaskStatus.blocked;
  blocker = some (BlockerReason.readiness_lapsed <> ": " <> lapsed);
}

module _ (key : String) (t : TaskNode) (c c' : Ctx) (found : lookup key c.run.tasks ≡ some t) where
  promote-evolves :
      t.status ≡ TaskStatus.planned
      → promote key t c ≡ ok (tt, c')
      → TasksEvolve refresh_moves c.run.tasks c'.run.tasks
  unfolding promote transitions
  promote-evolves same h =
      TasksEvolve-once refresh_moves key t (record t { status = TaskStatus.ready }) c.run.tasks
        c'.run.tasks found (Evolves-restated t TaskStatus.ready t.blocker (rw same) (rw same) refl)
        (ground arith)

  unblock-evolves :
      t.status ≡ TaskStatus.blocked
      → unblock key t c ≡ ok (tt, c')
      → TasksEvolve refresh_moves c.run.tasks c'.run.tasks
  unfolding unblock transitions
  unblock-evolves same h =
      TasksEvolve-twice refresh_moves key t (record t { blocker = none })
        (record t { status = TaskStatus.ready; blocker = none }) c.run.tasks c'.run.tasks found
        (Evolves-restated t TaskStatus.ready none (rw same) (rw same) refl) (ground arith)

  demote-evolves :
      (lapsed : Option String)
      → t.status ≡ TaskStatus.ready
      → demote key t lapsed c ≡ ok (tt, c')
      → TasksEvolve refresh_moves c.run.tasks c'.run.tasks
  unfolding demote transitions
  demote-evolves none same h =
      TasksEvolve-same refresh_moves c.run.tasks c'.run.tasks (ground arith)
  demote-evolves (some lapsed) same h =
      TasksEvolve-twice refresh_moves key t (record t { status = TaskStatus.blocked })
        (demoted t lapsed) c.run.tasks c'.run.tasks found
        (Evolves-restated t TaskStatus.blocked
          (some (BlockerReason.readiness_lapsed <> ": " <> lapsed)) (rw same) (rw same) refl)
        (ground arith)

  refresh_status-evolves :
      (s : TaskStatus)
      → t.status ≡ s
      → refresh_status key t s c ≡ ok (tt, c')
      → TasksEvolve refresh_moves c.run.tasks c'.run.tasks
  unfolding refresh_status
  refresh_status-evolves TaskStatus.planned same h = elim (Result-cases (is_ready_task c.run t)) [
    | inl (ready, e) ↦ elim (Bool-cases ready) [
      | inl now ↦ promote-evolves same (ground arith)
      | inr later ↦ TasksEvolve-same refresh_moves _ _ (ground arith)
    ]
    | inr (x, e) ↦ absurd (ground arith)
  ]
  refresh_status-evolves TaskStatus.ready same h = elim (Result-cases (readiness_blocker c.run t)) [
    | inl (lapsed, e) ↦ demote-evolves lapsed same (ground arith)
    | inr (x, e) ↦ absurd (ground arith)
  ]
  refresh_status-evolves TaskStatus.blocked same h = elim (Bool-cases (is_refreshable t)) [
    | inr stays ↦ TasksEvolve-same refresh_moves _ _ (ground arith)
    | inl may ↦ elim (Result-cases (is_ready_task c.run t)) [
      | inl (ready, e) ↦ elim (Bool-cases ready) [
        | inl now ↦ unblock-evolves same (ground arith)
        | inr later ↦ TasksEvolve-same refresh_moves _ _ (ground arith)
      ]
      | inr (x, e) ↦ absurd (ground arith)
    ]
  ]
  refresh_status-evolves _ same h = TasksEvolve-same refresh_moves _ _ (ground arith)

pub refresh_task-evolves :
    (key : String) (c c' : Ctx)
    → refresh_task key c ≡ ok (tt, c')
    → TasksEvolve refresh_moves c.run.tasks c'.run.tasks
unfolding refresh_task
refresh_task-evolves key c c' h = elim (Option-cases (lookup key c.run.tasks)) [
  | inl e ↦ absurd (ground arith)
  | inr (t, e) ↦ refresh_status-evolves key t c c' e t.status refl (ground arith)
]

refresh_keys-evolves :
    (slots : List String) (c c' : Ctx)
    → refresh_keys slots c ≡ ok (tt, c')
    → TasksEvolve refresh_moves c.run.tasks c'.run.tasks
unfolding refresh_keys
refresh_keys-evolves [] c c' h = TasksEvolve-same refresh_moves _ _ (ground arith)
refresh_keys-evolves (key ∷ rest) c c' h = elim (Result-cases (refresh_task key c)) [
  | inl ((_, d), e) ↦
      TasksEvolve-trans refresh_moves c.run.tasks d.run.tasks c'.run.tasks
        (refresh_task-evolves key c d e) (refresh_keys-evolves rest d c' (ground arith))
  | inr (x, e) ↦ absurd (ground arith)
]

pub refresh-evolves :
    (c c' : Ctx) → refresh c ≡ ok (tt, c') → TasksEvolve refresh_moves c.run.tasks c'.run.tasks
unfolding refresh
refresh-evolves c c' h = refresh_keys-evolves (keys c.run.tasks) c c' h
