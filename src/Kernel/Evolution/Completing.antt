-- ===== src/Kernel/Evolution/Completing.antt =====
-- That `_refresh` of walter/orchestration.py, which ends several mutations, never raises.
use walter.Prelude.{
  String, ◌≡◌, refl, ap, Option, none, some, List, [], ◌∷◌, All, eq_refl, arith, Bool-cases, inl,
  inr, ◌==◌,
}
use walter.Prelude.Dict.{Dict, lookup, keys}
use walter.Models.{Run, TaskNode, TaskStatus}
use walter.Kernel.Monad.{Ctx, ok, emit}
use walter.Kernel.Lineage.Termination.{input_artifact_ids_total}
use walter.Kernel.Transitions.{transitions}
use walter.Kernel.Readiness.{
  refresh, refresh_keys, refresh_task, refresh_status, promote, unblock, demote, is_ready_task,
  readiness_blocker, is_refreshable, gate_blocker, blocker_of, is_none,
}
use walter.Kernel.Evolution.Slots.{EvolvesAt, TasksEvolve}
use walter.Kernel.Evolution.Moves.{refresh_moves}
use walter.Kernel.Evolution.Refreshing.{refresh_task-evolves}

readiness_blocker_total :
    (run : Run) (task : TaskNode)
    → (blocker : Option String) × (readiness_blocker run task ≡ ok blocker)
unfolding readiness_blocker
readiness_blocker_total run task = elim (input_artifact_ids_total run task) [
  | inl (inputs, e) ↦ (gate_blocker run task, ap (λ r. blocker_of r (gate_blocker run task)) e)
  | inr (reason, e) ↦ (some reason, ap (λ r. blocker_of r (gate_blocker run task)) e)
]

is_ready_task_eq :
    (run : Run) (task : TaskNode) (blocker : Option String)
    → readiness_blocker run task ≡ ok blocker
    → is_ready_task run task ≡ ok (is_none blocker)
unfolding is_ready_task
is_ready_task_eq run task blocker e = ground (arith, e)

module _ (key : String) (t : TaskNode) (c : Ctx) where
  promote_total : t.status ≡ TaskStatus.planned → (c' : Ctx) × (promote key t c ≡ ok (tt, c'))
  unfolding promote transitions emit
  promote_total e = rw e (_, refl)

  unblock_total : t.status ≡ TaskStatus.blocked → (c' : Ctx) × (unblock key t c ≡ ok (tt, c'))
  unfolding unblock transitions emit
  unblock_total e = rw e (_, refl)

  demote_total :
      (lapsed : Option String)
      → t.status ≡ TaskStatus.ready
      → (c' : Ctx) × (demote key t lapsed c ≡ ok (tt, c'))
  unfolding demote transitions emit
  demote_total none e = (c, refl)
  demote_total (some lapsed) e = rw e (_, refl)

  refresh_status_total :
      (s : TaskStatus) → t.status ≡ s → (c' : Ctx) × (refresh_status key t s c ≡ ok (tt, c'))
  unfolding refresh_status
  refresh_status_total TaskStatus.planned e =
      let (blocker, b) = readiness_blocker_total c.run t in
      elim (Bool-cases (is_none blocker)) [
        | inl free ↦
            let (c', done) = promote_total e in
            (c', ground (arith, is_ready_task_eq c.run t blocker b, done))
        | inr held ↦ (c, ground (arith, is_ready_task_eq c.run t blocker b))
      ]
  refresh_status_total TaskStatus.blocked e =
      let (blocker, b) = readiness_blocker_total c.run t in
      elim (Bool-cases (is_refreshable t)) [
        | inl waits ↦ elim (Bool-cases (is_none blocker)) [
          | inl free ↦
              let (c', done) = unblock_total e in
              (c', ground (arith, is_ready_task_eq c.run t blocker b, done))
          | inr held ↦ (c, ground (arith, is_ready_task_eq c.run t blocker b))
        ]
        | inr stays ↦ (c, ground arith)
      ]
  refresh_status_total TaskStatus.ready e =
      let (blocker, b) = readiness_blocker_total c.run t in
      let (c', done) = demote_total blocker e in (c', ground (arith, b, done))
  refresh_status_total s e = (c, ground arith)

refresh_task_total :
    (key : String) (t : TaskNode) (c : Ctx)
    → lookup key c.run.tasks ≡ some t
    → (c' : Ctx) × (refresh_task key c ≡ ok (tt, c'))
unfolding refresh_task
refresh_task_total key t c found =
    let (c', done) = refresh_status_total key t c t.status refl in (c', ground (arith, found, done))

-- All of these names are slots.
abbrev AllIn : List String → Dict TaskNode → Type 0
AllIn slots d = All (λ key. (t : TaskNode) × (lookup key d ≡ some t)) slots

AllIn-evolved :
    (slots : List String) (d d' : Dict TaskNode)
    → TasksEvolve refresh_moves d d'
    → AllIn slots d
    → AllIn slots d'
AllIn-evolved [] d d' ev h = tt
AllIn-evolved (key ∷ rest) d d' ev h =
    (still (lookup key d) (lookup key d') (ev key) h.0, AllIn-evolved rest d d' ev h.1)
  where
    still :
        (slot slot' : Option TaskNode)
        → EvolvesAt refresh_moves slot slot'
        → (t : TaskNode) × (slot ≡ some t)
        → (t : TaskNode) × (slot' ≡ some t)
    still slot (some t) e h = (t, refl)
    still none none e h = absurd (ground (arith, h.1))
    still (some t) none e h = absurd e

AllIn-longer :
    (slots : List String) (key : String) (t : TaskNode) (d : Dict TaskNode)
    → AllIn slots d
    → AllIn slots ((key, t) ∷ d)
unfolding lookup
AllIn-longer [] key t d h = tt
AllIn-longer (k ∷ rest) key t d h = (
  elim (Bool-cases (key == k)) [
    | inl same ↦ (t, rw same refl)
    | inr other ↦ (h.0.0, rw other h.0.1)
  ],
  AllIn-longer rest key t d h.1,
)

keys-AllIn : (d : Dict TaskNode) → AllIn (keys d) d
unfolding keys lookup
keys-AllIn [] = tt
keys-AllIn ((key, t) ∷ d) =
    ((t, rw (eq_refl key) refl), AllIn-longer (keys d) key t d (keys-AllIn d))

refresh_keys_total :
    (slots : List String) (c : Ctx)
    → AllIn slots c.run.tasks
    → (c' : Ctx) × (refresh_keys slots c ≡ ok (tt, c'))
unfolding refresh_keys
refresh_keys_total [] c h = (c, refl)
refresh_keys_total (key ∷ rest) c h =
    let (d, first) = refresh_task_total key h.0.0 c h.0.1 in
    let (c', others) =
      refresh_keys_total rest d
        (AllIn-evolved rest c.run.tasks d.run.tasks (refresh_task-evolves key c d first) h.1) in
    (c', ground (arith, first, others))

-- The refresh of the tasks returns in every run: no gate, no transition and no missing artifact
-- makes it raise, and the walks over the inputs end.
pub refresh_total : (c : Ctx) → (c' : Ctx) × (refresh c ≡ ok (tt, c'))
unfolding refresh
refresh_total c = refresh_keys_total (keys c.run.tasks) c (keys-AllIn c.run.tasks)
