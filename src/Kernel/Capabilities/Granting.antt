-- ===== src/Kernel/Capabilities/Granting.antt =====
-- What `change_capability` and `apply_capability_escalation` of walter/orchestration.py need before
-- a task gets another capability.
use walter.Prelude.{
  String, true, false, ◌≡◌, refl, sym, ap, subst, ◌∙◌, Option, none, some, [], ◌∷◌, ◌++◌, arith,
  inl, inr, Bool-cases, Option-cases,
}
use walter.Prelude.Dict.{lookup, insert, lookup-insert_self}
use walter.Models.{
  Run, TaskNode, TaskStatus, CapabilityProfile, Event, EventData, capability_value, is_ready,
}
use walter.Models.BlockerReason
use walter.Kernel.Monad.{Ctx, ok, put_task, emit, ◌>>◌, Result-cases}
use walter.Kernel.Transitions.{transition}
use walter.Kernel.Readiness.{is_ready_task, refresh}
use walter.Kernel.Authority.{Orchestrator}
use walter.Kernel.Planning.{validate_capability_checks}
use walter.Kernel.Approvals.{approved}
use walter.Kernel.Approvals.Deciding.{IsGranted, approved-IsGranted}
use walter.Kernel.Capabilities.{
  capability_scope, is_changeable, regranted, block_unready, change_capability,
}
use walter.Kernel.Evolution.{MoveTable, Evolves}
use walter.Kernel.Evolution.Slots.{EvolvesAt}
use walter.Kernel.Evolution.Frames.{then_split}
use walter.Kernel.Evolution.Moves.{refresh_moves}
use walter.Kernel.Evolution.Refreshing.{refresh-evolves}

-- The task in the slot has the capability.
abbrev pub HasCapability : Run → (key : String) → CapabilityProfile → Type 0
HasCapability run key capability =
    (t : TaskNode) × (lookup key run.tasks ≡ some t) × (t.capability ≡ capability)

pub evolved_slot :
    {moves : MoveTable} (t : TaskNode) (slot : Option TaskNode)
    → EvolvesAt moves (some t) slot
    → (t' : TaskNode) × (slot ≡ some t') × Evolves moves t t'
evolved_slot t none ev = absurd ev
evolved_slot t (some t') ev = (t', refl, ev)

refresh-HasCapability :
    (c c' : Ctx) (key : String) (capability : CapabilityProfile)
    → refresh c ≡ ok (tt, c')
    → HasCapability c.run key capability
    → HasCapability c'.run key capability
refresh-HasCapability c c' key capability e (t, found, has) =
    let (t', after, one) = evolved_slot t (lookup key c'.run.tasks) (
      subst (λ slot. EvolvesAt refresh_moves slot (lookup key c'.run.tasks)) found
        (refresh-evolves c c' e key)) in
    (t', after, ap (λ i. i.1) one.same_identity ∙ has)

put_task-HasCapability :
    (c c' : Ctx) (key : String) (t : TaskNode)
    → put_task key t c ≡ ok (tt, c')
    → HasCapability c'.run key t.capability
put_task-HasCapability c c' key t e = (
  t,
  ap (λ (d : Ctx). lookup key d.run.tasks) (sym (after e)) ∙ lookup-insert_self key t c.run.tasks,
  refl,
)
  where
    after :
        put_task key t c ≡ ok (tt, c')
        → record c { run = record c.run { tasks = insert key t c.run.tasks } } ≡ c'
    after h = ground arith

same_ctx :
    (c c' : Ctx) (key : String) (capability : CapabilityProfile)
    → c ≡ c'
    → HasCapability c.run key capability
    → HasCapability c'.run key capability
same_ctx c c' key capability same = subst (λ (d : Ctx). HasCapability d.run key capability) same

moved_capability :
    (key : String) (t : TaskNode) (status : TaskStatus) (reason : String) (c d : Ctx)
    (moved : TaskNode)
    → transition key t status reason c ≡ ok (moved, d)
    → moved.capability ≡ t.capability
unfolding transition emit
moved_capability key t status reason c d moved e = ground arith

block_unready-HasCapability :
    (c c' : Ctx) (key : String) (t : TaskNode)
    → block_unready key t c ≡ ok (tt, c')
    → HasCapability c.run key t.capability
    → HasCapability c'.run key t.capability
unfolding block_unready
block_unready-HasCapability c c' key t e has = elim (Bool-cases (is_ready t.status)) [
  | inr e1 ↦ same_ctx c c' key t.capability (ground arith) has
  | inl e1 ↦ elim (Result-cases (is_ready_task c.run t)) [
    | inr (x, e2) ↦ absurd (ground arith)
    | inl (true, e2) ↦ same_ctx c c' key t.capability (ground arith) has
    | inl (false, e2) ↦
        elim (Result-cases
          (transition key t TaskStatus.blocked BlockerReason.capability_prerequisites_missing c)) [
            | inr (x, e3) ↦ absurd (ground arith)
            | inl ((moved, d), e3) ↦
                let last : TaskNode = record moved {
                  blocker = some BlockerReason.capability_prerequisites_missing;
                } in
                let (u, found, is) = put_task-HasCapability d c' key last (ground arith) in
                (u, found, is ∙ moved_capability key t TaskStatus.blocked _ c d moved e3)
          ]
  ]
]

settled-HasCapability :
    (d c' : Ctx) (key : String) (t : TaskNode)
    → (block_unready key t >> refresh) d ≡ ok (tt, c')
    → HasCapability d.run key t.capability
    → HasCapability c'.run key t.capability
settled-HasCapability d c' key t e has =
    let (_, f, e1, e2) = then_split (block_unready key t) (λ _. refresh) d c' tt e in
    refresh-HasCapability f c' key t.capability e2 (block_unready-HasCapability d f key t e1 has)

-- The state with the changed task and one more event.
abbrev announced : Ctx → (key : String) → TaskNode → (kind : String) → EventData → Ctx
announced c key t kind detail =
    let event : Event = record { run_id = c.run.id; sequence = 0; kind = kind; detail = detail } in
    record {
      run = record c.run { tasks = insert key t c.run.tasks };
      events = c.events ++ event ∷ [];
    }

-- A task gets another capability from the Manager only while no work of it is in flight, and only
-- by an approval of a human for exactly this task, capability and workspace; afterwards it has the
-- capability.
pub change_capability-IsGranted :
    (o : Orchestrator) (task_id : String) (capability : CapabilityProfile) (approval_id : String)
    (workspace_id : Option String) (c c' : Ctx)
    → change_capability o task_id capability approval_id workspace_id c ≡ ok (tt, c')
    → ((task : TaskNode) × (lookup task_id c.run.tasks ≡ some task)
        × (is_changeable task.status ≡ true)
        × (validate_capability_checks task capability ≡ ok tt))
      × IsGranted o c.run approval_id "change_capability"
          (capability_scope task_id capability workspace_id)
      × HasCapability c'.run task_id capability
unfolding change_capability emit
change_capability-IsGranted o task_id capability approval_id workspace_id c c' e =
    elim (Option-cases (lookup task_id c.run.tasks)) [
      | inl e1 ↦ absurd (ground arith)
      | inr (task, e1) ↦ elim (Result-cases (validate_capability_checks task capability)) [
        | inr (x, e2) ↦ absurd (ground arith)
        | inl (_, e2) ↦
            elim (Result-cases (
              approved o c.run approval_id "change_capability"
                (capability_scope task_id capability workspace_id))) [
                  | inr (x, e3) ↦ absurd (ground arith)
                  | inl (_, e3) ↦ (
                    (task, e1, ground arith, e2),
                    approved-IsGranted o c.run approval_id "change_capability" _ e3,
                    settled-HasCapability
                        (announced c task_id (regranted task capability workspace_id)
                          "capability.escalated"
                          (EventData.fields (
                            ("task_id", some task_id)
                            ∷ ("capability", some (capability_value capability))
                            ∷ ("workspace_id", workspace_id)
                            ∷ ("approval_id", some approval_id)
                            ∷ [])))
                        c' task_id (regranted task capability workspace_id) (ground arith)
                        (
                          regranted task capability workspace_id,
                          lookup-insert_self task_id _ c.run.tasks,
                          refl,
                        ),
                  )
                ]
      ]
    ]
