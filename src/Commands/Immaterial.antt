-- ===== src/Commands/Immaterial.antt =====
-- What a replan without material reasons leaves alone: `_replan_materiality` and `apply_replan` of
-- walter/orchestration.py.
use walter.Prelude.{
  String, true, false, ◌≡◌, refl, sym, ap, subst, ◌∙◌, Option, some, List, [], ◌∷◌, ◌==◌, eq_iff,
  elem, select, is_empty, if◌then◌else◌, arith, inl, inr, Bool-cases,
}
use walter.Prelude.Dict.{lookup, insert, lookup-insert}
use walter.Models.{Run, TaskNode, TaskStatus, ReplanProposal, EventData}
use walter.Kernel.Monad.{Ctx, Op, ok, bind, reads, put_task, gets, emit, ◌>>=◌, ◌>>◌, Result-cases}
use walter.Kernel.Readiness.{refresh}
use walter.Kernel.Authority.{Orchestrator}
use walter.Kernel.Planning.Graph.{graph}
use walter.Kernel.Replanning.{
  sorted, rewire_tasks, adopt_tasks, replan_affected, is_accepted_slot, replan_materiality,
}
use walter.Kernel.Replanning.Revising.{sorted-nil}
use walter.Kernel.Replanning.Applying.{
  supersede_artifact, supersede_artifacts, invalidate_task, invalidate_tasks, install_tasks,
  revise_plan, replan_gates, carry_out, apply_replan,
}
use walter.Kernel.Evolution.Slots.{EvolvesAt}
use walter.Kernel.Evolution.Frames.{
  Leaves, leaving, then_split, then-Leaves, pure-Leaves, reads-Leaves, modify-Leaves, gets-Leaves,
  emit-Leaves,
}
use walter.Kernel.Evolution.Moves.{refresh_moves}
use walter.Kernel.Evolution.Refreshing.{refresh-evolves}
use walter.Kernel.Capabilities.Granting.{evolved_slot}
use walter.Commands.Progress.{Reach-terminal, is_terminal}

-- The proposal adds nothing, removes nothing and rewires nothing, and affects no accepted task.
pub record IsImmaterial (run : Run) (proposal : ReplanProposal) : Type 0 where
  pub adds : proposal.add ≡ []
  pub removes : proposal.remove ≡ []
  pub rewires : proposal.dependencies ≡ []
  pub affected : List String
  pub found : replan_affected run proposal ≡ ok affected
  pub spared : select (is_accepted_slot run) affected ≡ []

empty-eq : {A : Type 0} (xs : List A) → is_empty xs ≡ true → xs ≡ []
empty-eq [] e = refl
empty-eq (x ∷ xs) e = absurd (ground arith)

materiality-IsImmaterial :
    (run : Run) (proposal : ReplanProposal)
    → replan_materiality run proposal ≡ ok []
    → IsImmaterial run proposal
unfolding replan_materiality
materiality-IsImmaterial run proposal e = elim (Result-cases (replan_affected run proposal)) [
  | inr (x, e1) ↦ absurd (ground arith)
  | inl (affected, e1) ↦ record {
    adds = empty-eq proposal.add (ground arith);
    removes = empty-eq proposal.remove (ground arith);
    rewires = empty-eq proposal.dependencies (ground arith);
    affected = affected;
    found = e1;
    spared = sorted-nil (select (is_accepted_slot run) affected) (empty-eq _ (ground arith));
  }
]

abbrev slot_of : String → Run → Option TaskNode
slot_of key run = lookup key run.tasks

put_other :
    (key other : String) (t : TaskNode)
    → (other == key) ≡ false
    → Leaves (slot_of key) (put_task other t)
put_other key other t apart =
    modify-Leaves _ (λ run. unchanged run (lookup-insert other key t run.tasks))
  where
    unchanged :
        (run : Run)
        → lookup key (insert other t run.tasks)
          ≡ (if other == key then some t else lookup key run.tasks)
        → lookup key (insert other t run.tasks) ≡ lookup key run.tasks
    unchanged run look = cc (apart, look)

module _ (key : String) (proposal : ReplanProposal) where
  supersede_artifact-slot : (id : String) → Leaves (slot_of key) (supersede_artifact proposal id)
  unfolding supersede_artifact
  supersede_artifact-slot id = search (leaving, modify-Leaves) depth 40

  supersede_artifacts-slot :
      (ids : List String) → Leaves (slot_of key) (supersede_artifacts proposal ids)
  unfolding supersede_artifacts
  supersede_artifacts-slot [] = pure-Leaves tt
  supersede_artifacts-slot (id ∷ rest) =
      then-Leaves (supersede_artifact-slot id) λ _. supersede_artifacts-slot rest

  invalidate_task-slot :
      (other : String)
      → (other == key) ≡ false
      → Leaves (slot_of key) (invalidate_task proposal other)
  unfolding invalidate_task
  invalidate_task-slot other apart = search (leaving, put_other, supersede_artifacts-slot) depth 40

  invalidate_tasks-slot :
      (slots : List String)
      → elem key slots ≡ false
      → Leaves (slot_of key) (invalidate_tasks proposal slots)
  unfolding invalidate_tasks
  invalidate_tasks-slot [] h = pure-Leaves tt
  invalidate_tasks-slot (other ∷ rest) h =
      then-Leaves (invalidate_task-slot other (ground (arith, h)))
        λ _. invalidate_tasks-slot rest (ground (arith, h))

  install_tasks-slot :
      proposal.add ≡ [] → proposal.dependencies ≡ [] → Leaves (slot_of key) (install_tasks proposal)
  unfolding install_tasks rewire_tasks adopt_tasks
  install_tasks-slot adds rewires = record {
    leaves = λ c c' a e. ap (lookup key) (
        same c c' a e (ap (λ d. rewire_tasks d c.run.tasks) rewires)
          (ap (λ d. adopt_tasks d c.run.tasks) adds));
  }
    where
      same :
          (c c' : Ctx) (a : Unit {0})
          → install_tasks proposal c ≡ ok (a, c')
          → rewire_tasks proposal.dependencies c.run.tasks ≡ ok c.run.tasks
          → adopt_tasks proposal.add c.run.tasks ≡ c.run.tasks
          → c'.run.tasks ≡ c.run.tasks
      same c c' a e p q = ground arith

  revise_plan-slot : Leaves (slot_of key) (revise_plan proposal)
  unfolding revise_plan
  revise_plan-slot = modify-Leaves _ (λ run. refl)

-- The task in the slot is accepted.
abbrev pub IsAcceptedAt : String → Run → Type 0
IsAcceptedAt key run =
    (t : TaskNode) × (lookup key run.tasks ≡ some t) × (t.status ≡ TaskStatus.accepted)

-- The operation keeps it so.
record Spares {A : Type 0} (key : String) (m : Op A) : Type 0 where
  spares :
      (c c' : Ctx) (a : A) → m c ≡ ok (a, c') → IsAcceptedAt key c.run → IsAcceptedAt key c'.run

Leaves-Spares : {A : Type 0} (key : String) {m : Op A} → Leaves (slot_of key) m → Spares key m
Leaves-Spares key p = record {
  spares = λ c c' a e (t, found, is). (t, p.leaves c c' a e ∙ found, is);
}

then-Spares :
    {A B : Type 0} (key : String) {m : Op A} {f : A → Op B}
    → Spares key m
    → ((a : A) → Spares key (f a))
    → Spares key (m >>= f)
then-Spares key {m} {f} p q = record {
  spares = λ c c' b e h.
      let (a, d, e1, e2) = then_split m f c c' b e in (q a).spares d c' b e2 (p.spares c d a e1 h);
}

refresh-Spares : (key : String) → Spares key refresh
refresh-Spares key = record {
  spares = λ c c' a e (t, found, is).
      let (t', after, one) = evolved_slot t (lookup key c'.run.tasks) (
        subst (λ slot. EvolvesAt refresh_moves slot (lookup key c'.run.tasks)) found
          (refresh-evolves c c' e key)) in
      (t', after, Reach-terminal one.moved (subst (λ s. is_terminal s ≡ true) (sym is) refl) ∙ is);
}

not_affected :
    (run : Run) (key : String) (xs : List String)
    → IsAcceptedAt key run
    → select (is_accepted_slot run) xs ≡ []
    → elem key xs ≡ false
not_affected run key [] h e = refl
not_affected run key (x ∷ xs) (t, found, is) e = elim (Bool-cases (is_accepted_slot run x)) [
  | inl yes_it ↦ absurd (ground (arith, yes_it))
  | inr not_it ↦ elim (Bool-cases (x == key)) [
    | inr other ↦
        let more = not_affected run key xs (t, found, is) (rest_empty not_it) in
        ground (arith, more, other)
    | inl same ↦ absurd (
        clash (subst (λ k. is_accepted_slot run k ≡ false) ((eq_iff x key).0 same) not_it) found is)
  ]
]
  where
    rest_empty : is_accepted_slot run x ≡ false → select (is_accepted_slot run) xs ≡ []
    rest_empty not_it = ground arith

    clash :
        is_accepted_slot run key ≡ false
        → lookup key run.tasks ≡ some t
        → t.status ≡ TaskStatus.accepted
        → ⊥
    clash refused there is_it = ground arith

finish_Spares :
    (key : String) (proposal : ReplanProposal) (affected : List String)
    → Spares key (
        gets (λ run. run.plan.revision) >>= λ revision.
        emit "plan.replan_applied" (EventData.replanned proposal.id revision (sorted affected))
        >> refresh)
finish_Spares key proposal affected =
    then-Spares key (Leaves-Spares key (gets-Leaves (λ (run : Run). run.plan.revision))) λ revision.
      then-Spares key
        (Leaves-Spares key (
          emit-Leaves "plan.replan_applied"
            (EventData.replanned proposal.id revision (sorted affected))))
        λ _. refresh-Spares key

carry_out-Spares :
    (key : String) (proposal : ReplanProposal) (c c' : Ctx)
    → IsImmaterial c.run proposal
    → carry_out proposal c ≡ ok (tt, c')
    → IsAcceptedAt key c.run
    → IsAcceptedAt key c'.run
unfolding carry_out
carry_out-Spares key proposal c c' im e h =
    (then-Spares key (Leaves-Spares key (invalidate_tasks-slot key proposal im.affected away)) λ _.
        then-Spares key (Leaves-Spares key (install_tasks-slot key proposal im.adds im.rewires))
          λ _.
            then-Spares key (Leaves-Spares key (reads-Leaves (λ run. bind (graph run) λ _. ok tt)))
              λ _.
                then-Spares key (Leaves-Spares key (revise_plan-slot key proposal))
                  λ _. finish_Spares key proposal im.affected).spares
      c c' tt (onward im.found) h
  where
    away : elem key im.affected ≡ false
    away = not_affected c.run key im.affected h im.spared

    onward :
        replan_affected c.run proposal ≡ ok im.affected
        → (invalidate_tasks proposal im.affected
              >> (install_tasks proposal
                  >> (reads (λ run. bind (graph run) λ _. ok tt)
                      >> (revise_plan proposal
                          >> (gets (λ run. run.plan.revision) >>= λ revision.
                              emit "plan.replan_applied"
                                (EventData.replanned proposal.id revision (sorted im.affected))
                              >> refresh)))))
            c
          ≡ ok (tt, c')
    onward found = ground arith

-- A proposal for which the kernel finds no material reason leaves every accepted task accepted when
-- it is applied.
pub apply_replan-immaterial :
    (o : Orchestrator) (proposal_id : String) (proposal : ReplanProposal) (c c' : Ctx)
    (key : String)
    → lookup proposal_id c.run.replans ≡ some proposal
    → replan_materiality c.run proposal ≡ ok []
    → apply_replan o proposal_id c ≡ ok (tt, c')
    → IsAcceptedAt key c.run
    → IsAcceptedAt key c'.run
unfolding apply_replan
apply_replan-immaterial o proposal_id proposal c c' key stored none_found e h =
    elim (Result-cases (replan_gates o proposal c.run)) [
      | inr (x, e1) ↦ absurd (ground arith)
      | inl (_, e1) ↦
          carry_out-Spares key proposal c c' (materiality-IsImmaterial c.run proposal none_found)
            (ground arith) h
    ]
