-- ===== src/Commands/Progress.antt =====
-- What the requests of walter/orchestration.py that work on the existing tasks of a run guarantee of
-- these tasks.
use walter.Prelude.{
  String, ◌≡◌, refl, subst, Bool, true, false, Option, none, some, arith, inl, inr,
}
use walter.Prelude.Dict.{lookup}
use walter.Models.{TaskNode, TaskStatus}
use walter.Kernel.Monad.{Ctx, Op, ok, Result-cases}
use walter.Kernel.Assignment
use walter.Kernel.Evidence
use walter.Kernel.Recovery
use walter.Kernel.Authority.{Orchestrator}
use walter.Kernel.Transitions.{transitions}
use walter.Kernel.Evolution.{MoveTable, Reach, here, next, Evolves}
use walter.Kernel.Evolution.Slots.{EvolvesAt, TasksEvolve}
use walter.Kernel.Evolution.Moves.{
  no_moves, refresh_moves, delegate_moves, start_moves, submit_moves, examine_moves, accept_moves,
  fail_moves, resume_moves, recover_moves,
}
use walter.Kernel.Evolution.Assigning.{
  delegate-evolves, start-evolves, submit-evolves, record_provisional_result-evolves,
  record_capability_request-evolves,
}
use walter.Kernel.Evolution.Reviewing.{validate-evolves, review-evolves, accept-evolves}
use walter.Kernel.Evolution.Recovering.{
  fail-evolves, fail_assignment-evolves, recover-evolves, resume-evolves, abandon-evolves,
}
use walter.Kernel.Evolution.Binding.{
  register_input-evolves, bind_workspace-evolves, replace_workspace-evolves, integrate-evolves,
  set_completion_criteria-evolves,
}
use walter.Commands.{Command, quietly, perform}

-- The moves that each request may make: at most those of the refresh when it only brings in an input
-- or a workspace.
abbrev pub moves_of : Command → MoveTable
moves_of (Command.delegate t w n) = delegate_moves
moves_of (Command.start t) = start_moves
moves_of (Command.submit t a w r f n) = submit_moves
moves_of (Command.validate a k p e v f n) = examine_moves
moves_of (Command.review a r p e f n) = examine_moves
moves_of (Command.accept t m r f n) = accept_moves
moves_of (Command.fail t k e n) = fail_moves
moves_of (Command.fail_assignment t a w k e n) = fail_moves
moves_of (Command.recover f r a n) = recover_moves
moves_of (Command.resume n) = resume_moves
moves_of (Command.register_input n r) = refresh_moves
moves_of (Command.bind_workspace t w) = refresh_moves
moves_of _ = no_moves

quietly-evolves :
    {A : Type 0} (moves : MoveTable) (m : Op A) (c c' : Ctx)
    → ((a : A) → m c ≡ ok (a, c') → TasksEvolve moves c.run.tasks c'.run.tasks)
    → quietly m c ≡ ok (tt, c')
    → TasksEvolve moves c.run.tasks c'.run.tasks
quietly-evolves moves m c c' each h = elim (Result-cases (m c)) [
  | inr (_, e) ↦ absurd (ground arith)
  | inl ((a, d), e) ↦ each a (ground arith)
]

-- A request of `Command` that raises nothing - from `delegate` to `set_completion_criteria`, the
-- amendments not among them - makes no slot of the run appear or disappear, and the task in each slot
-- evolves: its status makes only moves that `TRANSITIONS` allows and that are among those of the
-- request, as `moves_of` lists them; its packet, capability, checks and limits stay; its budgets and
-- the worker of its work in flight are respected if they were before; attempts are counted with the
-- history of assignments; and that history and the list of artifacts only grow.
pub perform-evolves :
    (o : Orchestrator) (command : Command) (c c' : Ctx)
    → perform o command c ≡ ok (tt, c')
    → TasksEvolve (moves_of command) c.run.tasks c'.run.tasks
unfolding perform
perform-evolves o (Command.delegate t w n) c c' h =
    quietly-evolves delegate_moves (Assignment.delegate o t w n) c c'
      (delegate-evolves t c c' o w n) h
perform-evolves o (Command.start t) c c' h = start-evolves t c c' h
perform-evolves o (Command.submit t a w r f n) c c' h =
    quietly-evolves submit_moves (Assignment.submit o t a w r f n) c c'
      (submit-evolves t c c' o a w r f n) h
perform-evolves o (Command.provisional t a w r) c c' h =
    record_provisional_result-evolves t c c' a w r h
perform-evolves o (Command.capability t a w r n) c c' h =
    quietly-evolves no_moves (Assignment.record_capability_request t a w r n) c c'
      (record_capability_request-evolves t c c' a w r n) h
perform-evolves o (Command.validate a k p e v f n) c c' h =
    quietly-evolves examine_moves (Evidence.validate o a k p e v f n) c c'
      (validate-evolves o c c' a k p e v f n) h
perform-evolves o (Command.review a r p e f n) c c' h =
    quietly-evolves examine_moves (Evidence.review o a r p e f n) c c'
      (review-evolves o c c' a r p e f n) h
perform-evolves o (Command.accept t m r f n) c c' h =
    quietly-evolves accept_moves (Evidence.accept o t m r f n) c c'
      (accept-evolves o t m r f n c c') h
perform-evolves o (Command.fail t k e n) c c' h =
    quietly-evolves fail_moves (Recovery.fail t k e n) c c' (fail-evolves t k e n c c') h
perform-evolves o (Command.fail_assignment t a w k e n) c c' h =
    quietly-evolves fail_moves (Recovery.fail_assignment t a w k e n) c c'
      (fail_assignment-evolves t a w k e n c c') h
perform-evolves o (Command.recover f r a n) c c' h =
    quietly-evolves recover_moves (Recovery.recover o f r a n) c c' (recover-evolves o f r a n c c')
      h
perform-evolves o (Command.resume n) c c' h = resume-evolves n c c' h
perform-evolves o (Command.abandon r a) c c' h = abandon-evolves r a c c' h
perform-evolves o (Command.register_input n r) c c' h = register_input-evolves c c' n r h
perform-evolves o (Command.bind_workspace t w) c c' h = bind_workspace-evolves c c' t w h
perform-evolves o (Command.replace_workspace t e n r) c c' h =
    replace_workspace-evolves c c' t e n r h
perform-evolves o (Command.integrate a k) c c' h = integrate-evolves c c' a k h
perform-evolves o (Command.set_completion_criteria criteria) c c' h =
    set_completion_criteria-evolves c c' criteria h

-- ACCEPTED, REPLACED and CANCELLED have no successor in `TRANSITIONS`.
abbrev pub is_terminal : TaskStatus → Bool
is_terminal TaskStatus.accepted = true
is_terminal TaskStatus.replaced = true
is_terminal TaskStatus.cancelled = true
is_terminal _ = false

stuck : (a b : TaskStatus) → is_terminal a ≡ true → transitions a b ≡ false
unfolding transitions
stuck a b h = ground arith

not_both : {b : Bool} → b ≡ true → b ≡ false → ⊥
not_both p q = cc

pub Reach-terminal :
    {moves : MoveTable} {a b : TaskStatus} → Reach moves a b → is_terminal a ≡ true → b ≡ a
Reach-terminal here h = refl
Reach-terminal {moves} {a} (next {by} {to} r e listed) h =
    let same = Reach-terminal r h in
    absurd (not_both (subst (λ s. transitions s to ≡ true) same e) (stuck a to h))

-- The slot of a task, before and after.
pub perform_slot :
    (o : Orchestrator) (command : Command) (c c' : Ctx) (key : String) (t : TaskNode)
    → perform o command c ≡ ok (tt, c')
    → lookup key c.run.tasks ≡ some t
    → (t' : TaskNode) × (lookup key c'.run.tasks ≡ some t') × Evolves (moves_of command) t t'
perform_slot o command c c' key t h found = after (lookup key c'.run.tasks) refl (
    subst (λ slot. EvolvesAt (moves_of command) slot (lookup key c'.run.tasks)) found
      (perform-evolves o command c c' h key))
  where
    after :
        (slot : Option TaskNode)
        → lookup key c'.run.tasks ≡ slot
        → EvolvesAt (moves_of command) (some t) slot
        → (t' : TaskNode) × (lookup key c'.run.tasks ≡ some t') × Evolves (moves_of command) t t'
    after none e ev = absurd ev
    after (some t') e ev = (t', e, ev)

-- A task that is accepted, replaced or cancelled keeps its slot and its status through every request
-- of `Command` that raises nothing. The amendments are not among these: a replan can reopen or cancel
-- such a task.
pub perform_terminal :
    (o : Orchestrator) (command : Command) (c c' : Ctx) (key : String) (t : TaskNode)
    → perform o command c ≡ ok (tt, c')
    → lookup key c.run.tasks ≡ some t
    → is_terminal t.status ≡ true
    → (t' : TaskNode) × (lookup key c'.run.tasks ≡ some t') × (t'.status ≡ t.status)
perform_terminal o command c c' key t h found final =
    let (t', found', ev) = perform_slot o command c c' key t h found in
    (t', found', Reach-terminal ev.moved final)
