-- ===== src/Commands/History.antt =====
-- The store of walter/store.py as kernel requests, amendments, new runs and erasures change it in any order.
use walter.Prelude.{
  true, false, if◌then◌else◌, ℕ, String, ◌≡◌, sym, subst, ap, ◌∙◌, Option, none, some, List, [],
  ◌∷◌, arith, ◌==◌, Bool-cases, inl, inr,
}
use walter.Prelude.Dict.{lookup, lookup-insert, lookup-remove}
use walter.Models.{Run, TaskNode, Event}
use walter.Kernel.Monad.{ok}
use walter.Kernel.Authority.{Orchestrator}
use walter.Kernel.Evolution.Order.{IsOrderly, IsOrderly-evolved}
use walter.Store.{RunRow, Store, load, save, delete_run}
use walter.Store.Consistency.{IsConsistent}
use walter.Store.Saving.{save-eq, save-IsConsistent, written_row}
use walter.Store.Deleting.{delete_run-IsConsistent}
use walter.Session.{mutate, create_run, new_run, created_event}
use walter.Session.Atomicity.{mutate-Mutated, mutate-IsConsistent, load-eq}
use walter.Commands.{Command, perform}
use walter.Commands.Amendments.{Amendment, amend, IsAdmissible, amend-IsOrderly}
use walter.Commands.Progress.{moves_of, perform-evolves}

-- One change of the store. An amendment is admissible in the run that it loads.
pub data Step (o : Orchestrator) (s s' : Store) : Type 0 where
  created :
      (objective : String) (criteria : List String) (max_replans : ℕ) (new_id : String) (run : Run)
      → create_run s objective criteria max_replans new_id ≡ ok (run, s')
      → Step o s s'
  performed :
      (run_id : String) (command : Command)
      → mutate s run_id (perform o command) ≡ ok (tt, s')
      → Step o s s'
  amended :
      (run_id : String) (amendment : Amendment)
      → ((run : Run) → load s run_id ≡ ok run → IsAdmissible run amendment)
      → mutate s run_id (amend o amendment) ≡ ok (tt, s')
      → Step o s s'
  deleted : (run_id : String) → s' ≡ (delete_run s run_id).1 → Step o s s'

pub data Steps (o : Orchestrator) (s : Store) : Store → Type 0 where
  start : Steps o s s
  then_one : {t u : Store} → Steps o s t → Step o t u → Steps o s u

module _ (store : Store) (objective : String) (criteria : List String) (max_replans : ℕ)
    (new_id : String) (run : Run) (store' : Store)
    (e : create_run store objective criteria max_replans new_id ≡ ok (run, store')) where
  create_run-saved :
      save store (new_run objective criteria max_replans new_id) (created_event new_id ∷ []) none
      ≡ ok (run, store')
  unfolding create_run
  create_run-saved = ground arith

  create_run-IsConsistent : IsConsistent store → IsConsistent store'
  create_run-IsConsistent h = save-IsConsistent store _ _ none h create_run-saved

Step-IsConsistent :
    (o : Orchestrator) (s s' : Store) → Step o s s' → IsConsistent s → IsConsistent s'
Step-IsConsistent o s s' (created objective criteria n id run e) h =
    create_run-IsConsistent s objective criteria n id run s' e h
Step-IsConsistent o s s' (performed run_id command e) h =
    mutate-IsConsistent s run_id (perform o command) tt s' h e
Step-IsConsistent o s s' (amended run_id amendment fresh e) h =
    mutate-IsConsistent s run_id (amend o amendment) tt s' h e
Step-IsConsistent o s s' (deleted run_id e) h =
    subst IsConsistent (sym e) (delete_run-IsConsistent s run_id h).0

-- Every sequence of requests, amendments, new runs and erasures leaves a consistent store
-- consistent.
pub Steps-IsConsistent :
    (o : Orchestrator) (s : Store) {s' : Store} → IsConsistent s → Steps o s s' → IsConsistent s'
Steps-IsConsistent o s h start = h
Steps-IsConsistent o s h (then_one {t} {u} steps step) =
    Step-IsConsistent o t u step (Steps-IsConsistent o s h steps)

-- In every stored run each task is within its budgets, and its work in flight has a worker.
abbrev pub AllOrderly : Store → Type 0
AllOrderly s =
    (id : String) (row : RunRow) → lookup id s.runs ≡ some row → IsOrderly row.snapshot.tasks

AllOrderly-saved :
    (s s' : Store) (run candidate : Run) (events : List Event) (expected : Option ℕ)
    → save s run events expected ≡ ok (candidate, s')
    → IsOrderly run.tasks
    → AllOrderly s
    → AllOrderly s'
AllOrderly-saved s s' run candidate events expected e fresh h id row found =
    let (_, written, _, _) = save-eq s run events expected e in
    let look =
      ap (λ (u : Store). lookup id u.runs) written
      ∙ lookup-insert run.id id (written_row s run events expected) s.runs in
    elim (Bool-cases (run.id == id)) [
      | inl same ↦ subst (λ (r : RunRow). IsOrderly r.snapshot.tasks) (same_row same look) fresh
      | inr differ ↦ h id row (other_row differ look)
    ]
  where
    same_row :
        (run.id == id) ≡ true
        → lookup id s'.runs
          ≡ (if run.id == id then some (written_row s run events expected) else lookup id s.runs)
        → written_row s run events expected ≡ row
    same_row same look = cc (same, found, look)

    other_row :
        (run.id == id) ≡ false
        → lookup id s'.runs
          ≡ (if run.id == id then some (written_row s run events expected) else lookup id s.runs)
        → lookup id s.runs ≡ some row
    other_row differ look = cc

none_in_empty : (key : String) (t : TaskNode) → lookup {V = TaskNode} key [] ≡ some t → ⊥
unfolding lookup
none_in_empty key t h = cc

AllOrderly-deleted :
    (s : Store) (run_id : String) → AllOrderly s → AllOrderly (delete_run s run_id).1
unfolding delete_run
AllOrderly-deleted s run_id h id row found =
    let look = lookup-remove run_id id s.runs in
    elim (Bool-cases (run_id == id)) [
      | inl same ↦ absurd (cc (same, found, look))
      | inr differ ↦ h id row (cc (differ, found, look))
    ]

Step-AllOrderly : (o : Orchestrator) (s s' : Store) → Step o s s' → AllOrderly s → AllOrderly s'
Step-AllOrderly o s s' (created objective criteria n id run e) h =
    AllOrderly-saved s s' (new_run objective criteria n id) run (created_event id ∷ []) none
      (create_run-saved s objective criteria n id run s' e)
      (λ key t found. absurd (none_in_empty key t found)) h
Step-AllOrderly o s s' (performed run_id command e) h =
    let m = mutate-Mutated s run_id (perform o command) tt s' e in
    let (row, stored, same) = load-eq s run_id m.run m.loaded in
    AllOrderly-saved s s' m.c.run m.candidate m.c.events (some m.c.run.version) m.written
      (IsOrderly-evolved (moves_of command) m.run.tasks m.c.run.tasks
        (perform-evolves o command (record { run = m.run; events = [] }) m.c m.operated)
        (subst (λ (r : Run). IsOrderly r.tasks) same (h run_id row stored)))
      h
Step-AllOrderly o s s' (amended run_id amendment fresh e) h =
    let m = mutate-Mutated s run_id (amend o amendment) tt s' e in
    let (row, stored, same) = load-eq s run_id m.run m.loaded in
    AllOrderly-saved s s' m.c.run m.candidate m.c.events (some m.c.run.version) m.written
      (amend-IsOrderly o amendment (record { run = m.run; events = [] }) m.c (fresh m.run m.loaded)
        m.operated (subst (λ (r : Run). IsOrderly r.tasks) same (h run_id row stored)))
      h
Step-AllOrderly o s s' (deleted run_id e) h =
    subst AllOrderly (sym e) (AllOrderly-deleted s run_id h)

-- From a store whose tasks are within their budgets, with a worker for all work in flight, no
-- sequence of requests, amendments, new runs and erasures leads to one where that fails, if the
-- tasks that an amendment brings in come with revisions left.
pub Steps-AllOrderly :
    (o : Orchestrator) (s : Store) {s' : Store} → AllOrderly s → Steps o s s' → AllOrderly s'
Steps-AllOrderly o s h start = h
Steps-AllOrderly o s h (then_one {t} {u} steps step) =
    Step-AllOrderly o t u step (Steps-AllOrderly o s h steps)
