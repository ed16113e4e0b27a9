-- ===== src/Tests/Stores.antt =====
-- The properties of the store and of its entry points, at small stores.
use walter.Prelude.{
  ◌≡◌, refl, map, suc, subst, String, false, ◌==◌, none, some, [], ◌∷◌, ◌++◌, is_substantive,
  if◌then◌else◌, arith,
}
use walter.Prelude.Dict.{lookup, insert, keys, values}
use walter.Models.{Run, RunStatus, Event, EventData, TaskNode}
use walter.Kernel.Monad.{Error, Result, ok, err, emit}
use walter.Kernel.Assignment
use walter.Kernel.Readiness
use walter.Kernel.Lineage
use walter.Kernel.Transitions
use walter.Store.{
  RunRow, Store, empty_store, rows_of, backups_of, order_by_sequence, rows_are_intact, check_row,
  load, insert_events, save, delete_run, next_snapshot, stored_cursor, is_stale,
}
use walter.Store.Numbering.{numbered}
use walter.Store.Consistency.{IsConsistent}
use walter.Store.Saving.{
  saved, written_row, save-IsConsistent, save_total, save_lost_update, save_appends,
}
use walter.Store.Deleting.{delete_run-IsConsistent}
use walter.Store.Reading.{history, version_info, payload_of, history_stored}
use walter.Session.{mutate}
use walter.Session.Closing.{Closure, close, mutate_closed}
use walter.Kernel.Operator.{abandon}
use walter.Kernel.Evolution.{IsWithin, IsHeld}
use walter.Commands.{Command, perform}
use walter.Kernel.Evolution.Order.{IsOrderly}
use walter.Commands.History.{Step, Steps, AllOrderly, Steps-IsConsistent, Steps-AllOrderly}
use walter.Tests.Samples.{kernel, task, fresh}

abbrev created : Event
created = record { run_id = "r"; sequence = 0; kind = "run.created"; detail = EventData.fields [] }

abbrev store_after : {A : Type 0} → Store → Result (A × Store) → Store
store_after s (ok (_, s')) = s'
store_after s (err _) = s

empty-IsConsistent : IsConsistent empty_store
unfolding lookup rows_of
empty-IsConsistent id = refl

-- One run with one task, at version 1.
abbrev saved_once : Store
saved_once = saved empty_store fresh.run (created ∷ []) none

abbrev first_row : Run
first_row = next_snapshot empty_store fresh.run (created ∷ []) none

saves : save empty_store fresh.run (created ∷ []) none ≡ ok (first_row, saved_once)
unfolding save lookup insert insert_events
saves = refl

idle : is_stale (lookup "r" empty_store.runs) none ≡ false
unfolding lookup
idle = refl

save_total_example : save empty_store fresh.run (created ∷ []) none ≡ ok (first_row, saved_once)
save_total_example =
    save_total empty_store fresh.run (created ∷ []) none empty-IsConsistent refl (refl, tt) idle

saved_once-IsConsistent : IsConsistent saved_once
saved_once-IsConsistent =
    save-IsConsistent empty_store fresh.run (created ∷ []) none empty-IsConsistent saves

save_appends_example :
    (rows_of "r" saved_once.events ≡ (
      if "r" == "r"
      then rows_of "r" empty_store.events
        ++ numbered "r" (suc (stored_cursor (lookup "r" empty_store.runs))) (created ∷ [])
      else rows_of "r" empty_store.events))
    × (lookup "r" saved_once.runs ≡ (
        if "r" == "r"
        then some (record { version = first_row.version; snapshot = first_row })
        else lookup "r" empty_store.runs))
save_appends_example = save_appends empty_store fresh.run (created ∷ []) none "r" saves

first_stored :
    lookup "r" saved_once.runs ≡ some (written_row empty_store fresh.run (created ∷ []) none)
unfolding lookup insert
first_stored = refl

history_stored_example :
    (history saved_once "r" ≡ ok (map payload_of (rows_of "r" saved_once.events)))
    × (version_info saved_once "r" ≡ ok (first_row.version, first_row.event_cursor))
history_stored_example =
    history_stored saved_once "r" (written_row empty_store fresh.run (created ∷ []) none)
      saved_once-IsConsistent first_stored

-- A second save, by the writer that loaded version 1 first.
abbrev saved_twice : Store
saved_twice = saved saved_once first_row (created ∷ []) (some 1)

saves_again :
    save saved_once first_row (created ∷ []) (some 1)
    ≡ ok (next_snapshot saved_once first_row (created ∷ []) (some 1), saved_twice)
unfolding save lookup insert insert_events
saves_again = refl

save_lost_update_example :
    save saved_twice first_row (created ∷ []) (some 1) ≡ err Error.concurrent_update
save_lost_update_example =
    save_lost_update saved_once first_row first_row (created ∷ []) (created ∷ []) 1 refl refl
      saves_again

delete_run-IsConsistent_example :
    IsConsistent (delete_run saved_once "r").1
    × (lookup "r" (delete_run saved_once "r").1.runs ≡ none)
    × (rows_of "r" (delete_run saved_once "r").1.events ≡ [])
    × (backups_of "r" (delete_run saved_once "r").1.backups ≡ [])
delete_run-IsConsistent_example = delete_run-IsConsistent saved_once "r" saved_once-IsConsistent

-- A delegation over the store.
abbrev delegated_store : Store
delegated_store =
    store_after saved_once
      (mutate saved_once "r" (perform kernel (Command.delegate "t" "ann" "a1")))

delegates :
    mutate saved_once "r" (perform kernel (Command.delegate "t" "ann" "a1"))
    ≡ ok (tt, delegated_store)
unfolding mutate perform load save insert_events lookup insert keys check_row rows_of
    order_by_sequence rows_are_intact is_substantive emit Transitions.transitions
    Transitions.transition Transitions.status_event Readiness.readiness_blocker
    Readiness.gate_blocker Readiness.gates_blocker Lineage.input_artifact_ids Lineage.gather
    Lineage.resolve Assignment.delegate
delegates = refl

-- The run, closed by its operator.
abbrev closure : Closure
closure = Closure.abandoned "No longer needed" (some "ann")

abbrev closed_store : Store
closed_store = store_after saved_once (mutate saved_once "r" (close closure))

closes : mutate saved_once "r" (close closure) ≡ ok (tt, closed_store)
unfolding mutate abandon load save insert_events lookup insert check_row rows_of order_by_sequence
    rows_are_intact is_substantive emit values
closes = refl

mutate_closed_example :
    ((run : Run) × (load closed_store "r" ≡ ok run) × (run.status ≡ RunStatus.abandoned))
    × (mutate closed_store "r" (perform kernel (Command.start "t"))
        ≡ err (Error.gate_error "Run is terminal"))
mutate_closed_example =
    mutate_closed closure saved_once closed_store "r" (perform kernel (Command.start "t"))
      saved_once-IsConsistent closes

abbrev two_steps : Steps kernel saved_once (delete_run delegated_store "r").1
two_steps =
    Steps.then_one
      (Steps.then_one Steps.start (Step.performed "r" (Command.delegate "t" "ann" "a1") delegates))
      (Step.deleted "r" refl)

abbrev one_step : Steps kernel saved_once delegated_store
one_step =
    Steps.then_one Steps.start (Step.performed "r" (Command.delegate "t" "ann" "a1") delegates)

Steps-IsConsistent_example : IsConsistent (delete_run delegated_store "r").1
Steps-IsConsistent_example = Steps-IsConsistent kernel saved_once saved_once-IsConsistent two_steps

lookup-single :
    {V : Type 0} (key other : String) (v x : V) → lookup other ((key, v) ∷ []) ≡ some x → v ≡ x
unfolding lookup
lookup-single key other v x h = ground arith

task-IsOrderly : (t : TaskNode) → task ≡ t → IsWithin t × IsHeld t
task-IsOrderly t e = subst (λ u. IsWithin u × IsHeld u) e ((omega arith, omega arith), refl)

saved_once-AllOrderly : AllOrderly saved_once
unfolding insert
saved_once-AllOrderly id row found =
    subst (λ (r : RunRow). IsOrderly r.snapshot.tasks)
      (lookup-single "r" id (written_row empty_store fresh.run (created ∷ []) none) row found)
      (λ key t there. task-IsOrderly t (lookup-single "t" key task t there))

Steps-AllOrderly_example : AllOrderly delegated_store
Steps-AllOrderly_example = Steps-AllOrderly kernel saved_once saved_once-AllOrderly one_step
