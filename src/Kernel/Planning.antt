-- ===== src/Kernel/Planning.antt =====
-- `set_completion_criteria`, `add_tasks` and the checks of a plan that it calls, of
-- walter/orchestration.py.
pub mod Graph
use walter.Prelude.{
  ℕ, String, Bool, true, false, not, ◌&&◌, ◌||◌, Option, none, some, List, [], ◌∷◌, ◌++◌, ◌<>◌, any,
  elem, is_empty, is_substantive, ◌=ℕ=◌,
}
use walter.Prelude.Dict.{insert, values, contains}
use walter.Models.{
  Run, TaskNode, EventData, CapabilityProfile, WorkerAssignment, is_planned, is_developer,
}
use walter.Kernel.Monad.{
  Error, Result, ok, err, bind, refuse, Op, ◌>>=◌, ◌>>◌, pure, gets, reads, raise_if, modify, emit,
  put_task,
}
use walter.Kernel.Readiness.{refresh}
use Graph.{graph}

-- `any(t.attempts for t in run.tasks.values())`
abbrev pub is_under_way : Run → Bool
is_under_way run = any (λ (t : TaskNode). not (t.attempts =ℕ= 0)) (values run.tasks)

unfoldable pub set_completion_criteria : List String → Op (Unit {0})
set_completion_criteria criteria = do
  begun ← gets is_under_way
  raise_if (is_empty criteria || any (λ x. not (is_substantive x)) criteria || begun)
      (Error.gate_error "Completion criteria must be defined before execution")
  modify (λ run. record run { plan = record run.plan { completion_criteria = criteria } })
  emit "plan.criteria_defined" (EventData.listed (("criteria", criteria) ∷ []))

-- `EXECUTABLE_DEVELOPER_CHECKS`
abbrev pub executable_checks : List String
executable_checks =
    "compile" ∷ "pytest" ∷ "pytest_candidate" ∷ "pytest_regression" ∷ "node_test" ∷ "tsc"
    ∷ "npm_build" ∷ []

-- `_validate_capability_checks(task, profile)`
unfoldable pub validate_capability_checks : TaskNode → CapabilityProfile → Result (Unit {0})
validate_capability_checks task profile =
    refuse
      (is_developer profile
        && not (any (λ check. elem check executable_checks) task.required_checks))
      (Error.gate_error
        "Developer sandbox requires compile or pytest validation (or node_test/tsc for Node projects)")

-- `_reject_identifier_collision`
unfoldable pub reject_identifier_collision : Run → (task_id : String) → Result (Unit {0})
reject_identifier_collision run task_id =
    bind
      (refuse (contains task_id run.available_inputs)
        (Error.gate_error ("Task ID collides with a registered input name: " <> task_id)))
      λ _.
        refuse (contains task_id run.artifacts)
          (Error.gate_error ("Task ID collides with an artifact ID: " <> task_id))

abbrev pub is_assigned : Option WorkerAssignment → Bool
is_assigned none = false
is_assigned (some a) = true

-- `_is_fresh_task`
abbrev pub is_fresh_task : Run → TaskNode → Bool
is_fresh_task run task = not (
    contains task.packet.task_id run.tasks
    || not (is_planned task.status)
    || not (task.attempts =ℕ= 0)
    || not (is_empty task.artifact_ids)
    || is_assigned task.assignment
    || not (task.attempt_baseline =ℕ= 0)
    || not (task.revision_baseline =ℕ= 0))

-- A new task, past its checks.
unfoldable pub enter_task : TaskNode → Op (Unit {0})
enter_task task = do
  put_task task.packet.task_id task
  modify (λ run. record run {
    plan = record run.plan { task_ids = run.plan.task_ids ++ task.packet.task_id ∷ [] };
  })
  emit "task.created" (EventData.fields (("task_id", some task.packet.task_id) ∷ []))

-- One round of the loop over the new tasks.
unfoldable pub add_task : TaskNode → Op (Unit {0})
add_task task = do
  fresh ← gets (λ run. is_fresh_task run task)
  raise_if (not fresh) (Error.gate_error "Only fresh unique tasks can be added")
  reads (λ run. reject_identifier_collision run task.packet.task_id)
  reads (λ _. validate_capability_checks task task.capability)
  enter_task task

unfoldable pub add_each : List TaskNode → Op (Unit {0})
add_each [] = pure tt
add_each (task ∷ rest) = add_task task >> add_each rest

unfoldable pub add_tasks : List TaskNode → Op (Unit {0})
add_tasks tasks = do
  replanned ← gets (λ run. not (run.plan.revision =ℕ= 0) || is_under_way run)
  raise_if replanned (Error.gate_error "Use explicit replan after execution begins")
  add_each tasks
  reads (λ run. bind (graph run) λ _. ok tt)
  refresh
