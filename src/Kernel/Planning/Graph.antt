-- ===== src/Kernel/Planning/Graph.antt =====
-- `_graph` of walter/orchestration.py: the depth-first walk that refuses cycles, unknown
-- dependencies and retired ones. The walk recurs on fuel; the set `visiting` is passed down, because
-- a task leaves it on every normal return, and `visited` is threaded, the last task first.
pub mod Acyclic
pub mod Total
use walter.Prelude.{
  ℕ, zero, suc, String, Bool, true, false, Option, none, some, List, [], ◌∷◌, ◌<>◌, elem, length,
  if◌then◌else◌,
}
use walter.Prelude.Dict.{Dict, lookup, contains}
use walter.Models.{Run, TaskNode, TaskStatus, Artifact}
use walter.Kernel.Monad.{Error, Result, ok, err, bind, or_raise, task_at}
use walter.Kernel.Lineage.{references}

-- `status in {TaskStatus.CANCELLED, TaskStatus.REPLACED}`
abbrev pub is_retired : TaskStatus → Bool
is_retired TaskStatus.cancelled = true
is_retired TaskStatus.replaced = true
is_retired _ = false

-- The task that the walk visits for one declared reference, if any.
unfoldable pub successor : Run → TaskNode → (dep : String) → Result (Option String)
successor run task dep = elim (lookup dep run.tasks) [
  | some upstream ↦
      if is_retired upstream.status
      then err (Error.gate_error "Dependency references retired task")
      else ok (some dep)
  | none ↦ elim (lookup dep run.artifacts) [
    | some artifact ↦ elim (lookup artifact.task_id run.tasks) [
      | none ↦ err (Error.gate_error "Artifact references unknown producer")
      | some producer ↦ if is_retired producer.status then ok none else ok (some artifact.task_id)
    ]
    | none ↦
        if elem dep task.packet.dependencies
        then err (Error.gate_error ("Unknown dependency " <> dep))
        else ok none
  ]
]

module _ (visit : String → List String → Result (List String)) (run : Run) (task : TaskNode) where
  abbrev pub visit_one : Option String → List String → Result (List String)
  visit_one none visited = ok visited
  visit_one (some key) visited = visit key visited

  -- `for dep in [*packet.dependencies, *packet.required_inputs]`
  unfoldable pub visit_all : List String → List String → Result (List String)
  visit_all [] visited = ok visited
  visit_all (dep ∷ rest) visited =
      bind (successor run task dep)
        λ next. bind (visit_one next visited) λ visited'. visit_all rest visited'

unfoldable pub visit : ℕ → Run → List String → String → List String → Result (List String)
unfolding visit_all
visit zero run visiting key visited = err Error.out_of_fuel
visit (suc fuel) run visiting key visited =
    if elem key visiting
    then err (Error.gate_error "Dependency cycle")
    else if elem key visited
    then ok visited
    else bind (task_at key run) λ task.
      bind (visit_all (visit fuel run (key ∷ visiting)) run task (references task) visited)
        λ visited'. ok (key ∷ visited')

-- Each nested visit is of one more task of the run.
abbrev pub graph_fuel : Run → ℕ
graph_fuel run = suc (length run.tasks)

-- `for key, task in run.tasks.items()`
unfoldable pub visit_tasks : Run → Dict TaskNode → List String → Result (List String)
visit_tasks run [] visited = ok visited
visit_tasks run ((key, task) ∷ rest) visited =
    if is_retired task.status
    then visit_tasks run rest visited
    else bind (visit (graph_fuel run) run [] key visited) λ visited'. visit_tasks run rest visited'

-- The tasks that it visited, each one after those that it depends on.
unfoldable pub graph : Run → Result (List String)
graph run = visit_tasks run run.tasks []
