-- ===== src/Kernel/Replanning.antt =====
-- `_replan_defects`, `_replan_affected`, `_replan_materiality`, `propose_replan`, `validate_replan`
-- and `replan_materiality` of walter/orchestration.py. The sets of the source are lists without
-- repetition.
pub mod Applying
pub mod Revising
pub mod Spreading
pub mod Affected
use Prim.Native.String.{compare}
use Prim.Native.Nat.{Ordering}
use walter.Prelude.{
  ℕ, zero, suc, ◌+◌, String, Bool, true, false, not, ◌&&◌, ◌||◌, Option, none, some, List, [], ◌∷◌,
  ◌++◌, ◌<>◌, ◌==◌, ◌=ℕ=◌, leb, map, any, elem, select, is_empty, length, join, decimal,
  if◌then◌else◌,
}
use walter.Prelude.Dict.{Dict, lookup, insert, keys, contains}
use walter.Models.{Run, WorkPlan, TaskNode, TaskStatus, ReplanProposal, EventData, is_accepted}
use walter.Kernel.Monad.{
  Error, Result, ok, err, bind, refuse, or_raise, Op, ◌>>=◌, ◌>>◌, pure, gets, reads, raise_if,
  modify, emit,
}
use walter.Kernel.Lineage.{references}
use walter.Kernel.Planning.{is_fresh_task, reject_identifier_collision, validate_capability_checks}
use walter.Kernel.Planning.Graph.{graph}

insert_text : String → List String → List String
insert_text s [] = s ∷ []
insert_text s (t ∷ rest) = elim (compare s t) [
  | Ordering.gt ↦ t ∷ insert_text s rest
  | _ ↦ s ∷ t ∷ rest
]

-- `sorted(texts)`
unfoldable pub sorted : List String → List String
unfolding insert_text
sorted [] = []
sorted (s ∷ rest) = insert_text s (sorted rest)

-- `affected.add(key)`
abbrev pub add_key : String → List String → List String
add_key key keys = if elem key keys then keys else key ∷ keys

-- `set(texts)`
unfoldable pub distinct : List String → List String
distinct [] = []
distinct (s ∷ rest) = add_key s (distinct rest)

-- `label references unknown task key`
abbrev pub unknown_references : Run → (label : String) → List String → List String
unknown_references run label references =
    map (λ key. label <> " references unknown task " <> key)
      (select (λ key. not (contains key run.tasks)) references)

abbrev pub contradictions : ReplanProposal → List String
contradictions proposal =
    map (λ key. "task " <> key <> " is both removed and reopened")
      (sorted (distinct (select (λ key. elem key proposal.reopen) proposal.remove)))

-- `except GateError as exc: defects.append(str(exc))`
abbrev pub defect_of : Result (Unit {0}) → Result (List String)
defect_of (ok _) = ok []
defect_of (err (Error.gate_error reason)) = ok (reason ∷ [])
defect_of (err e) = err e

-- The defects of one added task; `added` are the identifiers before it.
unfoldable pub addition_defects : Run → (added : List String) → TaskNode → Result (List String)
addition_defects run added source =
    let twice =
      if elem source.packet.task_id added
      then ("duplicate added task " <> source.packet.task_id) ∷ []
      else [] in
    if is_fresh_task run source
    then (bind (defect_of (reject_identifier_collision run source.packet.task_id)) λ collisions.
        bind (defect_of (validate_capability_checks source source.capability))
          λ unchecked. ok (twice ++ collisions ++ unchecked))
    else ok
        (twice ++ ("added task " <> source.packet.task_id <> " must be a fresh unique task") ∷ [])

unfoldable pub additions_defects :
    Run → (added : List String) → List TaskNode → Result (List String)
additions_defects run added [] = ok []
additions_defects run added (source ∷ rest) = bind (addition_defects run added source) λ first.
    bind (additions_defects run (add_key source.packet.task_id added) rest)
      λ others. ok (first ++ others)

-- The tasks with one of them changed, which must be there.
abbrev pub change_task : String → (TaskNode → TaskNode) → Dict TaskNode → Result (Dict TaskNode)
change_task key f tasks =
    bind (or_raise (lookup key tasks) (Error.key_error key)) λ t. ok (insert key (f t) tasks)

-- `for key in proposal.remove: projection.tasks[key].status = TaskStatus.CANCELLED`
unfoldable pub cancel_tasks : List String → Dict TaskNode → Result (Dict TaskNode)
cancel_tasks [] tasks = ok tasks
cancel_tasks (key ∷ rest) tasks =
    bind (change_task key (λ t. record t { status = TaskStatus.cancelled }) tasks)
      λ tasks'. cancel_tasks rest tasks'

-- `for key, dependencies in proposal.dependencies.items()`
unfoldable pub rewire_tasks : Dict (List String) → Dict TaskNode → Result (Dict TaskNode)
rewire_tasks [] tasks = ok tasks
rewire_tasks ((key, dependencies) ∷ rest) tasks =
    bind
      (change_task key (λ t. record t { packet = record t.packet { dependencies = dependencies } })
        tasks)
      λ tasks'. rewire_tasks rest tasks'

-- `for source in proposal.add`
unfoldable pub adopt_tasks : List TaskNode → Dict TaskNode → Dict TaskNode
adopt_tasks [] tasks = tasks
adopt_tasks (source ∷ rest) tasks = adopt_tasks rest (insert source.packet.task_id source tasks)

-- The tasks that the kernel would run under the proposal.
unfoldable pub projected : ReplanProposal → Dict TaskNode → Result (Dict TaskNode)
projected proposal tasks = bind (cancel_tasks proposal.remove tasks) λ cancelled.
    bind (rewire_tasks proposal.dependencies cancelled)
      λ rewired. ok (adopt_tasks proposal.add rewired)

abbrev pub graph_defects : Result (List String) → Result (List String)
graph_defects (ok _) = ok []
graph_defects (err (Error.gate_error reason)) = ok (("resulting plan is invalid: " <> reason) ∷ [])
graph_defects (err e) = err e

abbrev pub budget_exhausted : WorkPlan → String
budget_exhausted plan =
    "replan budget exhausted ("
    <> decimal plan.revision
    <> "/"
    <> decimal plan.max_replans
    <> "); the kernel cannot apply any further proposal to this plan"

-- The defects that are found without the graph.
unfoldable pub structural_defects : Run → ReplanProposal → Result (List String)
structural_defects run proposal = bind (additions_defects run [] proposal.add) λ additions. ok (
    unknown_references run "reopen" proposal.reopen
    ++ unknown_references run "remove" proposal.remove
    ++ unknown_references run "dependencies" (keys proposal.dependencies)
    ++ contradictions proposal
    ++ additions
    ++ (if leb run.plan.max_replans run.plan.revision then budget_exhausted run.plan ∷ [] else []))

-- `_replan_defects`
unfoldable pub replan_defects : Run → ReplanProposal → Result (List String)
replan_defects run proposal = bind (structural_defects run proposal) λ defects.
    if not (is_empty defects)
    then ok defects
    else bind (projected proposal run.tasks)
        λ tasks. graph_defects (graph (record run { tasks = tasks }))

-- `_replan_defects` is empty.
unfoldable pub is_workable : ReplanProposal → Run → Result (Unit {0})
is_workable proposal run = bind (replan_defects run proposal) λ defects.
    refuse (not (is_empty defects))
      (Error.gate_error ("Invalid replan proposal: " <> join "; " defects))

-- `{a for key in affected for a in run.tasks[key].artifact_ids}`
unfoldable pub artifacts_of : Dict TaskNode → List String → List String
artifacts_of tasks [] = []
artifacts_of tasks (key ∷ rest) =
    elim (lookup key tasks) [ none ↦ [] | some t ↦ t.artifact_ids ] ++ artifacts_of tasks rest

-- `consumed & (affected | artifact_ids)`
abbrev pub consumes : (affected artifact_ids : List String) → TaskNode → Bool
consumes affected artifact_ids task =
    any (λ dep. elem dep affected || elem dep artifact_ids) (references task)

-- One round of the `while` loop over the tasks: `affected` grows as it goes.
unfoldable pub spread : (artifact_ids : List String) → Dict TaskNode → List String → List String
spread artifact_ids [] affected = affected
spread artifact_ids ((key, task) ∷ rest) affected = spread artifact_ids rest (
    if not (elem key affected) && consumes affected artifact_ids task
    then key ∷ affected
    else affected)

-- `while changed`: a round that adds nothing is the last.
unfoldable pub spread_all : ℕ → Dict TaskNode → List String → Result (List String)
spread_all zero tasks affected = err Error.out_of_fuel
spread_all (suc fuel) tasks affected =
    let affected' = spread (artifacts_of tasks affected) tasks affected in
    if length affected' =ℕ= length affected then ok affected else spread_all fuel tasks affected'

-- Every round but the last adds a task.
abbrev pub spread_fuel : Run → ℕ
spread_fuel run = suc (length run.tasks)

-- `set(proposal.reopen + proposal.remove + list(proposal.dependencies)) & set(run.tasks)`
abbrev pub named_tasks : Run → ReplanProposal → List String
named_tasks run proposal =
    select (λ key. contains key run.tasks)
      (distinct (proposal.reopen ++ proposal.remove ++ keys proposal.dependencies))

-- `_replan_affected`
unfoldable pub replan_affected : Run → ReplanProposal → Result (List String)
replan_affected run proposal = spread_all (spread_fuel run) run.tasks (named_tasks run proposal)

abbrev pub is_accepted_slot : Run → String → Bool
is_accepted_slot run key = elim (lookup key run.tasks) [
  | none ↦ false
  | some t ↦ is_accepted t.status
]

abbrev pub reason_if : Bool → String → List String
reason_if true reason = reason ∷ []
reason_if false reason = []

-- `_replan_materiality`
unfoldable pub replan_materiality : Run → ReplanProposal → Result (List String)
replan_materiality run proposal = bind (replan_affected run proposal) λ affected.
    let discarded = sorted (select (is_accepted_slot run) affected) in
    ok (
      reason_if (not (is_empty proposal.add))
        ("adds " <> decimal (length proposal.add) <> " task(s)")
      ++ reason_if (not (is_empty proposal.remove))
          ("removes " <> decimal (length proposal.remove) <> " task(s)")
      ++ reason_if (not (is_empty proposal.dependencies)) "rewires task dependencies"
      ++ reason_if
          (is_empty proposal.reopen
            && is_empty proposal.add
            && is_empty proposal.remove
            && is_empty proposal.dependencies)
          "changes nothing"
      ++ reason_if (not (is_empty discarded))
          ("would supersede accepted work: " <> join ", " discarded))

unfoldable pub propose_replan : ReplanProposal → Op ReplanProposal
propose_replan proposal = do
  stale ← gets (λ run.
      not (proposal.base_revision =ℕ= run.plan.revision) || contains proposal.id run.replans)
  raise_if stale (Error.gate_error "Stale or duplicate replan")
  reads (is_workable proposal)
  modify (λ run. record run { replans = insert proposal.id proposal run.replans })
  emit "plan.replan_proposed" (EventData.proposed proposal)
  pure proposal
