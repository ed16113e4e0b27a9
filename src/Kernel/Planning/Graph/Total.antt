-- ===== src/Kernel/Planning/Graph/Total.antt =====
-- That the walk of `_graph` ends, and how it can fail.
use walter.Prelude.{
  ℕ, zero, suc, ◌+◌, ◌≤◌, String, true, ◌≡◌, refl, Option, none, some, List, [], ◌∷◌, All, elem,
  arith, ◌⊎◌, inl, inr, Bool-cases, Option-cases,
}
use walter.Prelude.Dict.{Dict, lookup}
use walter.Prelude.Visiting.{unseen, unseen-length, unseen_drop, IsSlot, own_slots}
use walter.Models.{Run, TaskNode}
use walter.Kernel.Monad.{Error, Result, ok, err, Result-cases}
use walter.Kernel.Lineage.{references}
use walter.Kernel.Lineage.Termination.{is_gated, bind-is_gated, gated}
use walter.Kernel.Planning.Graph.{
  is_retired, successor, visit_one, visit_all, visit, graph_fuel, visit_tasks, graph,
}

successor-is_gated :
    (run : Run) (task : TaskNode) (dep : String) → is_gated (successor run task dep) ≡ true
unfolding successor
successor-is_gated run task dep = ground arith

successor-IsSlot :
    (run : Run) (task : TaskNode) (dep key : String)
    → successor run task dep ≡ ok (some key)
    → IsSlot run.tasks key
unfolding successor
successor-IsSlot run task dep key e = elim (Option-cases (lookup dep run.tasks)) [
  | inr (t, e1) ↦ (t, ground arith)
  | inl e1 ↦ elim (Option-cases (lookup dep run.artifacts)) [
    | inl e2 ↦ absurd (ground arith)
    | inr (a, e2) ↦ elim (Option-cases (lookup a.task_id run.tasks)) [
      | inl e3 ↦ absurd (ground arith)
      | inr (t, e3) ↦ (t, ground arith)
    ]
  ]
]

module _ (visit : String → List String → Result (List String)) (run : Run) (task : TaskNode)
    (h : (key : String) (visited : List String)
      → IsSlot run.tasks key
      → is_gated (visit key visited) ≡ true) where
  visit_one-is_gated :
      (next : Option String) (dep : String) (visited : List String)
      → successor run task dep ≡ ok next
      → is_gated (visit_one visit run task next visited) ≡ true
  visit_one-is_gated none dep visited e = refl
  visit_one-is_gated (some key) dep visited e = h key visited (successor-IsSlot run task dep key e)

  visit_all-is_gated :
      (deps visited : List String) → is_gated (visit_all visit run task deps visited) ≡ true
  unfolding visit_all
  visit_all-is_gated [] visited = refl
  visit_all-is_gated (dep ∷ rest) visited = elim (Result-cases (successor run task dep)) [
    | inl (next, e) ↦ rw e (
        bind-is_gated (visit_one visit run task next visited) _
          (visit_one-is_gated next dep visited e) (λ visited'. visit_all-is_gated rest visited'))
    | inr (x, e) ↦ ground (arith, successor-is_gated run task dep)
  ]

-- With more fuel than there are tasks that are not being visited, the walk returns or is gated.
visit-is_gated :
    (fuel : ℕ) (run : Run) (visiting : List String) (key : String) (visited : List String)
    → unseen visiting run.tasks + 1 ≤ fuel
    → IsSlot run.tasks key
    → is_gated (visit fuel run visiting key visited) ≡ true
unfolding visit
visit-is_gated zero run visiting key visited h s = absurd (omega (arith, h))
visit-is_gated (suc fuel) run visiting key visited h (task, found) =
    elim (Bool-cases (elem key visiting)) [
      | inl seen ↦ rw seen refl
      | inr fresh ↦ rw fresh (elim (Bool-cases (elem key visited)) [
        | inl before ↦ rw before refl
        | inr first ↦
            let drop = unseen_drop key visiting run.tasks task found fresh in
            rw (first, found)
              (bind-is_gated
                (visit_all (visit fuel run (key ∷ visiting)) run task (references task) visited) _
                (visit_all-is_gated (visit fuel run (key ∷ visiting)) run task
                  (λ other done slot.
                    visit-is_gated fuel run (key ∷ visiting) other done (omega (arith, drop, h))
                      slot)
                  (references task) visited)
                (λ _. refl))
      ])
    ]

visit_tasks-is_gated :
    (run : Run) (slots : Dict TaskNode) (visited : List String)
    → All (λ (slot : String × TaskNode). IsSlot run.tasks slot.0) slots
    → is_gated (visit_tasks run slots visited) ≡ true
unfolding visit_tasks
visit_tasks-is_gated run [] visited h = refl
visit_tasks-is_gated run ((key, task) ∷ rest) visited h =
    elim (Bool-cases (is_retired task.status)) [
      | inl retired ↦ rw retired (visit_tasks-is_gated run rest visited h.1)
      | inr live ↦ rw live (
          bind-is_gated (visit (graph_fuel run) run [] key visited) _
            (visit-is_gated (graph_fuel run) run [] key visited
              (omega (arith, unseen-length [] run.tasks)) h.0)
            (λ visited'. visit_tasks-is_gated run rest visited' h.1))
    ]

-- `_graph` returns or raises a `GateError`: the fuel is never used up and no task is missing,
-- however the tasks and the artifacts of the run refer to one another.
pub graph_total :
    (run : Run)
    → ((visited : List String) × (graph run ≡ ok visited))
      ⊎ ((reason : String) × (graph run ≡ err (Error.gate_error reason)))
unfolding graph
graph_total run = gated (graph run) (visit_tasks-is_gated run run.tasks [] (own_slots run.tasks))
