-- ===== src/Kernel/Evolution/Binding.antt =====
-- `register_input`, `bind_workspace`, `replace_workspace` and `record_integration` of
-- walter/orchestration.py, and `set_completion_criteria`: how they let the tasks evolve.
use walter.Prelude.{String, List, ◌≡◌, arith, some, Option-cases, inl, inr}
use walter.Prelude.Dict.{lookup}
use walter.Kernel.Monad.{Ctx, ok, emit, Result-cases}
use walter.Kernel.Workspace.{
  add_input_reference, grant_workspace, register_input, bind_workspace, replace_workspace,
  integrate,
}
use walter.Kernel.Planning.{set_completion_criteria}
use walter.Kernel.Evolution.{Evolves-noted}
use walter.Kernel.Evolution.Slots.{
  TasksEvolve, TasksEvolve-trans, TasksEvolve-same, TasksEvolve-once,
}
use walter.Kernel.Evolution.Moves.{no_moves, refresh_moves}
use walter.Kernel.Evolution.Refreshing.{refresh-evolves}

module _ (c c' : Ctx) where
  add_input_reference-evolves :
      (name reference : String)
      → add_input_reference name reference c ≡ ok (tt, c')
      → TasksEvolve refresh_moves c.run.tasks c'.run.tasks
  unfolding add_input_reference emit
  add_input_reference-evolves name reference h = TasksEvolve-same refresh_moves _ _ (ground arith)

  grant_workspace-evolves :
      (key workspace_id : String)
      → grant_workspace key workspace_id c ≡ ok (tt, c')
      → TasksEvolve refresh_moves c.run.tasks c'.run.tasks
  unfolding grant_workspace emit
  grant_workspace-evolves key workspace_id h = elim (Option-cases (lookup key c.run.tasks)) [
    | inl e ↦ absurd (ground arith)
    | inr (t, e) ↦
        TasksEvolve-once refresh_moves key t (record t { workspace_id = some workspace_id })
          c.run.tasks c'.run.tasks e (Evolves-noted t t.result t.blocker (some workspace_id))
          (ground arith)
  ]

module _ (c c' : Ctx) where
  pub register_input-evolves :
      (name reference : String)
      → register_input name reference c ≡ ok (tt, c')
      → TasksEvolve refresh_moves c.run.tasks c'.run.tasks
  unfolding register_input
  register_input-evolves name reference h =
      elim (Result-cases (add_input_reference name reference c)) [
        | inr (_, e) ↦ absurd (ground arith)
        | inl ((_, d), e) ↦
            TasksEvolve-trans refresh_moves c.run.tasks d.run.tasks c'.run.tasks
              (add_input_reference-evolves c d name reference e)
              (refresh-evolves d c' (ground arith))
      ]

  pub bind_workspace-evolves :
      (key workspace_id : String)
      → bind_workspace key workspace_id c ≡ ok (tt, c')
      → TasksEvolve refresh_moves c.run.tasks c'.run.tasks
  unfolding bind_workspace
  bind_workspace-evolves key workspace_id h =
      elim (Result-cases (grant_workspace key workspace_id c)) [
        | inr (_, e) ↦ absurd (ground arith)
        | inl ((_, d), e) ↦
            TasksEvolve-trans refresh_moves c.run.tasks d.run.tasks c'.run.tasks
              (grant_workspace-evolves c d key workspace_id e) (refresh-evolves d c' (ground arith))
      ]

  pub replace_workspace-evolves :
      (key expected new reason : String)
      → replace_workspace key expected new reason c ≡ ok (tt, c')
      → TasksEvolve no_moves c.run.tasks c'.run.tasks
  unfolding replace_workspace emit
  replace_workspace-evolves key expected new reason h =
      elim (Option-cases (lookup key c.run.tasks)) [
        | inl e ↦ absurd (ground arith)
        | inr (t, e) ↦
            TasksEvolve-once no_moves key t (record t { workspace_id = some new }) c.run.tasks
              c'.run.tasks e (Evolves-noted t t.result t.blocker (some new)) (ground arith)
      ]

  pub integrate-evolves :
      (id commit : String)
      → integrate id commit c ≡ ok (tt, c')
      → TasksEvolve no_moves c.run.tasks c'.run.tasks
  unfolding integrate emit
  integrate-evolves id commit h = TasksEvolve-same no_moves _ _ (ground arith)

  pub set_completion_criteria-evolves :
      (criteria : List String)
      → set_completion_criteria criteria c ≡ ok (tt, c')
      → TasksEvolve no_moves c.run.tasks c'.run.tasks
  unfolding set_completion_criteria emit
  set_completion_criteria-evolves criteria h = TasksEvolve-same no_moves _ _ (ground arith)
