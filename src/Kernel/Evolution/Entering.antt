-- ===== src/Kernel/Evolution/Entering.antt =====
-- `add_tasks` and `_replan_defects` of walter/orchestration.py: the tasks that they let in are
-- within their budgets and not in flight, if they arrive with revisions left.
use walter.Prelude.{
  ◌+◌, ◌≤◌, String, true, false, ◌≡◌, refl, ap, ◌∙◌, List, [], ◌∷◌, ◌++◌, ◌<>◌, leb, arith, All,
  inl, inr, Bool-cases, if◌then◌else◌, elem,
}
use walter.Prelude.Dict.{keys}
use walter.Models.{Run, TaskNode, TaskStatus, ReplanProposal, is_planned}
use walter.Kernel.Monad.{ok, reads, ◌>>◌, Result-cases}
use walter.Kernel.Planning.{
  is_fresh_task, enter_task, add_task, add_each, add_tasks, reject_identifier_collision,
  validate_capability_checks,
}
use walter.Kernel.Operator.{is_in_flight}
use walter.Kernel.Replanning.{
  unknown_references, contradictions, addition_defects, additions_defects, structural_defects,
  budget_exhausted, add_key,
}
use walter.Kernel.Evolution.Order.{IsFine, Keeps, keeping, then-Keeps, pure-Keeps, modify-Keeps}

-- A new task comes with revisions left, which `_is_fresh_task` does not check.
abbrev pub HasRevisionsLeft : TaskNode → Type 0
HasRevisionsLeft t = t.revisions ≤ t.max_revisions

planned_not_in_flight : (s : TaskStatus) → is_planned s ≡ true → is_in_flight s ≡ false
planned_not_in_flight s h = ground arith

pub fresh-IsFine :
    (run : Run) (t : TaskNode) → is_fresh_task run t ≡ true → HasRevisionsLeft t → IsFine t
fresh-IsFine run t e h =
    ((ground (arith, h), omega (arith, h)), ground (arith, planned_not_in_flight t.status))

enter_task-Keeps : (t : TaskNode) → IsFine t → Keeps (enter_task t)
unfolding enter_task
enter_task-Keeps t fine = search (keeping, modify-Keeps) depth 20

add_task-Keeps : (t : TaskNode) → HasRevisionsLeft t → Keeps (add_task t)
unfolding add_task
add_task-Keeps t h = record {
  keeps = λ c c' a e o. elim (Bool-cases (is_fresh_task c.run t)) [
    | inr stale ↦ absurd (ground arith)
    | inl fresh ↦ (checked (fresh-IsFine c.run t fresh h)).keeps c c' a (ground arith) o
  ];
}
  where
    checked :
        IsFine t
        → Keeps (
            reads (λ run. reject_identifier_collision run t.packet.task_id)
            >> (reads (λ _. validate_capability_checks t t.capability) >> enter_task t))
    checked fine = search (keeping, enter_task-Keeps) depth 20

add_each-Keeps : (tasks : List TaskNode) → All HasRevisionsLeft tasks → Keeps (add_each tasks)
unfolding add_each
add_each-Keeps [] h = pure-Keeps tt
add_each-Keeps (t ∷ rest) h = then-Keeps (add_task-Keeps t h.0) λ _. add_each-Keeps rest h.1

pub add_tasks-Keeps : (tasks : List TaskNode) → All HasRevisionsLeft tasks → Keeps (add_tasks tasks)
unfolding add_tasks
add_tasks-Keeps tasks h = search (keeping, add_each-Keeps) depth 40

none_left : {A : Type 0} (xs ys : List A) → xs ++ ys ≡ [] → (xs ≡ []) × (ys ≡ [])
none_left [] ys e = (refl, e)
none_left (x ∷ xs) ys e = absurd (ground arith)

last_two_left :
    {A : Type 0} (a b c d f g : List A) → a ++ b ++ c ++ d ++ f ++ g ≡ [] → (f ≡ []) × (g ≡ [])
last_two_left a b c d f g e =
    let all = none_left (a ++ b ++ c ++ d ++ f) g e in
    ((none_left (a ++ b ++ c ++ d) f all.0).1, all.1)

addition-fresh :
    (run : Run) (added : List String) (t : TaskNode)
    → addition_defects run added t ≡ ok []
    → is_fresh_task run t ≡ true
unfolding addition_defects
addition-fresh run added t e = elim (Bool-cases (is_fresh_task run t)) [
  | inl fresh ↦ fresh
  | inr stale ↦ absurd (cons_not_nil _ _ (none_left _ _ (defects_named stale)).1)
]
  where
    cons_not_nil : (x : String) (xs : List String) → x ∷ xs ≡ [] → ⊥
    cons_not_nil x xs p = ground arith

    defects_named :
        is_fresh_task run t ≡ false
        → (if elem t.packet.task_id added
              then ("duplicate added task " <> t.packet.task_id) ∷ []
              else [])
            ++ ("added task " <> t.packet.task_id <> " must be a fresh unique task") ∷ []
          ≡ []
    defects_named stale = ground arith

-- A proposal without defects adds fresh tasks only.
additions-fresh :
    (run : Run) (added : List String) (tasks : List TaskNode)
    → additions_defects run added tasks ≡ ok []
    → All (λ t. is_fresh_task run t ≡ true) tasks
unfolding additions_defects
additions-fresh run added [] e = tt
additions-fresh run added (t ∷ rest) e = elim (Result-cases (addition_defects run added t)) [
  | inr (x, e1) ↦ absurd (ground arith)
  | inl (first, e1) ↦
      elim (Result-cases (additions_defects run (add_key t.packet.task_id added) rest)) [
        | inr (x, e2) ↦ absurd (ground arith)
        | inl (others, e2) ↦
            let both = none_left first others (ground arith) in
            (
              addition-fresh run added t (e1 ∙ ap ok both.0),
              additions-fresh run (add_key t.packet.task_id added) rest (e2 ∙ ap ok both.1),
            )
      ]
]

budget_defects : Run → List String
budget_defects run =
    if leb run.plan.max_replans run.plan.revision then budget_exhausted run.plan ∷ [] else []

-- A proposal without defects adds without defects, and the plan has a revision left.
structural-parts :
    (run : Run) (proposal : ReplanProposal)
    → structural_defects run proposal ≡ ok []
    → (additions_defects run [] proposal.add ≡ ok []) × (budget_defects run ≡ [])
unfolding structural_defects budget_defects
structural-parts run proposal e = elim (Result-cases (additions_defects run [] proposal.add)) [
  | inr (x, e1) ↦ absurd (ground arith)
  | inl (additions, e1) ↦
      let (clean, left) =
        last_two_left (unknown_references run "reopen" proposal.reopen)
          (unknown_references run "remove" proposal.remove)
          (unknown_references run "dependencies" (keys proposal.dependencies))
          (contradictions proposal) additions (budget_defects run) (named additions e1) in
      (e1 ∙ ap ok clean, left)
]
  where
    named :
        (additions : List String)
        → additions_defects run [] proposal.add ≡ ok additions
        → unknown_references run "reopen" proposal.reopen
            ++ unknown_references run "remove" proposal.remove
            ++ unknown_references run "dependencies" (keys proposal.dependencies)
            ++ contradictions proposal
            ++ additions
            ++ budget_defects run
          ≡ []
    named additions e1 = ground arith

pub structural-fresh :
    (run : Run) (proposal : ReplanProposal)
    → structural_defects run proposal ≡ ok []
    → All (λ t. is_fresh_task run t ≡ true) proposal.add
structural-fresh run proposal e =
    additions-fresh run [] proposal.add (structural-parts run proposal e).0

budget-left : (run : Run) → budget_defects run ≡ [] → run.plan.revision + 1 ≤ run.plan.max_replans
unfolding budget_defects
budget-left run left = ground arith

pub structural-left :
    (run : Run) (proposal : ReplanProposal)
    → structural_defects run proposal ≡ ok []
    → run.plan.revision + 1 ≤ run.plan.max_replans
structural-left run proposal e = budget-left run (structural-parts run proposal e).1
