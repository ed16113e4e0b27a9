-- ===== src/Kernel/Replanning/Affected.antt =====
-- The loop of `_replan_affected` of walter/orchestration.py: it ends, with the least set of tasks
-- that holds the named ones and every consumer of its tasks and of their artifacts.
use walter.Prelude.{
  ℕ, zero, suc, String, Bool, true, false, not, ◌&&◌, ◌||◌, ◌≡◌, sym, ap, subst, ◌∙◌, Option, none,
  some, List, [], ◌∷◌, ◌++◌, ◌==◌, eq_iff, eq_refl, All, Within, any, any-append, elem, length,
  ◌=ℕ=◌, arith, inl, inr, Bool-cases, Option-cases,
}
use walter.Prelude.Dict.{Dict, lookup}
use walter.Prelude.Visiting.{unseen-length}
use walter.Models.{Run, TaskNode, ReplanProposal}
use walter.Kernel.Monad.{ok}
use walter.Kernel.Lineage.{references}
use walter.Kernel.Replanning.{
  artifacts_of, consumes, spread, spread_all, spread_fuel, named_tasks, replan_affected,
}
use walter.Kernel.Replanning.Spreading.{IsClosed, spread_all-IsClosed}

any_mono :
    {A : Type 0} (f g : A → Bool) (xs : List A)
    → ((a : A) → f a ≡ true → g a ≡ true)
    → any f xs ≡ true
    → any g xs ≡ true
any_mono f g [] h e = e
any_mono f g (x ∷ xs) h e = elim (Bool-cases (f x)) [
  | inl yes_here ↦ ground (arith, h x yes_here)
  | inr not_here ↦ ground (arith, any_mono f g xs h (ground arith))
]

or_left : {a b : Bool} → (a || b) ≡ true → a ≡ false → b ≡ true
or_left p q = ground arith

or_mono :
    {a b c d : Bool}
    → (a ≡ true → c ≡ true)
    → (b ≡ true → d ≡ true)
    → (a || b) ≡ true
    → (c || d) ≡ true
or_mono {a} p q h = elim (Bool-cases a) [
  | inl yes_a ↦ ground (arith, p yes_a)
  | inr not_a ↦ ground (arith, q (or_left h not_a))
]

-- More tasks consume more.
consumes_mono :
    (xs ys ids jds : List String) (t : TaskNode)
    → Within xs ys
    → Within ids jds
    → consumes xs ids t ≡ true
    → consumes ys jds t ≡ true
consumes_mono xs ys ids jds t p q = any_mono _ _ (references t) (λ dep. or_mono (p dep) (q dep))

or_right : (a : Bool) {b : Bool} → b ≡ true → (a || b) ≡ true
or_right a p = ground arith

or_first : {a : Bool} (b : Bool) → a ≡ true → (a || b) ≡ true
or_first b p = ground arith

abbrev slot_artifacts : Option TaskNode → List String
slot_artifacts slot = elim slot [ none ↦ [] | some t ↦ t.artifact_ids ]

artifacts_of-one :
    (tasks : Dict TaskNode) (ys : List String) (key : String) (t : TaskNode) (s : String)
    → lookup key tasks ≡ some t
    → elem key ys ≡ true
    → elem s t.artifact_ids ≡ true
    → elem s (artifacts_of tasks ys) ≡ true
unfolding artifacts_of
artifacts_of-one tasks [] key t s found listed made = absurd (ground arith)
artifacts_of-one tasks (y ∷ ys) key t s found listed made =
    any-append (λ x. x == s) (slot_artifacts (lookup y tasks)) (artifacts_of tasks ys)
    ∙ elim (Bool-cases (y == key)) [
      | inl here ↦ or_first _ (
          subst (λ slot. elem s (slot_artifacts slot) ≡ true)
            (sym found ∙ ap (λ k. lookup k tasks) (sym ((eq_iff y key).0 here))) made)
      | inr other ↦
          or_right (elem s (slot_artifacts (lookup y tasks)))
            (artifacts_of-one tasks ys key t s found (or_left listed other) made)
    ]

artifacts_of_mono :
    (tasks : Dict TaskNode) (xs ys : List String)
    → Within xs ys
    → Within (artifacts_of tasks xs) (artifacts_of tasks ys)
unfolding artifacts_of
artifacts_of_mono tasks [] ys w s h = absurd (ground arith)
artifacts_of_mono tasks (x ∷ xs) ys w s h =
    elim (Bool-cases (elem s (slot_artifacts (lookup x tasks)))) [
      | inr not_here ↦
          artifacts_of_mono tasks xs ys (λ k m. w k (or_right (x == k) m)) s
            (or_left (sym split ∙ h) not_here)
      | inl made ↦ elim (Option-cases (lookup x tasks)) [
        | inl e1 ↦ absurd (ground arith)
        | inr (t, e1) ↦
            artifacts_of-one tasks ys x t s e1 (w x (or_first _ (eq_refl x)))
              (subst (λ slot. elem s (slot_artifacts slot) ≡ true) e1 made)
      ]
    ]
  where
    split :
        elem s (slot_artifacts (lookup x tasks) ++ artifacts_of tasks xs)
        ≡ (elem s (slot_artifacts (lookup x tasks)) || elem s (artifacts_of tasks xs))
    split = any-append (λ y. y == s) (slot_artifacts (lookup x tasks)) (artifacts_of tasks xs)

-- A round stays in every closed set that holds what it starts from.
spread-least :
    (tasks slots : Dict TaskNode) (start affected closed : List String)
    → All
        (λ (slot : String × TaskNode).
          consumes closed (artifacts_of tasks closed) slot.1 ≡ true → elem slot.0 closed ≡ true)
        slots
    → Within start closed
    → Within affected closed
    → Within (spread (artifacts_of tasks start) slots affected) closed
unfolding spread
spread-least tasks [] start affected closed h p q s listed = q s listed
spread-least tasks ((key, t) ∷ rest) start affected closed h p q s listed =
    elim (Bool-cases (not (elem key affected) && consumes affected (artifacts_of tasks start) t)) [
      | inr e ↦ spread-least tasks rest start affected closed h.1 p q s (without e)
      | inl e ↦
          spread-least tasks rest start (key ∷ affected) closed h.1 p
            (added (
              h.0 (
                consumes_mono affected closed (artifacts_of tasks start) (artifacts_of tasks closed)
                  t q (artifacts_of_mono tasks start closed p) (uses e))))
            s (with_it e)
    ]
  where
    without :
        (not (elem key affected) && consumes affected (artifacts_of tasks start) t) ≡ false
        → elem s (spread (artifacts_of tasks start) rest affected) ≡ true
    without e = ground arith

    with_it :
        (not (elem key affected) && consumes affected (artifacts_of tasks start) t) ≡ true
        → elem s (spread (artifacts_of tasks start) rest (key ∷ affected)) ≡ true
    with_it e = ground arith

    uses :
        (not (elem key affected) && consumes affected (artifacts_of tasks start) t) ≡ true
        → consumes affected (artifacts_of tasks start) t ≡ true
    uses e = ground arith

    added : elem key closed ≡ true → Within (key ∷ affected) closed
    added here k m = elim (Bool-cases (key == k)) [
      | inl same ↦ subst (λ x. elem x closed ≡ true) ((eq_iff key k).0 same) here
      | inr other ↦ q k (or_left m other)
    ]

spread_all-least :
    (fuel : ℕ) (tasks : Dict TaskNode) (affected found closed : List String)
    → spread_all fuel tasks affected ≡ ok found
    → IsClosed tasks closed
    → Within affected closed
    → Within found closed
unfolding spread_all
spread_all-least zero tasks affected found closed e h p = absurd (ground arith)
spread_all-least (suc fuel) tasks affected found closed e h p =
    let next = spread (artifacts_of tasks affected) tasks affected in
    elim (Bool-cases (length next =ℕ= length affected)) [
      | inl e1 ↦ subst (λ xs. Within xs closed) (last e1) p
      | inr e1 ↦
          spread_all-least fuel tasks next found closed (onward e1) h
            (spread-least tasks tasks affected affected closed h p p)
    ]
  where
    last :
        (length (spread (artifacts_of tasks affected) tasks affected) =ℕ= length affected) ≡ true
        → affected ≡ found
    last e1 = ground arith

    onward :
        (length (spread (artifacts_of tasks affected) tasks affected) =ℕ= length affected) ≡ false
        → spread_all fuel tasks (spread (artifacts_of tasks affected) tasks affected) ≡ ok found
    onward e1 = ground arith

-- The loop that looks for the affected tasks ends, and finds the least closed set with the named
-- tasks: they are in it, so is every task that consumes one of its tasks or an artifact of one, and
-- every other such set contains it.
pub replan_affected-least :
    (run : Run) (proposal : ReplanProposal)
    → (affected : List String) × (replan_affected run proposal ≡ ok affected)
      × Within (named_tasks run proposal) affected
      × IsClosed run.tasks affected
      × ((closed : List String)
          → IsClosed run.tasks closed
          → Within (named_tasks run proposal) closed
          → Within affected closed)
unfolding replan_affected
replan_affected-least run proposal =
    let few = unseen-length (named_tasks run proposal) run.tasks in
    let (found, done, within, closed) =
      spread_all-IsClosed (spread_fuel run) run.tasks (named_tasks run proposal)
        (omega (arith, few)) in
    (
      found,
      done,
      within,
      closed,
      λ other h p.
          spread_all-least (spread_fuel run) run.tasks (named_tasks run proposal) found other done h
            p,
    )
