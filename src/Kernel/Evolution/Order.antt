-- ===== src/Kernel/Evolution/Order.antt =====
-- A small logic for mutations that keep every task within its budgets and its work in flight held,
-- also where they change what an existing task is.
use walter.Prelude.{
  String, Bool, true, false, ◌≡◌, refl, ap, sym, subst, ◌∙◌, Option, none, some, ◌==◌, arith, inl,
  inr, Bool-cases, Option-cases, if◌then◌else◌,
}
use walter.Prelude.Dict.{Dict, lookup, insert, lookup-insert}
use walter.Models.{Run, TaskNode, TaskStatus, EventData}
use walter.Kernel.Monad.{
  Error, Ctx, Op, Result, ok, refuse, pure, gets, reads, raise_if, modify, put_task, task_at, emit,
  ◌>>=◌, Result-cases,
}
use walter.Kernel.Transitions.{transitions, transition}
use walter.Kernel.Readiness.{refresh}
use walter.Kernel.Evolution.{IsWithin, IsHeld, IsHeld-along, is_delegated, MoveTable, Evolves}
use walter.Kernel.Evolution.Slots.{EvolvesAt, TasksEvolve}
use walter.Kernel.Evolution.Moves.{refresh_moves}
use walter.Kernel.Evolution.Refreshing.{refresh-evolves}

-- The task is within its budgets, and its work in flight has a worker.
abbrev pub IsFine : TaskNode → Type 0
IsFine t = IsWithin t × IsHeld t

abbrev pub IsOrderly : Dict TaskNode → Type 0
IsOrderly tasks = (key : String) (t : TaskNode) → lookup key tasks ≡ some t → IsFine t

evolved_from :
    {moves : MoveTable} (slot : Option TaskNode) (t' : TaskNode)
    → EvolvesAt moves slot (some t')
    → (t : TaskNode) × (slot ≡ some t) × Evolves moves t t'
evolved_from none t' ev = absurd ev
evolved_from (some t) t' ev = (t, refl, ev)

pub IsOrderly-evolved :
    (moves : MoveTable) (d d' : Dict TaskNode) → TasksEvolve moves d d' → IsOrderly d → IsOrderly d'
IsOrderly-evolved moves d d' ev h key t' found =
    let (t, before, one) =
      evolved_from (lookup key d) t' (subst (EvolvesAt moves (lookup key d)) found (ev key)) in
    let good = h key t before in (one.within good.0, one.held good.1)

pub IsOrderly-insert :
    (d : Dict TaskNode) (key : String) (t : TaskNode)
    → IsFine t
    → IsOrderly d
    → IsOrderly (insert key t d)
IsOrderly-insert d key t fine h k u found = elim (Bool-cases (key == k)) [
  | inl same ↦ subst IsFine (here same (lookup-insert key k t d)) fine
  | inr other ↦ h k u (there other (lookup-insert key k t d))
]
  where
    here :
        (key == k) ≡ true
        → lookup k (insert key t d) ≡ (if key == k then some t else lookup k d)
        → t ≡ u
    here same look = cc (same, found, look)

    there :
        (key == k) ≡ false
        → lookup k (insert key t d) ≡ (if key == k then some t else lookup k d)
        → lookup k d ≡ some u
    there other look = cc (other, found, look)

-- The operation keeps the tasks orderly, whatever it returns.
pub record Keeps {A : Type 0} (m : Op A) : Type 0 where
  pub keeps :
      (c c' : Ctx) (a : A) → m c ≡ ok (a, c') → IsOrderly c.run.tasks → IsOrderly c'.run.tasks

module _ {A B : Type 0} {m : Op A} {f : A → Op B} where
  pub then-Keeps : Keeps m → ((a : A) → Keeps (f a)) → Keeps (m >>= f)
  then-Keeps p q = record {
    keeps = λ c c' b e h. elim (Result-cases (m c)) [
      | inl ((a, d), e1) ↦ (q a).keeps d c' b (ground arith) (p.keeps c d a e1 h)
      | inr (x, e1) ↦ absurd (ground arith)
    ];
  }

module _ {A : Type 0} where
  pub same-Keeps :
      {m : Op A} → ((c c' : Ctx) (a : A) → m c ≡ ok (a, c') → c'.run.tasks ≡ c.run.tasks) → Keeps m
  same-Keeps p = record { keeps = λ c c' a e h. subst IsOrderly (sym (p c c' a e)) h }

  pub pure-Keeps : (a : A) → Keeps (pure a)
  pure-Keeps a = same-Keeps (λ c c' b e. ground arith)

  pub gets-Keeps : (f : Run → A) → Keeps (gets f)
  gets-Keeps f = same-Keeps (λ c c' b e. ground arith)

  pub reads-Keeps : (f : Run → Result A) → Keeps (reads f)
  reads-Keeps f = same-Keeps (λ c c' b e. elim (Result-cases (f c.run)) [
    | inl (a, e1) ↦ ground arith
    | inr (x, e1) ↦ absurd (ground arith)
  ])

  -- A task that is read is fine.
  pub task-Keeps :
      (key : String) {f : TaskNode → Op A}
      → ((t : TaskNode) → IsFine t → Keeps (f t))
      → Keeps (reads (task_at key) >>= f)
  task-Keeps key {f} q = record {
    keeps = λ c c' a e h. elim (Option-cases (lookup key c.run.tasks)) [
      | inl e1 ↦ absurd (ground arith)
      | inr (t, e1) ↦ (q t (h key t e1)).keeps c c' a (ground arith) h
    ];
  }

pub raise_if-Keeps : (test : Bool) (e : Error) → Keeps (raise_if test e)
raise_if-Keeps test e = reads-Keeps (λ _. refuse test e)

pub emit-Keeps : (kind : String) (detail : EventData) → Keeps (emit kind detail)
unfolding emit
emit-Keeps kind detail = same-Keeps (λ c c' a e. ground arith)

-- A change of the run beside its tasks.
pub modify-Keeps : (f : Run → Run) → ((run : Run) → (f run).tasks ≡ run.tasks) → Keeps (modify f)
modify-Keeps f p = record {
  keeps = λ c c' a e h.
      subst IsOrderly (sym (p c.run) ∙ ap (λ (d : Ctx). d.run.tasks) (after c c' a e)) h;
}
  where
    after : (c c' : Ctx) (a : Unit {0}) → modify f c ≡ ok (a, c') → record c { run = f c.run } ≡ c'
    after c c' a e = ground arith

pub put_task-Keeps : (key : String) (t : TaskNode) → IsFine t → Keeps (put_task key t)
put_task-Keeps key t fine = record {
  keeps =
      λ c c' a e h. subst IsOrderly (written c c' a e) (IsOrderly-insert c.run.tasks key t fine h);
}
  where
    written :
        (c c' : Ctx) (a : Unit {0})
        → put_task key t c ≡ ok (a, c')
        → insert key t c.run.tasks ≡ c'.run.tasks
    written c c' a e = ground arith

pub refresh-Keeps : Keeps refresh
refresh-Keeps = record {
  keeps = λ c c' a e h.
      IsOrderly-evolved refresh_moves c.run.tasks c'.run.tasks (refresh-evolves c c' e) h;
}

-- The task with another status that no worker has to hold.
pub IsFine-landed :
    (t : TaskNode) (status : TaskStatus)
    → transitions t.status status ≡ true
    → is_delegated status ≡ false
    → IsFine t
    → IsFine (record t { status = status })
IsFine-landed t status legal other fine =
    (fine.0, IsHeld-along t (record t { status = status }) legal other refl fine.1)

-- A transition that went through.
transition-eq :
    (key : String) (t : TaskNode) (status : TaskStatus) (reason : String) (c d : Ctx)
    (moved : TaskNode)
    → transition key t status reason c ≡ ok (moved, d)
    → (transitions t.status status ≡ true)
      × (record t { status = status } ≡ moved)
      × (insert key (record t { status = status }) c.run.tasks ≡ d.run.tasks)
unfolding transition emit
transition-eq key t status reason c d moved e = (ground arith, ground arith, ground arith)

pub transition-Keeps :
    {A : Type 0} (key : String) (t : TaskNode) (status : TaskStatus) (reason : String)
    {f : TaskNode → Op A}
    → is_delegated status ≡ false
    → IsFine t
    → ((moved : TaskNode) → IsFine moved → Keeps (f moved))
    → Keeps (transition key t status reason >>= f)
transition-Keeps key t status reason {f} other fine q = record {
  keeps = λ c c' a e h. elim (Result-cases (transition key t status reason c)) [
    | inr (x, e1) ↦ absurd (ground arith)
    | inl ((moved, d), e1) ↦
        let (legal, is_moved, written) = transition-eq key t status reason c d moved e1 in
        let good = IsFine-landed t status legal other fine in
        (q moved (subst IsFine is_moved good)).keeps d c' a (ground arith) (
          subst IsOrderly written
            (IsOrderly-insert c.run.tasks key (record t { status = status }) good h))
  ];
}

pub if-Keeps :
    {A : Type 0} (test : Bool) {m k : Op A} → Keeps m → Keeps k → Keeps (if test then m else k)
if-Keeps true p q = p
if-Keeps false p q = q

pub transition_if-Keeps :
    {A : Type 0} (test : Bool) (key : String) (t : TaskNode) (status : TaskStatus) (reason : String)
    {f : TaskNode → Op A}
    → is_delegated status ≡ false
    → IsFine t
    → ((moved : TaskNode) → IsFine moved → Keeps (f moved))
    → Keeps ((if test then transition key t status reason else pure t) >>= f)
transition_if-Keeps true key t status reason other fine q =
    transition-Keeps key t status reason other fine q
transition_if-Keeps false key t status reason other fine q = q t fine

-- The rules for a `do` block; a deeper `search` applies them step by step.
pub ruleset keeping = (
  then-Keeps, pure-Keeps, gets-Keeps, reads-Keeps, raise_if-Keeps, emit-Keeps, put_task-Keeps,
  refresh-Keeps, if-Keeps, transition-Keeps, transition_if-Keeps,
)
