-- ===== src/Kernel/Monad.antt =====
-- The body of a kernel mutation (`operation(run, events)` in walter/orchestration.py): it changes
-- the loaded run and the list of events in place, and may raise. A raise drops both.
use walter.Prelude.{
  ◌⊎◌, inl, inr, ◌≡◌, refl, String, Bool, true, false, Option, none, some, List, [], ◌∷◌, ◌++◌,
}
use walter.Prelude.Dict.{lookup, insert}
use walter.Models.{Run, TaskNode, Artifact, Event, EventData}

-- `gate_error` and `value_error` carry the message; `validation_error` is a model constraint that
-- refuses a field; `out_of_fuel` is no exception of the program.
pub data Error : Type 0 where
  gate_error value_error key_error : String → Error
  validation_error index_error attribute_error concurrent_update : Error
  snapshot_incompatible integrity_error out_of_fuel : Error

pub data Result (A : Type 0) : Type 0 where
  ok : A → Result A
  err : Error → Result A

pub record Ctx : Type 0 where
  pub run : Run
  pub events : List Event

abbrev pub Op : Type 0 → Type 0
Op A = Ctx → Result (A × Ctx)

module _ {A : Type 0} where
  abbrev pub pure : A → Op A
  pure a c = ok (a, c)

  abbrev pub raise : Error → Op A
  raise e c = err e

  -- A value computed from the run as it stands.
  abbrev pub gets : (Run → A) → Op A
  gets f c = ok (f c.run, c)

  abbrev attach : Ctx → Result A → Result (A × Ctx)
  attach c (ok a) = ok (a, c)
  attach c (err e) = err e

  -- A computation over the run that may raise and changes nothing.
  abbrev pub reads : (Run → Result A) → Op A
  reads f c = attach c (f c.run)

  abbrev pub or_raise : Option A → Error → Result A
  or_raise none e = err e
  or_raise (some a) e = ok a

module _ {A B : Type 0} where
  -- Sequencing of computations that change nothing.
  abbrev pub bind : Result A → (A → Result B) → Result B
  bind (ok a) f = f a
  bind (err e) f = err e

  abbrev pub and_then : Result (A × Ctx) → (A → Op B) → Result (B × Ctx)
  and_then (ok (a, c)) f = f a c
  and_then (err e) f = err e

  infixl 5 ◌>>=◌ ◌>>◌
  abbrev pub ◌>>=◌ : Op A → (A → Op B) → Op B
  ◌>>=◌ m f c = and_then (m c) f

  abbrev pub ◌>>◌ : Op A → Op B → Op B
  m >> k = m >>= λ _. k

abbrev pub refuse : Bool → Error → Result (Unit {0})
refuse true e = err e
refuse false e = ok tt

-- To split on an outcome and keep the equation.
pub Result-cases :
    {A : Type 0} (r : Result A) → ((a : A) × (r ≡ ok a)) ⊎ ((e : Error) × (r ≡ err e))
Result-cases (ok a) = inl (a, refl)
Result-cases (err e) = inr (e, refl)

-- `if test: raise error`
abbrev pub raise_if : Bool → Error → Op (Unit {0})
raise_if test e = reads (λ _. refuse test e)

abbrev pub modify : (Run → Run) → Op (Unit {0})
modify f c = ok (tt, record c { run = f c.run })

-- `run.tasks[key]`
abbrev pub task_at : String → Run → Result TaskNode
task_at key run = or_raise (lookup key run.tasks) (key_error key)

-- `run.artifacts[key]`
abbrev pub artifact_at : String → Run → Result Artifact
artifact_at key run = or_raise (lookup key run.artifacts) (key_error key)

-- The run with the task object in slot `key` changed to `task`.
abbrev pub with_task : String → TaskNode → Run → Run
with_task key task run = record run { tasks = insert key task run.tasks }

abbrev pub with_artifact : String → Artifact → Run → Run
with_artifact key artifact run = record run { artifacts = insert key artifact run.artifacts }

abbrev pub put_task : String → TaskNode → Op (Unit {0})
put_task key task = modify (with_task key task)

abbrev pub put_artifact : String → Artifact → Op (Unit {0})
put_artifact key artifact = modify (with_artifact key artifact)

-- `_event`: the store numbers the events when it saves them.
unfoldable pub emit : String → EventData → Op (Unit {0})
emit kind detail c =
    let event : Event = record { run_id = c.run.id; sequence = 0; kind = kind; detail = detail } in
    ok (tt, record c { events = c.events ++ event ∷ [] })
