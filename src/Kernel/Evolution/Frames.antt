-- ===== src/Kernel/Evolution/Frames.antt =====
-- A small logic for mutations that leave a part of the run as it is, and what `_refresh` of
-- walter/orchestration.py leaves: all but the tasks.
use walter.Prelude.{
  String, Bool, true, false, ◌≡◌, refl, ap, sym, ◌∙◌, Option, none, some, List, [], ◌∷◌, arith, inl,
  inr, if◌then◌else◌,
}
use walter.Prelude.Dict.{keys}
use walter.Models.{Run, TaskNode, TaskStatus, EventData}
use walter.Kernel.Monad.{
  Error, Ctx, Op, Result, ok, refuse, pure, gets, reads, raise_if, modify, put_task, emit, ◌>>=◌,
  Result-cases,
}
use walter.Kernel.Transitions.{transition}
use walter.Kernel.Readiness.{
  promote, unblock, demote, refresh_status, refresh_task, refresh_keys, refresh,
}

-- The operation leaves what `view` shows.
pub record Leaves {A B : Type 0} (view : Run → B) (m : Op A) : Type 0 where
  pub leaves : (c c' : Ctx) (a : A) → m c ≡ ok (a, c') → view c'.run ≡ view c.run

-- The two parts of a sequence that went through.
pub then_split :
    {A B : Type 0} (m : Op A) (f : A → Op B) (c c' : Ctx) (b : B)
    → (m >>= f) c ≡ ok (b, c')
    → (a : A) × (d : Ctx) × (m c ≡ ok (a, d)) × (f a d ≡ ok (b, c'))
then_split m f c c' b e = elim (Result-cases (m c)) [
  | inr (x, e1) ↦ absurd (ground arith)
  | inl ((a, d), e1) ↦ (a, d, e1, ground arith)
]

-- A computation that went through left the state alone.
pub reads-eq :
    {A : Type 0} (f : Run → Result A) (c c' : Ctx) (a : A)
    → reads f c ≡ ok (a, c')
    → (f c.run ≡ ok a) × (c ≡ c')
reads-eq f c c' a e = elim (Result-cases (f c.run)) [
  | inr (x, e1) ↦ absurd (ground arith)
  | inl (b, e1) ↦ (ground arith, ground arith)
]

pub then-Leaves :
    {A B C : Type 0} {view : Run → C} {m : Op A} {f : A → Op B}
    → Leaves view m
    → ((a : A) → Leaves view (f a))
    → Leaves view (m >>= f)
then-Leaves {m} {f} p q = record {
  leaves = λ c c' b e.
      let (a, d, e1, e2) = then_split m f c c' b e in (q a).leaves d c' b e2 ∙ p.leaves c d a e1;
}

pub pure-Leaves : {A C : Type 0} {view : Run → C} (a : A) → Leaves view (pure a)
pure-Leaves {view} a = record { leaves = λ c c' b e. ap (λ (d : Ctx). view d.run) (same c c' b e) }
  where
    same : (c c' : Ctx) (b : _) → pure a c ≡ ok (b, c') → c' ≡ c
    same c c' b e = ground arith

pub gets-Leaves : {A C : Type 0} {view : Run → C} (f : Run → A) → Leaves view (gets f)
gets-Leaves {view} f = record { leaves = λ c c' b e. ap (λ (d : Ctx). view d.run) (same c c' b e) }
  where
    same : (c c' : Ctx) (b : _) → gets f c ≡ ok (b, c') → c' ≡ c
    same c c' b e = ground arith

pub reads-Leaves : {A C : Type 0} {view : Run → C} (f : Run → Result A) → Leaves view (reads f)
reads-Leaves {view} f = record {
  leaves = λ c c' b e. sym (ap (λ (d : Ctx). view d.run) (reads-eq f c c' b e).1);
}

pub raise_if-Leaves :
    {C : Type 0} {view : Run → C} (test : Bool) (e : Error) → Leaves view (raise_if test e)
raise_if-Leaves test e = reads-Leaves (λ _. refuse test e)

pub emit-Leaves :
    {C : Type 0} {view : Run → C} (kind : String) (detail : EventData)
    → Leaves view (emit kind detail)
unfolding emit
emit-Leaves {view} kind detail = record { leaves = λ c c' b e. ap view (same c c' b e) }
  where
    same : (c c' : Ctx) (b : Unit {0}) → emit kind detail c ≡ ok (b, c') → c'.run ≡ c.run
    same c c' b e = ground arith

-- A change of the run that `view` does not show.
pub modify-Leaves :
    {C : Type 0} {view : Run → C} (f : Run → Run)
    → ((run : Run) → view (f run) ≡ view run)
    → Leaves view (modify f)
modify-Leaves {view} f p = record { leaves = λ c c' b e. ap view (after c c' b e) ∙ p c.run }
  where
    after : (c c' : Ctx) (b : Unit {0}) → modify f c ≡ ok (b, c') → c'.run ≡ f c.run
    after c c' b e = ground arith

pub if-Leaves :
    {A C : Type 0} {view : Run → C} (test : Bool) {m k : Op A}
    → Leaves view m
    → Leaves view k
    → Leaves view (if test then m else k)
if-Leaves true p q = p
if-Leaves false p q = q

pub ruleset leaving =
    (then-Leaves, pure-Leaves, gets-Leaves, reads-Leaves, raise_if-Leaves, emit-Leaves, if-Leaves)

-- The run without its tasks.
abbrev pub beside_tasks : Run → Run
beside_tasks run = record run { tasks = [] }

pub put_task-Leaves : (key : String) (t : TaskNode) → Leaves beside_tasks (put_task key t)
put_task-Leaves key t = modify-Leaves _ (λ run. refl)

pub transition-Leaves :
    (key : String) (t : TaskNode) (status : TaskStatus) (reason : String)
    → Leaves beside_tasks (transition key t status reason)
unfolding transition
transition-Leaves key t status reason = search (leaving, put_task-Leaves) depth 40

demote-Leaves :
    (key : String) (t : TaskNode) (lapsed : Option String)
    → Leaves beside_tasks (demote key t lapsed)
unfolding demote
demote-Leaves key t none = pure-Leaves tt
demote-Leaves key t (some lapsed) = search (leaving, put_task-Leaves, transition-Leaves) depth 40

promote-Leaves : (key : String) (t : TaskNode) → Leaves beside_tasks (promote key t)
unfolding promote
promote-Leaves key t = search (leaving, transition-Leaves) depth 40

unblock-Leaves : (key : String) (t : TaskNode) → Leaves beside_tasks (unblock key t)
unfolding unblock
unblock-Leaves key t = search (leaving, put_task-Leaves, transition-Leaves) depth 40

refresh_status-Leaves :
    (key : String) (t : TaskNode) (status : TaskStatus)
    → Leaves beside_tasks (refresh_status key t status)
unfolding refresh_status
refresh_status-Leaves key t TaskStatus.planned = search (leaving, promote-Leaves) depth 40
refresh_status-Leaves key t TaskStatus.blocked = search (leaving, unblock-Leaves) depth 40
refresh_status-Leaves key t TaskStatus.ready = search (leaving, demote-Leaves) depth 40
refresh_status-Leaves key t TaskStatus.delegated = pure-Leaves tt
refresh_status-Leaves key t TaskStatus.running = pure-Leaves tt
refresh_status-Leaves key t TaskStatus.submitted = pure-Leaves tt
refresh_status-Leaves key t TaskStatus.reviewing = pure-Leaves tt
refresh_status-Leaves key t TaskStatus.revision_required = pure-Leaves tt
refresh_status-Leaves key t TaskStatus.accepted = pure-Leaves tt
refresh_status-Leaves key t TaskStatus.replaced = pure-Leaves tt
refresh_status-Leaves key t TaskStatus.failed = pure-Leaves tt
refresh_status-Leaves key t TaskStatus.cancelled = pure-Leaves tt

refresh_keys-Leaves : (slots : List String) → Leaves beside_tasks (refresh_keys slots)
unfolding refresh_keys refresh_task
refresh_keys-Leaves [] = pure-Leaves tt
refresh_keys-Leaves (key ∷ rest) =
    then-Leaves (then-Leaves (reads-Leaves _) λ t. refresh_status-Leaves key t t.status)
      λ _. refresh_keys-Leaves rest

pub refresh-Leaves : Leaves beside_tasks refresh
unfolding refresh
refresh-Leaves = record {
  leaves = λ c c' a e. (refresh_keys-Leaves (keys c.run.tasks)).leaves c c' a e;
}
