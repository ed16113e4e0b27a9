-- ===== src/Session/Closing.antt =====
-- The mutations of walter/orchestration.py that close a run, `complete` and `abandon`, and what is
-- left of `_mutate` afterwards.
use walter.Prelude.{String, ◌≡◌, refl, ap, sym, subst, ◌∙◌, false, Option, some, List, arith}
use walter.Prelude.Dict.{Dict}
use walter.Models.{Run, RunStatus}
use walter.Kernel.Monad.{Error, Ctx, Op, ok, err, emit}
use walter.Kernel.Operator.{abandon}
use walter.Kernel.Completion.{complete}
use walter.Kernel.Completion.Finished.{complete-IsFinished}
use walter.Store.{Store, rows_of, load}
use walter.Store.Consistency.{IsConsistent, RowFits}
use walter.Store.Saving.{load-save}
use walter.Session.{is_active, mutate}
use walter.Session.Atomicity.{mutate-Mutated, load-eq}

-- The requests that close a run.
pub data Closure : Type 0 where
  completed : (final_result : String) → Dict (List String) → Closure
  abandoned : (reason : String) → (actor_id : Option String) → Closure

abbrev pub close : Closure → Op (Unit {0})
close (Closure.completed final_result evidence) = complete final_result evidence
close (Closure.abandoned reason actor_id) = abandon reason actor_id

abbrev pub closed_status : Closure → RunStatus
closed_status (Closure.completed final_result evidence) = RunStatus.completed
closed_status (Closure.abandoned reason actor_id) = RunStatus.abandoned

close-status :
    (closure : Closure) (c c' : Ctx)
    → close closure c ≡ ok (tt, c')
    → (c'.run.id ≡ c.run.id) × (c'.run.status ≡ closed_status closure)
unfolding abandon emit
close-status (Closure.completed final_result evidence) c c' h =
    let (_, _, written) = complete-IsFinished final_result evidence c c' h in
    (ap (λ (u : Run). u.id) written, ap (λ (u : Run). u.status) written)
close-status (Closure.abandoned reason actor_id) c c' h = (ground arith, ground arith)

loaded_id :
    (store : Store) (id : String) (run : Run)
    → IsConsistent store
    → load store id ≡ ok run
    → run.id ≡ id
loaded_id store id run h e =
    let (row, found, same) = load-eq store id run e in
    let rows = rows_of id store.events in
    let fits : RowFits id (some row) rows = subst (λ slot. RowFits id slot rows) found (h id) in
    ap (λ (u : Run). u.id) (sym same) ∙ fits.0

refused :
    {A : Type 0} (store : Store) (run_id : String) (operation : Op A) (run : Run)
    → load store run_id ≡ ok run
    → is_active run.status ≡ false
    → mutate store run_id operation ≡ err (Error.gate_error "Run is terminal")
unfolding mutate
refused store run_id operation run loaded closed = ground arith

inactive : (closure : Closure) → is_active (closed_status closure) ≡ false
inactive (Closure.completed final_result evidence) = refl
inactive (Closure.abandoned reason actor_id) = refl

-- Once `complete` or `abandon` has gone through `_mutate`, on a consistent store, the run that is
-- stored has the status completed or abandoned, and whatever operation then goes through `_mutate`
-- on that run, in the store left, is refused with the error that the run is terminal.
pub mutate_closed :
    {A : Type 0} (closure : Closure) (store store' : Store) (run_id : String) (operation : Op A)
    → IsConsistent store
    → mutate store run_id (close closure) ≡ ok (tt, store')
    → ((run : Run) × (load store' run_id ≡ ok run) × (run.status ≡ closed_status closure))
      × (mutate store' run_id operation ≡ err (Error.gate_error "Run is terminal"))
mutate_closed closure store store' run_id operation h e =
    let m = mutate-Mutated store run_id (close closure) tt store' e in
    let (same_id, status) = close-status closure _ m.c m.operated in
    let own = same_id ∙ loaded_id store run_id m.run h m.loaded in
    let (found, made) = load-save store m.c.run m.c.events (some m.c.run.version) h m.written in
    let found' = subst (λ id. load store' id ≡ ok m.candidate) own found in
    let closed = ap (λ (u : Run). u.status) made ∙ status in
    (
      (m.candidate, found', closed),
      refused store' run_id operation m.candidate found' (ap is_active closed ∙ inactive closure),
    )
