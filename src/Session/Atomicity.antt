-- ===== src/Session/Atomicity.antt =====
-- What `_mutate` of walter/orchestration.py does around the body of a mutation.
use walter.Prelude.{String, ◌≡◌, true, some, [], arith, Option-cases, inl, inr}
use walter.Prelude.Dict.{lookup}
use walter.Models.{Run}
use walter.Kernel.Monad.{Ctx, Op, ok, Result-cases}
use walter.Store.{RunRow, Store, load, check_row, save}
use walter.Store.Consistency.{IsConsistent}
use walter.Store.Saving.{save-IsConsistent}
use walter.Session.{is_active, mutate}

-- A mutation that went through, taken apart.
pub record Mutated {A : Type 0} (store : Store) (run_id : String) (operation : Op A) (result : A)
    (store' : Store) : Type 0 where
  pub run : Run
  pub c : Ctx
  pub candidate : Run
  pub loaded : load store run_id ≡ ok run
  pub active : is_active run.status ≡ true
  pub operated : operation (record { run = run; events = [] }) ≡ ok (result, c)
  pub written : save store c.run c.events (some c.run.version) ≡ ok (candidate, store')

pub mutate-Mutated :
    {A : Type 0} (store : Store) (run_id : String) (operation : Op A) (result : A) (store' : Store)
    → mutate store run_id operation ≡ ok (result, store')
    → Mutated store run_id operation result store'
unfolding mutate
mutate-Mutated store run_id operation result store' h = elim (Result-cases (load store run_id)) [
  | inr (_, e) ↦ absurd (ground arith)
  | inl (run, e) ↦ elim (Result-cases (operation (record { run = run; events = [] }))) [
    | inr (_, e1) ↦ absurd (ground arith)
    | inl ((x, d), e1) ↦ elim (Result-cases (save store d.run d.events (some d.run.version))) [
      | inr (_, e2) ↦ absurd (ground arith)
      | inl ((candidate, w), e2) ↦ record {
        run = run;
        c = d;
        candidate = candidate;
        loaded = e;
        active = ground arith;
        operated = ground arith;
        written = ground arith;
      }
    ]
  ]
]

-- A mutation keeps the store consistent, whatever it does to the run.
pub mutate-IsConsistent :
    {A : Type 0} (store : Store) (run_id : String) (operation : Op A) (result : A) (store' : Store)
    → IsConsistent store
    → mutate store run_id operation ≡ ok (result, store')
    → IsConsistent store'
mutate-IsConsistent store run_id operation result store' h e =
    let m = mutate-Mutated store run_id operation result store' e in
    save-IsConsistent store m.c.run m.c.events (some m.c.run.version) h m.written

check_row-eq :
    (store : Store) (id : String) (row : RunRow) (run : Run)
    → check_row store id row ≡ ok run
    → row.snapshot ≡ run
unfolding check_row
check_row-eq store id row run h = ground arith

-- What `load` returns is stored.
pub load-eq :
    (store : Store) (id : String) (run : Run)
    → load store id ≡ ok run
    → (row : RunRow) × (lookup id store.runs ≡ some row) × (row.snapshot ≡ run)
unfolding load
load-eq store id run h = elim (Option-cases (lookup id store.runs)) [
  | inl e ↦ absurd (ground arith)
  | inr (row, e) ↦ (row, e, check_row-eq store id row run (ground arith))
]
