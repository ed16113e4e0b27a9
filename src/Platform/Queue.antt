-- ===== src/Platform/Queue.antt =====
-- The invariant of the job queue of cavman/platform_store.py.
use walter.Prelude.{
  ℕ, suc, ◌+◌, ◌≤◌, String, Bool, true, false, ◌&&◌, ◌≡◌, refl, subst, ◌∙◌, none, List, [], ◌∷◌,
  ◌++◌, ◌==◌, eq_iff, any, select, length, leb, if◌then◌else◌, arith, inl, inr, Bool-cases,
  Option-cases,
}
use walter.Kernel.Monad.{ok}
use walter.Platform.{Job, PlatformStore, is_active}
use walter.Platform.Jobs

-- How many jobs pass the test.
unfoldable pub tally : (Job → Bool) → List Job → ℕ
tally f [] = 0
tally f (j ∷ jobs) = if f j then suc (tally f jobs) else tally f jobs

abbrev pub has_id : String → Job → Bool
has_id id j = j.id == id

-- At most one job of a run is queued or running, and no two jobs share an identifier.
pub record IsQueue (jobs : List Job) : Type 0 where
  pub single : (run_id : String) → tally (Jobs.is_active_for run_id) jobs ≤ 1
  pub distinct : (id : String) → tally (has_id id) jobs ≤ 1

pub tally-append :
    (f : Job → Bool) (jobs : List Job) (j : Job)
    → tally f (jobs ++ j ∷ []) ≡ tally f jobs + (if f j then 1 else 0)
unfolding tally
tally-append f [] j = ground arith
tally-append f (k ∷ jobs) j = ground (arith, tally-append f jobs j)

-- An update that brings nothing under the test does not raise its tally.
pub tally-update :
    (f test : Job → Bool) (change : Job → Job) (jobs : List Job)
    → ((j : Job) → test j ≡ true → f (change j) ≡ true → f j ≡ true)
    → tally f (Jobs.update_jobs test change jobs) ≤ tally f jobs
unfolding tally Jobs.update_jobs
tally-update f test change [] h = omega arith
tally-update f test change (j ∷ jobs) h =
    let more = tally-update f test change jobs h in
    elim (Bool-cases (test j)) [
      | inr e ↦ ground (arith, more)
      | inl e ↦ elim (Bool-cases (f (change j))) [
        | inl e1 ↦ ground (arith, more, h j e e1)
        | inr e1 ↦ ground (arith, more)
      ]
    ]

tally-select : (f : Job → Bool) (jobs : List Job) → tally f jobs ≡ length (select f jobs)
unfolding tally
tally-select f [] = refl
tally-select f (j ∷ jobs) = ground (arith, tally-select f jobs)

earliest-none : (jobs : List Job) → Jobs.earliest jobs ≡ none → length jobs ≡ 0
unfolding Jobs.earliest
earliest-none [] e = refl
earliest-none (j ∷ jobs) e = elim (Option-cases (Jobs.earliest jobs)) [
  | inl e1 ↦ absurd (ground arith)
  | inr (k, e1) ↦ elim (Bool-cases (leb j.created_at k.created_at)) [
    | inl e2 ↦ absurd (ground arith)
    | inr e2 ↦ absurd (ground arith)
  ]
]

pub none_active :
    (run_id : String) (jobs : List Job)
    → Jobs.active_job run_id jobs ≡ none
    → tally (Jobs.is_active_for run_id) jobs ≡ 0
none_active run_id jobs e = tally-select (Jobs.is_active_for run_id) jobs ∙ earliest-none _ e

both_true : (a b : Bool) → (a && b) ≡ true → (a ≡ true) × (b ≡ true)
both_true a b h = (ground arith, ground arith)

-- A change that starts no work and keeps the run and the identifier.
pub update-IsQueue :
    (test : Job → Bool) (change : Job → Job) (jobs : List Job)
    → ((j : Job) → test j ≡ true → is_active (change j).status ≡ true → is_active j.status ≡ true)
    → ((j : Job) → ((change j).run_id ≡ j.run_id) × ((change j).id ≡ j.id))
    → IsQueue jobs
    → IsQueue (Jobs.update_jobs test change jobs)
update-IsQueue test change jobs quiet same q = record {
  single = λ r.
      let fewer =
        tally-update (Jobs.is_active_for r) test change jobs (λ j t e. still j r t (same j).0 e) in
      omega (arith, fewer, q.single r);
  distinct = λ id.
      let fewer =
        tally-update (has_id id) test change jobs
          (λ j _ e. subst (λ x. (x == id) ≡ true) (same j).1 e) in
      omega (arith, fewer, q.distinct id);
}
  where
    still :
        (j : Job) (r : String)
        → test j ≡ true
        → (change j).run_id ≡ j.run_id
        → Jobs.is_active_for r (change j) ≡ true
        → Jobs.is_active_for r j ≡ true
    still j r t e h =
        let (run, active) = both_true ((change j).run_id == r) (is_active (change j).status) h in
        ground (arith, quiet j t active, subst (λ x. (x == r) ≡ true) e run)

pub none_with_id :
    (id : String) (jobs : List Job) → any (has_id id) jobs ≡ false → tally (has_id id) jobs ≡ 0
unfolding tally
none_with_id id [] e = refl
none_with_id id (j ∷ jobs) e = ground (arith, none_with_id id jobs (ground arith))

pub insert-IsQueue :
    (job : Job) (store store' : PlatformStore)
    → Jobs.insert_job job store ≡ ok store'
    → tally (Jobs.is_active_for job.run_id) store.jobs ≡ 0
    → IsQueue store.jobs
    → IsQueue store'.jobs
unfolding Jobs.insert_job
insert-IsQueue job store store' e idle q = subst IsQueue (inserted e) (record {
  single = λ r.
      let sum = tally-append (Jobs.is_active_for r) store.jobs job in
      elim (Bool-cases (job.run_id == r)) [
        | inl here ↦
            let none_here =
              subst (λ x. tally (Jobs.is_active_for x) store.jobs ≡ 0)
                ((eq_iff job.run_id r).0 here) idle in
            ground (arith, sum, none_here)
        | inr other ↦ ground (arith, sum, q.single r)
      ];
  distinct = λ id.
      let sum = tally-append (has_id id) store.jobs job in
      elim (Bool-cases (job.id == id)) [
        | inl here ↦
            let none_here =
              subst (λ x. tally (has_id x) store.jobs ≡ 0) ((eq_iff job.id id).0 here)
                (none_with_id job.id store.jobs (ground arith)) in
            ground (arith, sum, none_here)
        | inr other ↦ ground (arith, sum, q.distinct id)
      ];
})
  where
    inserted : Jobs.insert_job job store ≡ ok store' → store.jobs ++ job ∷ [] ≡ store'.jobs
    inserted h = ground arith
