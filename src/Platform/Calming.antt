-- ===== src/Platform/Calming.antt =====
-- The changes of the queue of cavman/platform_store.py that start no work.
use walter.Prelude.{
  ℕ, ◌≤◌, String, Bool, true, false, not, ◌&&◌, ◌≡◌, refl, sym, subst, ◌∙◌, some, List, [], ◌∷◌,
  ◌++◌, ltb, length, opt_eq, arith, inl, inr, Bool-cases,
}
use walter.Kernel.Monad.{ok, Result-cases}
use walter.Platform.{Job, PlatformStore, is_running}
use walter.Platform.Jobs
use walter.Platform.Queue.{tally, has_id, tally-append, tally-update}

-- At most one job of a project is running.
pub record IsExclusive (s : PlatformStore) : Type 0 where
  pub one_each : (project_id : String) → tally (Jobs.runs_in s.runs project_id) s.jobs ≤ 1

-- No project has more running jobs than before.
pub record Calms (s s' : PlatformStore) : Type 0 where
  pub same_runs : s'.runs ≡ s.runs
  pub fewer :
      (project_id : String)
      → tally (Jobs.runs_in s.runs project_id) s'.jobs
        ≤ tally (Jobs.runs_in s.runs project_id) s.jobs

pub Calms-IsExclusive : (s s' : PlatformStore) → Calms s s' → IsExclusive s → IsExclusive s'
Calms-IsExclusive s s' calm h = record {
  one_each = λ p.
      subst (λ runs. tally (Jobs.runs_in runs p) s'.jobs ≤ 1) (sym calm.same_runs)
        (omega (arith, calm.fewer p, h.one_each p));
}

pub Calms-refl : (s : PlatformStore) → Calms s s
Calms-refl s = record { same_runs = refl; fewer = λ p. omega arith }

Calms-trans : (a b c : PlatformStore) → Calms a b → Calms b c → Calms a c
Calms-trans a b c p q = record {
  same_runs = q.same_runs ∙ p.same_runs;
  fewer = λ id.
      let second =
        subst (λ runs. tally (Jobs.runs_in runs id) c.jobs ≤ tally (Jobs.runs_in runs id) b.jobs)
          p.same_runs (q.fewer id) in
      omega (arith, p.fewer id, second);
}

-- A change that starts nothing and keeps the run.
pub update-Calms :
    (s : PlatformStore) (test : Job → Bool) (change : Job → Job)
    → ((j : Job) → is_running (change j).status ≡ true → is_running j.status ≡ true)
    → ((j : Job) → (change j).run_id ≡ j.run_id)
    → Calms s (record s { jobs = Jobs.update_jobs test change s.jobs })
update-Calms s test change quiet same = record {
  same_runs = refl;
  fewer =
      λ p. tally-update (Jobs.runs_in s.runs p) test change s.jobs (λ j _ e. still p j (same j) e);
}
  where
    still :
        (p : String) (j : Job)
        → (change j).run_id ≡ j.run_id
        → Jobs.runs_in s.runs p (change j) ≡ true
        → Jobs.runs_in s.runs p j ≡ true
    still p j e h =
        let (run, rest) =
          two (is_running (change j).status)
            (opt_eq (Jobs.project_of s.runs (change j).run_id) (some p)) h in
        ground (
          arith,
          quiet j run,
          subst (λ r. opt_eq (Jobs.project_of s.runs r) (some p) ≡ true) e rest,
        )
      where
        two : (a b : Bool) → (a && b) ≡ true → (a ≡ true) × (b ≡ true)
        two a b x = (ground arith, ground arith)

pub insert-Calms :
    (job : Job) (s s' : PlatformStore)
    → Jobs.insert_job job s ≡ ok s'
    → is_running job.status ≡ false
    → Calms s s'
unfolding Jobs.insert_job
insert-Calms job s s' e idle = record {
  same_runs = ground arith;
  fewer = λ p.
      let sum = tally-append (Jobs.runs_in s.runs p) s.jobs job in
      subst (λ jobs. tally (Jobs.runs_in s.runs p) jobs ≤ tally (Jobs.runs_in s.runs p) s.jobs)
        inserted (ground (arith, sum, idle));
}
  where
    inserted : s.jobs ++ job ∷ [] ≡ s'.jobs
    inserted = ground arith

module _ (max_recoveries now : ℕ) (new_ids : String → String) where
  reap_row-Calms :
      (row : Job) (s s' : PlatformStore) (created : List Job)
      → Jobs.reap_row max_recoveries now new_ids row s ≡ ok (created, s')
      → Calms s s'
  unfolding Jobs.reap_row
  reap_row-Calms row s s' created e =
      let closed : PlatformStore = record s {
        jobs = Jobs.update_jobs (has_id row.id) (Jobs.reaped_job now) s.jobs;
      } in
      let calm =
        update-Calms s (has_id row.id) (Jobs.reaped_job now) (λ j h. absurd (ground (arith, h)))
          (λ j. refl) in
      let next = Jobs.new_job (new_ids row.id) row.run_id "recover" "" now in
      elim (Bool-cases (
        ltb (length (Jobs.recoveries_of row.run_id closed.jobs)) max_recoveries
        && not row.cancel_requested)) [
          | inr e1 ↦ let same : closed ≡ s' = ground arith in subst (Calms s) same calm
          | inl e1 ↦ elim (Result-cases (Jobs.insert_job next closed)) [
            | inr (x, e2) ↦ absurd (ground arith)
            | inl (after, e2) ↦
                let same : after ≡ s' = ground arith in
                subst (Calms s) same
                  (Calms-trans s closed after calm (insert-Calms next closed after e2 refl))
          ]
        ]

  pub reap_rows-Calms :
      (rows : List Job) (s s' : PlatformStore) (created : List Job)
      → Jobs.reap_rows max_recoveries now new_ids rows s ≡ ok (created, s')
      → Calms s s'
  unfolding Jobs.reap_rows
  reap_rows-Calms [] s s' created e =
      let same : s ≡ s' = ground arith in subst (Calms s) same (Calms-refl s)
  reap_rows-Calms (row ∷ rows) s s' created e =
      elim (Result-cases (Jobs.reap_row max_recoveries now new_ids row s)) [
        | inr (x, e1) ↦ absurd (ground arith)
        | inl ((first, s1), e1) ↦
            elim (Result-cases (Jobs.reap_rows max_recoveries now new_ids rows s1)) [
              | inr (x, e2) ↦ absurd (ground arith)
              | inl ((others, s2), e2) ↦
                  let same : s2 ≡ s' = ground arith in
                  subst (Calms s) same (
                    Calms-trans s s1 s2 (reap_row-Calms row s s1 first e1)
                      (reap_rows-Calms rows s1 s2 others e2))
            ]
      ]
