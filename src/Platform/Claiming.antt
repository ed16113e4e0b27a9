-- ===== src/Platform/Claiming.antt =====
-- That `claim` of cavman/platform_store.py serves the queue.
use walter.Prelude.{
  ℕ, ◌+◌, ◌≤◌, String, Bool, true, false, ◌&&◌, ◌≡◌, refl, sym, ap, subst, ◌∙◌, some, List, [], ◌∷◌,
  ◌==◌, eq_refl, select, leb, if◌then◌else◌, arith, inl, inr, Bool-cases, Option-cases,
}
use walter.Platform.{Job, JobStatus, PlatformStore, is_queued}
use walter.Platform.Jobs
use walter.Platform.Queue.{tally, has_id, IsQueue}
use walter.Platform.Reaping.{IsIn}
use walter.Platform.Waiting.{IsWaiting, IsWaiting-claimable, claimable-IsWaiting}

pub earliest-IsIn : (jobs : List Job) (row : Job) → Jobs.earliest jobs ≡ some row → IsIn row jobs
unfolding Jobs.earliest
earliest-IsIn [] row e = absurd (ground arith)
earliest-IsIn (j ∷ jobs) row e = elim (Option-cases (Jobs.earliest jobs)) [
  | inl e1 ↦ inl (ground arith)
  | inr (k, e1) ↦ elim (Bool-cases (leb j.created_at k.created_at)) [
    | inl e2 ↦ inl (ground arith)
    | inr e2 ↦ let same : k ≡ row = ground arith in inr (earliest-IsIn jobs row (e1 ∙ ap some same))
  ]
]

earliest-some :
    (jobs : List Job) (job : Job) → IsIn job jobs → (row : Job) × (Jobs.earliest jobs ≡ some row)
unfolding Jobs.earliest
earliest-some [] job m = absurd m
earliest-some (j ∷ jobs) job m = elim (Option-cases (Jobs.earliest jobs)) [
  | inl e1 ↦ (j, rw e1 refl)
  | inr (k, e1) ↦ elim (Bool-cases (leb j.created_at k.created_at)) [
    | inl e2 ↦ (j, rw (e1, e2) refl)
    | inr e2 ↦ (k, rw (e1, e2) refl)
  ]
]

select-IsIn :
    (f : Job → Bool) (jobs : List Job) (job : Job)
    → f job ≡ true
    → IsIn job jobs
    → IsIn job (select f jobs)
select-IsIn f [] job h m = absurd m
select-IsIn f (j ∷ jobs) job h m = elim (Bool-cases (f j)) [
  | inl e ↦
      rw (e, select)
        (elim m [ inl same ↦ inl same | inr more ↦ inr (select-IsIn f jobs job h more) ])
  | inr e ↦
      rw (e, select)
        (elim m [
          | inl same ↦ absurd (ground (arith, subst (λ k. f k ≡ true) (sym same) h))
          | inr more ↦ select-IsIn f jobs job h more
        ])
]

pub IsIn-select :
    (f : Job → Bool) (jobs : List Job) (job : Job)
    → IsIn job (select f jobs)
    → IsIn job jobs × (f job ≡ true)
IsIn-select f [] job m = absurd m
IsIn-select f (j ∷ jobs) job m = elim (Bool-cases (f j)) [
  | inl e ↦ elim (subst (IsIn job) (chosen e) m) [
    | inl same ↦ (inl same, subst (λ k. f k ≡ true) same e)
    | inr more ↦ let (own, h) = IsIn-select f jobs job more in (inr own, h)
  ]
  | inr e ↦ let (own, h) = IsIn-select f jobs job (subst (IsIn job) (left_out e) m) in (inr own, h)
]
  where
    chosen : f j ≡ true → select f (j ∷ jobs) ≡ j ∷ select f jobs
    chosen e = ground arith

    left_out : f j ≡ false → select f (j ∷ jobs) ≡ select f jobs
    left_out e = ground arith

pub counted : (jobs : List Job) (job : Job) → IsIn job jobs → 1 ≤ tally (has_id job.id) jobs
unfolding tally
counted [] job m = absurd m
counted (j ∷ jobs) job (inl same) =
    ground (arith, subst (λ (k : Job). has_id job.id k ≡ true) (sym same) (eq_refl job.id))
counted (j ∷ jobs) job (inr more) = ground (arith, counted jobs job more)

pub claimable_waits :
    (store : PlatformStore) (now : ℕ) (row : Job)
    → Jobs.is_claimable store now row ≡ true
    → is_queued row.status ≡ true
unfolding Jobs.is_claimable
claimable_waits store now row h = ground arith

module _ (worker_id : String) (lease now : ℕ) (row : Job)
    (waits : is_queued row.status ≡ true) where
  abbrev hit : Job → Bool
  hit j = j.id == row.id && is_queued j.status

  -- The claimed row is found again by its identifier.
  found_again :
      (jobs : List Job)
      → IsIn row jobs
      → tally (has_id row.id) jobs ≤ 1
      → Jobs.job_with row.id (Jobs.update_jobs hit (Jobs.claimed worker_id now lease) jobs)
        ≡ some (Jobs.claimed worker_id now lease row)
  unfolding Jobs.update_jobs tally
  found_again [] m one = absurd m
  found_again (j ∷ jobs) (inl same) one =
      subst
        (λ k.
          Jobs.job_with row.id (
            (if hit k then Jobs.claimed worker_id now lease k else k)
            ∷ Jobs.update_jobs hit (Jobs.claimed worker_id now lease) jobs)
          ≡ some (Jobs.claimed worker_id now lease row))
        (sym same) (ground (arith, eq_refl row.id, waits))
  found_again (j ∷ jobs) (inr more) one =
      let there = counted jobs row more in
      elim (Bool-cases (j.id == row.id)) [
        | inl same ↦ absurd (ground (arith, there, one))
        | inr other ↦ later other (found_again jobs more (ground (arith, one, other)))
      ]
    where
      later :
          (j.id == row.id) ≡ false
          → Jobs.job_with row.id (Jobs.update_jobs hit (Jobs.claimed worker_id now lease) jobs)
            ≡ some (Jobs.claimed worker_id now lease row)
          → Jobs.job_with row.id (
              (if hit j then Jobs.claimed worker_id now lease j else j)
              ∷ Jobs.update_jobs hit (Jobs.claimed worker_id now lease) jobs)
            ≡ some (Jobs.claimed worker_id now lease row)
      later other h = ground arith

-- What a worker that takes `row` is given.
pub record IsTaken (worker_id : String) (lease now : ℕ) (row taken : Job) : Type 0 where
  pub same_id : taken.id ≡ row.id
  pub same_run : taken.run_id ≡ row.run_id
  pub same_kind : taken.kind ≡ row.kind
  pub same_message : taken.message ≡ row.message
  pub running : taken.status ≡ JobStatus.running
  pub owner : taken.lease_owner ≡ some worker_id
  pub expiry : taken.lease_expires ≡ some (now + lease)
  pub started : taken.started_at ≡ some now

-- In a queue where no run has two active jobs and no two jobs share an identifier, if some job is
-- queued whose project has no running job and no unexpired lease, then a worker that asks is given a
-- job: one that was queued in such a project, now running, with the worker as its
-- owner, a lease from now on, and the start time.
pub claim-serves :
    (worker_id : String) (lease now : ℕ) (store : PlatformStore) (job : Job)
    → IsQueue store.jobs
    → IsWaiting store now job
    → (row taken : Job) × IsWaiting store now row
      × ((Jobs.claim worker_id lease now store).0 ≡ some taken)
      × IsTaken worker_id lease now row taken
unfolding Jobs.claim
claim-serves worker_id lease now store job q w =
    let test = Jobs.is_claimable store now in
    let (row, e) =
      earliest-some (select test store.jobs) job
        (select-IsIn test store.jobs job (IsWaiting-claimable store now job w) w.there) in
    let (own, can) =
      IsIn-select test store.jobs row (earliest-IsIn (select test store.jobs) row e) in
    (
      row,
      Jobs.claimed worker_id now lease row,
      claimable-IsWaiting store now row own can,
      rw (Jobs.claim, e)
          (found_again worker_id lease now row (claimable_waits store now row can) store.jobs own
            (q.distinct row.id)),
      record {
        same_id = refl;
        same_run = refl;
        same_kind = refl;
        same_message = refl;
        running = refl;
        owner = refl;
        expiry = refl;
        started = refl;
      },
    )
