-- ===== src/Platform/Jobs.antt =====
-- `enqueue`, `active_job`, `reap_expired`, `claim`, `heartbeat`, `finish`, `request_cancel` and
-- `acquire_project`, `release_project` of cavman/platform_store.py. `BEGIN IMMEDIATE` makes each of
-- them one step; `new_id()` and the clock are arguments.
use walter.Prelude.{
  ℕ, ◌+◌, String, Bool, true, false, not, ◌&&◌, ◌||◌, Option, none, some, List, [], ◌∷◌, ◌++◌, ◌<>◌,
  ◌==◌, any, elem, select, length, leb, ltb, opt_eq, if◌then◌else◌,
}
use walter.Kernel.Monad.{Error, Result, ok, err, bind, refuse}
use walter.Platform.{
  JobStatus, RunRecord, Job, ProjectLease, PlatformStore, is_queued, is_running, is_active,
}

-- `ORDER BY created_at, rowid LIMIT 1`
unfoldable pub earliest : List Job → Option Job
earliest [] = none
earliest (job ∷ rest) = elim (earliest rest) [
  | none ↦ some job
  | some other ↦ if leb job.created_at other.created_at then some job else some other
]

-- `UPDATE jobs SET ... WHERE ...`
unfoldable pub update_jobs : (Job → Bool) → (Job → Job) → List Job → List Job
update_jobs test change [] = []
update_jobs test change (job ∷ rest) =
    (if test job then change job else job) ∷ update_jobs test change rest

-- `SELECT * FROM jobs WHERE id=?`
abbrev pub job_with : (job_id : String) → List Job → Option Job
job_with job_id jobs = first (select (λ (j : Job). j.id == job_id) jobs)
  where
    first : List Job → Option Job
    first [] = none
    first (j ∷ rest) = some j

-- `run_id=? AND status IN ('queued','running')`
abbrev pub is_active_for : (run_id : String) → Job → Bool
is_active_for run_id job = job.run_id == run_id && is_active job.status

-- `active_job`
abbrev pub active_job : (run_id : String) → List Job → Option Job
active_job run_id jobs = earliest (select (is_active_for run_id) jobs)

-- The row of a new job: its run must be there, and its identifier must be new.
abbrev pub new_job : (job_id run_id kind message : String) → (now : ℕ) → Job
new_job job_id run_id kind message now = record {
  id = job_id;
  run_id = run_id;
  kind = kind;
  message = message;
  status = JobStatus.queued;
  outcome = none;
  detail = none;
  lease_owner = none;
  lease_expires = none;
  cancel_requested = false;
  created_at = now;
  started_at = none;
  finished_at = none;
}

unfoldable pub insert_job : Job → PlatformStore → Result PlatformStore
insert_job job store =
    bind
      (refuse
        (not (any (λ (r : RunRecord). r.id == job.run_id) store.runs)
          || any (λ (j : Job). j.id == job.id) store.jobs)
        Error.integrity_error)
      λ _. ok (record store { jobs = store.jobs ++ job ∷ [] })

-- The job, and whether it is new.
unfoldable pub enqueue :
    (run_id kind message job_id : String)
    → (now : ℕ) → PlatformStore
    → Result ((Job × Bool) × PlatformStore)
enqueue run_id kind message job_id now store =
    bind
      (refuse (not (elem kind ("start" ∷ "continue" ∷ "recover" ∷ [])))
        (Error.value_error ("Unknown job kind " <> kind)))
      λ _. elim (active_job run_id store.jobs) [
        | some active ↦ ok ((active, false), store)
        | none ↦
            bind (insert_job (new_job job_id run_id kind message now) store)
              λ store'. ok ((new_job job_id run_id kind message now, true), store')
      ]

-- `lease_expires < ?`, which is not so for a missing time.
abbrev pub is_before : Option ℕ → ℕ → Bool
is_before none now = false
is_before (some time) now = ltb time now

abbrev pub is_expired : (now : ℕ) → Job → Bool
is_expired now job = is_running job.status && is_before job.lease_expires now

abbrev pub reaped_job : (now : ℕ) → Job → Job
reaped_job now job = record job {
  status = JobStatus.failed;
  outcome = some "interrupted";
  detail = some "The worker executing this job stopped responding.";
  finished_at = some now;
  lease_owner = none;
}

-- The recovery jobs of a run, whatever their status.
abbrev pub recoveries_of : (run_id : String) → List Job → List Job
recoveries_of run_id jobs = select (λ (j : Job). j.run_id == run_id && j.kind == "recover") jobs

-- One row of the loop; `new_ids` gives the identifier of the job that replaces a row.
unfoldable pub reap_row :
    (max_recoveries now : ℕ)
    → (new_ids : String → String) → Job
    → PlatformStore
    → Result (List Job × PlatformStore)
reap_row max_recoveries now new_ids row store =
    let closed = record store {
      jobs = update_jobs (λ (j : Job). j.id == row.id) (reaped_job now) store.jobs;
    } in
    if ltb (length (recoveries_of row.run_id closed.jobs)) max_recoveries
      && not row.cancel_requested
    then (let next = new_job (new_ids row.id) row.run_id "recover" "" now in
        bind (insert_job next closed) λ store'. ok (next ∷ [], store'))
    else ok ([], closed)

unfoldable pub reap_rows :
    (max_recoveries now : ℕ)
    → (new_ids : String → String) → List Job
    → PlatformStore
    → Result (List Job × PlatformStore)
reap_rows max_recoveries now new_ids [] store = ok ([], store)
reap_rows max_recoveries now new_ids (row ∷ rows) store =
    bind (reap_row max_recoveries now new_ids row store) λ (first, store').
      bind (reap_rows max_recoveries now new_ids rows store')
        λ (others, store''). ok (first ++ others, store'')

unfoldable pub reap_expired :
    (max_recoveries now : ℕ)
    → (new_ids : String → String) → PlatformStore
    → Result (List Job × PlatformStore)
reap_expired max_recoveries now new_ids store =
    reap_rows max_recoveries now new_ids (select (is_expired now) store.jobs) store

-- The project of a run, whose identifier is a primary key.
unfoldable pub project_of : List RunRecord → (run_id : String) → Option String
project_of [] run_id = none
project_of (r ∷ rest) run_id = if r.id == run_id then some r.project_id else project_of rest run_id

abbrev pub runs_in : List RunRecord → (project_id : String) → Job → Bool
runs_in runs project_id job =
    is_running job.status && opt_eq (project_of runs job.run_id) (some project_id)

-- A running job or a current lease keeps the project.
unfoldable pub is_busy : PlatformStore → (now : ℕ) → (project_id : String) → Bool
is_busy store now project_id =
    any (runs_in store.runs project_id) store.jobs
    || any (λ (l : ProjectLease). l.project_id == project_id && leb now l.expires)
        store.project_leases

-- A queued job joined with its run, whose project is free.
unfoldable pub is_claimable : PlatformStore → (now : ℕ) → Job → Bool
is_claimable store now job = is_queued job.status && elim (project_of store.runs job.run_id) [
  | none ↦ false
  | some project_id ↦ not (is_busy store now project_id)
]

abbrev pub claimed : (worker_id : String) → (now lease : ℕ) → Job → Job
claimed worker_id now lease job = record job {
  status = JobStatus.running;
  lease_owner = some worker_id;
  lease_expires = some (now + lease);
  started_at = some now;
}

unfoldable pub claim :
    (worker_id : String) → (lease now : ℕ) → PlatformStore → Option Job × PlatformStore
claim worker_id lease now store = elim (earliest (select (is_claimable store now) store.jobs)) [
  | none ↦ (none, store)
  | some row ↦
      let jobs =
        update_jobs (λ (j : Job). j.id == row.id && is_queued j.status)
          (claimed worker_id now lease) store.jobs in
      (job_with row.id jobs, record store { jobs = jobs })
]

-- The worker holds the job.
abbrev pub is_held_by : (worker_id : String) → Job → Bool
is_held_by worker_id job = opt_eq job.lease_owner (some worker_id) && is_running job.status

-- Whether the worker has to stop.
unfoldable pub heartbeat :
    (job_id worker_id : String) → (lease now : ℕ) → PlatformStore → Bool × PlatformStore
heartbeat job_id worker_id lease now store = elim (job_with job_id store.jobs) [
  | none ↦ (true, store)
  | some row ↦
      if is_held_by worker_id row
      then (
        row.cancel_requested,
        record store {
          jobs =
              update_jobs (λ (j : Job). j.id == job_id)
                (λ (j : Job). record j { lease_expires = some (now + lease) }) store.jobs;
        },
      )
      else (true, store)
]

-- `status in {"succeeded", "failed", "cancelled"}`
abbrev pub terminal_status : (status : String) → Result JobStatus
terminal_status status =
    if status == "succeeded"
    then ok JobStatus.succeeded
    else if status == "failed"
    then ok JobStatus.failed
    else if status == "cancelled"
    then ok JobStatus.cancelled
    else err (Error.value_error ("Unknown terminal job status " <> status))

unfoldable pub finish :
    (job_id worker_id status outcome detail : String)
    → (now : ℕ) → PlatformStore
    → Result PlatformStore
finish job_id worker_id status outcome detail now store = bind (terminal_status status) λ final.
    ok (record store {
      jobs =
          update_jobs (λ (j : Job). j.id == job_id && is_held_by worker_id j)
            (λ (j : Job). record j {
              status = final;
              outcome = some outcome;
              detail = some detail;
              finished_at = some now;
              lease_owner = none;
            })
            store.jobs;
    })

abbrev pub withdrawn : (now : ℕ) → Job → Job
withdrawn now job = record job {
  status = JobStatus.cancelled;
  outcome = some "cancelled";
  detail = some "Stopped before a worker picked it up.";
  finished_at = some now;
}

-- A queued job is cancelled, a running one is told to stop.
unfoldable pub request_cancel :
    (run_id : String) → (now : ℕ) → PlatformStore → Option Job × PlatformStore
request_cancel run_id now store = elim (active_job run_id store.jobs) [
  | none ↦ (none, store)
  | some row ↦
      let jobs =
        update_jobs (λ (j : Job). j.id == row.id)
          (λ (j : Job).
            if is_queued row.status then withdrawn now j else record j { cancel_requested = true })
          store.jobs in
      (job_with row.id jobs, record store { jobs = jobs })
]
