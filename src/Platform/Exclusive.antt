-- ===== src/Platform/Exclusive.antt =====
-- That the queue of cavman/platform_store.py runs one job of a project at a time.
use walter.Prelude.{
  ℕ, ◌+◌, ◌≤◌, String, Bool, true, false, ◌&&◌, ◌≡◌, refl, sym, subst, none, some, List, [], ◌∷◌,
  ◌==◌, eq_iff, eq_refl, any, select, opt_eq, arith, inl, inr, Bool-cases, Option-cases,
}
use walter.Kernel.Monad.{ok, Result-cases}
use walter.Platform.{JobStatus, Job, PlatformStore, is_queued, is_running}
use walter.Platform.Jobs
use walter.Platform.Queue.{tally, has_id, IsQueue}
use walter.Platform.Reaping.{IsIn}
use walter.Platform.Claiming.{counted, earliest-IsIn, IsIn-select}
use walter.Platform.Serving.{QueueStep, QueueSteps, QueueStep-IsQueue}
use walter.Platform.Calming.{
  IsExclusive, Calms, Calms-IsExclusive, Calms-refl, update-Calms, insert-Calms, reap_rows-Calms,
}

enqueue-Calms :
    (run_id kind message job_id : String) (now : ℕ) (s s' : PlatformStore) (job : Job)
    (is_new : Bool)
    → Jobs.enqueue run_id kind message job_id now s ≡ ok ((job, is_new), s')
    → Calms s s'
unfolding Jobs.enqueue
enqueue-Calms run_id kind message job_id now s s' job is_new e =
    elim (Option-cases (Jobs.active_job run_id s.jobs)) [
      | inr (active, e1) ↦ let same : s ≡ s' = ground arith in subst (Calms s) same (Calms-refl s)
      | inl e1 ↦
          let next = Jobs.new_job job_id run_id kind message now in
          elim (Result-cases (Jobs.insert_job next s)) [
            | inr (x, e2) ↦ absurd (ground arith)
            | inl (after, e2) ↦
                let same : after ≡ s' = ground arith in
                subst (Calms s) same (insert-Calms next s after e2 refl)
          ]
    ]

heartbeat-Calms :
    (job_id worker_id : String) (lease now : ℕ) (s : PlatformStore)
    → Calms s (Jobs.heartbeat job_id worker_id lease now s).1
unfolding Jobs.heartbeat
heartbeat-Calms job_id worker_id lease now s = elim (Option-cases (Jobs.job_with job_id s.jobs)) [
  | inl e ↦ rw (Jobs.heartbeat, e) (Calms-refl s)
  | inr (row, e) ↦ elim (Bool-cases (Jobs.is_held_by worker_id row)) [
    | inr lost ↦ rw (Jobs.heartbeat, e, lost) (Calms-refl s)
    | inl held ↦
        rw (Jobs.heartbeat, e, held)
          (update-Calms s (has_id job_id)
            (λ (j : Job). record j { lease_expires = some (now + lease) }) (λ j h. h) (λ j. refl))
  ]
]

terminal_stopped :
    (status : String) (final : JobStatus)
    → Jobs.terminal_status status ≡ ok final
    → is_running final ≡ false
terminal_stopped status final e = ground arith

finish-Calms :
    (job_id worker_id status outcome detail : String) (now : ℕ) (s s' : PlatformStore)
    → Jobs.finish job_id worker_id status outcome detail now s ≡ ok s'
    → Calms s s'
unfolding Jobs.finish
finish-Calms job_id worker_id status outcome detail now s s' e =
    elim (Result-cases (Jobs.terminal_status status)) [
      | inr (x, e1) ↦ absurd (ground arith)
      | inl (final, e1) ↦
          let over = terminal_stopped status final e1 in
          let done : Job → Job = λ j. record j {
            status = final;
            outcome = some outcome;
            detail = some detail;
            finished_at = some now;
            lease_owner = none;
          } in
          let mine : Job → Bool = λ j. j.id == job_id && Jobs.is_held_by worker_id j in
          let same : record s { jobs = Jobs.update_jobs mine done s.jobs } ≡ s' = ground arith in
          subst (Calms s) same
            (update-Calms s mine done (λ j h. absurd (ground (arith, over, h))) (λ j. refl))
    ]

request_cancel-Calms :
    (run_id : String) (now : ℕ) (s : PlatformStore) → Calms s (Jobs.request_cancel run_id now s).1
unfolding Jobs.request_cancel
request_cancel-Calms run_id now s = elim (Option-cases (Jobs.active_job run_id s.jobs)) [
  | inl e ↦ rw (Jobs.request_cancel, e) (Calms-refl s)
  | inr (row, e) ↦ elim (Bool-cases (is_queued row.status)) [
    | inl waiting ↦
        rw (Jobs.request_cancel, e, waiting)
          (update-Calms s (has_id row.id) (Jobs.withdrawn now) (λ j h. absurd (ground (arith, h)))
            (λ j. refl))
    | inr at_work ↦
        rw (Jobs.request_cancel, e, at_work)
          (update-Calms s (has_id row.id) (λ (j : Job). record j { cancel_requested = true })
            (λ j h. h) (λ j. refl))
  ]
]

-- An update of jobs with an identifier brings at most as many under a test as have it.
tally-added :
    (id : String) (f test : Job → Bool) (change : Job → Job) (jobs : List Job)
    → ((j : Job) → test j ≡ true → has_id id j ≡ true)
    → tally f (Jobs.update_jobs test change jobs) ≤ tally f jobs + tally (has_id id) jobs
unfolding tally Jobs.update_jobs
tally-added id f test change [] h = omega arith
tally-added id f test change (j ∷ jobs) h =
    let more = tally-added id f test change jobs h in
    elim (Bool-cases (test j)) [
      | inr e ↦ ground (arith, more)
      | inl e ↦ ground (arith, more, h j e)
    ]

-- The same, where the one job that has the identifier does not come under the test.
tally-kept :
    (row : Job) (f test : Job → Bool) (change : Job → Job) (jobs : List Job)
    → ((j : Job) → test j ≡ true → has_id row.id j ≡ true)
    → f (change row) ≡ false
    → IsIn row jobs
    → tally (has_id row.id) jobs ≤ 1
    → tally f (Jobs.update_jobs test change jobs) ≤ tally f jobs
unfolding tally Jobs.update_jobs
tally-kept row f test change [] h no_more m one = absurd m
tally-kept row f test change (j ∷ jobs) h no_more (inl same) one =
    let more = tally-added row.id f test change jobs h in
    let here = subst (λ (k : Job). has_id row.id k ≡ true) (sym same) (eq_refl row.id) in
    let calm = subst (λ k. f (change k) ≡ false) (sym same) no_more in
    ground (arith, more, here, calm, one)
tally-kept row f test change (j ∷ jobs) h no_more (inr rest) one =
    let there = counted jobs row rest in
    elim (Bool-cases (has_id row.id j)) [
      | inl here ↦ absurd (ground (arith, here, there, one))
      | inr other ↦
          let more =
            tally-kept row f test change jobs h no_more rest (ground (arith, other, one)) in
          elim (Bool-cases (test j)) [
            | inr e ↦ ground (arith, more)
            | inl e ↦ absurd (ground (arith, other, h j e))
          ]
    ]

claimable_free :
    (s : PlatformStore) (now : ℕ) (row : Job)
    → Jobs.is_claimable s now row ≡ true
    → (p : String) × (Jobs.project_of s.runs row.run_id ≡ some p)
      × (any (Jobs.runs_in s.runs p) s.jobs ≡ false)
unfolding Jobs.is_claimable Jobs.is_busy
claimable_free s now row h = elim (Option-cases (Jobs.project_of s.runs row.run_id)) [
  | inl e ↦ absurd (ground arith)
  | inr (p, e) ↦ (p, e, ground arith)
]

none_run : (f : Job → Bool) (jobs : List Job) → any f jobs ≡ false → tally f jobs ≡ 0
unfolding tally
none_run f [] e = refl
none_run f (j ∷ jobs) e = ground (arith, none_run f jobs (ground arith))

module _ (worker_id : String) (lease now : ℕ) (s : PlatformStore) (q : IsQueue s.jobs)
    (h : IsExclusive s) where
  abbrev waits_at : Job → Job → Bool
  waits_at row j = j.id == row.id && is_queued j.status

  claimed_once :
      (row : Job) (p : String)
      → IsIn row s.jobs
      → Jobs.is_claimable s now row ≡ true
      → tally
          (Jobs.runs_in s.runs p)
          (Jobs.update_jobs (waits_at row) (Jobs.claimed worker_id now lease) s.jobs)
        ≤ 1
  claimed_once row p m can =
      let (own, is_own, free) = claimable_free s now row can in
      let only = q.distinct row.id in
      elim (Bool-cases (own == p)) [
        | inl same ↦
            let added =
              tally-added row.id (Jobs.runs_in s.runs p) (waits_at row)
                (Jobs.claimed worker_id now lease) s.jobs (λ j t. ground (arith, t)) in
            let none_here =
              subst (λ x. tally (Jobs.runs_in s.runs x) s.jobs ≡ 0) ((eq_iff own p).0 same)
                (none_run (Jobs.runs_in s.runs own) s.jobs free) in
            omega (arith, added, only, none_here)
        | inr other ↦
            let kept =
              tally-kept row (Jobs.runs_in s.runs p) (waits_at row)
                (Jobs.claimed worker_id now lease) s.jobs (λ j t. ground (arith, t))
                (elsewhere own is_own other) m only in
            omega (arith, kept, h.one_each p)
      ]
    where
      elsewhere :
          (own : String)
          → Jobs.project_of s.runs row.run_id ≡ some own
          → (own == p) ≡ false
          → opt_eq (Jobs.project_of s.runs row.run_id) (some p) ≡ false
      elsewhere own e other = subst (λ slot. opt_eq slot (some p) ≡ false) (sym e) other

  claim-IsExclusive : IsExclusive (Jobs.claim worker_id lease now s).1
  unfolding Jobs.claim
  claim-IsExclusive =
      let free = select (Jobs.is_claimable s now) s.jobs in
      elim (Option-cases (Jobs.earliest free)) [
        | inl e ↦ rw (Jobs.claim, e) h
        | inr (row, e) ↦
            let (m, can) =
              IsIn-select (Jobs.is_claimable s now) s.jobs row (earliest-IsIn free row e) in
            rw (Jobs.claim, e) (record { one_each = λ p. claimed_once row p m can })
      ]

QueueStep-IsExclusive :
    (s s' : PlatformStore) → QueueStep s s' → IsQueue s.jobs → IsExclusive s → IsExclusive s'
unfolding Jobs.reap_expired
QueueStep-IsExclusive s s' (QueueStep.enqueued r k m i n job is_new e) q h =
    Calms-IsExclusive s s' (enqueue-Calms r k m i n s s' job is_new e) h
QueueStep-IsExclusive s s' (QueueStep.taken w l n e) q h =
    subst IsExclusive e (claim-IsExclusive w l n s q h)
QueueStep-IsExclusive s s' (QueueStep.beaten i w l n e) q h =
    Calms-IsExclusive s s' (subst (Calms s) e (heartbeat-Calms i w l n s)) h
QueueStep-IsExclusive s s' (QueueStep.finished i w st o d n e) q h =
    Calms-IsExclusive s s' (finish-Calms i w st o d n s s' e) h
QueueStep-IsExclusive s s' (QueueStep.cancelled r n e) q h =
    Calms-IsExclusive s s' (subst (Calms s) e (request_cancel-Calms r n s)) h
QueueStep-IsExclusive s s' (QueueStep.reaped m n ids created e) q h =
    Calms-IsExclusive s s'
      (reap_rows-Calms m n ids (select (Jobs.is_expired n) s.jobs) s s' created e) h

both_kept :
    (s : PlatformStore) {s' : PlatformStore}
    → IsQueue s.jobs
    → IsExclusive s
    → QueueSteps s s'
    → IsQueue s'.jobs × IsExclusive s'
both_kept s q h QueueSteps.start = (q, h)
both_kept s q h (QueueSteps.then_one {t} {u} steps step) =
    let (q', h') = both_kept s q h steps in
    (QueueStep-IsQueue t u step q', QueueStep-IsExclusive t u step q' h')

-- In whatever order users and workers enqueue, claim, prolong, finish, cancel and recover jobs, no
-- project ever has two running jobs, if that holds at the start, where no run has two active jobs
-- and no two jobs share an identifier.
pub QueueSteps-IsExclusive :
    (s : PlatformStore) {s' : PlatformStore}
    → IsQueue s.jobs
    → IsExclusive s
    → QueueSteps s s'
    → IsExclusive s'
QueueSteps-IsExclusive s q h steps = (both_kept s q h steps).1
