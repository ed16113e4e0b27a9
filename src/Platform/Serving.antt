-- ===== src/Platform/Serving.antt =====
-- The job queue of cavman/platform_store.py as workers and requests change it in any order.
use walter.Prelude.{
  ℕ, ◌+◌, String, Bool, true, false, ◌&&◌, ◌≡◌, refl, subst, none, some, List, ◌==◌, select, arith,
  inl, inr, Bool-cases, Option-cases,
}
use walter.Kernel.Monad.{ok, Result-cases}
use walter.Platform.{JobStatus, Job, PlatformStore, is_queued, is_active}
use walter.Platform.Jobs
use walter.Platform.Queue.{has_id, IsQueue, update-IsQueue, insert-IsQueue, none_active}
use walter.Platform.Reaping.{reap_expired-IsQueue}

pub enqueue-IsQueue :
    (run_id kind message job_id : String) (now : ℕ) (store store' : PlatformStore) (job : Job)
    (is_new : Bool)
    → Jobs.enqueue run_id kind message job_id now store ≡ ok ((job, is_new), store')
    → IsQueue store.jobs
    → IsQueue store'.jobs
unfolding Jobs.enqueue
enqueue-IsQueue run_id kind message job_id now store store' job is_new e q =
    elim (Option-cases (Jobs.active_job run_id store.jobs)) [
      | inr (active, e1) ↦
          let same : store ≡ store' = ground arith in
          subst (λ (s : PlatformStore). IsQueue s.jobs) same q
      | inl e1 ↦
          let next = Jobs.new_job job_id run_id kind message now in
          elim (Result-cases (Jobs.insert_job next store)) [
            | inr (x, e2) ↦ absurd (ground arith)
            | inl (after, e2) ↦
                let same : after ≡ store' = ground arith in
                subst (λ (s : PlatformStore). IsQueue s.jobs) same
                  (insert-IsQueue next store after e2 (none_active run_id store.jobs e1) q)
          ]
    ]

pub claim-IsQueue :
    (worker_id : String) (lease now : ℕ) (store : PlatformStore)
    → IsQueue store.jobs
    → IsQueue (Jobs.claim worker_id lease now store).1.jobs
unfolding Jobs.claim
claim-IsQueue worker_id lease now store q =
    elim (Option-cases (Jobs.earliest (select (Jobs.is_claimable store now) store.jobs))) [
      | inl e ↦ rw (Jobs.claim, e) q
      | inr (row, e) ↦
          rw (Jobs.claim, e)
            (update-IsQueue (λ (j : Job). j.id == row.id && is_queued j.status)
              (Jobs.claimed worker_id now lease) store.jobs (λ j t _. ground (arith, t))
              (λ j. (refl, refl)) q)
    ]

pub heartbeat-IsQueue :
    (job_id worker_id : String) (lease now : ℕ) (store : PlatformStore)
    → IsQueue store.jobs
    → IsQueue (Jobs.heartbeat job_id worker_id lease now store).1.jobs
unfolding Jobs.heartbeat
heartbeat-IsQueue job_id worker_id lease now store q =
    elim (Option-cases (Jobs.job_with job_id store.jobs)) [
      | inl e ↦ rw (Jobs.heartbeat, e) q
      | inr (row, e) ↦ elim (Bool-cases (Jobs.is_held_by worker_id row)) [
        | inr lost ↦ rw (Jobs.heartbeat, e, lost) q
        | inl held ↦
            rw (Jobs.heartbeat, e, held)
              (update-IsQueue (has_id job_id)
                (λ (j : Job). record j { lease_expires = some (now + lease) }) store.jobs
                (λ j _ h. h) (λ j. (refl, refl)) q)
      ]
    ]

terminal_inactive :
    (status : String) (final : JobStatus)
    → Jobs.terminal_status status ≡ ok final
    → is_active final ≡ false
terminal_inactive status final e = ground arith

pub finish-IsQueue :
    (job_id worker_id status outcome detail : String) (now : ℕ) (store store' : PlatformStore)
    → Jobs.finish job_id worker_id status outcome detail now store ≡ ok store'
    → IsQueue store.jobs
    → IsQueue store'.jobs
unfolding Jobs.finish
finish-IsQueue job_id worker_id status outcome detail now store store' e q =
    elim (Result-cases (Jobs.terminal_status status)) [
      | inr (x, e1) ↦ absurd (ground arith)
      | inl (final, e1) ↦
          let over = terminal_inactive status final e1 in
          subst IsQueue (written final e1) (
            update-IsQueue (λ (j : Job). j.id == job_id && Jobs.is_held_by worker_id j)
              (λ (j : Job). record j {
                status = final;
                outcome = some outcome;
                detail = some detail;
                finished_at = some now;
                lease_owner = none;
              })
              store.jobs (λ j t h. absurd (ground (arith, over, h))) (λ j. (refl, refl)) q)
    ]
  where
    written :
        (final : JobStatus)
        → Jobs.terminal_status status ≡ ok final
        → Jobs.update_jobs
            (λ (j : Job). j.id == job_id && Jobs.is_held_by worker_id j)
            (λ (j : Job). record j {
              status = final;
              outcome = some outcome;
              detail = some detail;
              finished_at = some now;
              lease_owner = none;
            })
            store.jobs
          ≡ store'.jobs
    written final e1 = ground arith

pub request_cancel-IsQueue :
    (run_id : String) (now : ℕ) (store : PlatformStore)
    → IsQueue store.jobs
    → IsQueue (Jobs.request_cancel run_id now store).1.jobs
unfolding Jobs.request_cancel
request_cancel-IsQueue run_id now store q =
    elim (Option-cases (Jobs.active_job run_id store.jobs)) [
      | inl e ↦ rw (Jobs.request_cancel, e) q
      | inr (row, e) ↦ elim (Bool-cases (is_queued row.status)) [
        | inl waiting ↦
            rw (Jobs.request_cancel, e, waiting)
              (update-IsQueue (has_id row.id) (Jobs.withdrawn now) store.jobs
                (λ j _ h. absurd (ground (arith, h))) (λ j. (refl, refl)) q)
        | inr at_work ↦
            rw (Jobs.request_cancel, e, at_work)
              (update-IsQueue (has_id row.id) (λ (j : Job). record j { cancel_requested = true })
                store.jobs (λ j _ h. h) (λ j. (refl, refl)) q)
      ]
    ]

-- One request of a user or a worker.
pub data QueueStep (s s' : PlatformStore) : Type 0 where
  enqueued :
      (run_id kind message job_id : String) (now : ℕ) (job : Job) (is_new : Bool)
      → Jobs.enqueue run_id kind message job_id now s ≡ ok ((job, is_new), s')
      → QueueStep s s'
  taken :
      (worker_id : String) (lease now : ℕ)
      → (Jobs.claim worker_id lease now s).1 ≡ s'
      → QueueStep s s'
  beaten :
      (job_id worker_id : String) (lease now : ℕ)
      → (Jobs.heartbeat job_id worker_id lease now s).1 ≡ s'
      → QueueStep s s'
  finished :
      (job_id worker_id status outcome detail : String) (now : ℕ)
      → Jobs.finish job_id worker_id status outcome detail now s ≡ ok s'
      → QueueStep s s'
  cancelled :
      (run_id : String) (now : ℕ) → (Jobs.request_cancel run_id now s).1 ≡ s' → QueueStep s s'
  reaped :
      (max_recoveries now : ℕ) (new_ids : String → String) (created : List Job)
      → Jobs.reap_expired max_recoveries now new_ids s ≡ ok (created, s')
      → QueueStep s s'

pub data QueueSteps (s : PlatformStore) : PlatformStore → Type 0 where
  start : QueueSteps s s
  then_one : {t u : PlatformStore} → QueueSteps s t → QueueStep t u → QueueSteps s u

pub QueueStep-IsQueue : (s s' : PlatformStore) → QueueStep s s' → IsQueue s.jobs → IsQueue s'.jobs
QueueStep-IsQueue s s' (enqueued r k m i n job is_new e) q =
    enqueue-IsQueue r k m i n s s' job is_new e q
QueueStep-IsQueue s s' (taken w l n e) q =
    subst (λ (u : PlatformStore). IsQueue u.jobs) e (claim-IsQueue w l n s q)
QueueStep-IsQueue s s' (beaten i w l n e) q =
    subst (λ (u : PlatformStore). IsQueue u.jobs) e (heartbeat-IsQueue i w l n s q)
QueueStep-IsQueue s s' (finished i w st o d n e) q = finish-IsQueue i w st o d n s s' e q
QueueStep-IsQueue s s' (cancelled r n e) q =
    subst (λ (u : PlatformStore). IsQueue u.jobs) e (request_cancel-IsQueue r n s q)
QueueStep-IsQueue s s' (reaped m n ids created e) q = reap_expired-IsQueue m n ids s s' created e q

-- In whatever order users and workers enqueue, claim, prolong, finish, cancel and recover jobs, no
-- run ever has two jobs that are queued or running, and no two jobs share an identifier, if that
-- holds at the start.
pub QueueSteps-IsQueue :
    (s : PlatformStore) {s' : PlatformStore} → IsQueue s.jobs → QueueSteps s s' → IsQueue s'.jobs
QueueSteps-IsQueue s q start = q
QueueSteps-IsQueue s q (then_one {t} {u} steps step) =
    QueueStep-IsQueue t u step (QueueSteps-IsQueue s q steps)
