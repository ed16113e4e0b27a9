-- ===== src/Tests/Service.antt =====
-- The properties of the job queue, of the rate limit and of the usage budget, at small tables.
use walter.Prelude.{◌≤◌, ◌≡◌, refl, true, none, some, [], ◌∷◌, inl, inr, ap, ◌∙◌, arith}
use walter.Kernel.Monad.{ok}
use walter.Platform.{Job, JobStatus, PlatformStore}
use walter.Platform.Jobs
use walter.Platform.Limits.{consume_rate, uses, sorted_times, consume_rate-bounded}
use walter.Platform.Queue.{tally, IsQueue}
use walter.Platform.Serving.{QueueStep, QueueSteps, QueueSteps-IsQueue}
use walter.Platform.Waiting.{IsWaiting}
use walter.Platform.Claiming.{IsTaken, claim-serves}
use walter.Platform.Calming.{IsExclusive}
use walter.Platform.Exclusive.{QueueSteps-IsExclusive}
use walter.Usage.{UsageBudget, Usage, check, IsAffordable, check-IsAffordable}

abbrev idle : PlatformStore
idle = record {
  runs =
      record {
        id = "r";
        project_id = "p";
        owner_id = "o";
        prompt = "build a page";
        executor = "docker";
        budget_usd = 5;
        max_model_calls = 40;
        created_at = 1;
        model_mode = "automatic";
      }
      ∷ [];
  jobs = [];
  project_leases = [];
  rate_events = [];
}

abbrev job : Job
job = Jobs.new_job "j" "r" "start" "go" 1

abbrev waiting : PlatformStore
waiting = record idle { jobs = job ∷ [] }

idle-IsQueue : IsQueue idle.jobs
unfolding tally
idle-IsQueue = record { single = λ r. omega arith; distinct = λ id. omega arith }

enqueues : Jobs.enqueue "r" "start" "go" "j" 1 idle ≡ ok ((job, true), waiting)
unfolding Jobs.enqueue Jobs.earliest Jobs.insert_job
enqueues = refl

QueueSteps-IsQueue_example : IsQueue waiting.jobs
QueueSteps-IsQueue_example = QueueSteps-IsQueue idle idle-IsQueue (
    QueueSteps.then_one QueueSteps.start
      (QueueStep.enqueued "r" "start" "go" "j" 1 job true enqueues))

waiting-IsQueue : IsQueue waiting.jobs
unfolding tally
waiting-IsQueue = record { single = λ r. ground arith; distinct = λ id. ground arith }

not_running : JobStatus.queued ≡ JobStatus.running → ⊥
not_running h = cc

job-IsWaiting : IsWaiting waiting 2 job
unfolding Jobs.project_of
job-IsWaiting = record {
  project_id = "p";
  there = inl refl;
  queued = refl;
  project = refl;
  free = record {
    no_job = λ j m running. absurd (elim m [
      | inl same ↦ not_running (ap (λ (k : Job). k.status) same ∙ running)
      | inr more ↦ more
    ]);
    no_lease = λ l m. absurd m;
  };
}

claim-serves_example :
    (row taken : Job) × IsWaiting waiting 2 row
    × ((Jobs.claim "w" 30 2 waiting).0 ≡ some taken)
    × IsTaken "w" 30 2 row taken
claim-serves_example = claim-serves "w" 30 2 waiting job waiting-IsQueue job-IsWaiting

abbrev at_work : PlatformStore
at_work = (Jobs.claim "w" 30 2 waiting).1

idle-IsExclusive : IsExclusive idle
unfolding tally
idle-IsExclusive = record { one_each = λ p. omega arith }

QueueSteps-IsExclusive_example : IsExclusive at_work
QueueSteps-IsExclusive_example = QueueSteps-IsExclusive idle idle-IsQueue idle-IsExclusive (
    QueueSteps.then_one
      (QueueSteps.then_one QueueSteps.start
        (QueueStep.enqueued "r" "start" "go" "j" 1 job true enqueues))
      (QueueStep.taken "w" 30 2 refl))

abbrev used : PlatformStore
used = record idle { rate_events = record { owner_id = "o"; action = "build"; at = 2 } ∷ [] }

consumes : consume_rate "o" "build" 3 60 2 idle ≡ ok (none, used)
unfolding consume_rate sorted_times
consumes = refl

consume_rate-bounded_example : uses "o" "build" used ≤ 3
consume_rate-bounded_example =
    consume_rate-bounded "o" "build" 3 60 2 idle used none consumes (omega arith)

abbrev budget : UsageBudget
budget = record {
  max_calls = some 2;
  max_input_tokens = none;
  max_output_tokens = some 100;
  max_total_tokens = none;
  max_cost_usd = some 5;
}

abbrev usage : Usage
usage = record {
  calls_used = 1;
  input_tokens_used = 40;
  output_tokens_used = 20;
  total_tokens_used = 60;
  requested_input_tokens = none;
  requested_output_tokens = some 80;
  cost_used_usd = 4;
}

check-IsAffordable_example :
    (check budget usage ≡ ok tt → IsAffordable budget usage)
    × (IsAffordable budget usage → check budget usage ≡ ok tt)
check-IsAffordable_example = check-IsAffordable budget usage
