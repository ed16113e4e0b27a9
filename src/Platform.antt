-- ===== src/Platform.antt =====
-- The durable job queue of the service: the records and tables of cavman/platform_store.py that it
-- reads and writes. A time is a whole number of seconds, also where the source keeps an ISO text.
pub mod Jobs
pub mod Limits
pub mod Queue
pub mod Reaping
pub mod Serving
pub mod Waiting
pub mod Claiming
pub mod Calming
pub mod Exclusive
use walter.Prelude.{ℕ, String, Bool, true, false, ◌||◌, Option, none, some, List, []}

-- The texts that `jobs.status` takes.
pub data JobStatus : Type 0 where
  queued running succeeded failed cancelled : JobStatus

-- The amount is a whole number of some small unit of money.
pub record RunRecord : Type 0 where
  pub id : String
  pub project_id : String
  pub owner_id : String
  pub prompt : String
  pub executor : String
  pub budget_usd : ℕ
  pub max_model_calls : ℕ
  pub created_at : ℕ
  pub model_mode : String

pub record Job : Type 0 where
  pub id : String
  pub run_id : String
  pub kind : String
  pub message : String
  pub status : JobStatus
  pub outcome : Option String
  pub detail : Option String
  pub lease_owner : Option String
  pub lease_expires : Option ℕ
  pub cancel_requested : Bool
  pub created_at : ℕ
  pub started_at : Option ℕ
  pub finished_at : Option ℕ

pub record ProjectLease : Type 0 where
  pub project_id : String
  pub holder : String
  pub expires : ℕ

pub record RateEvent : Type 0 where
  pub owner_id : String
  pub action : String
  pub at : ℕ

-- The tables of the queue, with the rows of each in the order of their insertion.
pub record PlatformStore : Type 0 where
  pub runs : List RunRecord
  pub jobs : List Job
  pub project_leases : List ProjectLease
  pub rate_events : List RateEvent

abbrev pub is_queued : JobStatus → Bool
is_queued JobStatus.queued = true
is_queued _ = false

abbrev pub is_running : JobStatus → Bool
is_running JobStatus.running = true
is_running _ = false

-- `JOB_ACTIVE`
abbrev pub is_active : JobStatus → Bool
is_active status = is_queued status || is_running status
