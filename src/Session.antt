-- ===== src/Session.antt =====
-- The entry points of `Orchestrator` in walter/orchestration.py over the store: `_mutate`,
-- `create_run` and `record_integration`. The lock of `transaction` makes each of them one step.
pub mod Atomicity
pub mod Queries
pub mod Closing
use walter.Prelude.{
  ℕ, String, Bool, true, false, not, ◌||◌, Option, none, some, List, [], ◌∷◌, any, is_substantive,
  is_empty, opt_eq, if◌then◌else◌,
}
use walter.Prelude.Dict.{lookup}
use walter.Models.{Run, RunStatus, WorkPlan, Event, EventData}
use walter.Kernel.Monad.{Error, Result, ok, err, bind, refuse, Op, Ctx}
use walter.Kernel.Workspace.{is_object_id, integrate}
use walter.Store.{Store, load, save}

abbrev pub is_active : RunStatus → Bool
is_active RunStatus.active = true
is_active _ = false

-- `_mutate`
unfoldable pub mutate : {A : Type 0} → Store → (run_id : String) → Op A → Result (A × Store)
mutate store run_id operation = bind (load store run_id) λ run.
    bind (refuse (not (is_active run.status)) (Error.gate_error "Run is terminal")) λ _.
      bind (operation (record { run = run; events = [] })) λ (result, c).
        bind (save store c.run c.events (some c.run.version)) λ (_, store'). ok (result, store')

abbrev pub new_run : (objective : String) → List String → ℕ → (new_id : String) → Run
new_run objective criteria max_replans new_id = record {
  id = new_id;
  version = 0;
  status = RunStatus.active;
  plan = record {
    objective = objective;
    completion_criteria = criteria;
    task_ids = [];
    status = RunStatus.active;
    revision = 0;
    max_replans = max_replans;
    revision_history = [];
  };
  tasks = [];
  artifacts = [];
  accepted_artifacts = [];
  available_inputs = [];
  decisions = [];
  acceptances = [];
  failures = [];
  recoveries = [];
  approvals = [];
  approval_decisions = [];
  capability_requests = [];
  replans = [];
  unresolved_issues = [];
  event_cursor = 0;
  final_result = none;
}

abbrev pub created_event : (run_id : String) → Event
created_event run_id = record {
  run_id = run_id;
  sequence = 0;
  kind = "run.created";
  detail = EventData.fields [];
}

-- `create_run`: `WorkPlan` refuses an empty list of criteria.
unfoldable pub create_run :
    Store
    → (objective : String) → (criteria : List String) → (max_replans : ℕ) → (new_id : String)
    → Result (Run × Store)
create_run store objective criteria max_replans new_id =
    bind
      (refuse (not (is_substantive objective) || any (λ x. not (is_substantive x)) criteria)
        (Error.gate_error "Objective and criteria must be substantive"))
      λ _. bind (refuse (is_empty criteria) Error.validation_error) λ _.
        save store (new_run objective criteria max_replans new_id) (created_event new_id ∷ []) none

-- `existing is not None and existing.integrated_commit == commit`
abbrev pub is_recorded : Run → (artifact_id commit : String) → Bool
is_recorded run artifact_id commit = elim (lookup artifact_id run.artifacts) [
  | none ↦ false
  | some artifact ↦ opt_eq artifact.integrated_commit (some commit)
]

-- `record_integration`: recording the same commit again changes nothing.
unfoldable pub record_integration :
    Store → (run_id artifact_id commit : String) → Result (Unit {0} × Store)
record_integration store run_id artifact_id commit =
    bind
      (refuse (not (is_object_id commit))
        (Error.gate_error "Integration commit must be a full object id"))
      λ _. bind (load store run_id) λ run.
        if is_recorded run artifact_id commit
        then ok (tt, store)
        else mutate store run_id (integrate artifact_id commit)
