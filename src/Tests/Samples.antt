-- ===== src/Tests/Samples.antt =====
-- One run with one task, taken from delegation to acceptance, and a second one that fails.
use walter.Prelude.{◌≡◌, refl, true, false, Option, none, some, [], ◌∷◌, ◌++◌, is_substantive}
use walter.Prelude.Dict.{lookup, insert, keys}
use walter.Models.{
  TaskNode, TaskStatus, CapabilityProfile, ResultStatus, WorkerResult, FailureClass,
}
use walter.Kernel.Monad.{Ctx, Error, Result, ok, err, emit}
use walter.Kernel.Authority.{Orchestrator}
use walter.Kernel.Assignment
use walter.Kernel.Evidence
use walter.Kernel.Readiness
use walter.Kernel.Lineage
use walter.Kernel.Transitions
use walter.Commands.{Command, perform}
use walter.Session.{new_run}

abbrev pub kernel : Orchestrator
kernel = record { manager_id = "walter"; sha256 = λ s. s; dumps = λ fields. "scope" }

abbrev pub task : TaskNode
task = record {
  packet = record {
    task_id = "t";
    required_inputs = [];
    dependencies = [];
    acceptance_criteria = "done" ∷ [];
  };
  capability = CapabilityProfile.model_only;
  workspace_id = none;
  required_checks = "tests" ∷ [];
  review_required = true;
  high_risk = false;
  status = TaskStatus.ready;
  attempts = 0;
  revisions = 0;
  attempt_baseline = 0;
  revision_baseline = 0;
  max_attempts = 2;
  max_revisions = 1;
  assignment = none;
  assignment_history = [];
  artifact_ids = [];
  result = none;
  blocker = none;
  approval_gates = [];
  approval_ids = [];
}

abbrev pub fresh : Ctx
fresh = record {
  run = record (new_run "ship" ("works" ∷ []) 3 "r") { tasks = ("t", task) ∷ [] };
  events = [];
}

abbrev pub answer : WorkerResult
answer = record {
  task_id = "t";
  status = ResultStatus.completed;
  summary = "did it";
  deliverable = "text";
  blocker = none;
  capability_request = none;
}

-- The state after a request, or the state before one that raises.
abbrev pub ctx_after : {A : Type 0} → Ctx → Result (A × Ctx) → Ctx
ctx_after c (ok (_, c')) = c'
ctx_after c (err _) = c

abbrev pub then_do : Command → Ctx → Ctx
then_do command c = ctx_after c (perform kernel command c)

abbrev pub started : Ctx
started = then_do (Command.start "t") (then_do (Command.delegate "t" "ann" "a1") fresh)

abbrev pub submitted : Ctx
submitted = then_do (Command.submit "t" "a1" "ann" answer none "f1") started

abbrev pub validated : Ctx
validated = then_do (Command.validate "f1" "tests" true "log" "ci" none "v1") submitted

abbrev pub reviewed : Ctx
reviewed = then_do (Command.review "f1" "bob" true "read it" none "w1") validated

abbrev pub accepted : Ctx
accepted = then_do (Command.accept "t" none "good" none "d1") reviewed

-- A second task that takes the first one's artifact as its input.
abbrev pub follow_up : TaskNode
follow_up = record task {
  packet = record task.packet { task_id = "u"; dependencies = "t" ∷ [] };
  status = TaskStatus.planned;
}

abbrev pub waiting : Ctx
waiting = record accepted {
  run = record accepted.run { tasks = accepted.run.tasks ++ ("u", follow_up) ∷ [] };
}

abbrev pub failed : Ctx
failed = then_do (Command.fail "t" FailureClass.timeout "no answer" "x1") started

abbrev pub value_after : {A : Type 0} → A → Result (A × Ctx) → A
value_after a (ok (b, _)) = b
value_after a (err _) = a

abbrev task_of : Option TaskNode → TaskNode
task_of none = task
task_of (some t) = t

abbrev pub task_in : Ctx → TaskNode
task_in c = task_of (lookup "t" c.run.tasks)

abbrev status_of : Option TaskNode → Option TaskStatus
status_of none = none
status_of (some t) = some t.status

abbrev pub status_in : Ctx → Option TaskStatus
status_in c = status_of (lookup "t" c.run.tasks)

-- The task reaches ACCEPTED with a budget of one attempt used.
whole_way : status_in accepted ≡ some TaskStatus.accepted
unfolding perform lookup insert keys is_substantive Transitions.transitions Transitions.transition
    Transitions.status_event emit Readiness.readiness_blocker Readiness.is_ready_task
    Readiness.gate_blocker Readiness.gates_blocker Lineage.input_artifact_ids Lineage.gather
    Lineage.resolve Assignment.delegate Assignment.start Assignment.submit Evidence.validate
    Evidence.review Evidence.accept Evidence.candidate Evidence.candidate_gates
    Evidence.begin_review Evidence.evidence_gates Evidence.input_gates Evidence.record_acceptance
    Lineage.validate_task_inputs Readiness.refresh Readiness.refresh_keys Readiness.refresh_task
    Readiness.refresh_status
whole_way = refl

without_review :
    perform kernel (Command.accept "t" none "good" none "d1") validated
    ≡ err (Error.gate_error "Independent review required")
unfolding perform lookup insert keys is_substantive Transitions.transitions Transitions.transition
    Transitions.status_event emit Readiness.readiness_blocker Readiness.is_ready_task
    Readiness.gate_blocker Readiness.gates_blocker Lineage.input_artifact_ids Lineage.gather
    Lineage.resolve Assignment.delegate Assignment.start Assignment.submit Evidence.validate
    Evidence.review Evidence.accept Evidence.candidate Evidence.candidate_gates
    Evidence.begin_review Evidence.evidence_gates
without_review = refl
