-- ===== src/Tests/Requests.antt =====
-- The properties of the kernel at the requests of Samples.
use walter.Prelude.{
  ◌≡◌, ◌≢◌, ◌⊎◌, refl, String, true, false, none, some, List, [], ◌∷◌, ◌++◌, last?, is_substantive,
}
use walter.Prelude.Dict.{lookup, insert, keys}
use walter.Models.{
  TaskNode, Artifact, ArtifactStatus, ArtifactValidation, Review, AcceptanceDecision,
  RecoveryDecision,
}
use walter.Kernel.Monad.{Error, Ctx, ok, err, emit}
use walter.Kernel.Authority.{is_involved}
use walter.Kernel.Assignment
use walter.Kernel.Evidence
use walter.Kernel.Readiness
use walter.Kernel.Lineage
use walter.Kernel.Transitions
use walter.Kernel.Recovery
use walter.Kernel.Workspace
use walter.Kernel.Evolution.Slots.{TasksEvolve}
use walter.Kernel.Evolution.Moves.{submit_moves}
use walter.Kernel.Evolution.Completing.{refresh_total}
use walter.Kernel.Lineage.Termination.{input_artifact_ids_total}
use walter.Kernel.Acceptance.{IsBacked, accept-IsBacked, validate_independent, review_independent}
use walter.Kernel.Routing.{recover_once}
use walter.Commands.{Command, perform}
use walter.Commands.Progress.{is_terminal, perform-evolves, perform_terminal}
use walter.Tests.Samples.{
  kernel, answer, started, submitted, validated, reviewed, accepted, failed, task_in, then_do,
  waiting, follow_up,
}

submits :
    perform kernel (Command.submit "t" "a1" "ann" answer none "f1") started ≡ ok (tt, submitted)
unfolding perform lookup insert keys is_substantive Transitions.transitions Transitions.transition
    Transitions.status_event emit Readiness.readiness_blocker Readiness.is_ready_task
    Readiness.gate_blocker Readiness.gates_blocker Lineage.input_artifact_ids Lineage.gather
    Lineage.resolve Assignment.delegate Assignment.start Assignment.submit
submits = refl

perform-evolves_example : TasksEvolve submit_moves started.run.tasks submitted.run.tasks
perform-evolves_example =
    perform-evolves kernel (Command.submit "t" "a1" "ann" answer none "f1") started submitted
      submits

abbrev tests_passed : ArtifactValidation
tests_passed = record {
  id = "v1";
  artifact_id = "f1";
  content_digest = "text";
  check = "tests";
  passed = true;
  evidence = "log";
  validator_id = "ci";
}

validates :
    Evidence.validate kernel "f1" "tests" true "log" "ci" none "v1" submitted
    ≡ ok (tests_passed, validated)
unfolding perform lookup insert keys is_substantive Transitions.transitions Transitions.transition
    Transitions.status_event emit Readiness.readiness_blocker Readiness.is_ready_task
    Readiness.gate_blocker Readiness.gates_blocker Lineage.input_artifact_ids Lineage.gather
    Lineage.resolve Assignment.delegate Assignment.start Assignment.submit Evidence.validate
    Evidence.candidate Evidence.candidate_gates Evidence.begin_review
validates = refl

validate_independent_example :
    (artifact : Artifact) × (t : TaskNode) × (lookup "f1" submitted.run.artifacts ≡ some artifact)
    × (lookup "f1" validated.run.artifacts
        ≡ some (record artifact { validations = artifact.validations ++ tests_passed ∷ [] }))
    × (tests_passed.content_digest ≡ kernel.sha256 artifact.content)
    × (tests_passed.passed ≡ true)
    × (lookup artifact.task_id validated.run.tasks ≡ some t)
    × (is_involved kernel "ci" t ≡ false)
validate_independent_example =
    validate_independent kernel "f1" "tests" true "log" "ci" none "v1" submitted validated
      tests_passed validates

abbrev approved : Review
approved = record {
  id = "w1";
  artifact_id = "f1";
  content_digest = "text";
  reviewer_id = "bob";
  passed = true;
  evidence = "read it";
}

reviews :
    Evidence.review kernel "f1" "bob" true "read it" none "w1" validated ≡ ok (approved, reviewed)
unfolding perform lookup insert keys is_substantive Transitions.transitions Transitions.transition
    Transitions.status_event emit Readiness.readiness_blocker Readiness.is_ready_task
    Readiness.gate_blocker Readiness.gates_blocker Lineage.input_artifact_ids Lineage.gather
    Lineage.resolve Assignment.delegate Assignment.start Assignment.submit Evidence.validate
    Evidence.candidate Evidence.candidate_gates Evidence.begin_review Evidence.review
reviews = refl

review_independent_example :
    (artifact : Artifact) × (t : TaskNode) × (lookup "f1" validated.run.artifacts ≡ some artifact)
    × (lookup "f1" reviewed.run.artifacts
        ≡ some (record artifact { reviews = artifact.reviews ++ approved ∷ [] }))
    × (approved.content_digest ≡ kernel.sha256 artifact.content)
    × (approved.passed ≡ true)
    × (lookup artifact.task_id reviewed.run.tasks ≡ some t)
    × (is_involved kernel "bob" t ≡ false)
review_independent_example =
    review_independent kernel "f1" "bob" true "read it" none "w1" validated reviewed approved
      reviews

abbrev the_acceptance : AcceptanceDecision
the_acceptance = record {
  decision = record {
    id = "d1";
    action = "ACCEPT";
    reason = "good";
    actor_id = "walter";
    affected_ids = "t" ∷ [];
    evidence = "v1" ∷ "w1" ∷ [];
  };
  artifact_id = "f1";
}

accepts : Evidence.accept kernel "t" none "good" none "d1" reviewed ≡ ok (the_acceptance, accepted)
unfolding perform lookup insert keys is_substantive Transitions.transitions Transitions.transition
    Transitions.status_event emit Readiness.readiness_blocker Readiness.is_ready_task
    Readiness.gate_blocker Readiness.gates_blocker Lineage.input_artifact_ids Lineage.gather
    Lineage.resolve Assignment.delegate Assignment.start Assignment.submit Evidence.validate
    Evidence.candidate Evidence.candidate_gates Evidence.begin_review Evidence.review
    Evidence.accept Evidence.evidence_gates Evidence.input_gates Evidence.record_acceptance
    Lineage.validate_task_inputs Readiness.refresh Readiness.refresh_keys Readiness.refresh_task
    Readiness.refresh_status
accepts = refl

accept-IsBacked_example :
    (named : TaskNode) × (slot : String) × (artifact : Artifact) × (t : TaskNode) × (lookup "t"
        reviewed.run.tasks
      ≡ some named)
    × (last? named.artifact_ids ≡ some slot)
    × (lookup slot reviewed.run.artifacts ≡ some artifact)
    × (artifact.status ≡ ArtifactStatus.candidate)
    × (lookup artifact.task_id reviewed.run.tasks ≡ some t)
    × (last? t.artifact_ids ≡ some slot)
    × IsBacked kernel t artifact
accept-IsBacked_example =
    accept-IsBacked kernel "t" none "good" none "d1" reviewed accepted the_acceptance accepts

abbrev kept_running : Ctx
kept_running = then_do (Command.register_input "spec" "spec.md") accepted

keeps_running :
    perform kernel (Command.register_input "spec" "spec.md") accepted ≡ ok (tt, kept_running)
unfolding perform lookup insert keys is_substantive Transitions.transitions Transitions.transition
    Transitions.status_event emit Readiness.readiness_blocker Readiness.is_ready_task
    Readiness.gate_blocker Readiness.gates_blocker Lineage.input_artifact_ids Lineage.gather
    Lineage.resolve Assignment.delegate Assignment.start Assignment.submit Evidence.validate
    Evidence.candidate Evidence.candidate_gates Evidence.begin_review Evidence.review
    Evidence.accept Evidence.evidence_gates Evidence.input_gates Evidence.record_acceptance
    Lineage.validate_task_inputs Readiness.refresh Readiness.refresh_keys Readiness.refresh_task
    Readiness.refresh_status Workspace.register_input Workspace.add_input_reference
keeps_running = refl

accepted_task : lookup "t" accepted.run.tasks ≡ some (task_in accepted)
unfolding perform lookup insert keys is_substantive Transitions.transitions Transitions.transition
    Transitions.status_event emit Readiness.readiness_blocker Readiness.is_ready_task
    Readiness.gate_blocker Readiness.gates_blocker Lineage.input_artifact_ids Lineage.gather
    Lineage.resolve Assignment.delegate Assignment.start Assignment.submit Evidence.validate
    Evidence.candidate Evidence.candidate_gates Evidence.begin_review Evidence.review
    Evidence.accept Evidence.evidence_gates Evidence.input_gates Evidence.record_acceptance
    Lineage.validate_task_inputs Readiness.refresh Readiness.refresh_keys Readiness.refresh_task
    Readiness.refresh_status
accepted_task = refl

accepted_status : is_terminal (task_in accepted).status ≡ true
unfolding perform lookup insert keys is_substantive Transitions.transitions Transitions.transition
    Transitions.status_event emit Readiness.readiness_blocker Readiness.is_ready_task
    Readiness.gate_blocker Readiness.gates_blocker Lineage.input_artifact_ids Lineage.gather
    Lineage.resolve Assignment.delegate Assignment.start Assignment.submit Evidence.validate
    Evidence.candidate Evidence.candidate_gates Evidence.begin_review Evidence.review
    Evidence.accept Evidence.evidence_gates Evidence.input_gates Evidence.record_acceptance
    Lineage.validate_task_inputs Readiness.refresh Readiness.refresh_keys Readiness.refresh_task
    Readiness.refresh_status
accepted_status = refl

perform_terminal_example :
    (t : TaskNode) × (lookup "t" kept_running.run.tasks ≡ some t)
    × (t.status ≡ (task_in accepted).status)
perform_terminal_example =
    perform_terminal kernel (Command.register_input "spec" "spec.md") accepted kept_running "t"
      (task_in accepted) keeps_running accepted_task accepted_status

abbrev the_retry : RecoveryDecision
the_retry = record {
  decision = record {
    id = "y1";
    action = "RETRY";
    reason = "flaky";
    actor_id = "walter";
    affected_ids = "t" ∷ [];
    evidence = "no answer" ∷ [];
  };
  failure_id = "x1";
}

abbrev recovered : Ctx
recovered = then_do (Command.recover "x1" "flaky" "walter" "y1") failed

recovers : Recovery.recover kernel "x1" "flaky" "walter" "y1" failed ≡ ok (the_retry, recovered)
unfolding perform lookup insert keys is_substantive Transitions.transitions Transitions.transition
    Transitions.status_event emit Readiness.readiness_blocker Readiness.is_ready_task
    Readiness.gate_blocker Readiness.gates_blocker Lineage.input_artifact_ids Lineage.gather
    Lineage.resolve Assignment.delegate Assignment.start Recovery.fail Recovery.fail_task
    Recovery.recover Recovery.recovery_action Recovery.route Recovery.within_attempts
    Recovery.within_revisions Recovery.route_task Recovery.reject_candidate Recovery.record_recovery
    Readiness.refresh Readiness.refresh_keys Readiness.refresh_task Readiness.refresh_status
recovers = refl

recover_once_example :
    Recovery.recover kernel "x1" "again" "walter" "y2" recovered ≢ ok (the_retry, recovered)
recover_once_example =
    recover_once kernel "x1" "flaky" "again" "walter" "walter" "y1" "y2" failed recovered recovered
      the_retry the_retry recovers

input_artifact_ids_total_example :
    ((inputs : List String) × (Lineage.input_artifact_ids waiting.run follow_up ≡ ok inputs))
    ⊎ ((reason : String) × (Lineage.input_artifact_ids waiting.run follow_up
          ≡ err (Error.gate_error reason)))
input_artifact_ids_total_example = input_artifact_ids_total waiting.run follow_up

refresh_total_example : (c' : Ctx) × (Readiness.refresh waiting ≡ ok (tt, c'))
refresh_total_example = refresh_total waiting
