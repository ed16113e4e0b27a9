-- ===== src/Kernel/Evidence.antt =====
-- `_candidate`, `validate`, `review` and `accept` of walter/orchestration.py.
use walter.Prelude.{
  String, Bool, true, false, not, ◌&&◌, ◌||◌, Option, none, some, List, [], ◌∷◌, ◌++◌, ◌==◌, map,
  any, elem, is_subset, is_empty, is_nonempty, is_given, last?, opt_eq, if◌then◌else◌,
}
use walter.Models.{
  Run, TaskStatus, ArtifactStatus, TaskNode, Artifact, ArtifactValidation, Review,
  AcceptanceDecision, EventData, is_submitted, is_reviewing, is_developer,
}
use walter.Kernel.Monad.{
  Error, Result, bind, refuse, or_raise, Op, ◌>>=◌, ◌>>◌, pure, reads, raise_if, modify,
  put_artifact, task_at, artifact_at, emit,
}
use walter.Kernel.Lineage.{validate_task_inputs}
use walter.Kernel.Readiness.{is_ready_task, refresh}
use walter.Kernel.Transitions.{transition}
use walter.Kernel.Authority.{Orchestrator, authors, is_involved}

abbrev pub is_candidate : ArtifactStatus → Bool
is_candidate ArtifactStatus.candidate = true
is_candidate _ = false

-- `artifact.workspace_fingerprint and artifact.workspace_fingerprint != workspace_fingerprint`
abbrev pub fingerprint_moved : Artifact → Option String → Bool
fingerprint_moved artifact observed =
    is_given artifact.workspace_fingerprint && not (opt_eq artifact.workspace_fingerprint observed)

-- `if task.status == TaskStatus.SUBMITTED: self._transition(...)`, for the object in slot `key`.
unfoldable pub begin_review : (key : String) → TaskNode → Op TaskNode
unfolding transition
begin_review key task =
    if is_submitted task.status
    then transition key task TaskStatus.reviewing "Manager QA started"
    else pure task

-- The checks of `_candidate` on the artifact and its task, in the order of the source.
unfoldable pub candidate_gates :
    Orchestrator
    → (artifact_id : String) → (observed : Option String) → Artifact
    → TaskNode
    → Result (Unit {0})
candidate_gates o artifact_id observed artifact task =
    bind
      (refuse (not (o.sha256 artifact.content == artifact.content_digest))
        (Error.gate_error "Candidate content changed"))
      λ _.
        bind
          (refuse (fingerprint_moved artifact observed)
            (Error.gate_error "Current workspace fingerprint must match candidate"))
          λ _. bind (or_raise (last? task.artifact_ids) Error.index_error) λ latest.
            refuse (not (latest == artifact_id) || not (is_candidate artifact.status))
              (Error.gate_error "Not the current candidate")

-- The candidate, and its task, which stands in slot `artifact.task_id`.
unfoldable pub candidate :
    Orchestrator → (artifact_id : String) → (observed : Option String) → Op (Artifact × TaskNode)
candidate o artifact_id observed = do
  artifact ← reads (artifact_at artifact_id)
  task ← reads (task_at artifact.task_id)
  reads (λ _. candidate_gates o artifact_id observed artifact task)
  current ← begin_review artifact.task_id task
  raise_if (not (is_reviewing current.status)) (Error.gate_error "Task is not reviewing")
  pure (artifact, current)

unfoldable pub validate :
    Orchestrator
    → (artifact_id check : String) → (passed : Bool) → (evidence validator_id : String)
    → (observed : Option String) → (new_id : String) → Op ArtifactValidation
validate o artifact_id check passed evidence validator_id observed new_id = do
  (artifact, task) ← candidate o artifact_id observed
  raise_if (is_involved o validator_id task)
      (Error.gate_error "Author cannot validate own candidate")
  raise_if (not (is_nonempty evidence) || not (is_nonempty validator_id)) Error.validation_error
  let found : ArtifactValidation = record {
    id = new_id;
    artifact_id = artifact_id;
    content_digest = artifact.content_digest;
    check = check;
    passed = passed;
    evidence = evidence;
    validator_id = validator_id;
  }
  emit "artifact.validation_started" (
      EventData.fields (
        ("artifact_id", some artifact_id)
        ∷ ("check", some check)
        ∷ ("validator_id", some validator_id)
        ∷ []))
  put_artifact artifact_id (record artifact { validations = artifact.validations ++ found ∷ [] })
  emit "artifact.validation_completed" (EventData.validation found)
  pure found

unfoldable pub review :
    Orchestrator
    → (artifact_id reviewer_id : String) → (passed : Bool) → (evidence : String)
    → (observed : Option String) → (new_id : String) → Op Review
review o artifact_id reviewer_id passed evidence observed new_id = do
  (artifact, task) ← candidate o artifact_id observed
  raise_if (is_involved o reviewer_id task)
      (Error.gate_error "Reviewer must be independent of all candidate authors")
  raise_if (not (is_nonempty evidence) || not (is_nonempty reviewer_id)) Error.validation_error
  let opinion : Review = record {
    id = new_id;
    artifact_id = artifact_id;
    content_digest = artifact.content_digest;
    reviewer_id = reviewer_id;
    passed = passed;
    evidence = evidence;
  }
  put_artifact artifact_id (record artifact { reviews = artifact.reviews ++ opinion ∷ [] })
  emit "artifact.reviewed" (EventData.review opinion)
  pure opinion

abbrev pub validator_of : ArtifactValidation → String
validator_of v = v.validator_id

abbrev pub reviewer_of : Review → String
reviewer_of r = r.reviewer_id

-- `evidence_principals`
abbrev pub principals : Artifact → TaskNode → List String
principals artifact task =
    authors task ++ (map validator_of artifact.validations ++ map reviewer_of artifact.reviews)

-- `any(v.content_digest != artifact.content_digest for v in [*validations, *reviews])`
abbrev pub evidence_is_stale : Artifact → Bool
evidence_is_stale artifact =
    any (λ (v : ArtifactValidation). not (v.content_digest == artifact.content_digest))
      artifact.validations
    || any (λ (r : Review). not (r.content_digest == artifact.content_digest)) artifact.reviews

-- `failed or missing`
abbrev pub checks_missed : Artifact → TaskNode → Bool
checks_missed artifact task =
    any (λ (v : ArtifactValidation). not v.passed) artifact.validations
    || not (
        is_subset task.required_checks
          (map (λ (v : ArtifactValidation). v.check) artifact.validations))

-- `artifact.reviews and artifact.reviews[-1].passed`
abbrev pub last_review_passed : Option Review → Bool
last_review_passed none = false
last_review_passed (some r) = r.passed

abbrev pub needs_review : TaskNode → Bool
needs_review task = task.review_required || task.high_risk || is_developer task.capability

-- `if manager_id is not None and manager_id != self.manager_id`
abbrev pub claims_other : Orchestrator → Option String → Bool
claims_other o none = false
claims_other o (some claimed) = not (claimed == o.manager_id)

-- The gates of `accept` on the evidence, in the order of the source.
unfoldable pub evidence_gates : Orchestrator → Artifact → TaskNode → Result (Unit {0})
evidence_gates o artifact task =
    bind
      (refuse (elem o.manager_id (principals artifact task))
        (Error.gate_error "Author cannot accept own output"))
      λ _.
        bind
          (refuse (evidence_is_stale artifact)
            (Error.gate_error "Evidence does not match candidate content"))
          λ _.
            bind (refuse (checks_missed artifact task) (Error.gate_error "Validation gates failed"))
              λ _.
                bind
                  (refuse (needs_review task && not (last_review_passed (last? artifact.reviews)))
                    (Error.gate_error "Independent review required"))
                  λ _.
                    refuse (is_empty task.required_checks && is_empty artifact.reviews)
                      (Error.gate_error "At least one external validation or review is required")

-- The gates on the inputs, which come behind them.
unfoldable pub input_gates : Run → TaskNode → Result (Unit {0})
input_gates run task = bind (is_ready_task run task) λ ready.
    bind (refuse (not ready) (Error.gate_error "Inputs are no longer accepted"))
      λ _. validate_task_inputs run task

abbrev pub acceptance :
    Orchestrator → (task_id reason new_id : String) → Artifact → AcceptanceDecision
acceptance o task_id reason new_id artifact = record {
  decision = record {
    id = new_id;
    action = "ACCEPT";
    reason = reason;
    actor_id = o.manager_id;
    affected_ids = task_id ∷ [];
    evidence =
        map (λ (v : ArtifactValidation). v.id) artifact.validations
        ++ map (λ (r : Review). r.id) artifact.reviews;
  };
  artifact_id = artifact.id;
}

-- What `accept` writes once its gates have passed: `slot` is the key of the artifact object.
unfoldable pub record_acceptance :
    (slot : String) → (reason : String) → AcceptanceDecision → Artifact → TaskNode → Op (Unit {0})
unfolding transition
record_acceptance slot reason accepted artifact task = do
  modify (λ run. record run {
    acceptances = run.acceptances ++ accepted ∷ [];
    decisions = run.decisions ++ accepted.decision ∷ [];
    accepted_artifacts = run.accepted_artifacts ++ artifact.id ∷ [];
  })
  put_artifact slot (record artifact { status = ArtifactStatus.accepted })
  transition artifact.task_id task TaskStatus.accepted reason
  emit "artifact.accepted" (
      EventData.fields
        (("artifact_id", some artifact.id) ∷ ("decision_id", some accepted.decision.id) ∷ []))

unfoldable pub accept :
    Orchestrator
    → (task_id : String) → (claimed : Option String) → (reason : String)
    → (observed : Option String) → (new_id : String) → Op AcceptanceDecision
accept o task_id claimed reason observed new_id = do
  raise_if (claims_other o claimed)
      (Error.gate_error "Acceptance authority does not match configured Manager")
  named ← reads (task_at task_id)
  slot ← reads (λ _. or_raise (last? named.artifact_ids) (Error.gate_error "No candidate"))
  (artifact, task) ← candidate o slot observed
  reads (λ _. evidence_gates o artifact task)
  reads (λ run. input_gates run task)
  raise_if (not (is_nonempty reason)) Error.validation_error
  let accepted = acceptance o task_id reason new_id artifact
  record_acceptance slot reason accepted artifact task
  refresh
  pure accepted
