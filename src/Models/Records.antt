-- ===== src/Models/Records.antt =====
-- The records of walter/models.py and walter/contracts.py. Identifiers are the texts that the
-- kernel compares. Time stamps and texts that only display something are left out.
use walter.Prelude.{ℕ, String, Bool, Option, List}
use walter.Prelude.Dict.{Dict}
use walter.Models.Enums.{
  TaskStatus, CapabilityProfile, FailureClass, ApprovalStatus, CapabilityRequestStatus,
}

pub record TaskPacket : Type 0 where
  pub task_id : String
  pub required_inputs : List String
  pub dependencies : List String
  pub acceptance_criteria : List String

-- `Literal["completed", "blocked", "needs_revision"]`
pub data ResultStatus : Type 0 where
  completed blocked needs_revision : ResultStatus

pub record CapabilityRequestPayload : Type 0 where
  pub requested_capability : CapabilityProfile
  pub reason : String
  pub risk : String

pub record WorkerResult : Type 0 where
  pub task_id : String
  pub status : ResultStatus
  pub summary : String
  pub deliverable : String
  pub blocker : Option String
  pub capability_request : Option CapabilityRequestPayload

pub record ApprovalGate : Type 0 where
  pub request_id : String
  pub action : String
  pub scope_json : String
  pub scope_digest : String

pub record WorkerAssignment : Type 0 where
  pub id : String
  pub worker_id : String
  pub task_id : String
  pub capability : CapabilityProfile
  pub workspace_id : Option String

-- `TaskNode.id` is `packet.task_id`.
pub record TaskNode : Type 0 where
  pub packet : TaskPacket
  pub capability : CapabilityProfile
  pub workspace_id : Option String
  pub required_checks : List String
  pub review_required : Bool
  pub high_risk : Bool
  pub status : TaskStatus
  pub attempts : ℕ
  pub revisions : ℕ
  pub attempt_baseline : ℕ
  pub revision_baseline : ℕ
  pub max_attempts : ℕ
  pub max_revisions : ℕ
  pub assignment : Option WorkerAssignment
  pub assignment_history : List WorkerAssignment
  pub artifact_ids : List String
  pub result : Option WorkerResult
  pub blocker : Option String
  pub approval_gates : List ApprovalGate
  pub approval_ids : List String

pub record ArtifactValidation : Type 0 where
  pub id : String
  pub artifact_id : String
  pub content_digest : String
  pub check : String
  pub passed : Bool
  pub evidence : String
  pub validator_id : String

pub record Review : Type 0 where
  pub id : String
  pub artifact_id : String
  pub content_digest : String
  pub reviewer_id : String
  pub passed : Bool
  pub evidence : String

-- The texts that `Artifact.status` takes.
pub data ArtifactStatus : Type 0 where
  candidate accepted rejected superseded : ArtifactStatus

pub record Artifact : Type 0 where
  pub id : String
  pub run_id : String
  pub task_id : String
  pub worker_id : String
  pub content : String
  pub content_digest : String
  pub workspace_fingerprint : Option String
  pub version : ℕ
  pub predecessor_id : Option String
  pub input_artifact_ids : List String
  pub status : ArtifactStatus
  pub integrated_commit : Option String
  pub validations : List ArtifactValidation
  pub reviews : List Review

-- `AcceptanceDecision` and `RecoveryDecision` add one field each to `Decision`.
pub record Decision : Type 0 where
  pub id : String
  pub action : String
  pub reason : String
  pub actor_id : String
  pub affected_ids : List String
  pub evidence : List String

pub record AcceptanceDecision : Type 0 where
  pub decision : Decision
  pub artifact_id : String

pub record RecoveryDecision : Type 0 where
  pub decision : Decision
  pub failure_id : String

pub record WorkerFailure : Type 0 where
  pub id : String
  pub task_id : String
  pub classification : FailureClass
  pub evidence : String

pub record CapabilityRequest : Type 0 where
  pub id : String
  pub run_id : String
  pub task_id : String
  pub assignment_id : String
  pub worker_id : String
  pub requested_capability : CapabilityProfile
  pub reason : String
  pub risk : String
  pub status : CapabilityRequestStatus
  pub approval_id : Option String
  pub workspace_id : Option String

pub record ApprovalRequest : Type 0 where
  pub id : String
  pub run_id : String
  pub category : String
  pub action : String
  pub scope_json : String
  pub scope_digest : String
  pub rationale : String
  pub risk : String
  pub artifact_refs : List String
  pub requested_capability : Option CapabilityProfile
  pub required : Bool
  pub status : ApprovalStatus
  pub replacement_id : Option String

pub record ApprovalDecision : Type 0 where
  pub request_id : String
  pub approved : Bool
  pub human_id : String
  pub reason : String
  pub status : ApprovalStatus

pub record ReplanProposal : Type 0 where
  pub id : String
  pub base_revision : ℕ
  pub trigger : String
  pub evidence : List String
  pub add : List TaskNode
  pub remove : List String
  pub reopen : List String
  pub dependencies : Dict (List String)
  pub risks : List String
  pub approval_id : Option String
  pub requires_approval : Bool

-- `Run.status` and `WorkPlan.status`.
pub data RunStatus : Type 0 where
  active completed abandoned : RunStatus

pub record WorkPlan : Type 0 where
  pub objective : String
  pub completion_criteria : List String
  pub task_ids : List String
  pub status : RunStatus
  pub revision : ℕ
  pub max_replans : ℕ
  pub revision_history : List ReplanProposal

pub record Run : Type 0 where
  pub id : String
  pub version : ℕ
  pub status : RunStatus
  pub plan : WorkPlan
  pub tasks : Dict TaskNode
  pub artifacts : Dict Artifact
  pub accepted_artifacts : List String
  pub available_inputs : Dict String
  pub decisions : List Decision
  pub acceptances : List AcceptanceDecision
  pub failures : List WorkerFailure
  pub recoveries : List RecoveryDecision
  pub approvals : Dict ApprovalRequest
  pub approval_decisions : Dict ApprovalDecision
  pub capability_requests : Dict CapabilityRequest
  pub replans : Dict ReplanProposal
  pub unresolved_issues : List String
  pub event_cursor : ℕ
  pub final_result : Option String

-- The `data` of an event, by the call that makes it: texts by keyword, or the record that the
-- source dumps.
pub data EventData : Type 0 where
  fields : List (String × Option String) → EventData
  listed : List (String × List String) → EventData
  failure : WorkerFailure → EventData
  assigned : WorkerAssignment → ℕ → EventData
  retry : (task_id failure_id : String) → (next_attempt : ℕ) → EventData
  artifact : Artifact → EventData
  submitted : (artifact_id task_id : String) → (version : ℕ) → EventData
  validation : ArtifactValidation → EventData
  review : Review → EventData
  provisional : (task_id assignment_id worker_id : String) → WorkerResult → EventData
  requested : CapabilityRequest → WorkerResult → EventData
  abandoned : (reason : String) → (actor_id : Option String) → List String → EventData
  recovery : RecoveryDecision → EventData
  approval : ApprovalRequest → EventData
  decided : ApprovalDecision → EventData
  gated : (task_id : String) → (replaced : Option String) → ApprovalGate → EventData
  proposed : ReplanProposal → EventData
  replanned : (proposal_id : String) → (revision : ℕ) → (invalidated : List String) → EventData

pub record Event : Type 0 where
  pub run_id : String
  pub sequence : ℕ
  pub kind : String
  pub detail : EventData
