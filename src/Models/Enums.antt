-- ===== src/Models/Enums.antt =====
-- The enumerations of walter/models.py. A `StrEnum` member prints as its value.
use walter.Prelude.{String, Bool, true, false}

pub data TaskStatus : Type 0 where
  planned ready delegated running submitted reviewing : TaskStatus
  revision_required accepted replaced blocked failed cancelled : TaskStatus

pub data CapabilityProfile : Type 0 where
  model_only researcher repo_reader developer_sandbox reviewer : CapabilityProfile

pub data FailureClass : Type 0 where
  bad_output missing_evidence constraint_violation task_ambiguity dependency_failure : FailureClass
  tool_failure provider_failure timeout capability_unavailable : FailureClass
  unsupported_capability repeated_bad_output stale_base : FailureClass

pub data ApprovalStatus : Type 0 where
  pending approved rejected superseded : ApprovalStatus

pub data CapabilityRequestStatus : Type 0 where
  pending approved denied escalated : CapabilityRequestStatus

-- The member's value, as `f"{status}"` prints it.
unfoldable pub status_value : TaskStatus → String
status_value TaskStatus.planned = "PLANNED"
status_value TaskStatus.ready = "READY"
status_value TaskStatus.delegated = "DELEGATED"
status_value TaskStatus.running = "RUNNING"
status_value TaskStatus.submitted = "SUBMITTED"
status_value TaskStatus.reviewing = "REVIEWING"
status_value TaskStatus.revision_required = "REVISION_REQUIRED"
status_value TaskStatus.accepted = "ACCEPTED"
status_value TaskStatus.replaced = "REPLACED"
status_value TaskStatus.blocked = "BLOCKED"
status_value TaskStatus.failed = "FAILED"
status_value TaskStatus.cancelled = "CANCELLED"

-- `status == TaskStatus.X` for the members that the kernel compares with.
abbrev pub is_planned : TaskStatus → Bool
is_planned TaskStatus.planned = true
is_planned _ = false

abbrev pub is_ready : TaskStatus → Bool
is_ready TaskStatus.ready = true
is_ready _ = false

abbrev pub is_running : TaskStatus → Bool
is_running TaskStatus.running = true
is_running _ = false

abbrev pub is_submitted : TaskStatus → Bool
is_submitted TaskStatus.submitted = true
is_submitted _ = false

abbrev pub is_reviewing : TaskStatus → Bool
is_reviewing TaskStatus.reviewing = true
is_reviewing _ = false

abbrev pub is_accepted : TaskStatus → Bool
is_accepted TaskStatus.accepted = true
is_accepted _ = false

abbrev pub is_blocked : TaskStatus → Bool
is_blocked TaskStatus.blocked = true
is_blocked _ = false

abbrev pub is_failed : TaskStatus → Bool
is_failed TaskStatus.failed = true
is_failed _ = false

-- `status in {TaskStatus.DELEGATED, TaskStatus.RUNNING}`
abbrev pub is_assigned : TaskStatus → Bool
is_assigned TaskStatus.delegated = true
is_assigned TaskStatus.running = true
is_assigned _ = false

-- `status in {TaskStatus.READY, TaskStatus.REVISION_REQUIRED}`
abbrev pub is_delegatable : TaskStatus → Bool
is_delegatable TaskStatus.ready = true
is_delegatable TaskStatus.revision_required = true
is_delegatable _ = false

-- `status in {TaskStatus.PLANNED, TaskStatus.READY, TaskStatus.BLOCKED}`
abbrev pub is_unstarted : TaskStatus → Bool
is_unstarted TaskStatus.planned = true
is_unstarted TaskStatus.ready = true
is_unstarted TaskStatus.blocked = true
is_unstarted _ = false

-- `capability == CapabilityProfile.DEVELOPER_SANDBOX`
abbrev pub is_developer : CapabilityProfile → Bool
is_developer CapabilityProfile.developer_sandbox = true
is_developer _ = false

-- `a == b` for capability profiles.
abbrev pub same_capability : CapabilityProfile → CapabilityProfile → Bool
same_capability CapabilityProfile.model_only CapabilityProfile.model_only = true
same_capability CapabilityProfile.researcher CapabilityProfile.researcher = true
same_capability CapabilityProfile.repo_reader CapabilityProfile.repo_reader = true
same_capability CapabilityProfile.developer_sandbox CapabilityProfile.developer_sandbox = true
same_capability CapabilityProfile.reviewer CapabilityProfile.reviewer = true
same_capability _ _ = false

abbrev pub is_approved : ApprovalStatus → Bool
is_approved ApprovalStatus.approved = true
is_approved _ = false

abbrev pub is_pending : ApprovalStatus → Bool
is_pending ApprovalStatus.pending = true
is_pending _ = false

abbrev pub is_open_request : CapabilityRequestStatus → Bool
is_open_request CapabilityRequestStatus.pending = true
is_open_request _ = false

abbrev pub is_superseded : ApprovalStatus → Bool
is_superseded ApprovalStatus.superseded = true
is_superseded _ = false

abbrev pub is_rejected : ApprovalStatus → Bool
is_rejected ApprovalStatus.rejected = true
is_rejected _ = false

-- `status in {CapabilityRequestStatus.PENDING, CapabilityRequestStatus.APPROVED}`
abbrev pub is_undecided : CapabilityRequestStatus → Bool
is_undecided CapabilityRequestStatus.pending = true
is_undecided CapabilityRequestStatus.approved = true
is_undecided _ = false

abbrev pub is_granted : CapabilityRequestStatus → Bool
is_granted CapabilityRequestStatus.approved = true
is_granted _ = false

abbrev pub is_escalated : CapabilityRequestStatus → Bool
is_escalated CapabilityRequestStatus.escalated = true
is_escalated _ = false

-- The member's value.
abbrev pub capability_value : CapabilityProfile → String
capability_value CapabilityProfile.model_only = "model_only"
capability_value CapabilityProfile.researcher = "researcher"
capability_value CapabilityProfile.repo_reader = "repo_reader"
capability_value CapabilityProfile.developer_sandbox = "developer_sandbox"
capability_value CapabilityProfile.reviewer = "reviewer"
