-- ===== src/Models/BlockerReason.antt =====
-- `class BlockerReason` of walter/models.py, value by value.
use walter.Prelude.{String}

abbrev pub capability_prerequisites_missing : String
capability_prerequisites_missing = "Capability prerequisites missing"

abbrev pub approval_prerequisites_satisfied : String
approval_prerequisites_satisfied = "Approval prerequisites satisfied"

abbrev pub capability_escalation_pending : String
capability_escalation_pending = "Capability escalation pending"

abbrev pub unsupported_capability : String
unsupported_capability = "Unsupported capability requires Manager escalation"

abbrev pub tool_failure : String
tool_failure = "Tool failure requires Manager escalation"

abbrev pub manager_replan_required : String
manager_replan_required = "Manager replan required"

abbrev pub worker_replacement_required : String
worker_replacement_required = "Worker replacement required"

abbrev pub readiness_lapsed : String
readiness_lapsed = "Readiness lapsed"

abbrev pub approval_pending : String
approval_pending = "Required approval pending"

abbrev pub approval_rejected : String
approval_rejected = "Required approval rejected"

abbrev pub legacy_approval_regate : String
legacy_approval_regate = "Legacy approval gate requires explicit Manager re-gating"
