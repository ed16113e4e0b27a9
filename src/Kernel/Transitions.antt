-- ===== src/Kernel/Transitions.antt =====
-- `TRANSITIONS` and `_transition` of walter/orchestration.py.
use walter.Prelude.{String, Bool, true, false, not, some, [], ◌∷◌}
use walter.Models.{TaskStatus, TaskNode, EventData, status_value}
use walter.Kernel.Monad.{Op, ◌>>◌, pure, raise_if, put_task, emit, Error}

-- `status in TRANSITIONS[previous]`
unfoldable pub transitions : TaskStatus → TaskStatus → Bool
transitions TaskStatus.planned TaskStatus.ready = true
transitions TaskStatus.planned TaskStatus.blocked = true
transitions TaskStatus.ready TaskStatus.delegated = true
transitions TaskStatus.ready TaskStatus.blocked = true
transitions TaskStatus.delegated TaskStatus.running = true
transitions TaskStatus.delegated TaskStatus.failed = true
transitions TaskStatus.delegated TaskStatus.blocked = true
transitions TaskStatus.running TaskStatus.submitted = true
transitions TaskStatus.running TaskStatus.failed = true
transitions TaskStatus.running TaskStatus.blocked = true
transitions TaskStatus.submitted TaskStatus.reviewing = true
transitions TaskStatus.submitted TaskStatus.failed = true
transitions TaskStatus.reviewing TaskStatus.accepted = true
transitions TaskStatus.reviewing TaskStatus.revision_required = true
transitions TaskStatus.reviewing TaskStatus.replaced = true
transitions TaskStatus.reviewing TaskStatus.failed = true
transitions TaskStatus.revision_required TaskStatus.delegated = true
transitions TaskStatus.revision_required TaskStatus.blocked = true
transitions TaskStatus.blocked TaskStatus.ready = true
transitions TaskStatus.blocked TaskStatus.replaced = true
transitions TaskStatus.failed TaskStatus.ready = true
transitions TaskStatus.failed TaskStatus.revision_required = true
transitions TaskStatus.failed TaskStatus.replaced = true
transitions TaskStatus.failed TaskStatus.blocked = true
transitions _ _ = false

-- `"task." + status.value.lower()`
unfoldable pub status_event : TaskStatus → String
status_event TaskStatus.planned = "task.planned"
status_event TaskStatus.ready = "task.ready"
status_event TaskStatus.delegated = "task.delegated"
status_event TaskStatus.running = "task.running"
status_event TaskStatus.submitted = "task.submitted"
status_event TaskStatus.reviewing = "task.reviewing"
status_event TaskStatus.revision_required = "task.revision_required"
status_event TaskStatus.accepted = "task.accepted"
status_event TaskStatus.replaced = "task.replaced"
status_event TaskStatus.blocked = "task.blocked"
status_event TaskStatus.failed = "task.failed"
status_event TaskStatus.cancelled = "task.cancelled"

-- The task object stands in slot `key` of `run.tasks`; the result is the changed object.
unfoldable pub transition : String → TaskNode → TaskStatus → String → Op TaskNode
unfolding emit
transition key task status reason = do
  raise_if (not (transitions task.status status)) (Error.gate_error "Illegal transition")
  let moved = record task { status = status }
  put_task key moved
  emit (status_event status) (
      EventData.fields (
        ("task_id", some task.packet.task_id)
        ∷ ("previous", some (status_value task.status))
        ∷ ("reason", some reason)
        ∷ []))
  pure moved
