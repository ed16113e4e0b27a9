-- ===== src/Kernel/Authority.antt =====
-- `class Orchestrator` of walter/orchestration.py: the configured Manager, and the two library
-- functions that the kernel calls and only compares results of: `hashlib.sha256` on texts, and
-- `json.dumps` with sorted keys on an object.
use walter.Prelude.{String, Bool, ◌||◌, ◌==◌, List, map, elem}
use walter.Models.{TaskNode, WorkerAssignment, Fields}

pub record Orchestrator : Type 0 where
  pub manager_id : String
  pub sha256 : String → String
  pub dumps : Fields → String

-- `{a.worker_id for a in task.assignment_history}`
abbrev pub authors : TaskNode → List String
authors task = map (λ (a : WorkerAssignment). a.worker_id) task.assignment_history

-- `who == self.manager_id or who in {a.worker_id for a in task.assignment_history}`
abbrev pub is_involved : Orchestrator → String → TaskNode → Bool
is_involved o who task = who == o.manager_id || elem who (authors task)
