-- ===== src/Commands.antt =====
-- The mutations of walter/orchestration.py that work on the existing tasks of a run, as one type of
-- requests; the others in Amendments; and the store as it runs through any sequence of both.
pub mod Progress
pub mod Amendments
pub mod Immaterial
pub mod History
use walter.Prelude.{String, Bool, Option, List}
use walter.Models.{WorkerResult, FailureClass}
use walter.Kernel.Monad.{Ctx, Op, Result, ok, ◌>>=◌, ◌>>◌, pure}
use walter.Kernel.Authority.{Orchestrator}
use walter.Kernel.Assignment
use walter.Kernel.Evidence
use walter.Kernel.Recovery
use walter.Kernel.Operator
use walter.Kernel.Workspace
use walter.Kernel.Planning

-- The arguments of each public method; the last text is the identifier that `uid()` draws.
pub data Command : Type 0 where
  delegate : (task_id worker_id new_id : String) → Command
  start : (task_id : String) → Command
  submit :
      (task_id assignment_id worker_id : String) → WorkerResult → Option String → String → Command
  provisional : (task_id assignment_id worker_id : String) → WorkerResult → Command
  capability : (task_id assignment_id worker_id : String) → WorkerResult → String → Command
  validate :
      (artifact_id check : String)
      → Bool
      → (evidence validator_id : String) → Option String
      → String
      → Command
  review : (artifact_id reviewer_id : String) → Bool → String → Option String → String → Command
  accept : (task_id : String) → Option String → String → Option String → String → Command
  fail : (task_id : String) → FailureClass → String → String → Command
  fail_assignment :
      (task_id assignment_id worker_id : String) → FailureClass → String → String → Command
  recover : (failure_id reason actor_id new_id : String) → Command
  resume : (String → String) → Command
  abandon : String → Option String → Command
  register_input : (name reference : String) → Command
  bind_workspace : (task_id workspace_id : String) → Command
  replace_workspace : (task_id expected new reason : String) → Command
  integrate : (artifact_id commit : String) → Command
  set_completion_criteria : List String → Command

-- The result of a method is dropped.
abbrev pub quietly : {A : Type 0} → Op A → Op (Unit {0})
quietly m = m >>= λ _. pure tt

unfoldable pub perform : Orchestrator → Command → Op (Unit {0})
perform o (Command.delegate t w n) = quietly (Assignment.delegate o t w n)
perform o (Command.start t) = Assignment.start t
perform o (Command.submit t a w r f n) = quietly (Assignment.submit o t a w r f n)
perform o (Command.provisional t a w r) = Assignment.record_provisional_result t a w r
perform o (Command.capability t a w r n) = quietly (Assignment.record_capability_request t a w r n)
perform o (Command.validate a k p e v f n) = quietly (Evidence.validate o a k p e v f n)
perform o (Command.review a r p e f n) = quietly (Evidence.review o a r p e f n)
perform o (Command.accept t m r f n) = quietly (Evidence.accept o t m r f n)
perform o (Command.fail t k e n) = quietly (Recovery.fail t k e n)
perform o (Command.fail_assignment t a w k e n) = quietly (Recovery.fail_assignment t a w k e n)
perform o (Command.recover f r a n) = quietly (Recovery.recover o f r a n)
perform o (Command.resume n) = Operator.resume n
perform o (Command.abandon r a) = Operator.abandon r a
perform o (Command.register_input n r) = Workspace.register_input n r
perform o (Command.bind_workspace t w) = Workspace.bind_workspace t w
perform o (Command.replace_workspace t e n r) = Workspace.replace_workspace t e n r
perform o (Command.integrate a k) = Workspace.integrate a k
perform o (Command.set_completion_criteria criteria) = Planning.set_completion_criteria criteria
