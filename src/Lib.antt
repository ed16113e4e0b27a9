-- ===== src/Lib.antt =====
-- Walter: a kernel that keeps the state of runs whose tasks are delegated to workers, checked,
-- reviewed, accepted or recovered by one configured Manager, over a store of snapshots and events.
--
-- The parts, from the repository's root, and the files that model them:
--   src/walter/models.py and src/walter/contracts.py: Models. The records and enumerations with the
--     source's fields. Time stamps, event identifiers and texts that only display something
--     (context, consequences) are left out. A dictionary is an association list with the order of
--     insertion (Prelude/Dict).
--   src/walter/orchestration.py: Kernel, Session, Commands. The body of a mutation,
--     `operation(run, events)`, is a function from a run and its pending events to a result or an
--     error (Kernel/Monad); an error drops both. Transitions has TRANSITIONS and `_transition`;
--     Lineage `_input_artifact_ids`, `_validate_accepted_artifact` and `_validate_task_inputs`;
--     Readiness `_readiness_blocker` and `_refresh`; Assignment `delegate`, `start`, `submit` and
--     the provisional results; Evidence `_candidate`, `validate`, `review` and `accept`; Recovery
--     `_fail`, `fail`, `fail_assignment` and `recover`; Operator `resume` and `abandon`; Workspace
--     `register_input`, `bind_workspace`, `replace_workspace` and `record_integration`; Planning
--     `set_completion_criteria`, `add_tasks` and `_graph`; Approvals `request_approval`,
--     `_approved`, `gate_task`, `recover_legacy_approval_gate` and `decide_approval`; Capabilities
--     the escalation of a capability, from its request to `change_capability`; Replanning
--     `_replan_defects`, `_replan_affected`, `_replan_materiality`, `propose_replan` and
--     `apply_replan`; Completion `complete`. Session has `_mutate`, `create_run` and
--     `record_integration` over the store, and the methods that read a stored run. Commands gathers
--     the mutations that work on existing tasks in one type of requests, Commands/Amendments those
--     that change what a run is in another, and Commands/History runs sequences of both.
--   src/walter/store.py: Store. The SQL tables are lists of rows, a snapshot is the run that it
--     encodes, and a transaction commits the whole new store or leaves the old one.
--   src/walter/usage.py: Usage. `UsageBudget.check`.
--   src/cavman/platform_store.py: Platform. The tables of the job queue are lists of rows; Jobs has
--     the operations on jobs and Limits the leases of projects and the rate limit. A transaction is
--     one step.
--
-- Choices. `run.decisions` keeps of each decision the fields of `Decision`, which are those that the
-- declared type of its list gives a snapshot. `uid()` is an argument of each operation; SHA-256 is a function, a field of
-- Orchestrator, of which only equality of results is used. A task object is written back into the
-- slot that it was read from. The messages of errors are kept where they flow into the state (the
-- readiness of a task). Capability and recovery classes that a table of the source does not list
-- raise. A parameter `run_id` of an operation is the identifier of the loaded run, since `load`
-- returns no other. `not strip()` is the test that a text has a character that is no white space.
--
-- The scope of an approval is a JSON value (Models/Scopes) and `json.dumps` a function, a field of
-- Orchestrator. The display field `target` of an approval is left out. A set of keys is a list
-- without repetition; the affected tasks of a replan are taken in the order of discovery. The
-- message of `complete` about evidence of the wrong shape is shortened.
--
-- The checks that a method makes before it opens its transaction (`accept`, `recover`, `abandon`)
-- come first in its body here.
--
-- Fuel. `validate_accepted_artifact` recurs on fuel. Each nested call adds an artifact of the run
-- to those it is visiting, so one more than the number of artifacts is given.
-- `visit` adds a task of the run to those it is visiting, and a round of `_replan_affected` that is
-- not the last adds a task to the affected ones, so one more than the number of tasks is given.
-- Kernel/Lineage/Termination counts the artifacts that are not being visited, which each nested
-- call makes fewer, Kernel/Planning/Graph/Total and Kernel/Replanning/Spreading the tasks. The text
-- of a number (Prelude/Text) has one more unit of fuel than the number. The other loops run over
-- lists.
--
-- Not modelled: JSON encoding, pruning of unknown fields and migration of snapshots, SQL locks, the
-- recursion limit of Python, usage records, the agent runtime, sandboxes, the command line, the rest
-- of the web service in src/cavman, and the front end.
pub mod Prelude
pub mod Models
pub mod Kernel
pub mod Store
pub mod Session
pub mod Commands
pub mod Platform
pub mod Usage
pub mod Tests
