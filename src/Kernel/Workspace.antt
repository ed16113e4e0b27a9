-- ===== src/Kernel/Workspace.antt =====
-- `register_input`, `bind_workspace`, `replace_workspace` and the body of `record_integration` of
-- walter/orchestration.py.
use Prim.Native.Char.{code}
use walter.Prelude.{
  ℕ, String, Bool, true, false, not, ◌&&◌, ◌||◌, Option, none, some, [], ◌∷◌, ◌==◌, leb, ◌=ℕ=◌, suc,
  last?, opt_eq, is_substantive, is_nonempty, is_given,
}
use walter.Prelude.Dict.{insert, contains}
use walter.Models.{Run, EventData, is_unstarted, is_blocked, is_delegatable, is_developer}
use walter.Models.BlockerReason
use walter.Kernel.Monad.{
  Error, Result, ok, err, or_raise, Op, ◌>>=◌, ◌>>◌, gets, reads, raise_if, modify, put_task,
  put_artifact, task_at, artifact_at, emit,
}
use walter.Kernel.Lineage.{current_accepted}
use walter.Kernel.Readiness.{refresh}
use walter.Kernel.Evidence.{is_candidate}

-- `name in run.available_inputs or name in run.tasks or name in run.artifacts`
abbrev pub is_named : Run → String → Bool
is_named run name =
    contains name run.available_inputs || contains name run.tasks || contains name run.artifacts

-- The mutation before its refresh.
unfoldable pub add_input_reference : (name reference : String) → Op (Unit {0})
add_input_reference name reference = do
  taken ← gets (λ run. is_named run name)
  raise_if (not (is_substantive reference) || taken)
      (Error.gate_error "Input reference must be nonempty and immutable")
  modify (λ run. record run { available_inputs = insert name reference run.available_inputs })
  emit "input.registered"
      (EventData.fields (("name", some name) ∷ ("reference", some reference) ∷ []))

unfoldable pub register_input : (name reference : String) → Op (Unit {0})
register_input name reference = add_input_reference name reference >> refresh

-- The mutation before its refresh.
unfoldable pub grant_workspace : (task_id workspace_id : String) → Op (Unit {0})
grant_workspace task_id workspace_id = do
  task ← reads (task_at task_id)
  raise_if
      (is_given task.workspace_id
        || not (task.attempts =ℕ= 0)
        || not (is_unstarted task.status)
        || not (is_substantive workspace_id))
      (Error.gate_error "Workspace binding must be initial and precede delegation")
  raise_if
      (is_blocked task.status
        && not (opt_eq task.blocker (some BlockerReason.capability_prerequisites_missing)))
      (Error.gate_error "Workspace cannot resolve this blocker")
  put_task task_id (record task { workspace_id = some workspace_id })
  emit "workspace.bound"
      (EventData.fields (("task_id", some task_id) ∷ ("workspace_id", some workspace_id) ∷ []))

unfoldable pub bind_workspace : (task_id workspace_id : String) → Op (Unit {0})
bind_workspace task_id workspace_id = grant_workspace task_id workspace_id >> refresh

-- `task.artifact_ids and run.artifacts[task.artifact_ids[-1]].status == "candidate"`
abbrev pub has_open_candidate : Option String → Run → Result Bool
has_open_candidate none run = ok false
has_open_candidate (some id) run = elim (artifact_at id run) [
  | ok artifact ↦ ok (is_candidate artifact.status)
  | err e ↦ err e
]

unfoldable pub replace_workspace :
    (task_id expected_workspace_id new_workspace_id reason : String) → Op (Unit {0})
replace_workspace task_id expected_workspace_id new_workspace_id reason = do
  task ← reads (task_at task_id)
  raise_if (not (is_developer task.capability))
      (Error.gate_error "Workspace replacement requires a developer sandbox task")
  raise_if (not (is_delegatable task.status) || task.attempts =ℕ= 0)
      (Error.gate_error "Workspace can only be replaced after recovery in a safe retry state")
  raise_if (not (opt_eq task.workspace_id (some expected_workspace_id)))
      (Error.gate_error "Expected old workspace does not match persisted task state")
  raise_if
      (not (is_substantive new_workspace_id)
        || new_workspace_id == expected_workspace_id
        || not (is_substantive reason))
      (Error.gate_error "Replacement workspace and reason must be substantive")
  open_candidate ← reads (has_open_candidate (last? task.artifact_ids))
  raise_if open_candidate
      (Error.gate_error "Current candidate must be rejected through failure recovery first")
  put_task task_id (record task { workspace_id = some new_workspace_id })
  emit "workspace.replaced" (
      EventData.fields (
        ("task_id", some task_id)
        ∷ ("old_workspace_id", task.workspace_id)
        ∷ ("new_workspace_id", some new_workspace_id)
        ∷ ("reason", some reason)
        ∷ []))

-- `c in "0123456789abcdef"` for one character.
abbrev pub is_hex : ℕ → Bool
is_hex c = (leb b'0' c && leb c b'9') || (leb b'a' c && leb c b'f')

unfoldable pub all_hex : String → Bool
all_hex String.[] = true
all_hex (String.◌∷◌ c s) = is_hex (code c) && all_hex s

-- `len(text)`: Python counts characters.
unfoldable pub text_length : String → ℕ
text_length String.[] = 0
text_length (String.◌∷◌ c s) = suc (text_length s)

-- `commit and len(commit) in (40, 64) and all(c in "0123456789abcdef" for c in commit)`
unfoldable pub is_object_id : String → Bool
unfolding all_hex text_length
is_object_id commit =
    is_nonempty commit && (text_length commit =ℕ= 40 || text_length commit =ℕ= 64) && all_hex commit

-- The mutation of `record_integration`. Its guard on the form of the commit, and the early return
-- for a commit that is recorded already, come before the mutation and are in `Session`.
unfoldable pub integrate : (artifact_id commit : String) → Op (Unit {0})
integrate artifact_id commit = do
  (artifact, task) ← reads λ run.
      or_raise (current_accepted run artifact_id)
        (Error.gate_error "Only the canonical accepted workspace artifact can be integrated")
  raise_if (not (is_given artifact.workspace_fingerprint))
      (Error.gate_error "Only the canonical accepted workspace artifact can be integrated")
  raise_if (elim artifact.integrated_commit [ none ↦ false | some _ ↦ true ])
      (Error.gate_error "Artifact is already integrated at a different commit")
  put_artifact artifact_id (record artifact { integrated_commit = some commit })
  emit "artifact.integrated" (
      EventData.fields (
        ("artifact_id", some artifact_id)
        ∷ ("task_id", some task.packet.task_id)
        ∷ ("commit", some commit)
        ∷ []))
