-- ===== src/Kernel/Lineage.antt =====
-- `_input_artifact_ids`, `_validate_accepted_artifact` and `_validate_task_inputs` of
-- walter/orchestration.py: the declared inputs of a task, with their whole accepted lineage.
-- The two functions call one another. Here the walk over the declared references takes the
-- validation of one artifact as an argument, and the validation recurs on fuel; the set `visiting`
-- is passed down, because an artifact leaves it on every normal return, and `checked` is threaded.
pub mod Termination
use walter.Prelude.{
  ℕ, zero, suc, String, Bool, true, false, not, ◌&&◌, Option, none, some, List, [], ◌∷◌, ◌++◌, ◌<>◌,
  ◌==◌, elem, last?, length, same_set, if◌then◌else◌, opt_eq,
}
use walter.Prelude.Dict.{lookup, contains}
use walter.Models.{Run, TaskNode, Artifact, ArtifactStatus, status_value, is_accepted}
use walter.Kernel.Monad.{Error, Result, ok, err, bind, refuse, or_raise}

-- `if artifact_id not in inputs: inputs.append(artifact_id)`
abbrev pub add_input : String → List String → List String
add_input id inputs = if elem id inputs then inputs else inputs ++ id ∷ []

abbrev pub is_accepted_artifact : ArtifactStatus → Bool
is_accepted_artifact ArtifactStatus.accepted = true
is_accepted_artifact _ = false

-- What one declared reference resolves to: an artifact, or `none` for a registered plain input.
unfoldable pub resolve : Run → TaskNode → String → Result (Option String)
unfolding status_value
resolve run task value = elim (lookup value run.tasks) [
  | some upstream ↦
      let refused : Error =
        Error.gate_error (
          "Input task is not accepted: " <> value <> " (" <> status_value upstream.status <> ")") in
      elim (last? upstream.artifact_ids) [
        | none ↦ err refused
        | some id ↦ if is_accepted upstream.status then ok (some id) else err refused
      ]
  | none ↦
      if contains value run.artifacts
      then ok (some value)
      else if contains value run.available_inputs && not (elem value task.packet.dependencies)
      then ok none
      else err (Error.gate_error ("Required input is unavailable: " <> value))
]

abbrev pub Inputs : Type 0
Inputs = List String × List String

module _ (validate : String → List String → Result (List String)) (run : Run)
    (task : TaskNode) where
  -- One round of the `for` loop: the inputs and the checked artifacts so far.
  abbrev pub gather_one : Option String → Inputs → Result Inputs
  gather_one none acc = ok acc
  gather_one (some id) (inputs, checked) =
      bind (validate id checked) (λ checked'. ok (add_input id inputs, checked'))

  -- `for value in [*task.packet.dependencies, *task.packet.required_inputs]`
  unfoldable pub gather : List String → Inputs → Result Inputs
  gather [] acc = ok acc
  gather (value ∷ rest) acc =
      bind (resolve run task value) λ found. bind (gather_one found acc) λ acc'. gather rest acc'

abbrev pub references : TaskNode → List String
references task = task.packet.dependencies ++ task.packet.required_inputs

-- The artifact is accepted, listed, and the last one of its accepted task.
unfoldable pub current_accepted : Run → String → Option (Artifact × TaskNode)
current_accepted run id = elim (lookup id run.artifacts) [
  | none ↦ none
  | some artifact ↦ elim (lookup artifact.task_id run.tasks) [
    | none ↦ none
    | some task ↦
        if is_accepted_artifact artifact.status
          && elem id run.accepted_artifacts
          && is_accepted task.status
          && opt_eq (last? task.artifact_ids) (some id)
        then some (artifact, task)
        else none
  ]
]

-- And it belongs to this run.
unfoldable pub canonical : Run → String → Option (Artifact × TaskNode)
unfolding current_accepted
canonical run id = elim (current_accepted run id) [
  | none ↦ none
  | some (artifact, task) ↦ if artifact.run_id == run.id then some (artifact, task) else none
]

unfoldable pub validate_accepted_artifact :
    ℕ → Run → List String → String → List String → Result (List String)
unfolding canonical gather
validate_accepted_artifact zero run visiting id checked = err Error.out_of_fuel
validate_accepted_artifact (suc fuel) run visiting id checked =
    if elem id visiting
    then err (Error.gate_error "Artifact input cycle")
    else if elem id checked
    then ok checked
    else elim (canonical run id) [
      | none ↦ err (Error.gate_error "Input artifact is no longer canonical and accepted")
      | some (artifact, task) ↦
          bind
            (gather (validate_accepted_artifact fuel run (id ∷ visiting)) run task (references task)
              ([], checked))
            λ (inputs, checked').
              if same_set artifact.input_artifact_ids inputs
              then ok (id ∷ checked')
              else err (Error.gate_error "Artifact input provenance does not match declared inputs")
    ]

-- Each nested validation visits one more of the run's artifacts.
abbrev pub lineage_fuel : Run → ℕ
lineage_fuel run = suc (length run.artifacts)

-- `_input_artifact_ids(run, task)`, called with no sets.
unfoldable pub input_artifact_ids : Run → TaskNode → Result (List String)
unfolding gather
input_artifact_ids run task =
    bind
      (gather (validate_accepted_artifact (lineage_fuel run) run []) run task (references task)
        ([], []))
      λ (inputs, _). ok inputs

-- `_validate_task_inputs`
unfoldable pub validate_task_inputs : Run → TaskNode → Result (Unit {0})
validate_task_inputs run task = bind (input_artifact_ids run task) λ inputs.
    elim (last? task.artifact_ids) [
      | none ↦ err (Error.gate_error "Candidate input provenance does not match declared inputs")
      | some id ↦ bind (or_raise (lookup id run.artifacts) (Error.key_error id)) λ artifact.
          refuse (not (same_set artifact.input_artifact_ids inputs))
            (Error.gate_error "Candidate input provenance does not match declared inputs")
    ]
