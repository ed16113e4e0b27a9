-- ===== src/Kernel/Lineage/Termination.antt =====
-- That the walk over the lineage of an artifact ends, and how it can fail.
use walter.Prelude.{
  ℕ, zero, suc, ◌+◌, ◌≤◌, String, Bool, true, false, ◌≡◌, refl, Option, none, some, List, [], ◌∷◌,
  elem, if◌then◌else◌, same_set, ◌⊎◌, arith, Bool-cases, inl, inr,
}
use walter.Prelude.Dict.{lookup}
use walter.Prelude.Visiting.{unseen, unseen-length, unseen_drop}
use walter.Models.{Run, TaskNode, Artifact}
use walter.Kernel.Monad.{Error, Result, ok, err, bind}
use walter.Kernel.Lineage.{
  Inputs, resolve, gather, gather_one, current_accepted, canonical, validate_accepted_artifact,
  lineage_fuel, references, input_artifact_ids,
}

-- The computation returns, or raises a `GateError`.
abbrev pub is_gated : {A : Type 0} → Result A → Bool
is_gated (ok a) = true
is_gated (err (Error.gate_error reason)) = true
is_gated (err e) = false

pub gated :
    {A : Type 0} (r : Result A)
    → is_gated r ≡ true
    → ((a : A) × (r ≡ ok a)) ⊎ ((reason : String) × (r ≡ err (Error.gate_error reason)))
gated (ok a) h = inl (a, refl)
gated (err (Error.gate_error reason)) h = inr (reason, refl)
gated (err e) h = absurd (ground arith)

pub bind-is_gated :
    {A B : Type 0} (r : Result A) (f : A → Result B)
    → is_gated r ≡ true
    → ((a : A) → is_gated (f a) ≡ true)
    → is_gated (bind r f) ≡ true
bind-is_gated (ok a) f h k = k a
bind-is_gated (err (Error.gate_error reason)) f h k = refl
bind-is_gated (err e) f h k = ground arith

resolve-is_gated :
    (run : Run) (task : TaskNode) (value : String) → is_gated (resolve run task value) ≡ true
unfolding resolve
resolve-is_gated run task value = ground arith

module _ (validate : String → List String → Result (List String)) (run : Run) (task : TaskNode)
    (h : (id : String) (checked : List String) → is_gated (validate id checked) ≡ true) where
  gather_one-is_gated :
      (found : Option String) (acc : Inputs)
      → is_gated (gather_one validate run task found acc) ≡ true
  gather_one-is_gated none acc = refl
  gather_one-is_gated (some id) (inputs, checked) =
      bind-is_gated (validate id checked) _ (h id checked) (λ _. refl)

  gather-is_gated :
      (values : List String) (acc : Inputs) → is_gated (gather validate run task values acc) ≡ true
  unfolding gather
  gather-is_gated [] acc = refl
  gather-is_gated (value ∷ rest) acc =
      bind-is_gated (resolve run task value) _ (resolve-is_gated run task value) (λ found.
        bind-is_gated (gather_one validate run task found acc) _ (gather_one-is_gated found acc)
          (λ acc'. gather-is_gated rest acc'))

canonical-found :
    (run : Run) (id : String) (artifact : Artifact) (task : TaskNode)
    → canonical run id ≡ some (artifact, task)
    → lookup id run.artifacts ≡ some artifact
unfolding canonical current_accepted
canonical-found run id artifact task h = ground arith

module _ (fuel : ℕ) (run : Run) (visiting : List String) (id : String) (checked : List String) where
  -- The walk of the inputs of one artifact, with the comparison of its provenance.
  walk : Artifact → TaskNode → Result (List String)
  unfolding gather
  walk artifact task =
      bind
        (gather (validate_accepted_artifact fuel run (id ∷ visiting)) run task (references task)
          ([], checked))
        λ (inputs, checked').
          if same_set artifact.input_artifact_ids inputs
          then ok (id ∷ checked')
          else err (Error.gate_error "Artifact input provenance does not match declared inputs")

  found-is_gated :
      (found : Option (Artifact × TaskNode))
      → ((artifact : Artifact) (task : TaskNode)
          → found ≡ some (artifact, task)
          → is_gated (walk artifact task) ≡ true)
      → is_gated (elim found [
        | none ↦ err (Error.gate_error "Input artifact is no longer canonical and accepted")
        | some (artifact, task) ↦ walk artifact task
      ])
        ≡ true
  found-is_gated none h = refl
  found-is_gated (some (artifact, task)) h = h artifact task refl

  walk-is_gated :
      ((other : String) (done : List String)
        → unseen (id ∷ visiting) run.artifacts + 1 ≤ fuel
        → is_gated (validate_accepted_artifact fuel run (id ∷ visiting) other done) ≡ true)
      → unseen visiting run.artifacts + 1 ≤ suc fuel
      → elem id visiting ≡ false
      → (artifact : Artifact) (task : TaskNode) → canonical run id ≡ some (artifact, task)
      → is_gated (walk artifact task) ≡ true
  unfolding walk
  walk-is_gated deeper h fresh artifact task e =
      let drop =
        unseen_drop id visiting run.artifacts artifact (canonical-found run id artifact task e)
          fresh in
      bind-is_gated
        (gather (validate_accepted_artifact fuel run (id ∷ visiting)) run task (references task)
          ([], checked))
        _
        (gather-is_gated (validate_accepted_artifact fuel run (id ∷ visiting)) run task
          (λ other done. deeper other done (omega (arith, drop, h))) (references task)
          ([], checked))
        (λ pair. ground arith)

-- With more fuel than there are artifacts that are not being visited, the walk returns or is gated.
validate-is_gated :
    (fuel : ℕ) (run : Run) (visiting : List String) (id : String) (checked : List String)
    → unseen visiting run.artifacts + 1 ≤ fuel
    → is_gated (validate_accepted_artifact fuel run visiting id checked) ≡ true
unfolding validate_accepted_artifact walk
validate-is_gated zero run visiting id checked h = absurd (omega (arith, h))
validate-is_gated (suc fuel) run visiting id checked h = elim (Bool-cases (elem id visiting)) [
  | inl seen ↦ rw seen refl
  | inr fresh ↦ rw fresh (elim (Bool-cases (elem id checked)) [
    | inl before ↦ rw before refl
    | inr first ↦ rw first (
        found-is_gated fuel run visiting id checked (canonical run id) (
          walk-is_gated fuel run visiting id checked
            (λ other done bound. validate-is_gated fuel run (id ∷ visiting) other done bound) h
            fresh))
  ])
]

-- The inputs of a task are found, or a gate is closed: the fuel is never used up, however the
-- artifacts of the run refer to one another.
pub input_artifact_ids_total :
    (run : Run) (task : TaskNode)
    → ((inputs : List String) × (input_artifact_ids run task ≡ ok inputs))
      ⊎ ((reason : String) × (input_artifact_ids run task ≡ err (Error.gate_error reason)))
unfolding input_artifact_ids
input_artifact_ids_total run task = gated (input_artifact_ids run task) (
    bind-is_gated
      (gather (validate_accepted_artifact (lineage_fuel run) run []) run task (references task)
        ([], []))
      _
      (gather-is_gated (validate_accepted_artifact (lineage_fuel run) run []) run task
        (λ id checked.
          validate-is_gated (lineage_fuel run) run [] id checked
            (omega (arith, unseen-length [] run.artifacts)))
        (references task) ([], []))
      (λ _. refl))
