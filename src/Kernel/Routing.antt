-- ===== src/Kernel/Routing.antt =====
-- Where `recover` of walter/orchestration.py sends a failed task, and that it does so once.
use walter.Prelude.{
  ℕ, String, ◌≡◌, ◌≢◌, ap, ◌∙◌, Bool, true, false, ◌||◌, ◌≤◌, ◌+◌, List, [], ◌∷◌, ◌++◌, any, arith,
  ◌==◌, eq_iff, ◌⊎◌, some,
}
use walter.Prelude.Dict.{Dict, lookup}
use walter.Models.{TaskNode, TaskStatus, FailureClass, WorkerFailure, RecoveryDecision, Run}
use walter.Models.BlockerReason
use walter.Kernel.Monad.{Ctx, ok}
use walter.Kernel.Authority.{Orchestrator}
use walter.Kernel.Recovery.{RecoveryAction, action_value, find_failure, is_recovered, recover}
use walter.Kernel.Evolution.Recovering.{recover-Recovered, record_recovery-eq}

abbrev pub HasAttempts : TaskNode → Type 0
HasAttempts t = t.attempts + 1 ≤ t.max_attempts + t.attempt_baseline

abbrev pub HasRevisions : TaskNode → Type 0
HasRevisions t = t.revisions + 1 ≤ t.max_revisions + t.revision_baseline

-- What the failure says of the task: that it can simply run again, that its worker can correct it,
-- that its worker does not fit, or that the task reaches for what the worker cannot use.
abbrev pub is_transient : FailureClass → Bool
is_transient FailureClass.provider_failure = true
is_transient FailureClass.timeout = true
is_transient FailureClass.stale_base = true
is_transient _ = false

abbrev pub is_correctable : FailureClass → Bool
is_correctable FailureClass.bad_output = true
is_correctable FailureClass.missing_evidence = true
is_correctable _ = false

abbrev pub is_unfit : FailureClass → Bool
is_unfit FailureClass.repeated_bad_output = true
is_unfit FailureClass.constraint_violation = true
is_unfit _ = false

abbrev pub is_out_of_reach : FailureClass → Bool
is_out_of_reach FailureClass.capability_unavailable = true
is_out_of_reach FailureClass.unsupported_capability = true
is_out_of_reach FailureClass.tool_failure = true
is_out_of_reach _ = false

-- When an action is the right one for a failure of class `kind` on task `t`.
abbrev pub IsGranted : FailureClass → TaskNode → RecoveryAction → Type 0
IsGranted kind t RecoveryAction.retry = (is_transient kind ≡ true) × HasAttempts t
IsGranted kind t RecoveryAction.revise =
    (is_correctable kind ≡ true) × HasAttempts t × HasRevisions t
IsGranted kind t RecoveryAction.replace =
    (is_unfit kind ≡ true) ⊎ ((is_correctable kind ≡ true) × HasAttempts t × ¬ (HasRevisions t))
IsGranted kind t RecoveryAction.escalate = is_out_of_reach kind ≡ true
IsGranted kind t RecoveryAction.replan =
    ((is_transient kind || is_correctable kind || is_unfit kind || is_out_of_reach kind) ≡ false)
    ⊎ (((is_transient kind || is_correctable kind) ≡ true) × ¬ (HasAttempts t))

-- Where each action leaves the task.
abbrev pub status_after : RecoveryAction → TaskStatus
status_after RecoveryAction.retry = TaskStatus.ready
status_after RecoveryAction.revise = TaskStatus.revision_required
status_after RecoveryAction.replace = TaskStatus.replaced
status_after RecoveryAction.escalate = TaskStatus.blocked
status_after RecoveryAction.replan = TaskStatus.blocked

-- A revision is counted, nothing else is.
abbrev pub revisions_after : RecoveryAction → ℕ → ℕ
revisions_after RecoveryAction.revise n = n + 1
revisions_after _ n = n

-- What a recovery did: the failure that it found, the task, and the action.
pub record IsRecovered (failure_id : String) (c c' : Ctx) (r : RecoveryDecision) : Type 0 where
  pub failure : WorkerFailure
  pub task : TaskNode
  pub task' : TaskNode
  pub action : RecoveryAction
  pub listed : find_failure failure_id c.run.failures ≡ some failure
  pub found : lookup failure.task_id c.run.tasks ≡ some task
  pub granted : IsGranted failure.classification task action
  pub named : r.decision.action ≡ action_value action
  pub stored : lookup failure.task_id c'.run.tasks ≡ some task'
  pub left_in : task'.status ≡ status_after action
  pub counted : task'.revisions ≡ revisions_after action task.revisions

module _ (key : String) (t : TaskNode) (f : WorkerFailure) (reason : String) (c c' : Ctx) where
  abbrev Rerouted : RecoveryAction → Type 0
  Rerouted action =
      (t' : TaskNode) × (lookup key c'.run.tasks ≡ some t')
      × (t'.status ≡ status_after action)
      × (t'.revisions ≡ revisions_after action t.revisions)

is_recovered-snoc :
    (id : String) (rs : List RecoveryDecision) (r : RecoveryDecision)
    → r.failure_id ≡ id
    → any (λ (x : RecoveryDecision). x.failure_id == id) (rs ++ r ∷ []) ≡ true
is_recovered-snoc id [] r e = ground (arith, eq_iff r.failure_id id)
is_recovered-snoc id (x ∷ xs) r e = ground (arith, is_recovered-snoc id xs r e)

left_false : (a b : Bool) → (a || b) ≡ false → a ≡ false
left_false a b p = ground arith

clash : {b : Bool} → b ≡ true → b ≡ false → ⊥
clash p q = cc

-- A recovery is listed under its failure.
recover-is_recovered :
    (o : Orchestrator) (failure_id reason actor_id new_id : String) (c c' : Ctx)
    (r : RecoveryDecision)
    → recover o failure_id reason actor_id new_id c ≡ ok (r, c')
    → is_recovered c'.run failure_id ≡ true
recover-is_recovered o failure_id reason actor_id new_id c c' r h =
    let x = recover-Recovered o failure_id reason actor_id new_id c c' r h in
    let (made, written) =
      record_recovery-eq o _ failure_id reason _ new_id x.failure x.e c' r x.recorded in
    ap (λ (u : Run). is_recovered u failure_id) written
    ∙ is_recovered-snoc failure_id x.e.run.recoveries r
        (ap (λ (s : RecoveryDecision). s.failure_id) made)

-- In the state that a recovery of a failure leaves, no recovery of that failure succeeds, whatever its
-- reason and its caller.
pub recover_once :
    (o : Orchestrator) (failure_id reason reason' actor_id actor' new_id new' : String)
    (c c' d : Ctx) (r s : RecoveryDecision)
    → recover o failure_id reason actor_id new_id c ≡ ok (r, c')
    → recover o failure_id reason' actor' new' c' ≢ ok (s, d)
recover_once o failure_id reason reason' actor_id actor' new_id new' c c' d r s h again =
    clash (recover-is_recovered o failure_id reason actor_id new_id c c' r h)
      (left_false _ _ (recover-Recovered o failure_id reason' actor' new' c' d s again).unsettled)
