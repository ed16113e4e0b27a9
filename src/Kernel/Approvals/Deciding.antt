-- ===== src/Kernel/Approvals/Deciding.antt =====
-- What `_approved` and `decide_approval` of walter/orchestration.py guarantee.
use walter.Prelude.{
  String, Bool, true, false, ◌&&◌, ◌≡◌, ap, subst, ◌∙◌, some, List, [], ◌∷◌, eq_iff, is_nonempty,
  if◌then◌else◌, arith, inl, inr, Bool-cases, Option-cases,
}
use walter.Prelude.Dict.{lookup, insert, keys, contains, lookup-insert_self}
use walter.Models.{
  Run, ApprovalRequest, ApprovalDecision, ApprovalStatus, Fields, is_approved, is_pending,
}
use walter.Kernel.Monad.{Error, Ctx, Op, ok, err, pure, gets, emit, ◌>>=◌, ◌>>◌}
use walter.Kernel.Readiness.{refresh}
use walter.Kernel.Authority.{Orchestrator}
use walter.Kernel.Approvals.{is_exact, approved}
use walter.Kernel.Approvals.Gates.{notify_task, notify_tasks, record_decision, decide_approval}
use walter.Kernel.Evolution.Frames.{
  Leaves, leaving, then_split, then-Leaves, pure-Leaves, put_task-Leaves, beside_tasks,
  refresh-Leaves,
}

-- A human approved exactly this action with exactly this scope.
pub record IsGranted (o : Orchestrator) (run : Run) (approval_id action : String) (scope : Fields)
    : Type 0 where
  pub request : ApprovalRequest
  pub decision : ApprovalDecision
  pub requested : lookup approval_id run.approvals ≡ some request
  pub decided : lookup approval_id run.approval_decisions ≡ some decision
  pub current : is_approved request.status ≡ true
  pub human_yes : decision.approved ≡ true
  pub same_action : request.action ≡ action
  pub same_scope : request.scope_json ≡ o.dumps scope
  pub same_digest : request.scope_digest ≡ o.sha256 (o.dumps scope)

pub approved-IsGranted :
    (o : Orchestrator) (run : Run) (approval_id action : String) (scope : Fields)
    → approved o run approval_id action scope ≡ ok tt
    → IsGranted o run approval_id action scope
unfolding approved
approved-IsGranted o run approval_id action scope e =
    elim (Option-cases (lookup approval_id run.approvals)) [
      | inl e1 ↦ absurd (ground arith)
      | inr (request, e1) ↦ elim (Option-cases (lookup approval_id run.approval_decisions)) [
        | inl e2 ↦ absurd (ground arith)
        | inr (decision, e2) ↦
            let grant = granted request decision e1 e2 in
            record {
              request = request;
              decision = decision;
              requested = e1;
              decided = e2;
              current = ground arith;
              human_yes = ground arith;
              same_action = (eq_iff _ _).0 (ground arith);
              same_scope = (eq_iff _ _).0 (ground arith);
              same_digest = (eq_iff _ _).0 (ground arith);
            }
      ]
    ]
  where
    granted :
        (request : ApprovalRequest) (decision : ApprovalDecision)
        → lookup approval_id run.approvals ≡ some request
        → lookup approval_id run.approval_decisions ≡ some decision
        → (is_approved request.status && decision.approved && is_exact o request action scope)
          ≡ true
    granted request decision e1 e2 = ground arith

notify_task-Leaves :
    (approval_id : String) (verdict : Bool) (key : String)
    → Leaves beside_tasks (notify_task approval_id verdict key)
unfolding notify_task
notify_task-Leaves approval_id verdict key = search (leaving, put_task-Leaves) depth 40

notify_tasks-Leaves :
    (approval_id : String) (verdict : Bool) (slots : List String)
    → Leaves beside_tasks (notify_tasks approval_id verdict slots)
unfolding notify_tasks
notify_tasks-Leaves approval_id verdict [] = pure-Leaves tt
notify_tasks-Leaves approval_id verdict (key ∷ slots) =
    then-Leaves (notify_task-Leaves approval_id verdict key)
      λ _. notify_tasks-Leaves approval_id verdict slots

-- What a decision needed and left.
pub record Decided (c c' : Ctx) (approval_id : String) (verdict : Bool) (human_id reason : String)
    (decision : ApprovalDecision) : Type 0 where
  pub request : ApprovalRequest
  pub requested : lookup approval_id c.run.approvals ≡ some request
  pub pending : is_pending request.status ≡ true
  pub undecided : contains approval_id c.run.approval_decisions ≡ false
  pub human : is_nonempty human_id ≡ true
  pub reasoned : is_nonempty reason ≡ true
  pub says : decision.approved ≡ verdict
  pub recorded : c'.run.approval_decisions ≡ insert approval_id decision c.run.approval_decisions
  pub updated :
      c'.run.approvals
      ≡ insert approval_id
          (record request {
            status = if verdict then ApprovalStatus.approved else ApprovalStatus.rejected;
          })
          c.run.approvals

record_decision-Decided :
    (approval_id : String) (verdict : Bool) (human_id reason : String) (c c' : Ctx)
    (decision : ApprovalDecision)
    → record_decision approval_id verdict human_id reason c ≡ ok (decision, c')
    → Decided c c' approval_id verdict human_id reason decision
unfolding record_decision emit
record_decision-Decided approval_id verdict human_id reason c c' decision e =
    elim (Option-cases (lookup approval_id c.run.approvals)) [
      | inl e1 ↦ absurd (ground arith)
      | inr (request, e1) ↦ record {
        request = request;
        requested = e1;
        pending = ground arith;
        undecided = ground arith;
        human = ground arith;
        reasoned = ground arith;
        says = ground arith;
        recorded = ground arith;
        updated = ground arith;
      }
    ]

-- A decision that is recorded stops every other one.
undecidable :
    (approval_id : String) (verdict : Bool) (human_id reason : String) (c : Ctx)
    (decision : ApprovalDecision)
    → lookup approval_id c.run.approval_decisions ≡ some decision
    → decide_approval approval_id verdict human_id reason c
      ≡ err (Error.gate_error "Approval missing or already decided")
unfolding decide_approval record_decision
undecidable approval_id verdict human_id reason c decision stored =
    elim (Option-cases (lookup approval_id c.run.approvals)) [
      | inl e1 ↦ ground arith
      | inr (request, e1) ↦ elim (Bool-cases (is_pending request.status)) [
        | inl e2 ↦ ground arith
        | inr e2 ↦ ground arith
      ]
    ]

-- What `decide_approval` does with a recorded decision.
abbrev announce : (approval_id : String) → (verdict : Bool) → ApprovalDecision → Op ApprovalDecision
announce approval_id verdict decision = gets (λ run. keys run.tasks) >>= λ slots.
    notify_tasks approval_id verdict slots >> (refresh >> pure decision)

announce-Leaves :
    (approval_id : String) (verdict : Bool) (decision : ApprovalDecision)
    → Leaves beside_tasks (announce approval_id verdict decision)
announce-Leaves approval_id verdict decision =
    search (leaving, notify_tasks-Leaves, refresh-Leaves) depth 40

announce-same :
    (approval_id : String) (verdict : Bool) (decision decision' : ApprovalDecision) (c c' : Ctx)
    → announce approval_id verdict decision c ≡ ok (decision', c')
    → decision ≡ decision'
announce-same approval_id verdict decision decision' c c' e =
    let (_, d, _, e2) =
      then_split (notify_tasks approval_id verdict (keys c.run.tasks))
        (λ _. refresh >> pure decision) c c' decision' e in
    let (_, d', _, e3) = then_split refresh (λ _. pure decision) d c' decision' e2 in
    ground (arith, e3)

-- A decision that is made is the first one of a pending request; it is recorded as the human gave
-- it, no other decision and no other request changes, and no later decision of the request is
-- possible in the state that it leaves.
pub decide_approval-once :
    (approval_id : String) (verdict : Bool) (human_id reason : String) (c c' : Ctx)
    (decision : ApprovalDecision)
    → decide_approval approval_id verdict human_id reason c ≡ ok (decision, c')
    → Decided c c' approval_id verdict human_id reason decision
      × ((v : Bool) (h r : String)
          → decide_approval approval_id v h r c'
            ≡ err (Error.gate_error "Approval missing or already decided"))
unfolding decide_approval
decide_approval-once approval_id verdict human_id reason c c' decision e =
    let (first, d, e1, e2) =
      then_split (record_decision approval_id verdict human_id reason)
        (announce approval_id verdict) c c' decision e in
    let same = announce-same approval_id verdict first decision d c' e2 in
    let made =
      subst (Decided c d approval_id verdict human_id reason) same
        (record_decision-Decided approval_id verdict human_id reason c d first e1) in
    let left = (announce-Leaves approval_id verdict first).leaves d c' decision e2 in
    let stored = ap (λ (run : Run). run.approval_decisions) left ∙ made.recorded in
    (
      record {
        request = made.request;
        requested = made.requested;
        pending = made.pending;
        undecided = made.undecided;
        human = made.human;
        reasoned = made.reasoned;
        says = made.says;
        recorded = stored;
        updated = ap (λ (run : Run). run.approvals) left ∙ made.updated;
      },
      λ v h r. undecidable approval_id v h r c' decision (
          ap (lookup approval_id) stored
          ∙ lookup-insert_self approval_id decision c.run.approval_decisions),
    )
