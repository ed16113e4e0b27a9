-- ===== src/Kernel/Acceptance.antt =====
-- What `accept`, `validate` and `review` of walter/orchestration.py guarantee of the evidence.
use walter.Prelude.{
  String, ◌≡◌, refl, sym, ap, subst, ◌∙◌, Bool, true, false, not, ◌||◌, ◌&&◌, ◌⊎◌, inl, inr, Option,
  none, some, List, [], ◌∷◌, ◌++◌, map, arith, ◌==◌, eq_iff, any, elem, is_subset, last?, All,
  Bool-cases,
}
use walter.Prelude.Dict.{lookup, lookup-insert_self}
use walter.Models.{
  TaskNode, TaskStatus, Artifact, ArtifactStatus, ArtifactValidation, Review, AcceptanceDecision,
}
use walter.Kernel.Monad.{Error, Ctx, ok, bind, refuse, emit, Result-cases}
use walter.Kernel.Authority.{Orchestrator, is_involved}
use walter.Kernel.Evidence.{
  is_candidate, principals, evidence_is_stale, checks_missed, needs_review, last_review_passed,
  evidence_gates, candidate, validate, review, accept,
}
use walter.Kernel.Evolution.Reviewing.{candidate-Examined, accept-Accepted}

-- The check was run on these bytes, and passed.
abbrev pub PassedOn : (digest check : String) → List ArtifactValidation → Type 0
PassedOn digest check [] = ⊥
PassedOn digest check (v ∷ vs) =
    ((v.check ≡ check) × (v.passed ≡ true) × (v.content_digest ≡ digest)) ⊎ PassedOn digest check vs

-- The evidence for an artifact: nothing recorded failed or is about other bytes, every required
-- check passed on these bytes, a review that is due passed last, and the Manager gave none of it.
pub record IsBacked (o : Orchestrator) (task : TaskNode) (artifact : Artifact) : Type 0 where
  pub intact : o.sha256 artifact.content ≡ artifact.content_digest
  pub validated :
      All
        (λ (v : ArtifactValidation).
          (v.passed ≡ true) × (v.content_digest ≡ artifact.content_digest))
        artifact.validations
  pub reviewed : All (λ (r : Review). r.content_digest ≡ artifact.content_digest) artifact.reviews
  pub checked :
      All
        (λ check. PassedOn artifact.content_digest check artifact.validations)
        task.required_checks
  pub approved :
      (needs_review task ≡ false)
      ⊎ ((r : Review) × (last? artifact.reviews ≡ some r) × (r.passed ≡ true))
  pub independent : elem o.manager_id (principals artifact task) ≡ false

validations-All :
    (digest : String) (vs : List ArtifactValidation)
    → any (λ (v : ArtifactValidation). not v.passed) vs ≡ false
    → any (λ (v : ArtifactValidation). not (v.content_digest == digest)) vs ≡ false
    → All (λ (v : ArtifactValidation). (v.passed ≡ true) × (v.content_digest ≡ digest)) vs
validations-All digest [] p q = tt
validations-All digest (v ∷ vs) p q = (
  (ground arith, ground (arith, eq_iff v.content_digest digest)),
  validations-All digest vs (ground arith) (ground arith),
)

reviews-All :
    (digest : String) (rs : List Review)
    → any (λ (r : Review). not (r.content_digest == digest)) rs ≡ false
    → All (λ (r : Review). r.content_digest ≡ digest) rs
reviews-All digest [] q = tt
reviews-All digest (r ∷ rs) q =
    (ground (arith, eq_iff r.content_digest digest), reviews-All digest rs (ground arith))

PassedOn-elem :
    (digest check : String) (vs : List ArtifactValidation)
    → All (λ (v : ArtifactValidation). (v.passed ≡ true) × (v.content_digest ≡ digest)) vs
    → elem check (map (λ (v : ArtifactValidation). v.check) vs) ≡ true
    → PassedOn digest check vs
PassedOn-elem digest check [] h e = cc
PassedOn-elem digest check (v ∷ vs) h e = elim (Bool-cases (v.check == check)) [
  | inl same ↦ inl ((eq_iff _ _).0 same, h.0.0, h.0.1)
  | inr other ↦ inr (PassedOn-elem digest check vs h.1 (ground arith))
]

PassedOn-subset :
    (digest : String) (checks : List String) (vs : List ArtifactValidation)
    → All (λ (v : ArtifactValidation). (v.passed ≡ true) × (v.content_digest ≡ digest)) vs
    → is_subset checks (map (λ (v : ArtifactValidation). v.check) vs) ≡ true
    → All (λ check. PassedOn digest check vs) checks
PassedOn-subset digest [] vs h e = tt
PassedOn-subset digest (check ∷ checks) vs h e = (
  PassedOn-elem digest check vs h (ground arith),
  PassedOn-subset digest checks vs h (ground arith),
)

review_passed :
    (last : Option Review)
    → last_review_passed last ≡ true
    → (r : Review) × (last ≡ some r) × (r.passed ≡ true)
review_passed none h = cc
review_passed (some r) h = (r, refl, h)

is_candidate-eq : (s : ArtifactStatus) → is_candidate s ≡ true → s ≡ ArtifactStatus.candidate
is_candidate-eq s h = ground arith

-- What the evidence gates let through.
record Passed (o : Orchestrator) (artifact : Artifact) (task : TaskNode) : Type 0 where
  independent : elem o.manager_id (principals artifact task) ≡ false
  fresh : evidence_is_stale artifact ≡ false
  met : checks_missed artifact task ≡ false
  approved : needs_review task ≡ true → last_review_passed (last? artifact.reviews) ≡ true

five_gates :
    (a b c d e : Bool) (p q r s t : Error)
    → bind
        (refuse a p)
        (λ _. bind (refuse b q) (λ _. bind (refuse c r) (λ _. bind (refuse d s) (λ _. refuse e t))))
      ≡ ok tt
    → (a ≡ false) × (b ≡ false) × (c ≡ false) × (d ≡ false)
five_gates a b c d e p q r s t h = (ground arith, ground arith, ground arith, ground arith)

both : {a b : Bool} → (a && not b) ≡ false → a ≡ true → b ≡ true
both p q = ground arith

evidence_gates-Passed :
    (o : Orchestrator) (artifact : Artifact) (task : TaskNode)
    → evidence_gates o artifact task ≡ ok tt
    → Passed o artifact task
unfolding evidence_gates
evidence_gates-Passed o artifact task h =
    let (a, b, c, d) = five_gates _ _ _ _ _ _ _ _ _ _ h in
    record { independent = a; fresh = b; met = c; approved = both d }

neither : {a b : Bool} → (a || not b) ≡ false → (a ≡ false) × (b ≡ true)
neither h = (ground arith, ground arith)

none_of : {a b : Bool} → (a || b) ≡ false → (a ≡ false) × (b ≡ false)
none_of h = (ground arith, ground arith)

-- The status of the task plays no part in the evidence.
IsBacked-restated :
    (o : Orchestrator) (t : TaskNode) (status : TaskStatus) (artifact : Artifact)
    → IsBacked o (record t { status = status }) artifact
    → IsBacked o t artifact
IsBacked-restated o t status artifact b = record {
  intact = b.intact;
  validated = b.validated;
  reviewed = b.reviewed;
  checked = b.checked;
  approved = b.approved;
  independent = b.independent;
}

gates-IsBacked :
    (o : Orchestrator) (task : TaskNode) (artifact : Artifact)
    → o.sha256 artifact.content ≡ artifact.content_digest
    → evidence_gates o artifact task ≡ ok tt
    → IsBacked o task artifact
gates-IsBacked o task artifact same_content h =
    let gates = evidence_gates-Passed o artifact task h in
    let (no_failure, all_run) = neither gates.met in
    let (same_bytes, same_reviews) = none_of gates.fresh in
    let valid =
      validations-All artifact.content_digest artifact.validations no_failure same_bytes in
    record {
      intact = same_content;
      validated = valid;
      reviewed = reviews-All artifact.content_digest artifact.reviews same_reviews;
      checked =
          PassedOn-subset artifact.content_digest task.required_checks artifact.validations valid
            all_run;
      approved = elim (Bool-cases (needs_review task)) [
        | inl due ↦ inr (review_passed (last? artifact.reviews) (gates.approved due))
        | inr free ↦ inl free
      ];
      independent = gates.independent;
    }

-- If `accept` succeeds for a task name, the named task's last artifact is a stored candidate. The
-- task that this candidate belongs to, as stored before the request, has it as its last artifact.
-- The content of the candidate has the recorded digest; every validation passed on that digest,
-- every review is about it, every required check of the task is among the validations, the last
-- review passed if the task needs one, and the Manager is neither worker, validator nor reviewer.
pub accept-IsBacked :
    (o : Orchestrator) (named : String) (claimed : Option String) (reason : String)
    (observed : Option String) (new_id : String) (c c' : Ctx) (a : AcceptanceDecision)
    → accept o named claimed reason observed new_id c ≡ ok (a, c')
    → (named_task : TaskNode) × (slot : String) × (artifact : Artifact) × (task : TaskNode)
      × (lookup named c.run.tasks ≡ some named_task)
      × (last? named_task.artifact_ids ≡ some slot)
      × (lookup slot c.run.artifacts ≡ some artifact)
      × (artifact.status ≡ ArtifactStatus.candidate)
      × (lookup artifact.task_id c.run.tasks ≡ some task)
      × (last? task.artifact_ids ≡ some slot)
      × IsBacked o task artifact
accept-IsBacked o named claimed reason observed new_id c c' a h =
    let x = accept-Accepted o named claimed reason observed new_id c c' a h in
    let ex = x.examined in
    (
      x.named_task,
      x.slot,
      x.artifact,
      ex.before,
      x.named_found,
      x.named_slot,
      ex.found,
      is_candidate-eq x.artifact.status ex.is_open,
      ex.stood,
      sym (ap (λ (t : TaskNode). last? t.artifact_ids) ex.same_task) ∙ ex.latest,
      IsBacked-restated o ex.before x.task.status x.artifact (
          subst (λ t. IsBacked o t x.artifact) ex.same_task
            (gates-IsBacked o x.task x.artifact ex.intact x.evidence)),
    )

-- A validation that is recorded stands at the end of its candidate's list, is about the bytes of
-- that candidate, and comes neither from the Manager nor from a worker of the task.
pub validate_independent :
    (o : Orchestrator) (id check : String) (passed : Bool) (evidence validator_id : String)
    (observed : Option String) (new_id : String) (c c' : Ctx) (v : ArtifactValidation)
    → validate o id check passed evidence validator_id observed new_id c ≡ ok (v, c')
    → (artifact : Artifact) × (task : TaskNode) × (lookup id c.run.artifacts ≡ some artifact)
      × (lookup id c'.run.artifacts
          ≡ some (record artifact { validations = artifact.validations ++ v ∷ [] }))
      × (v.content_digest ≡ o.sha256 artifact.content)
      × (v.passed ≡ passed)
      × (lookup artifact.task_id c'.run.tasks ≡ some task)
      × (is_involved o validator_id task ≡ false)
unfolding validate emit
validate_independent o id check passed evidence validator_id observed new_id c c' v h =
    elim (Result-cases (candidate o id observed c)) [
      | inr (_, e) ↦ absurd (ground arith)
      | inl (((x, t), d), e) ↦
          let ex = candidate-Examined o id observed c x t d e in
          (
            x,
            t,
            ex.found,
            ground (
              arith,
              lookup-insert_self id (record x { validations = x.validations ++ v ∷ [] })
                  d.run.artifacts,
            ),
            ground (arith, ex.intact),
            ground arith,
            ground (arith, ex.current),
            ground arith,
          )
    ]

-- A review that is recorded stands at the end of its candidate's list, is about the bytes of that
-- candidate, and comes neither from the Manager nor from a worker of the task.
pub review_independent :
    (o : Orchestrator) (id reviewer_id : String) (passed : Bool) (evidence : String)
    (observed : Option String) (new_id : String) (c c' : Ctx) (r : Review)
    → review o id reviewer_id passed evidence observed new_id c ≡ ok (r, c')
    → (artifact : Artifact) × (task : TaskNode) × (lookup id c.run.artifacts ≡ some artifact)
      × (lookup id c'.run.artifacts
          ≡ some (record artifact { reviews = artifact.reviews ++ r ∷ [] }))
      × (r.content_digest ≡ o.sha256 artifact.content)
      × (r.passed ≡ passed)
      × (lookup artifact.task_id c'.run.tasks ≡ some task)
      × (is_involved o reviewer_id task ≡ false)
unfolding review emit
review_independent o id reviewer_id passed evidence observed new_id c c' r h =
    elim (Result-cases (candidate o id observed c)) [
      | inr (_, e) ↦ absurd (ground arith)
      | inl (((x, t), d), e) ↦
          let ex = candidate-Examined o id observed c x t d e in
          (
            x,
            t,
            ex.found,
            ground (
              arith,
              lookup-insert_self id (record x { reviews = x.reviews ++ r ∷ [] }) d.run.artifacts,
            ),
            ground (arith, ex.intact),
            ground arith,
            ground (arith, ex.current),
            ground arith,
          )
    ]
