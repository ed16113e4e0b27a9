-- ===== src/Platform/Waiting.antt =====
-- The jobs that `claim` of cavman/platform_store.py may take, said without its tests.
use walter.Prelude.{
  ℕ, suc, ◌≤◌, String, Bool, true, false, ◌&&◌, ◌≡◌, ◌≢◌, refl, ap, subst, ◌∙◌, Option, none, some,
  List, [], ◌∷◌, ◌==◌, eq_refl, eq_iff, opt_eq, any, leb, arith, inl, inr, Bool-cases, Option-cases,
}
use walter.Platform.{Job, JobStatus, ProjectLease, PlatformStore, is_queued, is_running}
use walter.Platform.Jobs
use walter.Platform.Reaping.{IsIn}

-- Nothing keeps the project: each running job belongs to a run of another project or of none, and
-- each lease on it, of a job or of maintenance, has expired.
pub record IsFree (store : PlatformStore) (now : ℕ) (project_id : String) : Type 0 where
  pub no_job :
      (job : Job)
      → IsIn job store.jobs
      → job.status ≡ JobStatus.running
      → Jobs.project_of store.runs job.run_id ≢ some project_id
  pub no_lease :
      (l : ProjectLease)
      → IsIn l store.project_leases
      → l.project_id ≡ project_id
      → suc l.expires ≤ now

-- A job that waits for a worker, of a project that nothing keeps.
pub record IsWaiting (store : PlatformStore) (now : ℕ) (job : Job) : Type 0 where
  pub project_id : String
  pub there : IsIn job store.jobs
  pub queued : job.status ≡ JobStatus.queued
  pub project : Jobs.project_of store.runs job.run_id ≡ some project_id
  pub free : IsFree store now project_id

any-false :
    {A : Type 0} (f : A → Bool) (xs : List A)
    → ((x : A) → IsIn x xs → f x ≡ false)
    → any f xs ≡ false
any-false f [] h = refl
any-false f (x ∷ xs) h = ground (arith, h x (inl refl), any-false f xs (λ y m. h y (inr m)))

any-none :
    {A : Type 0} (f : A → Bool) (xs : List A) (x : A) → any f xs ≡ false → IsIn x xs → f x ≡ false
any-none f [] x h m = absurd m
any-none f (y ∷ xs) x h (inl same) = subst (λ z. f z ≡ false) same (ground arith)
any-none f (y ∷ xs) x h (inr more) = any-none f xs x (ground arith) more

status_queued : (status : JobStatus) → is_queued status ≡ true → status ≡ JobStatus.queued
status_queued status h = ground arith

elsewhere : (slot : Option String) (p : String) → slot ≢ some p → opt_eq slot (some p) ≡ false
elsewhere none p ne = refl
elsewhere (some q) p ne = elim (Bool-cases (q == p)) [
  | inl same ↦ absurd (ne (ap some ((eq_iff q p).0 same)))
  | inr other ↦ other
]

opt_eq-some : (p : String) → opt_eq (some p) (some p) ≡ true
opt_eq-some p = eq_refl p

module _ (store : PlatformStore) (now : ℕ) where
  not_busy : (p : String) → IsFree store now p → Jobs.is_busy store now p ≡ false
  unfolding Jobs.is_busy
  not_busy p free =
      rw
        (
          any-false (Jobs.runs_in store.runs p) store.jobs idle,
          any-false (λ (l : ProjectLease). l.project_id == p && leb now l.expires)
              store.project_leases current,
        )
        refl
    where
      idle : (job : Job) → IsIn job store.jobs → Jobs.runs_in store.runs p job ≡ false
      idle job m = elim (Bool-cases (is_running job.status)) [
        | inr e ↦ ground arith
        | inl e ↦
            rw
              (
                e,
                elsewhere (Jobs.project_of store.runs job.run_id) p
                    (free.no_job job m (ground arith)),
              )
              refl
      ]

      current :
          (l : ProjectLease)
          → IsIn l store.project_leases
          → (l.project_id == p && leb now l.expires) ≡ false
      current l m = elim (Bool-cases (l.project_id == p)) [
        | inr e ↦ rw e refl
        | inl e ↦ let late = free.no_lease l m ((eq_iff l.project_id p).0 e) in ground arith
      ]

  free : (p : String) → Jobs.is_busy store now p ≡ false → IsFree store now p
  unfolding Jobs.is_busy
  free p h = record {
    no_job = λ job m running here.
        let quiet = any-none (Jobs.runs_in store.runs p) store.jobs job (ground arith) m in
        let own : opt_eq (Jobs.project_of store.runs job.run_id) (some p) ≡ true =
          ap (λ slot. opt_eq slot (some p)) here ∙ opt_eq-some p in
        ground arith;
    no_lease = λ l m same.
        let quiet =
          any-none (λ (k : ProjectLease). k.project_id == p && leb now k.expires)
            store.project_leases l (ground arith) m in
        let own = (eq_iff l.project_id p).1 same in ground arith;
  }

  pub IsWaiting-claimable :
      (job : Job) → IsWaiting store now job → Jobs.is_claimable store now job ≡ true
  unfolding Jobs.is_claimable
  IsWaiting-claimable job w =
      let quiet = not_busy w.project_id w.free in rw (w.queued, w.project, quiet) refl

  pub claimable-IsWaiting :
      (job : Job)
      → IsIn job store.jobs
      → Jobs.is_claimable store now job ≡ true
      → IsWaiting store now job
  unfolding Jobs.is_claimable
  claimable-IsWaiting job m h = elim (Option-cases (Jobs.project_of store.runs job.run_id)) [
    | inl e ↦ absurd (ground arith)
    | inr (p, e) ↦ record {
      project_id = p;
      there = m;
      queued = status_queued job.status (ground arith);
      project = e;
      free = free p (ground arith);
    }
  ]
