-- ===== src/Platform/Reaping.antt =====
-- What `reap_expired` of cavman/platform_store.py does to the queue.
use walter.Prelude.{
  ℕ, ◌+◌, ◌≤◌, String, Bool, true, false, not, ◌&&◌, ◌≡◌, refl, sym, subst, List, [], ◌∷◌, ◌++◌,
  eq_refl, All, select, length, ltb, if◌then◌else◌, arith, ◌⊎◌, inl, inr, Bool-cases,
}
use walter.Kernel.Monad.{ok, Result-cases}
use walter.Platform.{Job, PlatformStore, is_running}
use walter.Platform.Jobs
use walter.Platform.Queue.{tally, has_id, IsQueue, update-IsQueue, insert-IsQueue}

abbrev pub IsIn : {A : Type 0} → A → List A → Type 0
IsIn x [] = ⊥
IsIn x (y ∷ ys) = (y ≡ x) ⊎ IsIn x ys

-- The rows of the loop: running jobs of the queue, with different identifiers.
record Rows (rows jobs : List Job) : Type 0 where
  listed : All (λ row. IsIn row jobs × (is_running row.status ≡ true)) rows
  apart : (id : String) → tally (has_id id) rows ≤ 1

IsIn-update :
    (row : Job) (test : Job → Bool) (change : Job → Job) (jobs : List Job)
    → test row ≡ false
    → IsIn row jobs
    → IsIn row (Jobs.update_jobs test change jobs)
unfolding Jobs.update_jobs
IsIn-update row test change [] other m = absurd m
IsIn-update row test change (j ∷ jobs) other (inl same) =
    inl (subst (λ k. (if test k then change k else k) ≡ row) (sym same) (rw other refl))
IsIn-update row test change (j ∷ jobs) other (inr more) =
    inr (IsIn-update row test change jobs other more)

IsIn-append : (row job : Job) (jobs : List Job) → IsIn row jobs → IsIn row (jobs ++ job ∷ [])
IsIn-append row job [] m = absurd m
IsIn-append row job (j ∷ jobs) (inl same) = inl same
IsIn-append row job (j ∷ jobs) (inr more) = inr (IsIn-append row job jobs more)

pub tally-fewer :
    (f test : Job → Bool) (change : Job → Job) (jobs : List Job)
    → ((j : Job) → test j ≡ true → f (change j) ≡ false)
    → tally f (Jobs.update_jobs test change jobs) ≤ tally f jobs
unfolding tally Jobs.update_jobs
tally-fewer f test change [] h = omega arith
tally-fewer f test change (j ∷ jobs) h =
    let more = tally-fewer f test change jobs h in
    elim (Bool-cases (test j)) [
      | inr e ↦ ground (arith, more)
      | inl e ↦ ground (arith, more, h j e)
    ]

-- An update that takes a job out of the test lowers its tally.
tally-drop :
    (row : Job) (f test : Job → Bool) (change : Job → Job) (jobs : List Job)
    → IsIn row jobs
    → f row ≡ true
    → test row ≡ true
    → ((j : Job) → test j ≡ true → f (change j) ≡ false)
    → tally f (Jobs.update_jobs test change jobs) + 1 ≤ tally f jobs
unfolding tally Jobs.update_jobs
tally-drop row f test change [] m passes hit h = absurd m
tally-drop row f test change (j ∷ jobs) (inl same) passes hit h =
    let fewer = tally-fewer f test change jobs h in
    let passes_j = subst (λ k. f k ≡ true) (sym same) passes in
    let hit_j = subst (λ k. test k ≡ true) (sym same) hit in
    ground (arith, fewer, passes_j, hit_j, h j hit_j)
tally-drop row f test change (j ∷ jobs) (inr more) passes hit h =
    let less = tally-drop row f test change jobs more passes hit h in
    elim (Bool-cases (test j)) [
      | inr e ↦ ground (arith, less)
      | inl e ↦ ground (arith, less, h j e)
    ]

select-listed :
    (f : Job → Bool) (jobs : List Job)
    → ((j : Job) → f j ≡ true → is_running j.status ≡ true)
    → All (λ row. IsIn row jobs × (is_running row.status ≡ true)) (select f jobs)
select-listed f jobs h = from jobs (λ j m. m)
  where
    from :
        (part : List Job)
        → ((j : Job) → IsIn j part → IsIn j jobs)
        → All (λ row. IsIn row jobs × (is_running row.status ≡ true)) (select f part)
    from [] own = tt
    from (j ∷ part) own = elim (Bool-cases (f j)) [
      | inl e ↦ rw (e, All) ((own j (inl refl), h j e), from part (λ k m. own k (inr m)))
      | inr e ↦ rw (e, All) (from part (λ k m. own k (inr m)))
    ]

tally-select_fewer : (f g : Job → Bool) (jobs : List Job) → tally f (select g jobs) ≤ tally f jobs
unfolding tally
tally-select_fewer f g [] = omega arith
tally-select_fewer f g (j ∷ jobs) = ground (arith, tally-select_fewer f g jobs)

-- The other rows are about other jobs.
rest_apart :
    (row : Job) (rows : List Job)
    → tally (has_id row.id) (row ∷ rows) ≤ 1
    → All (λ (k : Job). has_id row.id k ≡ false) rows
unfolding tally
rest_apart row rows h = none_left rows (ground (arith, h, eq_refl row.id))
  where
    none_left :
        (ks : List Job)
        → tally (has_id row.id) ks ≤ 0
        → All (λ (k : Job). has_id row.id k ≡ false) ks
    none_left [] z = tt
    none_left (k ∷ ks) z = (ground (arith, z), none_left ks (ground (arith, z)))

closed-IsQueue :
    (now : ℕ) (row : Job) (jobs : List Job)
    → IsQueue jobs
    → IsQueue (Jobs.update_jobs (has_id row.id) (Jobs.reaped_job now) jobs)
closed-IsQueue now row jobs q =
    update-IsQueue (has_id row.id) (Jobs.reaped_job now) jobs (λ j t e. absurd (ground (arith, e)))
      (λ j. (refl, refl)) q

running_active :
    (row : Job) → is_running row.status ≡ true → Jobs.is_active_for row.run_id row ≡ true
running_active row h = ground (arith, h, eq_refl row.run_id)

-- The run of a row that is closed has no work left.
closed_idle :
    (now : ℕ) (row : Job) (jobs : List Job)
    → IsIn row jobs
    → is_running row.status ≡ true
    → IsQueue jobs
    → tally
        (Jobs.is_active_for row.run_id)
        (Jobs.update_jobs (has_id row.id) (Jobs.reaped_job now) jobs)
      ≡ 0
closed_idle now row jobs m h q =
    let less =
      tally-drop row (Jobs.is_active_for row.run_id) (has_id row.id) (Jobs.reaped_job now) jobs m
        (running_active row h) (eq_refl row.id) (λ j t. ground arith) in
    omega (arith, less, q.single row.run_id)

tally-tail :
    (f : Job → Bool) (row : Job) (rows : List Job) → tally f (row ∷ rows) ≤ 1 → tally f rows ≤ 1
unfolding tally
tally-tail f row rows h = ground (arith, h)

module _ (max_recoveries now : ℕ) (new_ids : String → String) where
  reap_row-IsQueue :
      (row : Job) (store store' : PlatformStore) (created : List Job)
      → Jobs.reap_row max_recoveries now new_ids row store ≡ ok (created, store')
      → IsIn row store.jobs
      → is_running row.status ≡ true
      → IsQueue store.jobs
      → IsQueue store'.jobs
        × ((k : Job) → has_id row.id k ≡ false → IsIn k store.jobs → IsIn k store'.jobs)
  unfolding Jobs.reap_row Jobs.insert_job
  reap_row-IsQueue row store store' created e m h q =
      let closed = Jobs.update_jobs (has_id row.id) (Jobs.reaped_job now) store.jobs in
      let good = closed-IsQueue now row store.jobs q in
      elim (Bool-cases (
        ltb (length (Jobs.recoveries_of row.run_id closed)) max_recoveries
        && not row.cancel_requested)) [
          | inr e1 ↦
              let same : closed ≡ store'.jobs = ground arith in
              (
                subst IsQueue same good,
                λ k other n.
                    subst (IsIn k) same
                      (IsIn-update k (has_id row.id) (Jobs.reaped_job now) store.jobs other n),
              )
          | inl e1 ↦
              let next = Jobs.new_job (new_ids row.id) row.run_id "recover" "" now in
              elim (Result-cases (Jobs.insert_job next (record store { jobs = closed }))) [
                | inr (x, e2) ↦ absurd (ground arith)
                | inl (after, e2) ↦
                    let same : after.jobs ≡ store'.jobs = ground arith in
                    let added : closed ++ next ∷ [] ≡ store'.jobs = ground arith in
                    (
                      subst IsQueue same (
                          insert-IsQueue next (record store { jobs = closed }) after e2
                            (closed_idle now row store.jobs m h q) good),
                      λ k other n. subst (IsIn k) added (
                          IsIn-append k next closed (
                            IsIn-update k (has_id row.id) (Jobs.reaped_job now) store.jobs other
                              n)),
                    )
              ]
        ]

  still_listed :
      (row : Job) (rows : List Job) (jobs jobs' : List Job)
      → ((k : Job) → has_id row.id k ≡ false → IsIn k jobs → IsIn k jobs')
      → All (λ (k : Job). has_id row.id k ≡ false) rows
      → All (λ k. IsIn k jobs × (is_running k.status ≡ true)) rows
      → All (λ k. IsIn k jobs' × (is_running k.status ≡ true)) rows
  still_listed row [] jobs jobs' keep other h = tt
  still_listed row (k ∷ rows) jobs jobs' keep other h =
      ((keep k other.0 h.0.0, h.0.1), still_listed row rows jobs jobs' keep other.1 h.1)

  reap_rows-IsQueue :
      (rows : List Job) (store store' : PlatformStore) (created : List Job)
      → Jobs.reap_rows max_recoveries now new_ids rows store ≡ ok (created, store')
      → Rows rows store.jobs
      → IsQueue store.jobs
      → IsQueue store'.jobs
  unfolding Jobs.reap_rows
  reap_rows-IsQueue [] store store' created e r q =
      let same : store ≡ store' = ground arith in
      subst (λ (s : PlatformStore). IsQueue s.jobs) same q
  reap_rows-IsQueue (row ∷ rows) store store' created e r q =
      elim (Result-cases (Jobs.reap_row max_recoveries now new_ids row store)) [
        | inr (x, e1) ↦ absurd (ground arith)
        | inl ((first, s1), e1) ↦
            elim (Result-cases (Jobs.reap_rows max_recoveries now new_ids rows s1)) [
              | inr (x, e2) ↦ absurd (ground arith)
              | inl ((others, s2), e2) ↦
                  let (good, keep) =
                    reap_row-IsQueue row store s1 first e1 r.listed.0.0 r.listed.0.1 q in
                  let other = rest_apart row rows (r.apart row.id) in
                  let same : s2 ≡ store' = ground arith in
                  subst (λ (s : PlatformStore). IsQueue s.jobs) same
                    (reap_rows-IsQueue rows s1 s2 others e2
                      (record {
                        listed = still_listed row rows store.jobs s1.jobs keep other r.listed.1;
                        apart = λ id. fewer_rows id (r.apart id);
                      })
                      good)
            ]
      ]
    where
      fewer_rows : (id : String) → tally (has_id id) (row ∷ rows) ≤ 1 → tally (has_id id) rows ≤ 1
      fewer_rows id h = tally-tail (has_id id) row rows h

-- The recovery of expired jobs keeps the queue.
pub reap_expired-IsQueue :
    (max_recoveries now : ℕ) (new_ids : String → String) (store store' : PlatformStore)
    (created : List Job)
    → Jobs.reap_expired max_recoveries now new_ids store ≡ ok (created, store')
    → IsQueue store.jobs
    → IsQueue store'.jobs
unfolding Jobs.reap_expired
reap_expired-IsQueue max_recoveries now new_ids store store' created e q =
    reap_rows-IsQueue max_recoveries now new_ids (select (Jobs.is_expired now) store.jobs) store
      store' created e
      (record {
        listed = select-listed (Jobs.is_expired now) store.jobs (λ j h. ground (arith, h));
        apart = λ id.
            let fewer = tally-select_fewer (has_id id) (Jobs.is_expired now) store.jobs in
            omega (arith, fewer, q.distinct id);
      })
      q
