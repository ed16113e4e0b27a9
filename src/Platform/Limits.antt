-- ===== src/Platform/Limits.antt =====
-- `acquire_project`, `release_project`, `consume_rate` and `prune_rate_events` of
-- cavman/platform_store.py.
use walter.Prelude.{
  ℕ, zero, suc, ◌+◌, ◌-◌, ◌≤◌, String, Bool, true, false, not, ◌&&◌, ◌||◌, ◌≡◌, refl, ap, subst,
  ◌∙◌, Option, none, some, List, [], ◌∷◌, ◌++◌, ◌==◌, map, any, select, length, leb, ltb,
  if◌then◌else◌, arith, inl, inr, Bool-cases,
}
use walter.Kernel.Monad.{Error, Result, ok, err, Result-cases}
use walter.Platform.{ProjectLease, RateEvent, PlatformStore}
use walter.Platform.Jobs.{runs_in}

-- The lease of a project, which is its primary key.
unfoldable pub lease_of : (project_id : String) → List ProjectLease → Option ProjectLease
lease_of project_id [] = none
lease_of project_id (l ∷ rest) =
    if l.project_id == project_id then some l else lease_of project_id rest

-- `ON CONFLICT(project_id) DO UPDATE`
unfoldable pub put_lease : ProjectLease → List ProjectLease → List ProjectLease
put_lease lease [] = lease ∷ []
put_lease lease (l ∷ rest) =
    if l.project_id == lease.project_id then lease ∷ rest else l ∷ put_lease lease rest

-- `lease is not None and lease[0] != holder and lease[1] >= now`
abbrev pub is_taken : (holder : String) → (now : ℕ) → Option ProjectLease → Bool
is_taken holder now none = false
is_taken holder now (some l) = not (l.holder == holder) && leb now l.expires

unfoldable pub acquire_project :
    (project_id holder : String) → (seconds now : ℕ) → PlatformStore → Bool × PlatformStore
acquire_project project_id holder seconds now store =
    if any (runs_in store.runs project_id) store.jobs
      || is_taken holder now (lease_of project_id store.project_leases)
    then (false, store)
    else (
      true,
      record store {
        project_leases =
            put_lease (record { project_id = project_id; holder = holder; expires = now + seconds })
              store.project_leases;
      },
    )

unfoldable pub release_project : (project_id holder : String) → PlatformStore → PlatformStore
release_project project_id holder store = record store {
  project_leases =
      select (λ (l : ProjectLease). not (l.project_id == project_id && l.holder == holder))
        store.project_leases;
}

abbrev pub is_use : (owner_id action : String) → RateEvent → Bool
is_use owner_id action event = event.owner_id == owner_id && event.action == action

insert_time : ℕ → List ℕ → List ℕ
insert_time t [] = t ∷ []
insert_time t (u ∷ rest) = if leb t u then t ∷ u ∷ rest else u ∷ insert_time t rest

-- `ORDER BY at`
unfoldable pub sorted_times : List ℕ → List ℕ
unfolding insert_time
sorted_times [] = []
sorted_times (t ∷ rest) = insert_time t (sorted_times rest)

-- `xs[n]`
unfoldable pub time_at : ℕ → List ℕ → Result ℕ
time_at n [] = err Error.index_error
time_at zero (t ∷ rest) = ok t
time_at (suc n) (t ∷ rest) = time_at n rest

-- `max(1.0, t)`
abbrev pub at_least_one : ℕ → ℕ
at_least_one t = if leb t 1 then 1 else t

abbrev pub is_past : (owner_id action : String) → (window now : ℕ) → RateEvent → Bool
is_past owner_id action window now event =
    is_use owner_id action event && ltb (event.at + window) now

-- The uses that are left in the window, and the seconds to wait, where there are too many.
unfoldable pub consume_rate :
    (owner_id action : String)
    → (limit window now : ℕ) → PlatformStore
    → Result (Option ℕ × PlatformStore)
consume_rate owner_id action limit window now store =
    let kept = select (λ event. not (is_past owner_id action window now event)) store.rate_events in
    let recent =
      sorted_times (map (λ (event : RateEvent). event.at) (select (is_use owner_id action) kept)) in
    if leb limit (length recent)
    then elim (time_at (length recent - limit) recent) [
      | err e ↦ err e
      | ok oldest ↦
          ok (some (at_least_one (oldest + window - now)), record store { rate_events = kept })
    ]
    else ok (
      none,
      record store {
        rate_events = kept ++ record { owner_id = owner_id; action = action; at = now } ∷ [];
      },
    )

unfoldable pub prune_rate_events : (older_than : ℕ) → PlatformStore → PlatformStore
prune_rate_events older_than store = record store {
  rate_events = select (λ (event : RateEvent). not (ltb event.at older_than)) store.rate_events;
}

-- How many uses of the owner and the action are recorded.
abbrev pub uses : (owner_id action : String) → PlatformStore → ℕ
uses owner_id action store = length (select (is_use owner_id action) store.rate_events)

select-fewer :
    {A : Type 0} (f g : A → Bool) (xs : List A)
    → length (select f (select g xs)) ≤ length (select f xs)
select-fewer f g [] = omega arith
select-fewer f g (x ∷ xs) = ground (arith, select-fewer f g xs)

length-insert_time : (t : ℕ) (ts : List ℕ) → length (insert_time t ts) ≡ suc (length ts)
unfolding insert_time
length-insert_time t [] = refl
length-insert_time t (u ∷ rest) = ground (arith, length-insert_time t rest)

length-sorted_times : (ts : List ℕ) → length (sorted_times ts) ≡ length ts
unfolding sorted_times
length-sorted_times [] = refl
length-sorted_times (t ∷ rest) =
    length-insert_time t (sorted_times rest) ∙ ap suc (length-sorted_times rest)

length-map : {A B : Type 0} (f : A → B) (xs : List A) → length (map f xs) ≡ length xs
length-map f [] = refl
length-map f (x ∷ xs) = ap suc (length-map f xs)

select-append :
    {A : Type 0} (f : A → Bool) (xs : List A) (y : A)
    → length (select f (xs ++ y ∷ [])) ≤ length (select f xs) + 1
select-append f [] y = ground arith
select-append f (x ∷ xs) y = ground (arith, select-append f xs y)

-- Whatever the answer, an owner who has used an action at most `limit` times has done so afterwards.
pub consume_rate-bounded :
    (owner_id action : String) (limit window now : ℕ) (store store' : PlatformStore)
    (wait : Option ℕ)
    → consume_rate owner_id action limit window now store ≡ ok (wait, store')
    → uses owner_id action store ≤ limit
    → uses owner_id action store' ≤ limit
unfolding consume_rate
consume_rate-bounded owner_id action limit window now store store' wait e h =
    let keep = λ (event : RateEvent). not (is_past owner_id action window now event) in
    let kept = select keep store.rate_events in
    let used = map (λ (event : RateEvent). event.at) (select (is_use owner_id action) kept) in
    let fewer = select-fewer (is_use owner_id action) keep store.rate_events in
    let same =
      length-sorted_times used
      ∙ length-map (λ (event : RateEvent). event.at) (select (is_use owner_id action) kept) in
    elim (Bool-cases (leb limit (length (sorted_times used)))) [
      | inr free ↦
          let one : RateEvent = record { owner_id = owner_id; action = action; at = now } in
          let after : kept ++ one ∷ [] ≡ store'.rate_events = ground arith in
          let more = select-append (is_use owner_id action) kept one in
          subst (λ events. length (select (is_use owner_id action) events) ≤ limit) after
            (ground (arith, more, same, free))
      | inl full ↦
          elim (Result-cases (time_at (length (sorted_times used) - limit) (sorted_times used))) [
            | inr (x, e1) ↦ absurd (ground arith)
            | inl (oldest, e1) ↦
                let after : kept ≡ store'.rate_events = ground arith in
                subst (λ events. length (select (is_use owner_id action) events) ≤ limit) after
                  (omega (arith, fewer, h))
          ]
    ]
