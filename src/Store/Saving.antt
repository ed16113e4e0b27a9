-- ===== src/Store/Saving.antt =====
-- What `save` and `delete_run` of walter/store.py do to a consistent store.
use walter.Prelude.{
  ℕ, suc, String, ◌≡◌, ◌≢◌, refl, true, false, ◌==◌, eq_iff, arith, ap, sym, subst, ◌∙◌, List, [],
  ◌++◌, Option, none, some, length, length-append, Bool-cases, inl, inr, append-nil, is_empty,
  if◌then◌else◌,
}
use walter.Prelude.Dict.{lookup, insert, lookup-insert, lookup-insert_self}
use walter.Models.{Run, Event}
use walter.Kernel.Monad.{Error, ok, err, Result-cases}
use walter.Store.{
  RunRow, EventRow, Store, rows_of, load, next_snapshot, save, stored_cursor, insert_events,
  is_stale,
}
use walter.Store.Numbering.{
  IsNumbered, numbered, AllOwn, rows_of-append, rows_of-numbered_self, rows_of-numbered_ne,
  IsNumbered-append, IsNumbered-numbered, length-numbered, insert_events-eq, insert_events_total,
}
use walter.Store.Consistency.{RowFits, IsConsistent, load_stored}

abbrev pub added : Store → Run → List Event → List EventRow
added store run events = numbered run.id (suc (stored_cursor (lookup run.id store.runs))) events

abbrev pub written_row : Store → Run → List Event → Option ℕ → RunRow
written_row store run events expected =
    let candidate = next_snapshot store run events expected in
    record { version = candidate.version; snapshot = candidate }

-- The store that a successful `save` leaves.
abbrev pub saved : Store → Run → List Event → Option ℕ → Store
saved store run events expected = record store {
  runs = insert run.id (written_row store run events expected) store.runs;
  events = store.events ++ added store run events;
}

pub save-eq :
    (store : Store) (run : Run) (events : List Event) (expected : Option ℕ) {candidate : Run}
    {store' : Store}
    → save store run events expected ≡ ok (candidate, store')
    → (candidate ≡ next_snapshot store run events expected)
      × (store' ≡ saved store run events expected)
      × AllOwn run.id events
      × (is_stale (lookup run.id store.runs) expected ≡ false)
unfolding save
save-eq store run events expected h =
    let index = suc (stored_cursor (lookup run.id store.runs)) in
    elim (Result-cases (insert_events run.id index events store.events)) [
      | inl (rows, e) ↦ ground (arith, insert_events-eq run.id index events store.events rows e)
      | inr (x, e) ↦ ground arith
    ]

RowFits-cursor :
    (id : String) (found : Option RunRow) (rows : List EventRow)
    → RowFits id found rows
    → (stored_cursor found ≡ length rows) × IsNumbered id 1 rows
RowFits-cursor id none rows h = rw h (refl, tt)
RowFits-cursor id (some row) rows h = (h.2, h.3)

-- The rows of a run after a save: those of the saved run grow by the new events.
pub rows_of-saved :
    (store : Store) (run : Run) (events : List Event) (expected : Option ℕ) (id : String)
    → rows_of id (saved store run events expected).events ≡ (
        if run.id == id
        then rows_of id store.events ++ added store run events
        else rows_of id store.events)
rows_of-saved store run events expected id =
    rows_of-append id store.events (added store run events) ∙ elim (Bool-cases (run.id == id)) [
      | inl same ↦ rw same (ap (λ t. rows_of id store.events ++ t) (own_rows ((eq_iff _ _).0 same)))
      | inr other ↦ rw other (
          ap (λ t. rows_of id store.events ++ t) (other_rows (λ e. cc ((eq_iff run.id id).1 e)))
          ∙ append-nil _)
    ]
  where
    own_rows : run.id ≡ id → rows_of id (added store run events) ≡ added store run events
    own_rows e =
        subst (λ j. rows_of j (added store run events) ≡ added store run events) e
          (rows_of-numbered_self run.id _ events)

    other_rows : run.id ≢ id → rows_of id (added store run events) ≡ []
    other_rows ne = rows_of-numbered_ne run.id id _ events ne

-- Saving keeps the store consistent.
pub save-IsConsistent :
    (store : Store) (run : Run) (events : List Event) (expected : Option ℕ) {candidate : Run}
    {store' : Store}
    → IsConsistent store
    → save store run events expected ≡ ok (candidate, store')
    → IsConsistent store'
save-IsConsistent store run events expected h e =
    let (_, written, own, _) = save-eq store run events expected e in
    subst IsConsistent (sym written) (saved-IsConsistent own)
  where
    fits :
        AllOwn run.id events
        → (id : String) → (run.id == id) ≡ true
        → RowFits id
            (some (written_row store run events expected))
            (rows_of id store.events ++ added store run events)
    fits own id same =
        let (cursor, numbers) = RowFits-cursor run.id _ _ (h run.id) in
        subst
          (λ j.
            RowFits j (some (written_row store run events expected))
              (rows_of j store.events ++ added store run events))
          ((eq_iff run.id id).0 same)
          (
            refl,
            refl,
            omega (
              arith,
              cursor,
              length-append (rows_of run.id store.events) (added store run events),
              length-numbered run.id (suc (stored_cursor (lookup run.id store.runs))) events,
            ),
            IsNumbered-append run.id 1 _ _ numbers (
                subst (λ n. IsNumbered run.id n (added store run events)) (omega (arith, cursor))
                  (IsNumbered-numbered run.id _ events own)),
          )

    saved-IsConsistent : AllOwn run.id events → IsConsistent (saved store run events expected)
    saved-IsConsistent own id =
        rw
          (
            lookup-insert run.id id (written_row store run events expected) store.runs,
            rows_of-saved store run events expected id,
          )
          (elim (Bool-cases (run.id == id)) [
            | inl same ↦ rw same (fits own id same)
            | inr other ↦ rw other (h id)
          ])

-- In a consistent store `load` finds the snapshot that a successful `save` wrote.
pub load-save :
    (store : Store) (run : Run) (events : List Event) (expected : Option ℕ) {candidate : Run}
    {store' : Store}
    → IsConsistent store
    → save store run events expected ≡ ok (candidate, store')
    → (load store' run.id ≡ ok candidate) × (candidate ≡ next_snapshot store run events expected)
load-save store run events expected h e =
    let (same, written, _, _) = save-eq store run events expected e in
    let found = ap (λ s. lookup run.id s.runs) written ∙ lookup-insert_self run.id row store.runs in
    (
      load_stored _ run.id row (save-IsConsistent store run events expected h e) found
          ∙ ap ok (sym same),
      same,
    )
  where
    row : RunRow
    row = written_row store run events expected

-- On a consistent store `save` succeeds, with the next snapshot and the new rows, for at least one
-- event, all of the run, and the version that is stored.
pub save_total :
    (store : Store) (run : Run) (events : List Event) (expected : Option ℕ)
    → IsConsistent store
    → is_empty events ≡ false
    → AllOwn run.id events
    → is_stale (lookup run.id store.runs) expected ≡ false
    → save store run events expected
      ≡ ok (next_snapshot store run events expected, saved store run events expected)
unfolding save
save_total store run events expected h some_event own current =
    let (cursor, numbers) = RowFits-cursor run.id _ _ (h run.id) in
    ground (
      arith,
      insert_events_total run.id (suc (stored_cursor (lookup run.id store.runs))) events
          store.events own numbers (omega (arith, cursor)),
    )

-- After a save that expected some version, a second save of the same run, with an event, that
-- expects the same version is refused.
pub save_lost_update :
    (store : Store) (first second : Run) (events later : List Event) (version : ℕ) {candidate : Run}
    {store' : Store}
    → first.id ≡ second.id
    → is_empty later ≡ false
    → save store first events (some version) ≡ ok (candidate, store')
    → save store' second later (some version) ≡ err Error.concurrent_update
unfolding save
save_lost_update store first second events later version {store'} same some_event e =
    let (_, written, _, _) = save-eq store first events (some version) e in
    let found : lookup second.id store'.runs ≡ some row =
      ap (λ s. lookup second.id s.runs) written
      ∙ ap (λ id. lookup id (saved store first events (some version)).runs) (sym same)
      ∙ lookup-insert_self first.id row store.runs in
    ground (arith, found)
  where
    row : RunRow
    row = written_row store first events (some version)

-- A save appends its events, numbered on from the stored cursor, to the history of its run, writes
-- the row of its run, and touches no row of another run.
pub save_appends :
    (store : Store) (run : Run) (events : List Event) (expected : Option ℕ) (id : String)
    {candidate : Run} {store' : Store}
    → save store run events expected ≡ ok (candidate, store')
    → (rows_of id store'.events ≡ (
        if run.id == id
        then rows_of id store.events
          ++ numbered run.id (suc (stored_cursor (lookup run.id store.runs))) events
        else rows_of id store.events))
      × (lookup id store'.runs ≡ (
          if run.id == id
          then some (record { version = candidate.version; snapshot = candidate })
          else lookup id store.runs))
save_appends store run events expected id {candidate} e =
    let (same, written, _, _) = save-eq store run events expected e in
    let row = written_row store run events expected in
    (
      ap (λ s. rows_of id s.events) written ∙ rows_of-saved store run events expected id,
      ap (λ s. lookup id s.runs) written
          ∙ lookup-insert run.id id row store.runs
          ∙ ap (λ (u : Run). if run.id == id then some (row_of u) else lookup id store.runs)
              (sym same),
    )
  where
    row_of : Run → RunRow
    row_of u = record { version = u.version; snapshot = u }
