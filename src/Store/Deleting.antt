-- ===== src/Store/Deleting.antt =====
-- What `delete_run` of walter/store.py does to a consistent store.
use walter.Prelude.{
  String, ◌≡◌, refl, ◌==◌, eq_iff, arith, List, [], ◌∷◌, none, Bool-cases, inl, inr, if◌then◌else◌,
  eq_refl,
}
use walter.Prelude.Dict.{lookup, lookup-remove}
use walter.Store.{
  EventRow, MigrationBackup, Store, rows_of, without_run, backups_of, without_backups, delete_run,
}
use walter.Store.Consistency.{IsConsistent}

rows_of-without_run :
    (id other : String) (rows : List EventRow)
    → rows_of other (without_run id rows) ≡ (if id == other then [] else rows_of other rows)
unfolding rows_of without_run
rows_of-without_run id other [] = ground arith
rows_of-without_run id other (row ∷ rows) = ground (
  arith,
  rows_of-without_run id other rows,
  eq_iff row.run_id id,
  eq_iff row.run_id other,
  eq_iff id other,
)

backups_of-without_backups :
    (id : String) (rows : List MigrationBackup) → backups_of id (without_backups id rows) ≡ []
unfolding backups_of without_backups
backups_of-without_backups id [] = refl
backups_of-without_backups id (row ∷ rows) = ground (arith, backups_of-without_backups id rows)

-- Erasing a run keeps the store consistent, and leaves no row of it in any of the three tables.
pub delete_run-IsConsistent :
    (store : Store) (id : String)
    → IsConsistent store
    → IsConsistent (delete_run store id).1
      × (lookup id (delete_run store id).1.runs ≡ none)
      × (rows_of id (delete_run store id).1.events ≡ [])
      × (backups_of id (delete_run store id).1.backups ≡ [])
unfolding delete_run
delete_run-IsConsistent store id h = (
  λ other.
      rw (lookup-remove id other store.runs, rows_of-without_run id other store.events)
        (elim (Bool-cases (id == other)) [
          | inl same ↦ rw same refl
          | inr differ ↦ rw differ (h other)
        ]),
  rw (lookup-remove id id store.runs, eq_refl id),
  rw (rows_of-without_run id id store.events, eq_refl id),
  backups_of-without_backups id store.backups,
)
