-- ===== src/Store.antt =====
-- `SQLiteStore` of walter/store.py: run snapshots with a version, and an append-only table of
-- events. The SQL tables are lists of rows, a snapshot is the run that it encodes, and a
-- transaction either commits the whole new store or, by raising, leaves the old one.
pub mod Numbering
pub mod Consistency
pub mod Saving
pub mod Deleting
pub mod Reading
use walter.Prelude.{
  ℕ, suc, ◌+◌, String, Bool, true, false, not, ◌&&◌, ◌||◌, Option, none, some, List, [], ◌∷◌, ◌++◌,
  ◌==◌, ◌=ℕ=◌, leb, any, select, length, last?, is_empty, if◌then◌else◌,
}
use walter.Prelude.Dict.{Dict, lookup, insert, remove, keys}
use walter.Models.{Run, Event}
use walter.Kernel.Monad.{Error, Result, ok, err, bind, refuse, or_raise}

-- A row of `runs(id, version, snapshot)`, without its key.
pub record RunRow : Type 0 where
  pub version : ℕ
  pub snapshot : Run

-- A row of `events(run_id, sequence, payload)`.
pub record EventRow : Type 0 where
  pub run_id : String
  pub sequence : ℕ
  pub payload : Event

-- A row of `schema_migration_backups`: the text of a snapshot before a migration of the schema.
pub record MigrationBackup : Type 0 where
  pub run_id : String
  pub from_version : ℕ
  pub to_version : ℕ
  pub snapshot : String
  pub migrated_at : String

pub record Store : Type 0 where
  pub runs : Dict RunRow
  pub events : List EventRow
  pub backups : List MigrationBackup

abbrev pub empty_store : Store
empty_store = record { runs = []; events = []; backups = [] }

-- `WHERE run_id=?`
unfoldable pub rows_of : String → List EventRow → List EventRow
rows_of id [] = []
rows_of id (row ∷ rows) = if row.run_id == id then row ∷ rows_of id rows else rows_of id rows

insert_row : EventRow → List EventRow → List EventRow
insert_row row [] = row ∷ []
insert_row row (next ∷ rest) =
    if leb row.sequence next.sequence then row ∷ next ∷ rest else next ∷ insert_row row rest

-- `ORDER BY sequence`
unfoldable pub order_by_sequence : List EventRow → List EventRow
unfolding insert_row
order_by_sequence [] = []
order_by_sequence (row ∷ rows) = insert_row row (order_by_sequence rows)

-- The loop of `load` and `events` that checks every row: `expected` counts from 1.
unfoldable pub rows_are_intact : String → ℕ → List EventRow → Bool
rows_are_intact id expected [] = true
rows_are_intact id expected (row ∷ rows) =
    row.sequence =ℕ= expected
    && row.payload.sequence =ℕ= row.sequence
    && row.payload.run_id == id
    && rows_are_intact id (suc expected) rows

-- `event_rows[-1][0] if event_rows else 0`
abbrev pub cursor_of : List EventRow → ℕ
cursor_of rows = elim (last? rows) [ none ↦ 0 | some row ↦ row.sequence ]

abbrev pub selected : Store → String → List EventRow
selected store id = order_by_sequence (rows_of id store.events)

-- The checks of `load` on the row of a run.
unfoldable pub check_row : Store → String → RunRow → Result Run
check_row store id row =
    bind (refuse (not (row.snapshot.id == id)) Error.snapshot_incompatible) λ _.
      bind (refuse (not (row.snapshot.version =ℕ= row.version)) Error.snapshot_incompatible) λ _.
        bind
          (refuse
            (not (length (selected store id) =ℕ= cursor_of (selected store id))
              || not (cursor_of (selected store id) =ℕ= row.snapshot.event_cursor))
            (Error.value_error "Snapshot/event cursor mismatch"))
          λ _.
            bind
              (refuse (not (rows_are_intact id 1 (selected store id)))
                (Error.value_error "Corrupt event payload identity or sequence"))
              λ _. ok row.snapshot

unfoldable pub load : Store → String → Result Run
load store id =
    bind (or_raise (lookup id store.runs) (Error.key_error id)) λ row. check_row store id row

-- `PRIMARY KEY(run_id,sequence)`
abbrev pub is_taken : String → ℕ → List EventRow → Bool
is_taken id index rows = any (λ (row : EventRow). row.run_id == id && row.sequence =ℕ= index) rows

-- `for index, event in enumerate(events, cursor+1)`
unfoldable pub insert_events : String → ℕ → List Event → List EventRow → Result (List EventRow)
insert_events id index [] rows = ok rows
insert_events id index (event ∷ rest) rows =
    bind (refuse (not (event.run_id == id)) (Error.value_error "Event belongs to another run")) λ _.
      bind (refuse (is_taken id index rows) Error.integrity_error) λ _.
        insert_events id (suc index) rest (
          rows
          ++ record { run_id = id; sequence = index; payload = record event { sequence = index } }
            ∷ [])

-- The stored version is not the one that the caller expects.
abbrev pub is_stale : Option RunRow → Option ℕ → Bool
is_stale none none = false
is_stale none (some expected) = true
is_stale (some row) none = true
is_stale (some row) (some expected) = not (row.version =ℕ= expected)

-- `expected_version or 0`
abbrev pub version_or_zero : Option ℕ → ℕ
version_or_zero none = 0
version_or_zero (some expected) = expected

abbrev pub stored_cursor : Option RunRow → ℕ
stored_cursor none = 0
stored_cursor (some row) = row.snapshot.event_cursor

-- The snapshot that `save` writes.
abbrev pub next_snapshot : Store → Run → List Event → Option ℕ → Run
next_snapshot store run events expected = record run {
  version = suc (version_or_zero expected);
  event_cursor = stored_cursor (lookup run.id store.runs) + length events;
}

unfoldable pub save : Store → Run → List Event → Option ℕ → Result (Run × Store)
save store run events expected =
    bind (refuse (is_empty events) (Error.value_error "Every mutation requires an event")) λ _.
      bind (refuse (is_stale (lookup run.id store.runs) expected) Error.concurrent_update) λ _.
        let candidate = next_snapshot store run events expected in
        bind
          (insert_events run.id (suc (stored_cursor (lookup run.id store.runs))) events
            store.events)
          λ rows. ok (
            candidate,
            record store {
              runs =
                  insert run.id (record { version = candidate.version; snapshot = candidate })
                    store.runs;
              events = rows;
            },
          )

-- `DELETE FROM events WHERE run_id=?`
unfoldable pub without_run : String → List EventRow → List EventRow
without_run id [] = []
without_run id (row ∷ rows) =
    if row.run_id == id then without_run id rows else row ∷ without_run id rows

-- The backups of a run.
unfoldable pub backups_of : String → List MigrationBackup → List MigrationBackup
backups_of id rows = select (λ (row : MigrationBackup). row.run_id == id) rows

-- `DELETE FROM schema_migration_backups WHERE run_id=?`
unfoldable pub without_backups : String → List MigrationBackup → List MigrationBackup
without_backups id rows = select (λ (row : MigrationBackup). not (row.run_id == id)) rows

-- `delete_run`: whether a run was deleted, and the store without it.
unfoldable pub delete_run : Store → String → Bool × Store
unfolding without_run without_backups
delete_run store id = (
  elim (lookup id store.runs) [ none ↦ false | some _ ↦ true ],
  record {
    runs = remove id store.runs;
    events = without_run id store.events;
    backups = without_backups id store.backups;
  },
)
