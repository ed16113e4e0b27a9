-- ===== src/Store/Reading.antt =====
-- `version_info` and `events` of walter/store.py: what is read beside the snapshots.
use walter.Prelude.{
  ℕ, suc, ◌+◌, String, ◌≡◌, refl, subst, not, some, List, [], ◌∷◌, arith, leb, length, map,
  if◌then◌else◌,
}
use walter.Prelude.Dict.{lookup}
use walter.Models.{Event}
use walter.Kernel.Monad.{Error, Result, ok, bind, refuse, or_raise}
use walter.Store.{EventRow, RunRow, Store, rows_of, rows_are_intact, selected}
use walter.Store.Numbering.{IsNumbered, order-IsNumbered, intact-IsNumbered}
use walter.Store.Consistency.{RowFits, IsConsistent}

-- `COALESCE(MAX(sequence),0)`
unfoldable pub max_sequence : List EventRow → ℕ
max_sequence [] = 0
max_sequence (row ∷ rows) =
    let rest = max_sequence rows in if leb rest row.sequence then row.sequence else rest

-- The version and the cursor, without the snapshot.
unfoldable pub version_info : Store → String → Result (ℕ × ℕ)
version_info store id =
    bind (or_raise (lookup id store.runs) (Error.key_error id))
      λ row. ok (row.version, max_sequence (rows_of id store.events))

abbrev pub payload_of : EventRow → Event
payload_of row = row.payload

-- The method `events`: an unknown run raises, and every row is checked as in `load`.
unfoldable pub history : Store → String → Result (List Event)
history store id = bind (or_raise (lookup id store.runs) (Error.key_error id)) λ row.
    bind
      (refuse (not (rows_are_intact id 1 (selected store id)))
        (Error.value_error "Corrupt event payload identity or sequence"))
      λ _. ok (map payload_of (selected store id))

max-IsNumbered :
    (id : String) (n : ℕ) (row : EventRow) (rows : List EventRow)
    → IsNumbered id n (row ∷ rows)
    → max_sequence (row ∷ rows) ≡ n + length rows
unfolding max_sequence
max-IsNumbered id n row [] h = ground (arith, h.1)
max-IsNumbered id n row (next ∷ rows) h =
    ground (arith, max-IsNumbered id (suc n) next rows h.4, h.1)

max-eq-length :
    (id : String) (rows : List EventRow) → IsNumbered id 1 rows → max_sequence rows ≡ length rows
unfolding max_sequence
max-eq-length id [] h = refl
max-eq-length id (row ∷ rows) h = omega (arith, max-IsNumbered id 1 row rows h)

-- In a consistent store the history of a stored run is the payloads of its rows in the order in
-- which they were added, and the version and the cursor read without the snapshot are those of the
-- snapshot.
pub history_stored :
    (store : Store) (id : String) (row : RunRow)
    → IsConsistent store
    → lookup id store.runs ≡ some row
    → (history store id ≡ ok (map payload_of (rows_of id store.events)))
      × (version_info store id ≡ ok (row.snapshot.version, row.snapshot.event_cursor))
unfolding history version_info
history_stored store id row h e =
    let fits : RowFits id (some row) (rows_of id store.events) =
      subst (λ r. RowFits id r (rows_of id store.events)) e (h id) in
    let ordered = order-IsNumbered id 1 (rows_of id store.events) fits.3 in
    let intact = intact-IsNumbered id 1 (rows_of id store.events) fits.3 in
    let highest = max-eq-length id (rows_of id store.events) fits.3 in
    (rw ordered (ground (arith, e, intact)), ground (arith, e, highest, fits.1, fits.2))
