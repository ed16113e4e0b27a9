-- ===== src/Store/Consistency.antt =====
-- The invariant that `load` of walter/store.py checks, and that `save` and `delete_run` keep.
use walter.Prelude.{
  String, ◌≡◌, refl, eq_iff, arith, subst, List, [], ◌∷◌, Option, none, some, length,
}
use walter.Prelude.Dict.{lookup}
use walter.Kernel.Monad.{ok}
use walter.Store.{RunRow, EventRow, Store, rows_of, cursor_of, check_row, load}
use walter.Store.Numbering.{IsNumbered, order-IsNumbered, intact-IsNumbered, cursor-IsNumbered}

-- The row of run `id` and the event rows of that run belong together.
abbrev pub RowFits : String → Option RunRow → List EventRow → Type 0
RowFits id none rows = rows ≡ []
RowFits id (some row) rows =
    (row.snapshot.id ≡ id)
    × (row.snapshot.version ≡ row.version)
    × (row.snapshot.event_cursor ≡ length rows)
    × IsNumbered id 1 rows

abbrev pub IsConsistent : Store → Type 0
IsConsistent store = (id : String) → RowFits id (lookup id store.runs) (rows_of id store.events)

cursor-eq-length :
    (id : String) (rows : List EventRow) → IsNumbered id 1 rows → cursor_of rows ≡ length rows
cursor-eq-length id [] h = refl
cursor-eq-length id (row ∷ rows) h = omega (arith, cursor-IsNumbered id 1 row rows h)

check_row-RowFits :
    (store : Store) (id : String) (row : RunRow)
    → RowFits id (some row) (rows_of id store.events)
    → check_row store id row ≡ ok row.snapshot
unfolding check_row
check_row-RowFits store id row h = rw (order-IsNumbered id 1 (rows_of id store.events) h.3) (
    ground (
      arith,
      eq_iff row.snapshot.id id,
      cursor-eq-length id (rows_of id store.events) h.3,
      intact-IsNumbered id 1 (rows_of id store.events) h.3,
    ))

-- In a consistent store every stored run loads as it was written.
pub load_stored :
    (store : Store) (id : String) (row : RunRow)
    → IsConsistent store
    → lookup id store.runs ≡ some row
    → load store id ≡ ok row.snapshot
unfolding load
load_stored store id row h e =
    let fits : RowFits id (some row) (rows_of id store.events) =
      subst (λ r. RowFits id r (rows_of id store.events)) e (h id) in
    ground (arith, check_row-RowFits store id row fits)
