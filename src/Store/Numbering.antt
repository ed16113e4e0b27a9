-- ===== src/Store/Numbering.antt =====
-- The rows of one run: how they are selected, ordered and extended.
use walter.Prelude.{
  sym, ◌∙◌, length-append, All, ap, subst, append-nil, append_assoc, ◌≢◌, ◌==◌, Bool-cases, inl,
  inr, ℕ, suc, ◌+◌, ◌≤◌, String, ◌≡◌, refl, true, false, List, [], ◌∷◌, ◌++◌, arith, eq_iff,
  eq_refl, length,
}
use walter.Models.{Event}
use walter.Kernel.Monad.{ok}
use walter.Store.{
  EventRow, rows_of, order_by_sequence, rows_are_intact, cursor_of, is_taken, insert_events,
}

-- The rows belong to run `id` and are numbered `n`, `n + 1`, …
abbrev pub IsNumbered : String → ℕ → List EventRow → Type 0
IsNumbered id n [] = Unit
IsNumbered id n (row ∷ rows) =
    (row.run_id ≡ id)
    × (row.sequence ≡ n)
    × (row.payload.sequence ≡ n)
    × (row.payload.run_id ≡ id)
    × IsNumbered id (suc n) rows

-- The rows that `save` adds for `events`, numbered from `n`.
abbrev pub numbered : String → ℕ → List Event → List EventRow
numbered id n [] = []
numbered id n (event ∷ rest) =
    record { run_id = id; sequence = n; payload = record event { sequence = n } }
    ∷ numbered id (suc n) rest

pub order-IsNumbered :
    (id : String) (n : ℕ) (rows : List EventRow)
    → IsNumbered id n rows
    → order_by_sequence rows ≡ rows
unfolding order_by_sequence
order-IsNumbered id n [] h = refl
order-IsNumbered id n (row ∷ []) h = refl
order-IsNumbered id n (row ∷ next ∷ rows) h =
    ground (arith, order-IsNumbered id (suc n) (next ∷ rows) h.4)

pub intact-IsNumbered :
    (id : String) (n : ℕ) (rows : List EventRow)
    → IsNumbered id n rows
    → rows_are_intact id n rows ≡ true
unfolding rows_are_intact
intact-IsNumbered id n [] h = refl
intact-IsNumbered id n (row ∷ rows) h =
    ground (arith, intact-IsNumbered id (suc n) rows h.4, eq_iff row.payload.run_id id)

pub cursor-IsNumbered :
    (id : String) (n : ℕ) (row : EventRow) (rows : List EventRow)
    → IsNumbered id n (row ∷ rows)
    → cursor_of (row ∷ rows) ≡ n + length rows
cursor-IsNumbered id n row [] h = omega arith
cursor-IsNumbered id n row (next ∷ rows) h =
    omega (arith, cursor-IsNumbered id (suc n) next rows h.4)

pub rows_of-append :
    (id : String) (xs ys : List EventRow) → rows_of id (xs ++ ys) ≡ rows_of id xs ++ rows_of id ys
unfolding rows_of
rows_of-append id [] ys = refl
rows_of-append id (x ∷ xs) ys = ground (arith, rows_of-append id xs ys)

pub rows_of-numbered_self :
    (id : String) (n : ℕ) (events : List Event)
    → rows_of id (numbered id n events) ≡ numbered id n events
unfolding rows_of
rows_of-numbered_self id n [] = refl
rows_of-numbered_self id n (event ∷ rest) =
    ground (arith, eq_refl id, rows_of-numbered_self id (suc n) rest)

pub rows_of-numbered_ne :
    (id other : String) (n : ℕ) (events : List Event)
    → id ≢ other
    → rows_of other (numbered id n events) ≡ []
unfolding rows_of
rows_of-numbered_ne id other n [] h = refl
rows_of-numbered_ne id other n (event ∷ rest) h =
    ground (arith, eq_iff id other, rows_of-numbered_ne id other (suc n) rest h)

pub IsNumbered-append :
    (id : String) (n : ℕ) (xs ys : List EventRow)
    → IsNumbered id n xs
    → IsNumbered id (n + length xs) ys
    → IsNumbered id n (xs ++ ys)
IsNumbered-append id n [] ys hx hy = subst (λ m. IsNumbered id m ys) (omega arith) hy
IsNumbered-append id n (x ∷ xs) ys hx hy = (
  hx.0,
  hx.1,
  hx.2,
  hx.3,
  IsNumbered-append id (suc n) xs ys hx.4 (subst (λ m. IsNumbered id m ys) (omega arith) hy),
)

-- Every event belongs to the run.
abbrev pub AllOwn : String → List Event → Type 0
AllOwn id events = All (λ (e : Event). e.run_id ≡ id) events

pub IsNumbered-numbered :
    (id : String) (n : ℕ) (events : List Event)
    → AllOwn id events
    → IsNumbered id n (numbered id n events)
IsNumbered-numbered id n [] h = tt
IsNumbered-numbered id n (event ∷ rest) h =
    (refl, refl, refl, h.0, IsNumbered-numbered id (suc n) rest h.1)

pub length-numbered :
    (id : String) (n : ℕ) (events : List Event) → length (numbered id n events) ≡ length events
length-numbered id n [] = refl
length-numbered id n (event ∷ rest) = ap suc (length-numbered id (suc n) rest)

-- What `insert_events` wrote, if it raised nothing.
pub insert_events-eq :
    (id : String) (n : ℕ) (events : List Event) (rows rows' : List EventRow)
    → insert_events id n events rows ≡ ok rows'
    → (rows' ≡ rows ++ numbered id n events) × AllOwn id events
unfolding insert_events
insert_events-eq id n [] rows rows' h = (cc (append-nil rows), tt)
insert_events-eq id n (event ∷ rest) rows rows' h =
    let row : EventRow = record {
      run_id = id;
      sequence = n;
      payload = record event { sequence = n };
    } in
    ground (
      arith,
      eq_iff event.run_id id,
      insert_events-eq id (suc n) rest (rows ++ row ∷ []) rows',
      append_assoc rows (row ∷ []) (numbered id (suc n) rest),
    )

-- Below the next number nothing is taken.
pub is_taken-IsNumbered :
    (id : String) (n index : ℕ) (rows : List EventRow)
    → IsNumbered id n (rows_of id rows)
    → n + length (rows_of id rows) ≤ index
    → is_taken id index rows ≡ false
unfolding rows_of
is_taken-IsNumbered id n index [] h le = refl
is_taken-IsNumbered id n index (row ∷ rows) h le = elim (Bool-cases (row.run_id == id)) [
  | inl own ↦
      let h' : IsNumbered id n (row ∷ rows_of id rows) = rw own at h in
      ground (arith, is_taken-IsNumbered id (suc n) index rows h'.4)
  | inr other ↦
      let h' : IsNumbered id n (rows_of id rows) = rw other at h in
      ground (arith, is_taken-IsNumbered id n index rows h')
]

rows_of_own : (id : String) (row : EventRow) → row.run_id ≡ id → rows_of id (row ∷ []) ≡ row ∷ []
unfolding rows_of
rows_of_own id row e = ground (arith, eq_iff row.run_id id)

-- On numbered rows the events of the run are always inserted.
pub insert_events_total :
    (id : String) (n : ℕ) (events : List Event) (rows : List EventRow)
    → AllOwn id events
    → IsNumbered id 1 (rows_of id rows)
    → n ≡ suc (length (rows_of id rows))
    → insert_events id n events rows ≡ ok (rows ++ numbered id n events)
unfolding insert_events
insert_events_total id n [] rows own h e = cc (append-nil rows)
insert_events_total id n (event ∷ rest) rows own h e =
    let row : EventRow = record {
      run_id = id;
      sequence = n;
      payload = record event { sequence = n };
    } in
    let grown : rows_of id (rows ++ row ∷ []) ≡ rows_of id rows ++ row ∷ [] =
      rows_of-append id rows (row ∷ [])
      ∙ ap (λ t. rows_of id rows ++ t) (rows_of_own id row refl) in
    let kept : IsNumbered id 1 (rows_of id (rows ++ row ∷ [])) =
      subst (IsNumbered id 1) (sym grown) (
        IsNumbered-append id 1 (rows_of id rows) (row ∷ []) h
          (refl, omega arith, omega arith, own.0, tt)) in
    ground (
      arith,
      eq_iff event.run_id id,
      is_taken-IsNumbered id 1 n rows h,
      insert_events_total id (suc n) rest (rows ++ row ∷ []) own.1 kept
          (omega (arith, ap length grown, length-append (rows_of id rows) (row ∷ []))),
      append_assoc rows (row ∷ []) (numbered id (suc n) rest),
    )
