-- ===== src/Prelude/Visiting.antt =====
-- The keys of a dict that a depth-first walk has not reached: the measure of its recursion.
use Prim.Native.Nat.{ℕ, suc, ◌+◌, ◌≤◌}
use Prim.Native.String.{String}
use mathlib.Core.Path.{◌≡◌, refl}
use mathlib.Core.Logic.{inl, inr}
use mathlib.Core.Bool.{false}
use mathlib.Core.Option.{some}
use mathlib.Core.List.{List, [], ◌∷◌}
use native.Mathlib.Omega.{arith}
use text.Mathlib.Text.{◌==◌}
use text.Mathlib.TextEquality.{eq_iff}
use text.Mathlib.TextPositions.{eq_refl}
use walter.Prelude.Tests.{if◌then◌else◌, Bool-cases}
use walter.Prelude.Lists.{elem, length, All}
use walter.Prelude.Dict.{Dict, lookup}

module _ {V : Type 0} where
  -- How many slots of `d` are not in `visiting`.
  abbrev pub unseen : List String → Dict V → ℕ
  unseen visiting [] = 0
  unseen visiting ((key, a) ∷ d) =
      if elem key visiting then unseen visiting d else suc (unseen visiting d)

  pub unseen-length : (visiting : List String) (d : Dict V) → unseen visiting d ≤ length d
  unseen-length visiting [] = omega arith
  unseen-length visiting ((key, a) ∷ d) = ground (arith, unseen-length visiting d)

  unseen_mono :
      (id : String) (visiting : List String) (d : Dict V)
      → unseen (id ∷ visiting) d ≤ unseen visiting d
  unseen_mono id visiting [] = omega arith
  unseen_mono id visiting ((key, a) ∷ d) = ground (arith, unseen_mono id visiting d)

  pub unseen_drop :
      (id : String) (visiting : List String) (d : Dict V) (a : V)
      → lookup id d ≡ some a
      → elem id visiting ≡ false
      → unseen (id ∷ visiting) d + 1 ≤ unseen visiting d
  unfolding lookup
  unseen_drop id visiting [] a found fresh = absurd (ground arith)
  unseen_drop id visiting ((key, b) ∷ d) a found fresh = elim (Bool-cases (key == id)) [
    | inl same ↦ ground (arith, eq_iff key id, eq_iff id key, unseen_mono id visiting d)
    | inr other ↦
        ground
          (arith, eq_iff key id, eq_iff id key, unseen_drop id visiting d a (ground arith) fresh)
  ]

-- The key has a value.
abbrev pub IsSlot : {V : Type 0} → Dict V → String → Type 0
IsSlot {V} d key = (v : V) × (lookup key d ≡ some v)

IsSlot-longer :
    {V : Type 0} (slots : Dict V) (key : String) (v : V) (d : Dict V)
    → All (λ (slot : String × V). IsSlot d slot.0) slots
    → All (λ (slot : String × V). IsSlot ((key, v) ∷ d) slot.0) slots
unfolding lookup
IsSlot-longer [] key v d h = tt
IsSlot-longer ((k, w) ∷ rest) key v d h = (
  elim (Bool-cases (key == k)) [
    | inl same ↦ (v, rw same refl)
    | inr other ↦ (h.0.0, rw other h.0.1)
  ],
  IsSlot-longer rest key v d h.1,
)

-- Every slot of a dict has one.
pub own_slots : {V : Type 0} (d : Dict V) → All (λ (slot : String × V). IsSlot d slot.0) d
unfolding lookup
own_slots [] = tt
own_slots ((key, v) ∷ d) = ((v, rw (eq_refl key) refl), IsSlot-longer d key v d (own_slots d))
