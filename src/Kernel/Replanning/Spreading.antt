-- ===== src/Kernel/Replanning/Spreading.antt =====
-- The rounds of the loop of `_replan_affected` of walter/orchestration.py: they end, and the last
-- one finds no consumer outside.
use walter.Prelude.{
  ℕ, zero, suc, ◌+◌, ◌≤◌, String, true, false, not, ◌&&◌, ◌≡◌, refl, List, [], ◌∷◌, All, Within,
  elem, length, ◌=ℕ=◌, arith, inl, inr, Bool-cases,
}
use walter.Prelude.Dict.{Dict}
use walter.Prelude.Visiting.{unseen, unseen_drop, IsSlot, own_slots}
use walter.Models.{TaskNode}
use walter.Kernel.Monad.{ok}
use walter.Kernel.Replanning.{artifacts_of, consumes, spread, spread_all}

-- Every task that consumes one of `affected` or of their artifacts is in it.
abbrev pub IsClosed : Dict TaskNode → List String → Type 0
IsClosed tasks affected =
    All
      (λ (slot : String × TaskNode).
        consumes affected (artifacts_of tasks affected) slot.1 ≡ true → elem slot.0 affected ≡ true)
      tasks

module _ (ids : List String) where
  spread-Within :
      (slots : Dict TaskNode) (affected : List String) → Within affected (spread ids slots affected)
  unfolding spread
  spread-Within [] affected s h = h
  spread-Within ((key, t) ∷ rest) affected s h =
      elim (Bool-cases (not (elem key affected) && consumes affected ids t)) [
        | inl e ↦ rw e (spread-Within rest (key ∷ affected) s (ground arith))
        | inr e ↦ rw e (spread-Within rest affected s h)
      ]

  -- Each task that a round adds is one less to add.
  spread-unseen :
      (tasks slots : Dict TaskNode) (affected : List String)
      → All (λ (slot : String × TaskNode). IsSlot tasks slot.0) slots
      → unseen (spread ids slots affected) tasks + length (spread ids slots affected)
        ≤ unseen affected tasks + length affected
  unfolding spread
  spread-unseen tasks [] affected h = omega arith
  spread-unseen tasks ((key, t) ∷ rest) affected h =
      elim (Bool-cases (not (elem key affected) && consumes affected ids t)) [
        | inr e ↦ rw e (spread-unseen tasks rest affected h.1)
        | inl e ↦
            let (u, found) = h.0 in
            let drop = unseen_drop key affected tasks u found (ground arith) in
            let more = spread-unseen tasks rest (key ∷ affected) h.1 in
            rw e (omega (arith, drop, more))
      ]

  spread-length :
      (slots : Dict TaskNode) (affected : List String)
      → length affected ≤ length (spread ids slots affected)
  unfolding spread
  spread-length [] affected = omega arith
  spread-length ((key, t) ∷ rest) affected =
      elim (Bool-cases (not (elem key affected) && consumes affected ids t)) [
        | inl e ↦ let more = spread-length rest (key ∷ affected) in rw e (omega (arith, more))
        | inr e ↦ rw e (spread-length rest affected)
      ]

  -- A round that adds nothing found no consumer outside.
  spread-quiet :
      (slots : Dict TaskNode) (affected : List String)
      → length (spread ids slots affected) ≡ length affected
      → All
          (λ (slot : String × TaskNode).
            consumes affected ids slot.1 ≡ true → elem slot.0 affected ≡ true)
          slots
  unfolding spread
  spread-quiet [] affected same = tt
  spread-quiet ((k, u) ∷ rest) affected same =
      elim (Bool-cases (not (elem k affected) && consumes affected ids u)) [
        | inl e ↦
            let more = spread-length rest (k ∷ affected) in absurd (omega (arith, more, grown e))
        | inr e ↦ ((λ uses. ground arith), spread-quiet rest affected (kept e))
      ]
    where
      grown :
          (not (elem k affected) && consumes affected ids u) ≡ true
          → length (spread ids rest (k ∷ affected)) ≡ length affected
      grown e = ground arith

      kept :
          (not (elem k affected) && consumes affected ids u) ≡ false
          → length (spread ids rest affected) ≡ length affected
      kept e = ground arith

pub spread_all-IsClosed :
    (fuel : ℕ) (tasks : Dict TaskNode) (affected : List String)
    → unseen affected tasks + 1 ≤ fuel
    → (found : List String) × (spread_all fuel tasks affected ≡ ok found)
      × Within affected found
      × IsClosed tasks found
unfolding spread_all
spread_all-IsClosed zero tasks affected enough = absurd (omega (arith, enough))
spread_all-IsClosed (suc fuel) tasks affected enough =
    let next = spread (artifacts_of tasks affected) tasks affected in
    elim (Bool-cases (length next =ℕ= length affected)) [
      | inl e ↦ (
        affected,
        rw e refl,
        λ s h. h,
        spread-quiet (artifacts_of tasks affected) tasks affected (ground (arith, e)),
      )
      | inr e ↦
          let grows = spread-length (artifacts_of tasks affected) tasks affected in
          let counted =
            spread-unseen (artifacts_of tasks affected) tasks tasks affected (own_slots tasks) in
          let (found, done, within, closed) = spread_all-IsClosed fuel tasks next (
            fewer (unseen next tasks) (unseen affected tasks) (length next) (length affected) fuel e
              grows counted enough) in
          (
            found,
            rw e done,
            λ s h. within s (spread-Within (artifacts_of tasks affected) tasks affected s h),
            closed,
          )
    ]
  where
    fewer :
        (u' u l' l fuel : ℕ)
        → (l' =ℕ= l) ≡ false
        → l ≤ l'
        → u' + l' ≤ u + l
        → u + 1 ≤ suc fuel
        → u' + 1 ≤ fuel
    fewer u' u l' l fuel e p q r = ground arith
