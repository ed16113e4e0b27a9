-- ===== src/Kernel/Evolution/Slots.antt =====
-- The relation of Evolution, slot by slot on the tasks of a run.
use walter.Prelude.{
  String, ◌≡◌, ◌∙◌, sym, ap, subst, true, ◌==◌, eq_iff, Option, none, some, Bool-cases, inl, inr,
}
use walter.Prelude.Dict.{Dict, lookup, insert, lookup-insert, insert-insert}
use walter.Models.{TaskStatus, TaskNode}
use walter.Kernel.Evolution.{MoveTable, Evolves, Evolves-refl, Evolves-trans, Evolves-wider}

abbrev pub EvolvesAt : MoveTable → Option TaskNode → Option TaskNode → Type 0
EvolvesAt moves none none = Unit
EvolvesAt moves (some t) (some t') = Evolves moves t t'
EvolvesAt moves _ _ = ⊥

EvolvesAt-refl : (moves : MoveTable) (slot : Option TaskNode) → EvolvesAt moves slot slot
EvolvesAt-refl moves none = tt
EvolvesAt-refl moves (some t) = Evolves-refl t

EvolvesAt-trans :
    (moves : MoveTable) (x y z : Option TaskNode)
    → EvolvesAt moves x y
    → EvolvesAt moves y z
    → EvolvesAt moves x z
EvolvesAt-trans moves none none none a b = tt
EvolvesAt-trans moves (some t) (some u) (some v) a b = Evolves-trans a b
EvolvesAt-trans moves none none (some v) a b = b
EvolvesAt-trans moves none (some u) z a b = absurd a
EvolvesAt-trans moves (some t) none z a b = absurd a
EvolvesAt-trans moves (some t) (some u) none a b = b

-- Every slot evolves.
abbrev pub TasksEvolve : MoveTable → Dict TaskNode → Dict TaskNode → Type 0
TasksEvolve moves d d' = (key : String) → EvolvesAt moves (lookup key d) (lookup key d')

EvolvesAt-wider :
    {moves wider : MoveTable} (x y : Option TaskNode)
    → ((a b : TaskStatus) → moves a b ≡ true → wider a b ≡ true)
    → EvolvesAt moves x y
    → EvolvesAt wider x y
EvolvesAt-wider none none w ev = tt
EvolvesAt-wider none (some t) w ev = ev
EvolvesAt-wider (some t) none w ev = ev
EvolvesAt-wider (some t) (some t') w ev = Evolves-wider w ev

pub TasksEvolve-wider :
    (moves wider : MoveTable) (d d' : Dict TaskNode)
    → ((a b : TaskStatus) → moves a b ≡ true → wider a b ≡ true)
    → TasksEvolve moves d d'
    → TasksEvolve wider d d'
TasksEvolve-wider moves wider d d' w ev key =
    EvolvesAt-wider (lookup key d) (lookup key d') w (ev key)

pub TasksEvolve-refl : (moves : MoveTable) (d : Dict TaskNode) → TasksEvolve moves d d
TasksEvolve-refl moves d key = EvolvesAt-refl moves (lookup key d)

pub TasksEvolve-trans :
    (moves : MoveTable) (d e f : Dict TaskNode)
    → TasksEvolve moves d e
    → TasksEvolve moves e f
    → TasksEvolve moves d f
TasksEvolve-trans moves d e f a b key =
    EvolvesAt-trans moves (lookup key d) (lookup key e) (lookup key f) (a key) (b key)

pub TasksEvolve-insert :
    (moves : MoveTable) (key : String) (t t' : TaskNode) (d : Dict TaskNode)
    → lookup key d ≡ some t
    → Evolves moves t t'
    → TasksEvolve moves d (insert key t' d)
TasksEvolve-insert moves key t t' d found ev other =
    rw (lookup-insert key other t' d) (elim (Bool-cases (key == other)) [
      | inl same ↦ rw same (
          subst (λ slot. EvolvesAt moves slot (some t'))
            (sym (ap (λ k. lookup k d) (sym ((eq_iff key other).0 same)) ∙ found)) ev)
      | inr differ ↦ rw differ (EvolvesAt-refl moves (lookup other d))
    ])

-- A request that wrote no slot, slot `key` once, or slot `key` twice, the last time with `t'`.
pub TasksEvolve-same : (moves : MoveTable) (d d' : Dict TaskNode) → d' ≡ d → TasksEvolve moves d d'
TasksEvolve-same moves d d' e = subst (TasksEvolve moves d) (sym e) (TasksEvolve-refl moves d)

pub TasksEvolve-once :
    (moves : MoveTable) (key : String) (t t' : TaskNode) (d d' : Dict TaskNode)
    → lookup key d ≡ some t
    → Evolves moves t t'
    → d' ≡ insert key t' d
    → TasksEvolve moves d d'
TasksEvolve-once moves key t t' d d' found ev e =
    subst (TasksEvolve moves d) (sym e) (TasksEvolve-insert moves key t t' d found ev)

pub TasksEvolve-twice :
    (moves : MoveTable) (key : String) (t u t' : TaskNode) (d d' : Dict TaskNode)
    → lookup key d ≡ some t
    → Evolves moves t t'
    → d' ≡ insert key t' (insert key u d)
    → TasksEvolve moves d d'
TasksEvolve-twice moves key t u t' d d' found ev e =
    TasksEvolve-once moves key t t' d d' found ev (e ∙ insert-insert key u t' d)
