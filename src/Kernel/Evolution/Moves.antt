-- ===== src/Kernel/Evolution/Moves.antt =====
-- The moves of each request of walter/orchestration.py: from which status to which it may take a
-- task, apart from the table `TRANSITIONS` that they all obey.
use walter.Prelude.{true, false, ◌≡◌, arith}
use walter.Models.{TaskStatus, is_assigned}
use walter.Kernel.Transitions.{transitions}
use walter.Kernel.Evolution.{MoveTable}

-- No task moves.
abbrev pub no_moves : MoveTable
no_moves a b = false

-- `_refresh`
abbrev pub refresh_moves : MoveTable
refresh_moves TaskStatus.planned TaskStatus.ready = true
refresh_moves TaskStatus.blocked TaskStatus.ready = true
refresh_moves TaskStatus.ready TaskStatus.blocked = true
refresh_moves _ _ = false

-- `delegate`
abbrev pub delegate_moves : MoveTable
delegate_moves TaskStatus.ready TaskStatus.delegated = true
delegate_moves TaskStatus.revision_required TaskStatus.delegated = true
delegate_moves _ _ = false

-- `start`
abbrev pub start_moves : MoveTable
start_moves TaskStatus.delegated TaskStatus.running = true
start_moves _ _ = false

-- `submit`
abbrev pub submit_moves : MoveTable
submit_moves TaskStatus.running TaskStatus.submitted = true
submit_moves _ _ = false

-- `_candidate`, which `validate`, `review` and `accept` begin with
abbrev pub examine_moves : MoveTable
examine_moves TaskStatus.submitted TaskStatus.reviewing = true
examine_moves _ _ = false

-- `accept`, with the refresh that follows
abbrev pub accept_moves : MoveTable
accept_moves TaskStatus.submitted TaskStatus.reviewing = true
accept_moves TaskStatus.reviewing TaskStatus.accepted = true
accept_moves TaskStatus.planned TaskStatus.ready = true
accept_moves TaskStatus.blocked TaskStatus.ready = true
accept_moves TaskStatus.ready TaskStatus.blocked = true
accept_moves _ _ = false

-- `_fail`
abbrev pub fail_moves : MoveTable
fail_moves TaskStatus.delegated TaskStatus.failed = true
fail_moves TaskStatus.running TaskStatus.failed = true
fail_moves TaskStatus.submitted TaskStatus.failed = true
fail_moves TaskStatus.reviewing TaskStatus.failed = true
fail_moves _ _ = false

-- `resume`
abbrev pub resume_moves : MoveTable
resume_moves TaskStatus.delegated TaskStatus.failed = true
resume_moves TaskStatus.running TaskStatus.failed = true
resume_moves _ _ = false

-- `recover`
abbrev pub recover_moves : MoveTable
recover_moves TaskStatus.failed TaskStatus.ready = true
recover_moves TaskStatus.failed TaskStatus.revision_required = true
recover_moves TaskStatus.failed TaskStatus.replaced = true
recover_moves TaskStatus.failed TaskStatus.blocked = true
recover_moves _ _ = false

pub delegate_listed :
    (a : TaskStatus)
    → transitions a TaskStatus.delegated ≡ true
    → delegate_moves a TaskStatus.delegated ≡ true
unfolding transitions
delegate_listed a legal = ground arith

pub start_listed :
    (a : TaskStatus)
    → transitions a TaskStatus.running ≡ true
    → start_moves a TaskStatus.running ≡ true
unfolding transitions
start_listed a legal = ground arith

pub submit_listed :
    (a : TaskStatus)
    → transitions a TaskStatus.submitted ≡ true
    → submit_moves a TaskStatus.submitted ≡ true
unfolding transitions
submit_listed a legal = ground arith

pub examine_listed :
    (a : TaskStatus)
    → transitions a TaskStatus.reviewing ≡ true
    → examine_moves a TaskStatus.reviewing ≡ true
unfolding transitions
examine_listed a legal = ground arith

pub fail_listed :
    (a : TaskStatus)
    → transitions a TaskStatus.failed ≡ true
    → fail_moves a TaskStatus.failed ≡ true
unfolding transitions
fail_listed a legal = ground arith

pub refresh_accepting : (a b : TaskStatus) → refresh_moves a b ≡ true → accept_moves a b ≡ true
refresh_accepting a b h = ground arith

pub examine_accepting : (a b : TaskStatus) → examine_moves a b ≡ true → accept_moves a b ≡ true
examine_accepting a b h = ground arith

pub resume_listed :
    (a : TaskStatus) → is_assigned a ≡ true → resume_moves a TaskStatus.failed ≡ true
resume_listed a held = ground arith
