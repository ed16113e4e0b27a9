-- ===== src/Models.antt =====
-- walter/models.py and walter/contracts.py: the persisted state of a run.
mod Enums
mod Records
mod Scopes
pub mod BlockerReason
unfoldable pub use Enums.*
pub use Records.*
pub use Scopes.*
