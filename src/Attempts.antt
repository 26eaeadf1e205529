-- ===== src/Attempts.antt =====
-- Climber actions on competition problems: internal/repository/competition_attempt.go and
-- internal/handler/comp_action.go.
pub mod Types
pub mod Store
pub mod Action
pub mod Submit
pub mod Rows
pub mod Transaction
pub mod Apply
pub mod Undo
pub mod Logged
pub mod Idempotent
pub mod Sound
pub mod Turns
pub mod Request
mod Tests
