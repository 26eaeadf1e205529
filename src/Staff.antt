-- ===== src/Staff.antt =====
-- internal/handler/comp_verify.go: how staff sign off on an attempt, and replace its state.
pub mod Endpoints
pub mod Cases
pub mod Override
pub mod Reverted
pub mod Verify
mod Tests
