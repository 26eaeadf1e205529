-- ===== src/Events.antt =====
-- The event bus: internal/event/memory.go.
pub mod Bus
pub mod Sums
pub mod Moves
pub mod Quiet
pub mod Delivery
mod Tests
