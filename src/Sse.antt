-- ===== src/Sse.antt =====
-- internal/sse/hub.go: the fan-out of frames to the subscribers of a topic.
pub mod Hub
pub mod Distinct
pub mod Channels
pub mod Safe
pub mod Delivery
mod Tests
