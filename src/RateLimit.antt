-- ===== src/RateLimit.antt =====
-- RateLimiter of internal/middleware/security.go.
pub mod Limiter
pub mod Entries
pub mod Bounded
pub mod Live
pub mod Budget
mod Tests
