-- ===== src/Jobs.antt =====
-- The job queue in Postgres: internal/jobs/queue.go.
pub mod Queue
pub mod Rows
pub mod Claim
pub mod Backoff
pub mod Budget
pub mod Drain
mod Tests
