-- ===== src/Leaderboard.antt =====
-- The leaderboard of a competition: internal/handler/comp_leaderboard.go.
pub mod Types
pub mod Board
pub mod Grouping
pub mod Entries
pub mod Standing
pub mod Contract
pub mod Bounds
pub mod Ranking
pub mod Queries
pub mod BoardCache
pub mod Endpoint
pub mod Visible
pub mod Answers
pub mod CacheLaws
pub mod Overlap
pub mod Staleness
pub mod FromTables
mod Tests
