-- ===== src/Scoring.antt =====
-- The competition scoring engine: internal/service/competition.
pub mod Types
pub mod Sort
pub mod Rank
pub mod Standing
pub mod ThreeWay
pub mod Scorer
pub mod TopZone
pub mod CountBack
pub mod TopOrder
pub mod Float
pub mod Points
pub mod Tally
pub mod TopScore
pub mod PointsScore
pub mod DecayScore
pub mod PointsOrder
pub mod Standings
pub mod Registry
mod Tests
