-- ===== src/Authz.antt =====
-- internal/middleware/authz.go: who passes the checks of membership and role.
pub mod Middleware
pub mod Highest
mod Tests
