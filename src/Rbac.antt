-- ===== src/Rbac.antt =====
-- Roles and permissions: internal/rbac/rbac.go.
pub mod Matrix
pub mod Access
mod Tests
