-- ===== src/Middleware.antt =====
-- internal/middleware: what runs before a handler.
pub mod RepoPrefix
pub mod Access
pub mod Chain
pub mod Identity
pub mod Outer
pub mod Metrics
