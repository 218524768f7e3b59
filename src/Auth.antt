-- ===== src/Auth.antt =====
-- internal/auth: who calls, and what they may touch.
pub mod Access
pub mod Bearer
pub mod RateLimit
pub mod Buckets
