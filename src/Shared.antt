-- ===== src/Shared.antt =====
-- shared/: helpers that several services use.
pub mod Retry
pub mod RateLimit
