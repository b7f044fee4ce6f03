-- ===== src/Signal.antt =====
-- shared/signal: what a channel message becomes before any engine sees it.
pub mod Types
pub mod Pnl
pub mod Sizing
pub mod Sanitizer
