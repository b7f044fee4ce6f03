-- ===== src/Tests.antt =====
-- Concrete runs of the modelled code.
mod Signal
pub mod Simulated
mod Orders
mod Plans
mod Ticks
mod Retry
mod RateLimit
mod Lifecycle
mod Reconciliation
mod Safety
mod DemoEngine
mod CoreEngine
