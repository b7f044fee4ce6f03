-- ===== src/Core.antt =====
-- services/core_engine: real trades on the exchange.
pub mod Ids
pub mod Risk
pub mod Orders
pub mod Entry
pub mod Trades
pub mod Lifecycle
pub mod Repository
pub mod Reconciliation
pub mod Safety
pub mod Engine
