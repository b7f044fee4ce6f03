-- ===== src/Demo.antt =====
-- services/demo_engine
pub mod TradeLogic
pub mod Store
pub mod Engine
pub mod Stats
