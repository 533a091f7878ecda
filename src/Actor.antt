-- ===== src/Actor.antt =====
-- The modelled parts of apps/backtester/src/engine/actor.
pub mod Commands
pub mod Risk
pub mod EngineState
pub mod Timeline
pub mod Tests
