-- ===== src/Engine.antt =====
-- The modelled parts of apps/backtester/src/engine.
pub mod Overlay
pub mod Windows
pub mod Merge
pub mod ThreadPool
