-- ===== src/Jobs.antt =====
-- apps/backtester/src/jobs: the asynchronous life of a run.
pub mod Lifecycle
pub mod Row
pub mod Keys
pub mod Store
pub mod Sweep
pub mod ComputeLock
pub mod ResultCache
pub mod Ledger
pub mod Wake
pub mod Completion
pub mod Fingerprint
pub mod Submit
pub mod Tests
