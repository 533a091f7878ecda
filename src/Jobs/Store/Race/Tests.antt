-- ===== src/Jobs/Store/Race/Tests.antt =====
-- A claim of a queued job that is canceled meanwhile.
use backtester.Jobs.Store.{Lease}

abbrev worker : Lease
worker = record { worker_id = "w1"; ttl_ms = 30 }
