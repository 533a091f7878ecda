-- ===== src/Jobs/ComputeLock.antt =====
-- jobs/coalesce/compute-lock.ts: `InMemoryComputeLockStore`, the lock on a computation in flight.
pub mod Exclusion
use backtester.Prelude.{
  ℕ, ◌+◌, String, Option, none, some, Bool, true, false, ◌&&◌, leb, str_eq, if◌then◌else◌, get_or,
}
use backtester.OrderedMap.{OrderedMap, get, set, delete, modify}
use backtester.Jobs.Sweep

pub record ComputeLock : Type 0 where
  pub compute_identity : String
  pub leader_run_id : String
  pub lock_owner_worker_id : String
  pub lock_expires_at_ms : ℕ
  pub created_at_ms : ℕ
  pub updated_at_ms : ℕ

abbrev pub Locks : Type 0
Locks = OrderedMap ComputeLock

-- `existing && nowMs <= existing.lockExpiresAtMs`.
abbrev pub is_alive : ℕ → Option ComputeLock → Bool
is_alive now none = false
is_alive now (some row) = leb now row.lock_expires_at_ms

abbrev pub created : ℕ → Option ComputeLock → ℕ
created now none = now
created now (some row) = row.created_at_ms

abbrev pub new_lock : String → String → String → ℕ → ℕ → ℕ → ComputeLock
new_lock ci leader worker now ttl created_at = record {
  compute_identity = ci;
  leader_run_id = leader;
  lock_owner_worker_id = worker;
  lock_expires_at_ms = now + ttl;
  created_at_ms = created_at;
  updated_at_ms = now;
}

unfoldable pub acquire : Locks → String → String → String → ℕ → ℕ → Locks × Bool
acquire rows ci leader worker now ttl =
    let existing = get ci rows in
    if is_alive now existing
    then (rows, false)
    else (set ci (new_lock ci leader worker now ttl (created now existing)) rows, true)

-- `row && row.lockOwnerWorkerId === workerId`.
abbrev pub owned_by : String → Option ComputeLock → Bool
owned_by worker none = false
owned_by worker (some row) = str_eq row.lock_owner_worker_id worker

abbrev extend_to : ℕ → ComputeLock → ComputeLock
extend_to at row = record row { lock_expires_at_ms = at; updated_at_ms = at }

unfoldable pub renew : Locks → String → String → ℕ → Locks
renew rows ci worker until =
    if owned_by worker (get ci rows) then modify ci (extend_to until) rows else rows

unfoldable pub expire : Locks → String → String → ℕ → Locks
expire rows ci worker now =
    if owned_by worker (get ci rows) then modify ci (extend_to now) rows else rows

abbrev led_by : String → Option ComputeLock → Bool
led_by leader none = false
led_by leader (some row) = str_eq row.leader_run_id leader

unfoldable pub release : Locks → String → String → String → Locks
release rows ci worker leader =
    if owned_by worker (get ci rows) && led_by leader (get ci rows) then delete ci rows else rows

abbrev lock_key : ComputeLock → String
lock_key r = r.compute_identity

abbrev lock_stamp : ComputeLock → ℕ
lock_stamp r = r.lock_expires_at_ms

unfoldable pub sweep_expired : Locks → ℕ → ℕ → ℕ → Locks × ℕ
unfolding Sweep.sweep
sweep_expired rows now older_than limit = Sweep.sweep lock_key lock_stamp rows now older_than limit

unfoldable pub get_lock : Locks → String → Option ComputeLock
get_lock rows ci = get ci rows
