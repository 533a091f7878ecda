-- ===== src/Jobs/Store/Reap.antt =====
-- jobs/job-store.ts: `reapDeadlines`. A pass is one step, with no call of others at the awaits of its
-- loop, though a transition that the source awaits lets one in before the lease is cleared.
pub mod Moves
pub mod Rows
pub mod Loop
pub mod Overdue
use backtester.Prelude.{
  ℕ, ◌+◌, String, List, [], ◌∷◌, ◌++◌, Option, none, some, Bool, true, false, not, ◌&&◌, ◌||◌, ltb,
  leb, if◌then◌else◌, get_or,
}
use backtester.OrderedMap.{get, keys, modify}
use backtester.Jobs.Lifecycle.{
  queued, running, failed, expired, accepted, timed_out, run, waiting_for_compute, status_eq,
  is_terminal,
}
use backtester.Jobs.Row.{JobRow}
use backtester.Jobs.Store.{Store, transition, no_patch, failure}

pub record ReapOptions : Type 0 where
  pub lease_max_attempts : Option ℕ
  pub coalesce_enabled : Option Bool
  pub compute_wait_max_attempts : Option ℕ

-- The options with their defaults filled in.
pub record Limits : Type 0 where
  pub max_attempts : ℕ
  pub wait_cap : ℕ
  pub coalesce : Bool

unfoldable pub limits_of : ReapOptions → Limits
limits_of opts = record {
  max_attempts = get_or opts.lease_max_attempts 3;
  wait_cap = get_or opts.compute_wait_max_attempts 3;
  coalesce = get_or opts.coalesce_enabled false;
}

-- `deadline !== undefined && nowMs > deadline`.
abbrev pub past : ℕ → Option ℕ → Bool
past now none = false
past now (some deadline) = ltb deadline now

-- `charged === false`.
abbrev pub is_uncharged : Option Bool → Bool
is_uncharged none = false
is_uncharged (some charged) = not charged

unfoldable pub drop_lease : JobRow → JobRow
drop_lease job = record job { leased_by = none; lease_expires_at = none }

unfoldable pub uncharge : Bool → JobRow → JobRow
uncharge coalesce job = if coalesce then record job { engine_attempt_charged = some false } else job

-- After a won move back to the queue the lease is cleared on the row.
abbrev after_requeue : String → (JobRow → JobRow) → Store × Bool → Store
after_requeue run_id f (st, false) = st
after_requeue run_id f (st, true) = record st { jobs = modify run_id f st.jobs }

module _ (l : Limits) (now : ℕ) where
  -- A lease ran out before the engine was charged: count the wait, or give the job up.
  unfoldable pub reap_uncharged : Store → JobRow → Store × Bool
  reap_uncharged st job =
      if leb l.wait_cap job.compute_wait_attempts
      then transition st job.run_id (run running) (run failed)
          (failure now "compute_wait_exhausted") none
      else (
        after_requeue job.run_id drop_lease (
            transition st job.run_id (run running) (run queued)
              (record (no_patch now) {
                queued_at_ms = some now;
                compute_wait_attempts = some (job.compute_wait_attempts + 1);
              })
              none),
        false,
      )

  unfoldable pub requeue_stale : Store → JobRow → Store × Bool
  requeue_stale st job = (
    after_requeue job.run_id (λ row. uncharge l.coalesce (drop_lease row))
        (transition st job.run_id (run running) (run queued)
          (record (no_patch now) { queued_at_ms = some now }) none),
    false,
  )

  abbrev pub lease_stale : JobRow → Bool
  lease_stale job = past now job.lease_expires_at

  abbrev pub run_stale : JobRow → Bool
  run_stale job = past now job.run_deadline_ms

  unfoldable pub reap_running : Store → JobRow → Store × Bool
  unfolding reap_uncharged requeue_stale
  reap_running st job =
      if l.coalesce && (lease_stale job && is_uncharged job.engine_attempt_charged)
      then reap_uncharged st job
      else if lease_stale job && leb l.max_attempts job.attempts
      then transition st job.run_id (run running) (run failed) (failure now "lease_expired") none
      else if lease_stale job
      then requeue_stale st job
      else if run_stale job
      then transition st job.run_id (run running) (run timed_out)
          (failure now "run_deadline_exceeded") none
      else (st, false)

  -- One round of the loop; the flag tells whether the row was reaped.
  unfoldable pub reap_job : Store → JobRow → Store × Bool
  unfolding reap_running
  reap_job st job =
      if is_terminal job.status
      then (st, false)
      else if (status_eq job.status (run queued) || status_eq job.status (run accepted))
          && past now job.queue_deadline_ms
      then transition st job.run_id job.status (run expired) (failure now "queue_deadline_exceeded")
          none
      else if status_eq job.status (run running)
      then reap_running st job
      else if status_eq job.status waiting_for_compute && run_stale job
      then transition st job.run_id waiting_for_compute (run timed_out)
          (failure now "run_deadline_exceeded") none
      else (st, false)

  -- `reaped.push(job)`: the object, so the row as it now is.
  abbrev reaped_row : String → Store × Bool → List JobRow
  reaped_row k (st, false) = []
  reaped_row k (st, true) = elim (get k st.jobs) [ none ↦ [] | some job ↦ job ∷ [] ]

  abbrev reap_key : Store → String → Store × Bool
  reap_key st k = elim (get k st.jobs) [ none ↦ (st, false) | some job ↦ reap_job st job ]

  pub reap_keys : Store → List String → Store × List JobRow
  reap_keys st [] = (st, [])
  reap_keys st (k ∷ ks) =
      let round = reap_key st k in
      let (st', later) = reap_keys round.0 ks in (st', reaped_row k round ++ later)

unfoldable pub reap_deadlines : Store → ℕ → ReapOptions → Store × List JobRow
unfolding reap_keys limits_of
reap_deadlines st now opts = reap_keys (limits_of opts) now st (keys st.jobs)
