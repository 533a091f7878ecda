-- ===== src/Jobs/Tests.antt =====
-- The theorems on the job store at concrete inputs.
pub mod Coalescing
use backtester.Prelude.{
  ℕ, ◌≤◌, ◌≡◌, ◌≢◌, refl, String, List, [], ◌∷◌, Option, none, some, Bool, true, false, arith,
  get_or, eq_iff,
}
use backtester.OrderedMap.{get, set, keys, modify}
use backtester.Json.{null}
use backtester.Jobs.Lifecycle.{
  run, accepted, queued, running, completed, expired, waiting_for_compute, is_terminal, status_eq,
  can_transition,
}
use backtester.Jobs.Row.{JobRow, NewJob, cache_ready}
use backtester.Jobs.Store.{
  Store, Lease, new_store, row_of, no_patch, insert_or_get, transition, apply_patch, claim_job,
  take_lease,
}
use backtester.Jobs.Store.Evolution.{WellFormed, SameJob, Extends, last_status}
use backtester.Jobs.Store.Queries.{to_status_view}
use backtester.Jobs.Store.History.{
  Call, insert, move, claim, reap, poison, after, step, after-terminal, after-history,
  after-timeline, after-WellFormed,
}
use backtester.Jobs.Store.Replay.{insert_or_get_replay}
use backtester.Jobs.Store.Reap.{ReapOptions, limits_of, past, reap_deadlines}
use backtester.Jobs.Store.Reap.Rows.{reap_row}
use backtester.Jobs.Store.Reap.{drop_lease, uncharge}
use backtester.Jobs.Store.Reap.Overdue.{
  is_overdue, get-reap_deadlines, reap_deadlines-is_overdue, reap_twice_expires,
}

abbrev pub first_job : NewJob
first_job = record {
  job_id = "j1";
  run_id = "r1";
  resume_token = some "token";
  request_fingerprint = "f1";
  correlation_id = none;
  workflow_id = none;
  request = record {
    run_id = none;
    mode = "research";
    module_ref = record { id = "short_after_pump"; version = "1.0.0" };
    dataset_ref = "smoke";
    symbols = "BTCUSDT" ∷ [];
    timeframe = "1m";
    period = record { from = "2026-01-01"; to = "2026-02-01" };
    curated_baseline_ref = none;
    trial_family_hint = none;
    seed = "7";
    metrics = some [];
    engine = none;
    params = none;
    overlay_refs = none;
    risk_profile_ref = none;
    execution_profile_ref = none;
    robustness_checks = none;
    walk_forward = none;
    rest = null;
  };
  effective_seed = "7";
  dataset_ref = "smoke";
  bundle_hash = none;
  callback_url = some "http://lab/hook";
  queue_deadline_ms = some 100;
  run_timeout_ms = 500;
  accepted_at_ms = 5;
}

abbrev second_job : NewJob
second_job = record first_job { job_id = "j2"; run_id = "r2"; accepted_at_ms = 9 }

abbrev pub base_row : JobRow
base_row = record {
  job_id = "j1";
  run_id = "r1";
  resume_token = some "token";
  request_fingerprint = "f1";
  correlation_id = none;
  workflow_id = none;
  status = run running;
  request = first_job.request;
  effective_seed = "7";
  dataset_ref = "smoke";
  dataset_fingerprint = none;
  bundle_hash = none;
  callback_url = some "http://lab/hook";
  queue_deadline_ms = some 100;
  run_timeout_ms = 500;
  run_deadline_ms = some 510;
  leased_by = some "w1";
  lease_expires_at = some 40;
  attempts = 1;
  accepted_at_ms = 5;
  queued_at_ms = some 6;
  started_at_ms = some 10;
  terminal_at_ms = none;
  last_activity_ms = some 10;
  result_summary = none;
  result_hash = none;
  artifact_manifest = none;
  terminal_code = none;
  terminal_issues = none;
  deduped_from = none;
  compute_wait_attempts = 0;
  compute_identity = none;
  wait_deadline_ms = none;
  compute_wake_reason = none;
  engine_attempt_charged = none;
  timeline = record { status = accepted; at_ms = 5 } ∷ [];
}

abbrev pub done_row : JobRow
done_row = record base_row { status = run completed }

-- A running job that lost its lease after its queue deadline.
abbrev stale_row : JobRow
stale_row = record base_row { queue_deadline_ms = some 30 }

abbrev pub holding : JobRow → Store
holding row = record { jobs = (row.run_id, row) ∷ []; by_key = []; events = [] }

abbrev default_options : ReapOptions
default_options = record {
  lease_max_attempts = none;
  coalesce_enabled = none;
  compute_wait_max_attempts = none;
}

abbrev worker_lease : Lease
worker_lease = record { worker_id = "w1"; ttl_ms = 30 }

abbrev queue_call : Call
queue_call =
    move "r1" (run accepted) (run queued) (record (no_patch 6) { queued_at_ms = some 6 }) none

abbrev late_calls : List Call
late_calls = reap 900 default_options ∷ claim 901 (some worker_lease) false ∷ poison "r1" 902 ∷ []

after-terminal_example : get "r1" (after (holding done_row) late_calls).jobs ≡ some done_row
unfolding get is_terminal
after-terminal_example =
    after-terminal (holding done_row) late_calls "r1" done_row (tt, (tt, (tt, tt))) refl refl

after-history_example :
    (b : JobRow) × (get "r1" (after (holding base_row) late_calls).jobs ≡ some b)
    × SameJob base_row b
    × Extends base_row.timeline b.timeline
unfolding get
after-history_example =
    after-history (holding base_row) late_calls "r1" base_row (tt, (tt, (tt, tt))) refl

abbrev begun : List Call
begun = insert first_job ∷ []

after-timeline_example :
    last_status (to_status_view (row_of first_job)).timeline
    ≡ some (to_status_view (row_of first_job)).status
unfolding get set after step insert_or_get
after-timeline_example = after-timeline begun "r1" (row_of first_job) (refl, tt) refl

after-WellFormed_example : WellFormed (after new_store begun)
unfolding get
after-WellFormed_example = after-WellFormed begun (refl, tt)

pub holding-WellFormed : (row : JobRow) → WellFormed (holding row)
unfolding get keys
holding-WellFormed row = record {
  keyed = λ k job e. ground (arith, eq_iff row.run_id k);
  distinct = (tt, tt);
}

abbrev pub waiting_row : JobRow
waiting_row = record base_row { status = run queued; leased_by = none; lease_expires_at = none }

reap_deadlines-is_overdue_example :
    (stale_row.status ≡ run running)
    × (past 60 stale_row.lease_expires_at ≡ true)
    × ((reap_row (limits_of default_options) 60 stale_row).status ≡ run queued)
unfolding get reap_row apply_patch drop_lease uncharge limits_of is_terminal
reap_deadlines-is_overdue_example =
    reap_deadlines-is_overdue (holding stale_row) 60 default_options "r1" stale_row
      (reap_row (limits_of default_options) 60 stale_row) (holding-WellFormed stale_row) refl
      (get-reap_deadlines (holding stale_row) 60 default_options "r1" stale_row
        (holding-WellFormed stale_row) refl)
      refl

reap_twice_expires_example :
    (job1 job' : JobRow) × (get "r1" (reap_deadlines (holding stale_row) 60 default_options).0.jobs
      ≡ some job1)
    × (job1.status ≡ run queued)
    × (get "r1"
          (reap_deadlines
            (reap_deadlines (holding stale_row) 60 default_options).0
            61
            default_options).0.jobs
        ≡ some job')
    × (job'.status ≡ run expired)
    × (job'.terminal_code ≡ some "queue_deadline_exceeded")
unfolding get limits_of
reap_twice_expires_example =
    reap_twice_expires (holding stale_row) 60 61 default_options "r1" stale_row
      (holding-WellFormed stale_row) refl refl refl refl (omega arith) refl (omega arith)

insert_or_get_replay_example :
    let last = after (insert_or_get new_store first_job).0 late_calls in
    (b : JobRow) × (insert_or_get last second_job ≡ (last, b, false))
    × SameJob (insert_or_get new_store first_job).1 b
insert_or_get_replay_example =
    insert_or_get_replay new_store first_job second_job late_calls refl (tt, (tt, (tt, tt))) refl
