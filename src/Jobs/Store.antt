-- ===== src/Jobs/Store.antt =====
-- jobs/job-store.ts: `InMemoryJobStore`. A row is an object that the map holds; a call returns the
-- row as it is after the call. Calls run one after another: each is one step, also where the source
-- awaits inside it, as `claimNextQueued` does before it writes the lease and `reapDeadlines` does in
-- its loop. What lands at such an await is not modelled here.
pub mod Reap
pub mod Claim
pub mod Queries
pub mod Evolution
pub mod Moves
pub mod History
pub mod Replay
pub mod Race
use backtester.Prelude.{
  ℕ, ◌+◌, String, List, [], ◌∷◌, ◌++◌, Option, none, some, Bool, true, false, not, ◌&&◌, ◌||◌, ◌==◌,
  ltb, str_eq, str_ltb, if◌then◌else◌, get_or, override, truthy, truthy?, opt_str_eq, filter, sort,
  take, length,
}
use backtester.OrderedMap.{OrderedMap, get, set, values, modify, map_values}
use backtester.Jobs.Lifecycle.{
  RunStatus, accepted, queued, running, failed, InternalJobStatus, run, waiting_for_compute,
  status_eq, public_status, can_transition,
}
use backtester.Jobs.Row.{
  JobRow, NewJob, JobRowPatch, RunTimelineEntry, JobEventRow, DeliveryState, pending, delivered,
  ComputeWakeReason,
}

pub record Store : Type 0 where
  pub jobs : OrderedMap JobRow
  -- The run id that a resume token, or a run id, stands for.
  pub by_key : OrderedMap String
  pub events : List JobEventRow

abbrev pub new_store : Store
new_store = record { jobs = []; by_key = []; events = [] }

-- The row that `insertOrGet` writes.
unfoldable pub row_of : NewJob → JobRow
row_of job = record {
  job_id = job.job_id;
  run_id = job.run_id;
  resume_token = job.resume_token;
  request_fingerprint = job.request_fingerprint;
  correlation_id = job.correlation_id;
  workflow_id = job.workflow_id;
  status = run accepted;
  request = job.request;
  effective_seed = job.effective_seed;
  dataset_ref = job.dataset_ref;
  dataset_fingerprint = none;
  bundle_hash = job.bundle_hash;
  callback_url = job.callback_url;
  queue_deadline_ms = job.queue_deadline_ms;
  run_timeout_ms = job.run_timeout_ms;
  run_deadline_ms = none;
  leased_by = none;
  lease_expires_at = none;
  attempts = 0;
  accepted_at_ms = job.accepted_at_ms;
  queued_at_ms = none;
  started_at_ms = none;
  terminal_at_ms = none;
  last_activity_ms = none;
  result_summary = none;
  result_hash = none;
  artifact_manifest = none;
  terminal_code = none;
  terminal_issues = none;
  deduped_from = none;
  compute_wait_attempts = 0;
  compute_identity = none;
  wait_deadline_ms = none;
  compute_wake_reason = none;
  engine_attempt_charged = none;
  timeline = record { status = accepted; at_ms = job.accepted_at_ms } ∷ [];
}

-- An empty id is falsy, and counts as no entry.
abbrev existing_run : Option String → OrderedMap JobRow → Option JobRow
existing_run none jobs = none
existing_run (some run_id) jobs = if truthy run_id then get run_id jobs else none

abbrev pub insert_key : NewJob → String
insert_key job = get_or job.resume_token job.run_id

unfoldable pub insert_or_get : Store → NewJob → Store × JobRow × Bool
insert_or_get st job = elim (existing_run (get (insert_key job) st.by_key) st.jobs) [
  | some existing ↦ (st, existing, false)
  | none ↦ (
    record st {
      jobs = set job.run_id (row_of job) st.jobs;
      by_key = set (insert_key job) job.run_id st.by_key;
    },
    row_of job,
    true,
  )
]

abbrev held_by_token : String → Option JobRow → Option JobRow
held_by_token token none = none
held_by_token token (some job) = if opt_str_eq job.resume_token token then some job else none

unfoldable pub find_by_resume_token : Store → String → Option JobRow
find_by_resume_token st token = held_by_token token (existing_run (get token st.by_key) st.jobs)

unfoldable pub get_job : Store → String → Option JobRow
get_job st run_id = get run_id st.jobs

-- When a job came into the queue.
abbrev pub queue_time : JobRow → ℕ
queue_time j = get_or j.queued_at_ms j.accepted_at_ms

abbrev has_status : InternalJobStatus → JobRow → Bool
has_status s j = status_eq j.status s

abbrev pub recorded_status : InternalJobStatus → RunStatus
recorded_status (run s) = s
recorded_status waiting_for_compute = running

abbrev pub entry : InternalJobStatus → ℕ → RunTimelineEntry
entry s at = record { status = recorded_status s; at_ms = at }

-- What `transition` writes once its guards have passed.
unfoldable pub apply_patch : JobRow → InternalJobStatus → InternalJobStatus → JobRowPatch → JobRow
apply_patch job from to patch = record job {
  status = to;
  queued_at_ms = override patch.queued_at_ms job.queued_at_ms;
  started_at_ms = override patch.started_at_ms job.started_at_ms;
  terminal_at_ms = override patch.terminal_at_ms job.terminal_at_ms;
  last_activity_ms = override patch.last_activity_ms job.last_activity_ms;
  run_deadline_ms = override patch.run_deadline_ms job.run_deadline_ms;
  result_summary = override patch.result_summary job.result_summary;
  result_hash = override patch.result_hash job.result_hash;
  artifact_manifest = override patch.artifact_manifest job.artifact_manifest;
  dataset_fingerprint = override patch.dataset_fingerprint job.dataset_fingerprint;
  terminal_code = override patch.terminal_code job.terminal_code;
  terminal_issues = override patch.terminal_issues job.terminal_issues;
  deduped_from = override patch.deduped_from job.deduped_from;
  compute_wait_attempts = get_or patch.compute_wait_attempts job.compute_wait_attempts;
  compute_identity = override patch.compute_identity job.compute_identity;
  wait_deadline_ms = override patch.wait_deadline_ms job.wait_deadline_ms;
  compute_wake_reason = override patch.compute_wake_reason job.compute_wake_reason;
  engine_attempt_charged = override patch.engine_attempt_charged job.engine_attempt_charged;
  attempts = get_or patch.attempts job.attempts;
  timeline = if status_eq from to then job.timeline else job.timeline ++ entry to patch.at_ms ∷ [];
}

-- `expectLeasedBy !== undefined && job.leasedBy !== expectLeasedBy`.
abbrev foreign_lease : Option String → Option String → Bool
foreign_lease none leased = false
foreign_lease (some worker) leased = not (opt_str_eq leased worker)

-- The guards of `transition` on the row that it finds.
abbrev pub may_move : JobRow → InternalJobStatus → InternalJobStatus → Option String → Bool
may_move job from to expect =
    status_eq job.status from && can_transition from to && not (foreign_lease expect job.leased_by)

unfoldable pub transition :
    Store
    → String
    → InternalJobStatus
    → InternalJobStatus
    → JobRowPatch
    → Option String
    → Store × Bool
transition st run_id from to patch expect = elim (get run_id st.jobs) [
  | none ↦ (st, false)
  | some job ↦
      if may_move job from to expect
      then (record st { jobs = set run_id (apply_patch job from to patch) st.jobs }, true)
      else (st, false)
]

abbrev pub no_patch : ℕ → JobRowPatch
no_patch at = record {
  at_ms = at;
  queued_at_ms = none;
  started_at_ms = none;
  terminal_at_ms = none;
  last_activity_ms = none;
  run_deadline_ms = none;
  result_summary = none;
  result_hash = none;
  artifact_manifest = none;
  dataset_fingerprint = none;
  terminal_code = none;
  terminal_issues = none;
  deduped_from = none;
  compute_wait_attempts = none;
  compute_identity = none;
  wait_deadline_ms = none;
  compute_wake_reason = none;
  engine_attempt_charged = none;
  attempts = none;
}

-- Earlier in the queue first, then by run id.
abbrev pub before : JobRow → JobRow → Bool
before a b =
    ltb (queue_time a) (queue_time b) || (queue_time a == queue_time b && str_ltb a.run_id b.run_id)

abbrev pub head? {ℓ} : {A : Type ℓ} → List A → Option A
head? [] = none
head? (x ∷ xs) = some x

pub record Lease : Type 0 where
  pub worker_id : String
  pub ttl_ms : ℕ

-- The fields that a claim under a lease sets; the charge is deferred when coalescing.
unfoldable pub take_lease : ℕ → Option Lease → Bool → JobRow → JobRow
take_lease now none coalesce job = job
take_lease now (some lease) coalesce job = record job {
  leased_by = some lease.worker_id;
  lease_expires_at = some (now + lease.ttl_ms);
  attempts = if coalesce then job.attempts else job.attempts + 1;
}

abbrev pub start_patch : ℕ → JobRow → JobRowPatch
start_patch now job = record (no_patch now) {
  started_at_ms = some now;
  last_activity_ms = some now;
  run_deadline_ms = some (now + job.run_timeout_ms);
}

-- A claim that won its move takes the lease, and returns the row.
abbrev pub settle_claim : ℕ → Option Lease → Bool → String → Store × Bool → Store × Option JobRow
settle_claim now lease coalesce run_id (st, false) = (st, none)
settle_claim now lease coalesce run_id (st, true) =
    let jobs = modify run_id (take_lease now lease coalesce) st.jobs in
    (record st { jobs = jobs }, get run_id jobs)

unfoldable pub claim_job : Store → ℕ → Option Lease → Bool → JobRow → Store × Option JobRow
claim_job st now lease coalesce next =
    settle_claim now lease coalesce next.run_id
      (transition st next.run_id (run queued) (run running) (start_patch now next) none)

abbrev pub queue : Store → List JobRow
queue st = sort before (filter (has_status (run queued)) (values st.jobs))

unfoldable pub claim_next_queued : Store → ℕ → Option Lease → Bool → Store × Option JobRow
unfolding claim_job
claim_next_queued st now lease coalesce = elim (head? (queue st)) [
  | none ↦ (st, none)
  | some next ↦ claim_job st now lease coalesce next
]

abbrev pub renew_row : String → ℕ → JobRow → JobRow
renew_row worker until j =
    if status_eq j.status (run running) && opt_str_eq j.leased_by worker
    then record j { lease_expires_at = some until }
    else j

unfoldable pub renew_lease : Store → String → ℕ → Store
renew_lease st worker until = record st { jobs = map_values (renew_row worker until) st.jobs }

unfoldable pub list_compute_waiters : Store → List JobRow
list_compute_waiters st = filter (has_status waiting_for_compute) (values st.jobs)

abbrev pub waits_for : String → JobRow → Bool
waits_for ci j = has_status waiting_for_compute j && opt_str_eq j.compute_identity ci

abbrev pub wake_patch : ℕ → ComputeWakeReason → JobRowPatch
wake_patch now reason = record (no_patch now) {
  compute_wake_reason = some reason;
  engine_attempt_charged = some false;
}

unfoldable pub wake : Store → String → ComputeWakeReason → ℕ → Store × Bool
wake st run_id reason now =
    transition st run_id waiting_for_compute (run queued) (wake_patch now reason) none

-- The loop of `releaseAllComputeWaiters`: rows that a `continue` skips are filtered out first,
-- which is the same, since a round changes no other row.
release_waiters : Store → List JobRow → ComputeWakeReason → ℕ → ℕ → Store × ℕ
release_waiters st [] reason now released = (st, released)
release_waiters st (job ∷ jobs) reason now released =
    let (st', ok) = wake st job.run_id reason now in
    release_waiters st' jobs reason now (if ok then released + 1 else released)

unfoldable pub release_all_compute_waiters : Store → String → ComputeWakeReason → ℕ → Store × ℕ
unfolding release_waiters
release_all_compute_waiters st ci reason now =
    release_waiters st (filter (waits_for ci) (values st.jobs)) reason now 0

unfoldable pub elect_one_compute_waiter :
    Store → String → ComputeWakeReason → ℕ → Store × Option JobRow
elect_one_compute_waiter st ci reason now =
    elim (head? (sort before (filter (waits_for ci) (values st.jobs)))) [
      | none ↦ (st, none)
      | some next ↦
          let (st', ok) = wake st next.run_id reason now in
          (st', if ok then get next.run_id st'.jobs else none)
    ]

abbrev pub failure : ℕ → String → JobRowPatch
failure now code = record (no_patch now) { terminal_at_ms = some now; terminal_code = some code }

unfoldable pub poison_compute_waiter : Store → String → ℕ → Store × Option JobRow
poison_compute_waiter st run_id now =
    let (st', ok) =
      transition st run_id waiting_for_compute (run failed) (failure now "compute_wait_exhausted")
        none in
    (st', if ok then get run_id st'.jobs else none)
