-- ===== src/Jobs/Store/Queries.antt =====
-- jobs/job-store.ts: the reads of the store, and its event log (the outbox).
use backtester.Prelude.{
  ℕ, String, List, [], ◌∷◌, ◌++◌, Option, none, some, Bool, true, false, not, ◌||◌, ltb,
  if◌then◌else◌, str_eq, truthy, opt_str_eq, get_or, filter, sort, take, ◌+◌,
}
use backtester.Prelude.Int.{ℤ, sub_ℕ}
use backtester.OrderedMap.{values}
use backtester.Json.{Json}
use backtester.Jobs.Lifecycle.{RunStatus, accepted, queued, run, status_eq, public_status}
use backtester.Jobs.Row.{
  JobRow, RunTimelineEntry, JobEventRow, DeliveryState, pending, delivered, failed,
}
use backtester.Jobs.Store.{Store}

pub record ListFilter : Type 0 where
  pub status : Option RunStatus
  pub correlation_id : Option String
  pub workflow_id : Option String

abbrev status_passes : Option RunStatus → JobRow → Bool
status_passes none j = true
status_passes (some s) j = status_eq j.status (run s)

-- `!wanted || actual === wanted`; an empty text is no filter.
abbrev text_passes : Option String → Option String → Bool
text_passes none actual = true
text_passes (some wanted) actual = not (truthy wanted) || opt_str_eq actual wanted

unfoldable pub list : Store → ListFilter → List JobRow
list st f =
    sort (λ (a b : JobRow). ltb a.accepted_at_ms b.accepted_at_ms)
      (filter (λ j. text_passes f.workflow_id j.workflow_id)
        (filter (λ j. text_passes f.correlation_id j.correlation_id)
          (filter (status_passes f.status) (values st.jobs))))

pub record QueueStats : Type 0 where
  pub depth : ℕ
  pub oldest_queued_age_ms : Option ℤ

-- `oldest === undefined || ts < oldest` picks `ts`.
abbrev older : ℕ → Option ℕ → Option ℕ
older ts none = some ts
older ts (some o) = if ltb ts o then some ts else some o

-- The loop of `countQueueStats`.
count_queue : List JobRow → ℕ → Option ℕ → ℕ × Option ℕ
count_queue [] depth oldest = (depth, oldest)
count_queue (j ∷ js) depth oldest =
    let queued_row = status_eq j.status (run queued) in
    let ts = get_or j.queued_at_ms j.accepted_at_ms in
    count_queue js (if queued_row then depth + 1 else depth)
      (if queued_row then older ts oldest else oldest)

abbrev age : ℕ → Option ℕ → Option ℤ
age now none = none
age now (some ts) = some (sub_ℕ now ts)

unfoldable pub count_queue_stats : Store → ℕ → QueueStats
unfolding count_queue
count_queue_stats st now =
    let (depth, oldest) = count_queue (values st.jobs) 0 none in
    record { depth = depth; oldest_queued_age_ms = age now oldest }

unfoldable pub append_event : Store → JobEventRow → Store
append_event st ev = record st { events = st.events ++ ev ∷ [] }

unfoldable pub list_events : Store → String → List JobEventRow
list_events st run_id = filter (λ e. str_eq e.run_id run_id) st.events

abbrev pub is_deliverable : Option DeliveryState → Bool
is_deliverable none = false
is_deliverable (some pending) = true
is_deliverable (some delivered) = false
is_deliverable (some failed) = true

unfoldable pub list_deliverable : Store → ℕ → List JobEventRow
list_deliverable st limit = take limit (
    sort (λ (a b : JobEventRow). ltb a.created_at_ms b.created_at_ms)
      (filter (λ e. is_deliverable e.delivery_state) st.events))

abbrev pub marked : Bool → JobEventRow → JobEventRow
marked ok ev = record ev {
  delivery_state = some (if ok then delivered else failed);
  delivery_attempts = some (get_or ev.delivery_attempts 0 + 1);
}

-- `find` takes the first event with the uid.
unfoldable pub mark_first : String → Bool → List JobEventRow → List JobEventRow
mark_first uid ok [] = []
mark_first uid ok (ev ∷ evs) =
    if str_eq ev.event_uid uid then marked ok ev ∷ evs else ev ∷ mark_first uid ok evs

unfoldable pub mark_delivered : Store → String → Bool → Store
unfolding mark_first
mark_delivered st uid ok = record st { events = mark_first uid ok st.events }

pub record RunStatusView : Type 0 where
  pub run_id : String
  pub job_id : String
  pub status : RunStatus
  pub timeline : List RunTimelineEntry
  pub terminal_code : Option String
  pub terminal_issues : Option Json

unfoldable pub to_status_view : JobRow → RunStatusView
to_status_view job = record {
  run_id = job.run_id;
  job_id = job.job_id;
  status = public_status job.status;
  timeline = job.timeline;
  terminal_code = job.terminal_code;
  terminal_issues = job.terminal_issues;
}

pub record RunJobHandle : Type 0 where
  pub job_id : String
  pub run_id : String
  pub status : RunStatus
  pub effective_seed : String
  pub request_fingerprint : String
  pub idempotent_replay : Bool
  pub correlation_id : Option String
  pub workflow_id : Option String

unfoldable pub to_handle : JobRow → Bool → RunJobHandle
to_handle job replay = record {
  job_id = job.job_id;
  run_id = job.run_id;
  status = accepted;
  effective_seed = job.effective_seed;
  request_fingerprint = job.request_fingerprint;
  idempotent_replay = replay;
  correlation_id = job.correlation_id;
  workflow_id = job.workflow_id;
}
