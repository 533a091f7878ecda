-- ===== src/Jobs/Submit.antt =====
-- jobs/submit.ts: a submission is validated, matched with an earlier one of its resume token, held
-- back if the queue is full, and else inserted and queued.
pub mod Validate
pub mod Laws
pub mod Creation
pub mod Replay
pub mod Tests
use backtester.Prelude.{
  ℕ, ◌+◌, String, List, [], ◌∷◌, Option, none, some, Bool, true, false, not, ◌&&◌, leb, str_eq,
  truthy, truthy?, opt_str_eq, get_or, if◌then◌else◌,
}
use backtester.Json.{Json, obj, field, end, str, int}
use backtester.Jobs.Lifecycle.{run, accepted, queued}
use backtester.Jobs.Row.{
  JobRow, NewJob, JobEventRow, JobEventType, job_accepted, job_queued, job_started, job_completed,
  job_failed, job_canceled, job_expired, job_timed_out, RunSubmitRequest,
}
use backtester.Jobs.Fingerprint.{Normalized, normalize}
use backtester.Jobs.Store.{
  Store, insert_or_get, find_by_resume_token, transition, no_patch, get_job,
}
use backtester.Jobs.Store.Queries.{append_event, count_queue_stats, RunJobHandle, to_handle}
use backtester.Jobs.Store.History.{Call, after}
use backtester.Jobs.Submit.Validate.{Body, Bundle, ValidationIssue, Guards, validate, request_of}

-- Each error that `submitRun` throws.
pub data SubmitError : Type 0 where
  overlay_disabled : SubmitError
  invalid : ValidationIssue → SubmitError
  queue_full : ℕ → ℕ → SubmitError
  two_bundles malformed_bundle_ref bundles_disabled unknown_bundle : SubmitError
  resume_token_conflict : SubmitError

unfoldable pub status_code : SubmitError → ℕ
status_code overlay_disabled = 400
status_code (invalid issue) = 400
status_code (queue_full depth cap) = 429
status_code two_bundles = 400
status_code malformed_bundle_ref = 400
status_code bundles_disabled = 400
status_code unknown_bundle = 409
status_code resume_token_conflict = 409

pub data SubmitOutcome : Type 0 where
  thrown : SubmitError → SubmitOutcome
  submitted : RunJobHandle → Bool → SubmitOutcome

-- The part of the bundle store that is called: `has` and `put`.
pub record BundleStore : Type 0 where
  pub has : String → Bool
  pub put : Bundle → String

pub record SubmitDeps : Type 0 where
  pub guards : Guards
  pub default_queue_timeout_ms : ℕ
  pub default_run_timeout_ms : ℕ
  pub enable_overlay_engine : Bool
  pub bundle_store : Option BundleStore
  pub queue_max_depth : Option ℕ
  -- `CONTENT_HASH_RE`, the digest of canonical JSON and the hash of a bundle.
  pub is_content_hash : String → Bool
  pub digest : Normalized → String
  pub bundle_hash : Bundle → String

-- What the clock and `uid` return during one submission.
pub record Draws : Type 0 where
  pub run_uid : String
  pub accepted_uid : String
  pub queued_uid : String
  pub now : ℕ
  pub queued_at : ℕ

-- `undefined` and the empty text are falsy.
abbrev pub named_bundle : Body → Bool
named_bundle b = truthy? b.bundle_ref

abbrev pub run_id_of : Draws → Body → String
run_id_of draws b = get_or b.run_id draws.run_uid

abbrev pub event_name : JobEventType → String
event_name job_accepted = "job_accepted"
event_name job_queued = "job_queued"
event_name job_started = "job_started"
event_name job_completed = "job_completed"
event_name job_failed = "job_failed"
event_name job_canceled = "job_canceled"
event_name job_expired = "job_expired"
event_name job_timed_out = "job_timed_out"

abbrev pub event_payload : String → JobEventType → ℕ → Json
event_payload run_id event_type at_ms = obj (
    field "eventType" (str (event_name event_type))
      (field "runId" (str run_id) (field "atMs" (int at_ms) end)))

abbrev pub event_row : String → String → JobEventType → ℕ → JobEventRow
event_row uid run_id event_type at_ms = record {
  event_uid = uid;
  job_id = run_id;
  run_id = run_id;
  event_type = event_type;
  payload = event_payload run_id event_type at_ms;
  created_at_ms = at_ms;
  delivery_state = none;
  delivery_attempts = none;
}

module _ (deps : SubmitDeps) where
  abbrev pub hash_of_bundle : Option Bundle → Option String → Option String
  hash_of_bundle (some bundle) ref = some (deps.bundle_hash bundle)
  hash_of_bundle none ref = ref

  unfoldable pub request_fingerprint : Body → String
  unfolding normalize
  request_fingerprint b =
      deps.digest (normalize (request_of b) (hash_of_bundle b.module_bundle b.bundle_ref))

  unfoldable pub stored_request_fingerprint : RunSubmitRequest → Option String → String
  unfolding normalize
  stored_request_fingerprint req bundle_hash_value = deps.digest (normalize req bundle_hash_value)

  -- What a job of the same token answers: its handle if its request is the same.
  abbrev pub replayed : JobRow → String → SubmitOutcome
  replayed job fingerprint =
      if str_eq (stored_request_fingerprint job.request job.bundle_hash) fingerprint
      then submitted (to_handle job true) false
      else thrown resume_token_conflict

  abbrev pub existing_of : Store → Option String → Option JobRow
  existing_of st none = none
  existing_of st (some token) = find_by_resume_token st token

  abbrev pub is_full : Store → ℕ → ℕ → Bool
  is_full st now cap = leb 1 cap && leb cap (count_queue_stats st now).depth

  abbrev pub new_job : Body → Draws → Option String → NewJob
  new_job b draws stored_bundle_hash = record {
    job_id = run_id_of draws b;
    run_id = run_id_of draws b;
    resume_token = b.resume_token;
    request_fingerprint = request_fingerprint b;
    correlation_id = b.correlation_id;
    workflow_id = b.workflow_id;
    request = record (request_of b) {
      run_id = some (run_id_of draws b);
      metrics = some (get_or (request_of b).metrics []);
    };
    effective_seed = (request_of b).seed;
    dataset_ref = b.dataset_ref;
    bundle_hash = stored_bundle_hash;
    callback_url = b.callback_url;
    queue_deadline_ms = some (draws.now + get_or b.queue_timeout_ms deps.default_queue_timeout_ms);
    run_timeout_ms = get_or b.run_timeout_ms deps.default_run_timeout_ms;
    accepted_at_ms = draws.now;
  }

  -- After the move to queued was won or lost; when it was lost the row is read again.
  abbrev pub after_queueing : Draws → String → JobRow → Store × Bool → Store × SubmitOutcome
  after_queueing draws run_id job (st, true) = (
    append_event st (event_row draws.queued_uid run_id job_queued draws.queued_at),
    submitted (to_handle job false) true,
  )
  after_queueing draws run_id job (st, false) =
      (st, submitted (to_handle (get_or (get_job st run_id) job) false) true)

  abbrev pub enqueue : Draws → String → JobRow → Store → Store × SubmitOutcome
  enqueue draws run_id job st = after_queueing draws run_id job (
      transition st run_id (run accepted) (run queued)
        (record (no_patch draws.queued_at) { queued_at_ms = some draws.queued_at }) none)

  -- `meanwhile` are the calls of others, such as the reaper, between the insertion and the move.
  abbrev pub after_insert : Body → Draws → List Call → Store × JobRow × Bool → Store × SubmitOutcome
  after_insert b draws meanwhile (st, job, false) = (st, replayed job (request_fingerprint b))
  after_insert b draws meanwhile (st, job, true) = enqueue draws (run_id_of draws b) job (
      after
        (append_event st (event_row draws.accepted_uid (run_id_of draws b) job_accepted draws.now))
        meanwhile)

  abbrev pub insert_new : Body → Draws → List Call → Store → Option String → Store × SubmitOutcome
  insert_new b draws meanwhile st stored_bundle_hash =
      after_insert b draws meanwhile (insert_or_get st (new_job b draws stored_bundle_hash))

  abbrev pub with_ref :
      Body → Draws → List Call → Store → String → Option BundleStore → Store × SubmitOutcome
  with_ref b draws meanwhile st ref none = (st, thrown bundles_disabled)
  with_ref b draws meanwhile st ref (some bundles) =
      if not (bundles.has ref)
      then (st, thrown unknown_bundle)
      else insert_new b draws meanwhile st (some ref)

  abbrev pub with_bundle :
      Body → Draws → List Call → Store → Option Bundle → Option BundleStore → Store × SubmitOutcome
  with_bundle b draws meanwhile st none bundles = insert_new b draws meanwhile st none
  with_bundle b draws meanwhile st (some bundle) none = (st, thrown bundles_disabled)
  with_bundle b draws meanwhile st (some bundle) (some bundles) =
      insert_new b draws meanwhile st (some (bundles.put bundle))

  abbrev pub has_bundle : Option Bundle → Bool
  has_bundle none = false
  has_bundle (some bundle) = true

  abbrev pub store_bundle : Body → Draws → List Call → Store → Store × SubmitOutcome
  store_bundle b draws meanwhile st =
      if has_bundle b.module_bundle && named_bundle b
      then (st, thrown two_bundles)
      else if named_bundle b
      then if not (deps.is_content_hash (get_or b.bundle_ref ""))
        then (st, thrown malformed_bundle_ref)
        else with_ref b draws meanwhile st (get_or b.bundle_ref "") deps.bundle_store
      else with_bundle b draws meanwhile st b.module_bundle deps.bundle_store

  abbrev pub unless_existing :
      Body → Draws → List Call → Store → Option JobRow → Store × SubmitOutcome
  unless_existing b draws meanwhile st (some job) = (st, replayed job (request_fingerprint b))
  unless_existing b draws meanwhile st none =
      if is_full st draws.now (get_or deps.queue_max_depth 0)
      then (
        st,
        thrown (queue_full (count_queue_stats st draws.now).depth (get_or deps.queue_max_depth 0)),
      )
      else store_bundle b draws meanwhile st

  abbrev pub unless_invalid :
      Body → Draws → List Call → Store → Option ValidationIssue → Store × SubmitOutcome
  unless_invalid b draws meanwhile st (some issue) = (st, thrown (invalid issue))
  unless_invalid b draws meanwhile st none =
      unless_existing b draws meanwhile st (existing_of st b.resume_token)

  unfoldable pub submit_run : Body → Draws → List Call → Store → Store × SubmitOutcome
  submit_run b draws meanwhile st =
      if opt_str_eq b.engine "overlay" && not deps.enable_overlay_engine
      then (st, thrown overlay_disabled)
      else unless_invalid b draws meanwhile st (validate deps.guards b)
