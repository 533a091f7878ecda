-- ===== src/Jobs/Completion.antt =====
-- jobs/completion.ts: the outbox of terminal events and their delivery to webhooks. `postWebhook`
-- is not the program's: whether the n-th post succeeds is a parameter, and so are the event ids. No
-- call of others comes during the await of a post.
pub mod Laws
use backtester.Prelude.{
  ℕ, ◌+◌, String, List, [], ◌∷◌, ◌++◌, Option, none, some, Bool, true, false, if◌then◌else◌,
  truthy?, length,
}
use backtester.Json.{Json, int, num, str, arr, obj, nil, cons, Fields, end, field}
use backtester.OrderedMap.{get}
use backtester.Jobs.Lifecycle.{
  RunStatus, accepted, queued, running, completed, failed, canceled, expired, timed_out,
  InternalJobStatus, run, waiting_for_compute, is_terminal,
}
use backtester.Jobs.Row.{
  JobRow, JobEventType, job_completed, job_failed, job_canceled, job_expired, job_timed_out,
  job_accepted, job_queued, job_started, JobEventRow, pending,
}
use backtester.Jobs.Store.{Store}
use backtester.Jobs.Store.Queries.{append_event, mark_delivered, list_deliverable}
use backtester.Jobs.Store.Reap.{ReapOptions, reap_deadlines}

-- The store, and the posts made so far, latest last: the url and the event.
pub record World : Type 0 where
  pub store : Store
  pub posts : List (String × Json)
  pub uids : ℕ

-- `STATUS_TO_EVENT`, read at terminal statuses only.
abbrev pub event_type_of : InternalJobStatus → JobEventType
event_type_of (run completed) = job_completed
event_type_of (run failed) = job_failed
event_type_of (run canceled) = job_canceled
event_type_of (run expired) = job_expired
event_type_of (run timed_out) = job_timed_out
event_type_of (run accepted) = job_accepted
event_type_of (run queued) = job_queued
event_type_of (run running) = job_started
event_type_of waiting_for_compute = job_started

abbrev pub event_text : JobEventType → String
event_text job_accepted = "job_accepted"
event_text job_queued = "job_queued"
event_text job_started = "job_started"
event_text job_completed = "job_completed"
event_text job_failed = "job_failed"
event_text job_canceled = "job_canceled"
event_text job_expired = "job_expired"
event_text job_timed_out = "job_timed_out"

abbrev pub status_text : InternalJobStatus → String
status_text (run accepted) = "accepted"
status_text (run queued) = "queued"
status_text (run running) = "running"
status_text (run completed) = "completed"
status_text (run failed) = "failed"
status_text (run canceled) = "canceled"
status_text (run expired) = "expired"
status_text (run timed_out) = "timed_out"
status_text waiting_for_compute = "waiting_for_compute"

-- `...(o !== undefined ? { name: o } : {})`.
abbrev optional_field : String → Option String → Fields → Fields
optional_field name none rest = rest
optional_field name (some s) rest = field name (str s) rest

module _ (contract_version : String) where
  unfoldable pub synthesize_summary : JobRow → Json
  synthesize_summary job = obj (
      field "runId" (str job.run_id) (
        field "status" (str (status_text job.status)) (
          field "metrics" (obj end) (
            field "artifactRefs" (arr nil) (
              field "evidence"
                (obj (
                  field "seed" (num job.effective_seed) (
                    field "contractVersion" (str contract_version) (
                      field "moduleVersions"
                        (arr (
                          cons
                            (obj (
                              field "id" (str job.request.module_ref.id)
                                (field "version" (str job.request.module_ref.version) end)))
                            nil))
                        (field "datasetRef" (str job.dataset_ref)
                          (optional_field "datasetFingerprint" job.dataset_fingerprint end))))))
                end)))))

  abbrev summary_of : JobRow → Json
  summary_of job = elim job.result_summary [
    | some summary ↦ summary
    | none ↦ synthesize_summary job
  ]

  unfoldable pub completion_event : JobRow → ℕ → Json
  unfolding synthesize_summary
  completion_event job emitted_at = obj (
      field "eventType" (str (event_text (event_type_of job.status))) (
        field "jobId" (str job.job_id) (
          field "runId" (str job.run_id) (
            field "status" (str (status_text job.status)) (
              optional_field "correlationId" job.correlation_id (
                optional_field "workflowId" job.workflow_id (
                  field "summary" (summary_of job) (field "emittedAtMs" (int emitted_at) end))))))))

module _ (succeeds : ℕ → Bool) where
  unfoldable pub deliver : World → String → String → Json → World
  deliver w event_uid url event =
      let ok = succeeds (length w.posts) in
      record w { store = mark_delivered w.store event_uid ok; posts = w.posts ++ (url, event) ∷ [] }

  -- One round of `deliverOutbox`: the url is that of the job as it is now.
  abbrev callback_of : World → String → Option String
  callback_of w run_id = elim (get run_id w.store.jobs) [
    | none ↦ none
    | some job ↦ job.callback_url
  ]

  abbrev redeliver : World → JobEventRow → Option String → World × ℕ
  redeliver w ev none = (record w { store = mark_delivered w.store ev.event_uid true }, 0)
  redeliver w ev (some url) =
      if truthy? (some url)
      then (deliver w ev.event_uid url ev.payload, 1)
      else (record w { store = mark_delivered w.store ev.event_uid true }, 0)

  unfoldable pub deliver_events : World → List JobEventRow → World × ℕ
  unfolding deliver
  deliver_events w [] = (w, 0)
  deliver_events w (ev ∷ evs) =
      let (w', n) = redeliver w ev (callback_of w ev.run_id) in
      let (w'', m) = deliver_events w' evs in (w'', n + m)

  unfoldable pub deliver_outbox : World → ℕ → World × ℕ
  unfolding deliver_events
  deliver_outbox w limit = deliver_events w (list_deliverable w.store limit)

module _ (contract_version : String) (succeeds : ℕ → Bool) (uid : ℕ → String) where
  abbrev pub outbox_event : JobRow → ℕ → String → JobEventRow
  outbox_event job now event_uid = record {
    event_uid = event_uid;
    job_id = job.job_id;
    run_id = job.run_id;
    event_type = event_type_of job.status;
    payload = completion_event contract_version job now;
    created_at_ms = now;
    delivery_state = if truthy? job.callback_url then some pending else none;
    delivery_attempts = some 0;
  }

  abbrev deliver_to : World → String → Option String → Json → World
  deliver_to w event_uid none event = w
  deliver_to w event_uid (some url) event =
      if truthy? (some url) then deliver succeeds w event_uid url event else w

  unfoldable pub publish_completion : World → ℕ → JobRow → World
  unfolding completion_event deliver
  publish_completion w now job =
      if is_terminal job.status
      then deliver_to
          (record w {
            store = append_event w.store (outbox_event job now (uid w.uids));
            uids = w.uids + 1;
          })
          (uid w.uids) job.callback_url (completion_event contract_version job now)
      else w

  -- Each publication reads the clock: `clock n` is the time when the n-th event id is drawn.
  abbrev publish_all : (ℕ → ℕ) → World → List JobRow → World
  publish_all clock w [] = w
  publish_all clock w (job ∷ jobs) =
      publish_all clock (publish_completion w (clock w.uids) job) jobs

  unfoldable pub reap_and_publish : (ℕ → ℕ) → World → ℕ → ReapOptions → World × List JobRow
  unfolding publish_completion
  reap_and_publish clock w now opts =
      let (st, reaped) = reap_deadlines w.store now opts in
      (publish_all clock (record w { store = st }) reaped, reaped)
