-- ===== src/Jobs/Row.antt =====
-- jobs/job-store.ts and sdk/src/contracts/run.ts: the records of the job store. Times are epoch
-- milliseconds. What the store passes on unread (summaries, manifests, issues) is `Json`.
use backtester.Prelude.{ℕ, String, List, Option, Bool}
use backtester.Json.{Json}
use backtester.Jobs.Lifecycle.{RunStatus, InternalJobStatus}

pub record Ref : Type 0 where
  pub id : String
  pub version : String

pub record RunPeriod : Type 0 where
  pub from : String
  pub to : String

-- The fields of a request that the modelled code reads; the others are in `rest`.
pub record RunSubmitRequest : Type 0 where
  pub run_id : Option String
  pub mode : String
  pub module_ref : Ref
  pub dataset_ref : String
  pub symbols : List String
  pub timeframe : String
  pub period : RunPeriod
  pub curated_baseline_ref : Option Ref
  pub trial_family_hint : Option String
  -- The decimal literal of a finite number.
  pub seed : String
  pub metrics : Option (List String)
  pub engine : Option String
  pub params : Option Json
  pub overlay_refs : Option Json
  pub risk_profile_ref : Option Json
  pub execution_profile_ref : Option Json
  pub robustness_checks : Option Json
  pub walk_forward : Option Json
  pub rest : Json

pub record RunTimelineEntry : Type 0 where
  pub status : RunStatus
  pub at_ms : ℕ

pub data ComputeWakeReason : Type 0 where
  cache_ready lock_expired leader_failed : ComputeWakeReason

pub record JobRow : Type 0 where
  pub job_id : String
  pub run_id : String
  pub resume_token : Option String
  pub request_fingerprint : String
  pub correlation_id : Option String
  pub workflow_id : Option String
  pub status : InternalJobStatus
  pub request : RunSubmitRequest
  pub effective_seed : String
  pub dataset_ref : String
  pub dataset_fingerprint : Option String
  pub bundle_hash : Option String
  pub callback_url : Option String
  pub queue_deadline_ms : Option ℕ
  pub run_timeout_ms : ℕ
  pub run_deadline_ms : Option ℕ
  pub leased_by : Option String
  pub lease_expires_at : Option ℕ
  pub attempts : ℕ
  pub accepted_at_ms : ℕ
  pub queued_at_ms : Option ℕ
  pub started_at_ms : Option ℕ
  pub terminal_at_ms : Option ℕ
  pub last_activity_ms : Option ℕ
  pub result_summary : Option Json
  pub result_hash : Option String
  pub artifact_manifest : Option Json
  pub terminal_code : Option String
  pub terminal_issues : Option Json
  pub deduped_from : Option String
  pub compute_wait_attempts : ℕ
  pub compute_identity : Option String
  pub wait_deadline_ms : Option ℕ
  pub compute_wake_reason : Option ComputeWakeReason
  pub engine_attempt_charged : Option Bool
  pub timeline : List RunTimelineEntry

pub record NewJob : Type 0 where
  pub job_id : String
  pub run_id : String
  pub resume_token : Option String
  pub request_fingerprint : String
  pub correlation_id : Option String
  pub workflow_id : Option String
  pub request : RunSubmitRequest
  pub effective_seed : String
  pub dataset_ref : String
  pub bundle_hash : Option String
  pub callback_url : Option String
  pub queue_deadline_ms : Option ℕ
  pub run_timeout_ms : ℕ
  pub accepted_at_ms : ℕ

pub record JobRowPatch : Type 0 where
  pub at_ms : ℕ
  pub queued_at_ms : Option ℕ
  pub started_at_ms : Option ℕ
  pub terminal_at_ms : Option ℕ
  pub last_activity_ms : Option ℕ
  pub run_deadline_ms : Option ℕ
  pub result_summary : Option Json
  pub result_hash : Option String
  pub artifact_manifest : Option Json
  pub dataset_fingerprint : Option String
  pub terminal_code : Option String
  pub terminal_issues : Option Json
  pub deduped_from : Option String
  pub compute_wait_attempts : Option ℕ
  pub compute_identity : Option String
  pub wait_deadline_ms : Option ℕ
  pub compute_wake_reason : Option ComputeWakeReason
  pub engine_attempt_charged : Option Bool
  pub attempts : Option ℕ

pub data JobEventType : Type 0 where
  job_accepted job_queued job_started : JobEventType
  job_completed job_failed job_canceled job_expired job_timed_out : JobEventType

pub data DeliveryState : Type 0 where
  pending delivered failed : DeliveryState

pub record JobEventRow : Type 0 where
  pub event_uid : String
  pub job_id : String
  pub run_id : String
  pub event_type : JobEventType
  pub payload : Json
  pub created_at_ms : ℕ
  pub delivery_state : Option DeliveryState
  pub delivery_attempts : Option ℕ
