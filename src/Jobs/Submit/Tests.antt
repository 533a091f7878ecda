-- ===== src/Jobs/Submit/Tests.antt =====
-- A submission and its replay, and the theorems at them.
use backtester.Prelude.{
  String, [], ◌∷◌, Option, none, some, true, false, ◌≡◌, refl, str_eq, if◌then◌else◌, ap, sym,
}
use backtester.Json.{null}
use backtester.Jobs.Lifecycle.{accepted, can_transition}
use backtester.Jobs.Fingerprint.{normalize}
use backtester.Jobs.Store.{
  new_store, insert_or_get, row_of, find_by_resume_token, transition, apply_patch,
}
use backtester.Jobs.Store.Queries.{append_event, count_queue_stats, to_handle, RunJobHandle}
use backtester.Jobs.Store.History.{renew, after, step}
use backtester.Jobs.Submit.Validate.{Body, Bundle, listed, validate}
use backtester.Jobs.Submit.{
  SubmitDeps, BundleStore, thrown, submitted, Draws, submit_run, request_fingerprint,
  stored_request_fingerprint, resume_token_conflict, queue_full, run_id_of,
}
use backtester.Jobs.Submit.Laws.{submit_run-thrown}
use backtester.Jobs.Submit.Replay.{submit_run_again}
use backtester.OrderedMap.{get, set, values}

abbrev hash_of : Bundle → String
hash_of bundle = "sha256:b"

abbrev put_or : Option BundleStore → Bundle → String
put_or none x = ""
put_or (some s) x = s.put x

abbrev opt_text : Option String → String
opt_text none = "null"
opt_text (some s) = s

abbrev deps : SubmitDeps
deps = record {
  guards = record {
    parse_date = λ s.
        if str_eq s "2026-01-01"
        then some 100
        else if str_eq s "2026-02-01"
        then some 200
        else none;
    is_safe_callback_url = λ url. true;
    in_metric_catalog = λ m. str_eq m "sharpe";
    in_overlay_catalog = λ m. str_eq m "sharpe";
    is_valid_bundle = λ bundle. true;
  };
  default_queue_timeout_ms = 1000;
  default_run_timeout_ms = 5000;
  enable_overlay_engine = false;
  bundle_store = some (record { has = λ ref. str_eq ref "sha256:b"; put = hash_of });
  queue_max_depth = some 1;
  is_content_hash = λ s. str_eq s "sha256:b";
  digest = λ n. opt_text n.module_bundle;
  bundle_hash = hash_of;
}

abbrev body : Body
body = record {
  dataset_ref = "smoke";
  module_ref = some (record { id = "m"; version = "1" });
  symbols = "BTCUSDT" ∷ [];
  timeframe = "1m";
  period = some (record { from = "2026-01-01"; to = "2026-02-01" });
  callback_url = none;
  mode = "research";
  seed = some "7";
  walk_forward = none;
  metrics = some (listed ("sharpe" ∷ []));
  engine = none;
  module_bundle = some (record { kind = "strategy"; content = null });
  bundle_ref = none;
  run_id = none;
  resume_token = some "tok";
  correlation_id = none;
  workflow_id = none;
  queue_timeout_ms = none;
  run_timeout_ms = none;
  curated_baseline_ref = none;
  trial_family_hint = none;
  params = none;
  overlay_refs = none;
  risk_profile_ref = none;
  execution_profile_ref = none;
  robustness_checks = none;
  rest = null;
}

abbrev draws : Draws
draws = record { run_uid = "r1"; accepted_uid = "e1"; queued_uid = "e2"; now = 10; queued_at = 11 }

abbrev again : Draws
again = record { run_uid = "r2"; accepted_uid = "e3"; queued_uid = "e4"; now = 60; queued_at = 61 }

abbrev handle : RunJobHandle
handle = record {
  job_id = "r1";
  run_id = "r1";
  status = accepted;
  effective_seed = "7";
  request_fingerprint = "sha256:b";
  idempotent_replay = false;
  correlation_id = none;
  workflow_id = none;
}

body_created : (submit_run deps body draws [] new_store).1 ≡ submitted handle true
unfolding submit_run validate insert_or_get row_of find_by_resume_token transition count_queue_stats
    append_event request_fingerprint normalize to_handle get set values after step can_transition
body_created = refl

submit_run_again_example :
    let last = after (submit_run deps body draws [] new_store).0 (renew "w" 50 ∷ []) in
    (g : RunJobHandle) × (submit_run deps body again [] last ≡ (last, submitted g false))
    × (g.run_id ≡ run_id_of draws body)
    × (g.idempotent_replay ≡ true)
submit_run_again_example =
    submit_run_again deps body draws new_store "tok" (λ s x eq. ap (λ o. put_or o x) (sym eq)) refl
      refl refl handle (renew "w" 50 ∷ []) again body_created (tt, tt)

-- The second job of a queue that holds one is refused.
abbrev other : Body
other = record body { resume_token = some "tok2" }

other_refused :
    (submit_run deps other again [] (submit_run deps body draws [] new_store).0).1
    ≡ thrown (queue_full 1 1)
unfolding submit_run validate insert_or_get row_of find_by_resume_token transition apply_patch
    count_queue_stats append_event request_fingerprint normalize to_handle get set values after step
    can_transition
other_refused = refl

submit_run-thrown_example :
    (submit_run deps other again [] (submit_run deps body draws [] new_store).0).0
    ≡ (submit_run deps body draws [] new_store).0
submit_run-thrown_example =
    submit_run-thrown deps other again [] (submit_run deps body draws [] new_store).0
      (queue_full 1 1) other_refused

-- A request whose bundle reference is the empty text conflicts with itself.
abbrev empty_ref : Body
empty_ref = record body { module_bundle = none; bundle_ref = some "" }

empty_ref_conflicts :
    (submit_run deps empty_ref again [] (submit_run deps empty_ref draws [] new_store).0).1
    ≡ thrown resume_token_conflict
unfolding submit_run validate insert_or_get row_of find_by_resume_token transition apply_patch
    count_queue_stats append_event request_fingerprint stored_request_fingerprint normalize
    to_handle get set values after step can_transition
empty_ref_conflicts = refl
