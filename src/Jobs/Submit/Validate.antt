-- ===== src/Jobs/Submit/Validate.antt =====
-- jobs/submit.ts: `validate`, on a body as it came over the wire. A field of a wrong type, or absent,
-- stands as the value that its check refuses for the same reason: the empty text, the empty list,
-- `none`. A body that is no object is none of these, and is refused before.
use backtester.Prelude.{
  ℕ, String, List, [], ◌∷◌, Option, none, some, Bool, true, false, not, ◌&&◌, ◌||◌, leb, all,
  str_eq, truthy, opt_str_eq, get_or, if◌then◌else◌,
}
use backtester.Json.{Json}
use backtester.Jobs.Row.{Ref, RunPeriod, RunSubmitRequest}

-- A bundle with the kind that its manifest gives; its files are unread.
pub record Bundle : Type 0 where
  pub kind : String
  pub content : Json

-- `folds` is `none` if it is no safe integer from zero on.
pub data WalkForward : Type 0 where
  not_an_object : WalkForward
  scheme : Option ℕ → String → Json → WalkForward

pub data Metrics : Type 0 where
  not_a_list : Metrics
  listed : List String → Metrics

pub record Body : Type 0 where
  pub dataset_ref : String
  pub module_ref : Option Ref
  pub symbols : List String
  pub timeframe : String
  pub period : Option RunPeriod
  pub callback_url : Option String
  pub mode : String
  pub seed : Option String
  pub walk_forward : Option WalkForward
  pub metrics : Option Metrics
  pub engine : Option String
  pub module_bundle : Option Bundle
  pub bundle_ref : Option String
  pub run_id : Option String
  pub resume_token : Option String
  pub correlation_id : Option String
  pub workflow_id : Option String
  pub queue_timeout_ms : Option ℕ
  pub run_timeout_ms : Option ℕ
  pub curated_baseline_ref : Option Ref
  pub trial_family_hint : Option String
  pub params : Option Json
  pub overlay_refs : Option Json
  pub risk_profile_ref : Option Json
  pub execution_profile_ref : Option Json
  pub robustness_checks : Option Json
  pub rest : Json

pub data ValidationIssue : Type 0 where
  dataset_ref_required module_ref_required symbols_required timeframe_required : ValidationIssue
  period_required period_not_dates period_not_before : ValidationIssue
  callback_url_refused mode_unknown seed_not_finite : ValidationIssue
  walk_forward_no_object folds_refused walk_forward_mode_refused : ValidationIssue
  metrics_no_list metrics_empty unknown_metric : ValidationIssue
  bundle_invalid bundle_kind : ValidationIssue

-- What the checks call: `Date.parse`, the guard on the webhook's host, the catalogues of metrics and
-- the check of a bundle's files.
pub record Guards : Type 0 where
  pub parse_date : String → Option ℕ
  pub is_safe_callback_url : String → Bool
  pub in_metric_catalog : String → Bool
  pub in_overlay_catalog : String → Bool
  pub is_valid_bundle : Bundle → Bool

abbrev pub is_engine : Body → String → Bool
is_engine b name = opt_str_eq b.engine name

abbrev pub valid_mode : String → Bool
valid_mode mode = str_eq mode "research" || str_eq mode "review" || str_eq mode "promotion"

abbrev pub is_empty : List String → Bool
is_empty [] = true
is_empty (x ∷ xs) = false

abbrev pub is_given {ℓ} : {A : Type ℓ} → Option A → Bool
is_given none = false
is_given (some a) = true

abbrev pub in_order : Option ℕ → Option ℕ → Option ValidationIssue
in_order (some from_ms) (some to_ms) = if leb to_ms from_ms then some period_not_before else none
in_order none to_ms = some period_not_dates
in_order (some from_ms) none = some period_not_dates

-- The end of a check is the next one.
abbrev pub or_else : Option ValidationIssue → Option ValidationIssue → Option ValidationIssue
or_else (some issue) next = some issue
or_else none next = next

abbrev pub unless : Bool → ValidationIssue → Option ValidationIssue
unless true issue = none
unless false issue = some issue

module _ (g : Guards) where
  abbrev pub check_period : Option RunPeriod → Option ValidationIssue
  check_period none = some period_required
  check_period (some p) = in_order (g.parse_date p.from) (g.parse_date p.to)

  abbrev pub check_callback : Option String → Option ValidationIssue
  check_callback none = none
  check_callback (some url) = unless (g.is_safe_callback_url url) callback_url_refused

  abbrev pub check_folds : Option ℕ → Option ValidationIssue
  check_folds none = some folds_refused
  check_folds (some folds) = unless (leb 1 folds) folds_refused

  abbrev pub check_walk_forward : Option WalkForward → Option ValidationIssue
  check_walk_forward none = none
  check_walk_forward (some not_an_object) = some walk_forward_no_object
  check_walk_forward (some (scheme folds mode whole)) =
      or_else (check_folds folds)
        (unless (str_eq mode "rolling" || str_eq mode "expanding") walk_forward_mode_refused)

  abbrev pub catalog_has : Body → String → Bool
  catalog_has b m =
      if is_engine b "overlay" || is_engine b "strategy"
      then g.in_overlay_catalog m
      else g.in_metric_catalog m

  abbrev pub check_metrics : Body → Option Metrics → Option ValidationIssue
  check_metrics b none = none
  check_metrics b (some not_a_list) = some metrics_no_list
  check_metrics b (some (listed ms)) =
      or_else (unless (not (is_engine b "strategy" && is_empty ms)) metrics_empty)
        (unless (all (catalog_has b) ms) unknown_metric)

  abbrev pub expected_kind : Body → String
  expected_kind b = if is_engine b "overlay" then "overlay" else "strategy"

  abbrev pub check_bundle : Body → Option Bundle → Option ValidationIssue
  check_bundle b none = none
  check_bundle b (some bundle) =
      or_else (unless (g.is_valid_bundle bundle) bundle_invalid)
        (unless (str_eq bundle.kind (expected_kind b)) bundle_kind)

  -- The first check that fails; `none` if all pass.
  unfoldable pub validate : Body → Option ValidationIssue
  validate b = or_else (unless (truthy b.dataset_ref) dataset_ref_required) (
      or_else (unless (is_given b.module_ref) module_ref_required) (
        or_else (unless (not (is_empty b.symbols)) symbols_required) (
          or_else (unless (truthy b.timeframe) timeframe_required) (
            or_else (check_period b.period) (
              or_else (check_callback b.callback_url) (
                or_else (unless (valid_mode b.mode) mode_unknown) (
                  or_else (unless (is_given b.seed) seed_not_finite) (
                    or_else (check_walk_forward b.walk_forward)
                      (or_else (check_metrics b b.metrics) (check_bundle b b.module_bundle))))))))))

abbrev pub scheme_json : Option WalkForward → Option Json
scheme_json none = none
scheme_json (some not_an_object) = none
scheme_json (some (scheme folds mode whole)) = some whole

abbrev pub metrics_list : Option Metrics → Option (List String)
metrics_list none = none
metrics_list (some not_a_list) = none
metrics_list (some (listed ms)) = some ms

-- The request of a body that passed: the fields that the checks found are there.
abbrev pub request_of : Body → RunSubmitRequest
request_of b = record {
  run_id = b.run_id;
  mode = b.mode;
  module_ref = get_or b.module_ref (record { id = ""; version = "" });
  dataset_ref = b.dataset_ref;
  symbols = b.symbols;
  timeframe = b.timeframe;
  period = get_or b.period (record { from = ""; to = "" });
  curated_baseline_ref = b.curated_baseline_ref;
  trial_family_hint = b.trial_family_hint;
  seed = get_or b.seed "";
  metrics = metrics_list b.metrics;
  engine = b.engine;
  params = b.params;
  overlay_refs = b.overlay_refs;
  risk_profile_ref = b.risk_profile_ref;
  execution_profile_ref = b.execution_profile_ref;
  robustness_checks = b.robustness_checks;
  walk_forward = scheme_json b.walk_forward;
  rest = b.rest;
}
