-- ===== src/Jobs/Fingerprint.antt =====
-- jobs/fingerprint.ts: the fingerprint of a request is a digest of what the run depends on.
use backtester.Prelude.{String, List, [], Option, get_or}
use backtester.Json.{Json, null, arr, nil}
use backtester.Jobs.Row.{Ref, RunPeriod, RunSubmitRequest}

-- The object that is hashed; its last two fields are left out where they are `none`.
pub record Normalized : Type 0 where
  pub dataset_ref : String
  pub module_ref : Ref
  pub module_bundle : Option String
  pub symbols : List String
  pub timeframe : String
  pub period : RunPeriod
  pub params : Json
  pub seed : String
  pub mode : String
  pub metrics : List String
  pub engine : Option String
  pub overlay_refs : Json
  pub risk_profile_ref : Json
  pub execution_profile_ref : Json
  pub robustness_checks : Json
  pub curated_baseline_ref : Option Ref
  pub walk_forward : Option Json

unfoldable pub normalize : RunSubmitRequest → Option String → Normalized
normalize req bundle_hash_value = record {
  dataset_ref = req.dataset_ref;
  module_ref = req.module_ref;
  module_bundle = bundle_hash_value;
  symbols = req.symbols;
  timeframe = req.timeframe;
  period = req.period;
  params = get_or req.params null;
  seed = req.seed;
  mode = req.mode;
  metrics = get_or req.metrics [];
  engine = req.engine;
  overlay_refs = get_or req.overlay_refs (arr nil);
  risk_profile_ref = get_or req.risk_profile_ref null;
  execution_profile_ref = get_or req.execution_profile_ref null;
  robustness_checks = get_or req.robustness_checks (arr nil);
  curated_baseline_ref = req.curated_baseline_ref;
  walk_forward = req.walk_forward;
}
