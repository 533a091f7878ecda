-- ===== src/Jobs/Keys.antt =====
-- The keys under which the ledgers group runs: jobs/ledger/trial-ledger.ts, ledger/novelty-pool.ts,
-- promotion/identity.ts and promotion/epoch-resolver.ts. `digest` is the hash of a value's canonical
-- text; the data sets that the platform lists are a parameter.
pub mod Laws
use backtester.Prelude.{
  String, List, [], ◌∷◌, Option, none, some, Bool, true, false, get_or, sort, str_ltb, str_eq,
  if◌then◌else◌,
}
use backtester.Json.{Json, str, arr, obj, Items, nil, cons, end, field}
use backtester.Jobs.Row.{RunPeriod, RunSubmitRequest, JobRow}

abbrev pub texts : List String → Items
texts [] = nil
texts (s ∷ ss) = cons (str s) (texts ss)

-- `[...symbols].sort()`.
abbrev pub sorted_symbols : List String → Json
sorted_symbols symbols = arr (texts (sort str_ltb symbols))

-- `req.trialFamilyHint ?? req.moduleRef.id`.
abbrev pub hint_of : RunSubmitRequest → String
hint_of r = get_or r.trial_family_hint r.module_ref.id

-- The text of a trial family before it is digested.
abbrev pub family_preimage : RunSubmitRequest → Json
family_preimage r = obj (
    field "hint" (str (hint_of r)) (
      field "datasetRef" (str r.dataset_ref) (
        field "symbols" (sorted_symbols r.symbols) (
          field "timeframe" (str r.timeframe) (
            field "period"
              (obj (field "from" (str r.period.from) (field "to" (str r.period.to) end))) end)))))

module _ (digest : Json → String) where
  unfoldable pub compute_family_key : RunSubmitRequest → String
  compute_family_key r = digest (family_preimage r)

  unfoldable pub compute_comparability_key : RunSubmitRequest → String
  compute_comparability_key r = digest (
      obj (
        field "datasetRef" (str r.dataset_ref)
          (field "symbols" (sorted_symbols r.symbols) (field "timeframe" (str r.timeframe) end))))

  unfoldable pub compute_promotion_family_key : RunSubmitRequest → String
  compute_promotion_family_key r = digest (
      obj (
        field "hint" (str (hint_of r)) (
          field "datasetRef" (str r.dataset_ref) (
            field "symbols" (sorted_symbols r.symbols) (field "timeframe" (str r.timeframe) end)))))

  unfoldable pub compute_qualification_epoch_key : String → String → String → String
  compute_qualification_epoch_key family_key epoch_id policy_version = digest (
      obj (
        field "promotionFamilyKey" (str family_key)
          (field "epochId" (str epoch_id) (field "policyVersion" (str policy_version) end))))

  unfoldable pub compute_attempt_identity : String → String → String
  compute_attempt_identity request_fingerprint dataset_fingerprint = digest (
      obj (
        field "requestFingerprint" (str request_fingerprint)
          (field "datasetFingerprint" (str dataset_fingerprint) end)))

-- `DatasetIdentityEpochResolver.resolve` over the references of the listed data sets.
unfoldable pub resolve_epoch : List String → JobRow → Option String
resolve_epoch [] job = none
resolve_epoch (d ∷ ds) job = if str_eq d job.dataset_ref then some d else resolve_epoch ds job
