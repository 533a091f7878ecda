-- ===== src/Promotion/Laws.antt =====
-- What a resolution of the promotion gate tells of the ledger and of the artifact.
use backtester.Prelude.{ℕ, String, Option, none, some, Bool, true, ◌≡◌, truthy}
use backtester.Jobs.Row.{JobRow}
use backtester.Json.{Json}
use backtester.Jobs.Keys.{
  compute_promotion_family_key, compute_qualification_epoch_key, compute_attempt_identity,
}
use backtester.Jobs.Ledger.{AttemptLedger, PromotionAttemptRecord, Verdict, passed, record_attempt}
use backtester.Promotion.{promoted, not_qualified, PromotionPolicy, PromotionCtx, Resolution}

module _ {O : Type 0} (ctx : PromotionCtx O) (policy : PromotionPolicy)
    (resolve_epoch : JobRow → Option String) (digest : Json → String) (result_hash : O → String)
    (job : JobRow) (l : AttemptLedger) where
  -- The ledger came about by recording the attempt of this job in its epoch, with this verdict, and
  -- the attempt has this number.
  pub record IsRecorded (l' : AttemptLedger) (n : ℕ) (v : Verdict) : Type 0 where
    pub epoch : String
    pub recorded : PromotionAttemptRecord
    pub inserted : Bool
    pub resolved : resolve_epoch job ≡ some epoch
    pub in_epoch :
        recorded.qualification_epoch_key
        ≡ compute_qualification_epoch_key digest
            (compute_promotion_family_key digest job.request)
            epoch
            policy.policy_version
    pub identity :
        recorded.attempt_identity
        ≡ compute_attempt_identity digest job.request_fingerprint ctx.dataset_fingerprint
    pub of_request : recorded.request_fingerprint ≡ job.request_fingerprint
    pub of_dataset : recorded.dataset_fingerprint ≡ ctx.dataset_fingerprint
    pub of_run : recorded.run_id ≡ ctx.run_id
    pub of_result : recorded.result_hash ≡ result_hash ctx.candidate
    pub judged : recorded.verdict ≡ v
    pub same : record_attempt l recorded ≡ (l', n, inserted)

  -- A promotion has its attempt recorded as passed and an artifact with an id; every other
  -- resolution has no artifact, and has recorded the attempt exactly if it names a number.
  abbrev pub IsAccounted : Resolution → Type 0
  IsAccounted (l', promoted n w, none) = ⊥
  IsAccounted (l', promoted n w, some id) = IsRecorded l' n passed × (truthy id ≡ true)
  IsAccounted (l', not_qualified reason none w, artifact) = (l' ≡ l) × (artifact ≡ none)
  IsAccounted (l', not_qualified reason (some n) w, artifact) =
      (v : Verdict) × IsRecorded l' n v × (artifact ≡ none)
