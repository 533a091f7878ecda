-- ===== src/Promotion.antt =====
-- jobs/promotion/resolve-promotion.ts and evidence/promotion-gate.ts: whether a run is promoted. The
-- comparison of two outcomes, the statistics of a window with their verdict, the digests, the
-- signature with the write of the artifact, and what the platform answers are parameters. What may
-- throw beside the ledger, the window and the signature is in `PromotionFaults`.
pub mod Laws
pub mod Earned
pub mod Tests
use backtester.Prelude.{
  ℕ, suc, zero, ◌+◌, ◌-◌, ◌==◌, String, List, [], ◌∷◌, Option, none, some, Bool, true, false, not,
  ltb, leb, ◌&&◌, ◌||◌, if◌then◌else◌, str_eq, truthy, length, filter, any, all,
}
use mathlib.Core.Option as Option
use backtester.Jobs.Row.{JobRow, RunPeriod, Ref}
use backtester.Json.{Json}
use backtester.Jobs.Keys.{
  compute_promotion_family_key, compute_qualification_epoch_key, compute_attempt_identity,
}
use backtester.Engine.Windows.{compute_holdout_window}
use backtester.Jobs.Ledger.{
  AttemptLedger, PromotionAttemptRecord, Verdict, passed, failed, record_attempt,
}

pub data PromotionFailureReason : Type 0 where
  signing_unavailable curated_unavailable gate_rejected twin_divergent : PromotionFailureReason
  holdout_unavailable holdout_not_covered warmup_insufficient : PromotionFailureReason
  evaluation_insufficient attempt_record_failed metrics_failed : PromotionFailureReason
  internal_error : PromotionFailureReason

pub data PromotionResult : Type 0 where
  promoted : ℕ → RunPeriod → PromotionResult
  not_qualified : PromotionFailureReason → Option ℕ → Option RunPeriod → PromotionResult

-- The loop for the bar that covers the left edge of the window.
abbrev is_later : ℕ → Option ℕ → Bool
is_later ts none = true
is_later ts (some anchor) = ltb anchor ts

unfoldable pub anchor_bar : ℕ → ℕ → Option ℕ → List ℕ → Option ℕ
anchor_bar from interval anchor [] = anchor
anchor_bar from interval anchor (ts ∷ bars) =
    anchor_bar from interval
      (if leb ts from && (ltb from (ts + interval) && is_later ts anchor) then some ts else anchor)
      bars

-- The walk over the grid: the number of slots in the window, or `none` at a gap. A step is at least
-- one, so as many rounds as there are milliseconds from the anchor to the end are enough.
unfoldable pub walk_grid : List ℕ → ℕ → ℕ → ℕ → ℕ → ℕ → Option ℕ
walk_grid bars from to interval zero ts = some 0
walk_grid bars from to interval (suc fuel) ts =
    let rest = walk_grid bars from to interval fuel (ts + interval) in
    if not (ltb ts to)
    then some 0
    else if not (leb from ts)
    then rest
    else if any (λ bar. bar == ts) bars
    then Option.map suc rest
    else none

abbrev is_number : ℕ → Option ℕ → Bool
is_number n none = false
is_number n (some m) = n == m

abbrev covers_from : List ℕ → ℕ → ℕ → ℕ → Option ℕ → Bool
covers_from bars from to interval none = false
covers_from bars from to interval (some anchor) =
    is_number (length (filter (λ ts. leb from ts && ltb ts to) bars))
      (walk_grid bars from to interval (to - anchor) anchor)

unfoldable pub symbol_covers_window : List ℕ → ℕ → ℕ → ℕ → Bool
unfolding anchor_bar walk_grid
symbol_covers_window bars from to interval =
    covers_from bars from to interval (anchor_bar from interval none bars)

-- What is measured on a window, as far as the gate reads it; the metrics are kept for the verdict.
pub record WindowEvaluation (M : Type 0) : Type 0 where
  pub equity_points : ℕ
  pub in_test : ℕ
  pub warmup_steps : ℕ
  pub metrics : M

pub data WindowOutcome : Type 0 where
  rejected : PromotionFailureReason → WindowOutcome
  evaluated : Verdict → WindowOutcome

pub record PromotionPolicy : Type 0 where
  pub min_warmup_bars : ℕ
  pub min_trades : ℕ
  -- `fraction`, by whether it lies in (0, 1) and by the rounded part of a span that it makes up.
  pub fraction_in_range : Bool
  pub fraction_part : ℕ → ℕ
  pub policy_version : String

-- Which steps throw a fault that only the outer `catch` sees: the comparison of the outcomes, the
-- resolution of the epoch, the evaluation of the window and the keys of the attempt.
pub record PromotionFaults : Type 0 where
  pub integrity : Bool
  pub epoch : Bool
  pub window : Bool
  pub keys : Bool

pub record PromotionCtx (O : Type 0) : Type 0 where
  pub candidate : O
  pub curated : Option O
  pub signing_key : Option String
  pub bundle_rejected : Bool
  pub dataset_fingerprint : String
  pub coverage : Option RunPeriod
  pub executed_bar_times : List (List ℕ)
  pub dataset_timeframe : Option String
  pub run_id : String
  pub now : ℕ
  pub faults : PromotionFaults

abbrev pub Resolution : Type 0
Resolution = AttemptLedger × PromotionResult × Option String

abbrev nq : AttemptLedger → PromotionFailureReason → Resolution
nq l reason = (l, not_qualified reason none none, none)

module _ {O M : Type 0} (parse : String → Option ℕ) (parse_timeframe_ms : String → Option ℕ)
    (evaluate_window : O → RunPeriod → WindowEvaluation M) (decide_verdict : M → Verdict)
    (policy : PromotionPolicy) (ctx : PromotionCtx O) where
  -- A comparison with a text that is no date is false.
  abbrev leq : Option ℕ → Option ℕ → Bool
  leq (some a) (some b) = leb a b
  leq _ _ = false

  abbrev all_cover : Option ℕ → Option ℕ → Option ℕ → Bool
  all_cover (some from) (some to) (some interval) =
      ltb 0 (length ctx.executed_bar_times)
      && all (λ bars. symbol_covers_window bars from to interval) ctx.executed_bar_times
  all_cover _ _ _ = false

  abbrev grid_step : String → String → Option ℕ
  grid_step request dataset = if str_eq request dataset then parse_timeframe_ms dataset else none

  abbrev judged : WindowEvaluation M → WindowOutcome
  judged e =
      if ltb e.warmup_steps policy.min_warmup_bars
      then rejected warmup_insufficient
      else if ltb e.equity_points 2 || ltb e.in_test policy.min_trades
      then rejected evaluation_insufficient
      else evaluated (decide_verdict e.metrics)

  unfoldable pub evaluate_promotion_window : RunPeriod → RunPeriod → String → String → WindowOutcome
  unfolding symbol_covers_window
  evaluate_promotion_window w run_period request_timeframe dataset_timeframe =
      if not (leq (parse run_period.from) (parse w.from) && leq (parse w.to) (parse run_period.to))
      then rejected holdout_not_covered
      else if not
          (all_cover (parse w.from) (parse w.to) (grid_step request_timeframe dataset_timeframe))
      then rejected evaluation_insufficient
      else judged (evaluate_window ctx.candidate w)

  module _ (equivalent : O → O → Bool) (resolve_epoch : JobRow → Option String) (iso : ℕ → String)
      (digest : Json → String) (result_hash : O → String) (ledger_fails : Bool)
      (sign_and_write : String → ℕ → Option String) where
    -- `none` and an empty id are faults, which leave the attempt recorded.
    abbrev persisted : AttemptLedger → ℕ → RunPeriod → Option String → Resolution
    persisted l n w none = (l, not_qualified internal_error (some n) (some w), none)
    persisted l n w (some id) =
        if truthy id
        then (l, promoted n w, some id)
        else (l, not_qualified internal_error (some n) (some w), none)

    abbrev after_record : String → RunPeriod → Verdict → AttemptLedger × ℕ × Bool → Resolution
    after_record key w failed (l, n, inserted) =
        (l, not_qualified metrics_failed (some n) (some w), none)
    after_record key w passed (l, n, inserted) = persisted l n w (sign_and_write key n)

    abbrev attempt : JobRow → String → Verdict → PromotionAttemptRecord
    attempt job epoch verdict = record {
      qualification_epoch_key =
          compute_qualification_epoch_key digest (compute_promotion_family_key digest job.request)
            epoch policy.policy_version;
      attempt_identity =
          compute_attempt_identity digest job.request_fingerprint ctx.dataset_fingerprint;
      request_fingerprint = job.request_fingerprint;
      dataset_fingerprint = ctx.dataset_fingerprint;
      run_id = ctx.run_id;
      result_hash = result_hash ctx.candidate;
      verdict = verdict;
      created_at_ms = ctx.now;
    }

    abbrev after_window :
        AttemptLedger → JobRow → String → String → RunPeriod → WindowOutcome → Resolution
    after_window l job key epoch w (rejected reason) = (l, not_qualified reason none (some w), none)
    after_window l job key epoch w (evaluated verdict) =
        if ctx.faults.keys
        then nq l internal_error
        else if ledger_fails
        then (l, not_qualified attempt_record_failed none (some w), none)
        else after_record key w verdict (record_attempt l (attempt job epoch verdict))

    abbrev after_holdout :
        AttemptLedger → JobRow → String → String → String → Option RunPeriod → Resolution
    after_holdout l job key epoch timeframe none = nq l holdout_unavailable
    after_holdout l job key epoch timeframe (some w) =
        if ctx.faults.window
        then nq l internal_error
        else after_window l job key epoch w
            (evaluate_promotion_window w job.request.period job.request.timeframe timeframe)

    abbrev after_epoch :
        AttemptLedger
        → JobRow
        → String
        → Option String
        → Option RunPeriod
        → Option String
        → Resolution
    after_epoch l job key (some epoch) (some coverage) (some timeframe) =
        after_holdout l job key epoch timeframe
          (compute_holdout_window parse iso policy.fraction_in_range policy.fraction_part coverage)
    after_epoch l job key _ _ _ = nq l holdout_unavailable

    abbrev after_curated : AttemptLedger → JobRow → String → Option O → Option Ref → Resolution
    after_curated l job key (some curated) (some baseline) =
        if ctx.faults.integrity
        then nq l internal_error
        else if ctx.bundle_rejected
        then nq l gate_rejected
        else if not (equivalent curated ctx.candidate)
        then nq l twin_divergent
        else if ctx.faults.epoch
        then nq l internal_error
        else after_epoch l job key (resolve_epoch job) ctx.coverage ctx.dataset_timeframe
    after_curated l job key _ _ = nq l curated_unavailable

    abbrev after_signing : AttemptLedger → JobRow → Option String → Resolution
    after_signing l job none = nq l signing_unavailable
    after_signing l job (some key) =
        after_curated l job key ctx.curated job.request.curated_baseline_ref

    -- `none`: no promotion is asked for, and the ledger is as before.
    unfoldable pub resolve_promotion_gate : Bool → AttemptLedger → JobRow → Option Resolution
    unfolding evaluate_promotion_window compute_holdout_window
    resolve_promotion_gate enabled l job =
        if enabled && str_eq job.request.mode "promotion"
        then some (after_signing l job ctx.signing_key)
        else none
