-- ===== src/Promotion/Tests.antt =====
-- The theorem on the promotion gate at a concrete input: a run over a tape of twelve bars, of which
-- the last six are held out. A text is the date of its length.
use backtester.Prelude.{ℕ, suc, zero, String, List, [], ◌∷◌, Option, some, true, false, ◌≡◌, refl}
use backtester.Jobs.Row.{JobRow, RunPeriod}
use backtester.Jobs.Ledger.{AttemptLedger, passed}
use backtester.Jobs.Tests.{base_row}
use backtester.Promotion.{
  WindowEvaluation, PromotionPolicy, PromotionCtx, Resolution, resolve_promotion_gate,
  symbol_covers_window,
}
use backtester.Promotion.Earned.{IfPromoted, IsEarned, resolve_promotion_gate-IsEarned}

abbrev chars : String → ℕ
chars String.[] = 0
chars (String.◌∷◌ c s) = suc (chars s)

abbrev parse : String → Option ℕ
parse s = some (chars s)

abbrev iso : ℕ → String
iso zero = ""
iso (suc n) = String.◌∷◌ "x" (iso n)

abbrev month : RunPeriod
month = record { from = ""; to = "xxxxxxxxxxxx" }

abbrev bar_times : List ℕ
bar_times = 0 ∷ 1 ∷ 2 ∷ 3 ∷ 4 ∷ 5 ∷ 6 ∷ 7 ∷ 8 ∷ 9 ∷ 10 ∷ 11 ∷ []

abbrev gate_ctx : PromotionCtx ℕ
gate_ctx = record {
  candidate = 0;
  curated = some 0;
  signing_key = some "key";
  bundle_rejected = false;
  dataset_fingerprint = "d1";
  coverage = some month;
  executed_bar_times = bar_times ∷ [];
  dataset_timeframe = some "1m";
  run_id = "r1";
  now = 50;
  faults = record { integrity = false; epoch = false; window = false; keys = false };
}

abbrev rules : PromotionPolicy
rules = record {
  min_warmup_bars = 1;
  min_trades = 1;
  fraction_in_range = true;
  fraction_part = λ span. 6;
  policy_version = "v1";
}

abbrev measure : ℕ → RunPeriod → WindowEvaluation ℕ
measure o w = record { equity_points = 7; in_test = 2; warmup_steps = 6; metrics = o }

abbrev asking : JobRow
asking = record base_row {
  request = record base_row.request {
    mode = "promotion";
    period = month;
    curated_baseline_ref = some (record { id = "short_after_pump"; version = "1.0.0" });
  };
}

abbrev no_attempts : AttemptLedger
no_attempts = record { next = []; attempts = [] }

gap_is_found : symbol_covers_window (6 ∷ 7 ∷ 9 ∷ 10 ∷ 11 ∷ []) 6 12 1 ≡ false
unfolding symbol_covers_window
gap_is_found = refl

resolve_promotion_gate-IsEarned_example :
    (r : Resolution) × (resolve_promotion_gate parse
        (λ t. some 1)
        measure
        (λ m. passed)
        rules
        gate_ctx
        (λ a b. true)
        (λ job. some job.dataset_ref)
        iso
        (λ j. "digest")
        (λ o. "hash")
        false
        (λ key n. some "artifact")
        true
        no_attempts
        asking
      ≡ some r)
    × IfPromoted
        (IsEarned parse
          (λ t. some 1)
          measure
          (λ m. passed)
          rules
          gate_ctx
          (λ a b. true)
          (λ job. some job.dataset_ref)
          iso
          (λ j. "digest")
          (λ o. "hash")
          false
          (λ key n. some "artifact")
          asking)
        r
resolve_promotion_gate-IsEarned_example =
    resolve_promotion_gate-IsEarned parse (λ t. some 1) measure (λ m. passed) rules gate_ctx
      (λ a b. true) (λ job. some job.dataset_ref) iso (λ j. "digest") (λ o. "hash") false
      (λ key n. some "artifact") no_attempts asking refl
