-- ===== src/Promotion/Earned.antt =====
-- What stands behind a promotion.
use backtester.Prelude.{
  ℕ, String, Option, none, some, Bool, true, false, ◌≡◌, refl, ap, str_eq, if◌then◌else◌, not,
}
use backtester.Jobs.Row.{JobRow, RunPeriod, Ref}
use backtester.Json.{Json}
use backtester.Engine.Windows.{compute_holdout_window}
use backtester.Jobs.Ledger.{AttemptLedger, Verdict, passed, failed, record_attempt}
use backtester.Promotion.{
  promoted, not_qualified, WindowEvaluation, WindowOutcome, rejected, evaluated, PromotionPolicy,
  PromotionCtx, Resolution, evaluate_promotion_window, persisted, after_record, after_window,
  after_holdout, after_epoch, after_curated, after_signing, resolve_promotion_gate, attempt,
}
use backtester.Prelude.{truthy}

-- What holds of the window of a promotion, if the resolution is one.
abbrev pub IfPromoted : (RunPeriod → Type 0) → Resolution → Type 0
IfPromoted C (l, promoted n w, artifact) = C w
IfPromoted C (l, not_qualified reason n w, artifact) = Unit {0}

if-IfPromoted :
    (C : RunPeriod → Type 0) (b : Bool) (x y : Resolution)
    → (b ≡ true → IfPromoted C x)
    → (b ≡ false → IfPromoted C y)
    → IfPromoted C (if b then x else y)
if-IfPromoted C true x y f g = f refl
if-IfPromoted C false x y f g = g refl

not-false : (b : Bool) → not b ≡ false → b ≡ true
not-false true h = refl
not-false false h = absurd (cc)

module _ {O M : Type 0} (parse : String → Option ℕ) (parse_timeframe_ms : String → Option ℕ)
    (evaluate_window : O → RunPeriod → WindowEvaluation M) (decide_verdict : M → Verdict)
    (policy : PromotionPolicy) (ctx : PromotionCtx O) (equivalent : O → O → Bool)
    (resolve_epoch : JobRow → Option String) (iso : ℕ → String) (digest : Json → String)
    (result_hash : O → String) (ledger_fails : Bool)
    (sign_and_write : String → ℕ → Option String) where
  -- The run was signed for, is equivalent to the curated run of an accepted bundle, and passed on
  -- the held-out window of the coverage.
  pub record IsEarned (job : JobRow) (w : RunPeriod) : Type 0 where
    pub key : String
    pub curated : O
    pub coverage : RunPeriod
    pub timeframe : String
    pub signed : ctx.signing_key ≡ some key
    pub compared : ctx.curated ≡ some curated
    pub accepted : ctx.bundle_rejected ≡ false
    pub same_outcome : equivalent curated ctx.candidate ≡ true
    pub covered : ctx.coverage ≡ some coverage
    pub held_out :
        compute_holdout_window parse iso policy.fraction_in_range policy.fraction_part coverage
        ≡ some w
    pub cadence : ctx.dataset_timeframe ≡ some timeframe
    pub passed_on :
        evaluate_promotion_window parse parse_timeframe_ms evaluate_window decide_verdict policy ctx
          w job.request.period job.request.timeframe timeframe
        ≡ evaluated passed

  persisted-IfPromoted :
      (C : RunPeriod → Type 0) (l : AttemptLedger) (n : ℕ) (w : RunPeriod) (o : Option String)
      → C w
      → IfPromoted C (
          persisted parse parse_timeframe_ms evaluate_window decide_verdict policy ctx equivalent
            resolve_epoch iso digest result_hash ledger_fails sign_and_write l n w o)
  persisted-IfPromoted C l n w none c = tt
  persisted-IfPromoted C l n w (some id) c = if-IfPromoted C (truthy id) _ _ (λ t. c) (λ f. tt)

  record_outcome-IfPromoted :
      (C : RunPeriod → Type 0) (key : String) (w : RunPeriod) (v : Verdict)
      (a : AttemptLedger × ℕ × Bool)
      → (v ≡ passed → C w)
      → IfPromoted C (
          after_record parse parse_timeframe_ms evaluate_window decide_verdict policy ctx equivalent
            resolve_epoch iso digest result_hash ledger_fails sign_and_write key w v a)
  record_outcome-IfPromoted C key w failed (l, n, b) f = tt
  record_outcome-IfPromoted C key w passed (l, n, b) f =
      persisted-IfPromoted C l n w (sign_and_write key n) (f refl)

  window_outcome-IfPromoted :
      (C : RunPeriod → Type 0) (l : AttemptLedger) (job : JobRow) (key epoch : String)
      (w : RunPeriod) (o : WindowOutcome)
      → (o ≡ evaluated passed → C w)
      → IfPromoted C (
          after_window parse parse_timeframe_ms evaluate_window decide_verdict policy ctx equivalent
            resolve_epoch iso digest result_hash ledger_fails sign_and_write l job key epoch w o)
  window_outcome-IfPromoted C l job key epoch w (rejected reason) f = tt
  window_outcome-IfPromoted C l job key epoch w (evaluated v) f =
      if-IfPromoted C ctx.faults.keys _ _ (λ e. tt)
        (λ e0.
          if-IfPromoted C ledger_fails _ _ (λ e. tt)
            (λ e.
              record_outcome-IfPromoted C key w v
                (record_attempt l (
                  attempt parse parse_timeframe_ms evaluate_window decide_verdict policy ctx
                    equivalent resolve_epoch iso digest result_hash ledger_fails sign_and_write job
                    epoch v))
                (λ p. f (ap evaluated p))))

  holdout-IfPromoted :
      (C : RunPeriod → Type 0) (l : AttemptLedger) (job : JobRow) (key epoch timeframe : String)
      (o : Option RunPeriod)
      → ((w : RunPeriod)
          → o ≡ some w
          → evaluate_promotion_window parse parse_timeframe_ms evaluate_window decide_verdict policy
              ctx w job.request.period job.request.timeframe timeframe
            ≡ evaluated passed
          → C w)
      → IfPromoted C (
          after_holdout parse parse_timeframe_ms evaluate_window decide_verdict policy ctx
            equivalent resolve_epoch iso digest result_hash ledger_fails sign_and_write l job key
            epoch timeframe o)
  holdout-IfPromoted C l job key epoch timeframe none f = tt
  holdout-IfPromoted C l job key epoch timeframe (some w) f =
      if-IfPromoted C ctx.faults.window _ _ (λ e. tt)
        (λ e. window_outcome-IfPromoted C l job key epoch w _ (f w refl))

  epoch-IfPromoted :
      (l : AttemptLedger) (job : JobRow) (key : String) (curated : O) (e : Option String)
      (c : Option RunPeriod) (t : Option String)
      → ctx.signing_key ≡ some key
      → ctx.curated ≡ some curated
      → ctx.bundle_rejected ≡ false
      → equivalent curated ctx.candidate ≡ true
      → ctx.coverage ≡ c
      → ctx.dataset_timeframe ≡ t
      → IfPromoted (IsEarned job) (
          after_epoch parse parse_timeframe_ms evaluate_window decide_verdict policy ctx equivalent
            resolve_epoch iso digest result_hash ledger_fails sign_and_write l job key e c t)
  epoch-IfPromoted l job key curated none c t s q b same ec et = tt
  epoch-IfPromoted l job key curated (some epoch) none t s q b same ec et = tt
  epoch-IfPromoted l job key curated (some epoch) (some c) none s q b same ec et = tt
  epoch-IfPromoted l job key curated (some epoch) (some c) (some t) s q b same ec et =
      holdout-IfPromoted (IsEarned job) l job key epoch t
        (compute_holdout_window parse iso policy.fraction_in_range policy.fraction_part c)
        (λ w held p. record {
          key = key;
          curated = curated;
          coverage = c;
          timeframe = t;
          signed = s;
          compared = q;
          accepted = b;
          same_outcome = same;
          covered = ec;
          held_out = held;
          cadence = et;
          passed_on = p;
        })

  curated-IfPromoted :
      (l : AttemptLedger) (job : JobRow) (key : String) (o : Option O) (baseline : Option Ref)
      → ctx.signing_key ≡ some key
      → ctx.curated ≡ o
      → IfPromoted (IsEarned job) (
          after_curated parse parse_timeframe_ms evaluate_window decide_verdict policy ctx
            equivalent resolve_epoch iso digest result_hash ledger_fails sign_and_write l job key o
            baseline)
  curated-IfPromoted l job key none baseline s q = tt
  curated-IfPromoted l job key (some o) none s q = tt
  curated-IfPromoted l job key (some o) (some baseline) s q =
      if-IfPromoted (IsEarned job) ctx.faults.integrity _ _ (λ e. tt)
        (λ e0.
          if-IfPromoted (IsEarned job) ctx.bundle_rejected _ _ (λ e. tt)
            (λ b.
              if-IfPromoted (IsEarned job) (not (equivalent o ctx.candidate)) _ _ (λ e. tt)
                (λ same.
                  if-IfPromoted (IsEarned job) ctx.faults.epoch _ _ (λ e. tt)
                    (λ e1.
                      epoch-IfPromoted l job key o (resolve_epoch job) ctx.coverage
                        ctx.dataset_timeframe s q b (not-false (equivalent o ctx.candidate) same)
                        refl refl))))

  signing-IfPromoted :
      (l : AttemptLedger) (job : JobRow) (o : Option String)
      → ctx.signing_key ≡ o
      → IfPromoted (IsEarned job) (
          after_signing parse parse_timeframe_ms evaluate_window decide_verdict policy ctx
            equivalent resolve_epoch iso digest result_hash ledger_fails sign_and_write l job o)
  signing-IfPromoted l job none s = tt
  signing-IfPromoted l job (some key) s =
      curated-IfPromoted l job key ctx.curated job.request.curated_baseline_ref s refl

  -- If a run that asks for promotion is promoted, then there is a signing key, its bundle is not
  -- rejected, its outcome is equivalent to the curated one, and it has passed on the window that is
  -- held out of the coverage.
  pub resolve_promotion_gate-IsEarned :
      (l : AttemptLedger) (job : JobRow)
      → str_eq job.request.mode "promotion" ≡ true
      → (r : Resolution) × (resolve_promotion_gate parse parse_timeframe_ms evaluate_window
            decide_verdict policy ctx equivalent resolve_epoch iso digest result_hash ledger_fails
            sign_and_write true l job
          ≡ some r)
        × IfPromoted (IsEarned job) r
  unfolding resolve_promotion_gate
  resolve_promotion_gate-IsEarned l job asked = (
    after_signing parse parse_timeframe_ms evaluate_window decide_verdict policy ctx equivalent
        resolve_epoch iso digest result_hash ledger_fails sign_and_write l job ctx.signing_key,
    rw asked refl,
    signing-IfPromoted l job ctx.signing_key refl,
  )
