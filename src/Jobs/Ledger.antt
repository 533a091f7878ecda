-- ===== src/Jobs/Ledger.antt =====
-- jobs/promotion/attempt-ledger.ts, jobs/ledger/trial-ledger.ts and jobs/ledger/novelty-pool.ts:
-- the three append-only ledgers of the workers.
pub mod Attempts
pub mod Trials
use backtester.Prelude.{
  ℕ, ◌+◌, String, List, [], ◌∷◌, Option, none, some, Bool, true, false, not, ◌||◌, ◌&&◌, ◌==◌, ltb,
  str_eq, str_ltb, if◌then◌else◌, get_or, is_some, filter, sort,
}
use backtester.Json.{Json}
use backtester.OrderedMap.{OrderedMap, get, set, has, values}

pub data Verdict : Type 0 where
  passed failed : Verdict

pub record PromotionAttemptRecord : Type 0 where
  pub qualification_epoch_key : String
  pub attempt_identity : String
  pub request_fingerprint : String
  pub dataset_fingerprint : String
  pub run_id : String
  pub result_hash : String
  pub verdict : Verdict
  pub created_at_ms : ℕ

-- The attempts are keyed by epoch and identity, which the source joins by a NUL into one text;
-- neither part holds one, since both are hexadecimal digests.
pub record AttemptLedger : Type 0 where
  pub next : OrderedMap ℕ
  pub attempts : OrderedMap (OrderedMap ℕ)

-- `attempts.get(epoch + '\0' + identity)`.
abbrev pub group {ℓ} : {V : Type ℓ} → String → OrderedMap (OrderedMap V) → OrderedMap V
group k m = get_or (get k m) []

unfoldable pub attempt_number : AttemptLedger → String → String → Option ℕ
attempt_number l epoch identity = get identity (group epoch l.attempts)

abbrev pub next_number : AttemptLedger → String → ℕ
next_number l epoch = get_or (get epoch l.next) 1

unfoldable pub record_attempt : AttemptLedger → PromotionAttemptRecord → AttemptLedger × ℕ × Bool
unfolding attempt_number
record_attempt l r =
    let epoch = r.qualification_epoch_key in
    elim (attempt_number l epoch r.attempt_identity) [
      | some existing ↦ (l, existing, false)
      | none ↦
          let n = next_number l epoch in
          (
            record {
              next = set epoch (n + 1) l.next;
              attempts = set epoch (set r.attempt_identity n (group epoch l.attempts)) l.attempts;
            },
            n,
            true,
          )
    ]

-- A ledger of records by group and request fingerprint, first writer wins: the state and the
-- `recordIfNew` of `InMemoryTrialLedger` and of `InMemoryNoveltyPool`.
abbrev pub Groups {ℓ} : Type ℓ → Type ℓ
Groups R = OrderedMap (OrderedMap R)

module _ {ℓ} {R : Type ℓ} (group_key fingerprint : R → String) where
  unfoldable pub record_if_new : Groups R → R → Groups R × Bool
  record_if_new m r =
      let fam = group (group_key r) m in
      if has (fingerprint r) fam
      then (m, false)
      else (set (group_key r) (set (fingerprint r) r fam) m, true)

pub record TrialMarketContext : Type 0 where
  pub dataset_ref : String
  pub symbols : List String
  pub timeframe : String
  pub from : String
  pub to : String

-- The statistics are floats, kept by their decimal literals.
pub record TrialRecord : Type 0 where
  pub family_key : String
  pub request_fingerprint : String
  pub run_id : String
  pub result_hash : String
  pub trial_family_hint : Option String
  pub market_context : TrialMarketContext
  pub sharpe : String
  pub skew : String
  pub kurtosis : String
  pub t_count : ℕ
  pub created_at_ms : ℕ

abbrev pub TrialLedger : Type 0
TrialLedger = Groups TrialRecord

unfoldable pub record_trial : TrialLedger → TrialRecord → TrialLedger × Bool
unfolding record_if_new
record_trial = record_if_new (λ r. r.family_key) (λ r. r.request_fingerprint)

unfoldable pub query_trials : TrialLedger → String → List TrialRecord
query_trials m family_key = values (group family_key m)

pub record PoolRecord : Type 0 where
  pub comparability_key : String
  pub request_fingerprint : String
  pub run_id : String
  pub result_hash : String
  pub family_key : Option String
  pub daily_deltas : Json
  pub created_at_ms : ℕ

abbrev pub NoveltyPool : Type 0
NoveltyPool = Groups PoolRecord

unfoldable pub record_member : NoveltyPool → PoolRecord → NoveltyPool × Bool
unfolding record_if_new
record_member = record_if_new (λ r. r.comparability_key) (λ r. r.request_fingerprint)

-- `r.requestFingerprint !== opts?.excludeRequestFingerprint`.
abbrev is_kept : Option String → PoolRecord → Bool
is_kept none r = true
is_kept (some excluded) r = not (str_eq r.request_fingerprint excluded)

abbrev pub pool_before : PoolRecord → PoolRecord → Bool
pool_before a b =
    ltb a.created_at_ms b.created_at_ms
    || (a.created_at_ms == b.created_at_ms && str_ltb a.run_id b.run_id)

unfoldable pub query_pool : NoveltyPool → String → Option String → List PoolRecord
query_pool m key excluded = sort pool_before (filter (is_kept excluded) (values (group key m)))
