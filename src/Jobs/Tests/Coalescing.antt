-- ===== src/Jobs/Tests/Coalescing.antt =====
-- The theorems on the lifecycle, the locks, the cache, the ledgers, the wake step and the
-- completions at concrete inputs.
use backtester.Prelude.{
  ◌+◌, ◌≡◌, ◌⊎◌, refl, List, [], ◌∷◌, none, some, true, false, length, eq_iff, arith,
}
use mathlib.Core.List.{map}
use backtester.OrderedMap.{get, keys}
use backtester.Json.{null}
use backtester.Jobs.Lifecycle.{waiting_for_compute, is_terminal}
use backtester.Jobs.Row.{JobRow, JobEventRow, job_completed, pending}
use backtester.Jobs.ComputeLock.{Locks, ComputeLock, new_lock}
use backtester.Jobs.ComputeLock.Exclusion
use backtester.Jobs.ComputeLock.Exclusion.{
  LockCall, acquires, renews, lock_run, lock_run-exclusion, acquire_iff,
}
use backtester.Jobs.ResultCache.{CacheEntry, Cache, lookup}
use backtester.Jobs.ResultCache.Laws
use backtester.Jobs.ResultCache.Laws.{
  CacheCall, puts, sweeps, cache_run, cache_run-stable, lookup-put,
}
use backtester.Jobs.Ledger.{
  AttemptLedger, PromotionAttemptRecord, passed, attempt_number, record_attempt, next_number,
  TrialRecord,
}
use backtester.Jobs.Ledger.Attempts.{
  IsNumbered, record_all, record_attempt-IsNumbered, record_attempt_replay,
}
use backtester.Jobs.Wake.{WakeDeps, wake_group}
use backtester.Jobs.Wake.Laws.{wake_group_alive}
use backtester.Jobs.Store.Queries.{is_deliverable, marked}
use backtester.Jobs.Completion.{
  World, publish_completion, deliver_outbox, outbox_event, completion_event,
}
use backtester.Jobs.Completion.Laws.{publish_completion-posts, deliver_outbox-keeps, content}
use backtester.Jobs.Row.{RunSubmitRequest}
use backtester.Jobs.Keys.{hint_of, compute_family_key}
use backtester.Jobs.Keys.Laws.{compute_family_key_separates}
use backtester.Jobs.Tests.{first_job, done_row, waiting_row, holding}

abbrev held_lock : ComputeLock
held_lock = new_lock "ci" "r1" "w1" 10 30 10

abbrev held_locks : Locks
held_locks = ("ci", held_lock) ∷ []

held_locks-IsSound : Exclusion.IsSound held_locks
unfolding get keys
held_locks-IsSound = record {
  keyed = λ k row e. ground (arith, eq_iff "ci" k);
  distinct = (tt, tt);
}

abbrev rival_calls : List LockCall
rival_calls = acquires "ci" "r2" "w2" 20 30 ∷ renews "ci" "w2" 90 ∷ []

lock_run-exclusion_example : get "ci" (lock_run held_locks rival_calls) ≡ some held_lock
unfolding get
lock_run-exclusion_example =
    lock_run-exclusion held_locks rival_calls "ci" held_lock held_locks-IsSound refl
      (omega arith, (refl, tt))

abbrev entry : CacheEntry
entry = record {
  compute_identity = "ci";
  request_fingerprint = "f1";
  dataset_fingerprint = "d1";
  compute_version = "1";
  sandbox_policy_version = "1";
  template_ref = "t1";
  created_at_ms = 50;
}

abbrev filled : Cache
filled = ("ci", entry) ∷ []

filled-IsSound : Laws.IsSound filled
unfolding get keys
filled-IsSound = record { keyed = λ k e h. ground (arith, eq_iff "ci" k); distinct = (tt, tt) }

abbrev cache_calls : List CacheCall
cache_calls = puts (record entry { template_ref = "t2" }) ∷ sweeps 60 20 5 ∷ []

cache_run-stable_example : lookup (cache_run filled cache_calls) "ci" ≡ some entry
unfolding lookup get
cache_run-stable_example =
    cache_run-stable filled cache_calls "ci" entry filled-IsSound refl (refl, tt)

abbrev first_attempt : PromotionAttemptRecord
first_attempt = record {
  qualification_epoch_key = "e1";
  attempt_identity = "a1";
  request_fingerprint = "f1";
  dataset_fingerprint = "d1";
  run_id = "r1";
  result_hash = "h1";
  verdict = passed;
  created_at_ms = 50;
}

abbrev second_attempt : PromotionAttemptRecord
second_attempt = record first_attempt { attempt_identity = "a2" }

abbrev no_attempts : AttemptLedger
no_attempts = record { next = []; attempts = [] }

no_attempts-IsNumbered : IsNumbered no_attempts
unfolding attempt_number get
no_attempts-IsNumbered = record {
  positive = λ epoch. omega arith;
  bounded = λ epoch identity n h. absurd (cc);
  injective = λ epoch a b n h k. absurd (cc);
}

record_attempt-IsNumbered_example :
    let (l', n, inserted) = record_attempt no_attempts first_attempt in
    IsNumbered l'
    × (attempt_number l' "e1" "a1" ≡ some n)
    × (((inserted ≡ false) × (l' ≡ no_attempts))
        ⊎ ((inserted ≡ true) × (n ≡ next_number no_attempts "e1") × (next_number l' "e1" ≡ n + 1)))
record_attempt-IsNumbered_example =
    record_attempt-IsNumbered no_attempts first_attempt no_attempts-IsNumbered

record_attempt_replay_example :
    let (l', n, inserted) = record_attempt no_attempts first_attempt in
    record_attempt (record_all l' (second_attempt ∷ [])) first_attempt
    ≡ (record_all l' (second_attempt ∷ []), n, false)
record_attempt_replay_example =
    record_attempt_replay no_attempts first_attempt (second_attempt ∷ []) no_attempts-IsNumbered

abbrev trial : TrialRecord
trial = record {
  family_key = "fam";
  request_fingerprint = "f1";
  run_id = "r1";
  result_hash = "h1";
  trial_family_hint = none;
  market_context = record {
    dataset_ref = "smoke";
    symbols = "BTCUSDT" ∷ [];
    timeframe = "1m";
    from = "2026-01-01";
    to = "2026-02-01";
  };
  sharpe = "0.1";
  skew = "0";
  kurtosis = "3";
  t_count = 30;
  created_at_ms = 50;
}

abbrev follower : JobRow
follower = record waiting_row { status = waiting_for_compute; compute_identity = some "ci" }

abbrev deps : WakeDeps
deps = record { cache = []; locks = held_locks; now = 20; compute_wait_max_attempts = 3 }

wake_group_alive_example :
    ((wake_group deps (holding follower) "ci" (follower ∷ [])).1 ≡ 0)
    × (get "r1" (wake_group deps (holding follower) "ci" (follower ∷ [])).0.jobs ≡ some follower)
unfolding get lookup
wake_group_alive_example =
    wake_group_alive deps (holding follower) "ci" (follower ∷ []) "r1" follower refl refl (refl, tt)
      refl refl

abbrev world : World
world = record { store = holding done_row; posts = []; uids = 0 }

publish_completion-posts_example :
    let e = outbox_event "v1" (λ _. true) (λ _. "e0") done_row 70 "e0" in
    let w' = publish_completion "v1" (λ _. true) (λ _. "e0") world 70 done_row in
    (w'.store.events ≡ marked true e ∷ [])
    × (w'.posts ≡ ("http://lab/hook", completion_event "v1" done_row 70) ∷ [])
    × (is_deliverable (marked true e).delivery_state ≡ false)
    × (w'.store.jobs ≡ world.store.jobs)
unfolding is_terminal
publish_completion-posts_example =
    publish_completion-posts "v1" (λ _. true) (λ _. "e0") world 70 done_row "http://lab/hook" refl
      refl refl tt

abbrev undelivered : JobEventRow
undelivered = record {
  event_uid = "e0";
  job_id = "j1";
  run_id = "r1";
  event_type = job_completed;
  payload = null;
  created_at_ms = 70;
  delivery_state = some pending;
  delivery_attempts = some 0;
}

abbrev retrying : World
retrying = record world { store = record (holding done_row) { events = undelivered ∷ [] } }

deliver_outbox-keeps_example :
    let (w', n) = deliver_outbox (λ _. false) retrying 5 in
    (map content w'.store.events ≡ map content retrying.store.events)
    × (length w'.posts ≡ length retrying.posts + n)
    × (w'.store.jobs ≡ retrying.store.jobs)
deliver_outbox-keeps_example = deliver_outbox-keeps (λ _. false) retrying 5

abbrev two_symbols : RunSubmitRequest
two_symbols = record first_job.request { symbols = "ETHUSDT" ∷ "BTCUSDT" ∷ [] }

abbrev reordered : RunSubmitRequest
reordered = record two_symbols { symbols = "BTCUSDT" ∷ "ETHUSDT" ∷ [] }

compute_family_key_separates_example :
    (hint_of two_symbols ≡ hint_of reordered)
    × (two_symbols.dataset_ref ≡ reordered.dataset_ref)
    × (two_symbols.timeframe ≡ reordered.timeframe)
    × (two_symbols.period.from ≡ reordered.period.from)
    × (two_symbols.period.to ≡ reordered.period.to)
unfolding compute_family_key
compute_family_key_separates_example =
    compute_family_key_separates (λ j. "digest") two_symbols reordered (λ _. refl) refl
