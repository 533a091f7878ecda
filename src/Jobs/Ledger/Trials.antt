-- ===== src/Jobs/Ledger/Trials.antt =====
-- The first record of a trial wins: a replay does not inflate the number of trials.
use backtester.Prelude.{
  String, [], ◌∷◌, ◌++◌, true, false, ◌≡◌, arith, eq_iff, str_eq, if◌then◌else◌, eq_refl,
}
use backtester.OrderedMap.{set, has}
use backtester.OrderedMap.Laws.{get-set, values-set_new}
use backtester.Jobs.Ledger.{
  Groups, group, record_if_new, TrialRecord, TrialLedger, record_trial, query_trials,
}

module _ {ℓ} {R : Type ℓ} (group_key fingerprint : R → String) (m : Groups R) (r : R) where
  -- Afterwards each group holds what it held, and the record at the end of its own group, if its
  -- fingerprint was not there.
  record_if_new_lem :
      (k : String)
      → group k (record_if_new group_key fingerprint m r).0 ≡ (
          if str_eq (group_key r) k
          then (if has (fingerprint r) (group k m)
              then group k m
              else set (fingerprint r) r (group k m))
          else group k m)
  unfolding record_if_new
  record_if_new_lem k = ground (
    arith,
    eq_iff (group_key r) k,
    get-set (group_key r) k (set (fingerprint r) r (group (group_key r) m)) m,
  )

  record_if_new_known :
      has (fingerprint r) (group (group_key r) m) ≡ true
      → record_if_new group_key fingerprint m r ≡ (m, false)
  unfolding record_if_new
  record_if_new_known h = ground arith

  has-record_if_new :
      has (fingerprint r) (group (group_key r) (record_if_new group_key fingerprint m r).0) ≡ true
  has-record_if_new =
      rw (record_if_new_lem (group_key r), eq_refl (group_key r))
        (ground (
          arith,
          get-set (fingerprint r) (fingerprint r) r (group (group_key r) m),
          eq_refl (fingerprint r),
        ))

-- A trial that is new to its family is added at the end of it and to no other, and a trial that
-- its family holds changes no family.
pub query_trials-record_trial :
    (m : TrialLedger) (r : TrialRecord) (k : String)
    → query_trials (record_trial m r).0 k ≡ (
        if str_eq r.family_key k
        then (if has r.request_fingerprint (group k m)
            then query_trials m k
            else query_trials m k ++ r ∷ [])
        else query_trials m k)
unfolding query_trials record_trial
query_trials-record_trial m r k =
    rw (record_if_new_lem (λ x. x.family_key) (λ x. x.request_fingerprint) m r k)
      (ground (arith, values-set_new r.request_fingerprint r (group k m)))

-- Recording a trial twice records it once.
pub record_trial_twice :
    (m : TrialLedger) (r : TrialRecord)
    → let m' = (record_trial m r).0 in record_trial m' r ≡ (m', false)
unfolding record_trial
record_trial_twice m r =
    record_if_new_known (λ x. x.family_key) (λ x. x.request_fingerprint) (record_trial m r).0 r
      (has-record_if_new (λ x. x.family_key) (λ x. x.request_fingerprint) m r)
