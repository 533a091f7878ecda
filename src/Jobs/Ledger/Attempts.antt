-- ===== src/Jobs/Ledger/Attempts.antt =====
-- Promotion attempts are numbered 1, 2, 3, … within an epoch, and a repeated attempt keeps its
-- number.
use backtester.Prelude.{
  ℕ, ◌+◌, ◌≤◌, ◌<◌, String, List, [], ◌∷◌, none, some, true, false, ◌≡◌, ◌⊎◌, refl, arith, eq_iff,
  eq_refl, inl, inr, Option-cases, str_eq, if◌then◌else◌,
}
use backtester.OrderedMap.{set}
use backtester.OrderedMap.Laws.{get-set}
use backtester.Jobs.Ledger.{
  AttemptLedger, PromotionAttemptRecord, attempt_number, next_number, record_attempt, group,
}

-- Within an epoch the numbers given run from 1 to just below the next, each to one attempt.
pub record IsNumbered (l : AttemptLedger) : Type 0 where
  pub positive : (epoch : String) → 1 ≤ next_number l epoch
  pub bounded :
      (epoch identity : String) (n : ℕ)
      → attempt_number l epoch identity ≡ some n
      → (1 ≤ n) × (n < next_number l epoch)
  pub injective :
      (epoch a b : String) (n : ℕ)
      → attempt_number l epoch a ≡ some n
      → attempt_number l epoch b ≡ some n
      → a ≡ b

module _ (l : AttemptLedger) (r : PromotionAttemptRecord) where
  open r use {qualification_epoch_key as own, attempt_identity as new_identity}

  -- The ledger with a first record of an attempt in it.
  abbrev recorded : AttemptLedger
  recorded = record {
    next = set own (next_number l own + 1) l.next;
    attempts = set own (set new_identity (next_number l own) (group own l.attempts)) l.attempts;
  }

  record_attempt_first :
      attempt_number l own new_identity ≡ none
      → record_attempt l r ≡ (recorded, next_number l own, true)
  unfolding record_attempt
  record_attempt_first fresh = rw (fresh, record_attempt)

  record_attempt_again :
      (n : ℕ) → attempt_number l own new_identity ≡ some n → record_attempt l r ≡ (l, n, false)
  unfolding record_attempt
  record_attempt_again n old = rw (old, record_attempt)

  group-set :
      (epoch : String)
      → group epoch recorded.attempts ≡ (
          if str_eq own epoch
          then set new_identity (next_number l own) (group own l.attempts)
          else group epoch l.attempts)
  group-set epoch = ground (
    arith,
    get-set own epoch (set new_identity (next_number l own) (group own l.attempts)) l.attempts,
  )

  attempt_number-recorded :
      (epoch identity : String)
      → attempt_number recorded epoch identity ≡ (
          if str_eq own epoch
          then (if str_eq new_identity identity
              then some (next_number l own)
              else attempt_number l epoch identity)
          else attempt_number l epoch identity)
  unfolding attempt_number
  attempt_number-recorded epoch identity = rw (group-set epoch) (
      ground (
        arith,
        eq_iff own epoch,
        get-set new_identity identity (next_number l own) (group own l.attempts),
      ))

  next_number-recorded :
      (epoch : String)
      → next_number recorded epoch
        ≡ (if str_eq own epoch then next_number l own + 1 else next_number l epoch)
  next_number-recorded epoch = ground (arith, get-set own epoch (next_number l own + 1) l.next)

  recorded-IsNumbered :
      attempt_number l own new_identity ≡ none → IsNumbered l → IsNumbered recorded
  recorded-IsNumbered fresh i = record {
    positive =
        λ e. ground (arith, next_number-recorded e, eq_iff own e, i.positive e, i.positive own);
    bounded = λ e a n h. ground (
      arith,
      next_number-recorded e,
      attempt_number-recorded e a,
      eq_iff own e,
      i.positive own,
      i.bounded e a n,
    );
    injective = λ e a b n h k. ground (
      arith,
      attempt_number-recorded e a,
      attempt_number-recorded e b,
      eq_iff own e,
      eq_iff new_identity a,
      eq_iff new_identity b,
      i.bounded e a n,
      i.bounded e b n,
      i.injective e a b n,
    );
  }

-- Recording keeps the numbering, and returns the number that the attempt has afterwards. If the
-- attempt was known, nothing changes. If it was new, it gets the next number of its epoch.
pub record_attempt-IsNumbered :
    (l : AttemptLedger) (r : PromotionAttemptRecord)
    → IsNumbered l
    → let (l', n, inserted) = record_attempt l r in
      IsNumbered l'
      × (attempt_number l' r.qualification_epoch_key r.attempt_identity ≡ some n)
      × (((inserted ≡ false) × (l' ≡ l))
          ⊎ ((inserted ≡ true)
              × (n ≡ next_number l r.qualification_epoch_key)
              × (next_number l' r.qualification_epoch_key ≡ n + 1)))
record_attempt-IsNumbered l r i =
    elim (Option-cases (attempt_number l r.qualification_epoch_key r.attempt_identity)) [
      | inr (n, old) ↦ rw (record_attempt_again l r n old) (i, old, inl (refl, refl))
      | inl fresh ↦ rw (record_attempt_first l r fresh) (
        recorded-IsNumbered l r fresh i,
        rw (
          attempt_number-recorded l r r.qualification_epoch_key r.attempt_identity,
          eq_refl r.qualification_epoch_key,
          eq_refl r.attempt_identity,
        ),
        inr (
          refl,
          refl,
          rw (
            next_number-recorded l r r.qualification_epoch_key,
            eq_refl r.qualification_epoch_key,
          ),
        ),
      )
    ]

abbrev pub record_all : AttemptLedger → List PromotionAttemptRecord → AttemptLedger
record_all l [] = l
record_all l (r ∷ rs) = record_all (record_attempt l r).0 rs

record_attempt-keeps :
    (l : AttemptLedger) (r : PromotionAttemptRecord) (epoch identity : String) (n : ℕ)
    → attempt_number l epoch identity ≡ some n
    → attempt_number (record_attempt l r).0 epoch identity ≡ some n
record_attempt-keeps l r epoch identity n h =
    elim (Option-cases (attempt_number l r.qualification_epoch_key r.attempt_identity)) [
      | inr (m, old) ↦ rw (record_attempt_again l r m old) h
      | inl fresh ↦ rw (record_attempt_first l r fresh) (
          ground (
            arith,
            attempt_number-recorded l r epoch identity,
            eq_iff r.qualification_epoch_key epoch,
            eq_iff r.attempt_identity identity,
          ))
    ]

record_all-keeps :
    (l : AttemptLedger) (rs : List PromotionAttemptRecord) (epoch identity : String) (n : ℕ)
    → attempt_number l epoch identity ≡ some n
    → attempt_number (record_all l rs) epoch identity ≡ some n
record_all-keeps l [] epoch identity n h = h
record_all-keeps l (r ∷ rs) epoch identity n h =
    record_all-keeps (record_attempt l r).0 rs epoch identity n
      (record_attempt-keeps l r epoch identity n h)

-- A replay of an attempt, whatever was recorded in between, gets the number of the first time and
-- does not advance the counter.
pub record_attempt_replay :
    (l : AttemptLedger) (r : PromotionAttemptRecord) (rs : List PromotionAttemptRecord)
    → IsNumbered l
    → let (l', n, inserted) = record_attempt l r in
      record_attempt (record_all l' rs) r ≡ (record_all l' rs, n, false)
record_attempt_replay l r rs i =
    let (_, named, _) = record_attempt-IsNumbered l r i in
    record_attempt_again (record_all (record_attempt l r).0 rs) r (record_attempt l r).1 (
      record_all-keeps (record_attempt l r).0 rs r.qualification_epoch_key r.attempt_identity
        (record_attempt l r).1 named)
