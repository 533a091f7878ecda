-- ===== src/Jobs/Store/Claim.antt =====
-- Which job a worker gets.
use backtester.Prelude.{
  ℕ, ◌<◌, ◌⊎◌, Bool-cases, ltb, str_ltb, String, str_eq, str_ltb-asymmetric, str_ltb-not_before,
  List, [], ◌∷◌, Option, none, some, Bool, true, false, ◌≡◌, ◌≢◌, sym, ap, ◌∙◌, arith, All,
  All-filter, All-sort, All-filter-true, filter-All, sort-All, sort-Least, Least, subst, filter,
  inl, inr,
}
use backtester.OrderedMap.{get, values}
use backtester.OrderedMap.Laws.{All-values, All-values_get}
use backtester.Jobs.Lifecycle.{run, queued, running, status_eq}
use backtester.Jobs.Lifecycle.Graph.{status_eq→eq}
use backtester.Jobs.Row.{JobRow}
use backtester.Jobs.Store.{
  Store, Lease, queue, queue_time, before, has_status, head?, take_lease, apply_patch, start_patch,
}
use backtester.Jobs.Store.Evolution.{WellFormed}

before-asymmetric : (a b : JobRow) → before a b ≡ true → before b a ≡ false
before-asymmetric a b h = ground (arith, str_ltb-asymmetric a.run_id b.run_id)

before-not_before : (a b c : JobRow) → before a b ≡ false → before b c ≡ false → before a c ≡ false
before-not_before a b c h k = ground (arith, str_ltb-not_before a.run_id b.run_id c.run_id)

-- One row waits in front of another: since an earlier time, or since the same time under a run id that
-- is not after the other's.
abbrev pub IsInFront : JobRow → JobRow → Type 0
IsInFront a b =
    (queue_time a < queue_time b)
    ⊎ ((queue_time a ≡ queue_time b) × (str_ltb b.run_id a.run_id ≡ false))

not_before-IsInFront : (a b : JobRow) → before b a ≡ false → IsInFront a b
not_before-IsInFront a b h = elim (Bool-cases (ltb (queue_time a) (queue_time b))) [
  | inl l ↦ inl (ground arith)
  | inr l ↦ inr (ground arith, ground arith)
]

-- A row that a claim may take: queued, and no queued row of the store comes before it, by the time
-- of queueing and then by the run id.
pub record IsNext (st : Store) (job : JobRow) : Type 0 where
  pub held : get job.run_id st.jobs ≡ some job
  pub waits : job.status ≡ run queued
  pub first :
      (k : String) (other : JobRow)
      → get k st.jobs ≡ some other
      → other.status ≡ run queued
      → IsInFront job other

queued_rows-held :
    (st : Store) → WellFormed st → All (λ (j : JobRow). get j.run_id st.jobs ≡ some j) (queue st)
queued_rows-held st w = All-sort before _ _ (
    All-filter _ (has_status (run queued)) (values st.jobs)
      (All-values _ st.jobs w.distinct λ k j e. ap (λ x. get x st.jobs) (w.keyed k j e) ∙ e))

queued_rows-queued : (st : Store) → All (λ j. has_status (run queued) j ≡ true) (queue st)
queued_rows-queued st =
    All-sort before _ _ (All-filter-true (has_status (run queued)) (values st.jobs))

pub head-IsNext :
    (st : Store) (xs : List JobRow) (job : JobRow)
    → WellFormed st
    → queue st ≡ xs
    → head? xs ≡ some job
    → IsNext st job
head-IsNext st [] job w q e = absurd (cc)
head-IsNext st (x ∷ xs) job w q e = subst (IsNext st) same (record {
  held = (subst (All (λ (j : JobRow). get j.run_id st.jobs ≡ some j)) q (queued_rows-held st w)).0;
  waits =
      status_eq→eq x.status (run queued)
        (subst (All (λ j. has_status (run queued) j ≡ true)) q (queued_rows-queued st)).0;
  first = λ k other found waiting.
      not_before-IsInFront x other
        (least k other found (ap (λ s. status_eq s (run queued)) waiting));
})
  where
    same : x ≡ job
    same = ground arith

    bounded : All (λ b. before b x ≡ false) (queue st)
    bounded = subst (All (λ b. before b x ≡ false)) (sym q) (
        subst (Least before before-asymmetric before-not_before) q (
          sort-Least before before-asymmetric before-not_before
            (filter (has_status (run queued)) (values st.jobs))))

    least :
        (k : String) (other : JobRow)
        → get k st.jobs ≡ some other
        → has_status (run queued) other ≡ true
        → before other x ≡ false
    least =
        All-values_get (λ j. has_status (run queued) j ≡ true → before j x ≡ false) st.jobs
          (filter-All (λ j. before j x ≡ false) (has_status (run queued)) (values st.jobs)
            (sort-All before (λ j. before j x ≡ false)
              (filter (has_status (run queued)) (values st.jobs)) bounded))

-- The row that a claim leaves: running from now on, under its deadline and the lease.
abbrev pub claimed_row : ℕ → Option Lease → Bool → JobRow → JobRow
claimed_row now lease coalesce job =
    take_lease now lease coalesce (apply_patch job (run queued) (run running) (start_patch now job))

-- What a claim does to a well-formed store.
pub data Claims (st : Store) (now : ℕ) (lease : Option Lease) (coalesce : Bool)
    : Store × Option JobRow → Type 0 where
  idle :
      ((k : String) (job : JobRow) → get k st.jobs ≡ some job → job.status ≢ run queued)
      → Claims st now lease coalesce (st, none)
  claims :
      (job : JobRow) (r : Store × Option JobRow)
      → IsNext st job
      → r.1 ≡ some (claimed_row now lease coalesce job)
      → get job.run_id r.0.jobs ≡ some (claimed_row now lease coalesce job)
      → ((k : String) → str_eq job.run_id k ≡ false → get k r.0.jobs ≡ get k st.jobs)
      → Claims st now lease coalesce r
