-- ===== src/Jobs/Store/Moves.antt =====
-- Each operation of the job store moves rows by steps only.
use backtester.Prelude.{
  ℕ, ◌+◌, String, List, [], ◌∷◌, Option, none, some, Bool, true, false, ◌≡◌, refl, sym, ◌∙◌, ap,
  arith, if◌then◌else◌, inl, inr, Bool-cases, Option-cases, str_eq, eq_iff, eq_refl, ◌&&◌, sort,
  filter, opt_str_eq, truthy,
}
use backtester.OrderedMap.{get, set, values, modify}
use backtester.OrderedMap.Laws.{
  get-set, get-modify, get-map_values, Distinct-set, keys-modify, keys-map_values,
}
use backtester.Jobs.Lifecycle.{
  InternalJobStatus, run, queued, running, failed, waiting_for_compute, status_eq, is_terminal,
  can_transition,
}
use backtester.Jobs.Lifecycle.Graph.{status_eq→eq}
use backtester.Jobs.Row.{JobRow, NewJob, JobRowPatch, ComputeWakeReason}
use backtester.Jobs.Store.{
  Store, transition, apply_patch, may_move, Lease, take_lease, start_patch, settle_claim,
  claim_next_queued, renew_row, renew_lease, wake, wake_patch, release_waiters,
  release_all_compute_waiters, elect_one_compute_waiter, poison_compute_waiter, head?, queue,
  waits_for, before, failure, insert_or_get, insert_key, existing_run, row_of,
}
use backtester.Jobs.Store.Evolution.{
  Touches, move, touch, RowSteps, here, next, absent, born, lives, Lives-refl, Evolves,
  Evolves-refl, Evolves-trans, apply_patch-status, lease-Touches,
}

-- A won `transition` rewrites exactly the row that it names, along an allowed edge; a lost one
-- leaves the store alone.
pub data Moved (st : Store) (id : String) (from to : InternalJobStatus) (patch : JobRowPatch)
    : Store × Bool → Type 0 where
  lost : Moved st id from to patch (st, false)
  won :
      (job : JobRow)
      → get id st.jobs ≡ some job
      → job.status ≡ from
      → can_transition from to ≡ true
      → Moved st id from to patch
          (record st { jobs = set id (apply_patch job from to patch) st.jobs }, true)

may_move-parts :
    (job : JobRow) (from to : InternalJobStatus) (expect : Option String)
    → may_move job from to expect ≡ true
    → (status_eq job.status from ≡ true) × (can_transition from to ≡ true)
may_move-parts job from to expect h = ground arith

pub transition-Moved :
    (st : Store) (id : String) (from to : InternalJobStatus) (patch : JobRowPatch)
    (expect : Option String)
    → Moved st id from to patch (transition st id from to patch expect)
unfolding transition
transition-Moved st id from to patch expect = elim (Option-cases (get id st.jobs)) [
  | inl e ↦ rw (e, transition) lost
  | inr (job, e) ↦ elim (Bool-cases (may_move job from to expect)) [
    | inl ok ↦
        let (same, edge) = may_move-parts job from to expect ok in
        rw (e, transition, ok) (won job e (status_eq→eq _ _ same) edge)
    | inr no_move ↦ rw (e, transition, no_move) lost
  ]
]

-- A write to one row that steps as given.
set-Evolves :
    (st : Store) (id : String) (a b : JobRow)
    → get id st.jobs ≡ some a
    → RowSteps a b
    → Evolves st (record st { jobs = set id b st.jobs })
set-Evolves st id a b e s = record {
  rows = λ k. elim (Bool-cases (str_eq id k)) [
    | inl same ↦ rw (get-set id k b st.jobs, same, ← (eq_iff id k).0 same, e) (lives s)
    | inr other ↦ rw (get-set id k b st.jobs, other) (Lives-refl k (get k st.jobs))
  ];
  distinct = Distinct-set id b st.jobs;
  resolves = λ key i job e held t. e;
}

pub Moved-Evolves :
    (st : Store) (id : String) (from to : InternalJobStatus) (patch : JobRowPatch)
    (r : Store × Bool)
    → Moved st id from to patch r
    → Evolves st r.0
Moved-Evolves st id from to patch _ lost = Evolves-refl st
Moved-Evolves st id from to patch _ (won job e same edge) =
    set-Evolves st id job _ e (next here (move job from to patch same edge))

pub transition-Evolves :
    (st : Store) (id : String) (from to : InternalJobStatus) (patch : JobRowPatch)
    (expect : Option String)
    → Evolves st (transition st id from to patch expect).0
transition-Evolves st id from to patch expect =
    Moved-Evolves st id from to patch _ (transition-Moved st id from to patch expect)

-- A write of lease or charge to a row that is not terminal.
pub modify-Evolves :
    (st : Store) (id : String) (f : JobRow → JobRow)
    → ((a : JobRow) → get id st.jobs ≡ some a → is_terminal a.status ≡ false)
    → ((a : JobRow) → Touches a (f a))
    → Evolves st (record st { jobs = modify id f st.jobs })
modify-Evolves st id f live t = record {
  rows = λ k. elim (Bool-cases (str_eq id k)) [
    | inl same ↦
        rw (get-modify id k f st.jobs, same, ← (eq_iff id k).0 same)
          (elim (Option-cases (get id st.jobs)) [
            | inl e ↦ rw e absent
            | inr (a, e) ↦ rw e (lives (next here (touch (live a e) (t a))))
          ])
    | inr other ↦ rw (get-modify id k f st.jobs, other) (Lives-refl k (get k st.jobs))
  ];
  distinct = λ d. rw (keys-modify id f st.jobs) d;
  resolves = λ key i job e held t. e;
}

-- The row after a won move has the new status.
pub get-won :
    (st : Store) (id : String) (from to : InternalJobStatus) (patch : JobRowPatch)
    (r : Store × Bool)
    → Moved st id from to patch r
    → r.1 ≡ true
    → (job : JobRow) × (get id st.jobs ≡ some job)
      × (job.status ≡ from)
      × (get id r.0.jobs ≡ some (apply_patch job from to patch))
get-won st id from to patch _ lost h = cc
get-won st id from to patch _ (won job e same edge) h =
    (job, e, same, rw (get-set id id (apply_patch job from to patch) st.jobs, eq_refl id) refl)

-- A won move to a status that is not terminal, and then a write to the same row.
pub Moved-modify-Evolves :
    (st : Store) (id : String) (from to : InternalJobStatus) (patch : JobRowPatch)
    (f : JobRow → JobRow) (r : Store × Bool)
    → Moved st id from to patch r
    → r.1 ≡ true
    → is_terminal to ≡ false
    → ((a : JobRow) → Touches a (f a))
    → Evolves st (record r.0 { jobs = modify id f r.0.jobs })
Moved-modify-Evolves st id from to patch f r m ok live t =
    let (job, e, same, e') = get-won st id from to patch r m ok in
    Evolves-trans st r.0 (record r.0 { jobs = modify id f r.0.jobs })
      (Moved-Evolves st id from to patch r m)
      (modify-Evolves r.0 id f
        (λ a ea.
          let same_row : apply_patch job from to patch ≡ a = cc in
          ap (λ (x : JobRow). is_terminal x.status) (sym same_row)
          ∙ ap is_terminal (apply_patch-status job from to patch)
          ∙ live)
        t)

take_lease-Touches :
    (now : ℕ) (lease : Option Lease) (coalesce : Bool) (a : JobRow)
    → Touches a (take_lease now lease coalesce a)
unfolding take_lease
take_lease-Touches now none coalesce a =
    lease-Touches a a.leased_by a.lease_expires_at a.attempts a.engine_attempt_charged
take_lease-Touches now (some l) coalesce a =
    lease-Touches a (some l.worker_id) (some (now + l.ttl_ms))
      (if coalesce then a.attempts else a.attempts + 1) a.engine_attempt_charged

settle_claim-Evolves :
    (st : Store) (now : ℕ) (lease : Option Lease) (coalesce : Bool) (id : String)
    (patch : JobRowPatch) (r : Store × Bool)
    → Moved st id (run queued) (run running) patch r
    → Evolves st (settle_claim now lease coalesce id r).0
unfolding is_terminal
settle_claim-Evolves st now lease coalesce id patch (st', false) m =
    Moved-Evolves st id (run queued) (run running) patch (st', false) m
settle_claim-Evolves st now lease coalesce id patch (st', true) m =
    Moved-modify-Evolves st id (run queued) (run running) patch (take_lease now lease coalesce)
      (st', true) m refl refl (take_lease-Touches now lease coalesce)

pub claim_next_queued-Evolves :
    (st : Store) (now : ℕ) (lease : Option Lease) (coalesce : Bool)
    → Evolves st (claim_next_queued st now lease coalesce).0
unfolding claim_next_queued
claim_next_queued-Evolves st now lease coalesce = elim (Option-cases (head? (queue st))) [
  | inl e ↦ rw (e, claim_next_queued) (Evolves-refl st)
  | inr (job, e) ↦
      rw (e, claim_next_queued)
        (settle_claim-Evolves st now lease coalesce job.run_id (start_patch now job) _
          (transition-Moved st job.run_id (run queued) (run running) (start_patch now job) none))
]

-- A renewal writes to running rows only.
renew_row-RowSteps :
    (worker : String) (until : ℕ) (a : JobRow) → RowSteps a (renew_row worker until a)
unfolding is_terminal
renew_row-RowSteps worker until a =
    elim (Bool-cases (status_eq a.status (run running) && opt_str_eq a.leased_by worker)) [
      | inl mine ↦ rw mine (
          next here (
            touch (ap is_terminal (status_eq→eq a.status (run running) (ground arith)))
              (lease-Touches a a.leased_by (some until) a.attempts a.engine_attempt_charged)))
      | inr other ↦ rw other here
    ]

pub renew_lease-Evolves :
    (st : Store) (worker : String) (until : ℕ) → Evolves st (renew_lease st worker until)
unfolding renew_lease
renew_lease-Evolves st worker until = record {
  rows = λ k.
      rw (get-map_values k (renew_row worker until) st.jobs) (elim (Option-cases (get k st.jobs)) [
        | inl e ↦ rw e absent
        | inr (a, e) ↦ rw e (lives (renew_row-RowSteps worker until a))
      ]);
  distinct = λ d. rw (keys-map_values (renew_row worker until) st.jobs) d;
  resolves = λ key i job e held t. e;
}

pub wake-Evolves :
    (st : Store) (id : String) (reason : ComputeWakeReason) (now : ℕ)
    → Evolves st (wake st id reason now).0
unfolding wake
wake-Evolves st id reason now =
    transition-Evolves st id waiting_for_compute (run queued) (wake_patch now reason) none

release_waiters-Evolves :
    (st : Store) (jobs : List JobRow) (reason : ComputeWakeReason) (now n : ℕ)
    → Evolves st (release_waiters st jobs reason now n).0
unfolding release_waiters
release_waiters-Evolves st [] reason now n = Evolves-refl st
release_waiters-Evolves st (job ∷ jobs) reason now n =
    let woken = wake st job.run_id reason now in
    let m = if woken.1 then n + 1 else n in
    Evolves-trans st woken.0 (release_waiters woken.0 jobs reason now m).0
      (wake-Evolves st job.run_id reason now) (release_waiters-Evolves woken.0 jobs reason now m)

pub release_all_compute_waiters-Evolves :
    (st : Store) (ci : String) (reason : ComputeWakeReason) (now : ℕ)
    → Evolves st (release_all_compute_waiters st ci reason now).0
unfolding release_all_compute_waiters
release_all_compute_waiters-Evolves st ci reason now =
    release_waiters-Evolves st (filter (waits_for ci) (values st.jobs)) reason now 0

pub elect_one_compute_waiter-Evolves :
    (st : Store) (ci : String) (reason : ComputeWakeReason) (now : ℕ)
    → Evolves st (elect_one_compute_waiter st ci reason now).0
unfolding elect_one_compute_waiter
elect_one_compute_waiter-Evolves st ci reason now =
    elim (Option-cases (head? (sort before (filter (waits_for ci) (values st.jobs))))) [
      | inl e ↦ rw (e, elect_one_compute_waiter) (Evolves-refl st)
      | inr (job, e) ↦ rw (e, elect_one_compute_waiter) (wake-Evolves st job.run_id reason now)
    ]

pub poison_compute_waiter-Evolves :
    (st : Store) (id : String) (now : ℕ) → Evolves st (poison_compute_waiter st id now).0
unfolding poison_compute_waiter
poison_compute_waiter-Evolves st id now =
    transition-Evolves st id waiting_for_compute (run failed) (failure now "compute_wait_exhausted")
      none

-- The key of a new row stood for no row before.
insert_resolves :
    (st : Store) (job : NewJob) (key id : String) (row : JobRow)
    → existing_run (get (insert_key job) st.by_key) st.jobs ≡ none
    → get key st.by_key ≡ some id
    → get id st.jobs ≡ some row
    → truthy id ≡ true
    → get key (set (insert_key job) job.run_id st.by_key) ≡ some id
insert_resolves st job key id row missing e held t =
    elim (Bool-cases (str_eq (insert_key job) key)) [
      | inl same ↦
          let here : get (insert_key job) st.by_key ≡ some id =
            ap (λ x. get x st.by_key) ((eq_iff (insert_key job) key).0 same) ∙ e in
          absurd (cc (rw (here, t, held) at missing))
      | inr other ↦ rw (get-set (insert_key job) key job.run_id st.by_key, other) e
    ]

set_fresh-Evolves :
    (st : Store) (job : NewJob)
    → existing_run (get (insert_key job) st.by_key) st.jobs ≡ none
    → get job.run_id st.jobs ≡ none
    → Evolves st (record st {
      jobs = set job.run_id (row_of job) st.jobs;
      by_key = set (insert_key job) job.run_id st.by_key;
    })
set_fresh-Evolves st job missing fresh = record {
  rows = λ k. elim (Bool-cases (str_eq job.run_id k)) [
    | inl same ↦
        let i : job.run_id ≡ k = (eq_iff job.run_id k).0 same in
        rw (get-set job.run_id k (row_of job) st.jobs, same, ap (λ x. get x st.jobs) (sym i), fresh)
          (born job i here)
    | inr other ↦
        rw (get-set job.run_id k (row_of job) st.jobs, other) (Lives-refl k (get k st.jobs))
  ];
  distinct = Distinct-set job.run_id (row_of job) st.jobs;
  resolves = λ key id row e held t. insert_resolves st job key id row missing e held t;
}

-- A submission writes a new row; run ids are drawn fresh, so none is overwritten.
pub insert_or_get-Evolves :
    (st : Store) (job : NewJob)
    → get job.run_id st.jobs ≡ none
    → Evolves st (insert_or_get st job).0
unfolding insert_or_get
insert_or_get-Evolves st job fresh =
    elim (Option-cases (existing_run (get (insert_key job) st.by_key) st.jobs)) [
      | inr (old, found) ↦ rw (found, insert_or_get) (Evolves-refl st)
      | inl missing ↦ rw (missing, insert_or_get) (set_fresh-Evolves st job missing fresh)
    ]
