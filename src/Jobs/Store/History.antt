-- ===== src/Jobs/Store/History.antt =====
-- Any sequence of calls on the job store, and what it keeps.
use backtester.Prelude.{
  ℕ, String, List, [], ◌∷◌, Option, none, some, Bool, true, ◌≡◌, refl, ap, ◌∙◌,
}
use backtester.OrderedMap.{get, keys}
use backtester.Jobs.Lifecycle.{InternalJobStatus, is_terminal, public_status}
use backtester.Jobs.Row.{JobRow, NewJob, JobRowPatch, JobEventRow, ComputeWakeReason}
use backtester.Jobs.Store.{
  Store, new_store, Lease, insert_or_get, transition, claim_next_queued, renew_lease,
  release_all_compute_waiters, elect_one_compute_waiter, poison_compute_waiter, row_of,
}
use backtester.Jobs.Store.Queries.{append_event, mark_delivered, to_status_view}
use backtester.Jobs.Store.Reap.{ReapOptions, reap_deadlines}
use backtester.Jobs.Store.Reap.Moves.{reap_deadlines-Evolves}
use backtester.Jobs.Store.Evolution.{
  SameJob, RowSteps, Evolves, Evolves-refl, Evolves-trans, Lives, Lives-refl, Lives-some,
  EveryRow-Evolves, WellFormed, Evolves-WellFormed, RowSteps-terminal, RowSteps-Extends,
  RowSteps-SameJob, RowSteps-IsCurrent, Extends, IsCurrent, last_status,
}
use backtester.Jobs.Store.Moves.{
  insert_or_get-Evolves, transition-Evolves, claim_next_queued-Evolves, renew_lease-Evolves,
  release_all_compute_waiters-Evolves, elect_one_compute_waiter-Evolves,
  poison_compute_waiter-Evolves,
}

-- The calls that change the store.
pub data Call : Type 0 where
  insert : NewJob → Call
  move : String → InternalJobStatus → InternalJobStatus → JobRowPatch → Option String → Call
  claim : ℕ → Option Lease → Bool → Call
  renew : String → ℕ → Call
  reap : ℕ → ReapOptions → Call
  release elect : String → ComputeWakeReason → ℕ → Call
  poison : String → ℕ → Call
  append : JobEventRow → Call
  mark : String → Bool → Call

unfoldable pub step : Store → Call → Store
step st (insert job) = (insert_or_get st job).0
step st (move id from to patch expect) = (transition st id from to patch expect).0
step st (claim now lease coalesce) = (claim_next_queued st now lease coalesce).0
step st (renew worker until) = renew_lease st worker until
step st (reap now opts) = (reap_deadlines st now opts).0
step st (release ci reason now) = (release_all_compute_waiters st ci reason now).0
step st (elect ci reason now) = (elect_one_compute_waiter st ci reason now).0
step st (poison id now) = (poison_compute_waiter st id now).0
step st (append ev) = append_event st ev
step st (mark uid ok) = mark_delivered st uid ok

unfoldable pub after : Store → List Call → Store
after st [] = st
after st (c ∷ cs) = after (step st c) cs

-- A submission draws a run id that the store does not hold.
abbrev pub IsFreshCall : Store → Call → Type 0
IsFreshCall st (insert job) = get job.run_id st.jobs ≡ none
IsFreshCall st _ = Unit {0}

abbrev pub IsFresh : Store → List Call → Type 0
IsFresh st [] = Unit {0}
IsFresh st (c ∷ cs) = IsFreshCall st c × IsFresh (step st c) cs

step-Evolves : (st : Store) (c : Call) → IsFreshCall st c → Evolves st (step st c)
unfolding step append_event mark_delivered
step-Evolves st (insert job) f = insert_or_get-Evolves st job f
step-Evolves st (move id from to patch expect) f = transition-Evolves st id from to patch expect
step-Evolves st (claim now lease coalesce) f = claim_next_queued-Evolves st now lease coalesce
step-Evolves st (renew worker until) f = renew_lease-Evolves st worker until
step-Evolves st (reap now opts) f = reap_deadlines-Evolves st now opts
step-Evolves st (release ci reason now) f = release_all_compute_waiters-Evolves st ci reason now
step-Evolves st (elect ci reason now) f = elect_one_compute_waiter-Evolves st ci reason now
step-Evolves st (poison id now) f = poison_compute_waiter-Evolves st id now
step-Evolves st (append ev) f = record {
  rows = λ k. Lives-refl k (get k st.jobs);
  distinct = λ d. d;
  resolves = λ key id job e held t. e;
}
step-Evolves st (mark uid ok) f = record {
  rows = λ k. Lives-refl k (get k st.jobs);
  distinct = λ d. d;
  resolves = λ key id job e held t. e;
}

pub after-Evolves : (st : Store) (cs : List Call) → IsFresh st cs → Evolves st (after st cs)
unfolding after
after-Evolves st [] f = Evolves-refl st
after-Evolves st (c ∷ cs) (f, fs) =
    Evolves-trans st (step st c) (after (step st c) cs) (step-Evolves st c f)
      (after-Evolves (step st c) cs fs)

module _ (st : Store) (cs : List Call) (k : String) (job : JobRow) (fresh : IsFresh st cs)
    (held : get k st.jobs ≡ some job) where
  later_row : (b : JobRow) × (get k (after st cs).jobs ≡ some b) × RowSteps job b
  later_row = Lives-some (subst_held ((after-Evolves st cs fresh).rows k))
    where
      subst_held :
          Lives k (get k st.jobs) (get k (after st cs).jobs)
          → Lives k (some job) (get k (after st cs).jobs)
      subst_held l = rw held at l

-- Whatever calls follow, in any order, a row whose status is terminal stays the very same row,
-- if the submissions among them draw run ids that the store does not hold.
pub after-terminal :
    (st : Store) (cs : List Call) (k : String) (job : JobRow)
    → IsFresh st cs
    → get k st.jobs ≡ some job
    → is_terminal job.status ≡ true
    → get k (after st cs).jobs ≡ some job
after-terminal st cs k job fresh held done =
    let (b, e, s) = later_row st cs k job fresh held in e ∙ ap some (RowSteps-terminal done s)

-- Under the same condition a row that the store holds is never lost, what was submitted with it
-- is never rewritten, and its timeline is only ever extended at the end.
pub after-history :
    (st : Store) (cs : List Call) (k : String) (job : JobRow)
    → IsFresh st cs
    → get k st.jobs ≡ some job
    → (b : JobRow) × (get k (after st cs).jobs ≡ some b)
      × SameJob job b
      × Extends job.timeline b.timeline
after-history st cs k job fresh held =
    let (b, e, s) = later_row st cs k job fresh held in
    (b, e, RowSteps-SameJob s, RowSteps-Extends s)

row_of-IsCurrent : (job : NewJob) → IsCurrent (row_of job)
unfolding row_of public_status
row_of-IsCurrent job = refl

-- From an empty store on, the last entry of every row's public timeline is the public view of its
-- status, the internal wait included, if submissions draw run ids that the store does not hold.
pub after-timeline :
    (cs : List Call) (k : String) (job : JobRow)
    → IsFresh new_store cs
    → get k (after new_store cs).jobs ≡ some job
    → last_status (to_status_view job).timeline ≡ some (to_status_view job).status
unfolding to_status_view get
after-timeline cs k job fresh held =
    EveryRow-Evolves (λ _ row. IsCurrent row) row_of-IsCurrent (λ _ a b s c. RowSteps-IsCurrent s c)
      new_store (after new_store cs) (after-Evolves new_store cs fresh) (λ _ row e. absurd (cc)) k
      job held

-- From an empty store on, every row stands under its own run id and under no other, if submissions
-- draw run ids that the store does not hold.
pub after-WellFormed : (cs : List Call) → IsFresh new_store cs → WellFormed (after new_store cs)
unfolding get keys
after-WellFormed cs fresh =
    Evolves-WellFormed new_store (after new_store cs) (after-Evolves new_store cs fresh)
      (record { keyed = λ k job e. absurd (cc); distinct = tt })
