-- ===== src/Jobs/Store/Race/Laws.antt =====
-- What a cancellation at the await of a claim leaves.
use backtester.Prelude.{ℕ, [], Option, Bool, ◌≡◌, refl, Option-cases, inl, inr}
use backtester.Jobs.Lifecycle.{run, queued, running, canceled}
use backtester.Jobs.Row.{JobRow}
use backtester.Jobs.Store.{
  Store, Lease, queue, head?, start_patch, claim_job, claim_next_queued, no_patch, apply_patch,
}
use backtester.Jobs.Store.History.{after}
use backtester.Jobs.Store.Race.{claim_next_interleaved}

-- With no call at its await, this is the claim of one step.
claim_next_interleaved-nil :
    (st : Store) (now : ℕ) (lease : Option Lease) (coalesce : Bool)
    → claim_next_interleaved st now lease coalesce [] ≡ claim_next_queued st now lease coalesce
unfolding claim_next_interleaved claim_next_queued claim_job after
claim_next_interleaved-nil st now lease coalesce = elim (Option-cases (head? (queue st))) [
  | inl e ↦ rw (e, claim_next_interleaved, claim_next_queued) refl
  | inr (job, e) ↦ rw (e, claim_next_interleaved, claim_next_queued) refl
]

-- The first queued row after the move to running and the one to canceled.
abbrev canceled_row : ℕ → ℕ → JobRow → JobRow
canceled_row now at job =
    apply_patch (apply_patch job (run queued) (run running) (start_patch now job)) (run running)
      (run canceled) (no_patch at)
