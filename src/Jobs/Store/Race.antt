-- ===== src/Jobs/Store/Race.antt =====
-- jobs/job-store.ts: `claimNextQueued` with the calls that land at its await, after the move to
-- running and before the lease and the charge are written. The row that it writes to is the object
-- that the map holds then.
pub mod Laws
pub mod Tests
use backtester.Prelude.{ℕ, List, Option, none, some, Bool, true, false}
use backtester.Jobs.Lifecycle.{run, queued, running}
use backtester.Jobs.Row.{JobRow}
use backtester.Jobs.Store.{Store, Lease, queue, head?, transition, start_patch, settle_claim}
use backtester.Jobs.Store.History.{Call, after}

-- `meanwhile`: the calls at the await; they run whether the move was won or not.
abbrev pub interleaved : List Call → Store × Bool → Store × Bool
interleaved meanwhile (st, moved) = (after st meanwhile, moved)

unfoldable pub claim_next_interleaved :
    Store → ℕ → Option Lease → Bool → List Call → Store × Option JobRow
unfolding after
claim_next_interleaved st now lease coalesce meanwhile = elim (head? (queue st)) [
  | none ↦ (st, none)
  | some next ↦ settle_claim now lease coalesce next.run_id (
      interleaved meanwhile
        (transition st next.run_id (run queued) (run running) (start_patch now next) none))
]
