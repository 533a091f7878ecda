-- ===== src/Lib.antt =====
-- A verification library for the backtester: the service that runs strategies over recorded markets.
--
-- The program's parts, from the repository's root, and the files that model them:
--
-- * Jobs in apps/backtester/src/jobs. `job-store.ts` keeps the jobs, `lifecycle.ts` says which moves
--   between statuses are allowed. Workers claim jobs under a lease, the reaper ends or queues again
--   what is overdue. Runs of the same computation coalesce: one leads under a lock
--   (`coalesce/compute-lock.ts`), the others wait until `coalesce/wake.ts` releases them, when the
--   result is in `dedup/result-cache.ts` or the lock has run out. `completion.ts` keeps an outbox of
--   terminal events and posts them to webhooks. Three ledgers record trials, promotion attempts and
--   members of the novelty pool, under keys that Jobs/Keys models. Files: Jobs and the tree below
--   it. `Jobs.Store` is the in-memory store: `insertOrGet` is `insert_or_get`, `transition` is `transition`, `claimNextQueued` is
--   `claim_next_queued`, and `claim_next_interleaved` in Jobs/Store/Race with the calls at its await;
--   `reapDeadlines` is `reap_deadlines` in Jobs/Store/Reap, the lists and the
--   outbox are in Jobs/Store/Queries. Jobs/Store/Evolution says how a store may change, Moves that
--   each operation changes it so, History what any sequence of calls keeps.
-- * Admission models apps/backtester/src/data/availability-admission.ts: the platform is asked twice,
--   before the data are loaded and before anything is computed.
-- * Engine/Overlay models apps/backtester/src/engine/overlay.ts, the composition of overlays.
-- * Engine/Windows models the windows of apps/backtester/src/engine: holdout.ts, window-eval.ts and
--   the split of walk-forward.ts.
-- * Promotion models apps/backtester/src/jobs/promotion/resolve-promotion.ts with the gate on a
--   window of apps/backtester/src/evidence/promotion-gate.ts. It writes the attempt ledger of
--   Jobs/Ledger, under the keys of Jobs/Keys, and takes the held-out window from Engine/Windows.
-- * Caches models packages/sdk/src/internal/lru-cache.ts and the tape cache of
--   apps/backtester/src/data/tape-cache.ts.
-- * Jobs.Submit and Jobs.Fingerprint model apps/backtester/src/jobs/submit.ts and fingerprint.ts over
--   Jobs.Store: `validate` is in Jobs/Submit/Validate, `submitRun` is `submit_run`, with the calls of
--   other clients between the insertion and the move to the queue as an argument.
-- * Actor models apps/backtester/src/engine/actor: risk.ts in Actor/Risk, the commands of
--   engine-state.ts in Actor/EngineState (`validate`, `apply`), timeline.ts in Actor/Timeline
--   (`assertActorTimeline`, `projectActorTimeline`).
-- * Engine/Merge models the merge by key of apps/backtester/src/engine/bar-major-aggregate.ts, with
--   the pointers into the lists kept as the rests of the lists.
-- * Engine/ThreadPool models apps/backtester/src/engine/thread/thread-pool.ts as steps between awaits.
-- * Prelude, OrderedMap and Json are shared: tests, lists, a stable sort, the built-in `Map` as an
--   association list in insertion order, and values that the program only passes on.
--
-- An operation that changes a state takes the state and returns the new one with its answer. Each call
-- of a method is one step, and calls run one after another. Some methods await inside: `claimNextQueued`
-- awaits its transition before it writes the lease and the charge, `reapDeadlines` awaits each
-- transition before it clears a lease, and `publishCompletion` awaits its post. What other calls do at
-- these points is modelled for `claimNextQueued`, in Jobs/Store/Race, and for the submission, between
-- its insertion and its move to the queue; elsewhere it is not. Times are natural numbers of
-- milliseconds. Objects that the code changes in place are changed in the map that holds them. There is fuel in the walk over the bars of a window, as many rounds as
-- there are milliseconds, since each step is at least one; the merge runs one round per element, as
-- its loop does. Money and quantities of the actor are whole multiples of a smallest unit, with the
-- floats that are not finite kept apart.
--
-- Not modelled: the stores on Postgres, whose behaviour is in SQL; the worker loop, the guard on
-- webhook hosts, the engine's bar loop and the actor's frontier runner, which drives the engine
-- package; metrics and statistics in floating-point numbers; network and file access, digests and
-- signatures. Where the modelled code uses those, they are parameters.
pub mod Actor
pub mod Admission
pub mod Caches
pub mod Engine
pub mod Jobs
pub mod Json
pub mod OrderedMap
pub mod Prelude
pub mod Promotion
