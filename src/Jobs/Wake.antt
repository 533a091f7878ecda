-- ===== src/Jobs/Wake.antt =====
-- jobs/coalesce/wake.ts: the wake step for followers of a computation in flight. The result cache
-- and the locks are only read; the time is that of the clock at the start.
pub mod Laws
use backtester.Prelude.{
  ℕ, ◌+◌, String, List, [], ◌∷◌, ◌++◌, Option, none, some, Bool, true, false, ◌||◌, ltb, leb,
  if◌then◌else◌, truthy, filter, get_or, length,
}
use backtester.OrderedMap.{OrderedMap, get, set}
use backtester.Jobs.Lifecycle.{failed, timed_out, canceled, run, status_eq}
use backtester.Jobs.Row.{JobRow, ComputeWakeReason, cache_ready, lock_expired, leader_failed}
use backtester.Jobs.Store.{
  Store, list_compute_waiters, poison_compute_waiter, release_all_compute_waiters,
  elect_one_compute_waiter,
}
use backtester.Jobs.ResultCache.{Cache, lookup}
use backtester.Jobs.ComputeLock.{ComputeLock, Locks, is_alive}

pub record WakeDeps : Type 0 where
  pub cache : Cache
  pub locks : Locks
  pub now : ℕ
  pub compute_wait_max_attempts : ℕ

-- `byCi`: the waiters by compute identity; one without is left out.
abbrev add_waiter : Option String → JobRow → OrderedMap (List JobRow) → OrderedMap (List JobRow)
add_waiter none w groups = groups
add_waiter (some ci) w groups =
    if truthy ci then set ci (get_or (get ci groups) [] ++ w ∷ []) groups else groups

abbrev group_waiters : List JobRow → OrderedMap (List JobRow) → OrderedMap (List JobRow)
group_waiters [] groups = groups
group_waiters (w ∷ ws) groups = group_waiters ws (add_waiter w.compute_identity w groups)

abbrev as_list : Option JobRow → List JobRow
as_list none = []
as_list (some row) = row ∷ []

abbrev pub is_exhausted : ℕ → JobRow → Bool
is_exhausted cap w = leb cap w.compute_wait_attempts

-- The loop that poisons the exhausted waiters of a group, and collects the rows that it won.
unfoldable pub poison_group : Store → ℕ → ℕ → List JobRow → Store × List JobRow
poison_group st cap now [] = (st, [])
poison_group st cap now (w ∷ ws) =
    if is_exhausted cap w
    then (let (st', row) = poison_compute_waiter st w.run_id now in
        let (st'', rows) = poison_group st' cap now ws in (st'', as_list row ++ rows))
    else poison_group st cap now ws

abbrev pub has_failed : Option JobRow → Bool
has_failed none = false
has_failed (some j) =
    status_eq j.status (run failed)
    || status_eq j.status (run timed_out)
    || status_eq j.status (run canceled)

abbrev leader_of : Store → Option ComputeLock → Option JobRow
leader_of st none = none
leader_of st (some lock) = get lock.leader_run_id st.jobs

abbrev pub wake_reason : Store → Option ComputeLock → ComputeWakeReason
wake_reason st lock = if has_failed (leader_of st lock) then leader_failed else lock_expired

abbrev counted : Store × Option JobRow → Store × ℕ
counted (st, none) = (st, 0)
counted (st, some row) = (st, 1)

abbrev elect_leader : WakeDeps → Store → String → Store × ℕ
elect_leader d st ci =
    counted (elect_one_compute_waiter st ci (wake_reason st (get ci d.locks)) d.now)

-- What happens to the live waiters of a group; the number counts those that are released.
unfoldable pub wake_live : WakeDeps → Store → String → Store × ℕ
wake_live d st ci = elim (lookup d.cache ci) [
  | some entry ↦ release_all_compute_waiters st ci cache_ready d.now
  | none ↦ if is_alive d.now (get ci d.locks) then (st, 0) else elect_leader d st ci
]

abbrev pub live_waiters : ℕ → List JobRow → List JobRow
live_waiters cap = filter (λ w. ltb w.compute_wait_attempts cap)

unfoldable pub wake_group : WakeDeps → Store → String → List JobRow → Store × ℕ × List JobRow
unfolding wake_live poison_group
wake_group d st ci group =
    let (st', rows) = poison_group st d.compute_wait_max_attempts d.now group in
    elim (live_waiters d.compute_wait_max_attempts group) [
      | [] ↦ (st', 0, rows)
      | _ ∷ _ ↦ let (st'', n) = wake_live d st' ci in (st'', n, rows)
    ]

unfoldable pub wake_groups : WakeDeps → Store → OrderedMap (List JobRow) → Store × ℕ × List JobRow
unfolding wake_group
wake_groups d st [] = (st, 0, [])
wake_groups d st ((ci, group) ∷ groups) =
    let (st', n, rows) = wake_group d st ci group in
    let (st'', m, rows') = wake_groups d st' groups in (st'', n + m, rows ++ rows')

-- Returns the released count and the poisoned rows; the poisoned count is their number.
unfoldable pub wake_compute_waiters : WakeDeps → Store → Store × ℕ × List JobRow
unfolding wake_groups
wake_compute_waiters d st = wake_groups d st (group_waiters (list_compute_waiters st) [])
