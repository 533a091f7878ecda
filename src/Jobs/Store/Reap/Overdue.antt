-- ===== src/Jobs/Store/Reap/Overdue.antt =====
-- What a pass of the reaper leaves behind.
use backtester.Prelude.{
  ℕ, ◌≤◌, ◌<◌, String, Option, none, some, Bool, true, false, ◌≡◌, ap, ◌∙◌, sym, arith, ◌&&◌, ◌||◌,
}
use backtester.OrderedMap.{get, keys}
use backtester.OrderedMap.Laws.{Contains-keys}
use backtester.Jobs.Lifecycle.{
  run, queued, running, accepted, expired, waiting_for_compute, status_eq, is_terminal,
}
use backtester.Jobs.Row.{JobRow}
use backtester.Jobs.Store.{Store, apply_patch}
use backtester.Jobs.Store.Evolution.{WellFormed, Evolves-WellFormed}
use backtester.Jobs.Store.Reap.Moves.{reap_deadlines-Evolves}
use backtester.Jobs.Lifecycle.Graph.{status_eq→eq}
use backtester.Jobs.Store.Reap.{
  Limits, ReapOptions, limits_of, reap_deadlines, past, drop_lease, uncharge,
}
use backtester.Jobs.Store.Reap.Rows.{reap_row}
use backtester.Jobs.Store.Reap.Loop.{reap_keys_held}

pub get-reap_deadlines :
    (st : Store) (now : ℕ) (opts : ReapOptions) (k : String) (job : JobRow)
    → WellFormed st
    → get k st.jobs ≡ some job
    → get k (reap_deadlines st now opts).0.jobs ≡ some (reap_row (limits_of opts) now job)
unfolding reap_deadlines
get-reap_deadlines st now opts k job w e =
    reap_keys_held (limits_of opts) now st (keys st.jobs) k job w w.distinct
      (Contains-keys k job st.jobs e) e

-- A row whose queue deadline, lease or run deadline has passed, in a status that it bounds.
abbrev pub is_overdue : ℕ → JobRow → Bool
is_overdue now job =
    (status_eq job.status (run queued) || status_eq job.status (run accepted))
      && past now job.queue_deadline_ms
    || status_eq job.status (run running)
      && (past now job.lease_expires_at || past now job.run_deadline_ms)
    || status_eq job.status waiting_for_compute && past now job.run_deadline_ms

reap_row-is_overdue :
    (l : Limits) (now : ℕ) (job : JobRow)
    → is_overdue now (reap_row l now job) ≡ true
    → (status_eq job.status (run running) ≡ true)
      × (past now job.lease_expires_at ≡ true)
      × ((reap_row l now job).status ≡ run queued)
unfolding reap_row is_terminal apply_patch drop_lease uncharge
reap_row-is_overdue l now job h = ground arith

-- After a pass of the reaper over a well-formed store, whatever its options, a row that it held
-- before is overdue only if it was running under a lease that had run out, and now is queued again.
pub reap_deadlines-is_overdue :
    (st : Store) (now : ℕ) (opts : ReapOptions) (k : String) (job job' : JobRow)
    → WellFormed st
    → get k st.jobs ≡ some job
    → get k (reap_deadlines st now opts).0.jobs ≡ some job'
    → is_overdue now job' ≡ true
    → (job.status ≡ run running)
      × (past now job.lease_expires_at ≡ true)
      × (job'.status ≡ run queued)
reap_deadlines-is_overdue st now opts k job job' w e e' late =
    let row = reap_row (limits_of opts) now job in
    let same : row ≡ job' = cc (get-reap_deadlines st now opts k job w e) in
    let (running_before, stale, queued_now) =
      reap_row-is_overdue (limits_of opts) now job
        (ap (λ (r : JobRow). is_overdue now r) same ∙ late) in
    (
      status_eq→eq job.status (run running) running_before,
      stale,
      ap (λ (r : JobRow). r.status) (sym same) ∙ queued_now,
    )

requeued_row :
    (l : Limits) (now : ℕ) (job : JobRow)
    → l.coalesce ≡ false
    → job.status ≡ run running
    → past now job.lease_expires_at ≡ true
    → job.attempts < l.max_attempts
    → ((reap_row l now job).status ≡ run queued)
      × ((reap_row l now job).queue_deadline_ms ≡ job.queue_deadline_ms)
      × ((reap_row l now job).leased_by ≡ none)
      × ((reap_row l now job).attempts ≡ job.attempts)
unfolding reap_row is_terminal apply_patch drop_lease uncharge
requeued_row l now job c s stale few = ground arith

expired_row :
    (l : Limits) (now : ℕ) (job : JobRow)
    → job.status ≡ run queued
    → past now job.queue_deadline_ms ≡ true
    → ((reap_row l now job).status ≡ run expired)
      × ((reap_row l now job).terminal_code ≡ some "queue_deadline_exceeded")
unfolding reap_row is_terminal apply_patch
expired_row l now job s late = ground arith

past_mono : (now later : ℕ) (d : Option ℕ) → now ≤ later → past now d ≡ true → past later d ≡ true
past_mono now later none h p = p
past_mono now later (some d) h p = ground arith

-- In a well-formed store and without coalescing, a running job whose lease has run out, which has
-- attempts left and whose queue deadline has passed is queued by one pass of the reaper, and a pass
-- at that time or later, with no other call in between, expires it.
pub reap_twice_expires :
    (st : Store) (now later : ℕ) (opts : ReapOptions) (k : String) (job : JobRow)
    → WellFormed st
    → get k st.jobs ≡ some job
    → (limits_of opts).coalesce ≡ false
    → job.status ≡ run running
    → past now job.lease_expires_at ≡ true
    → job.attempts < (limits_of opts).max_attempts
    → past now job.queue_deadline_ms ≡ true
    → now ≤ later
    → (job1 job' : JobRow) × (get k (reap_deadlines st now opts).0.jobs ≡ some job1)
      × (job1.status ≡ run queued)
      × (get k (reap_deadlines (reap_deadlines st now opts).0 later opts).0.jobs ≡ some job')
      × (job'.status ≡ run expired)
      × (job'.terminal_code ≡ some "queue_deadline_exceeded")
reap_twice_expires st now later opts k job w e c s stale few late after =
    let l = limits_of opts in
    let row = reap_row l now job in
    let (q, d, _, _) = requeued_row l now job c s stale few in
    let (x, code) =
      expired_row l later row q (ap (past later) d ∙ past_mono now later _ after late) in
    let st' = (reap_deadlines st now opts).0 in
    let w' = Evolves-WellFormed st st' (reap_deadlines-Evolves st now opts) w in
    (
      row,
      reap_row l later row,
      get-reap_deadlines st now opts k job w e,
      q,
      get-reap_deadlines st' later opts k row w' (get-reap_deadlines st now opts k job w e),
      x,
      code,
    )
