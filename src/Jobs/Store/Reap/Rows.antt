-- ===== src/Jobs/Store/Reap/Rows.antt =====
-- What a pass of the reaper makes of one row, and that a round writes just that.
use backtester.Prelude.{
  ℕ, ◌+◌, String, none, some, Bool, true, false, ◌≡◌, refl, if◌then◌else◌, leb, ◌&&◌, ◌||◌, arith,
  eq_refl,
}
use backtester.OrderedMap.{get, set}
use backtester.OrderedMap.Laws.{get-set, get-modify}
use backtester.Jobs.Lifecycle.{
  InternalJobStatus, run, queued, running, failed, expired, timed_out, accepted,
  waiting_for_compute, is_terminal, status_eq, can_transition,
}
use backtester.Jobs.Lifecycle.Graph.{status_eq_refl}
use backtester.Jobs.Row.{JobRow, JobRowPatch}
use backtester.Jobs.Store.{Store, transition, apply_patch, no_patch, failure}
use backtester.Jobs.Store.Reap.{
  Limits, drop_lease, uncharge, after_requeue, reap_uncharged, requeue_stale, reap_running,
  reap_job, past, is_uncharged, lease_stale, run_stale,
}

-- What a pass of the reaper makes of one row.
module _ (l : Limits) (now : ℕ) (job : JobRow) where
  abbrev rewait : JobRow
  rewait = drop_lease (
      apply_patch job (run running) (run queued) (record (no_patch now) {
        queued_at_ms = some now;
        compute_wait_attempts = some (job.compute_wait_attempts + 1);
      }))

  abbrev requeued : JobRow
  requeued = uncharge l.coalesce (
      drop_lease (
        apply_patch job (run running) (run queued)
          (record (no_patch now) { queued_at_ms = some now })))

  abbrev ended : InternalJobStatus → InternalJobStatus → String → JobRow
  ended from to code = apply_patch job from to (failure now code)

  reap_running_row : JobRow
  reap_running_row =
      if l.coalesce && (lease_stale l now job && is_uncharged job.engine_attempt_charged)
      then (if leb l.wait_cap job.compute_wait_attempts
          then ended (run running) (run failed) "compute_wait_exhausted"
          else rewait)
      else if lease_stale l now job && leb l.max_attempts job.attempts
      then ended (run running) (run failed) "lease_expired"
      else if lease_stale l now job
      then requeued
      else if run_stale l now job
      then ended (run running) (run timed_out) "run_deadline_exceeded"
      else job

  unfoldable pub reap_row : JobRow
  unfolding reap_running_row
  reap_row =
      if is_terminal job.status
      then job
      else if (status_eq job.status (run queued) || status_eq job.status (run accepted))
          && past now job.queue_deadline_ms
      then ended job.status (run expired) "queue_deadline_exceeded"
      else if status_eq job.status (run running)
      then reap_running_row
      else if status_eq job.status waiting_for_compute && run_stale l now job
      then ended waiting_for_compute (run timed_out) "run_deadline_exceeded"
      else job

pub transition_held :
    (st : Store) (job : JobRow) (from to : InternalJobStatus) (patch : JobRowPatch)
    → get job.run_id st.jobs ≡ some job
    → status_eq job.status from ≡ true
    → can_transition from to ≡ true
    → transition st job.run_id from to patch none
      ≡ (record st { jobs = set job.run_id (apply_patch job from to patch) st.jobs }, true)
unfolding transition
transition_held st job from to patch held same edge = rw (held, transition, same, edge)

-- The row of `k` after a call.
pub record Leaves (k : String) (r : Store × Bool) (row : JobRow) : Type 0 where
  pub found : get k r.0.jobs ≡ some row

module _ (l : Limits) (now : ℕ) (st : Store) (job : JobRow)
    (held : get job.run_id st.jobs ≡ some job) where
  if-Leaves :
      (b : Bool) (x y : Store × Bool) (u v : JobRow)
      → (b ≡ true → Leaves job.run_id x u)
      → (b ≡ false → Leaves job.run_id y v)
      → Leaves job.run_id (if b then x else y) (if b then u else v)
  if-Leaves true x y u v h k = h refl
  if-Leaves false x y u v h k = k refl

  transition-Leaves :
      (from to : InternalJobStatus) (patch : JobRowPatch)
      → status_eq job.status from ≡ true
      → can_transition from to ≡ true
      → Leaves job.run_id
          (transition st job.run_id from to patch none)
          (apply_patch job from to patch)
  transition-Leaves from to patch same edge = record {
    found = rw (
      transition_held st job from to patch held same edge,
      get-set job.run_id job.run_id (apply_patch job from to patch) st.jobs,
      eq_refl job.run_id,
    );
  }

  requeue-Leaves :
      (patch : JobRowPatch) (f : JobRow → JobRow)
      → status_eq job.status (run running) ≡ true
      → Leaves job.run_id
          (
            after_requeue job.run_id f
                (transition st job.run_id (run running) (run queued) patch none),
            false,
          )
          (f (apply_patch job (run running) (run queued) patch))
  unfolding can_transition
  requeue-Leaves patch f same =
      let row = apply_patch job (run running) (run queued) patch in
      record {
        found = rw (
          transition_held st job (run running) (run queued) patch held same refl,
          get-modify job.run_id job.run_id f (set job.run_id row st.jobs),
          eq_refl job.run_id,
          get-set job.run_id job.run_id row st.jobs,
          eq_refl job.run_id,
        );
      }

  kept : Leaves job.run_id (st, false) job
  kept = record { found = held }

  reap_running-Leaves :
      status_eq job.status (run running) ≡ true
      → Leaves job.run_id (reap_running l now st job) (reap_running_row l now job)
  unfolding reap_running reap_running_row can_transition reap_uncharged requeue_stale
  reap_running-Leaves same =
      if-Leaves (l.coalesce && (lease_stale l now job && is_uncharged job.engine_attempt_charged)) _
        _ _ _
        (λ _.
          if-Leaves (leb l.wait_cap job.compute_wait_attempts) _ _ _ _
            (λ _. transition-Leaves (run running) (run failed) _ same refl)
            (λ _. requeue-Leaves _ drop_lease same))
        (λ _.
          if-Leaves (lease_stale l now job && leb l.max_attempts job.attempts) _ _ _ _
            (λ _. transition-Leaves (run running) (run failed) _ same refl)
            (λ _.
              if-Leaves (lease_stale l now job) _ _ _ _
                (λ _. requeue-Leaves _ (λ row. uncharge l.coalesce (drop_lease row)) same)
                (λ _.
                  if-Leaves (run_stale l now job) _ _ _ _
                    (λ _. transition-Leaves (run running) (run timed_out) _ same refl)
                    (λ _. kept))))

  expire-Leaves :
      (status_eq job.status (run queued) || status_eq job.status (run accepted))
          && past now job.queue_deadline_ms
        ≡ true
      → Leaves job.run_id
          (transition st job.run_id job.status
            (run expired)
            (failure now "queue_deadline_exceeded")
            none)
          (ended l now job job.status (run expired) "queue_deadline_exceeded")
  unfolding can_transition
  expire-Leaves h =
      transition-Leaves job.status (run expired) _ (status_eq_refl job.status) (ground arith)

  time_out-Leaves :
      status_eq job.status waiting_for_compute && run_stale l now job ≡ true
      → Leaves job.run_id
          (transition st job.run_id waiting_for_compute
            (run timed_out)
            (failure now "run_deadline_exceeded")
            none)
          (ended l now job waiting_for_compute (run timed_out) "run_deadline_exceeded")
  unfolding can_transition
  time_out-Leaves h = transition-Leaves waiting_for_compute (run timed_out) _ (ground arith) refl

  pub reap_job-Leaves : Leaves job.run_id (reap_job l now st job) (reap_row l now job)
  unfolding reap_job reap_row can_transition
  reap_job-Leaves =
      if-Leaves _ _ _ _ _ (λ _. kept)
        (λ _. if-Leaves _ _ _ _ _ expire-Leaves (λ _.
          if-Leaves _ _ _ _ _ reap_running-Leaves
            (λ _. if-Leaves _ _ _ _ _ time_out-Leaves (λ _. kept))))
