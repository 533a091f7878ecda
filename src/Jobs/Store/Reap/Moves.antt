-- ===== src/Jobs/Store/Reap/Moves.antt =====
-- The reaper moves rows by steps only.
use backtester.Prelude.{
  ℕ, String, List, [], ◌∷◌, none, some, Bool, true, false, refl, if◌then◌else◌, inl, inr,
  Option-cases,
}
use backtester.OrderedMap.{get, keys}
use backtester.Jobs.Lifecycle.{
  InternalJobStatus, run, queued, running, failed, expired, timed_out, waiting_for_compute,
  is_terminal,
}
use backtester.Jobs.Row.{JobRow, JobRowPatch}
use backtester.Jobs.Store.{Store, transition}
use backtester.Jobs.Store.Evolution.{Touches, lease-Touches, Evolves, Evolves-refl, Evolves-trans}
use backtester.Jobs.Store.Moves.{
  Moved, transition-Moved, transition-Evolves, Moved-Evolves, Moved-modify-Evolves,
}
use backtester.Jobs.Store.Reap.{
  Limits, ReapOptions, limits_of, drop_lease, uncharge, after_requeue, reap_uncharged,
  requeue_stale, reap_running, reap_job, reap_key, reap_keys, reap_deadlines,
}

drop_lease-Touches : (a : JobRow) → Touches a (drop_lease a)
unfolding drop_lease
drop_lease-Touches a = lease-Touches a none none a.attempts a.engine_attempt_charged

requeued-Touches : (coalesce : Bool) (a : JobRow) → Touches a (uncharge coalesce (drop_lease a))
unfolding drop_lease uncharge
requeued-Touches true a = lease-Touches a none none a.attempts (some false)
requeued-Touches false a = lease-Touches a none none a.attempts a.engine_attempt_charged

after_requeue-Evolves :
    (st : Store) (id : String) (patch : JobRowPatch) (f : JobRow → JobRow) (r : Store × Bool)
    → Moved st id (run running) (run queued) patch r
    → ((a : JobRow) → Touches a (f a))
    → Evolves st (after_requeue id f r)
unfolding is_terminal
after_requeue-Evolves st id patch f (st', false) m t =
    Moved-Evolves st id (run running) (run queued) patch (st', false) m
after_requeue-Evolves st id patch f (st', true) m t =
    Moved-modify-Evolves st id (run running) (run queued) patch f (st', true) m refl refl t

if-Evolves :
    (st : Store) (b : Bool) (x y : Store × Bool)
    → Evolves st x.0
    → Evolves st y.0
    → Evolves st (if b then x else y).0
if-Evolves st true x y h k = h
if-Evolves st false x y h k = k

module _ (l : Limits) (now : ℕ) (st : Store) (job : JobRow) where
  moves :
      (from to : InternalJobStatus) (patch : JobRowPatch)
      → Evolves st (transition st job.run_id from to patch none).0
  moves from to patch = transition-Evolves st job.run_id from to patch none

  requeues :
      (patch : JobRowPatch) (f : JobRow → JobRow)
      → ((a : JobRow) → Touches a (f a))
      → Evolves st (
          after_requeue job.run_id f
            (transition st job.run_id (run running) (run queued) patch none))
  requeues patch f t =
      after_requeue-Evolves st job.run_id patch f _
        (transition-Moved st job.run_id (run running) (run queued) patch none) t

  reap_uncharged-Evolves : Evolves st (reap_uncharged l now st job).0
  unfolding reap_uncharged
  reap_uncharged-Evolves =
      if-Evolves st _ _ _ (moves (run running) (run failed) _)
        (requeues _ drop_lease drop_lease-Touches)

  requeue_stale-Evolves : Evolves st (requeue_stale l now st job).0
  unfolding requeue_stale
  requeue_stale-Evolves =
      requeues _ (λ row. uncharge l.coalesce (drop_lease row)) (requeued-Touches l.coalesce)

  reap_running-Evolves : Evolves st (reap_running l now st job).0
  unfolding reap_running
  reap_running-Evolves = if-Evolves st _ _ _ reap_uncharged-Evolves (
      if-Evolves st _ _ _ (moves (run running) (run failed) _) (
        if-Evolves st _ _ _ requeue_stale-Evolves
          (if-Evolves st _ _ _ (moves (run running) (run timed_out) _) (Evolves-refl st))))

  reap_job-Evolves : Evolves st (reap_job l now st job).0
  unfolding reap_job
  reap_job-Evolves = if-Evolves st _ _ _ (Evolves-refl st) (
      if-Evolves st _ _ _ (moves job.status (run expired) _) (
        if-Evolves st _ _ _ reap_running-Evolves
          (if-Evolves st _ _ _ (moves waiting_for_compute (run timed_out) _) (Evolves-refl st))))

pub reap_key-Evolves :
    (l : Limits) (now : ℕ) (st : Store) (k : String) → Evolves st (reap_key l now st k).0
reap_key-Evolves l now st k = elim (Option-cases (get k st.jobs)) [
  | inl e ↦ rw (e, reap_key) (Evolves-refl st)
  | inr (job, e) ↦ rw (e, reap_key) (reap_job-Evolves l now st job)
]

pub reap_keys-Evolves :
    (l : Limits) (now : ℕ) (st : Store) (ks : List String) → Evolves st (reap_keys l now st ks).0
unfolding reap_keys
reap_keys-Evolves l now st [] = Evolves-refl st
reap_keys-Evolves l now st (k ∷ ks) =
    let st' = (reap_key l now st k).0 in
    Evolves-trans st st' (reap_keys l now st' ks).0 (reap_key-Evolves l now st k)
      (reap_keys-Evolves l now st' ks)

pub reap_deadlines-Evolves :
    (st : Store) (now : ℕ) (opts : ReapOptions) → Evolves st (reap_deadlines st now opts).0
unfolding reap_deadlines
reap_deadlines-Evolves st now opts = reap_keys-Evolves (limits_of opts) now st (keys st.jobs)
