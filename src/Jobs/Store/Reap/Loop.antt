-- ===== src/Jobs/Store/Reap/Loop.antt =====
-- The reaper's loop over the store: each row is treated once, and by itself.
use backtester.Prelude.{
  ℕ, String, List, [], ◌∷◌, none, some, Bool, true, false, ◌≡◌, refl, sym, ap, ◌∙◌, if◌then◌else◌,
  inl, inr, Option-cases, leb, ◌&&◌, ◌||◌, arith, str_eq, eq_iff, Bool-cases, subst,
}
use backtester.OrderedMap.{get, Avoids, Distinct}
use backtester.OrderedMap.Laws.{get-set, get-modify, Contains}
use backtester.Jobs.Lifecycle.{
  InternalJobStatus, run, queued, running, failed, expired, timed_out, accepted,
  waiting_for_compute, is_terminal, status_eq,
}
use backtester.Jobs.Row.{JobRow, JobRowPatch}
use backtester.Jobs.Store.{Store, transition, apply_patch}
use backtester.Jobs.Store.Evolution.{WellFormed, Evolves-WellFormed}
use backtester.Jobs.Store.Moves.{Moved, lost, won, transition-Moved}
use backtester.Jobs.Store.Reap.Moves.{reap_key-Evolves}
use backtester.Jobs.Store.Reap.{
  Limits, drop_lease, uncharge, after_requeue, reap_uncharged, requeue_stale, reap_running,
  reap_job, reap_key, reap_keys, past, is_uncharged, lease_stale, run_stale,
}
use backtester.Jobs.Store.Reap.Rows.{reap_row, reap_job-Leaves}

-- One round changes the row of its own key only.
pub record Skips (k : String) (st : Store) (r : Store × Bool) : Type 0 where
  pub same : get k r.0.jobs ≡ get k st.jobs

if-Skips :
    (k : String) (st : Store) (b : Bool) (x y : Store × Bool)
    → Skips k st x
    → Skips k st y
    → Skips k st (if b then x else y)
if-Skips k st true x y h h' = h
if-Skips k st false x y h h' = h'

pub Moved-Skips :
    (k : String) (st : Store) (id : String) (from to : InternalJobStatus) (patch : JobRowPatch)
    (r : Store × Bool)
    → str_eq id k ≡ false
    → Moved st id from to patch r
    → Skips k st r
Moved-Skips k st id from to patch _ other lost = record { same = refl }
Moved-Skips k st id from to patch _ other (won job e s edge) = record {
  same = rw (get-set id k (apply_patch job from to patch) st.jobs, other);
}

after_requeue-Skips :
    (k : String) (st : Store) (id : String) (f : JobRow → JobRow) (r : Store × Bool)
    → str_eq id k ≡ false
    → Skips k st r
    → Skips k st (after_requeue id f r, false)
after_requeue-Skips k st id f (st', false) other h = record { same = h.same }
after_requeue-Skips k st id f (st', true) other h = record {
  same = rw (get-modify id k f st'.jobs, other) h.same;
}

module _ (l : Limits) (now : ℕ) (st : Store) (job : JobRow) (k : String)
    (other : str_eq job.run_id k ≡ false) where
  transition-Skips :
      (from to : InternalJobStatus) (patch : JobRowPatch)
      → Skips k st (transition st job.run_id from to patch none)
  transition-Skips from to patch =
      Moved-Skips k st job.run_id from to patch _ other
        (transition-Moved st job.run_id from to patch none)

  requeue-Skips :
      (patch : JobRowPatch) (f : JobRow → JobRow)
      → Skips k st (
        after_requeue job.run_id f (transition st job.run_id (run running) (run queued) patch none),
        false,
      )
  requeue-Skips patch f =
      after_requeue-Skips k st job.run_id f _ other
        (transition-Skips (run running) (run queued) patch)

  stays : Skips k st (st, false)
  stays = record { same = refl }

  reap_running-Skips : Skips k st (reap_running l now st job)
  unfolding reap_running reap_uncharged requeue_stale
  reap_running-Skips =
      if-Skips k st
        (l.coalesce && (lease_stale l now job && is_uncharged job.engine_attempt_charged)) _ _
        (if-Skips k st (leb l.wait_cap job.compute_wait_attempts) _ _
          (transition-Skips (run running) (run failed) _) (requeue-Skips _ drop_lease))
        (if-Skips k st (lease_stale l now job && leb l.max_attempts job.attempts) _ _
          (transition-Skips (run running) (run failed) _)
          (if-Skips k st (lease_stale l now job) _ _
            (requeue-Skips _ (λ row. uncharge l.coalesce (drop_lease row)))
            (if-Skips k st (run_stale l now job) _ _
              (transition-Skips (run running) (run timed_out) _) stays)))

  reap_job-Skips : Skips k st (reap_job l now st job)
  unfolding reap_job
  reap_job-Skips = if-Skips k st (is_terminal job.status) _ _ stays (
      if-Skips k st
        ((status_eq job.status (run queued) || status_eq job.status (run accepted))
          && past now job.queue_deadline_ms)
        _ _ (transition-Skips job.status (run expired) _)
        (if-Skips k st (status_eq job.status (run running)) _ _ reap_running-Skips (
          if-Skips k st (status_eq job.status waiting_for_compute && run_stale l now job) _ _
            (transition-Skips waiting_for_compute (run timed_out) _) stays)))

module _ (l : Limits) (now : ℕ) where
  reap_key-Skips :
      (st : Store) (j k : String)
      → WellFormed st
      → str_eq j k ≡ false
      → get k (reap_key l now st j).0.jobs ≡ get k st.jobs
  reap_key-Skips st j k w other = elim (Option-cases (get j st.jobs)) [
    | inl e ↦ rw (e, reap_key)
    | inr (job, e) ↦
        rw (e, reap_key)
          (reap_job-Skips l now st job k (ap (λ i. str_eq i k) (w.keyed j job e) ∙ other)).same
  ]

  reap_key_held :
      (st : Store) (k : String) (job : JobRow)
      → WellFormed st
      → get k st.jobs ≡ some job
      → get k (reap_key l now st k).0.jobs ≡ some (reap_row l now job)
  reap_key_held st k job w e =
      let i : job.run_id ≡ k = w.keyed k job e in
      rw (e, reap_key)
        (subst (λ x. get x (reap_job l now st job).0.jobs ≡ some (reap_row l now job)) i
          (reap_job-Leaves l now st job (ap (λ x. get x st.jobs) i ∙ e)).found)

  reap_key-WellFormed :
      (st : Store) (k : String) → WellFormed st → WellFormed (reap_key l now st k).0
  reap_key-WellFormed st k w = Evolves-WellFormed st _ (reap_key-Evolves l now st k) w

  reap_keys_avoided :
      (st : Store) (ks : List String) (k : String)
      → WellFormed st
      → Avoids k ks
      → get k (reap_keys l now st ks).0.jobs ≡ get k st.jobs
  unfolding reap_keys
  reap_keys_avoided st [] k w a = refl
  reap_keys_avoided st (j ∷ js) k w (n, a) =
      let st' = (reap_key l now st j).0 in
      reap_keys_avoided st' js k (reap_key-WellFormed st j w) a
      ∙ reap_key-Skips st j k w (ground (arith, eq_iff j k, eq_iff k j))

  reap_keys_first :
      (st : Store) (j : String) (js : List String) (k : String) (job : JobRow)
      → WellFormed st
      → Avoids j js
      → j ≡ k
      → get k st.jobs ≡ some job
      → get k (reap_keys l now st (j ∷ js)).0.jobs ≡ some (reap_row l now job)
  unfolding reap_keys
  reap_keys_first st j js k job w a i e =
      let st' = (reap_key l now st j).0 in
      reap_keys_avoided st' js k (reap_key-WellFormed st j w) (subst (λ x. Avoids x js) i a)
      ∙ subst (λ x. get k (reap_key l now st x).0.jobs ≡ some (reap_row l now job)) (sym i)
          (reap_key_held st k job w e)

  pub reap_keys_held :
      (st : Store) (ks : List String) (k : String) (job : JobRow)
      → WellFormed st
      → Distinct ks
      → Contains k ks
      → get k st.jobs ≡ some job
      → get k (reap_keys l now st ks).0.jobs ≡ some (reap_row l now job)
  unfolding reap_keys
  reap_keys_held st [] k job w d c e = elim c [ ]
  reap_keys_held st (j ∷ js) k job w (a, d) c e = elim (Bool-cases (str_eq j k)) [
    | inl hit ↦ reap_keys_first st j js k job w a ((eq_iff j k).0 hit) e
    | inr miss ↦
        let more : Contains k js = ground arith in
        reap_keys_held (reap_key l now st j).0 js k job (reap_key-WellFormed st j w) d more
          (reap_key-Skips st j k w miss ∙ e)
  ]
