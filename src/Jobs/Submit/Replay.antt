-- ===== src/Jobs/Submit/Replay.antt =====
-- A request submitted again under its resume token gets the job that it made.
use backtester.Prelude.{
  String, Option, none, some, Bool, true, false, not, ◌&&◌, ◌≡◌, refl, ap, sym, subst, ◌∙◌, truthy,
  opt_str_eq, get_or, List, [], ◌∷◌, eq_refl,
}
use backtester.Jobs.Lifecycle.{run, accepted, queued}
use backtester.Jobs.Row.{JobRow, job_accepted, job_queued}
use backtester.Jobs.Fingerprint.{normalize}
use backtester.Jobs.Store.{Store, insert_key, row_of, transition, no_patch}
use backtester.Jobs.Store.Queries.{append_event, to_handle, RunJobHandle}
use backtester.Jobs.Store.History.{Call, append, move, after, step, IsFresh, after-Evolves}
use backtester.Jobs.Store.Evolution.{SameJob, Evolves, Evolves-trans}
use backtester.Jobs.Store.Replay.{
  Stands, insert_or_get-Stands, Stands-Evolves, find_by_resume_token-Stands, inserted,
}
use backtester.Jobs.Submit.Validate.{Body, Bundle, validate}
use backtester.Jobs.Submit.{
  SubmitDeps, SubmitOutcome, submitted, BundleStore, Draws, submit_run, after_insert, enqueue,
  after_queueing, new_job, existing_of, request_fingerprint, run_id_of, event_row, hash_of_bundle,
  stored_request_fingerprint,
}
use backtester.Jobs.Submit.Creation.{Created, submit_run-Created}

-- Queueing is a move, and an event if it is won.
record Settles (st : Store) (r : Store × SubmitOutcome) : Type 0 where
  calls : List Call
  fresh : IsFresh st calls
  reached : r.0 ≡ after st calls

module _ (deps : SubmitDeps) (b : Body) (draws : Draws) where
  enqueue-Settles :
      (id : String) (job : JobRow) (st : Store) → Settles st (enqueue deps draws id job st)
  unfolding after step
  enqueue-Settles id job st =
      settle
        (transition st id (run accepted) (run queued)
          (record (no_patch draws.queued_at) { queued_at_ms = some draws.queued_at }) none)
        refl
    where
      settle :
          (r : Store × Bool)
          → r
            ≡ transition st id
                (run accepted)
                (run queued)
                (record (no_patch draws.queued_at) { queued_at_ms = some draws.queued_at })
                none
          → Settles st (after_queueing deps draws id job r)
      settle (st', true) eq = record {
        calls =
            move id (run accepted) (run queued)
              (record (no_patch draws.queued_at) { queued_at_ms = some draws.queued_at }) none
            ∷ append (event_row draws.queued_uid id job_queued draws.queued_at)
            ∷ [];
        fresh = (tt, (tt, tt));
        reached =
            ap (λ r. append_event r.0 (event_row draws.queued_uid id job_queued draws.queued_at))
              eq;
      }
      settle (st', false) eq = record {
        calls =
            move id (run accepted) (run queued)
              (record (no_patch draws.queued_at) { queued_at_ms = some draws.queued_at }) none
            ∷ [];
        fresh = (tt, tt);
        reached = ap (λ r. r.0) eq;
      }

  -- The stored row digests to the fingerprint of the request.
  stored-request :
      (hash : Option String) (job : JobRow)
      → hash ≡ hash_of_bundle deps b.module_bundle b.bundle_ref
      → SameJob (row_of (new_job deps b draws hash)) job
      → stored_request_fingerprint deps job.request job.bundle_hash ≡ request_fingerprint deps b
  unfolding stored_request_fingerprint request_fingerprint normalize row_of
  stored-request hash job same kept =
      ap (λ r. stored_request_fingerprint deps r job.bundle_hash) kept.request
      ∙ ap (λ v. stored_request_fingerprint deps (row_of (new_job deps b draws hash)).request v)
          (kept.bundle_hash ∙ same)

  -- A job of the token with the same request is answered.
  replay_answers :
      (st : Store) (job : JobRow) (token : String) (again : Draws)
      → (opt_str_eq b.engine "overlay" && not deps.enable_overlay_engine) ≡ false
      → validate deps.guards b ≡ none
      → existing_of deps st b.resume_token ≡ some job
      → stored_request_fingerprint deps job.request job.bundle_hash ≡ request_fingerprint deps b
      → submit_run deps b again [] st ≡ (st, submitted (to_handle job true) false)
  unfolding submit_run
  replay_answers st job token again gate valid found same =
      simp (gate, valid, found, same, eq_refl (request_fingerprint deps b)) refl

  module _ (st : Store) (token : String)
      (put_hashes : (s : BundleStore) (x : Bundle)
        → deps.bundle_store ≡ some s
        → s.put x ≡ deps.bundle_hash x)
      (no_empty : opt_str_eq b.bundle_ref "" ≡ false) (named : truthy (run_id_of draws b) ≡ true)
      (tokened : b.resume_token ≡ some token) where
    -- What a created job's store becomes.
    Created-Settles :
        (c : Created deps b draws st (submit_run deps b draws [] st))
        → Settles (inserted st (new_job deps b draws c.hash)) (submit_run deps b draws [] st)
    unfolding after step
    Created-Settles c =
        let job = new_job deps b draws c.hash in
        let ev = event_row draws.accepted_uid (run_id_of draws b) job_accepted draws.now in
        let settles =
          enqueue-Settles (run_id_of draws b) (row_of job) (append_event (inserted st job) ev) in
        record {
          calls = append ev ∷ settles.calls;
          fresh = (tt, settles.fresh);
          reached =
              ap (λ r. r.0) (sym c.result ∙ ap (after_insert deps b draws []) c.made)
              ∙ settles.reached;
        }

    -- The row of a created job, after any later calls, is found by its token.
    Created-Stands :
        (c : Created deps b draws st (submit_run deps b draws [] st)) (cs : List Call)
        → IsFresh (submit_run deps b draws [] st).0 cs
        → (job : JobRow) × Stands token (after (submit_run deps b draws [] st).0 cs) job
          × SameJob (row_of (new_job deps b draws c.hash)) job
    Created-Stands c cs fresh =
        let nj = new_job deps b draws c.hash in
        let st1 = (submit_run deps b draws [] st).0 in
        let settles = Created-Settles c in
        let first : Evolves (inserted st nj) st1 =
          subst (λ s. Evolves (inserted st nj) s) (sym settles.reached)
            (after-Evolves (inserted st nj) settles.calls settles.fresh) in
        let stands : Stands (insert_key nj) (inserted st nj) (row_of nj) =
          subst (λ r. Stands (insert_key nj) r.0 r.1) c.made (insert_or_get-Stands st nj named) in
        Stands-Evolves token (inserted st nj) (after st1 cs) (row_of nj)
          (Evolves-trans (inserted st nj) st1 (after st1 cs) first (after-Evolves st1 cs fresh))
          (subst (λ k. Stands k (inserted st nj) (row_of nj))
            (ap (λ t. get_or t (run_id_of draws b)) tokened) stands)

    -- If a request with a resume token created a job, with a run id that is not empty, no empty
    -- text for a bundle reference and a bundle store that returns the hash of what it stores, then
    -- after any later calls that draw fresh run ids the same request under the same token changes
    -- nothing and returns the run of that job, as a replay.
    pub submit_run_again :
        (h : RunJobHandle) (cs : List Call) (again : Draws)
        → (submit_run deps b draws [] st).1 ≡ submitted h true
        → IsFresh (submit_run deps b draws [] st).0 cs
        → let last = after (submit_run deps b draws [] st).0 cs in
          (g : RunJobHandle) × (submit_run deps b again [] last ≡ (last, submitted g false))
          × (g.run_id ≡ run_id_of draws b)
          × (g.idempotent_replay ≡ true)
    unfolding row_of to_handle
    submit_run_again h cs again made fresh =
        let came = submit_run-Created deps b draws st put_hashes no_empty h made in
        let last = after (submit_run deps b draws [] st).0 cs in
        let there = Created-Stands came.2 cs fresh in
        let job = there.0 in
        let kept = there.2 in
        (
          to_handle job true,
          replay_answers last job token again came.0 came.1
              (ap (existing_of deps last) tokened
                ∙ find_by_resume_token-Stands token last job there.1 (kept.resume_token ∙ tokened))
              (stored-request came.2.hash job came.2.digested kept),
          kept.run_id,
          refl,
        )
