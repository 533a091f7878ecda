-- ===== src/Jobs/Store/Replay.antt =====
-- A submission is idempotent on its resume token.
use backtester.Prelude.{
  String, List, Option, none, some, true, false, ◌≡◌, refl, subst, inl, inr, Option-cases, truthy,
  eq_refl, ◌⊎◌, Bool-cases,
}
use backtester.OrderedMap.{get, set}
use backtester.OrderedMap.Laws.{get-set}
use backtester.Jobs.Row.{JobRow, NewJob}
use backtester.Jobs.Store.{
  Store, insert_or_get, insert_key, existing_run, row_of, find_by_resume_token,
}
use backtester.Jobs.Store.Evolution.{SameJob, Evolves, Lives, Lives-some, RowSteps-SameJob}
use backtester.Jobs.Store.History.{Call, after, IsFresh, after-Evolves}

-- A key that stands for a row.
pub record Stands (key : String) (st : Store) (job : JobRow) : Type 0 where
  pub id : String
  pub keyed : get key st.by_key ≡ some id
  pub held : get id st.jobs ≡ some job
  pub named : truthy id ≡ true

existing_run-Stands :
    (key : String) (st : Store) (job : JobRow) (o : Option String)
    → get key st.by_key ≡ o
    → existing_run o st.jobs ≡ some job
    → Stands key st job
existing_run-Stands key st job none e h = absurd (cc)
existing_run-Stands key st job (some id) e h = elim (Bool-cases (truthy id)) [
  | inl t ↦ record { id = id; keyed = e; held = rw (t, existing_run) at h; named = t }
  | inr f ↦ absurd (cc (rw (f, existing_run) at h))
]

Stands-existing_run :
    (key : String) (st : Store) (job : JobRow)
    → Stands key st job
    → existing_run (get key st.by_key) st.jobs ≡ some job
Stands-existing_run key st job s = rw (s.keyed, s.named) s.held

-- A token that stands for its own job is found.
pub find_by_resume_token-Stands :
    (token : String) (st : Store) (job : JobRow)
    → Stands token st job
    → job.resume_token ≡ some token
    → find_by_resume_token st token ≡ some job
unfolding find_by_resume_token
find_by_resume_token-Stands token st job s own =
    rw (Stands-existing_run token st job s, own, eq_refl token) refl

-- The store with the row of a new job.
abbrev pub inserted : Store → NewJob → Store
inserted st job = record st {
  jobs = set job.run_id (row_of job) st.jobs;
  by_key = set (insert_key job) job.run_id st.by_key;
}

-- An insertion finds a row and changes nothing, or creates the row of the job.
pub insert_or_get_cases :
    (st : Store) (job : NewJob)
    → ((old : JobRow) × (insert_or_get st job ≡ (st, old, false)))
      ⊎ (insert_or_get st job ≡ (inserted st job, row_of job, true))
unfolding insert_or_get
insert_or_get_cases st job =
    elim (Option-cases (existing_run (get (insert_key job) st.by_key) st.jobs)) [
      | inl e ↦ inr (rw (e, insert_or_get) refl)
      | inr (old, e) ↦ inl (old, rw (e, insert_or_get) refl)
    ]

-- After a submission its key stands for the row that it returned.
pub insert_or_get-Stands :
    (st : Store) (job : NewJob)
    → truthy job.run_id ≡ true
    → Stands (insert_key job) (insert_or_get st job).0 (insert_or_get st job).1
unfolding insert_or_get
insert_or_get-Stands st job t =
    elim (Option-cases (existing_run (get (insert_key job) st.by_key) st.jobs)) [
      | inr (old, found) ↦
          rw (found, insert_or_get) (existing_run-Stands (insert_key job) st old _ refl found)
      | inl missing ↦
          rw (missing, insert_or_get)
            (record {
              id = job.run_id;
              keyed = rw (
                get-set (insert_key job) (insert_key job) job.run_id st.by_key,
                eq_refl (insert_key job),
              );
              held = rw (get-set job.run_id job.run_id (row_of job) st.jobs, eq_refl job.run_id);
              named = t;
            })
    ]

pub Stands-Evolves :
    (key : String) (st st' : Store) (job : JobRow)
    → Evolves st st'
    → Stands key st job
    → (b : JobRow) × Stands key st' b × SameJob job b
Stands-Evolves key st st' job ev s =
    let (b, e, steps) =
      Lives-some (subst (λ o. Lives s.id o (get s.id st'.jobs)) s.held (ev.rows s.id)) in
    (
      b,
      record {
        id = s.id;
        keyed = ev.resolves key s.id job s.keyed s.held s.named;
        held = e;
        named = s.named;
      },
      RowSteps-SameJob steps,
    )

-- Once a submission has returned a row, any later submission with the same key (its resume token,
-- or its run id if it has none), whatever calls came in between, changes nothing and returns the
-- job that was submitted first, not created, if run ids are fresh and not empty.
pub insert_or_get_replay :
    (st : Store) (job again : NewJob) (cs : List Call)
    → truthy job.run_id ≡ true
    → IsFresh (insert_or_get st job).0 cs
    → insert_key again ≡ insert_key job
    → let last = after (insert_or_get st job).0 cs in
      (b : JobRow) × (insert_or_get last again ≡ (last, b, false))
      × SameJob (insert_or_get st job).1 b
unfolding insert_or_get
insert_or_get_replay st job again cs t fresh same =
    let st' = (insert_or_get st job).0 in
    let (b, s, kept) =
      Stands-Evolves (insert_key job) st' (after st' cs) (insert_or_get st job).1
        (after-Evolves st' cs fresh) (insert_or_get-Stands st job t) in
    (
      b,
      rw (same, Stands-existing_run (insert_key job) (after st' cs) b s, insert_or_get) refl,
      kept,
    )
