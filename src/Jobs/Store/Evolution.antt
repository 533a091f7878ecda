-- ===== src/Jobs/Store/Evolution.antt =====
-- The life of one row as a relation: a move along an allowed edge with its patch, or a write to
-- the lease and the charge of a row that is not terminal.
use backtester.Prelude.{
  ℕ, String, List, [], ◌∷◌, ◌++◌, Option, none, some, true, false, ◌≡◌, refl, sym, ◌∙◌, truthy,
  subst, ap, Bool-cases, inl, inr, Bool,
}
use mathlib.Core.List.{append_assoc, append-nil}
use backtester.OrderedMap.{get, keys, Distinct}
use backtester.Jobs.Lifecycle.{
  RunStatus, InternalJobStatus, run, waiting_for_compute, status_eq, is_terminal, public_status,
  can_transition,
}
use backtester.Jobs.Lifecycle.Graph.{status_eq→eq, can_transition_terminal}
use backtester.Jobs.Row.{JobRow, NewJob, JobRowPatch, RunTimelineEntry}
use backtester.Jobs.Store.{Store, apply_patch, entry, recorded_status, row_of}

-- What was submitted is never rewritten.
pub record SameJob (a b : JobRow) : Type 0 where
  pub job_id : b.job_id ≡ a.job_id
  pub run_id : b.run_id ≡ a.run_id
  pub resume_token : b.resume_token ≡ a.resume_token
  pub request_fingerprint : b.request_fingerprint ≡ a.request_fingerprint
  pub request : b.request ≡ a.request
  pub effective_seed : b.effective_seed ≡ a.effective_seed
  pub callback_url : b.callback_url ≡ a.callback_url
  pub run_timeout_ms : b.run_timeout_ms ≡ a.run_timeout_ms
  pub accepted_at_ms : b.accepted_at_ms ≡ a.accepted_at_ms
  pub bundle_hash : b.bundle_hash ≡ a.bundle_hash

-- A write that leaves the status and the timeline alone.
pub record Touches (a b : JobRow) : Type 0 where
  pub same : SameJob a b
  pub status : b.status ≡ a.status
  pub timeline : b.timeline ≡ a.timeline

pub data RowStep : JobRow → JobRow → Type 0 where
  move :
      (job : JobRow) (from to : InternalJobStatus) (patch : JobRowPatch)
      → job.status ≡ from
      → can_transition from to ≡ true
      → RowStep job (apply_patch job from to patch)
  touch : {job job' : JobRow} → is_terminal job.status ≡ false → Touches job job' → RowStep job job'

pub data RowSteps (job : JobRow) : JobRow → Type 0 where
  here : RowSteps job job
  next : {a b : JobRow} → RowSteps job a → RowStep a b → RowSteps job b

pub RowSteps-trans : {a b c : JobRow} → RowSteps a b → RowSteps b c → RowSteps a c
RowSteps-trans h here = h
RowSteps-trans h (next k s) = next (RowSteps-trans h k) s

SameJob-trans : {a b c : JobRow} → SameJob a b → SameJob b c → SameJob a c
SameJob-trans h k = record {
  job_id = k.job_id ∙ h.job_id;
  run_id = k.run_id ∙ h.run_id;
  resume_token = k.resume_token ∙ h.resume_token;
  request_fingerprint = k.request_fingerprint ∙ h.request_fingerprint;
  request = k.request ∙ h.request;
  effective_seed = k.effective_seed ∙ h.effective_seed;
  callback_url = k.callback_url ∙ h.callback_url;
  run_timeout_ms = k.run_timeout_ms ∙ h.run_timeout_ms;
  accepted_at_ms = k.accepted_at_ms ∙ h.accepted_at_ms;
  bundle_hash = k.bundle_hash ∙ h.bundle_hash;
}

pub SameJob-refl : (a : JobRow) → SameJob a a
SameJob-refl a = record {
  job_id = refl;
  run_id = refl;
  resume_token = refl;
  request_fingerprint = refl;
  request = refl;
  effective_seed = refl;
  callback_url = refl;
  run_timeout_ms = refl;
  accepted_at_ms = refl;
  bundle_hash = refl;
}

pub apply_patch-SameJob :
    (job : JobRow) (from to : InternalJobStatus) (patch : JobRowPatch)
    → SameJob job (apply_patch job from to patch)
unfolding apply_patch
apply_patch-SameJob job from to patch = record {
  job_id = refl;
  run_id = refl;
  resume_token = refl;
  request_fingerprint = refl;
  request = refl;
  effective_seed = refl;
  callback_url = refl;
  run_timeout_ms = refl;
  accepted_at_ms = refl;
  bundle_hash = refl;
}

-- A write to the lease, the attempts and the charge.
pub lease-Touches :
    (a : JobRow) (by : Option String) (expires : Option ℕ) (n : ℕ) (charged : Option Bool)
    → Touches a (record a {
      leased_by = by;
      lease_expires_at = expires;
      attempts = n;
      engine_attempt_charged = charged;
    })
lease-Touches a by expires n charged = record {
  same = record {
    job_id = refl;
    run_id = refl;
    resume_token = refl;
    request_fingerprint = refl;
    request = refl;
    effective_seed = refl;
    callback_url = refl;
    run_timeout_ms = refl;
    accepted_at_ms = refl;
    bundle_hash = refl;
  };
  status = refl;
  timeline = refl;
}

pub apply_patch-status :
    (job : JobRow) (from to : InternalJobStatus) (patch : JobRowPatch)
    → (apply_patch job from to patch).status ≡ to
unfolding apply_patch
apply_patch-status job from to patch = refl

RowStep-SameJob : {a b : JobRow} → RowStep a b → SameJob a b
RowStep-SameJob (move job from to patch e ok) = apply_patch-SameJob job from to patch
RowStep-SameJob (touch live t) = t.same

pub RowSteps-SameJob : {a b : JobRow} → RowSteps a b → SameJob a b
RowSteps-SameJob {a} here = SameJob-refl a
RowSteps-SameJob (next k s) = SameJob-trans (RowSteps-SameJob k) (RowStep-SameJob s)

no_move_when_terminal : {a b : JobRow} → is_terminal a.status ≡ true → RowStep a b → ⊥
no_move_when_terminal h (move job from to patch e ok) =
    let stuck = can_transition_terminal job.status to h in
    cc (stuck, ap (λ s. can_transition s to) e)
no_move_when_terminal h (touch live t) = cc

-- Nothing follows a terminal row.
pub RowSteps-terminal : {a b : JobRow} → is_terminal a.status ≡ true → RowSteps a b → b ≡ a
RowSteps-terminal h here = refl
RowSteps-terminal {a} h (next {a = c} k s) =
    let e = RowSteps-terminal h k in
    absurd (no_move_when_terminal (ap (λ (r : JobRow). is_terminal r.status) e ∙ h) s)

-- The timeline only grows.
abbrev pub Extends : List RunTimelineEntry → List RunTimelineEntry → Type 0
Extends xs ys = (later : List RunTimelineEntry) × (ys ≡ xs ++ later)

RowStep-Extends : {a b : JobRow} → RowStep a b → Extends a.timeline b.timeline
unfolding apply_patch
RowStep-Extends (move job from to patch e ok) = elim (Bool-cases (status_eq from to)) [
  | inl same ↦ ([], rw same (sym (append-nil _)))
  | inr moved ↦ (entry to patch.at_ms ∷ [], rw moved refl)
]
RowStep-Extends (touch live t) = ([], t.timeline ∙ sym (append-nil _))

pub RowSteps-Extends : {a b : JobRow} → RowSteps a b → Extends a.timeline b.timeline
RowSteps-Extends here = ([], sym (append-nil _))
RowSteps-Extends {a} (next k s) =
    let (xs, e) = RowSteps-Extends k in
    let (ys, d) = RowStep-Extends s in
    (xs ++ ys, d ∙ ap (λ t. t ++ ys) e ∙ append_assoc a.timeline xs ys)

-- The last entry of the timeline is the public view of the status.
abbrev pub last_status : List RunTimelineEntry → Option RunStatus
last_status [] = none
last_status (e ∷ []) = some e.status
last_status (e ∷ (d ∷ es)) = last_status (d ∷ es)

abbrev pub IsCurrent : JobRow → Type 0
IsCurrent job = last_status job.timeline ≡ some (public_status job.status)

last_status-concat :
    (xs : List RunTimelineEntry) (e : RunTimelineEntry) → last_status (xs ++ e ∷ []) ≡ some e.status
last_status-concat [] e = refl
last_status-concat (x ∷ []) e = refl
last_status-concat (x ∷ (y ∷ xs)) e = last_status-concat (y ∷ xs) e

recorded-public : (s : InternalJobStatus) → recorded_status s ≡ public_status s
unfolding public_status
recorded-public (run s) = refl
recorded-public waiting_for_compute = refl

RowStep-IsCurrent : {a b : JobRow} → RowStep a b → IsCurrent a → IsCurrent b
unfolding apply_patch
RowStep-IsCurrent (move job from to patch e ok) c = elim (Bool-cases (status_eq from to)) [
  | inl same ↦ rw same (c ∙ ap (λ s. some (public_status s)) (e ∙ status_eq→eq from to same))
  | inr moved ↦
      rw moved
        (last_status-concat job.timeline (entry to patch.at_ms) ∙ ap some (recorded-public to))
]
RowStep-IsCurrent (touch live t) c =
    ap last_status t.timeline ∙ c ∙ ap (λ s. some (public_status s)) (sym t.status)

pub RowSteps-IsCurrent : {a b : JobRow} → RowSteps a b → IsCurrent a → IsCurrent b
RowSteps-IsCurrent here c = c
RowSteps-IsCurrent (next k s) c = RowStep-IsCurrent s (RowSteps-IsCurrent k c)

-- What happens to the entry of one key: a row lives on by steps, or is born by a submission.
pub data Lives (k : String) : Option JobRow → Option JobRow → Type 0 where
  absent : Lives k none none
  born :
      (job : NewJob)
      → job.run_id ≡ k
      → {b : JobRow} → RowSteps (row_of job) b
      → Lives k none (some b)
  lives : {a b : JobRow} → RowSteps a b → Lives k (some a) (some b)

pub Lives-refl : (k : String) (o : Option JobRow) → Lives k o o
Lives-refl k none = absent
Lives-refl k (some a) = lives here

Lives-trans : {k : String} {a b c : Option JobRow} → Lives k a b → Lives k b c → Lives k a c
Lives-trans absent k = k
Lives-trans (born job i h) (lives k) = born job i (RowSteps-trans h k)
Lives-trans (lives h) (lives k) = lives (RowSteps-trans h k)

pub Lives-some :
    {k : String} {a : JobRow} {o : Option JobRow}
    → Lives k (some a) o
    → (b : JobRow) × (o ≡ some b) × RowSteps a b
Lives-some (lives {b = c} s) = (c, refl, s)

pub record Evolves (st st' : Store) : Type 0 where
  pub rows : (k : String) → Lives k (get k st.jobs) (get k st'.jobs)
  pub distinct : Distinct (keys st.jobs) → Distinct (keys st'.jobs)
  -- A key that stands for a row goes on standing for it.
  pub resolves :
      (key id : String) (job : JobRow)
      → get key st.by_key ≡ some id
      → get id st.jobs ≡ some job
      → truthy id ≡ true
      → get key st'.by_key ≡ some id

pub Evolves-refl : (st : Store) → Evolves st st
Evolves-refl st = record {
  rows = λ k. Lives-refl k (get k st.jobs);
  distinct = λ d. d;
  resolves = λ key id job e held t. e;
}

pub Evolves-trans : (st st' st'' : Store) → Evolves st st' → Evolves st' st'' → Evolves st st''
Evolves-trans st st' st'' h g = record {
  rows = λ k. Lives-trans (h.rows k) (g.rows k);
  distinct = λ d. g.distinct (h.distinct d);
  resolves = λ key id job e held t.
      let alive = h.rows id in
      let (job', held', _) =
        Lives-some {k = id} {a = job} (subst (λ o. Lives id o (get id st'.jobs)) held alive) in
      g.resolves key id job' (h.resolves key id job e held t) held' t;
}

-- A property of every row of a store, under its key.
abbrev pub EveryRow : (String → JobRow → Type 0) → Store → Type 0
EveryRow P st = (k : String) (job : JobRow) → get k st.jobs ≡ some job → P k job

module _ (P : String → JobRow → Type 0) (new : (job : NewJob) → P job.run_id (row_of job))
    (keeps : (k : String) (a b : JobRow) → RowSteps a b → P k a → P k b) where
  lives_on :
      {k : String} {x y : Option JobRow} (job : JobRow)
      → Lives k x y
      → ((a : JobRow) → x ≡ some a → P k a)
      → y ≡ some job
      → P k job
  lives_on job absent old e = absurd (cc)
  lives_on {k} job (born j i {b} s) old e =
      let same : b ≡ job = cc in rw (← same, ← i) (keeps j.run_id (row_of j) b s (new j))
  lives_on {k} job (lives {a} {b} s) old e =
      let same : b ≡ job = cc in rw (← same) (keeps k a b s (old a refl))

  -- A property that new rows have and that steps keep is kept by every evolution.
  pub EveryRow-Evolves : (st st' : Store) → Evolves st st' → EveryRow P st → EveryRow P st'
  EveryRow-Evolves st st' ev all k job e = lives_on job (ev.rows k) (all k) e

-- Every row stands under its own run id, and under no other.
pub record WellFormed (st : Store) : Type 0 where
  pub keyed : EveryRow (λ k job. job.run_id ≡ k) st
  pub distinct : Distinct (keys st.jobs)

row_of-run_id : (job : NewJob) → (row_of job).run_id ≡ job.run_id
unfolding row_of
row_of-run_id job = refl

pub Evolves-WellFormed : (st st' : Store) → Evolves st st' → WellFormed st → WellFormed st'
Evolves-WellFormed st st' ev w = record {
  keyed =
      EveryRow-Evolves (λ k job. job.run_id ≡ k) row_of-run_id
        (λ k a b s e. (RowSteps-SameJob s).run_id ∙ e) st st' ev w.keyed;
  distinct = ev.distinct w.distinct;
}
