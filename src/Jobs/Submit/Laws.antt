-- ===== src/Jobs/Submit/Laws.antt =====
-- A submission that fails leaves the store as it was.
use backtester.Prelude.{
  String, Option, none, some, Bool, true, false, not, ◌&&◌, ◌≡◌, refl, sym, subst, inl, inr,
  opt_str_eq, get_or, if◌then◌else◌, List,
}
use backtester.Jobs.Row.{JobRow}
use backtester.Jobs.Store.{Store}
use backtester.Jobs.Store.Replay.{insert_or_get_cases}
use backtester.Jobs.Store.History.{Call}
use backtester.Jobs.Submit.Validate.{Body, Bundle, ValidationIssue, validate}
use backtester.Jobs.Submit.{
  overlay_disabled, has_bundle, named_bundle, is_full, bundles_disabled, two_bundles,
  malformed_bundle_ref, SubmitDeps, SubmitError, SubmitOutcome, thrown, BundleStore, Draws,
  submit_run, unless_invalid, unless_existing, store_bundle, with_ref, with_bundle, insert_new,
  after_insert, after_queueing, new_job, existing_of,
}

-- A result that is an error comes with the store as it was.
abbrev pub Quiet : Store → Store × SubmitOutcome → Type 0
Quiet st r = (e : SubmitError) → r.1 ≡ thrown e → r.0 ≡ st

Quiet-if :
    (st : Store) (b : Bool) (x y : Store × SubmitOutcome)
    → Quiet st x
    → Quiet st y
    → Quiet st (if b then x else y)
Quiet-if st true x y h k = h
Quiet-if st false x y h k = k

Quiet-refl : (st : Store) (o : SubmitOutcome) → Quiet st (st, o)
Quiet-refl st o e h = refl

module _ (deps : SubmitDeps) (b : Body) (draws : Draws) (cs : List Call) (st : Store) where
  after_queueing-Quiet :
      (id : String) (job : JobRow) (r : Store × Bool)
      → Quiet st (after_queueing deps draws id job r)
  after_queueing-Quiet id job (st', true) e h = absurd (cc)
  after_queueing-Quiet id job (st', false) e h = absurd (cc)

  insert_new-Quiet : (h : Option String) → Quiet st (insert_new deps b draws cs st h)
  insert_new-Quiet h = elim (insert_or_get_cases st (new_job deps b draws h)) [
    | inl (old, e) ↦
        subst (λ r. Quiet st (after_insert deps b draws cs r)) (sym e) (Quiet-refl st _)
    | inr e ↦
        subst (λ r. Quiet st (after_insert deps b draws cs r)) (sym e) (after_queueing-Quiet _ _ _)
  ]

  with_ref-Quiet :
      (ref : String) (o : Option BundleStore) → Quiet st (with_ref deps b draws cs st ref o)
  with_ref-Quiet ref none = Quiet-refl st (thrown bundles_disabled)
  with_ref-Quiet ref (some bundles) =
      Quiet-if st (not (bundles.has ref)) _ _ (Quiet-refl st _) (insert_new-Quiet (some ref))

  with_bundle-Quiet :
      (m : Option Bundle) (o : Option BundleStore) → Quiet st (with_bundle deps b draws cs st m o)
  with_bundle-Quiet none o = insert_new-Quiet none
  with_bundle-Quiet (some bundle) none = Quiet-refl st (thrown bundles_disabled)
  with_bundle-Quiet (some bundle) (some bundles) = insert_new-Quiet (some (bundles.put bundle))

  store_bundle-Quiet : Quiet st (store_bundle deps b draws cs st)
  store_bundle-Quiet =
      Quiet-if st (has_bundle deps b.module_bundle && named_bundle b) _ _
        (Quiet-refl st (thrown two_bundles))
        (Quiet-if st (named_bundle b) _ _
          (Quiet-if st (not (deps.is_content_hash (get_or b.bundle_ref ""))) _ _
            (Quiet-refl st (thrown malformed_bundle_ref))
            (with_ref-Quiet (get_or b.bundle_ref "") deps.bundle_store))
          (with_bundle-Quiet b.module_bundle deps.bundle_store))

  unless_existing-Quiet : (o : Option JobRow) → Quiet st (unless_existing deps b draws cs st o)
  unless_existing-Quiet (some job) = Quiet-refl st _
  unless_existing-Quiet none =
      Quiet-if st (is_full deps st draws.now (get_or deps.queue_max_depth 0)) _ _ (Quiet-refl st _)
        store_bundle-Quiet

  unless_invalid-Quiet :
      (o : Option ValidationIssue) → Quiet st (unless_invalid deps b draws cs st o)
  unless_invalid-Quiet (some issue) = Quiet-refl st _
  unless_invalid-Quiet none = unless_existing-Quiet (existing_of deps st b.resume_token)

  submit_run-Quiet : Quiet st (submit_run deps b draws cs st)
  unfolding submit_run
  submit_run-Quiet =
      Quiet-if st (opt_str_eq b.engine "overlay" && not deps.enable_overlay_engine) _ _
        (Quiet-refl st (thrown overlay_disabled)) (unless_invalid-Quiet (validate deps.guards b))

  -- A submission that throws any error leaves the job store exactly as it was.
  pub submit_run-thrown :
      (e : SubmitError)
      → (submit_run deps b draws cs st).1 ≡ thrown e
      → (submit_run deps b draws cs st).0 ≡ st
  submit_run-thrown e h = submit_run-Quiet e h
