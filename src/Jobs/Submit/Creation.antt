-- ===== src/Jobs/Submit/Creation.antt =====
-- A submission that creates a job got through every check, and stored the bundle that it digested.
use backtester.Prelude.{
  String, Option, none, some, Bool, true, false, not, ◌&&◌, ◌≡◌, refl, ap, sym, subst, ◌∙◌, inl,
  inr, truthy?, opt_str_eq, get_or, if◌then◌else◌, [], str_eq,
}
use backtester.Jobs.Row.{JobRow}
use backtester.Jobs.Store.{Store, insert_or_get, row_of}
use backtester.Jobs.Store.Queries.{RunJobHandle}
use backtester.Jobs.Store.Replay.{insert_or_get_cases, inserted}
use backtester.Jobs.Submit.Validate.{Body, Bundle, ValidationIssue, validate}
use backtester.Jobs.Submit.{
  overlay_disabled, two_bundles, malformed_bundle_ref, bundles_disabled, unknown_bundle,
  resume_token_conflict, SubmitDeps, SubmitError, SubmitOutcome, thrown, submitted, BundleStore,
  Draws, submit_run, unless_invalid, unless_existing, store_bundle, with_ref, with_bundle,
  insert_new, after_insert, new_job, replayed, existing_of, request_fingerprint, named_bundle,
  has_bundle, hash_of_bundle, stored_request_fingerprint, is_full,
}

if-elim :
    (P : Store × SubmitOutcome → Type 0) (b : Bool) (x y : Store × SubmitOutcome)
    → (b ≡ true → P x)
    → (b ≡ false → P y)
    → P (if b then x else y)
if-elim P true x y h k = h refl
if-elim P false x y h k = k refl

-- The hash that is stored is the one that was digested, unless the reference is the empty text.
same_ref : (o : Option String) → truthy? o ≡ true → some (get_or o "") ≡ o
same_ref none h = absurd (cc)
same_ref (some ref) h = refl

no_ref : (o : Option String) → truthy? o ≡ false → opt_str_eq o "" ≡ false → o ≡ none
no_ref none h k = refl
no_ref (some ref) h k = absurd (cc)

no_bundle :
    (deps : SubmitDeps) (o : Option Bundle) (c : Bool)
    → (has_bundle deps o && c) ≡ false
    → c ≡ true
    → o ≡ none
no_bundle deps none c h k = refl
no_bundle deps (some x) c h k = absurd (cc)

not_new :
    (c : Bool) (x h : RunJobHandle)
    → (if c then submitted x false else thrown resume_token_conflict) ≡ submitted h true
    → ⊥
not_new true x h eq = cc
not_new false x h eq = cc

module _ (deps : SubmitDeps) (b : Body) (draws : Draws) (st : Store) where
  -- How a job came to be created.
  pub record Created (r : Store × SubmitOutcome) : Type 0 where
    pub hash : Option String
    pub digested : hash ≡ hash_of_bundle deps b.module_bundle b.bundle_ref
    pub made :
        insert_or_get st (new_job deps b draws hash)
        ≡ (inserted st (new_job deps b draws hash), row_of (new_job deps b draws hash), true)
    pub result : insert_new deps b draws [] st hash ≡ r

  abbrev Comes : Store × SubmitOutcome → Type 0
  Comes r = (h : RunJobHandle) → r.1 ≡ submitted h true → Created r

  Comes-thrown : (e : SubmitError) → Comes (st, thrown e)
  Comes-thrown e h eq = absurd (cc)

  replayed-old :
      (job : JobRow) (f : String) (h : RunJobHandle) → replayed deps job f ≡ submitted h true → ⊥
  replayed-old job f h eq =
      not_new (str_eq (stored_request_fingerprint deps job.request job.bundle_hash) f) _ h eq

  insert_new-Comes :
      (hash : Option String)
      → hash ≡ hash_of_bundle deps b.module_bundle b.bundle_ref
      → Comes (insert_new deps b draws [] st hash)
  insert_new-Comes hash same h eq = elim (insert_or_get_cases st (new_job deps b draws hash)) [
    | inl (old, e) ↦ absurd (
        replayed-old old (request_fingerprint deps b) h
          (subst (λ r. (after_insert deps b draws [] r).1 ≡ submitted h true) e eq))
    | inr e ↦ record { hash = hash; digested = same; made = e; result = refl }
  ]

  module _
      (put_hashes : (s : BundleStore) (x : Bundle)
        → deps.bundle_store ≡ some s
        → s.put x ≡ deps.bundle_hash x)
      (no_empty : opt_str_eq b.bundle_ref "" ≡ false) where
    with_ref-Comes :
        (o : Option BundleStore)
        → truthy? b.bundle_ref ≡ true
        → b.module_bundle ≡ none
        → Comes (with_ref deps b draws [] st (get_or b.bundle_ref "") o)
    with_ref-Comes none named alone = Comes-thrown bundles_disabled
    with_ref-Comes (some bundles) named alone =
        if-elim Comes (not (bundles.has (get_or b.bundle_ref ""))) _ _
          (λ _. Comes-thrown unknown_bundle)
          (λ _. insert_new-Comes (some (get_or b.bundle_ref "")) (
            same_ref b.bundle_ref named ∙ ap (λ m. hash_of_bundle deps m b.bundle_ref) (sym alone)))

    with_bundle-Comes :
        (m : Option Bundle) (o : Option BundleStore)
        → b.module_bundle ≡ m
        → deps.bundle_store ≡ o
        → truthy? b.bundle_ref ≡ false
        → Comes (with_bundle deps b draws [] st m o)
    with_bundle-Comes none o at store unnamed = insert_new-Comes none (
        sym (no_ref b.bundle_ref unnamed no_empty)
        ∙ ap (λ m. hash_of_bundle deps m b.bundle_ref) (sym at))
    with_bundle-Comes (some bundle) none at store unnamed = Comes-thrown bundles_disabled
    with_bundle-Comes (some bundle) (some bundles) at store unnamed =
        insert_new-Comes (some (bundles.put bundle)) (
          ap some (put_hashes bundles bundle store)
          ∙ ap (λ m. hash_of_bundle deps m b.bundle_ref) (sym at))

    store_bundle-Comes : Comes (store_bundle deps b draws [] st)
    store_bundle-Comes =
        if-elim Comes (has_bundle deps b.module_bundle && named_bundle b) _ _
          (λ _. Comes-thrown two_bundles)
          (λ apart.
            if-elim Comes (named_bundle b) _ _
              (λ named.
                if-elim Comes (not (deps.is_content_hash (get_or b.bundle_ref ""))) _ _
                  (λ _. Comes-thrown malformed_bundle_ref)
                  (λ _.
                    with_ref-Comes deps.bundle_store named
                      (no_bundle deps b.module_bundle (named_bundle b) apart named)))
              (λ unnamed. with_bundle-Comes b.module_bundle deps.bundle_store refl refl unnamed))

    unless_existing-Comes : (o : Option JobRow) → Comes (unless_existing deps b draws [] st o)
    unless_existing-Comes (some job) =
        λ h eq. absurd (replayed-old job (request_fingerprint deps b) h eq)
    unless_existing-Comes none =
        if-elim Comes (is_full deps st draws.now (get_or deps.queue_max_depth 0)) _ _
          (λ _. Comes-thrown _) (λ _. store_bundle-Comes)

    -- The checks passed, and the job was created.
    unless_invalid-Comes :
        (o : Option ValidationIssue) (h : RunJobHandle)
        → (unless_invalid deps b draws [] st o).1 ≡ submitted h true
        → (o ≡ none) × Created (unless_invalid deps b draws [] st o)
    unless_invalid-Comes (some issue) h eq = absurd (cc)
    unless_invalid-Comes none h eq =
        (refl, unless_existing-Comes (existing_of deps st b.resume_token) h eq)

    pub submit_run-Created :
        (h : RunJobHandle)
        → (submit_run deps b draws [] st).1 ≡ submitted h true
        → ((opt_str_eq b.engine "overlay" && not deps.enable_overlay_engine) ≡ false)
          × (validate deps.guards b ≡ none)
          × Created (submit_run deps b draws [] st)
    unfolding submit_run
    submit_run-Created h eq =
        by_gate (opt_str_eq b.engine "overlay" && not deps.enable_overlay_engine) refl eq
      where
        by_gate :
            (c : Bool)
            → (opt_str_eq b.engine "overlay" && not deps.enable_overlay_engine) ≡ c
            → (if c
                then (st, thrown overlay_disabled)
                else unless_invalid deps b draws [] st (validate deps.guards b)).1
              ≡ submitted h true
            → ((opt_str_eq b.engine "overlay" && not deps.enable_overlay_engine) ≡ false)
              × (validate deps.guards b ≡ none)
              × Created (submit_run deps b draws [] st)
        by_gate true at k = absurd (cc)
        by_gate false at k =
            let came = unless_invalid-Comes (validate deps.guards b) h k in
            (at, came.0, subst Created (rw at refl) came.1)
