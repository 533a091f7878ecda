-- ===== src/Admission/Laws.antt =====
-- A run is computed only under an admission that a second answer of the platform confirms.
use backtester.Prelude.{
  ℕ, ◌≤◌, String, List, [], ◌∷◌, Option, none, some, Bool, true, false, ◌≡◌, refl, ap, arith, inl,
  inr, Bool-cases, any, ltb, subst, eq_iff, eq_refl,
}
use backtester.Admission.{
  Permit, PreflightResult, allowed, rejected, AdmissionSource, AdmissionDecision,
  AdmissionConfirmation, Checked, thrown, returned, admit_window, confirm_window_still_admitted,
  EffectiveRequest, AdmissionEvidence, admission_evidence, Event, asked, loaded, computed,
  effective_of, with_admitted_window, after_admit, after_load, after_confirm, after_compute,
  second_answer, confirmation_of, same_id, granted,
}

abbrev pub is_compute : Event → Bool
is_compute (asked from_ms to_ms) = false
is_compute (loaded e) = false
is_compute (computed e) = true

abbrev pub reaches_compute : List Event → Bool
reaches_compute = any is_compute

-- The second answer grants the whole window of the first, from the same archive and dataset.
pub record StillAdmitted (d : AdmissionDecision) (q : Permit) : Type 0 where
  pub unclamped : q.clamped ≡ false
  pub same_from : q.effective_from_ms ≡ d.effective_from_ms
  pub same_to : q.effective_to_ms ≡ d.effective_to_ms
  pub same_archive : q.archive_id ≡ d.archive_id
  pub same_dataset : q.dataset_id ≡ d.dataset_id

same_id→eq : (a b : Option String) → same_id a b ≡ true → a ≡ b
same_id→eq none none h = refl
same_id→eq none (some t) h = absurd (cc)
same_id→eq (some s) none h = absurd (cc)
same_id→eq (some s) (some t) h = ap some (ground (arith, eq_iff s t))

same_id_refl : (a : Option String) → same_id a a ≡ true
same_id_refl none = refl
same_id_refl (some s) = eq_refl s

confirm-StillAdmitted :
    (d : AdmissionDecision) (q : Permit) (c : AdmissionConfirmation)
    → confirm_window_still_admitted d (allowed q) ≡ returned c
    → StillAdmitted d q × (c ≡ confirmation_of q)
unfolding confirm_window_still_admitted
confirm-StillAdmitted d q c h =
    ground (arith, same_id→eq q.archive_id d.archive_id, same_id→eq q.dataset_id d.dataset_id)

confirm_StillAdmitted :
    (d : AdmissionDecision) (q : Permit)
    → StillAdmitted d q
    → confirm_window_still_admitted d (allowed q) ≡ returned (confirmation_of q)
unfolding confirm_window_still_admitted
confirm_StillAdmitted d q s =
    simp
      (
        s.unclamped,
        s.same_from,
        s.same_to,
        s.same_archive,
        s.same_dataset,
        same_id_refl d.archive_id,
        same_id_refl d.dataset_id,
      )
      (ground arith)

admit_window-granted :
    (r : PreflightResult) (d : AdmissionDecision)
    → admit_window r ≡ returned d
    → (p : Permit) × (r ≡ allowed p) × (granted p ≡ d) × (p.effective_from_ms ≤ p.effective_to_ms)
unfolding admit_window
admit_window-granted (rejected code) d h = absurd (cc)
admit_window-granted (allowed p) d h =
    elim (Bool-cases (ltb p.effective_to_ms p.effective_from_ms)) [
      | inl late ↦ absurd (cc (rw (late, admit_window) at h))
      | inr fine ↦ (p, refl, cc (rw (fine, admit_window) at h), ground arith)
    ]

confirm_allowed :
    (d : AdmissionDecision) (r : PreflightResult) (c : AdmissionConfirmation)
    → confirm_window_still_admitted d r ≡ returned c
    → (q : Permit) × (r ≡ allowed q)
unfolding confirm_window_still_admitted
confirm_allowed d (rejected code) c h = absurd (cc)
confirm_allowed d (allowed q) c h = (q, refl)

module _ {L T : Type 0} (source : AdmissionSource) (load : EffectiveRequest → Checked L)
    (compute : EffectiveRequest → L → AdmissionEvidence → Checked T) where
  -- What stands behind a computation: the two answers, the loaded data, and the whole order.
  pub record IsAdmitted (from to : ℕ) (trace : List Event) : Type 0 where
    pub first : Permit
    pub second : Permit
    pub data_loaded : L
    pub asked_first : source 0 from to ≡ allowed first
    pub window : first.effective_from_ms ≤ first.effective_to_ms
    pub data_read :
        load (record { from_ms = first.effective_from_ms; to_ms = first.effective_to_ms })
        ≡ returned data_loaded
    pub asked_again : source 1 first.effective_from_ms first.effective_to_ms ≡ allowed second
    pub confirmed : StillAdmitted (granted first) second
    pub ordered :
        trace
        ≡ asked from to
          ∷ loaded (effective_of (granted first))
          ∷ asked first.effective_from_ms first.effective_to_ms
          ∷ computed (effective_of (granted first))
          ∷ []

  confirmed_trace :
      (d : AdmissionDecision) (l : L) (o : Checked AdmissionConfirmation)
      → reaches_compute (after_confirm source load compute d l o).0 ≡ true
      → (c : AdmissionConfirmation) × (o ≡ returned c)
        × ((after_confirm source load compute d l o).0 ≡ computed (effective_of d) ∷ [])
  confirmed_trace d l (thrown e) h = absurd (cc)
  confirmed_trace d l (returned c) h =
      (c, refl, computed_trace (compute (effective_of d) l (admission_evidence d c)))
    where
      computed_trace :
          (o : Checked T)
          → (after_compute source load compute d c o).0 ≡ computed (effective_of d) ∷ []
      computed_trace (thrown e) = refl
      computed_trace (returned t) = refl

  loaded_trace :
      (d : AdmissionDecision) (o : Checked L)
      → reaches_compute (after_load source load compute d o).0 ≡ true
      → (l : L) × (c : AdmissionConfirmation) × (o ≡ returned l)
        × (confirm_window_still_admitted d (second_answer source load compute d) ≡ returned c)
        × ((after_load source load compute d o).0
            ≡ asked d.effective_from_ms d.effective_to_ms ∷ computed (effective_of d) ∷ [])
  loaded_trace d (thrown e) h = absurd (cc)
  loaded_trace d (returned l) h =
      let answer = confirm_window_still_admitted d (second_answer source load compute d) in
      let (c, e, same) = confirmed_trace d l answer h in
      (l, c, refl, e, ap (λ (t : List Event). asked d.effective_from_ms d.effective_to_ms ∷ t) same)

  -- A run is computed only if the platform granted a window that is not empty, its data were
  -- loaded, and a second answer granted this same window uncut from the same archive and dataset;
  -- then it is computed after all of these, on that window, and nothing else is done.
  pub with_admitted_window-IsAdmitted :
      (from to : ℕ)
      → reaches_compute (with_admitted_window source load compute from to).0 ≡ true
      → IsAdmitted from to (with_admitted_window source load compute from to).0
  unfolding with_admitted_window
  with_admitted_window-IsAdmitted from to h = go (admit_window (source 0 from to)) refl h
    where
      admitted :
          (p q : Permit) (l : L) (c : AdmissionConfirmation) (t : List Event)
          → source 0 from to ≡ allowed p
          → p.effective_from_ms ≤ p.effective_to_ms
          → load (effective_of (granted p)) ≡ returned l
          → source 1 p.effective_from_ms p.effective_to_ms ≡ allowed q
          → confirm_window_still_admitted (granted p) (allowed q) ≡ returned c
          → t
            ≡ asked p.effective_from_ms p.effective_to_ms ∷ computed (effective_of (granted p)) ∷ []
          → IsAdmitted from to (asked from to ∷ loaded (effective_of (granted p)) ∷ t)
      admitted p q l c t one window read two confirmed same = record {
        first = p;
        second = q;
        data_loaded = l;
        asked_first = one;
        window = window;
        data_read = read;
        asked_again = two;
        confirmed = (confirm-StillAdmitted (granted p) q c confirmed).0;
        ordered =
            ap (λ (u : List Event). asked from to ∷ loaded (effective_of (granted p)) ∷ u) same;
      }

      finish :
          (p : Permit)
          → source 0 from to ≡ allowed p
          → p.effective_from_ms ≤ p.effective_to_ms
          → reaches_compute (after_admit source load compute (returned (granted p))).0 ≡ true
          → IsAdmitted from to
              (asked from to ∷ (after_admit source load compute (returned (granted p))).0)
      finish p one window reached =
          let d = granted p in
          let (l, c, read, confirmed, same) = loaded_trace d (load (effective_of d)) reached in
          let (q, two) = confirm_allowed d (second_answer source load compute d) c confirmed in
          admitted p q l c _ one window read two (rw two at confirmed) same

      go :
          (o : Checked AdmissionDecision)
          → admit_window (source 0 from to) ≡ o
          → reaches_compute (after_admit source load compute o).0 ≡ true
          → IsAdmitted from to (asked from to ∷ (after_admit source load compute o).0)
      go (thrown e) same reached = absurd (cc)
      go (returned d) same reached =
          let (p, one, what, window) = admit_window-granted (source 0 from to) d same in
          subst
            (λ (d : AdmissionDecision).
              reaches_compute (after_admit source load compute (returned d)).0 ≡ true
              → IsAdmitted from to
                  (asked from to ∷ (after_admit source load compute (returned d)).0))
            what (λ reached. finish p one window reached) reached
