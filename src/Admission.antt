-- ===== src/Admission.antt =====
-- data/availability-admission.ts: a period is admitted, its data are loaded, the admission is
-- confirmed, and only then the run is computed. The answers of `preflight` are the platform's: the
-- source is a parameter, which may answer its first and its second call differently. The texts of
-- the error messages are left out.
pub mod Laws
pub mod Tests
use backtester.Prelude.{
  ℕ, String, List, [], ◌∷◌, Option, none, some, Bool, true, false, not, ltb, ◌||◌, ◌==◌,
  if◌then◌else◌, str_eq, ◌++◌,
}

-- What the platform grants: the part of the asked period that may be read, and from what.
pub record Permit : Type 0 where
  pub requested_from_ms : ℕ
  pub requested_to_ms : ℕ
  pub effective_from_ms : ℕ
  pub effective_to_ms : ℕ
  pub clamped : Bool
  pub archive_id : Option String
  pub dataset_id : Option String
  pub availability_id : String
  pub as_of_ms : ℕ

pub data PreflightResult : Type 0 where
  allowed : Permit → PreflightResult
  rejected : String → PreflightResult

-- The call's number comes first.
abbrev pub AdmissionSource : Type 0
AdmissionSource = ℕ → ℕ → ℕ → PreflightResult

pub record AdmissionDecision : Type 0 where
  pub requested_from_ms : ℕ
  pub requested_to_ms : ℕ
  pub effective_from_ms : ℕ
  pub effective_to_ms : ℕ
  pub clamped : Bool
  pub archive_id : Option String
  pub dataset_id : Option String
  pub availability_id : String
  pub as_of_ms : ℕ

pub record AdmissionConfirmation : Type 0 where
  pub admitted_availability_id : String
  pub admitted_as_of_ms : ℕ
  pub archive_id : Option String
  pub dataset_id : Option String

pub data AdmissionRefusalCode : Type 0 where
  preflight_rejected empty_effective_window : AdmissionRefusalCode
  window_no_longer_admitted identity_changed : AdmissionRefusalCode

-- What is thrown: a refusal, with the platform's code if it refused, or an error of a step.
pub data AdmissionError : Type 0 where
  refusal : AdmissionRefusalCode → Option String → AdmissionError
  step_failed : String → AdmissionError

pub data Checked {ℓ} (A : Type ℓ) : Type ℓ where
  thrown : AdmissionError → Checked A
  returned : A → Checked A

-- The permit with its fields as they are.
abbrev pub granted : Permit → AdmissionDecision
granted res = record {
  requested_from_ms = res.requested_from_ms;
  requested_to_ms = res.requested_to_ms;
  effective_from_ms = res.effective_from_ms;
  effective_to_ms = res.effective_to_ms;
  clamped = res.clamped;
  archive_id = res.archive_id;
  dataset_id = res.dataset_id;
  availability_id = res.availability_id;
  as_of_ms = res.as_of_ms;
}

unfoldable pub admit_window : PreflightResult → Checked AdmissionDecision
admit_window (rejected code) = thrown (refusal preflight_rejected (some code))
admit_window (allowed res) =
    if ltb res.effective_to_ms res.effective_from_ms
    then thrown (refusal empty_effective_window none)
    else returned (granted res)

-- `===` on texts that may be null.
abbrev pub same_id : Option String → Option String → Bool
same_id none none = true
same_id none (some t) = false
same_id (some s) none = false
same_id (some s) (some t) = str_eq s t

abbrev pub confirmation_of : Permit → AdmissionConfirmation
confirmation_of res = record {
  admitted_availability_id = res.availability_id;
  admitted_as_of_ms = res.as_of_ms;
  archive_id = res.archive_id;
  dataset_id = res.dataset_id;
}

unfoldable pub confirm_window_still_admitted :
    AdmissionDecision → PreflightResult → Checked AdmissionConfirmation
confirm_window_still_admitted d (rejected code) =
    thrown (refusal window_no_longer_admitted (some code))
confirm_window_still_admitted d (allowed res) =
    if res.clamped
    then thrown (refusal window_no_longer_admitted none)
    else if not (res.effective_from_ms == d.effective_from_ms)
        || not (res.effective_to_ms == d.effective_to_ms)
    then thrown (refusal window_no_longer_admitted none)
    else if not (same_id res.archive_id d.archive_id)
    then thrown (refusal identity_changed none)
    else if not (same_id res.dataset_id d.dataset_id)
    then thrown (refusal identity_changed none)
    else returned (confirmation_of res)

pub record EffectiveRequest : Type 0 where
  pub from_ms : ℕ
  pub to_ms : ℕ

pub record AdmissionEvidence : Type 0 where
  pub requested_from_ms : ℕ
  pub requested_to_ms : ℕ
  pub effective_from_ms : ℕ
  pub effective_to_ms : ℕ
  pub clamped : Bool
  pub availability_id : String
  pub as_of_ms : ℕ
  pub admitted_availability_id : String
  pub admitted_as_of_ms : ℕ
  pub archive_id : Option String
  pub dataset_id : Option String

unfoldable pub admission_evidence : AdmissionDecision → AdmissionConfirmation → AdmissionEvidence
admission_evidence d c = record {
  requested_from_ms = d.requested_from_ms;
  requested_to_ms = d.requested_to_ms;
  effective_from_ms = d.effective_from_ms;
  effective_to_ms = d.effective_to_ms;
  clamped = d.clamped;
  availability_id = d.availability_id;
  as_of_ms = d.as_of_ms;
  admitted_availability_id = c.admitted_availability_id;
  admitted_as_of_ms = c.admitted_as_of_ms;
  archive_id = c.archive_id;
  dataset_id = c.dataset_id;
}

pub record AdmittedRun (T : Type 0) : Type 0 where
  pub effective : EffectiveRequest
  pub decision : AdmissionDecision
  pub confirmation : AdmissionConfirmation
  pub evidence : AdmissionEvidence
  pub result : T

-- What a run does to the outside, in order.
pub data Event : Type 0 where
  asked : (from_ms to_ms : ℕ) → Event
  loaded computed : EffectiveRequest → Event

abbrev pub effective_of : AdmissionDecision → EffectiveRequest
effective_of d = record { from_ms = d.effective_from_ms; to_ms = d.effective_to_ms }

module _ {L T : Type 0} (source : AdmissionSource) (load : EffectiveRequest → Checked L)
    (compute : EffectiveRequest → L → AdmissionEvidence → Checked T) where
  abbrev pub Trace : Type 0
  Trace = List Event × Checked (AdmittedRun T)

  abbrev after_compute : AdmissionDecision → AdmissionConfirmation → Checked T → Trace
  after_compute d c (thrown e) = (computed (effective_of d) ∷ [], thrown e)
  after_compute d c (returned result) = (
    computed (effective_of d) ∷ [],
    returned (record {
      effective = effective_of d;
      decision = d;
      confirmation = c;
      evidence = admission_evidence d c;
      result = result;
    }),
  )

  abbrev after_confirm : AdmissionDecision → L → Checked AdmissionConfirmation → Trace
  after_confirm d l (thrown e) = ([], thrown e)
  after_confirm d l (returned c) =
      after_compute d c (compute (effective_of d) l (admission_evidence d c))

  abbrev then_do : List Event → Trace → Trace
  then_do done (more, outcome) = (done ++ more, outcome)

  abbrev second_answer : AdmissionDecision → PreflightResult
  second_answer d = source 1 d.effective_from_ms d.effective_to_ms

  abbrev after_load : AdmissionDecision → Checked L → Trace
  after_load d (thrown e) = ([], thrown e)
  after_load d (returned l) =
      then_do (asked d.effective_from_ms d.effective_to_ms ∷ [])
        (after_confirm d l (confirm_window_still_admitted d (second_answer d)))

  abbrev after_admit : Checked AdmissionDecision → Trace
  after_admit (thrown e) = ([], thrown e)
  after_admit (returned d) =
      then_do (loaded (effective_of d) ∷ []) (after_load d (load (effective_of d)))

  unfoldable pub with_admitted_window : ℕ → ℕ → Trace
  unfolding admit_window confirm_window_still_admitted admission_evidence
  with_admitted_window from to =
      then_do (asked from to ∷ []) (after_admit (admit_window (source 0 from to)))
