-- ===== src/Admission/Tests.antt =====
-- The theorems on admitted runs at concrete inputs: the index grows between the two answers.
use backtester.Prelude.{ℕ, refl, none, some, false, true, ◌==◌, if◌then◌else◌}
use backtester.Admission.{
  Permit, allowed, AdmissionSource, Checked, returned, EffectiveRequest, AdmissionEvidence,
  with_admitted_window,
}
use backtester.Admission.Laws.{IsAdmitted, with_admitted_window-IsAdmitted}

abbrev granted_first : Permit
granted_first = record {
  requested_from_ms = 0;
  requested_to_ms = 90;
  effective_from_ms = 0;
  effective_to_ms = 60;
  clamped = true;
  archive_id = some "archive";
  dataset_id = none;
  availability_id = "index1";
  as_of_ms = 60;
}

abbrev granted_again : Permit
granted_again = record granted_first {
  requested_to_ms = 60;
  clamped = false;
  availability_id = "index2";
  as_of_ms = 90;
}

abbrev platform : AdmissionSource
platform n from to = if n == 0 then allowed granted_first else allowed granted_again

abbrev bars : EffectiveRequest → Checked ℕ
bars e = returned e.to_ms

abbrev count_bars : EffectiveRequest → ℕ → AdmissionEvidence → Checked ℕ
count_bars e n evidence = returned n

with_admitted_window-IsAdmitted_example :
    IsAdmitted platform bars count_bars 0 90 (with_admitted_window platform bars count_bars 0 90).0
unfolding with_admitted_window
with_admitted_window-IsAdmitted_example =
    with_admitted_window-IsAdmitted platform bars count_bars 0 90 refl
