-- ===== src/Jobs/Lifecycle.antt =====
-- jobs/lifecycle.ts: the eight public states of a run, the internal ninth, and the allowed moves.
pub mod Graph
use backtester.Prelude.{ℕ, List, [], ◌∷◌, Bool, true, false, ◌||◌, ◌==◌, any, if◌then◌else◌, ◌++◌}

pub data RunStatus : Type 0 where
  accepted queued running : RunStatus
  completed failed canceled expired timed_out : RunStatus

pub data InternalJobStatus : Type 0 where
  run : RunStatus → InternalJobStatus
  waiting_for_compute : InternalJobStatus

abbrev pub non_terminal : List RunStatus
non_terminal = accepted ∷ queued ∷ running ∷ []

abbrev pub terminal : List RunStatus
terminal = completed ∷ failed ∷ canceled ∷ expired ∷ timed_out ∷ []

-- The place of a status in an enumeration, by which `===` is decided.
abbrev run_code : RunStatus → ℕ
run_code accepted = 0
run_code queued = 1
run_code running = 2
run_code completed = 3
run_code failed = 4
run_code canceled = 5
run_code expired = 6
run_code timed_out = 7

abbrev status_code : InternalJobStatus → ℕ
status_code (run s) = run_code s
status_code waiting_for_compute = 8

abbrev pub status_eq : InternalJobStatus → InternalJobStatus → Bool
status_eq a b = status_code a == status_code b

abbrev pub includes : List InternalJobStatus → InternalJobStatus → Bool
includes xs s = any (λ x. status_eq x s) xs

abbrev inject : List RunStatus → List InternalJobStatus
inject [] = []
inject (s ∷ ss) = run s ∷ inject ss

abbrev pub allowed_transitions : InternalJobStatus → List InternalJobStatus
allowed_transitions (run accepted) = run queued ∷ run canceled ∷ run expired ∷ []
allowed_transitions (run queued) = run running ∷ run canceled ∷ run expired ∷ []
allowed_transitions (run running) =
    run running
    ∷ run completed
    ∷ run failed
    ∷ run canceled
    ∷ run timed_out
    ∷ run queued
    ∷ waiting_for_compute
    ∷ []
allowed_transitions (run completed) = []
allowed_transitions (run failed) = []
allowed_transitions (run canceled) = []
allowed_transitions (run expired) = []
allowed_transitions (run timed_out) = []
allowed_transitions waiting_for_compute =
    run queued ∷ run failed ∷ run canceled ∷ run timed_out ∷ []

unfoldable pub is_terminal : InternalJobStatus → Bool
is_terminal s = includes (inject terminal) s

unfoldable pub public_status : InternalJobStatus → RunStatus
public_status (run s) = s
public_status waiting_for_compute = running

unfoldable pub can_transition : InternalJobStatus → InternalJobStatus → Bool
can_transition from to = includes (allowed_transitions from) to
