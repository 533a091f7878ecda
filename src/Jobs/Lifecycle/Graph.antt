-- ===== src/Jobs/Lifecycle/Graph.antt =====
-- The graph that `allowed_transitions` draws.
use backtester.Prelude.{◌≡◌, ◌↔◌, inl, inr, true, false, arith, Bool-cases}
use backtester.Jobs.Lifecycle.{
  RunStatus, accepted, running, canceled, InternalJobStatus, run, status_eq, is_terminal,
  can_transition,
}

run_code-inj : (a b : RunStatus) → status_eq (run a) (run b) ≡ true → a ≡ b
run_code-inj a b h = ground arith

pub status_eq→eq : (a b : InternalJobStatus) → status_eq a b ≡ true → a ≡ b
status_eq→eq a b h = ground arith

pub status_eq_refl : (a : InternalJobStatus) → status_eq a a ≡ true
status_eq_refl a = ground arith

pub can_transition_terminal :
    (s t : InternalJobStatus) → is_terminal s ≡ true → can_transition s t ≡ false
unfolding is_terminal can_transition
can_transition_terminal s t h = ground arith

can_cancel :
    (s : InternalJobStatus) → is_terminal s ≡ false → can_transition s (run canceled) ≡ true
unfolding is_terminal can_transition
can_cancel s h = ground arith

-- A status is terminal exactly when no move leaves it.
pub is_terminal_iff :
    (s : InternalJobStatus)
    → (is_terminal s ≡ true) ↔ ((t : InternalJobStatus) → can_transition s t ≡ false)
is_terminal_iff s = (
  λ h t. can_transition_terminal s t h,
  λ stuck. elim (Bool-cases (is_terminal s)) [
    | inl h ↦ h
    | inr live ↦ cc (can_cancel s live, stuck (run canceled))
  ],
)

-- A move never goes to the same status, but for the charge of a running job.
pub can_transition_self : (s : InternalJobStatus) → can_transition s s ≡ true → s ≡ run running
unfolding can_transition
can_transition_self s h = ground arith

-- Nothing goes back to `accepted`.
pub can_transition_accepted : (s : InternalJobStatus) → can_transition s (run accepted) ≡ false
unfolding can_transition
can_transition_accepted s = ground arith
