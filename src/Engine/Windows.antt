-- ===== src/Engine/Windows.antt =====
-- engine/holdout.ts, engine/window-eval.ts and engine/walk-forward.ts: the windows on which a run is
-- evaluated. `Date.parse` and `toISOString` are parameters; a text that is no date parses to `none`,
-- and a comparison with it is false; dates before 1970, which are negative, and numbers of folds that
-- are no whole number have no counterpart here. The held-out fraction is given by whether it lies in (0, 1) and
-- by the rounded part of a span that it makes up. Equity is kept by its decimal literal.
pub mod Laws
pub mod Tests
use backtester.Prelude.{
  ℕ, suc, zero, ◌+◌, ◌*◌, ◌-◌, String, List, [], ◌∷◌, Option, none, some, Bool, true, false, not,
  ltb, leb, ◌&&◌, ◌||◌, if◌then◌else◌, filter,
}
use backtester.Jobs.Row.{RunPeriod}

pub data Containment : Type 0 where
  outside partial full : Containment

pub record Overlap : Type 0 where
  pub overlaps : Bool
  pub containment : Containment

-- The marker of a run, without its constant fields and the fraction.
pub record HoldoutResolved : Type 0 where
  pub coverage : RunPeriod
  pub window : RunPeriod
  pub overlap : Overlap

pub record EquityPoint : Type 0 where
  pub bar_index : ℕ
  pub bar_ts : ℕ
  pub equity : String

pub data WalkForwardMode : Type 0 where
  rolling expanding : WalkForwardMode

pub record FoldWindow : Type 0 where
  pub index : ℕ
  pub train : RunPeriod
  pub test : RunPeriod

-- The overlap of two half-open windows in milliseconds.
unfoldable pub overlap_ms : ℕ → ℕ → ℕ → ℕ → Overlap
overlap_ms run_from run_to held_from held_to =
    if ltb run_from held_to && ltb held_from run_to
    then (record {
      overlaps = true;
      containment = if leb held_from run_from && leb run_to held_to then full else partial;
    })
    else (record { overlaps = false; containment = outside })

-- `p.barTs >= fromMs && p.barTs < toMs`.
abbrev pub is_within : ℕ → ℕ → EquityPoint → Bool
is_within from to p = leb from p.bar_ts && ltb p.bar_ts to

-- `anchor === undefined || p.barTs >= anchor.barTs`.
abbrev pub replaces : EquityPoint → Option EquityPoint → Bool
replaces p none = true
replaces p (some a) = leb a.bar_ts p.bar_ts

unfoldable pub anchor_loop : ℕ → Option EquityPoint → List EquityPoint → Option EquityPoint
anchor_loop from anchor [] = anchor
anchor_loop from anchor (p ∷ ps) =
    anchor_loop from (if ltb p.bar_ts from && replaces p anchor then some p else anchor) ps

abbrev pub with_anchor : Option EquityPoint → List EquityPoint → List EquityPoint
with_anchor none within = within
with_anchor (some a) within = a ∷ within

unfoldable pub anchored_test_equity : List EquityPoint → ℕ → ℕ → List EquityPoint
unfolding anchor_loop
anchored_test_equity equity from to =
    with_anchor (anchor_loop from none equity) (filter (is_within from to) equity)

-- A number of folds is a whole number from zero on, so of `Number.isSafeInteger` the bound is left.
abbrev pub max_safe_integer : ℕ
max_safe_integer = 9007199254740991

module _ (parse : String → Option ℕ) (iso : ℕ → String) where
  abbrev bounds : Option ℕ → Option ℕ → Option (ℕ × ℕ)
  bounds (some from) (some to) = some (from, to)
  bounds _ _ = none

  abbrev pub parsed : RunPeriod → Option (ℕ × ℕ)
  parsed p = bounds (parse p.from) (parse p.to)

  abbrev held_window : (ℕ → ℕ) → RunPeriod → Option (ℕ × ℕ) → Option RunPeriod
  held_window part coverage none = none
  held_window part coverage (some (from, to)) =
      if leb to from
      then none
      else some (record { from = iso (to - part (to - from)); to = coverage.to })

  -- `none` stands for `HoldoutConfigError`; `part span` is `Math.round(fraction * span)`.
  unfoldable pub compute_holdout_window : Bool → (ℕ → ℕ) → RunPeriod → Option RunPeriod
  compute_holdout_window in_range part coverage =
      if in_range then held_window part coverage (parsed coverage) else none

  abbrev overlap_of : Option (ℕ × ℕ) → Option (ℕ × ℕ) → Overlap
  overlap_of (some (run_from, run_to)) (some (held_from, held_to)) =
      overlap_ms run_from run_to held_from held_to
  overlap_of _ _ = record { overlaps = false; containment = outside }

  unfoldable pub holdout_overlap : RunPeriod → RunPeriod → Overlap
  unfolding overlap_ms
  holdout_overlap run_period holdout = overlap_of (parsed run_period) (parsed holdout)

  abbrev marker_of : RunPeriod → RunPeriod → Option RunPeriod → Option HoldoutResolved
  marker_of coverage run_period none = none
  marker_of coverage run_period (some window) =
      some (record {
        coverage = coverage;
        window = window;
        overlap = holdout_overlap run_period window;
      })

  unfoldable pub build_holdout_marker :
      Bool → (ℕ → ℕ) → RunPeriod → RunPeriod → Option HoldoutResolved
  unfolding holdout_overlap compute_holdout_window
  build_holdout_marker in_range part coverage run_period =
      marker_of coverage run_period (compute_holdout_window in_range part coverage)

  -- `boundary k` is `fromMs + Math.round(total * k / segments)`.
  module _ (boundary : ℕ → ℕ) where
    abbrev train_from : WalkForwardMode → ℕ → ℕ → ℕ
    train_from expanding start i = start
    train_from rolling start i = boundary i

    abbrev fold : WalkForwardMode → ℕ → ℕ → FoldWindow
    fold mode start i = record {
      index = i;
      train = record { from = iso (train_from mode start i); to = iso (boundary (i + 1)) };
      test = record { from = iso (boundary (i + 1)); to = iso (boundary (i + 2)) };
    }

    -- The folds from the `i`-th on, `n` in number.
    unfoldable pub folds_from : WalkForwardMode → ℕ → ℕ → ℕ → List FoldWindow
    folds_from mode start i zero = []
    folds_from mode start i (suc n) = fold mode start i ∷ folds_from mode start (i + 1) n

  abbrev split : (ℕ → ℕ → ℕ) → WalkForwardMode → ℕ → Option (ℕ × ℕ) → Option (List FoldWindow)
  split rounded mode folds none = none
  split rounded mode folds (some (from, to)) =
      if leb to from || (ltb max_safe_integer folds || ltb folds 1)
      then none
      else some (folds_from (λ k. from + rounded ((to - from) * k) (folds + 1)) mode from 0 folds)

  -- `rounded x y` is `Math.round(x / y)`; `none` stands for `WalkForwardConfigError`.
  unfoldable pub split_walk_forward :
      (ℕ → ℕ → ℕ) → RunPeriod → WalkForwardMode → ℕ → Option (List FoldWindow)
  unfolding folds_from
  split_walk_forward rounded period mode folds = split rounded mode folds (parsed period)
