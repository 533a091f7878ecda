-- ===== src/Engine/Windows/Laws.antt =====
-- What the windows cover.
use backtester.Prelude.{
  ℕ, suc, zero, ◌+◌, ◌≤◌, ◌<◌, String, List, [], ◌∷◌, Option, none, some, true, ◌≡◌, refl, arith,
  All, All-append, length, ◌↔◌, ltb, leb, Bool-cases, inl, inr, sym, subst, ◌∙◌, ◌++◌, ◌&&◌,
  if◌then◌else◌, filter, ap, ◌-◌, ◌*◌,
}
use mathlib.Core.List.{append-nil, append_assoc}
use backtester.Jobs.Row.{RunPeriod}
use backtester.Engine.Windows.{
  EquityPoint, FoldWindow, WalkForwardMode, overlap_ms, is_within, replaces, anchor_loop,
  with_anchor, max_safe_integer, anchored_test_equity, compute_holdout_window, holdout_overlap,
  partial, folds_from, split_walk_forward,
}

abbrev pub max_of : ℕ → ℕ → ℕ
max_of a b = if ltb a b then b else a

-- Two windows that are not empty are reported to overlap exactly when a millisecond lies in both.
pub overlap_ms_iff :
    (run_from run_to held_from held_to : ℕ)
    → run_from < run_to
    → held_from < held_to
    → ((overlap_ms run_from run_to held_from held_to).overlaps ≡ true)
      ↔ ((t : ℕ) × (run_from ≤ t) × (t < run_to) × (held_from ≤ t) × (t < held_to))
unfolding overlap_ms
overlap_ms_iff a b c d h k = (
  λ o. (max_of a c, ground arith, ground arith, ground arith, ground arith),
  λ (t, l1, l2, l3, l4). ground arith,
)

-- What the anchor is for a window: a point of the curve before the window, than which no point in
-- front of it is later, and every point behind it is earlier, of those before the window; or nothing,
-- if no point is before the window.
abbrev pub IsAnchor : List EquityPoint → ℕ → Option EquityPoint → Type 0
IsAnchor equity from none = All (λ (p : EquityPoint). from ≤ p.bar_ts) equity
IsAnchor equity from (some a) =
    (front : List EquityPoint) × (behind : List EquityPoint) × (equity ≡ front ++ a ∷ behind)
    × (a.bar_ts < from)
    × All (λ (p : EquityPoint). p.bar_ts < from → p.bar_ts ≤ a.bar_ts) front
    × All (λ (p : EquityPoint). p.bar_ts < from → p.bar_ts < a.bar_ts) behind

-- One round of the loop for the anchor.
abbrev next_anchor : ℕ → Option EquityPoint → EquityPoint → Option EquityPoint
next_anchor from o q = if ltb q.bar_ts from && replaces q o then some q else o

All-outside :
    (from : ℕ) (t : ℕ) (ps : List EquityPoint)
    → All (λ (p : EquityPoint). from ≤ p.bar_ts) ps
    → All (λ (p : EquityPoint). p.bar_ts < from → p.bar_ts ≤ t) ps
All-outside from t [] h = tt
All-outside from t (p ∷ ps) (h, hs) = (λ l. omega arith, All-outside from t ps hs)

All-up_to :
    (from s t : ℕ) (ps : List EquityPoint)
    → s ≤ t
    → All (λ (p : EquityPoint). p.bar_ts < from → p.bar_ts ≤ s) ps
    → All (λ (p : EquityPoint). p.bar_ts < from → p.bar_ts ≤ t) ps
All-up_to from s t [] h hs = tt
All-up_to from s t (p ∷ ps) h (k, hs) =
    (λ l. let b = k l in omega arith, All-up_to from s t ps h hs)

All-below :
    (from s t : ℕ) (ps : List EquityPoint)
    → s ≤ t
    → All (λ (p : EquityPoint). p.bar_ts < from → p.bar_ts < s) ps
    → All (λ (p : EquityPoint). p.bar_ts < from → p.bar_ts ≤ t) ps
All-below from s t [] h hs = tt
All-below from s t (p ∷ ps) h (k, hs) =
    (λ l. let b = k l in omega arith, All-below from s t ps h hs)

next_anchor-IsAnchor :
    (from : ℕ) (o : Option EquityPoint) (seen : List EquityPoint) (q : EquityPoint)
    → IsAnchor seen from o
    → IsAnchor (seen ++ q ∷ []) from (next_anchor from o q)
next_anchor-IsAnchor from none seen q h = elim (Bool-cases (ltb q.bar_ts from)) [
  | inl early ↦ rw early (seen, [], refl, ground arith, All-outside from q.bar_ts seen h, tt)
  | inr late ↦
      rw late (All-append (λ (p : EquityPoint). from ≤ p.bar_ts) seen (q ∷ []) h (ground arith, tt))
]
next_anchor-IsAnchor from (some a) seen q (front, behind, split, early, before, after) =
    elim (Bool-cases (ltb q.bar_ts from && leb a.bar_ts q.bar_ts)) [
      | inl taken ↦
          let at_most : a.bar_ts ≤ q.bar_ts = ground arith in
          let all_seen : All (λ (p : EquityPoint). p.bar_ts < from → p.bar_ts ≤ q.bar_ts) seen =
            subst (All (λ (p : EquityPoint). p.bar_ts < from → p.bar_ts ≤ q.bar_ts)) (sym split) (
              All-append (λ (p : EquityPoint). p.bar_ts < from → p.bar_ts ≤ q.bar_ts) front
                (a ∷ behind) (All-up_to from a.bar_ts q.bar_ts front at_most before)
                (λ l. at_most, All-below from a.bar_ts q.bar_ts behind at_most after)) in
          rw taken (seen, [], refl, ground arith, all_seen, tt)
      | inr kept ↦ rw kept (
        front,
        behind ++ q ∷ [],
        ap (λ (ps : List EquityPoint). ps ++ q ∷ []) split
            ∙ append_assoc front (a ∷ behind) (q ∷ []),
        early,
        before,
        All-append (λ (p : EquityPoint). p.bar_ts < from → p.bar_ts < a.bar_ts) behind (q ∷ [])
            after (λ l. ground arith, tt),
      )
    ]

anchor_loop-IsAnchor :
    (from : ℕ) (o : Option EquityPoint) (seen ps : List EquityPoint)
    → IsAnchor seen from o
    → IsAnchor (seen ++ ps) from (anchor_loop from o ps)
unfolding anchor_loop
anchor_loop-IsAnchor from o seen [] h = subst (λ es. IsAnchor es from o) (sym (append-nil seen)) h
anchor_loop-IsAnchor from o seen (q ∷ ps) h =
    subst (λ es. IsAnchor es from (anchor_loop from (next_anchor from o q) ps))
      (append_assoc seen (q ∷ []) ps)
      (anchor_loop-IsAnchor from (next_anchor from o q) (seen ++ q ∷ []) ps
        (next_anchor-IsAnchor from o seen q h))

-- The equity of a window is its points, behind an anchor if any point of the curve is before the
-- window: the anchor is the point of the curve before the window that no point in front of it in the
-- curve is later than, and every point behind it in the curve is earlier, of those before the window.
pub anchored_test_equity-IsAnchored :
    (equity : List EquityPoint) (from to : ℕ)
    → (o : Option EquityPoint) × (anchored_test_equity equity from to
        ≡ with_anchor o (filter (is_within from to) equity))
      × IsAnchor equity from o
unfolding anchored_test_equity
anchored_test_equity-IsAnchored equity from to =
    (anchor_loop from none equity, refl, anchor_loop-IsAnchor from none [] equity tt)

-- One fold ends its training where its test begins, and the next test begins where it ends.
abbrev pub Contiguous : List FoldWindow → Type 0
Contiguous [] = Unit {0}
Contiguous (f ∷ []) = f.train.to ≡ f.test.from
Contiguous (f ∷ g ∷ fs) =
    (f.train.to ≡ f.test.from) × (f.test.to ≡ g.test.from) × Contiguous (g ∷ fs)

module _ (parse : String → Option ℕ) (iso : ℕ → String) where
  folds_from-Contiguous :
      (boundary : ℕ → ℕ) (mode : WalkForwardMode) (start i n : ℕ)
      → Contiguous (folds_from parse iso boundary mode start i n)
        × (length (folds_from parse iso boundary mode start i n) ≡ n)
  unfolding folds_from
  folds_from-Contiguous boundary mode start i zero = (tt, refl)
  folds_from-Contiguous boundary mode start i (suc zero) = (refl, refl)
  folds_from-Contiguous boundary mode start i (suc (suc n)) =
      let (chain, long) = folds_from-Contiguous boundary mode start (i + 1) (suc n) in
      ((refl, ap (λ (k : ℕ). iso (boundary k)) (omega arith), chain), ap suc long)

  -- A period whose bounds are dates in order is split into as many folds as asked for, if that is at
  -- least one and a safe integer, each training up to its test, and each test beginning where the
  -- last one ends.
  pub split_walk_forward-Contiguous :
      (rounded : ℕ → ℕ → ℕ) (period : RunPeriod) (mode : WalkForwardMode) (folds from to : ℕ)
      → parse period.from ≡ some from
      → parse period.to ≡ some to
      → from < to
      → 1 ≤ folds
      → folds ≤ max_safe_integer
      → (fs : List FoldWindow) × (split_walk_forward parse iso rounded period mode folds ≡ some fs)
        × (length fs ≡ folds)
        × Contiguous fs
  unfolding split_walk_forward
  split_walk_forward-Contiguous rounded period mode folds from to a b h k m =
      let boundary = λ (j : ℕ). from + rounded ((to - from) * j) (folds + 1) in
      let (chain, long) = folds_from-Contiguous boundary mode from 0 folds in
      (folds_from parse iso boundary mode from 0 folds, rw (a, b) (ground arith), long, chain)

  -- If a part of the span of the coverage, neither none nor all of it, is held out, then a run over
  -- the whole coverage touches what is held out, and is not inside it.
  pub holdout_overlap_of_coverage :
      (part : ℕ → ℕ) (coverage : RunPeriod) (from to : ℕ)
      → ((n : ℕ) → parse (iso n) ≡ some n)
      → parse coverage.from ≡ some from
      → parse coverage.to ≡ some to
      → from < to
      → 1 ≤ part (to - from)
      → part (to - from) < to - from
      → (w : RunPeriod) × (compute_holdout_window parse iso true part coverage ≡ some w)
        × (holdout_overlap parse iso coverage w ≡ record { overlaps = true; containment = partial })
  unfolding compute_holdout_window holdout_overlap overlap_ms
  holdout_overlap_of_coverage part coverage from to inverse a b h some_held some_left = (
    record { from = iso (to - part (to - from)); to = coverage.to },
    rw (a, b) (ground arith),
    rw (a, b, inverse (to - part (to - from))) (ground arith),
  )
