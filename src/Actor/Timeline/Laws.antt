-- ===== src/Actor/Timeline/Laws.antt =====
-- The streams that pass the check, said without a loop.
use backtester.Prelude.{
  ℕ, String, List, [], ◌∷◌, Option, none, some, Bool, true, false, not, ◌≡◌, ◌↔◌, refl, ap, sym,
  ◌∙◌, All, override, arith, ltb, ◌==◌, if◌then◌else◌,
}
use backtester.Actor.Timeline.{
  ActorTimelineEntry, TimelineAxis, seqs_of, set_at, walk_entries, watermark_failure, axis_failure,
  after_walk, assert_actor_timeline, max_safe_integer,
}
use backtester.Actor.Timeline.Entries.{
  past, not-false, holds, both, entered, IsEntry, entry_failure-IsEntry, IsEntry-entry_failure,
}

-- The seq of the last entry of a frontier.
abbrev pub last_seq : ℕ → List ActorTimelineEntry → Option ℕ
last_seq k [] = none
last_seq k (e ∷ es) = override (last_seq k es) (if e.frontier == k then some e.seq else none)

-- The map that the loop leaves.
abbrev pub marks : (ℕ → Option ℕ) → List ActorTimelineEntry → ℕ → Option ℕ
marks m [] = m
marks m (e ∷ es) = marks (set_at e.frontier e.seq m) es

override-none : (o : Option ℕ) → override o none ≡ o
override-none none = refl
override-none (some s) = refl

override-if :
    (o : Option ℕ) (b : Bool) (s : ℕ) (old : Option ℕ)
    → override o (if b then some s else old)
      ≡ override (override o (if b then some s else none)) old
override-if none true s old = refl
override-if none false s old = refl
override-if (some t) b s old = refl

marks-last_seq :
    (m : ℕ → Option ℕ) (es : List ActorTimelineEntry) (k : ℕ)
    → marks m es k ≡ override (last_seq k es) (m k)
marks-last_seq m [] k = refl
marks-last_seq m (e ∷ es) k =
    marks-last_seq (set_at e.frontier e.seq m) es k
    ∙ override-if (last_seq k es) (e.frontier == k) e.seq (m k)

marks-start : (es : List ActorTimelineEntry) (k : ℕ) → marks (λ j. none) es k ≡ last_seq k es
marks-start es k = marks-last_seq (λ j. none) es k ∙ override-none (last_seq k es)

-- Each frontier has committed the last of its entries.
abbrev pub HasWatermarks : List ActorTimelineEntry → List TimelineAxis → Type 0
HasWatermarks es axis = All (λ f. last_seq f.index es ≡ some f.last_committed_seq) axis

marks-HasWatermarks :
    (es : List ActorTimelineEntry) (axis : List TimelineAxis)
    → All (λ f. marks (λ j. none) es f.index ≡ some f.last_committed_seq) axis
    → HasWatermarks es axis
marks-HasWatermarks es [] h = tt
marks-HasWatermarks es (f ∷ fs) (h, hs) =
    (sym (marks-start es f.index) ∙ h, marks-HasWatermarks es fs hs)

HasWatermarks-marks :
    (es : List ActorTimelineEntry) (axis : List TimelineAxis)
    → HasWatermarks es axis
    → All (λ f. marks (λ j. none) es f.index ≡ some f.last_committed_seq) axis
HasWatermarks-marks es [] h = tt
HasWatermarks-marks es (f ∷ fs) (h, hs) = (marks-start es f.index ∙ h, HasWatermarks-marks es fs hs)

module _ (is_contiguous : List ℕ → ℕ → Bool) (is_blank : String → Bool) where
  -- Every entry of a stream, each after the one before.
  abbrev pub Fits : List TimelineAxis → List ℕ → ℕ → List ActorTimelineEntry → Type 0
  Fits axis seqs prev [] = Unit
  Fits axis seqs prev (e ∷ es) =
      IsEntry is_contiguous is_blank axis seqs prev e × Fits axis seqs e.frontier es

  walk-Fits :
      (axis : List TimelineAxis) (seqs : List ℕ) (prev : ℕ) (m : ℕ → Option ℕ)
      (es : List ActorTimelineEntry)
      → after_walk is_contiguous is_blank axis
          (walk_entries is_contiguous is_blank axis seqs prev m es)
        ≡ none
      → Fits axis seqs prev es × (axis_failure is_contiguous is_blank (marks m es) axis ≡ none)
  unfolding walk_entries
  walk-Fits axis seqs prev m [] h = (tt, h)
  walk-Fits axis seqs prev m (e ∷ es) h =
      let step = entered is_contiguous is_blank axis _ _ h in
      let rest = walk-Fits axis seqs e.frontier (set_at e.frontier e.seq m) es step.1 in
      ((entry_failure-IsEntry is_contiguous is_blank axis seqs prev e step.0, rest.0), rest.1)

  Fits-walk :
      (axis : List TimelineAxis) (seqs : List ℕ) (prev : ℕ) (m : ℕ → Option ℕ)
      (es : List ActorTimelineEntry)
      → Fits axis seqs prev es
      → axis_failure is_contiguous is_blank (marks m es) axis ≡ none
      → after_walk is_contiguous is_blank axis
          (walk_entries is_contiguous is_blank axis seqs prev m es)
        ≡ none
  unfolding walk_entries
  Fits-walk axis seqs prev m [] f h = h
  Fits-walk axis seqs prev m (e ∷ es) (i, f) h =
      simp (IsEntry-entry_failure is_contiguous is_blank axis seqs prev e i)
        (Fits-walk axis seqs e.frontier (set_at e.frontier e.seq m) es f h)

  watermark-none :
      (f : TimelineAxis) (o : Option ℕ)
      → watermark_failure is_contiguous is_blank f o ≡ none
      → o ≡ some f.last_committed_seq
  watermark-none f none h = absurd (cc)
  watermark-none f (some s) h = ap some (ground (arith, holds _ _ h))

  watermark_of_last :
      (f : TimelineAxis)
      → watermark_failure is_contiguous is_blank f (some f.last_committed_seq) ≡ none
  watermark_of_last f = ground arith

  axis_failure-All :
      (m : ℕ → Option ℕ) (fs : List TimelineAxis)
      → axis_failure is_contiguous is_blank m fs ≡ none
      → All (λ f. m f.index ≡ some f.last_committed_seq) fs
  unfolding axis_failure
  axis_failure-All m [] h = tt
  axis_failure-All m (f ∷ fs) h =
      let parts = both is_contiguous is_blank _ _ h in
      (watermark-none f _ parts.0, axis_failure-All m fs parts.1)

  All-axis_failure :
      (m : ℕ → Option ℕ) (fs : List TimelineAxis)
      → All (λ f. m f.index ≡ some f.last_committed_seq) fs
      → axis_failure is_contiguous is_blank m fs ≡ none
  unfolding axis_failure
  All-axis_failure m [] h = refl
  All-axis_failure m (f ∷ fs) (h, hs) = simp (h, watermark_of_last f) (All-axis_failure m fs hs)

  -- A run without frontiers has no entries; else there is a first seq that is safe, the seqs are
  -- contiguous, every entry fits and every frontier has its watermark.
  abbrev pub IsTimeline : List ActorTimelineEntry → List TimelineAxis → Type 0
  IsTimeline [] [] = Unit
  IsTimeline (e ∷ es) [] = ⊥
  IsTimeline [] (f ∷ fs) = ⊥
  IsTimeline (e ∷ es) (f ∷ fs) =
      (ltb max_safe_integer e.seq ≡ false)
      × (is_contiguous (seqs_of (e ∷ es)) e.seq ≡ true)
      × Fits (f ∷ fs) (seqs_of (e ∷ es)) 0 (e ∷ es)
      × HasWatermarks (e ∷ es) (f ∷ fs)

  assert-IsTimeline :
      (es : List ActorTimelineEntry) (axis : List TimelineAxis)
      → assert_actor_timeline is_contiguous is_blank es axis ≡ none
      → IsTimeline es axis
  unfolding assert_actor_timeline
  assert-IsTimeline [] [] h = tt
  assert-IsTimeline (e ∷ es) [] h = absurd (cc)
  assert-IsTimeline [] (f ∷ fs) h = absurd (cc)
  assert-IsTimeline (e ∷ es) (f ∷ fs) h =
      let safe = past (ltb max_safe_integer e.seq) _ _ h in
      let joined = past (not (is_contiguous (seqs_of (e ∷ es)) e.seq)) _ _ safe.1 in
      let walk = walk-Fits (f ∷ fs) (seqs_of (e ∷ es)) 0 (λ j. none) (e ∷ es) joined.1 in
      (
        safe.0,
        not-false _ joined.0,
        walk.0,
        marks-HasWatermarks (e ∷ es) (f ∷ fs) (axis_failure-All _ (f ∷ fs) walk.1),
      )

  IsTimeline-assert :
      (es : List ActorTimelineEntry) (axis : List TimelineAxis)
      → IsTimeline es axis
      → assert_actor_timeline is_contiguous is_blank es axis ≡ none
  unfolding assert_actor_timeline
  IsTimeline-assert [] [] t = refl
  IsTimeline-assert (e ∷ es) [] t = absurd t
  IsTimeline-assert [] (f ∷ fs) t = absurd t
  IsTimeline-assert (e ∷ es) (f ∷ fs) (safe, joined, fits, watermarks) =
      simp (safe, joined)
        (Fits-walk (f ∷ fs) (seqs_of (e ∷ es)) 0 (λ j. none) (e ∷ es) fits
          (All-axis_failure _ (f ∷ fs) (HasWatermarks-marks (e ∷ es) (f ∷ fs) watermarks)))

  -- A timeline passes its check exactly if it and the axis are both empty, or its first seq is a
  -- safe number, the engine finds its seqs contiguous, each entry lies on its frontier at that
  -- frontier's time, none goes back, causes are earlier entries of the stream and refused commands
  -- have reasons, and each frontier has committed the seq of its last entry.
  pub assert_actor_timeline_iff :
      (es : List ActorTimelineEntry) (axis : List TimelineAxis)
      → (assert_actor_timeline is_contiguous is_blank es axis ≡ none) ↔ IsTimeline es axis
  assert_actor_timeline_iff es axis = (assert-IsTimeline es axis, IsTimeline-assert es axis)
