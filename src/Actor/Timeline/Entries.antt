-- ===== src/Actor/Timeline/Entries.antt =====
-- When one entry of a stream passes the check.
use backtester.Prelude.{
  ℕ, String, List, Option, none, some, Bool, true, false, not, ◌≡◌, refl, ltb, leb, ◌==◌,
  if◌then◌else◌,
}
use backtester.Actor.Timeline.{
  ActorTimelineEntry, TimelineAxis, TimelineFailure, get_elem?, has, Walk, all_reasons,
  commands_failure, cause_failure, frontier_failure, entry_failure, after_entry, after_frontier,
  after_walk,
}

-- A cause is an earlier entry of the stream.
abbrev pub IsCaused : List ℕ → ℕ → Option ℕ → Type 0
IsCaused seqs s none = Unit
IsCaused seqs s (some cause) = (leb s cause ≡ false) × (has seqs cause ≡ true)

pub past :
    (b : Bool) (failure : TimelineFailure) (next : Option TimelineFailure)
    → (if b then some failure else next) ≡ none
    → (b ≡ false) × (next ≡ none)
past true failure next h = absurd (cc)
past false failure next h = (refl, h)

pub not-false : (b : Bool) → not b ≡ false → b ≡ true
not-false true h = refl
not-false false h = absurd (cc)

pub holds :
    (b : Bool) (failure : TimelineFailure) → (if b then none else some failure) ≡ none → b ≡ true
holds true failure h = refl
holds false failure h = absurd (cc)

module _ (is_contiguous : List ℕ → ℕ → Bool) (is_blank : String → Bool) where
  pub record IsEntry (axis : List TimelineAxis) (seqs : List ℕ) (prev_frontier : ℕ)
      (e : ActorTimelineEntry) : Type 0 where
    pub frontier_of : TimelineAxis
    pub found : get_elem? axis e.frontier ≡ some frontier_of
    pub own_index : (frontier_of.index == e.frontier) ≡ true
    pub on_time : (e.event_ts_us == frontier_of.ts_us) ≡ true
    pub forward : ltb e.frontier prev_frontier ≡ false
    pub caused : IsCaused seqs e.seq e.caused_by_seq
    pub reasons : all_reasons is_contiguous is_blank e.commands ≡ true

  commands_failure-none :
      (e : ActorTimelineEntry)
      → commands_failure is_contiguous is_blank e ≡ none
      → all_reasons is_contiguous is_blank e.commands ≡ true
  commands_failure-none e h = holds _ _ h

  pub both :
      (a b : Option TimelineFailure)
      → after_frontier is_contiguous is_blank a b ≡ none
      → (a ≡ none) × (b ≡ none)
  both none b h = (refl, h)
  both (some failure) b h = absurd (cc)

  pub entered :
      (axis : List TimelineAxis) (a : Option TimelineFailure) (w : Walk)
      → after_walk is_contiguous is_blank axis (after_entry is_contiguous is_blank a w) ≡ none
      → (a ≡ none) × (after_walk is_contiguous is_blank axis w ≡ none)
  entered axis none w h = (refl, h)
  entered axis (some failure) w h = absurd (cc)

  IsCaused-cause_failure :
      (seqs : List ℕ) (e : ActorTimelineEntry) (c : Option ℕ)
      → IsCaused seqs e.seq c
      → all_reasons is_contiguous is_blank e.commands ≡ true
      → cause_failure is_contiguous is_blank seqs e c ≡ none
  IsCaused-cause_failure seqs e none c r = simp r refl
  IsCaused-cause_failure seqs e (some cause) (before, there) r = simp (before, there, r) refl

  cause_failure-IsCaused :
      (seqs : List ℕ) (e : ActorTimelineEntry) (c : Option ℕ)
      → cause_failure is_contiguous is_blank seqs e c ≡ none
      → IsCaused seqs e.seq c × (all_reasons is_contiguous is_blank e.commands ≡ true)
  cause_failure-IsCaused seqs e none h = (tt, commands_failure-none e h)
  cause_failure-IsCaused seqs e (some cause) h =
      let before = past (leb e.seq cause) _ _ h in
      let there = past (not (has seqs cause)) _ _ before.1 in
      ((before.0, not-false _ there.0), commands_failure-none e there.1)

  frontier_failure-IsEntry :
      (axis : List TimelineAxis) (seqs : List ℕ) (prev : ℕ) (e : ActorTimelineEntry)
      (o : Option TimelineAxis)
      → get_elem? axis e.frontier ≡ o
      → frontier_failure is_contiguous is_blank seqs prev e o ≡ none
      → IsEntry axis seqs prev e
  frontier_failure-IsEntry axis seqs prev e none at h = absurd (cc)
  frontier_failure-IsEntry axis seqs prev e (some f) at h =
      let own = past (not (f.index == e.frontier)) _ _ h in
      let time = past (not (e.event_ts_us == f.ts_us)) _ _ own.1 in
      let ahead = past (ltb e.frontier prev) _ _ time.1 in
      let cause = cause_failure-IsCaused seqs e e.caused_by_seq ahead.1 in
      record {
        frontier_of = f;
        found = at;
        own_index = not-false _ own.0;
        on_time = not-false _ time.0;
        forward = ahead.0;
        caused = cause.0;
        reasons = cause.1;
      }

  pub entry_failure-IsEntry :
      (axis : List TimelineAxis) (seqs : List ℕ) (prev : ℕ) (e : ActorTimelineEntry)
      → entry_failure is_contiguous is_blank axis seqs prev e ≡ none
      → IsEntry axis seqs prev e
  unfolding entry_failure
  entry_failure-IsEntry axis seqs prev e h =
      frontier_failure-IsEntry axis seqs prev e (get_elem? axis e.frontier) refl h

  pub IsEntry-entry_failure :
      (axis : List TimelineAxis) (seqs : List ℕ) (prev : ℕ) (e : ActorTimelineEntry)
      → IsEntry axis seqs prev e
      → entry_failure is_contiguous is_blank axis seqs prev e ≡ none
  unfolding entry_failure
  IsEntry-entry_failure axis seqs prev e i =
      simp (i.found, i.own_index, i.on_time, i.forward)
        (IsCaused-cause_failure seqs e e.caused_by_seq i.caused i.reasons)
