-- ===== src/Actor/Timeline/Tests.antt =====
-- A stream of three entries on two frontiers, and the theorems at it.
use backtester.Prelude.{
  ℕ, suc, String, List, [], ◌∷◌, none, some, Bool, true, ◌≡◌, ◌↔◌, refl, str_eq, ◌==◌, ◌&&◌, All,
  map, arith,
}
use backtester.Actor.Commands.{annotate, cancel}
use backtester.Actor.EngineState.{order_accepted, order_canceled}
use backtester.Actor.Timeline.{
  ActorTimelineEntry, TimelineAxis, applied, rejected, assert_actor_timeline,
  project_actor_timeline, projected, row_of, walk_entries, entry_failure, axis_failure,
  project_entries, watermark_differs,
}
use backtester.Actor.Timeline.Laws.{IsTimeline, assert_actor_timeline_iff}
use backtester.Actor.Timeline.Order.{Contiguous, IsMarked, assert_actor_timeline-IsMarked}
use backtester.Actor.Timeline.Rows.{Represents, project_actor_timeline-Represents}

abbrev contiguous : List ℕ → ℕ → Bool
contiguous [] first = true
contiguous (s ∷ ss) first = (s == first) && contiguous ss (suc first)

abbrev blank : String → Bool
blank s = str_eq s ""

contiguous_seqs : (first : ℕ) (ss : List ℕ) → contiguous ss first ≡ true → Contiguous first ss
contiguous_seqs first [] h = tt
contiguous_seqs first (s ∷ ss) h = ground (arith, contiguous_seqs (suc first) ss)

abbrev stream : List ActorTimelineEntry
stream =
    record {
      seq = 4;
      event_ts_us = 1000;
      subscription_id = "host";
      event = order_accepted "a";
      frontier = 0;
      commands = record { command = annotate "x"; outcome = applied } ∷ [];
      caused_by_seq = none;
    }
    ∷ record {
      seq = 5;
      event_ts_us = 1000;
      subscription_id = "host";
      event = order_canceled "a";
      frontier = 0;
      commands = record { command = cancel "b"; outcome = rejected "unknown" } ∷ [];
      caused_by_seq = some 4;
    }
    ∷ record {
      seq = 6;
      event_ts_us = 3000;
      subscription_id = "host";
      event = order_accepted "c";
      frontier = 1;
      commands = [];
      caused_by_seq = none;
    }
    ∷ []

abbrev axis : List TimelineAxis
axis =
    record { index = 0; ts_us = 1000; last_committed_seq = 5 }
    ∷ record { index = 1; ts_us = 3000; last_committed_seq = 6 }
    ∷ []

stream_passes : assert_actor_timeline contiguous blank stream axis ≡ none
unfolding assert_actor_timeline walk_entries entry_failure axis_failure
stream_passes = refl

assert_actor_timeline_iff_example :
    (assert_actor_timeline contiguous blank stream axis ≡ none)
    ↔ IsTimeline contiguous blank stream axis
assert_actor_timeline_iff_example = assert_actor_timeline_iff contiguous blank stream axis

assert_actor_timeline-IsMarked_example :
    All (λ f. IsMarked stream f.index f.last_committed_seq) axis
assert_actor_timeline-IsMarked_example =
    assert_actor_timeline-IsMarked contiguous blank contiguous_seqs stream axis stream_passes

stream_projected :
    project_actor_timeline contiguous blank stream axis ≡ projected (map row_of stream)
unfolding project_actor_timeline project_entries assert_actor_timeline walk_entries entry_failure
    axis_failure
stream_projected = refl

project_actor_timeline-Represents_example :
    (assert_actor_timeline contiguous blank stream axis ≡ none)
    × Represents (map row_of stream) stream
project_actor_timeline-Represents_example =
    project_actor_timeline-Represents contiguous blank stream axis (map row_of stream)
      stream_projected

-- A mark behind the last delivered entry is refused.
abbrev late_axis : List TimelineAxis
late_axis =
    record { index = 0; ts_us = 1000; last_committed_seq = 4 }
    ∷ record { index = 1; ts_us = 3000; last_committed_seq = 6 }
    ∷ []

late_refused : assert_actor_timeline contiguous blank stream late_axis ≡ some (watermark_differs 0)
unfolding assert_actor_timeline walk_entries entry_failure axis_failure
late_refused = refl
