-- ===== src/Actor/Timeline.antt =====
-- engine/actor/timeline.ts: the stream of delivered events checked against the axis of frontiers,
-- and projected into the artifact. A `seq` is a whole number from zero on, so of the test on the
-- first one only the bound of the safe integers is left.
pub mod Entries
pub mod Laws
pub mod Order
pub mod Rows
pub mod Tests
use backtester.Prelude.{
  ℕ, ◌/◌, ◌%◌, String, List, [], ◌∷◌, Option, none, some, Bool, true, false, not, ◌&&◌, any, map,
  ltb, leb, zero, suc, ◌==◌, if◌then◌else◌,
}
use backtester.Actor.Commands.{ActorCommand}
use backtester.Actor.EngineState.{ActorInputEvent}

pub data ActorCommandOutcome : Type 0 where
  applied : ActorCommandOutcome
  rejected skipped : String → ActorCommandOutcome

pub record ActorTimelineCommand : Type 0 where
  pub command : ActorCommand
  pub outcome : ActorCommandOutcome

-- The envelope's fields stand beside those of the entry.
pub record ActorTimelineEntry : Type 0 where
  pub seq : ℕ
  pub event_ts_us : ℕ
  pub subscription_id : String
  pub event : ActorInputEvent
  pub frontier : ℕ
  pub commands : List ActorTimelineCommand
  pub caused_by_seq : Option ℕ

pub record TimelineAxis : Type 0 where
  pub index : ℕ
  pub ts_us : ℕ
  pub last_committed_seq : ℕ

-- The causes of an `ActorTimelineError`, each with the seq or the frontier that it names.
pub data TimelineFailure : Type 0 where
  entries_without_axis no_entries : TimelineFailure
  first_seq_unsafe not_contiguous : TimelineFailure
  unknown_frontier wrong_time goes_back cause_not_before cause_missing no_reason lossy_time :
      ℕ → TimelineFailure
  frontier_absent watermark_differs : ℕ → TimelineFailure

abbrev pub max_safe_integer : ℕ
max_safe_integer = 9007199254740991

abbrev pub get_elem? : List TimelineAxis → ℕ → Option TimelineAxis
get_elem? [] i = none
get_elem? (f ∷ fs) zero = some f
get_elem? (f ∷ fs) (suc i) = get_elem? fs i

abbrev pub has : List ℕ → ℕ → Bool
has seqs s = any (λ t. t == s) seqs

abbrev pub seqs_of : List ActorTimelineEntry → List ℕ
seqs_of es = map (λ e. e.seq) es

-- `maxSeqPerFrontier`.
abbrev pub set_at : ℕ → ℕ → (ℕ → Option ℕ) → ℕ → Option ℕ
set_at k s m j = if k == j then some s else m j

-- The end of a loop or of a check: the first failure, or what it leaves.
pub data Walk : Type 0 where
  failed : TimelineFailure → Walk
  walked : (ℕ → Option ℕ) → Walk

-- `assertContiguous` of the engine package, and `trim`.
module _ (is_contiguous : List ℕ → ℕ → Bool) (is_blank : String → Bool) where
  abbrev pub has_reason : ActorCommandOutcome → Bool
  has_reason applied = true
  has_reason (rejected reason) = not (is_blank reason)
  has_reason (skipped reason) = not (is_blank reason)

  abbrev pub all_reasons : List ActorTimelineCommand → Bool
  all_reasons [] = true
  all_reasons (c ∷ cs) = has_reason c.outcome && all_reasons cs

  abbrev pub commands_failure : ActorTimelineEntry → Option TimelineFailure
  commands_failure e = if all_reasons e.commands then none else some (no_reason e.seq)

  abbrev pub cause_failure : List ℕ → ActorTimelineEntry → Option ℕ → Option TimelineFailure
  cause_failure seqs e none = commands_failure e
  cause_failure seqs e (some cause) =
      if leb e.seq cause
      then some (cause_not_before e.seq)
      else if not (has seqs cause)
      then some (cause_missing e.seq)
      else commands_failure e

  abbrev pub frontier_failure :
      List ℕ → ℕ → ActorTimelineEntry → Option TimelineAxis → Option TimelineFailure
  frontier_failure seqs prev_frontier e none = some (unknown_frontier e.seq)
  frontier_failure seqs prev_frontier e (some f) =
      if not (f.index == e.frontier)
      then some (unknown_frontier e.seq)
      else if not (e.event_ts_us == f.ts_us)
      then some (wrong_time e.seq)
      else if ltb e.frontier prev_frontier
      then some (goes_back e.seq)
      else cause_failure seqs e e.caused_by_seq

  unfoldable pub entry_failure :
      List TimelineAxis → List ℕ → ℕ → ActorTimelineEntry → Option TimelineFailure
  entry_failure axis seqs prev_frontier e =
      frontier_failure seqs prev_frontier e (get_elem? axis e.frontier)

  abbrev pub after_entry : Option TimelineFailure → Walk → Walk
  after_entry none rest = rest
  after_entry (some failure) rest = failed failure

  -- The loop over the stream, from the frontier of the entry before; no frontier is below 0, so the
  -- first round may start from 0 in place of -1.
  unfoldable pub walk_entries :
      List TimelineAxis → List ℕ → ℕ → (ℕ → Option ℕ) → List ActorTimelineEntry → Walk
  walk_entries axis seqs prev_frontier m [] = walked m
  walk_entries axis seqs prev_frontier m (e ∷ es) =
      after_entry (entry_failure axis seqs prev_frontier e)
        (walk_entries axis seqs e.frontier (set_at e.frontier e.seq m) es)

  abbrev pub watermark_failure : TimelineAxis → Option ℕ → Option TimelineFailure
  watermark_failure f none = some (frontier_absent f.index)
  watermark_failure f (some max_seq) =
      if f.last_committed_seq == max_seq then none else some (watermark_differs f.index)

  abbrev pub after_frontier :
      Option TimelineFailure → Option TimelineFailure → Option TimelineFailure
  after_frontier none rest = rest
  after_frontier (some failure) rest = some failure

  unfoldable pub axis_failure : (ℕ → Option ℕ) → List TimelineAxis → Option TimelineFailure
  axis_failure m [] = none
  axis_failure m (f ∷ fs) = after_frontier (watermark_failure f (m f.index)) (axis_failure m fs)

  abbrev pub after_walk : List TimelineAxis → Walk → Option TimelineFailure
  after_walk axis (failed failure) = some failure
  after_walk axis (walked m) = axis_failure m axis

  -- `none` if the stream passes.
  unfoldable pub assert_actor_timeline :
      List ActorTimelineEntry → List TimelineAxis → Option TimelineFailure
  assert_actor_timeline [] [] = none
  assert_actor_timeline (e ∷ es) [] = some entries_without_axis
  assert_actor_timeline [] (f ∷ fs) = some no_entries
  assert_actor_timeline (e ∷ es) (f ∷ fs) =
      if ltb max_safe_integer e.seq
      then some first_seq_unsafe
      else if not (is_contiguous (seqs_of (e ∷ es)) e.seq)
      then some not_contiguous
      else after_walk (f ∷ fs) (walk_entries (f ∷ fs) (seqs_of (e ∷ es)) 0 (λ k. none) (e ∷ es))

pub data ActorTimelineStatus : Type 0 where
  applied rejected skipped : ActorTimelineStatus

-- A command as the artifact has it.
pub record ActorTimelineRowCommand : Type 0 where
  pub command : ActorCommand
  pub status : ActorTimelineStatus
  pub reason : Option String

-- What `projectActorTimeline` writes for an entry.
pub record ActorTimelineRow : Type 0 where
  pub seq : ℕ
  pub bar_index : ℕ
  pub ts : ℕ
  pub subscription_id : String
  pub event : ActorInputEvent
  pub caused_by_seq : Option ℕ
  pub commands : List ActorTimelineRowCommand

pub data Projection : Type 0 where
  thrown : TimelineFailure → Projection
  projected : List ActorTimelineRow → Projection

abbrev status_of : ActorCommandOutcome → ActorTimelineStatus
status_of applied = applied
status_of (rejected reason) = rejected
status_of (skipped reason) = skipped

abbrev reason_of : ActorCommandOutcome → Option String
reason_of applied = none
reason_of (rejected reason) = some reason
reason_of (skipped reason) = some reason

abbrev pub row_command : ActorTimelineCommand → ActorTimelineRowCommand
row_command c = record {
  command = c.command;
  status = status_of c.outcome;
  reason = reason_of c.outcome;
}

abbrev pub row_of : ActorTimelineEntry → ActorTimelineRow
row_of e = record {
  seq = e.seq;
  bar_index = e.frontier;
  ts = e.event_ts_us / 1000;
  subscription_id = e.subscription_id;
  event = e.event;
  caused_by_seq = e.caused_by_seq;
  commands = map row_command e.commands;
}

abbrev pub before_rows : ActorTimelineRow → Projection → Projection
before_rows row (thrown failure) = thrown failure
before_rows row (projected rows) = projected (row ∷ rows)

unfoldable pub project_entries : List ActorTimelineEntry → Projection
project_entries [] = projected []
project_entries (e ∷ es) =
    let rest = project_entries es in
    if not (e.event_ts_us % 1000 == 0)
    then thrown (lossy_time e.seq)
    else before_rows (row_of e) rest

abbrev pub after_check : List ActorTimelineEntry → Option TimelineFailure → Projection
after_check es (some failure) = thrown failure
after_check es none = project_entries es

module _ (is_contiguous : List ℕ → ℕ → Bool) (is_blank : String → Bool) where
  unfoldable pub project_actor_timeline : List ActorTimelineEntry → List TimelineAxis → Projection
  project_actor_timeline es axis =
      after_check es (assert_actor_timeline is_contiguous is_blank es axis)
