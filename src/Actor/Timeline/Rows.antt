-- ===== src/Actor/Timeline/Rows.antt =====
-- The artifact has the entries of the stream, in milliseconds and in their order.
use backtester.Prelude.{
  ℕ, ◌*◌, ◌/◌, ◌%◌, String, List, [], ◌∷◌, Option, none, some, Bool, true, false, not, ◌≡◌, refl,
  subst, arith, map, ◌==◌, if◌then◌else◌,
}
use backtester.Actor.Timeline.{
  ActorTimelineEntry, ActorTimelineRow, TimelineAxis, TimelineFailure, assert_actor_timeline,
  Projection, thrown, projected, row_of, before_rows, project_entries, project_actor_timeline,
  lossy_time, after_check, ActorTimelineCommand, ActorTimelineRowCommand, ActorTimelineStatus,
  ActorCommandOutcome, applied, rejected, skipped, status_of, reason_of, row_command,
}

-- The outcome that a command of the artifact stands for: a reason is there exactly if it is not
-- applied.
abbrev pub read_outcome : ActorTimelineStatus → Option String → Option ActorCommandOutcome
read_outcome applied none = some applied
read_outcome rejected (some reason) = some (rejected reason)
read_outcome skipped (some reason) = some (skipped reason)
read_outcome _ _ = none

-- Commands with the ones they stand for, in order.
abbrev pub SameCommands : List ActorTimelineRowCommand → List ActorTimelineCommand → Type 0
SameCommands [] [] = Unit
SameCommands [] (c ∷ cs) = ⊥
SameCommands (r ∷ rs) [] = ⊥
SameCommands (r ∷ rs) (c ∷ cs) =
    (r.command ≡ c.command) × (read_outcome r.status r.reason ≡ some c.outcome) × SameCommands rs cs

-- A row with the entry that it stands for: its frontier is the bar, and its time, in milliseconds,
-- is the entry's in full.
pub record RepresentsEntry (r : ActorTimelineRow) (e : ActorTimelineEntry) : Type 0 where
  pub seq : r.seq ≡ e.seq
  pub bar : r.bar_index ≡ e.frontier
  pub time : r.ts * 1000 ≡ e.event_ts_us
  pub subscription : r.subscription_id ≡ e.subscription_id
  pub event : r.event ≡ e.event
  pub cause : r.caused_by_seq ≡ e.caused_by_seq
  pub commands : SameCommands r.commands e.commands

abbrev pub Represents : List ActorTimelineRow → List ActorTimelineEntry → Type 0
Represents [] [] = Unit
Represents [] (e ∷ es) = ⊥
Represents (r ∷ rs) [] = ⊥
Represents (r ∷ rs) (e ∷ es) = RepresentsEntry r e × Represents rs es

read_outcome-row_command :
    (o : ActorCommandOutcome) → read_outcome (status_of o) (reason_of o) ≡ some o
read_outcome-row_command applied = refl
read_outcome-row_command (rejected reason) = refl
read_outcome-row_command (skipped reason) = refl

SameCommands-map : (cs : List ActorTimelineCommand) → SameCommands (map row_command cs) cs
SameCommands-map [] = tt
SameCommands-map (c ∷ cs) = (refl, read_outcome-row_command c.outcome, SameCommands-map cs)

row_of-RepresentsEntry :
    (e : ActorTimelineEntry)
    → (e.event_ts_us / 1000) * 1000 ≡ e.event_ts_us
    → RepresentsEntry (row_of e) e
row_of-RepresentsEntry e time = record {
  seq = refl;
  bar = refl;
  time = time;
  subscription = refl;
  event = refl;
  cause = refl;
  commands = SameCommands-map e.commands;
}

exact : (n : ℕ) → (n % 1000 == 0) ≡ true → (n / 1000) * 1000 ≡ n
exact n h = ground arith

converted :
    (b : Bool) (s : ℕ) (next : Projection) (rows : List ActorTimelineRow)
    → (if not b then thrown (lossy_time s) else next) ≡ projected rows
    → (b ≡ true) × (next ≡ projected rows)
converted true s next rows h = (refl, h)
converted false s next rows h = absurd (cc)

longer :
    (row : ActorTimelineRow) (rest : Projection) (rows : List ActorTimelineRow)
    → before_rows row rest ≡ projected rows
    → (rs : List ActorTimelineRow) × (rest ≡ projected rs) × (row ∷ rs ≡ rows)
longer row (thrown failure) rows h = absurd (cc)
longer row (projected rs) rows h = (rs, refl, cc)

no_rows : (rows : List ActorTimelineRow) → projected [] ≡ projected rows → [] ≡ rows
no_rows rows h = cc

project_entries-Represents :
    (es : List ActorTimelineEntry) (rows : List ActorTimelineRow)
    → project_entries es ≡ projected rows
    → Represents rows es
unfolding project_entries
project_entries-Represents [] rows h = subst (λ rs. Represents rs []) (no_rows rows h) tt
project_entries-Represents (e ∷ es) rows h =
    let whole = converted (e.event_ts_us % 1000 == 0) _ _ rows h in
    let split = longer (row_of e) (project_entries es) rows whole.1 in
    subst (λ rs. Represents rs (e ∷ es)) split.2
      (
        row_of-RepresentsEntry e (exact e.event_ts_us whole.0),
        project_entries-Represents es split.0 split.1,
      )

module _ (is_contiguous : List ℕ → ℕ → Bool) (is_blank : String → Bool) where
  -- A timeline is projected only if it passes the check; the rows are those of its entries, in
  -- order: each has its entry's seq, event, subscription and cause, its frontier as the bar, its
  -- time in milliseconds without loss, and its commands with status and reason, in order.
  pub project_actor_timeline-Represents :
      (es : List ActorTimelineEntry) (axis : List TimelineAxis) (rows : List ActorTimelineRow)
      → project_actor_timeline is_contiguous is_blank es axis ≡ projected rows
      → (assert_actor_timeline is_contiguous is_blank es axis ≡ none) × Represents rows es
  unfolding project_actor_timeline
  project_actor_timeline-Represents es axis rows h =
      checked_first (assert_actor_timeline is_contiguous is_blank es axis) h
    where
      checked_first :
          (o : Option TimelineFailure)
          → after_check es o ≡ projected rows
          → (o ≡ none) × Represents rows es
      checked_first none k = (refl, project_entries-Represents es rows k)
      checked_first (some failure) k = absurd (cc)
