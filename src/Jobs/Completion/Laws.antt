-- ===== src/Jobs/Completion/Laws.antt =====
-- What the outbox holds after a publication, and that nothing is lost from it.
use backtester.Prelude.{
  ℕ, ◌+◌, String, List, [], ◌∷◌, ◌++◌, Option, none, some, Bool, true, false, ◌≡◌, refl, ap, ◌∙◌,
  arith, inl, inr, Bool-cases, str_eq, eq_refl, truthy, if◌then◌else◌, length, length-append,
}
use mathlib.Core.List.{map}
use backtester.Jobs.Lifecycle.{is_terminal}
use backtester.Jobs.Row.{JobRow, JobEventRow}
use backtester.Jobs.Store.Queries.{
  append_event, mark_delivered, marked, mark_first, is_deliverable, list_deliverable,
}
use backtester.Jobs.Completion.{
  World, deliver, deliver_events, deliver_outbox, publish_completion, outbox_event,
  completion_event, redeliver, callback_of,
}

-- No event of the log has the id.
abbrev pub IsNewUid : String → List JobEventRow → Type 0
IsNewUid uid [] = Unit {0}
IsNewUid uid (e ∷ es) = (str_eq e.event_uid uid ≡ false) × IsNewUid uid es

mark_first-new :
    (uid : String) (ok : Bool) (es : List JobEventRow) (e : JobEventRow)
    → IsNewUid uid es
    → e.event_uid ≡ uid
    → mark_first uid ok (es ++ e ∷ []) ≡ es ++ marked ok e ∷ []
unfolding mark_first
mark_first-new uid ok [] e n h = rw (h, eq_refl uid)
mark_first-new uid ok (x ∷ xs) e (other, n) h = rw (other, mark_first-new uid ok xs e n h)

-- Publishing the completion of a terminal job with a callback adds one event at the end of the log,
-- of the type of its status, makes one post, and leaves the event delivered if the post succeeded
-- and up for another try if not, if the new event id is not in the log.
pub publish_completion-posts :
    (contract_version : String) (succeeds : ℕ → Bool) (uid : ℕ → String) (w : World) (now : ℕ)
    (job : JobRow) (url : String)
    → is_terminal job.status ≡ true
    → job.callback_url ≡ some url
    → truthy url ≡ true
    → IsNewUid (uid w.uids) w.store.events
    → let ok = succeeds (length w.posts) in
      let e = outbox_event contract_version succeeds uid job now (uid w.uids) in
      let w' = publish_completion contract_version succeeds uid w now job in
      (w'.store.events ≡ w.store.events ++ marked ok e ∷ [])
      × (w'.posts ≡ w.posts ++ (url, completion_event contract_version job now) ∷ [])
      × (is_deliverable (marked ok e).delivery_state ≡ (if ok then false else true))
      × (w'.store.jobs ≡ w.store.jobs)
unfolding publish_completion append_event mark_delivered
publish_completion-posts contract_version succeeds uid w now job url done callback named new =
    simp (done, callback, named)
      (
        mark_first-new (uid w.uids) (succeeds (length w.posts)) w.store.events _ new refl,
        refl,
        ground arith,
        refl,
      )

-- An event of the log without its delivery fields.
abbrev pub content : JobEventRow → JobEventRow
content e = record e { delivery_state = none; delivery_attempts = none }

mark_first-content :
    (uid : String) (ok : Bool) (es : List JobEventRow)
    → map content (mark_first uid ok es) ≡ map content es
unfolding mark_first
mark_first-content uid ok [] = refl
mark_first-content uid ok (e ∷ es) = elim (Bool-cases (str_eq e.event_uid uid)) [
  | inl hit ↦ rw (hit, map) refl
  | inr miss ↦ rw (miss, map) (ap (λ r. content e ∷ r) (mark_first-content uid ok es))
]

module _ (succeeds : ℕ → Bool) where
  redeliver-keeps :
      (w : World) (ev : JobEventRow) (o : Option String)
      → let (w', n) = redeliver succeeds w ev o in
        (map content w'.store.events ≡ map content w.store.events)
        × (length w'.posts ≡ length w.posts + n)
        × (w'.store.jobs ≡ w.store.jobs)
  unfolding deliver mark_delivered
  redeliver-keeps w ev none =
      (mark_first-content ev.event_uid true w.store.events, omega arith, refl)
  redeliver-keeps w ev (some url) = elim (Bool-cases (truthy url)) [
    | inl named ↦ rw named (
      mark_first-content ev.event_uid (succeeds (length w.posts)) w.store.events,
      length-append w.posts _,
      refl,
    )
    | inr blank ↦ rw blank (mark_first-content ev.event_uid true w.store.events, omega arith, refl)
  ]

  deliver_events-keeps :
      (w : World) (evs : List JobEventRow)
      → let (w', n) = deliver_events succeeds w evs in
        (map content w'.store.events ≡ map content w.store.events)
        × (length w'.posts ≡ length w.posts + n)
        × (w'.store.jobs ≡ w.store.jobs)
  unfolding deliver_events
  deliver_events-keeps w [] = (refl, omega arith, refl)
  deliver_events-keeps w (ev ∷ evs) =
      let r = redeliver succeeds w ev (callback_of succeeds w ev.run_id) in
      let (kept, made, jobs) = redeliver-keeps w ev (callback_of succeeds w ev.run_id) in
      let (kept', made', jobs') = deliver_events-keeps r.0 evs in
      (kept' ∙ kept, omega arith, jobs' ∙ jobs)

-- A retry of the outbox, whatever its limit and whichever posts fail, makes as many posts as it
-- reports, loses and adds no event of the log, alters no event but in its delivery fields, and
-- changes no job.
pub deliver_outbox-keeps :
    (succeeds : ℕ → Bool) (w : World) (limit : ℕ)
    → let (w', n) = deliver_outbox succeeds w limit in
      (map content w'.store.events ≡ map content w.store.events)
      × (length w'.posts ≡ length w.posts + n)
      × (w'.store.jobs ≡ w.store.jobs)
unfolding deliver_outbox
deliver_outbox-keeps succeeds w limit =
    deliver_events-keeps succeeds w (list_deliverable w.store limit)
