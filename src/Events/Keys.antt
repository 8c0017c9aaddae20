-- ===== src/Events/Keys.antt =====
-- src/app/state/events.rs, the verbs of the Events tab, with the verbs of src/input/verb.rs. Of the
-- application's state it has the tab, the flag that asks for a new watch worker, what reading the
-- clipboard returns and the number of warnings posted, and whether the program has panicked.
pub mod Focus
pub mod Input
use nifi_lens.Base.{ℕ, Bool, true, false, not, Option, none, some, List, [], is_some, if◌then◌else◌}
use nifi_lens.Base.Text.{Text}
use nifi_lens.Events.{
  FilterField, EventsQueryStatus, ProvenanceQuery, WatchStatus, Parts, WatchSession, one_shot,
  watching, EventsState, watch, on_watch,
}
use nifi_lens.Events.Verbs.{CommonVerb, EventsVerb, EventsWatchVerb, ViewVerb}
use nifi_lens.Events.Watch.{
  from_query, enter_watch_mode, focus_predicate, unfocus_predicate, commit_predicate,
}
use nifi_lens.Events.Filters.{enter_filter_edit, reset_filters, new_query, raise_cap}
use nifi_lens.Events.Rows.{leave_row_nav}
use nifi_lens.Events.Query.{build_query}

-- What the tab sets of `UpdateResult`: the intent is to run the query.
pub record UpdateResult : Type 0 where
  pub redraw : Bool
  pub intent : Option ProvenanceQuery

abbrev pub redraw : Option UpdateResult
redraw = some (record { redraw = true; intent = none })

-- `UpdateResult::default()`.
abbrev pub swallowed : Option UpdateResult
swallowed = some (record { redraw = false; intent = none })

abbrev pub default_transition_buffer_cap : ℕ
default_transition_buffer_cap = 2000

abbrev pub pause_toggled : WatchStatus → WatchStatus
pause_toggled WatchStatus.tailing = WatchStatus.paused
pause_toggled WatchStatus.waiting = WatchStatus.paused
pause_toggled WatchStatus.paused = WatchStatus.waiting
pause_toggled status = status

module _ (E : Parts) where
  pub record AppState : Type 0 where
    pub events : EventsState E
    pub pending_events_watch_restart : Bool
    pub clipboard : Option Text
    pub warnings : ℕ
    pub panicked : Bool

  -- A change of the tab alone.
  abbrev pub on_events : (EventsState E → EventsState E) → AppState → AppState
  on_events f a = record a { events = f a.events }

  -- `CommitPredicate`, and Enter in the predicate's input.
  unfoldable pub commit_and_restart : AppState → AppState
  unfolding unfocus_predicate
  commit_and_restart a =
      let (s, e) = commit_predicate E a.events in
      elim e [
        | none ↦ record a { events = unfocus_predicate E s; pending_events_watch_restart = true }
        | some error ↦ record a { events = s }
      ]

  -- `now` is what `SystemTime::now` and `OffsetDateTime::now_utc` return.
  abbrev watching_for : ProvenanceQuery → EventsState E → EventsState E
  watching_for narrow s = enter_watch_mode E (from_query E narrow default_transition_buffer_cap) s

  -- `none` where `build_query` panics.
  unfoldable pub edit_predicate : ℕ → EventsState E → Option (EventsState E)
  unfolding focus_predicate enter_watch_mode from_query build_query
  edit_predicate now s =
      if is_some (watch E s) then some (focus_predicate E s) else elim (build_query E now s) [
        | none ↦ none
        | some narrow ↦ some (focus_predicate E (watching_for narrow s))
      ]

  unfoldable pub clear_buffer : EventsState E → EventsState E
  unfolding leave_row_nav
  clear_buffer s =
      let emptied : WatchSession E → WatchSession E =
        λ w. record w { buffer = []; stats = record (w.stats) { trimmed_total = 0 } } in
      record (on_watch E emptied s) { selected_row = none }

  unfoldable pub handle_watch_verb : ℕ → EventsWatchVerb → AppState → AppState × Option UpdateResult
  unfolding commit_and_restart edit_predicate clear_buffer unfocus_predicate
  handle_watch_verb now verb a = elim verb [
    | EventsWatchVerb.edit_predicate ↦ elim (edit_predicate now a.events) [
      | none ↦ (record a { panicked = true }, none)
      | some s ↦ (record a { events = s }, redraw)
    ]
    | EventsWatchVerb.commit_predicate ↦
        (if a.events.predicate_focus then commit_and_restart a else a, redraw)
    | EventsWatchVerb.unfocus_predicate ↦ (on_events (unfocus_predicate E) a, redraw)
    | EventsWatchVerb.pause ↦
        (on_events (on_watch E (λ w. record w { status = pause_toggled w.status })) a, redraw)
    | EventsWatchVerb.clear_buffer ↦ (on_events clear_buffer a, redraw)
    | EventsWatchVerb.common verb ↦ (a, redraw)
  ]

  -- The query in flight, before the worker has its id.
  unfoldable pub submitted : ℕ → EventsState E → EventsState E
  submitted now s = record s {
    status = EventsQueryStatus.running none now 0;
    events = [];
    selected_row = none;
  }

  unfoldable pub submit_query : ℕ → AppState → AppState × Option UpdateResult
  unfolding submitted build_query
  submit_query now a =
      let b = on_events (submitted now) a in
      elim (build_query E now b.events) [
        | none ↦ (record b { panicked = true }, none)
        | some query ↦ (b, some (record { redraw = true; intent = some query }))
      ]

  abbrev pub edit_field : FilterField → EventsState E → EventsState E
  edit_field field s =
      enter_filter_edit E field (if is_some s.selected_row then leave_row_nav E s else s)

  unfoldable pub handle_events_verb : ℕ → EventsVerb → AppState → AppState × Option UpdateResult
  unfolding submit_query enter_filter_edit leave_row_nav
  handle_events_verb now verb a = elim verb [
    | EventsVerb.edit_field field ↦ (on_events (edit_field field) a, redraw)
    | EventsVerb.new_query ↦ (on_events (new_query E) a, redraw)
    | EventsVerb.reset ↦ (on_events (reset_filters E) a, redraw)
    | EventsVerb.raise_cap ↦ (on_events (raise_cap E) a, redraw)
    | EventsVerb.common CommonVerb.refresh ↦ submit_query now a
    | EventsVerb.common CommonVerb.copy ↦ (a, redraw)
    | EventsVerb.common CommonVerb.open_search ↦ (a, redraw)
    | EventsVerb.common CommonVerb.search_next ↦ (a, redraw)
    | EventsVerb.common CommonVerb.search_prev ↦ (a, redraw)
    | EventsVerb.common CommonVerb.close ↦ (a, redraw)
  ]

  unfoldable pub handle_verb : ℕ → ViewVerb → AppState → AppState × Option UpdateResult
  unfolding handle_events_verb handle_watch_verb
  handle_verb now verb a = if a.events.exit_watch_pending then (a, swallowed) else elim verb [
    | ViewVerb.events v ↦ handle_events_verb now v a
    | ViewVerb.events_watch v ↦ handle_watch_verb now v a
    | ViewVerb.other ↦ (a, none)
  ]
