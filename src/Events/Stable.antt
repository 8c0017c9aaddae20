-- ===== src/Events/Stable.antt =====
-- A property of the tab's state that every change keeps is kept by every sequence of inputs.
pub mod Typed
use nifi_lens.Base.{
  ℕ, zero, suc, ◌-◌, ◌≡◌, refl, Bool, true, false, Option, none, some, List, [], ◌∷◌, All, is_some,
  if-keeps, if-keeps_test, Option-cases, inl, inr, arith,
}
use nifi_lens.Base.Text.{Text}
use nifi_lens.Events.{FilterField, Parts, WatchSession, EventsState, EventsPayload, watch, on_watch}
use nifi_lens.Events.Verbs.{
  ViewVerb, EventsVerb, EventsWatchVerb, CommonVerb, FocusAction, KeyEvent,
}
use nifi_lens.Events.Watch.{
  is_first, unfocus_predicate, push_predicate_char, pop_predicate_char, commit_predicate,
  confirm_exit_watch, cancel_exit_watch,
}
use nifi_lens.Events.Filters.{
  commit_filter_edit, enter_filter_edit, push_filter_char, pop_filter_char, cancel_filter_edit,
  reset_filters, new_query, raise_cap,
}
use nifi_lens.Events.Rows.{
  current_row_count, enter_row_nav, leave_row_nav, move_selection_down, move_selection_up,
}
use nifi_lens.Events.Query.{build_query}
use nifi_lens.Events.Payload.{apply_payload}
use nifi_lens.Events.Keys.{
  UpdateResult, pause_toggled, AppState, commit_and_restart, edit_predicate, clear_buffer,
  handle_watch_verb, submitted, submit_query, handle_events_verb, handle_verb,
}
use nifi_lens.Events.Keys.Focus.{
  is_row, page_up, page_down, focus_edit, focus_rows, focus_bar, handle_focus,
}
use nifi_lens.Events.Keys.Input.{
  each_char, paste, is_other, handle_filter_edit, handle_predicate_edit, handle_exit_watch_confirm,
  handle_text_input,
}
use nifi_lens.Events.Run.{Input, verb, focus, key, payload, step, run}

abbrev pub Keeps {ℓ} : {A : Type ℓ} → (A → Type 0) → (A → A) → Type ℓ
Keeps {A = A} P f = (s : A) → P s → P (f s)

-- Each change keeps the property; the `w` key, which may enter the watch mode, if `entering`.
pub record Stable {E : Parts} (entering : Bool) (P : EventsState E → Type 0) : Type 0 where
  pub edit_predicate :
      entering ≡ true
      → (now : ℕ) (s u : EventsState E) → edit_predicate E now s ≡ some u
      → P s
      → P u
  pub pause : Keeps P (on_watch E (λ w. record w { status = pause_toggled w.status }))
  pub clear_buffer : Keeps P (clear_buffer E)
  pub commit_predicate : (s : EventsState E) → P s → P (commit_predicate E s).0
  pub unfocus_predicate : Keeps P (unfocus_predicate E)
  pub push_predicate_char : (ch : ℕ) → Keeps P (push_predicate_char E ch)
  pub pop_predicate_char : Keeps P (pop_predicate_char E)
  pub confirm_exit_watch :
      (s : EventsState E) → s.exit_watch_pending ≡ true → P s → P (confirm_exit_watch E s)
  pub cancel_exit_watch :
      (s : EventsState E) → s.exit_watch_pending ≡ true → P s → P (cancel_exit_watch E s)
  pub enter_filter_edit : (field : FilterField) → Keeps P (enter_filter_edit E field)
  pub commit_filter_edit : Keeps P (commit_filter_edit E)
  pub cancel_filter_edit : Keeps P (cancel_filter_edit E)
  pub push_filter_char : (ch : ℕ) → Keeps P (push_filter_char E ch)
  pub pop_filter_char : Keeps P (pop_filter_char E)
  pub new_query : Keeps P (new_query E)
  pub reset_filters : Keeps P (reset_filters E)
  pub raise_cap : Keeps P (raise_cap E)
  pub submitted : (now : ℕ) → Keeps P (submitted E now)
  pub enter_row_nav : Keeps P (enter_row_nav E)
  pub leave_row_nav : Keeps P (leave_row_nav E)
  pub move_selection_down : Keeps P (move_selection_down E)
  pub move_selection_up : Keeps P (move_selection_up E)
  pub apply_payload : (now : ℕ) (p : EventsPayload E) → Keeps P (apply_payload E now p)

-- Whether the verb is the one that enters the watch mode.
abbrev pub enters : ViewVerb → Bool
enters (ViewVerb.events_watch EventsWatchVerb.edit_predicate) = true
enters v = false

-- Of a handler's result.
abbrev pub Handles :
    {E : Parts} → (EventsState E → Type 0) → AppState E × Option UpdateResult → Type 0
Handles P r = P r.0.events

module _ (E : Parts) (entering : Bool) (P : EventsState E → Type 0) (p : Stable entering P) where
  pub commit_and_restart-stable : (a : AppState E) → P a.events → P (commit_and_restart E a).events
  unfolding commit_and_restart
  commit_and_restart-stable a h = elim (Option-cases (commit_predicate E a.events).1) [
    | inl e ↦ rw (e, commit_and_restart) (p.unfocus_predicate _ (p.commit_predicate a.events h))
    | inr (error, e) ↦ rw (e, commit_and_restart) (p.commit_predicate a.events h)
  ]

  handle_watch_verb-stable :
      (now : ℕ) (v : EventsWatchVerb) (a : AppState E)
      → (enters (ViewVerb.events_watch v) ≡ true → entering ≡ true)
      → P a.events
      → Handles P (handle_watch_verb E now v a)
  unfolding handle_watch_verb
  handle_watch_verb-stable now EventsWatchVerb.edit_predicate a e h =
      elim (Option-cases (edit_predicate E now a.events)) [
        | inl stops ↦ rw (stops, handle_watch_verb) h
        | inr (s, f) ↦ rw (f, handle_watch_verb) (p.edit_predicate (e refl) now a.events s f h)
      ]
  handle_watch_verb-stable now EventsWatchVerb.commit_predicate a e h =
      if-keeps (λ (t : AppState E). P t.events) a.events.predicate_focus
        (commit_and_restart-stable a h) h
  handle_watch_verb-stable now EventsWatchVerb.unfocus_predicate a e h =
      p.unfocus_predicate a.events h
  handle_watch_verb-stable now EventsWatchVerb.pause a e h = p.pause a.events h
  handle_watch_verb-stable now EventsWatchVerb.clear_buffer a e h = p.clear_buffer a.events h
  handle_watch_verb-stable now (EventsWatchVerb.common v) a e h = h

  submit_query-stable : (now : ℕ) (a : AppState E) → P a.events → Handles P (submit_query E now a)
  unfolding submit_query
  submit_query-stable now a h = elim (Option-cases (build_query E now (submitted E now a.events))) [
    | inl e ↦ rw (e, submit_query) (p.submitted now a.events h)
    | inr (query, e) ↦ rw (e, submit_query) (p.submitted now a.events h)
  ]

  handle_events_verb-stable :
      (now : ℕ) (v : EventsVerb) (a : AppState E)
      → P a.events
      → Handles P (handle_events_verb E now v a)
  unfolding handle_events_verb
  handle_events_verb-stable now (EventsVerb.edit_field f) a h =
      p.enter_filter_edit f _
        (if-keeps P (is_some a.events.selected_row) (p.leave_row_nav a.events h) h)
  handle_events_verb-stable now EventsVerb.new_query a h = p.new_query a.events h
  handle_events_verb-stable now EventsVerb.reset a h = p.reset_filters a.events h
  handle_events_verb-stable now EventsVerb.raise_cap a h = p.raise_cap a.events h
  handle_events_verb-stable now (EventsVerb.common CommonVerb.refresh) a h =
      submit_query-stable now a h
  handle_events_verb-stable now (EventsVerb.common CommonVerb.copy) a h = h
  handle_events_verb-stable now (EventsVerb.common CommonVerb.open_search) a h = h
  handle_events_verb-stable now (EventsVerb.common CommonVerb.search_next) a h = h
  handle_events_verb-stable now (EventsVerb.common CommonVerb.search_prev) a h = h
  handle_events_verb-stable now (EventsVerb.common CommonVerb.close) a h = h

  pub handle_verb-stable :
      (now : ℕ) (v : ViewVerb) (a : AppState E)
      → (enters v ≡ true → entering ≡ true)
      → P a.events
      → Handles P (handle_verb E now v a)
  unfolding handle_verb
  handle_verb-stable now (ViewVerb.events v) a e h =
      if-keeps (Handles P) a.events.exit_watch_pending h (handle_events_verb-stable now v a h)
  handle_verb-stable now (ViewVerb.events_watch v) a e h =
      if-keeps (Handles P) a.events.exit_watch_pending h (handle_watch_verb-stable now v a e h)
  handle_verb-stable now ViewVerb.other a e h = if-keeps (Handles P) a.events.exit_watch_pending h h

  page_up-stable : (rounds : ℕ) → Keeps P (page_up E rounds)
  unfolding page_up
  page_up-stable zero s h = h
  page_up-stable (suc rounds) s h =
      if-keeps P (is_first s.selected_row) h (page_up-stable rounds _ (p.move_selection_up s h))

  page_down-stable : (rounds : ℕ) → Keeps P (page_down E rounds)
  unfolding page_down
  page_down-stable zero s h = h
  page_down-stable (suc rounds) s h =
      if-keeps P (is_row (current_row_count E s - 1) s.selected_row) h
        (page_down-stable rounds _ (p.move_selection_down s h))

  focus_edit-stable :
      (action : FocusAction) (a : AppState E) → P a.events → Handles P (focus_edit E action a)
  unfolding focus_edit
  focus_edit-stable FocusAction.descend a h = p.commit_filter_edit a.events h
  focus_edit-stable FocusAction.ascend a h = p.cancel_filter_edit a.events h
  focus_edit-stable _ a h = h

  focus_rows-stable :
      (action : FocusAction) (a : AppState E) → P a.events → Handles P (focus_rows E action a)
  unfolding focus_rows
  focus_rows-stable FocusAction.up a h =
      if-keeps P (is_first a.events.selected_row) (p.leave_row_nav a.events h)
        (p.move_selection_up a.events h)
  focus_rows-stable FocusAction.down a h = p.move_selection_down a.events h
  focus_rows-stable FocusAction.ascend a h = p.leave_row_nav a.events h
  focus_rows-stable FocusAction.page_up a h = page_up-stable 10 a.events h
  focus_rows-stable FocusAction.page_down a h = page_down-stable 10 a.events h
  focus_rows-stable FocusAction.next_pane a h = p.leave_row_nav a.events h
  focus_rows-stable FocusAction.prev_pane a h = p.leave_row_nav a.events h
  focus_rows-stable _ a h = h

  focus_bar-stable :
      (now : ℕ) (action : FocusAction) (a : AppState E)
      → P a.events
      → Handles P (focus_bar E now action a)
  unfolding focus_bar
  focus_bar-stable now FocusAction.down a h = p.enter_row_nav a.events h
  focus_bar-stable now FocusAction.next_pane a h = p.enter_row_nav a.events h
  focus_bar-stable now FocusAction.descend a h =
      if-keeps (Handles P) (is_some (watch E a.events)) h (submit_query-stable now a h)
  focus_bar-stable now _ a h = h

  pub handle_focus-stable :
      (now : ℕ) (action : FocusAction) (a : AppState E)
      → P a.events
      → Handles P (handle_focus E now action a)
  unfolding handle_focus
  handle_focus-stable now action a h = if-keeps (Handles P) a.events.exit_watch_pending h (
      if-keeps (Handles P) (is_some a.events.filter_edit) (focus_edit-stable action a h) (
        if-keeps (Handles P) (is_some a.events.selected_row) (focus_rows-stable action a h)
          (focus_bar-stable now action a h)))
