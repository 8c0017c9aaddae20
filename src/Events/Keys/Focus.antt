-- ===== src/Events/Keys/Focus.antt =====
-- src/app/state/events.rs, `handle_focus`, with the actions of src/input/action.rs.
use nifi_lens.Base.{
  ℕ, zero, suc, ◌-◌, Bool, false, Option, none, some, is_some, ◌==◌, if◌then◌else◌,
}
use nifi_lens.Events.{Parts, EventsState, watch}
use nifi_lens.Events.Verbs.{FocusAction}
use nifi_lens.Events.Watch.{is_first}
use nifi_lens.Events.Filters.{commit_filter_edit, cancel_filter_edit}
use nifi_lens.Events.Rows.{
  current_row_count, enter_row_nav, leave_row_nav, move_selection_down, move_selection_up,
}
use nifi_lens.Events.Keys.{UpdateResult, redraw, swallowed, AppState, on_events, submit_query}

abbrev pub is_row : ℕ → Option ℕ → Bool
is_row row none = false
is_row row (some i) = i == row

module _ (E : Parts) where
  -- The loops of `PageUp` and `PageDown`, with the rounds that are left.
  unfoldable pub page_up : ℕ → EventsState E → EventsState E
  page_up zero s = s
  page_up (suc rounds) s =
      let rest = page_up rounds (move_selection_up E s) in
      if is_first s.selected_row then s else rest

  unfoldable pub page_down : ℕ → EventsState E → EventsState E
  page_down zero s = s
  page_down (suc rounds) s =
      let rest = page_down rounds (move_selection_down E s) in
      if is_row (current_row_count E s - 1) s.selected_row then s else rest

  abbrev pub row_up : EventsState E → EventsState E
  row_up s = if is_first s.selected_row then leave_row_nav E s else move_selection_up E s

  -- A filter is edited.
  unfoldable pub focus_edit : FocusAction → AppState E → AppState E × Option UpdateResult
  unfolding commit_filter_edit cancel_filter_edit
  focus_edit FocusAction.descend a = (on_events E (commit_filter_edit E) a, redraw)
  focus_edit FocusAction.ascend a = (on_events E (cancel_filter_edit E) a, redraw)
  focus_edit action a = (a, none)

  -- Mode B: a row is selected.
  unfoldable pub focus_rows : FocusAction → AppState E → AppState E × Option UpdateResult
  unfolding page_up page_down leave_row_nav move_selection_up move_selection_down
  focus_rows FocusAction.up a = (on_events E row_up a, redraw)
  focus_rows FocusAction.down a = (on_events E (move_selection_down E) a, redraw)
  focus_rows FocusAction.ascend a = (on_events E (leave_row_nav E) a, redraw)
  focus_rows FocusAction.page_up a = (on_events E (page_up 10) a, redraw)
  focus_rows FocusAction.page_down a = (on_events E (page_down 10) a, redraw)
  focus_rows FocusAction.next_pane a = (on_events E (leave_row_nav E) a, redraw)
  focus_rows FocusAction.prev_pane a = (on_events E (leave_row_nav E) a, redraw)
  focus_rows action a = (a, none)

  -- Mode A: the filter bar.
  unfoldable pub focus_bar : ℕ → FocusAction → AppState E → AppState E × Option UpdateResult
  unfolding enter_row_nav submit_query
  focus_bar now FocusAction.down a = (on_events E (enter_row_nav E) a, redraw)
  focus_bar now FocusAction.next_pane a = (on_events E (enter_row_nav E) a, redraw)
  focus_bar now FocusAction.descend a =
      if is_some (watch E a.events) then (a, none) else submit_query E now a
  focus_bar now action a = (a, none)

  unfoldable pub handle_focus : ℕ → FocusAction → AppState E → AppState E × Option UpdateResult
  unfolding focus_edit focus_rows focus_bar
  handle_focus now action a =
      if a.events.exit_watch_pending
      then (a, swallowed)
      else if is_some a.events.filter_edit
      then focus_edit action a
      else if is_some a.events.selected_row
      then focus_rows action a
      else focus_bar now action a
