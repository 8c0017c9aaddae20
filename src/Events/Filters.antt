-- ===== src/Events/Filters.antt =====
-- src/view/events/state.rs, the editing of the filters and the query's start over.
use nifi_lens.Base.{ℕ, ltb, Option, none, some, [], ◌∷◌, ◌++◌, is_some, if◌then◌else◌}
use nifi_lens.Base.Text.{Text, pop_char, or_empty}
use nifi_lens.Events.{
  FilterField, get, set, default_filters, EventsQueryStatus, default_result_cap,
  expanded_result_cap, Parts, EventsState,
}

module _ (E : Parts) where
  unfoldable pub clear_failed_status : EventsState E → EventsState E
  clear_failed_status s = elim (s.status) [
    | EventsQueryStatus.failed error ↦ record s { status = EventsQueryStatus.idle }
    | EventsQueryStatus.idle ↦ s
    | EventsQueryStatus.running query_id submitted_at percent ↦ s
    | EventsQueryStatus.done fetched_at truncated took_ms ↦ s
  ]

  unfoldable pub commit_filter_edit : EventsState E → EventsState E
  commit_filter_edit s = record s { filter_edit = none; pre_edit_value = none }

  abbrev pub start_edit : FilterField → EventsState E → EventsState E
  start_edit field s = record s {
    pre_edit_value = some (get field s.filters);
    filter_edit = some (field, get field s.filters);
  }

  unfoldable pub enter_filter_edit : FilterField → EventsState E → EventsState E
  unfolding get commit_filter_edit
  enter_filter_edit field s =
      start_edit field (if is_some s.filter_edit then commit_filter_edit s else s)

  -- The field and the buffer with another text in both.
  abbrev pub with_buffer : (Text → Text) → EventsState E → EventsState E
  with_buffer f s = elim (s.filter_edit) [
    | none ↦ s
    | some (field, buf) ↦ record s {
      filter_edit = some (field, f buf);
      filters = set field (f buf) s.filters;
    }
  ]

  unfoldable pub push_filter_char : ℕ → EventsState E → EventsState E
  unfolding set
  push_filter_char ch = with_buffer (λ buf. buf ++ ch ∷ [])

  unfoldable pub pop_filter_char : EventsState E → EventsState E
  unfolding set
  pop_filter_char = with_buffer pop_char

  abbrev pub current_filter_value : EventsState E → Option Text
  current_filter_value s = elim (s.filter_edit) [ none ↦ none | some (field, buf) ↦ some buf ]

  unfoldable pub cancel_filter_edit : EventsState E → EventsState E
  unfolding set
  cancel_filter_edit s = elim (s.filter_edit) [
    | none ↦ s
    | some (field, buf) ↦ record s {
      filter_edit = none;
      pre_edit_value = none;
      filters = set field (or_empty s.pre_edit_value) s.filters;
    }
  ]

  unfoldable pub reset_filters : EventsState E → EventsState E
  reset_filters s = record s { filters = default_filters }

  unfoldable pub new_query : EventsState E → EventsState E
  new_query s = record s {
    filters = default_filters;
    events = [];
    selected_row = none;
    status = EventsQueryStatus.idle;
    cap = default_result_cap;
    filter_edit = none;
    pre_edit_value = none;
  }

  unfoldable pub raise_cap : EventsState E → EventsState E
  raise_cap s = if ltb s.cap expanded_result_cap then record s { cap = expanded_result_cap } else s
