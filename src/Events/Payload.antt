-- ===== src/Events/Payload.antt =====
-- src/view/events/state.rs, `apply_payload`.
use nifi_lens.Base.{ℕ, ◌-◌, ◌/◌, ◌%◌, ◌^◌, Bool, true, false, Option, none, some, [], if◌then◌else◌}
use nifi_lens.Base.Text.{Text, text_eq}
use nifi_lens.Events.{
  EventsQueryStatus, Parts, EventsState, EventsPayload, query_started, query_progress, query_done,
  query_failed, watch_match, watch_tick, watch_failed,
}
use nifi_lens.Events.Watch.{handle_watch_payload}

-- Whether the status is that of a query in flight with the id.
unfoldable pub is_running : Text → EventsQueryStatus → Bool
is_running query_id (EventsQueryStatus.running (some current) submitted_at percent) =
    text_eq current query_id
is_running query_id status = false

-- `matches` of the failure's arm: a failure without an id meets any query in flight.
unfoldable pub meets : Option Text → EventsQueryStatus → Bool
unfolding is_running
meets (some id) status = is_running id status
meets none (EventsQueryStatus.running current submitted_at percent) = true
meets none status = false

abbrev pub with_percent : ℕ → EventsQueryStatus → EventsQueryStatus
with_percent p (EventsQueryStatus.running current submitted_at percent) =
    EventsQueryStatus.running current submitted_at p
with_percent p status = status

-- `duration_since`, in whole milliseconds of 64 bits; 0 for a time before.
unfoldable pub took_ms : ℕ → EventsQueryStatus → ℕ
took_ms fetched_at (EventsQueryStatus.running current submitted_at percent) =
    (fetched_at - submitted_at) / 1000000 % 2 ^ 64
took_ms fetched_at status = 0

module _ (E : Parts) where
  -- `now` is what `SystemTime::now` returns.
  unfoldable pub apply_payload : ℕ → EventsPayload E → EventsState E → EventsState E
  unfolding is_running meets took_ms
  apply_payload now (query_started query_id) s = record s {
    status = EventsQueryStatus.running (some query_id) now 0;
    events = [];
    selected_row = none;
  }
  apply_payload now (query_progress query_id percent) s =
      if is_running query_id s.status
      then record s { status = with_percent percent s.status }
      else s
  apply_payload now (query_done query_id events fetched_at truncated) s =
      if is_running query_id s.status
      then record s {
        events = events;
        status = EventsQueryStatus.done fetched_at truncated (took_ms fetched_at s.status);
        selected_row = none;
      }
      else s
  apply_payload now (query_failed query_id error) s =
      if meets query_id s.status then record s { status = EventsQueryStatus.failed error } else s
  apply_payload now (watch_match summary attrs) s =
      handle_watch_payload E (watch_match summary attrs) s.selected_row s
  apply_payload now (watch_tick ewma latency scanned matched errors) s =
      handle_watch_payload E (watch_tick ewma latency scanned matched errors) s.selected_row s
  apply_payload now (watch_failed error retry_in_ms) s =
      handle_watch_payload E (watch_failed error retry_in_ms) s.selected_row s
