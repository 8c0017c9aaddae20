-- ===== src/Events/Watch.antt =====
-- src/view/events/state.rs and mod.rs, the functions of the watch mode.
use nifi_lens.Base.{
  ℕ, zero, suc, ◌*◌, Bool, true, false, not, ◌&&◌, ◌||◌, Option, none, some, List, [], ◌∷◌, ◌++◌,
  length, is_empty, is_some, leb, ◌==◌, saturating_add, if◌then◌else◌,
}
use nifi_lens.Base.Text.{Text, pop_char, trim, as_bytes}
use nifi_lens.Predicate.{PredicateParseError, parse, ok, err}
use nifi_lens.Events.{
  ProvenanceQuery, MatchedEvent, WatchStatus, Parts, WatchSession, one_shot, watching, EventsState,
  on_watch, EventsPayload, query_started, query_progress, query_done, query_failed, watch_match,
  watch_tick, watch_failed,
}

-- `VecDeque::remove`, which does nothing out of range.
unfoldable pub remove {ℓ} : {A : Type ℓ} → ℕ → List A → List A
remove i [] = []
remove zero (x ∷ xs) = xs
remove (suc i) (x ∷ xs) = x ∷ remove i xs

-- `focused_row == Some(0)`.
abbrev pub is_first : Option ℕ → Bool
is_first none = false
is_first (some i) = i == 0

unfoldable pub trim_idx : Option ℕ → ℕ → ℕ
trim_idx focused_row len = if is_first focused_row && leb 2 len then 1 else 0

abbrev pub is_deliberate : Option Text → Bool
is_deliberate none = false
is_deliberate (some s) = not (is_empty (trim s))

-- `now` is not read by the source.
unfoldable pub can_start : ProvenanceQuery → Bool
can_start narrow =
    is_some narrow.component_id
    || is_some narrow.flow_file_uuid
    || not (is_empty narrow.event_types)
    || is_deliberate narrow.start_time_iso

abbrev pub narrow_to : Text → ProvenanceQuery
narrow_to component_id = record {
  component_id = some component_id;
  flow_file_uuid = none;
  event_types = [];
  start_time_iso = none;
  end_time_iso = none;
  max_results = 1000;
}

module _ (E : Parts) where
  -- The session that `new_for_component` and `from_query` build.
  abbrev pub fresh : ProvenanceQuery → ℕ → WatchStatus → WatchSession E
  fresh narrow buffer_cap status = record {
    narrow = narrow;
    predicate = [];
    predicate_input = [];
    buffer = [];
    buffer_cap = buffer_cap;
    cursor = none;
    status = status;
    stats = record {
      events_per_sec_ewma = E.zero_f32;
      last_poll_latency = none;
      trimmed_total = 0;
      detail_fetch_errors = 0;
    };
    last_parse_error = none;
  }

  -- With the configured `watch_buffer_size`.
  unfoldable pub new_for_component : Text → ℕ → WatchSession E
  new_for_component component_id watch_buffer_size =
      fresh (narrow_to component_id) watch_buffer_size WatchStatus.waiting

  unfoldable pub from_query : ProvenanceQuery → ℕ → WatchSession E
  unfolding can_start
  from_query narrow buffer_cap =
      fresh narrow buffer_cap
        (if can_start narrow then WatchStatus.waiting else WatchStatus.narrow_required)

  unfoldable pub push_event : MatchedEvent → Option ℕ → WatchSession E → WatchSession E
  unfolding remove trim_idx
  push_event ev focused_row w =
      if leb w.buffer_cap (length w.buffer)
      then record w {
        buffer = remove (trim_idx focused_row (length w.buffer)) w.buffer ++ ev ∷ [];
        stats = record (w.stats) { trimmed_total = saturating_add w.stats.trimmed_total 1 };
      }
      else record w { buffer = w.buffer ++ ev ∷ [] }

  unfoldable pub enter_watch_mode : WatchSession E → EventsState E → EventsState E
  enter_watch_mode session s = record s { mode = watching session }

  unfoldable pub exit_watch_mode : EventsState E → EventsState E
  exit_watch_mode s = record s { mode = one_shot }

  unfoldable pub focus_predicate : EventsState E → EventsState E
  focus_predicate s = elim (s.mode) [
    | one_shot ↦ s
    | watching w ↦ record s { predicate_focus = true }
  ]

  unfoldable pub unfocus_predicate : EventsState E → EventsState E
  unfocus_predicate s = record s { predicate_focus = false }

  unfoldable pub push_predicate_char : ℕ → EventsState E → EventsState E
  push_predicate_char ch s =
      if s.predicate_focus
      then on_watch E (λ w. record w { predicate_input = w.predicate_input ++ ch ∷ [] }) s
      else s

  unfoldable pub pop_predicate_char : EventsState E → EventsState E
  pop_predicate_char s =
      if s.predicate_focus
      then on_watch E (λ w. record w { predicate_input = pop_char w.predicate_input }) s
      else s

  -- The session, and the error of the result if it is not `Ok`.
  unfoldable pub commit_session : WatchSession E → WatchSession E × Option PredicateParseError
  commit_session w = elim (parse E.patterns (as_bytes w.predicate_input)) [
    | ok parsed ↦ (record w { predicate = parsed; last_parse_error = none }, none)
    | err e ↦ (record w { last_parse_error = some e }, some e)
  ]

  unfoldable pub commit_predicate : EventsState E → EventsState E × Option PredicateParseError
  unfolding commit_session
  commit_predicate s = elim (s.mode) [
    | one_shot ↦ (s, none)
    | watching w ↦ (record s { mode = watching (commit_session w).0 }, (commit_session w).1)
  ]

  abbrev pub needs_confirm : EventsState E → Bool
  needs_confirm s = elim (s.mode) [ one_shot ↦ false | watching w ↦ not (is_empty w.buffer) ]

  unfoldable pub request_exit_watch : EventsState E → EventsState E × Bool
  unfolding exit_watch_mode
  request_exit_watch s =
      if needs_confirm s
      then (record s { exit_watch_pending = true }, true)
      else (record (exit_watch_mode s) { exit_watch_pending = false }, false)

  unfoldable pub confirm_exit_watch : EventsState E → EventsState E
  unfolding exit_watch_mode
  confirm_exit_watch s = exit_watch_mode (record s { exit_watch_pending = false })

  unfoldable pub cancel_exit_watch : EventsState E → EventsState E
  cancel_exit_watch s = record s { exit_watch_pending = false }

  abbrev pub promoted : WatchStatus → WatchStatus
  promoted WatchStatus.waiting = WatchStatus.tailing
  promoted status = status

  -- `Duration::from_millis`, in nanoseconds.
  abbrev pub from_millis : ℕ → ℕ
  from_millis ms = ms * 1000000

  unfoldable pub handle_watch_payload : EventsPayload E → Option ℕ → EventsState E → EventsState E
  unfolding push_event
  handle_watch_payload payload selected_row = on_watch E (λ w. elim payload [
    | watch_match summary attrs ↦
        push_event (record { summary = summary; attrs = attrs }) selected_row w
    | watch_tick ewma latency scanned matched errors ↦ record w {
      stats = record (w.stats) {
        events_per_sec_ewma = ewma;
        last_poll_latency = some (from_millis latency);
        detail_fetch_errors = errors;
      };
      status = promoted w.status;
    }
    | watch_failed error retry_in_ms ↦ record w {
      status = WatchStatus.retrying error (from_millis retry_in_ms);
    }
    | query_started query_id ↦ w
    | query_progress query_id percent ↦ w
    | query_done query_id events fetched_at truncated ↦ w
    | query_failed query_id error ↦ w
  ])

  unfoldable pub pause_watch : EventsState E → EventsState E
  pause_watch = on_watch E (λ w. record w { status = WatchStatus.paused })

  abbrev pub resumed : WatchStatus → WatchStatus
  resumed WatchStatus.paused = WatchStatus.waiting
  resumed status = status

  unfoldable pub resume_watch : EventsState E → EventsState E
  resume_watch = on_watch E (λ w. record w { status = resumed w.status })
