-- ===== src/Tests/Keys.antt =====
-- The Events tab at concrete inputs.
use nifi_lens.Base.{
  ℕ, ℤ, pos, ◌/◌, ◌%◌, ◌^◌, ◌+◌, ◌-◌, min, ◌≡◌, refl, true, false, Option, none, some, List, [],
  ◌∷◌, ◌++◌, length, is_empty, usize_max, if◌then◌else◌, ltb, leb, negsuc, ◌*◌, arith,
}
use nifi_lens.Base.Text.{
  Text, codes, text_eq, as_bytes, is_whitespace, strip_prefix, trim, trim_start,
}
use nifi_lens.Base.Window.{keep_last}
use nifi_lens.Predicate.{
  Op, ClauseLiteral, plain, regex, Clause, Predicate, parse, skip_ws, parse_loop, parse_clause,
  parse_attr, parse_op, parse_literal, parse_regex_literal, delimited, compiled, consume_keyword,
  parse_plain, parse_bare,
}
use nifi_lens.Events.{
  FilterField, get, set, EventsQueryStatus, ProvenanceEventSummary, MatchedEvent, WatchStatus,
  Parts, WatchSession, watching, EventsState, watch, new, EventsPayload, query_started,
  query_progress, query_done, query_failed, watch_match,
}
use nifi_lens.Events.Filters.{enter_filter_edit}
use nifi_lens.Events.Payload.{apply_payload}
use nifi_lens.Events.Verbs.{ViewVerb, EventsVerb, FocusAction, KeyCode, KeyEvent}
use nifi_lens.Events.Query.{overflow, checked, parse_time_window}
use nifi_lens.Events.Keys.{AppState, on_events, commit_and_restart}
use nifi_lens.Events.Watch.{
  push_predicate_char, commit_predicate, commit_session, unfocus_predicate, handle_watch_payload,
  push_event,
}
use nifi_lens.Events.Run.{Input, verb, focus, key, payload, step, run}
use nifi_lens.Events.Stale.{passes, apply_payloads, query_comes_to_end}
use nifi_lens.Events.Buffer.{matched, watch_keeps_last}
use nifi_lens.Events.Shift.{row, match_shifts_rows}
use nifi_lens.Events.Stable.Typed.{permits}
use nifi_lens.Events.Rows.{current_row_count}
use nifi_lens.Predicate.Paired.{AllPaired}
use nifi_lens.Events.Keys.Input.{meaning, predicate_key, handle_predicate_edit, handle_text_input}
use nifi_lens.Events.Kept.{IsKept, run-IsKept}
use nifi_lens.Events.Sound.{IsSound, run-IsSound}
use nifi_lens.Events.Edited.{typed_text, plain_key, press, press_all}
use nifi_lens.Events.Typing.{filter_typing_round}
use nifi_lens.Events.Commit.{Committed, enter_predicate}
use nifi_lens.Events.Paired.{HasPaired, run-HasPaired}
use nifi_lens.Events.Window.{amount, value, parse_time_window-amount}
use nifi_lens.Tests.Watch.{literal_patterns}

-- So many units of `seconds` each, in an `i64` of seconds.
abbrev in_seconds : ℕ → ℤ → Option ℤ
in_seconds seconds (pos n) = if ltb (n * seconds) (2 ^ 63) then some (pos (n * seconds)) else none
in_seconds seconds (negsuc n) =
    if leb ((n + 1) * seconds) (2 ^ 63) then some (negsuc ((n + 1) * seconds - 1)) else none

-- Durations in seconds, and no start date.
abbrev parts : Parts
parts = record {
  patterns = literal_patterns;
  F32 = ℕ;
  zero_f32 = 0;
  Duration = ℤ;
  minutes = in_seconds 60;
  hours = in_seconds 3600;
  days = in_seconds 86400;
  start_date = λ now d. none;
}

-- The clipboard takes what is copied.
abbrev copied : Text → Option Text → Option Text
copied text before = some text

abbrev event : ℕ → ProvenanceEventSummary
event id = record {
  event_id = pos id;
  event_time_iso = [];
  event_type = codes "DROP";
  component_id = [];
  component_name = [];
  component_type = [];
  group_id = [];
  flow_file_uuid = [];
  relationship = none;
  details = none;
}

abbrev others : List (ℕ × EventsPayload parts)
others =
    (2, query_progress (codes "q") 50)
    ∷ (3, watch_match (event 7) [])
    ∷ (4, query_failed (some (codes "old")) [])
    ∷ []

query_comes_to_end_example :
    let waiting =
      apply_payloads parts others (apply_payload parts 1 (query_started (codes "q")) (new parts)) in
    let shown =
      apply_payload parts 9 (query_done (codes "q") (event 1 ∷ []) 5000001 false) waiting in
    let broken = apply_payload parts 9 (query_failed (some (codes "q")) (codes "lost")) waiting in
    (shown.status ≡ EventsQueryStatus.done 5000001 false ((5000001 - 1) / 1000000 % 2 ^ 64))
    × (shown.events ≡ event 1 ∷ [])
    × (shown.selected_row ≡ none)
    × (broken.status ≡ EventsQueryStatus.failed (codes "lost"))
    × (broken.events ≡ [])
unfolding passes text_eq
query_comes_to_end_example =
    query_comes_to_end parts (codes "q") 1 9 others (new parts) (event 1 ∷ []) 5000001 false
      (codes "lost") (refl, (refl, (refl, tt)))

abbrev shown_match : ℕ → MatchedEvent
shown_match id = record { summary = event id; attrs = [] }

-- A watch with room for four events.
abbrev session : WatchSession parts
session = record {
  narrow = record {
    component_id = some (codes "p");
    flow_file_uuid = none;
    event_types = [];
    start_time_iso = none;
    end_time_iso = none;
    max_results = 1000;
  };
  predicate = [];
  predicate_input = codes "a = b";
  buffer = shown_match 1 ∷ shown_match 2 ∷ shown_match 3 ∷ shown_match 4 ∷ [];
  buffer_cap = 4;
  cursor = none;
  status = WatchStatus.tailing;
  stats = record {
    events_per_sec_ewma = 0;
    last_poll_latency = none;
    trimmed_total = 0;
    detail_fetch_errors = 0;
  };
  last_parse_error = none;
}

abbrev watched : EventsState parts
watched = record (new parts) { mode = watching session; selected_row = some 1 }

watch_keeps_last_example :
    let arrived = session.buffer ++ matched parts others in
    (v : WatchSession parts) × ((apply_payloads parts others watched).mode ≡ watching v)
    × (v.buffer ≡ keep_last 4 arrived)
    × (v.stats.trimmed_total ≡ min (0 + (length arrived - 4)) usize_max)
watch_keeps_last_example =
    watch_keeps_last parts others session watched refl refl (omega arith) (omega arith)
      (omega arith)

match_shifts_rows_example :
    let after = apply_payload parts 1 (watch_match (event 9) []) watched in
    (after.selected_row ≡ some 1)
    × (row parts 0 after ≡ some (event 9))
    × (row parts (1 + 1) after ≡ row parts 1 watched)
match_shifts_rows_example =
    match_shifts_rows parts 1 (event 9) [] 1 session watched refl (omega arith) (omega arith)
      (omega arith) (omega arith)

abbrev app : EventsState parts → AppState parts
app s = record {
  events = s;
  pending_events_watch_restart = false;
  clipboard = some (codes "xy");
  warnings = 0;
  panicked = false;
}

abbrev inputs : List (ℕ × Input parts copied)
inputs =
    (1, focus FocusAction.down)
    ∷ (2, verb (ViewVerb.events EventsVerb.new_query))
    ∷ (3, key (plain_key KeyCode.esc))
    ∷ (4, payload (watch_match (event 7) []))
    ∷ []

run-IsKept_example : IsKept (run parts copied inputs (app watched)).events
run-IsKept_example =
    run-IsKept parts copied inputs (app watched) (record { watches = refl; quiet = refl })

run-IsSound_example : IsSound (run parts copied inputs (app watched)).events
unfolding permits current_row_count
run-IsSound_example =
    run-IsSound parts copied inputs (app watched) (refl, (refl, (refl, (refl, tt))))
      (record { row = refl; cap = refl; edit = refl; quiet = refl })

abbrev clause : Op → Text → ClauseLiteral literal_patterns → Clause literal_patterns
clause op attribute literal = record { attribute = attribute; op = op; literal = literal }

-- A predicate with a regular expression is on, and another one is typed.
abbrev retyped : WatchSession parts
retyped = record session {
  predicate = clause Op.regex_match (codes "x") (regex (codes "y")) ∷ [];
  predicate_input = codes "a =~ /b/ AND c = ";
}

abbrev retyping : AppState parts
retyping =
    app
      (record (new parts) { mode = watching retyped; predicate_focus = true; selected_row = none })

-- The last character, and Enter.
abbrev commit_keys : List (ℕ × Input parts copied)
commit_keys =
    (1, key (plain_key (KeyCode.char b'd')))
    ∷ (2, key (plain_key KeyCode.enter))
    ∷ (3, payload (watch_match (event 7) []))
    ∷ []

abbrev predicate_of : EventsState parts → Predicate literal_patterns
predicate_of s = elim (watch parts s) [ none ↦ [] | some w ↦ w.predicate ]

predicate_on :
    predicate_of (run parts copied commit_keys retyping).events
    ≡ clause Op.regex_match (codes "a") (regex (codes "b"))
      ∷ clause Op.eq (codes "c") (plain (codes "d"))
      ∷ []
unfolding run step handle_text_input handle_predicate_edit predicate_key meaning push_predicate_char
    commit_and_restart commit_predicate commit_session unfocus_predicate apply_payload
    handle_watch_payload push_event parse skip_ws as_bytes parse_loop parse_clause parse_attr
    parse_op parse_literal parse_regex_literal delimited compiled consume_keyword parse_plain
    parse_bare
predicate_on = refl

run-HasPaired_example : HasPaired parts (run parts copied commit_keys retyping).events
unfolding AllPaired
run-HasPaired_example = run-HasPaired parts copied commit_keys retyping (refl, tt)

overflows : parse_time_window parts (codes "last 9000000000000000000d") ≡ overflow
unfolding strip_prefix is_whitespace trim trim_start parse_time_window
overflows = refl

abbrev typed_keys : List KeyEvent
typed_keys =
    plain_key (KeyCode.char b'p') ∷ plain_key (KeyCode.char b'v') ∷ plain_key KeyCode.backspace ∷ []

filter_typing_round_example :
    let a = app (new parts) in
    let before = a.events.filters in
    let text = typed_text typed_keys a.clipboard (get FilterField.source before) in
    let typed =
      press_all parts copied typed_keys
        (on_events parts (enter_filter_edit parts FilterField.source) a) in
    let back = press parts copied (plain_key KeyCode.esc) typed in
    let kept = press parts copied (plain_key KeyCode.enter) typed in
    let cut = press parts copied (plain_key (KeyCode.char b'x')) typed in
    (typed.events.filters ≡ set FilterField.source text before)
    × (typed.events.filter_edit ≡ some (FilterField.source, text))
    × (back.events.filters ≡ before)
    × (back.events.filter_edit ≡ none)
    × (kept.events.filters ≡ set FilterField.source text before)
    × (kept.events.filter_edit ≡ none)
    × (cut.events.filters ≡ before)
    × (cut.events.filter_edit ≡ none)
    × (cut.clipboard ≡ (if is_empty text then a.clipboard else copied text a.clipboard))
unfolding meaning
filter_typing_round_example =
    filter_typing_round parts copied FilterField.source typed_keys (app (new parts)) refl refl
      (refl, (refl, (refl, tt)))

abbrev focused : AppState parts
focused = app (record watched { predicate_focus = true })

enter_predicate_example :
    Committed parts copied
      (parse literal_patterns (as_bytes (codes "a = b")))
      session
      focused
      (press parts copied (plain_key KeyCode.enter) focused)
enter_predicate_example = enter_predicate parts copied session focused refl refl refl

parse_time_window-amount_example :
    let n = pos (value 0 (codes "90")) in
    let written : ℕ → Text = λ unit_char.
      codes " " ++ ((codes "last " ++ amount (codes " ") (codes "90") unit_char) ++ codes " ") in
    (parse_time_window parts (written b'm') ≡ checked parts (in_seconds 60 n))
    × (parse_time_window parts (written b'h') ≡ checked parts (in_seconds 3600 n))
    × (parse_time_window parts (written b'd') ≡ checked parts (in_seconds 86400 n))
unfolding value is_whitespace
parse_time_window-amount_example =
    parse_time_window-amount parts (codes " ") (codes " ") (codes " ") b'9' (codes "0") (refl, tt)
      (refl, tt) (refl, tt) (refl, (refl, tt)) (omega arith)
