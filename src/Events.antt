-- ===== src/Events.antt =====
-- src/view/events/state.rs, the data of the Events tab, with the records of src/client/events.rs
-- and src/client/tracer/mod.rs that it holds. A time is a number of nanoseconds; what the tab uses
-- of the `regex` and the `time` crate, and its floating point numbers, are parameters.
pub mod Watch
pub mod Filters
pub mod Rows
pub mod Query
pub mod Payload
pub mod Verbs
pub mod Keys
pub mod Stale
pub mod Buffer
pub mod Shift
pub mod Run
pub mod Stable
pub mod Kept
pub mod Sound
pub mod Edited
pub mod Typing
pub mod Commit
pub mod Paired
pub mod Window
use nifi_lens.Base.{ℕ, ℤ, Bool, true, false, Option, none, some, List, []}
use nifi_lens.Base.Text.{Text, codes}
use nifi_lens.Predicate.{Patterns, Predicate, PredicateParseError, AttributeTriple}

abbrev pub default_result_cap : ℕ
default_result_cap = 500

abbrev pub expanded_result_cap : ℕ
expanded_result_cap = 5000

pub data FilterField : Type 0 where
  time types source uuid attr : FilterField

pub record EventsFilters : Type 0 where
  pub time : Text
  pub types : Text
  pub source : Text
  pub uuid : Text
  pub attr : Text

abbrev pub default_filters : EventsFilters
default_filters = record { time = codes "last 15m"; types = []; source = []; uuid = []; attr = [] }

unfoldable pub get : FilterField → EventsFilters → Text
get FilterField.time f = f.time
get FilterField.types f = f.types
get FilterField.source f = f.source
get FilterField.uuid f = f.uuid
get FilterField.attr f = f.attr

-- An assignment through `get_mut`.
unfoldable pub set : FilterField → Text → EventsFilters → EventsFilters
set FilterField.time t f = record f { time = t }
set FilterField.types t f = record f { types = t }
set FilterField.source t f = record f { source = t }
set FilterField.uuid t f = record f { uuid = t }
set FilterField.attr t f = record f { attr = t }

pub data EventsQueryStatus : Type 0 where
  idle : EventsQueryStatus
  -- `query_id`, `submitted_at` and `percent`.
  running : Option Text → ℕ → ℕ → EventsQueryStatus
  -- `fetched_at`, `truncated` and `took_ms`.
  done : ℕ → Bool → ℕ → EventsQueryStatus
  failed : Text → EventsQueryStatus

pub record ProvenanceEventSummary : Type 0 where
  pub event_id : ℤ
  pub event_time_iso : Text
  pub event_type : Text
  pub component_id : Text
  pub component_name : Text
  pub component_type : Text
  pub group_id : Text
  pub flow_file_uuid : Text
  pub relationship : Option Text
  pub details : Option Text

pub record ProvenanceQuery : Type 0 where
  pub component_id : Option Text
  pub flow_file_uuid : Option Text
  pub event_types : List Text
  pub start_time_iso : Option Text
  pub end_time_iso : Option Text
  pub max_results : ℕ

pub record MatchedEvent : Type 0 where
  pub summary : ProvenanceEventSummary
  pub attrs : List AttributeTriple

pub record TailCursor : Type 0 where
  pub last_event_id : ℤ
  pub last_event_time : ℕ

pub data WatchStatus : Type 0 where
  tailing paused narrow_required waiting : WatchStatus
  -- `error` and `retry_in`.
  retrying : Text → ℕ → WatchStatus

pub record Parts : Type 1 where
  pub patterns : Patterns
  -- `f32` and its 0.
  pub F32 : Type 0
  pub zero_f32 : F32
  -- `time::Duration` and its constructors, `none` where they panic on overflow.
  pub Duration : Type 0
  pub minutes : ℤ → Option Duration
  pub hours : ℤ → Option Duration
  pub days : ℤ → Option Duration
  -- `now.checked_sub(d)`, as a date of NiFi.
  pub start_date : ℕ → Duration → Option Text

module _ (E : Parts) where
  pub record WatchStats : Type 0 where
    pub events_per_sec_ewma : E.F32
    pub last_poll_latency : Option ℕ
    pub trimmed_total : ℕ
    pub detail_fetch_errors : ℕ

  pub record WatchSession : Type 0 where
    pub narrow : ProvenanceQuery
    pub predicate : Predicate E.patterns
    pub predicate_input : Text
    pub buffer : List MatchedEvent
    pub buffer_cap : ℕ
    pub cursor : Option TailCursor
    pub status : WatchStatus
    pub stats : WatchStats
    pub last_parse_error : Option PredicateParseError

  pub data EventsMode : Type 0 where
    one_shot : EventsMode
    watching : WatchSession → EventsMode

  pub record EventsState : Type 0 where
    pub filters : EventsFilters
    pub status : EventsQueryStatus
    pub events : List ProvenanceEventSummary
    pub selected_row : Option ℕ
    pub cap : ℕ
    pub filter_edit : Option (FilterField × Text)
    pub pre_edit_value : Option Text
    pub mode : EventsMode
    pub predicate_focus : Bool
    pub exit_watch_pending : Bool

  abbrev pub new : EventsState
  new = record {
    filters = default_filters;
    status = EventsQueryStatus.idle;
    events = [];
    selected_row = none;
    cap = default_result_cap;
    filter_edit = none;
    pre_edit_value = none;
    mode = one_shot;
    predicate_focus = false;
    exit_watch_pending = false;
  }

  -- `EventsState::watch`.
  abbrev pub watch : EventsState → Option WatchSession
  watch s = elim (s.mode) [ one_shot ↦ none | watching w ↦ some w ]

  -- A change through `watch_mut`.
  abbrev pub on_watch : (WatchSession → WatchSession) → EventsState → EventsState
  on_watch f s = elim (s.mode) [ one_shot ↦ s | watching w ↦ record s { mode = watching (f w) } ]

  -- `EventsPayload` of src/event.rs.
  pub data EventsPayload : Type 0 where
    query_started : Text → EventsPayload
    query_progress : Text → ℕ → EventsPayload
    -- `query_id`, `events`, `fetched_at` and `truncated`.
    query_done : Text → List ProvenanceEventSummary → ℕ → Bool → EventsPayload
    query_failed : Option Text → Text → EventsPayload
    watch_match : ProvenanceEventSummary → List AttributeTriple → EventsPayload
    -- `events_per_sec_ewma`, `last_poll_latency_ms`, `scanned`, `matched`, `detail_fetch_errors`.
    watch_tick : E.F32 → ℕ → ℕ → ℕ → ℕ → EventsPayload
    watch_failed : Text → ℕ → EventsPayload
