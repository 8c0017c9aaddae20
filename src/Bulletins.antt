-- ===== src/Bulletins.antt =====
-- src/view/bulletins/state/mod.rs: the Bulletins tab. This module has the data; the functions are
-- in the child modules. `SystemTime` is a number, `VecDeque` a list with its front first, and
-- `HashSet<String>` a list of texts.
pub mod Message
pub mod View
pub mod Selection
pub mod Filters
pub mod Detail
pub mod Redraw
pub mod Grouping
pub mod Within
pub mod Anchor
pub mod Visible
pub mod Shown
pub mod Typing
pub mod Cycling
pub mod Mirror
use nifi_lens.Base.{
  ℕ, Bool, true, false, Option, none, some, List, [], ◌∷◌, ℤ, ◌==◌, if◌then◌else◌, ◌||◌,
}
use nifi_lens.Base.Text.{Text, codes, text_eq, to_ascii_uppercase}
use nifi_lens.Scroll.{VerticalScrollState}
use nifi_lens.Search.{SearchState}

-- `BulletinSnapshot` of src/client/mod.rs.
pub record BulletinSnapshot : Type 0 where
  pub id : ℤ
  pub level : Text
  pub message : Text
  pub source_id : Text
  pub source_name : Text
  pub source_type : Text
  pub group_id : Text
  pub timestamp_iso : Text
  pub timestamp_human : Text

-- `Severity` of src/client/mod.rs.
pub data Severity : Type 0 where
  unknown info warning error : Severity

unfoldable pub parse_severity : Text → Severity
unfolding text_eq to_ascii_uppercase
parse_severity level =
    let upper = to_ascii_uppercase level in
    if text_eq upper (codes "ERROR")
    then Severity.error
    else if text_eq upper (codes "WARN") || text_eq upper (codes "WARNING")
    then Severity.warning
    else if text_eq upper (codes "INFO")
    then Severity.info
    else Severity.unknown

pub data ComponentType : Type 0 where
  processor controller_service reporting_task other : ComponentType

unfoldable pub classify : Text → ComponentType
unfolding text_eq to_ascii_uppercase
classify source_type =
    let upper = to_ascii_uppercase source_type in
    if text_eq upper (codes "PROCESSOR")
    then ComponentType.processor
    else if text_eq upper (codes "CONTROLLER_SERVICE")
    then ComponentType.controller_service
    else if text_eq upper (codes "REPORTING_TASK")
    then ComponentType.reporting_task
    else ComponentType.other

-- The discriminant, which `==` compares.
abbrev pub type_index : ComponentType → ℕ
type_index ComponentType.processor = 0
type_index ComponentType.controller_service = 1
type_index ComponentType.reporting_task = 2
type_index ComponentType.other = 3

pub record FilterState : Type 0 where
  pub show_error : Bool
  pub show_warning : Bool
  pub show_info : Bool
  pub component_type : Option ComponentType
  pub text : Text
  pub source_id : Option Text

abbrev pub default_filters : FilterState
default_filters = record {
  show_error = true;
  show_warning = true;
  show_info = true;
  component_type = none;
  text = [];
  source_id = none;
}

pub data GroupMode : Type 0 where
  source_and_message source off : GroupMode

unfoldable pub cycle : GroupMode → GroupMode
cycle GroupMode.source_and_message = GroupMode.source
cycle GroupMode.source = GroupMode.off
cycle GroupMode.off = GroupMode.source_and_message

abbrev pub mode_index : GroupMode → ℕ
mode_index GroupMode.source_and_message = 0
mode_index GroupMode.source = 1
mode_index GroupMode.off = 2

pub record GroupedRow : Type 0 where
  pub first_ring_idx : ℕ
  pub latest_ring_idx : ℕ
  pub count : ℕ

pub record SeverityCounts : Type 0 where
  pub error : ℕ
  pub warning : ℕ
  pub info : ℕ

pub record GroupDetails : Type 0 where
  pub count : ℕ
  pub first_seen_iso : Text
  pub last_seen_iso : Text
  pub source_name : Text
  pub source_id : Text
  pub source_type : Text
  pub group_id : Text
  pub stripped_message : Text
  pub raw_message : Text
  pub severity : Severity

pub record GroupKey : Type 0 where
  pub source_id : Text
  pub message_stem : Text
  pub mode : GroupMode

pub record DetailModalState : Type 0 where
  pub group_key : GroupKey
  pub details : GroupDetails
  pub scroll : VerticalScrollState
  pub search : Option SearchState

pub record BulletinsState : Type 0 where
  pub ring : List BulletinSnapshot
  pub ring_capacity : ℕ
  pub last_fetched_at : Option ℕ
  pub filters : FilterState
  pub mutes : List Text
  pub text_input : Option Text
  pub pre_input_text : Option Text
  pub selected : ℕ
  pub auto_scroll : Bool
  pub new_since_pause : ℕ
  pub group_mode : GroupMode
  pub detail_modal : Option DetailModalState

unfoldable pub with_capacity : ℕ → BulletinsState
with_capacity ring_capacity = record {
  ring = [];
  ring_capacity = ring_capacity;
  last_fetched_at = none;
  filters = default_filters;
  mutes = [];
  text_input = none;
  pre_input_text = none;
  selected = 0;
  auto_scroll = true;
  new_since_pause = 0;
  group_mode = GroupMode.source_and_message;
  detail_modal = none;
}
