-- ===== src/Events/Query.antt =====
-- src/view/events/state.rs, the query that the filters stand for.
use nifi_lens.Base.{
  ℕ, zero, suc, ◌+◌, ◌-◌, ◌*◌, ◌^◌, ◌&&◌, Option, none, some, [], ◌∷◌, is_empty, leb, ◌==◌, ltb, ℤ,
  pos, negsuc, if◌then◌else◌,
}
use nifi_lens.Base.Text.{Text, codes, trim, strip_prefix}
use nifi_lens.Events.{ProvenanceQuery, Parts, EventsState}

-- The number of decimal digits behind `acc`, if all characters are digits.
unfoldable pub decimal : ℕ → Text → Option ℕ
decimal acc [] = some acc
decimal acc (c ∷ s) =
    let rest = decimal (acc * 10 + (c - b'0')) s in if leb b'0' c && leb c b'9' then rest else none

-- `decimal` of a text that is not empty.
abbrev pub magnitude : Text → Option ℕ
magnitude s = if is_empty s then none else decimal 0 s

abbrev pub positive_i64 : Option ℕ → Option ℤ
positive_i64 none = none
positive_i64 (some n) = if ltb n (2 ^ 63) then some (pos n) else none

abbrev pub negated : ℕ → ℤ
negated zero = pos 0
negated (suc n) = negsuc n

abbrev pub negative_i64 : Option ℕ → Option ℤ
negative_i64 none = none
negative_i64 (some n) = if leb n (2 ^ 63) then some (negated n) else none

-- `str::parse::<i64>`.
unfoldable pub parse_i64 : Text → Option ℤ
unfolding decimal
parse_i64 [] = none
parse_i64 (c ∷ s) =
    if c == b'-'
    then negative_i64 (magnitude s)
    else if c == b'+'
    then positive_i64 (magnitude s)
    else positive_i64 (magnitude (c ∷ s))

-- The text before the last character, and that character.
unfoldable pub split_last : Text → Option (Text × ℕ)
split_last [] = none
split_last (c ∷ s) = elim (split_last s) [
  | none ↦ some ([], c)
  | some (init, last) ↦ some (c ∷ init, last)
]

abbrev pub non_empty : Text → Option Text
non_empty s = if is_empty s then none else some s

module _ (E : Parts) where
  -- What `parse_time_window` comes to: `None`, a panic, or a duration.
  pub data TimeWindow : Type 0 where
    unread overflow : TimeWindow
    lasting : E.Duration → TimeWindow

  unfoldable pub checked : Option E.Duration → TimeWindow
  checked none = overflow
  checked (some d) = lasting d

  unfoldable pub window : Option ℤ → ℕ → TimeWindow
  unfolding checked
  window none unit_char = unread
  window (some n) unit_char =
      if unit_char == b'm'
      then checked (E.minutes n)
      else if unit_char == b'h'
      then checked (E.hours n)
      else if unit_char == b'd'
      then checked (E.days n)
      else unread

  unfoldable pub parse_time_window : Text → TimeWindow
  unfolding split_last parse_i64 window
  parse_time_window s = elim (strip_prefix (codes "last ") (trim s)) [
    | none ↦ unread
    | some rest ↦ elim (split_last rest) [
      | none ↦ unread
      | some (num_str, unit_char) ↦ window (parse_i64 (trim num_str)) unit_char
    ]
  ]

  abbrev with_start : EventsState E → Option Text → ProvenanceQuery
  with_start s start = record {
    component_id = non_empty s.filters.source;
    flow_file_uuid = non_empty s.filters.uuid;
    event_types = [];
    start_time_iso = start;
    end_time_iso = none;
    max_results = s.cap;
  }

  -- `none` where it panics.
  unfoldable pub build_query : ℕ → EventsState E → Option ProvenanceQuery
  unfolding parse_time_window
  build_query now s = elim (parse_time_window s.filters.time) [
    | unread ↦ some (with_start s none)
    | overflow ↦ none
    | lasting d ↦ some (with_start s (E.start_date now d))
  ]
