-- ===== src/Events/Rows.antt =====
-- src/view/events/state.rs, the rows of the results and their selection.
use nifi_lens.Base.{
  ℕ, ◌-◌, min, Option, none, some, length, get_elem?, ltb, usize_add, if◌then◌else◌,
}
use nifi_lens.Events.{ProvenanceEventSummary, MatchedEvent, Parts, one_shot, watching, EventsState}

abbrev pub summary_of : Option MatchedEvent → Option ProvenanceEventSummary
summary_of none = none
summary_of (some m) = some m.summary

module _ (E : Parts) where
  unfoldable pub current_row_count : EventsState E → ℕ
  current_row_count s = elim (s.mode) [ one_shot ↦ length s.events | watching w ↦ length w.buffer ]

  unfoldable pub enter_row_nav : EventsState E → EventsState E
  enter_row_nav s = if ltb 0 (current_row_count s) then record s { selected_row = some 0 } else s

  unfoldable pub leave_row_nav : EventsState E → EventsState E
  leave_row_nav s = record s { selected_row = none }

  unfoldable pub move_selection_down : EventsState E → EventsState E
  move_selection_down s = elim (s.selected_row) [
    | none ↦ s
    | some idx ↦ record s { selected_row = some (min (usize_add idx 1) (current_row_count s - 1)) }
  ]

  unfoldable pub move_selection_up : EventsState E → EventsState E
  move_selection_up s = elim (s.selected_row) [
    | none ↦ s
    | some idx ↦ record s { selected_row = some (idx - 1) }
  ]

  -- `checked_sub` and `get`; `i` is a row that `usize` holds with its successor.
  unfoldable pub selected_event : EventsState E → Option ProvenanceEventSummary
  selected_event s = elim (s.selected_row) [
    | none ↦ none
    | some i ↦ elim (s.mode) [
      | one_shot ↦ get_elem? s.events i
      | watching w ↦
          if ltb (length w.buffer) (usize_add i 1)
          then none
          else summary_of (get_elem? w.buffer (length w.buffer - usize_add i 1))
    ]
  ]
