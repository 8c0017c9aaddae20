-- ===== src/Tests/Tab.antt =====
-- The Bulletins tab at concrete inputs.
use nifi_lens.Base.{
  ℕ, ◌+◌, ◌-◌, ◌^◌, ◌≤◌, ◌≡◌, ◌↔◌, ◌≢◌, refl, min, true, false, none, some, List, [], ◌∷◌, map, pos,
  length, get_elem?, arith,
}
use nifi_lens.Base.Text.{
  trim, Text, codes, text_eq, to_ascii_lowercase, to_ascii_upper, to_ascii_uppercase,
}
use nifi_lens.Search.{SearchState, MatchSpan}
use nifi_lens.Bulletins.{
  BulletinSnapshot, GroupMode, GroupedRow, GroupKey, default_filters, BulletinsState, with_capacity,
  parse_severity, classify,
}
use nifi_lens.Bulletins.View.{
  single_row, row_key, lookup_position, update_at, group_row, group_index, group_filtered,
  row_matches, indices_from, filtered, grouped_view, selected_ring_index,
}
use nifi_lens.Bulletins.Selection.{reconcile_selection}
use nifi_lens.Bulletins.Filters.{cancel_text_input, commit_text_input, enter_text_input_mode}
use nifi_lens.Bulletins.Detail.{
  row_group_key, message_stem, selected_group_key, search_cycle_next, search_cycle_prev,
}
use nifi_lens.Bulletins.Redraw.{redraw_bulletins}
use nifi_lens.Bulletins.Within.{Action, act, IsWithin, act-IsWithin}
use nifi_lens.Bulletins.Grouping.{summary, distinct_keys, keyed_rows}
use nifi_lens.Bulletins.Grouping.Fold.{group_filtered-summary}
use nifi_lens.Bulletins.Visible.{member, IsAscendingFrom}
use nifi_lens.Bulletins.Shown.{IsShown, filtered-IsShown}
use nifi_lens.Bulletins.Anchor.{reconcile_selection-selected_ring_index}
use nifi_lens.Bulletins.Typing.{Key, edit, type_keys, typing_round}
use nifi_lens.Bulletins.Cycling.{
  ModalAction, modal_act_all, IsSearchedModal, modal_act_all-IsSearchedModal,
  search_cycle_prev-search_cycle_next,
}
use nifi_lens.Bulletins.Mirror.{
  fresh, redraw_bulletins-selected_group_key, redraw_bulletins_first_of_source,
  redraw_bulletins-new_since_pause,
}

abbrev bulletin : ℕ → Text → BulletinSnapshot
bulletin id source_id = record {
  id = pos id;
  level = codes "ERROR";
  message = codes "failed";
  source_id = source_id;
  source_name = source_id;
  source_type = codes "PROCESSOR";
  group_id = codes "root";
  timestamp_iso = [];
  timestamp_human = [];
}

-- Two sources in turn.
abbrev ring : List BulletinSnapshot
ring = bulletin 1 (codes "a") ∷ bulletin 2 (codes "b") ∷ bulletin 3 (codes "a") ∷ []

abbrev tab : GroupMode → BulletinsState
tab mode = record (with_capacity 100) {
  ring = ring;
  group_mode = mode;
  auto_scroll = false;
  selected = 1;
}

tab_rows : filtered to_ascii_lowercase default_filters [] ring ≡ 0 ∷ 1 ∷ 2 ∷ []
unfolding filtered indices_from row_matches parse_severity classify text_eq to_ascii_uppercase
    to_ascii_upper
tab_rows = refl

tab_groups :
    grouped_view to_ascii_lowercase (tab GroupMode.source)
    ≡ record { first_ring_idx = 0; latest_ring_idx = 2; count = 2 }
      ∷ record { first_ring_idx = 1; latest_ring_idx = 1; count = 1 }
      ∷ []
unfolding with_capacity group_filtered group_index group_row lookup_position update_at row_key
    text_eq filtered indices_from row_matches parse_severity classify to_ascii_uppercase
    to_ascii_upper
tab_groups = refl

act-IsWithin_example :
    IsWithin to_ascii_lowercase (act to_ascii_lowercase Action.mute (tab GroupMode.source))
act-IsWithin_example =
    act-IsWithin to_ascii_lowercase Action.mute (tab GroupMode.source) (rw tab_groups (omega arith))
      (rw tab_groups (omega arith))

is_on : GroupMode.source ≢ GroupMode.off
is_on e = cc

group_filtered-summary_example :
    group_filtered GroupMode.source ring (0 ∷ 1 ∷ 2 ∷ [])
    ≡ map
        (summary (keyed_rows GroupMode.source ring (0 ∷ 1 ∷ 2 ∷ [])))
        (distinct_keys (keyed_rows GroupMode.source ring (0 ∷ 1 ∷ 2 ∷ [])))
group_filtered-summary_example = group_filtered-summary GroupMode.source ring (0 ∷ 1 ∷ 2 ∷ []) is_on

abbrev muted : List Text
muted = codes "b" ∷ []

filtered-IsShown_example :
    IsAscendingFrom 0 (filtered to_ascii_lowercase default_filters muted ring)
    × ((k : ℕ)
        → (member k (filtered to_ascii_lowercase default_filters muted ring) ≡ true) ↔ (
            (b : BulletinSnapshot) × (get_elem? ring k ≡ some b)
            × IsShown to_ascii_lowercase default_filters muted b))
filtered-IsShown_example = filtered-IsShown to_ascii_lowercase default_filters muted ring

abbrev groups : List GroupedRow
groups =
    record { first_ring_idx = 0; latest_ring_idx = 2; count = 2 }
    ∷ record { first_ring_idx = 1; latest_ring_idx = 1; count = 1 }
    ∷ []

member_1 : member 1 (filtered to_ascii_lowercase default_filters [] ring) ≡ true
unfolding member
member_1 = rw tab_rows refl

reconcile_selection-selected_ring_index_example :
    selected_ring_index to_ascii_lowercase
      (reconcile_selection to_ascii_lowercase (some 1) (tab GroupMode.off))
    ≡ some 1
unfolding with_capacity
reconcile_selection-selected_ring_index_example =
    reconcile_selection-selected_ring_index to_ascii_lowercase 1 (tab GroupMode.off) refl member_1

abbrev keys : List Key
keys = Key.push b'x' none ∷ Key.push 0x20 (some 1) ∷ Key.pop none ∷ Key.push b'y' none ∷ []

typing_round_example :
    let s = tab GroupMode.source in
    let typed = type_keys to_ascii_lowercase keys (enter_text_input_mode s) in
    let cancelled = cancel_text_input to_ascii_lowercase none typed in
    let committed = commit_text_input to_ascii_lowercase none typed in
    (typed.filters ≡ record (s.filters) { text = edit keys s.filters.text })
    × (typed.text_input ≡ some (edit keys s.filters.text))
    × (cancelled.filters ≡ s.filters)
    × (cancelled.text_input ≡ none)
    × (committed.filters ≡ record (s.filters) { text = trim (edit keys s.filters.text) })
    × (committed.text_input ≡ none)
typing_round_example = typing_round to_ascii_lowercase keys none (tab GroupMode.source)

abbrev modal_actions : List ModalAction
modal_actions =
    ModalAction.open_search ∷ ModalAction.push b'f' ∷ ModalAction.commit ∷ ModalAction.next ∷ []

abbrev with_modal : BulletinsState
with_modal = record (tab GroupMode.source) {
  detail_modal = some (record {
    group_key = record { source_id = codes "b"; message_stem = []; mode = GroupMode.source };
    details = record {
      count = 1;
      first_seen_iso = [];
      last_seen_iso = [];
      source_name = codes "b";
      source_id = codes "b";
      source_type = codes "PROCESSOR";
      group_id = codes "root";
      stripped_message = codes "failed";
      raw_message = codes "failed";
      severity = parse_severity (codes "ERROR");
    };
    scroll = record { offset = 0; last_viewport_rows = 0 };
    search = none;
  });
}

modal_act_all-IsSearchedModal_example :
    IsSearchedModal (modal_act_all modal_actions with_modal).detail_modal
modal_act_all-IsSearchedModal_example = modal_act_all-IsSearchedModal modal_actions with_modal tt

abbrev match_at : ℕ → MatchSpan
match_at start = record { line_idx = 0; byte_start = start; byte_end = start + 1 }

abbrev searching : SearchState
searching = record {
  query = codes "e";
  input_active = false;
  committed = true;
  matches = match_at 1 ∷ match_at 4 ∷ [];
  current = some 1;
}

search_cycle_prev-search_cycle_next_example :
    (search_cycle_prev (search_cycle_next searching) ≡ searching)
    × (search_cycle_next (search_cycle_prev searching) ≡ searching)
search_cycle_prev-search_cycle_next_example =
    search_cycle_prev-search_cycle_next 1 searching refl (omega arith) (omega arith)

-- The oldest bulletin is evicted, and a new one comes.
abbrev next_ring : List BulletinSnapshot
next_ring = bulletin 2 (codes "b") ∷ bulletin 3 (codes "a") ∷ bulletin 4 (codes "c") ∷ []

abbrev key_b : GroupKey
key_b = record { source_id = codes "b"; message_stem = []; mode = GroupMode.source }

tab_key : selected_group_key to_ascii_lowercase (tab GroupMode.source) ≡ some key_b
unfolding with_capacity group_filtered group_index group_row lookup_position update_at row_key
    text_eq filtered indices_from row_matches parse_severity classify to_ascii_uppercase
    to_ascii_upper selected_group_key row_group_key message_stem
tab_key = refl

next_row :
    get_elem?
      (grouped_view to_ascii_lowercase (record (tab GroupMode.source) { ring = next_ring }))
      0
    ≡ some (single_row 0)
unfolding with_capacity group_filtered group_index group_row lookup_position update_at row_key
    text_eq filtered indices_from row_matches parse_severity classify to_ascii_uppercase
    to_ascii_upper
next_row = refl

redraw_bulletins-selected_group_key_example :
    let t = redraw_bulletins to_ascii_lowercase next_ring none (tab GroupMode.source) in
    (selected_group_key to_ascii_lowercase t ≡ some key_b) × (t.selected ≤ 0)
unfolding row_group_key message_stem with_capacity
redraw_bulletins-selected_group_key_example =
    redraw_bulletins-selected_group_key to_ascii_lowercase next_ring none (tab GroupMode.source)
      key_b 0 (single_row 0) refl tab_key next_row refl

abbrev following : BulletinsState
following = record (tab GroupMode.source) { auto_scroll = true; new_since_pause = 7 }

redraw_bulletins-new_since_pause_example :
    let s = tab GroupMode.source in
    let t = redraw_bulletins to_ascii_lowercase next_ring none s in
    (t.ring ≡ next_ring)
    × (t.auto_scroll ≡ false)
    × (t.new_since_pause
        ≡ min (s.new_since_pause + length (fresh to_ascii_lowercase s next_ring)) (2 ^ 32 - 1))
unfolding with_capacity
redraw_bulletins-new_since_pause_example =
    redraw_bulletins-new_since_pause to_ascii_lowercase next_ring none (tab GroupMode.source) refl
      (omega arith)

-- The second bulletin of source "a" is selected, and nothing new comes.
abbrev second : BulletinsState
second = record (tab GroupMode.off) { selected = 2 }

abbrev key_a : GroupKey
key_a = record { source_id = codes "a"; message_stem = []; mode = GroupMode.off }

second_key : selected_group_key to_ascii_lowercase second ≡ some key_a
unfolding with_capacity group_filtered group_index group_row lookup_position update_at row_key
    text_eq filtered indices_from row_matches parse_severity classify to_ascii_uppercase
    to_ascii_upper selected_group_key row_group_key message_stem
second_key = refl

first_row :
    get_elem? (grouped_view to_ascii_lowercase (record second { ring = ring })) 0
    ≡ some (single_row 0)
unfolding with_capacity group_filtered group_index group_row lookup_position update_at row_key
    text_eq filtered indices_from row_matches parse_severity classify to_ascii_uppercase
    to_ascii_upper selected_group_key row_group_key message_stem
first_row = refl

redraw_bulletins_first_of_source_example :
    (redraw_bulletins to_ascii_lowercase ring none second).selected ≤ 0
unfolding with_capacity
redraw_bulletins_first_of_source_example =
    redraw_bulletins_first_of_source to_ascii_lowercase ring none second key_a 0 (single_row 0)
      (bulletin 1 (codes "a")) refl refl second_key first_row refl refl
