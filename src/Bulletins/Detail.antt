-- ===== src/Bulletins/Detail.antt =====
-- The detail modal of the Bulletins tab: the data of the selected group, and the modal's scrolling
-- and search.
use mathlib.Core.Option
use nifi_lens.Base.{
  ℕ, ◌+◌, ◌-◌, ◌%◌, Bool, true, false, not, ◌&&◌, ◌||◌, Option, none, some, List, [], ◌∷◌, ◌++◌,
  length, is_empty, get_elem?, ◌==◌, if◌then◌else◌, ℤ, usize_max, usize_add,
}
use nifi_lens.Base.Text.{Text, text_eq, pop_char}
use nifi_lens.Scroll.{scroll_by, page_up, page_down, jump_top, jump_bottom}
use nifi_lens.Search.{SearchState, compute_matches}
use nifi_lens.Bulletins.{
  BulletinSnapshot, Severity, parse_severity, GroupMode, mode_index, GroupedRow, SeverityCounts,
  GroupDetails, GroupKey, DetailModalState, BulletinsState,
}
use nifi_lens.Bulletins.Message.{strip_component_prefix, normalize_dynamic_brackets}
use nifi_lens.Bulletins.View.{grouped_view}
use nifi_lens.Bulletins.Selection.{position}

abbrev pub count_severity : Severity → SeverityCounts → SeverityCounts
count_severity Severity.error c = record c { error = c.error + 1 }
count_severity Severity.warning c = record c { warning = c.warning + 1 }
count_severity Severity.info c = record c { info = c.info + 1 }
count_severity Severity.unknown c = record c { info = c.info + 1 }

unfoldable pub severity_counts_from : List BulletinSnapshot → SeverityCounts → SeverityCounts
unfolding parse_severity
severity_counts_from [] out = out
severity_counts_from (b ∷ ring) out =
    severity_counts_from ring (count_severity (parse_severity b.level) out)

unfoldable pub severity_counts : BulletinsState → SeverityCounts
unfolding severity_counts_from
severity_counts s = severity_counts_from s.ring (record { error = 0; warning = 0; info = 0 })

-- The part of the message that identifies a group.
unfoldable pub message_stem : GroupMode → Text → Text
message_stem GroupMode.source_and_message message =
    normalize_dynamic_brackets (strip_component_prefix message)
message_stem GroupMode.source message = []
message_stem GroupMode.off message = []

unfoldable pub details_of : ℕ → BulletinSnapshot → BulletinSnapshot → GroupDetails
details_of count first latest = record {
  count = count;
  first_seen_iso = first.timestamp_iso;
  last_seen_iso = latest.timestamp_iso;
  source_name = latest.source_name;
  source_id = latest.source_id;
  source_type = latest.source_type;
  group_id = latest.group_id;
  stripped_message = strip_component_prefix latest.message;
  raw_message = latest.message;
  severity = parse_severity latest.level;
}

-- An index outside the ring would panic; here it gives no details.
module _ (ring : List BulletinSnapshot) where
  unfoldable pub row_details : GroupedRow → Option GroupDetails
  row_details g = elim (get_elem? ring g.first_ring_idx) [
    | none ↦ none
    | some first ↦ Option.map (details_of g.count first) (get_elem? ring g.latest_ring_idx)
  ]

  unfoldable pub row_group_key : GroupMode → GroupedRow → Option GroupKey
  row_group_key mode g =
      Option.map
        (λ latest. record {
          source_id = latest.source_id;
          message_stem = message_stem mode latest.message;
          mode = mode;
        })
        (get_elem? ring g.latest_ring_idx)

  unfoldable pub has_group_key : GroupMode → GroupKey → GroupedRow → Bool
  has_group_key mode key g = elim (get_elem? ring g.latest_ring_idx) [
    | none ↦ false
    | some latest ↦
        text_eq latest.source_id key.source_id
        && text_eq (message_stem mode latest.message) key.message_stem
  ]

module _ (to_lowercase : Text → Text) where
  unfoldable pub group_details : BulletinsState → Option GroupDetails
  group_details s = elim (get_elem? (grouped_view to_lowercase s) s.selected) [
    | none ↦ none
    | some g ↦ row_details s.ring g
  ]

  unfoldable pub selected_group_key : BulletinsState → Option GroupKey
  selected_group_key s = elim (get_elem? (grouped_view to_lowercase s) s.selected) [
    | none ↦ none
    | some g ↦ row_group_key s.ring s.group_mode g
  ]

  unfoldable pub position_for_group_key : BulletinsState → GroupKey → Option ℕ
  unfolding position
  position_for_group_key s key =
      if mode_index key.mode == mode_index s.group_mode
      then position (has_group_key s.ring s.group_mode key) (grouped_view to_lowercase s)
      else none

  unfoldable pub open_detail_modal : BulletinsState → BulletinsState × Bool
  unfolding group_details selected_group_key
  open_detail_modal s = elim (group_details s) [
    | none ↦ (s, false)
    | some details ↦ elim (selected_group_key s) [
      | none ↦ (s, false)
      | some group_key ↦ (
        record s {
          detail_modal = some (record {
            group_key = group_key;
            details = details;
            scroll = record { offset = 0; last_viewport_rows = 0 };
            search = none;
          });
        },
        true,
      )
    ]
  ]

unfoldable pub close_detail_modal : BulletinsState → BulletinsState
close_detail_modal s = record s { detail_modal = none }

-- `if let Some(modal) = self.detail_modal.as_mut()`.
unfoldable pub on_modal : (DetailModalState → DetailModalState) → BulletinsState → BulletinsState
on_modal f s = record s { detail_modal = Option.map f s.detail_modal }

-- The methods that scroll pass `usize::MAX` for the rows of the content: the renderer clamps.
unfoldable pub modal_scroll_by : ℤ → BulletinsState → BulletinsState
unfolding on_modal scroll_by
modal_scroll_by delta =
    on_modal (λ modal. record modal { scroll = scroll_by delta usize_max modal.scroll })

unfoldable pub modal_page_down : BulletinsState → BulletinsState
unfolding on_modal page_down
modal_page_down = on_modal (λ modal. record modal { scroll = page_down usize_max modal.scroll })

unfoldable pub modal_page_up : BulletinsState → BulletinsState
unfolding on_modal page_up
modal_page_up = on_modal (λ modal. record modal { scroll = page_up modal.scroll })

unfoldable pub modal_jump_top : BulletinsState → BulletinsState
unfolding on_modal jump_top
modal_jump_top = on_modal (λ modal. record modal { scroll = jump_top modal.scroll })

unfoldable pub modal_jump_bottom : BulletinsState → BulletinsState
unfolding on_modal jump_bottom
modal_jump_bottom = on_modal (λ modal. record modal { scroll = jump_bottom usize_max modal.scroll })

unfoldable pub modal_copy_message : BulletinsState → Option Text
modal_copy_message s = Option.map (λ (m : DetailModalState). m.details.raw_message) s.detail_modal

abbrev pub empty_search : SearchState
empty_search = record {
  query = [];
  input_active = true;
  committed = false;
  matches = [];
  current = none;
}

-- The query with its matches recomputed, the first of them current.
unfoldable pub with_query : Text → Text → SearchState → SearchState
with_query body query search =
    let matches = compute_matches body query in
    record search {
      query = query;
      matches = matches;
      current = if is_empty matches then none else some 0;
    }

unfoldable pub search_push : Text → ℕ → SearchState → SearchState
search_push body ch search =
    if search.input_active then with_query body (search.query ++ ch ∷ []) search else search

unfoldable pub search_pop : Text → SearchState → SearchState
search_pop body search =
    if search.input_active then with_query body (pop_char search.query) search else search

-- Committing an empty query closes the search.
unfoldable pub search_commit : SearchState → Option SearchState
search_commit search =
    if is_empty search.query
    then none
    else some (record search { input_active = false; committed = true })

abbrev pub current_or_zero : SearchState → ℕ
current_or_zero search = elim (search.current) [ none ↦ 0 | some i ↦ i ]

unfoldable pub search_cycle_next : SearchState → SearchState
search_cycle_next search =
    if not search.committed || is_empty search.matches then search else record search {
      current = some (usize_add (current_or_zero search) 1 % length search.matches);
    }

unfoldable pub search_cycle_prev : SearchState → SearchState
search_cycle_prev search =
    if not search.committed || is_empty search.matches then search else record search {
      current = some (
          if current_or_zero search == 0
          then length search.matches - 1
          else current_or_zero search - 1);
    }

-- A change of the search, if the modal and the search are open.
unfoldable pub on_search :
    (Text → SearchState → Option SearchState) → BulletinsState → BulletinsState
unfolding on_modal
on_search f = on_modal (λ modal. record modal {
  search = elim (modal.search) [ none ↦ none | some search ↦ f modal.details.raw_message search ];
})

unfoldable pub modal_search_open : BulletinsState → BulletinsState
unfolding on_modal
modal_search_open = on_modal (λ modal. record modal { search = some empty_search })

unfoldable pub modal_search_push : ℕ → BulletinsState → BulletinsState
unfolding on_search
modal_search_push ch = on_search (λ body search. some (search_push body ch search))

unfoldable pub modal_search_pop : BulletinsState → BulletinsState
unfolding on_search
modal_search_pop = on_search (λ body search. some (search_pop body search))

unfoldable pub modal_search_commit : BulletinsState → BulletinsState
unfolding on_search
modal_search_commit = on_search (λ body search. search_commit search)

unfoldable pub modal_search_cancel : BulletinsState → BulletinsState
unfolding on_modal
modal_search_cancel = on_modal (λ modal. record modal { search = none })

unfoldable pub modal_search_cycle_next : BulletinsState → BulletinsState
unfolding on_search
modal_search_cycle_next = on_search (λ body search. some (search_cycle_next search))

unfoldable pub modal_search_cycle_prev : BulletinsState → BulletinsState
unfolding on_search
modal_search_cycle_prev = on_search (λ body search. some (search_cycle_prev search))
