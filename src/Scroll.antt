-- ===== src/Scroll.antt =====
-- src/widget/scroll.rs: the three scroll states and their methods (the drawing of the bar is left
-- out). `content_rows` and `len` are the size of the content that the caller passes in.
pub mod Vertical
pub mod Horizontal
pub mod Cursor
use nifi_lens.Base.{
  ℕ, suc, ◌+◌, ◌-◌, min, max, ltb, leb, ◌==◌, if◌then◌else◌, ℤ, pos, negsuc, saturating_add,
  usize_add, usize_sub,
}

pub record VerticalScrollState : Type 0 where
  pub offset : ℕ
  pub last_viewport_rows : ℕ

-- `delta.unsigned_abs()` of `negsuc n` is `n + 1`.
unfoldable pub scroll_by : ℤ → ℕ → VerticalScrollState → VerticalScrollState
scroll_by (pos d) content_rows v = record v {
  offset = min (saturating_add v.offset d) (content_rows - v.last_viewport_rows);
}
scroll_by (negsuc n) content_rows v = record v {
  offset = min (v.offset - suc n) (content_rows - v.last_viewport_rows);
}

unfoldable pub page_up : VerticalScrollState → VerticalScrollState
page_up v = record v { offset = v.offset - v.last_viewport_rows }

unfoldable pub page_down : ℕ → VerticalScrollState → VerticalScrollState
page_down content_rows v = record v {
  offset = min (saturating_add v.offset v.last_viewport_rows) (content_rows - v.last_viewport_rows);
}

unfoldable pub jump_top : VerticalScrollState → VerticalScrollState
jump_top v = record v { offset = 0 }

unfoldable pub jump_bottom : ℕ → VerticalScrollState → VerticalScrollState
jump_bottom content_rows v = record v { offset = content_rows - v.last_viewport_rows }

unfoldable pub scroll_to_visible : ℕ → VerticalScrollState → VerticalScrollState
scroll_to_visible target_row v =
    if v.last_viewport_rows == 0
    then v
    else if ltb target_row v.offset
    then record v { offset = target_row }
    else if leb (usize_add v.offset v.last_viewport_rows) target_row
    then record v { offset = usize_sub (usize_add target_row 1) v.last_viewport_rows }
    else v

unfoldable pub clamp_to_content : ℕ → VerticalScrollState → VerticalScrollState
clamp_to_content content_rows v =
    if ltb (content_rows - v.last_viewport_rows) v.offset
    then record v { offset = content_rows - v.last_viewport_rows }
    else v

pub record BidirectionalScrollState : Type 0 where
  pub vertical : VerticalScrollState
  pub horizontal_offset : ℕ
  pub last_viewport_body_cols : ℕ

unfoldable pub scroll_left : BidirectionalScrollState → BidirectionalScrollState
scroll_left b = record b { horizontal_offset = b.horizontal_offset - 1 }

unfoldable pub scroll_right : ℕ → BidirectionalScrollState → BidirectionalScrollState
scroll_right content_cols b = record b {
  horizontal_offset =
      min (saturating_add b.horizontal_offset 1) (content_cols - b.last_viewport_body_cols);
}

unfoldable pub page_left : BidirectionalScrollState → BidirectionalScrollState
page_left b = record b { horizontal_offset = b.horizontal_offset - b.last_viewport_body_cols }

unfoldable pub page_right : ℕ → BidirectionalScrollState → BidirectionalScrollState
page_right content_cols b = record b {
  horizontal_offset =
      min (saturating_add b.horizontal_offset b.last_viewport_body_cols)
        (content_cols - b.last_viewport_body_cols);
}

unfoldable pub reset : BidirectionalScrollState → BidirectionalScrollState
reset b = record b { vertical = record (b.vertical) { offset = 0 }; horizontal_offset = 0 }

pub record CursoredScrollState : Type 0 where
  pub scroll : VerticalScrollState
  pub selected : ℕ

-- The methods of `CursoredScrollState`.
unfoldable pub cursor_up : CursoredScrollState → CursoredScrollState
unfolding scroll_to_visible
cursor_up c =
    let selected = c.selected - 1 in
    record { selected = selected; scroll = scroll_to_visible selected c.scroll }

unfoldable pub cursor_down : ℕ → CursoredScrollState → CursoredScrollState
unfolding scroll_to_visible
cursor_down len c =
    let selected = usize_add c.selected 1 in
    if ltb (usize_add c.selected 1) len
    then record { selected = selected; scroll = scroll_to_visible selected c.scroll }
    else c

unfoldable pub cursor_page_up : CursoredScrollState → CursoredScrollState
unfolding scroll_to_visible page_up
cursor_page_up c =
    let selected = c.selected - max c.scroll.last_viewport_rows 1 in
    record { selected = selected; scroll = scroll_to_visible selected (page_up c.scroll) }

unfoldable pub cursor_page_down : ℕ → CursoredScrollState → CursoredScrollState
unfolding scroll_to_visible page_down
cursor_page_down len c =
    let bump = max c.scroll.last_viewport_rows 1 in
    let selected = min (usize_add c.selected bump) (len - 1) in
    if len == 0 then c else record {
      selected = selected;
      scroll = scroll_to_visible selected (page_down len c.scroll);
    }

unfoldable pub cursor_top : CursoredScrollState → CursoredScrollState
unfolding jump_top
cursor_top c = record { selected = 0; scroll = jump_top c.scroll }

unfoldable pub cursor_bottom : ℕ → CursoredScrollState → CursoredScrollState
unfolding jump_bottom
cursor_bottom len c =
    if len == 0 then c else record { selected = len - 1; scroll = jump_bottom len c.scroll }
