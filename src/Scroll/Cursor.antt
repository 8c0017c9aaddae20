-- ===== src/Scroll/Cursor.antt =====
-- `CursoredScrollState`: the cursor stays on a row and in view, and moves as a clamping list does.
use nifi_lens.Base.{ℕ, ◌+◌, ◌-◌, ◌≤◌, ◌<◌, ◌≡◌, max, arith, usize_mod, List, [], ◌∷◌}
use nifi_lens.Navigation.{cursor_nav, move_up, move_down, page_up, page_down, goto_first, goto_last}
use nifi_lens.Navigation.Bounds.{Move, apply}
use nifi_lens.Scroll.{
  CursoredScrollState, cursor_up, cursor_down, cursor_page_up, cursor_page_down, cursor_top,
  cursor_bottom,
}

pub data CursorMove : Type 0 where
  up down up_page down_page to_top to_bottom : CursorMove

unfoldable pub perform : ℕ → CursorMove → CursoredScrollState → CursoredScrollState
unfolding cursor_up cursor_down cursor_page_up cursor_page_down cursor_top cursor_bottom
perform len CursorMove.up c = cursor_up c
perform len CursorMove.down c = cursor_down len c
perform len CursorMove.up_page c = cursor_page_up c
perform len CursorMove.down_page c = cursor_page_down len c
perform len CursorMove.to_top c = cursor_top c
perform len CursorMove.to_bottom c = cursor_bottom len c

unfoldable pub perform_all : ℕ → List CursorMove → CursoredScrollState → CursoredScrollState
unfolding perform
perform_all len [] c = c
perform_all len (m ∷ ms) c = perform_all len ms (perform len m c)

-- The cursor is on a row of the list and inside the viewport, and the viewport is full.
pub record IsInView (len : ℕ) (c : CursoredScrollState) : Type 0 where
  pub on_row : c.selected < len
  pub below_top : c.scroll.offset ≤ c.selected
  pub above_bottom : c.selected < c.scroll.offset + c.scroll.last_viewport_rows
  pub full : c.scroll.offset ≤ len - c.scroll.last_viewport_rows

perform-IsInView :
    (len : ℕ) (m : CursorMove) (c : CursoredScrollState)
    → len + c.scroll.last_viewport_rows < usize_mod
    → IsInView len c
    → IsInView len (perform len m c)
      × ((perform len m c).scroll.last_viewport_rows ≡ c.scroll.last_viewport_rows)
unfolding perform
perform-IsInView len CursorMove.up c fits h = ground arith
perform-IsInView len _ c fits h = ground arith

-- Any moves over a list of a fixed length keep the cursor on a row, in view and the viewport full.
-- The length and the height of the viewport together fit a `usize`.
pub perform_all-IsInView :
    (len : ℕ) (ms : List CursorMove) (c : CursoredScrollState)
    → len + c.scroll.last_viewport_rows < usize_mod
    → IsInView len c
    → IsInView len (perform_all len ms c)
unfolding perform_all
perform_all-IsInView len [] c fits h = h
perform_all-IsInView len (m ∷ ms) c fits h =
    let (kept, same) = perform-IsInView len m c fits h in
    perform_all-IsInView len ms (perform len m c) (omega arith) kept

-- The move of a plain list that a cursor move stands for; a page is the viewport's height, and one
-- row where that is 0.
abbrev pub as_move : ℕ → CursorMove → Move
as_move rows CursorMove.up = Move.up
as_move rows CursorMove.down = Move.down
as_move rows CursorMove.up_page = Move.page_up_by (max rows 1)
as_move rows CursorMove.down_page = Move.page_down_by (max rows 1)
as_move rows CursorMove.to_top = Move.first
as_move rows CursorMove.to_bottom = Move.last

-- On a row of the list, the cursor moves exactly as the selection of a clamping list of the same
-- length does under `ListNavigation`, if the length and the height of the viewport (1 where that is
-- 0) together fit a `usize`: beyond it `page_down` wraps and the list saturates.
pub perform-apply :
    (len : ℕ) (m : CursorMove) (c : CursoredScrollState)
    → len + max c.scroll.last_viewport_rows 1 < usize_mod
    → c.selected < len
    → (perform len m c).selected
      ≡ (apply cursor_nav
          (as_move c.scroll.last_viewport_rows m)
          (record { len = len; selected = c.selected })).selected
unfolding perform apply move_up move_down page_up page_down goto_first goto_last
perform-apply len CursorMove.up c fits h = ground arith
perform-apply len _ c fits h = ground arith
