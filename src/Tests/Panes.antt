-- ===== src/Tests/Panes.antt =====
-- The navigation, the scrolling, the history and the search at concrete inputs.
use nifi_lens.Base.{
  ℕ, ◌+◌, ◌≤◌, ◌<◌, ◌≡◌, refl, true, false, none, some, List, [], ◌∷◌, ◌++◌, pos, negsuc, arith,
}
use nifi_lens.Base.Text.{codes, to_ascii_lowercase}
use nifi_lens.Base.Window.{keep_last}
use nifi_lens.Views.{ViewId}
use nifi_lens.Navigation.{ListNavigation, CursorRef, cursor_nav, compute_scroll_window}
use nifi_lens.Navigation.Bounds
use nifi_lens.Navigation.Window.{compute_scroll_window_shows}
use nifi_lens.Scroll.{VerticalScrollState, BidirectionalScrollState, CursoredScrollState}
use nifi_lens.Scroll.Vertical
use nifi_lens.Scroll.Horizontal
use nifi_lens.Scroll.Cursor
use nifi_lens.History.{
  HistoryEntry, TabHistory, max_history, push_capped, pop_last, pop_back, pop_forward,
}
use nifi_lens.History.RoundTrip.{pop_forward-pop_back}
use nifi_lens.History.Window.{push_all, push_all-keep_last}
use nifi_lens.Search.{compute_matches, split_char}
use nifi_lens.Search.Matches.{ScanLines, compute_matches-ScanLines}

cursor_nav-IsLawful : Bounds.IsLawful cursor_nav
cursor_nav-IsLawful = record {
  len_set = λ s i. refl;
  wraps_set = λ s i. refl;
  selected_set = λ s i h. ground arith;
}

-- A list that wraps.
abbrev ring_nav : ListNavigation CursorRef
ring_nav = record cursor_nav { wraps = λ c. true }

ring_nav-IsLawful : Bounds.IsLawful ring_nav
ring_nav-IsLawful = record {
  len_set = λ s i. refl;
  wraps_set = λ s i. refl;
  selected_set = λ s i h. ground arith;
}

abbrev at_row : ℕ → CursorRef
at_row i = record { len = 5; selected = i }

apply-select_example :
    let t = Bounds.apply cursor_nav (Bounds.Move.page_down_by 3) (at_row 3) in
    (cursor_nav.list_len t ≡ 5) × (cursor_nav.wraps t ≡ false) × (cursor_nav.selected t ≡ some 4)
apply-select_example =
    Bounds.apply-select cursor_nav cursor_nav-IsLawful (Bounds.Move.page_down_by 3) (at_row 3)
      (omega arith) (omega arith) (omega arith)

abbrev moves : List Bounds.Move
moves = Bounds.Move.up ∷ Bounds.Move.last ∷ Bounds.Move.down ∷ Bounds.Move.page_up_by 9 ∷ []

compute_scroll_window_shows_example :
    let w = compute_scroll_window 17 30 10 in
    (w.offset + w.selected_local ≡ 17)
    × (w.selected_local < 10)
    × ((o : ℕ) → 17 < o + 10 → w.offset ≤ o)
compute_scroll_window_shows_example =
    compute_scroll_window_shows 17 30 10 (omega arith) (omega arith) (omega arith)

abbrev view : VerticalScrollState
view = record { offset = 4; last_viewport_rows = 10 }

abbrev scrollings : List Vertical.Scrolling
scrollings =
    Vertical.Scrolling.by (negsuc 2)
    ∷ Vertical.Scrolling.show 29
    ∷ Vertical.Scrolling.down_page
    ∷ Vertical.Scrolling.by (pos 100)
    ∷ []

perform_all-IsScrolled_example :
    let w = Vertical.perform_all 30 scrollings view in
    Vertical.IsScrolled 30 w × (w.last_viewport_rows ≡ 10)
perform_all-IsScrolled_example =
    Vertical.perform_all-IsScrolled 30 scrollings view (omega arith) (omega arith)
      (tt, (omega arith, (tt, (tt, tt)))) (omega arith)

abbrev wide : BidirectionalScrollState
wide = record { vertical = view; horizontal_offset = 3; last_viewport_body_cols = 80 }

abbrev pannings : List Horizontal.Panning
pannings = Horizontal.right_page ∷ Horizontal.left ∷ Horizontal.back ∷ Horizontal.right ∷ []

abbrev cursored : CursoredScrollState
cursored = record { selected = 5; scroll = view }

abbrev cursor_moves : List Cursor.CursorMove
cursor_moves = Cursor.CursorMove.down_page ∷ Cursor.CursorMove.up ∷ Cursor.CursorMove.to_bottom ∷ []

perform_all-IsInView_example : Cursor.IsInView 30 (Cursor.perform_all 30 cursor_moves cursored)
perform_all-IsInView_example =
    Cursor.perform_all-IsInView 30 cursor_moves cursored (omega arith) (record {
      on_row = omega arith;
      below_top = omega arith;
      above_bottom = omega arith;
      full = omega arith;
    })

perform-apply_example :
    (Cursor.perform 30 Cursor.CursorMove.down_page cursored).selected
    ≡ (Bounds.apply cursor_nav
        (Bounds.Move.page_down_by 10)
        (record { len = 30; selected = 5 })).selected
perform-apply_example =
    Cursor.perform-apply 30 Cursor.CursorMove.down_page cursored (omega arith) (omega arith)

abbrev entry : ViewId → HistoryEntry
entry tab = record { tab = tab; anchor = none }

abbrev visited : TabHistory
visited = record { back = entry ViewId.overview ∷ entry ViewId.bulletins ∷ []; forward = [] }

visited_back : pop_back (entry ViewId.browser) visited ≡ (
  some (entry ViewId.bulletins),
  record { back = entry ViewId.overview ∷ []; forward = entry ViewId.browser ∷ [] },
)
unfolding pop_back pop_last push_capped
visited_back = refl

pop_forward-pop_back_example :
    pop_forward
      (entry ViewId.bulletins)
      (record { back = entry ViewId.overview ∷ []; forward = entry ViewId.browser ∷ [] })
    ≡ (some (entry ViewId.browser), visited)
pop_forward-pop_back_example =
    pop_forward-pop_back (entry ViewId.browser) (entry ViewId.bulletins) visited _ (omega arith)
      (omega arith) visited_back

push_all-keep_last_example :
    push_all (entry ViewId.events ∷ entry ViewId.tracer ∷ []) visited ≡ record {
      back = keep_last max_history (visited.back ++ entry ViewId.events ∷ entry ViewId.tracer ∷ []);
      forward = [];
    }
push_all-keep_last_example =
    push_all-keep_last (entry ViewId.events) (entry ViewId.tracer ∷ []) visited (omega arith)

compute_matches-ScanLines_example :
    ScanLines
      (to_ascii_lowercase (codes "Er"))
      0
      (split_char b'\n' (codes "error: er\nnone"))
      (compute_matches (codes "error: er\nnone") (codes "Er"))
compute_matches-ScanLines_example =
    compute_matches-ScanLines (codes "error: er\nnone") (codes "Er") (omega arith)
