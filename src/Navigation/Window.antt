-- ===== src/Navigation/Window.antt =====
-- The scroll window shows the selected row, and scrolls no further than it has to.
use nifi_lens.Base.{ℕ, ◌<◌, ◌≤◌, ◌+◌, ◌-◌, min, ◌≡◌, arith, usize_mod}
use nifi_lens.Navigation.{compute_scroll_window}

-- For a list with a row and a window with a row: the window starts at or above the selected row
-- (clamped to the last row), the row's place in the window is inside it, and no smaller offset
-- shows the row.
pub compute_scroll_window_shows :
    (selected total visible : ℕ)
    → 0 < total
    → total < usize_mod
    → 0 < visible
    → let w = compute_scroll_window selected total visible in
      (w.offset + w.selected_local ≡ min selected (total - 1))
      × (w.selected_local < visible)
      × ((o : ℕ) → min selected (total - 1) < o + visible → w.offset ≤ o)
unfolding compute_scroll_window
compute_scroll_window_shows selected total visible ht hu hv =
    (ground arith, ground arith, λ o ho. ground arith)
