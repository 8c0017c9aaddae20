-- ===== src/Scroll/Horizontal.antt =====
-- The horizontal offset of `BidirectionalScrollState`.
use nifi_lens.Base.{ℕ, ◌-◌, ◌≤◌, ◌≡◌, List, [], ◌∷◌, arith}
use nifi_lens.Scroll.{
  BidirectionalScrollState, scroll_left, scroll_right, page_left, page_right, reset,
}

pub data Panning : Type 0 where
  left right left_page right_page back : Panning

unfoldable pub pan : ℕ → Panning → BidirectionalScrollState → BidirectionalScrollState
unfolding scroll_left scroll_right page_left page_right reset
pan cols left b = scroll_left b
pan cols right b = scroll_right cols b
pan cols left_page b = page_left b
pan cols right_page b = page_right cols b
pan cols back b = reset b

unfoldable pub pan_all : ℕ → List Panning → BidirectionalScrollState → BidirectionalScrollState
unfolding pan
pan_all cols [] b = b
pan_all cols (p ∷ ps) b = pan_all cols ps (pan cols p b)

-- No column past the content is shown: any panning keeps the offset at most the columns that do
-- not fit the viewport, whose size it leaves alone; and it never scrolls down.
pub pan_all_bounds :
    (cols : ℕ) (ps : List Panning) (b : BidirectionalScrollState)
    → b.horizontal_offset ≤ cols - b.last_viewport_body_cols
    → ((pan_all cols ps b).horizontal_offset ≤ cols - (pan_all cols ps b).last_viewport_body_cols)
      × ((pan_all cols ps b).last_viewport_body_cols ≡ b.last_viewport_body_cols)
      × ((pan_all cols ps b).vertical.offset ≤ b.vertical.offset)
unfolding pan_all
pan_all_bounds cols [] b h = ground arith
pan_all_bounds cols (left ∷ ps) b h = ground (arith, pan_all_bounds cols ps (pan cols left b))
pan_all_bounds cols (p ∷ ps) b h = ground (arith, pan_all_bounds cols ps (pan cols p b))
