-- ===== src/Scroll/Vertical.antt =====
-- `VerticalScrollState`: where the offset lies after each method, and what comes into view.
use nifi_lens.Base.{
  ℕ, ◌+◌, ◌-◌, ◌≤◌, ◌<◌, ◌≡◌, ◌⊎◌, ◌∙◌, refl, ℤ, pos, negsuc, All, arith, usize_mod, usize_max,
  List, [], ◌∷◌,
}
use nifi_lens.Scroll.{
  VerticalScrollState, scroll_by, page_up, page_down, jump_top, jump_bottom, scroll_to_visible,
  clamp_to_content,
}

-- The offset is at most the largest one that leaves the viewport full.
abbrev pub IsScrolled : ℕ → VerticalScrollState → Type 0
IsScrolled content_rows v = v.offset ≤ content_rows - v.last_viewport_rows

pub data Scrolling : Type 0 where
  by : ℤ → Scrolling
  up_page down_page to_top to_bottom clamp : Scrolling
  show : ℕ → Scrolling

unfoldable pub perform : ℕ → Scrolling → VerticalScrollState → VerticalScrollState
unfolding scroll_by page_up page_down jump_top jump_bottom scroll_to_visible clamp_to_content
perform rows (Scrolling.by d) v = scroll_by d rows v
perform rows Scrolling.up_page v = page_up v
perform rows Scrolling.down_page v = page_down rows v
perform rows Scrolling.to_top v = jump_top v
perform rows Scrolling.to_bottom v = jump_bottom rows v
perform rows Scrolling.clamp v = clamp_to_content rows v
perform rows (Scrolling.show r) v = scroll_to_visible r v

unfoldable pub perform_all : ℕ → List Scrolling → VerticalScrollState → VerticalScrollState
unfolding perform
perform_all rows [] v = v
perform_all rows (s ∷ ss) v = perform_all rows ss (perform rows s v)

abbrev pub ShowsRowOf : ℕ → Scrolling → Type 0
ShowsRowOf rows (Scrolling.show r) = r < rows
ShowsRowOf rows _ = Unit

-- If the viewport has a row, the target row is in it afterwards; the offset does not move when the
-- row was in view, and else moves just so far that the row is at an edge of the viewport.
pub scroll_to_visible_shows :
    (target : ℕ) (v : VerticalScrollState)
    → 0 < v.last_viewport_rows
    → v.offset + v.last_viewport_rows < usize_mod
    → target < usize_max
    → let w = scroll_to_visible target v in
      (w.offset ≤ target)
      × (target < w.offset + w.last_viewport_rows)
      × (w.last_viewport_rows ≡ v.last_viewport_rows)
      × ((w.offset ≡ v.offset)
          ⊎ (w.offset ≡ target)
          ⊎ (w.offset + w.last_viewport_rows ≡ target + 1))
unfolding scroll_to_visible
scroll_to_visible_shows target v h fits ht =
    (ground arith, ground arith, ground arith, ground arith)

perform-IsScrolled :
    (rows : ℕ) (s : Scrolling) (v : VerticalScrollState)
    → rows < usize_mod
    → v.last_viewport_rows < usize_mod
    → ShowsRowOf rows s
    → IsScrolled rows v
    → IsScrolled rows (perform rows s v)
      × ((perform rows s v).last_viewport_rows ≡ v.last_viewport_rows)
unfolding perform
perform-IsScrolled rows (Scrolling.by (pos d)) v hr hv hs h = ground arith
perform-IsScrolled rows (Scrolling.by (negsuc d)) v hr hv hs h = ground arith
perform-IsScrolled rows (Scrolling.show r) v hr hv hs h = ground arith
perform-IsScrolled rows _ v hr hv hs h = ground arith

-- Whatever is done, from an offset that leaves the viewport full: the offset stays such, if the
-- rows that are brought into view are rows of the content. The viewport keeps its height.
pub perform_all-IsScrolled :
    (rows : ℕ) (ss : List Scrolling) (v : VerticalScrollState)
    → rows < usize_mod
    → v.last_viewport_rows < usize_mod
    → All (ShowsRowOf rows) ss
    → IsScrolled rows v
    → IsScrolled rows (perform_all rows ss v)
      × ((perform_all rows ss v).last_viewport_rows ≡ v.last_viewport_rows)
unfolding perform_all
perform_all-IsScrolled rows [] v hr hv hs h = (h, refl)
perform_all-IsScrolled rows (s ∷ ss) v hr hv (hs, hss) h =
    let (kept, same) = perform-IsScrolled rows s v hr hv hs h in
    let (all_kept, all_same) =
      perform_all-IsScrolled rows ss (perform rows s v) hr (omega arith) hss kept in
    (all_kept, all_same ∙ same)
