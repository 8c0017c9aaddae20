-- ===== src/Views.antt =====
-- The tabs: `ViewId` of src/app/state/mod.rs.
use nifi_lens.Base.{ℕ, Bool, ◌==◌}

pub data ViewId : Type 0 where
  overview bulletins browser events tracer : ViewId

unfoldable pub next : ViewId → ViewId
next ViewId.overview = ViewId.bulletins
next ViewId.bulletins = ViewId.browser
next ViewId.browser = ViewId.events
next ViewId.events = ViewId.tracer
next ViewId.tracer = ViewId.overview

unfoldable pub prev : ViewId → ViewId
prev ViewId.overview = ViewId.tracer
prev ViewId.bulletins = ViewId.overview
prev ViewId.browser = ViewId.bulletins
prev ViewId.events = ViewId.browser
prev ViewId.tracer = ViewId.events

-- The discriminant.
abbrev pub view_index : ViewId → ℕ
view_index ViewId.overview = 0
view_index ViewId.bulletins = 1
view_index ViewId.browser = 2
view_index ViewId.events = 3
view_index ViewId.tracer = 4

abbrev pub view_eq : ViewId → ViewId → Bool
view_eq a b = view_index a == view_index b
