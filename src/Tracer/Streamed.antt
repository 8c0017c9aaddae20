-- ===== src/Tracer/Streamed.antt =====
-- Both sides of the content modal over a run of chunks, errors and scrolls.
use nifi_lens.Base.{
  ℕ, ◌-◌, ◌≡◌, refl, sym, subst, Bool, true, false, Option, none, some, List, [], ◌∷◌, length, All,
  not, ◌==◌, ◌||◌, ltb, saturating_add, if-keeps, Bool-cases, inl, inr, arith,
}
use nifi_lens.Base.Text.{Text}
use nifi_lens.Tracer.{
  TracerCeilingConfig, SideBuffer, ContentSide, ContentModalTab, ContentModalState,
  ModalFetchRequest, StreamEvent, modal_chunk_bytes, stream_lookahead_lines, decoded_line_count,
  cap_of, side_of, with_side, receive, invalidate_diff_cache, apply_modal_chunk_with_ceiling,
  apply_modal_chunk_failed, fetch_more, auto_stream, content_modal_scroll_to, apply_event,
  apply_events,
}
use nifi_lens.Tracer.Stream.{IsReply, IsStreamed, receive-IsStreamed}

-- A chunk for the modal's event is what a server with these contents answers.
abbrev pub IsServed : (ContentSide → List ℕ) → ℕ → StreamEvent → Type 0
IsServed contents id (StreamEvent.chunk event_id side offset bytes eof n) =
    event_id ≡ id → IsReply (contents side) offset n bytes eof
IsServed contents id e = Unit

-- The two sides of the modal stream these contents.
pub record IsOpen (contents : ContentSide → List ℕ) (m : ContentModalState) : Type 0 where
  pub first : IsStreamed (contents ContentSide.input) m.input
  pub second : IsStreamed (contents ContentSide.output) m.output

with_side-event_id :
    (side : ContentSide) (b : SideBuffer) (m : ContentModalState)
    → (with_side side b m).event_id ≡ m.event_id
unfolding with_side
with_side-event_id ContentSide.input b m = refl
with_side-event_id ContentSide.output b m = refl

module _ (contents : ContentSide → List ℕ) where
  side_of-IsStreamed :
      (side : ContentSide) (m : ContentModalState)
      → IsOpen contents m
      → IsStreamed (contents side) (side_of side m)
  unfolding side_of
  side_of-IsStreamed ContentSide.input m o = o.first
  side_of-IsStreamed ContentSide.output m o = o.second

  with_side-IsOpen :
      (side : ContentSide) (b : SideBuffer) (m : ContentModalState)
      → IsStreamed (contents side) b
      → IsOpen contents m
      → IsOpen contents (with_side side b m)
  unfolding with_side
  with_side-IsOpen ContentSide.input b m h o = record { first = h; second = o.second }
  with_side-IsOpen ContentSide.output b m h o = record { first = o.first; second = h }

  -- A side of which only other fields change.
  restate :
      (content : List ℕ) (busy : Bool) (error : Option Text) (b : SideBuffer)
      → IsStreamed content b
      → IsStreamed content (record b { in_flight = busy; last_error = error })
  restate content busy error b s = record {
    part = record { rest = s.part.rest; split = s.part.split; done = s.part.done };
    capped = s.capped;
  }

  invalidate-IsOpen :
      (m : ContentModalState) → IsOpen contents m → IsOpen contents (invalidate_diff_cache m)
  unfolding invalidate_diff_cache
  invalidate-IsOpen m o = record { first = o.first; second = o.second }

-- Whether there is a modal for the event, and what its sides have.
abbrev pub Shows : (ContentSide → List ℕ) → ℕ → Option ContentModalState → Type 0
Shows contents id o = (u : ContentModalState) × (o ≡ some u) × (u.event_id ≡ id) × IsOpen contents u

module _ (from_utf8 : List ℕ → Option Text) (cfg : TracerCeilingConfig)
    (contents : ContentSide → List ℕ) where
  chunk-Shows :
      (event_id : ℕ) (side : ContentSide) (offset : ℕ) (bytes : List ℕ) (eof : Bool) (n : ℕ)
      (m : ContentModalState)
      → (event_id ≡ m.event_id → IsReply (contents side) offset n bytes eof)
      → IsOpen contents m
      → Shows contents m.event_id
          (apply_modal_chunk_with_ceiling from_utf8 event_id side offset bytes eof n cfg (some m))
  unfolding apply_modal_chunk_with_ceiling with_side invalidate_diff_cache
  chunk-Shows event_id side offset bytes eof n m r o =
      let b = side_of side m in
      elim (Bool-cases (not (m.event_id == event_id) || not (offset == length b.loaded))) [
        | inl e ↦ rw e (m, refl, refl, o)
        | inr e ↦
            let at : offset ≡ length b.loaded = ground arith in
            let same : event_id ≡ m.event_id = ground arith in
            let reply = subst (λ k. IsReply (contents side) k n bytes eof) at (r same) in
            let more =
              receive-IsStreamed from_utf8 cfg (contents side) bytes n eof b reply
                (side_of-IsStreamed contents side m o) in
            let u = with_side side (receive from_utf8 cfg bytes eof b) m in
            rw e (
              invalidate_diff_cache u,
              refl,
              with_side-event_id side _ m,
              invalidate-IsOpen contents u (with_side-IsOpen contents side _ m more o),
            )
      ]

  failed-Shows :
      (event_id : ℕ) (side : ContentSide) (error : Text) (m : ContentModalState)
      → IsOpen contents m
      → Shows contents m.event_id (apply_modal_chunk_failed event_id side error (some m))
  unfolding apply_modal_chunk_failed
  failed-Shows event_id side error m o =
      if-keeps (Shows contents m.event_id) (not (m.event_id == event_id)) (m, refl, refl, o)
        (
          _,
          refl,
          with_side-event_id side _ m,
          with_side-IsOpen contents side _ m
              (restate contents (contents side) false (some error) (side_of side m)
                (side_of-IsStreamed contents side m o))
              o,
        )

  -- The modal after a scroll, with what it asks for.
  abbrev Keeps : ContentModalState → ContentModalState × List ModalFetchRequest → Type 0
  Keeps m more = (more.0.event_id ≡ m.event_id) × IsOpen contents more.0

  fetch_more-IsOpen :
      (side : ContentSide) (m : ContentModalState)
      → IsOpen contents m
      → Keeps m (fetch_more cfg side m)
  unfolding fetch_more
  fetch_more-IsOpen side m o =
      let b = side_of side m in
      let bottom = saturating_add m.vertical.offset m.vertical.last_viewport_rows in
      let remaining : ℕ = elim (cap_of cfg b) [
        | none ↦ modal_chunk_bytes
        | some c ↦ c - length b.loaded
      ] in
      let fetching =
        with_side-IsOpen contents side _ m
          (restate contents (contents side) true b.last_error b
            (side_of-IsStreamed contents side m o))
          o in
      if-keeps (Keeps m) (b.fully_loaded || b.in_flight) (refl, o)
        (if-keeps (Keeps m) (ltb stream_lookahead_lines (decoded_line_count b.decoded - bottom))
          (refl, o)
          (if-keeps (Keeps m) (remaining == 0) (refl, o) (with_side-event_id side _ m, fetching)))

  auto_stream-IsOpen :
      (tab : ContentModalTab) (m : ContentModalState)
      → IsOpen contents m
      → Keeps m (auto_stream cfg tab m)
  unfolding auto_stream
  auto_stream-IsOpen ContentModalTab.input m o = fetch_more-IsOpen ContentSide.input m o
  auto_stream-IsOpen ContentModalTab.output m o = fetch_more-IsOpen ContentSide.output m o
  auto_stream-IsOpen ContentModalTab.diff m o = (refl, o)

  scroll-Shows :
      (new_offset : ℕ) (m : ContentModalState)
      → IsOpen contents m
      → Shows contents m.event_id (content_modal_scroll_to new_offset cfg (some m)).0
  unfolding content_modal_scroll_to
  scroll-Shows new_offset m o =
      let at : ContentModalState = record m {
        vertical = record m.vertical { offset = new_offset };
      } in
      let here : IsOpen contents at = record { first = o.first; second = o.second } in
      let scrolled = auto_stream-IsOpen m.active_tab at here in (_, refl, scrolled.0, scrolled.1)

  apply_event-Shows :
      (e : StreamEvent) (m : ContentModalState)
      → IsServed contents m.event_id e
      → IsOpen contents m
      → Shows contents m.event_id (apply_event from_utf8 cfg e (some m))
  unfolding apply_event
  apply_event-Shows (StreamEvent.chunk event_id side offset bytes eof n) m r o =
      chunk-Shows event_id side offset bytes eof n m r o
  apply_event-Shows (StreamEvent.failed event_id side error) m r o =
      failed-Shows event_id side error m o
  apply_event-Shows (StreamEvent.scroll new_offset) m r o = scroll-Shows new_offset m o

  -- Whatever chunks, errors and scrolls come in, in whatever order and how often: if each chunk for the
  -- modal's event is a part of that side's content, from its offset on and of the length asked for, and
  -- tells the end only at the end, the modal stays open on its event, and each side has a first part of
  -- its content, no longer than its ceiling, and all of it where it is complete and hit no ceiling.
  pub apply_events-Shows :
      (events : List StreamEvent) (id : ℕ) (o : Option ContentModalState)
      → All (IsServed contents id) events
      → Shows contents id o
      → Shows contents id (apply_events from_utf8 cfg events o)
  unfolding apply_events
  apply_events-Shows [] id o served shown = shown
  apply_events-Shows (e ∷ events) id o served (m, at, same, opened) =
      let now : Shows contents m.event_id (apply_event from_utf8 cfg e (some m)) =
        apply_event-Shows e m (subst (λ k. IsServed contents k e) (sym same) served.0) opened in
      apply_events-Shows events id (apply_event from_utf8 cfg e o) served.1 (
        subst (λ p. Shows contents id (apply_event from_utf8 cfg e p)) (sym at)
          (subst (λ k. Shows contents k (apply_event from_utf8 cfg e (some m))) same now))
