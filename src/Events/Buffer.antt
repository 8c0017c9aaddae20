-- ===== src/Events/Buffer.antt =====
-- The rolling buffer of a watch: what it keeps of the events that matched.
use nifi_lens.Base.{
  ℕ, ◌+◌, ◌-◌, ◌≤◌, ◌<◌, min, ◌≡◌, refl, sym, ap, ◌∙◌, false, Option, List, [], ◌∷◌, ◌++◌,
  append_assoc, append-nil, length, length-append, length-drop, leb, leb→le, Bool-cases, inl, inr,
  usize_max, arith, if-keeps,
}
use nifi_lens.Base.Window.{keep_last, keep_last-append, keep_last_short, keep_last-cons}
use nifi_lens.Events.{
  MatchedEvent, Parts, WatchSession, watching, EventsState, EventsPayload, query_started,
  query_progress, query_done, query_failed, watch_match, watch_tick, watch_failed,
}
use nifi_lens.Events.Watch.{remove, is_first, trim_idx, push_event, handle_watch_payload}
use nifi_lens.Events.Payload.{is_running, meets, apply_payload}
use nifi_lens.Events.Stale.{apply_payloads}

remove-keep_last {ℓ} :
    {A : Type ℓ} (cap : ℕ) (b : List A) (x : A)
    → 1 ≤ cap
    → length b ≡ cap
    → remove 0 b ++ x ∷ [] ≡ keep_last cap (b ++ x ∷ [])
unfolding remove
remove-keep_last cap [] x p h = absurd (omega arith)
remove-keep_last cap (y ∷ ys) x p h =
    let longer = length-append ys (x ∷ []) in
    sym (
      keep_last-cons cap y (ys ++ x ∷ []) (omega arith)
      ∙ keep_last_short cap (ys ++ x ∷ []) (omega arith))

-- The buffer is that of the last of `seen`; `trimmed` were dropped before.
record IsTail {E : Parts} (seen : List MatchedEvent) (trimmed : ℕ) (w : WatchSession E)
    : Type 0 where
  buffer : w.buffer ≡ keep_last w.buffer_cap seen
  dropped : w.stats.trimmed_total ≡ min (trimmed + (length seen - w.buffer_cap)) usize_max
  room : 1 ≤ w.buffer_cap

module _ (E : Parts) where
  push_event-IsTail :
      (seen : List MatchedEvent) (trimmed : ℕ) (ev : MatchedEvent) (row : Option ℕ)
      (w : WatchSession E)
      → is_first row ≡ false
      → IsTail seen trimmed w
      → IsTail {E = E} (seen ++ ev ∷ []) trimmed (push_event E ev row w)
  unfolding push_event trim_idx
  push_event-IsTail seen trimmed ev row w h t =
      let cap = w.buffer_cap in
      let kept : length w.buffer ≡ length (keep_last cap seen) = ap length t.buffer in
      let cut = length-drop (length seen - cap) seen in
      let longer = length-append seen (ev ∷ []) in
      let longer_buffer = length-append w.buffer (ev ∷ []) in
      let grown : keep_last cap (w.buffer ++ ev ∷ []) ≡ keep_last cap (seen ++ ev ∷ []) =
        rw t.buffer (keep_last-append cap seen (ev ∷ [])) in
      elim (Bool-cases (leb cap (length w.buffer))) [
        | inl e ↦
            let full = leb→le cap (length w.buffer) e in
            rw e (
              rw h (record {
                buffer = remove-keep_last cap w.buffer ev t.room (omega arith) ∙ grown;
                dropped = omega arith;
                room = t.room;
              }))
        | inr e ↦
            let short : length w.buffer < cap = ground arith in
            rw e (record {
              buffer = sym (keep_last_short cap (w.buffer ++ ev ∷ []) (omega arith)) ∙ grown;
              dropped = omega arith;
              room = t.room;
            })
      ]

  -- The events that matched, in the order of arrival.
  unfoldable pub matched : List (ℕ × EventsPayload E) → List MatchedEvent
  matched [] = []
  matched ((now, watch_match summary attrs) ∷ later) =
      record { summary = summary; attrs = attrs } ∷ matched later
  matched ((now, query_started query_id) ∷ later) = matched later
  matched ((now, query_progress query_id percent) ∷ later) = matched later
  matched ((now, query_done query_id events fetched_at truncated) ∷ later) = matched later
  matched ((now, query_failed query_id error) ∷ later) = matched later
  matched ((now, watch_tick ewma latency scanned matched_events errors) ∷ later) = matched later
  matched ((now, watch_failed error retry_in_ms) ∷ later) = matched later

  -- The tab watches with such a session, and its selection is not on the first row.
  record Watches (seen : List MatchedEvent) (trimmed cap : ℕ) (s : EventsState E) : Type 0 where
    session : WatchSession E
    mode : s.mode ≡ watching session
    bound : session.buffer_cap ≡ cap
    row : is_first s.selected_row ≡ false
    tail : IsTail seen trimmed session

  push_event-buffer_cap :
      (ev : MatchedEvent) (row : Option ℕ) (w : WatchSession E)
      → (push_event E ev row w).buffer_cap ≡ w.buffer_cap
  unfolding push_event
  push_event-buffer_cap ev row w = ground arith

  -- Of the payloads without a match the watch keeps its tail.
  no_match :
      (seen : List MatchedEvent) (trimmed cap : ℕ) (s : EventsState E)
      → Watches seen trimmed cap s
      → Watches (seen ++ []) trimmed cap s
  no_match seen trimmed cap s t = rw (append-nil {A = MatchedEvent}) t

  with_session :
      (seen : List MatchedEvent) (trimmed cap : ℕ) (s : EventsState E) (w : WatchSession E)
      → is_first s.selected_row ≡ false
      → w.buffer_cap ≡ cap
      → IsTail seen trimmed w
      → Watches seen trimmed cap (record s { mode = watching w })
  with_session seen trimmed cap s w row bound tail = record {
    session = w;
    mode = refl;
    bound = bound;
    row = row;
    tail = tail;
  }

  apply_payload-Watches :
      (seen : List MatchedEvent) (trimmed cap now : ℕ) (payload : EventsPayload E)
      (s : EventsState E)
      → Watches seen trimmed cap s
      → Watches (seen ++ matched ((now, payload) ∷ [])) trimmed cap (apply_payload E now payload s)
  unfolding apply_payload matched handle_watch_payload
  apply_payload-Watches seen trimmed cap now (watch_match summary attrs) s t =
      let ev : MatchedEvent = record { summary = summary; attrs = attrs } in
      rw t.mode (
        with_session (seen ++ ev ∷ []) trimmed cap s (push_event E ev s.selected_row t.session)
          t.row (push_event-buffer_cap ev s.selected_row t.session ∙ t.bound)
          (push_event-IsTail seen trimmed ev s.selected_row t.session t.row t.tail))
  apply_payload-Watches seen trimmed cap now (query_started query_id) s t =
      no_match seen trimmed cap _
        (record { session = t.session; mode = t.mode; bound = t.bound; row = refl; tail = t.tail })
  apply_payload-Watches seen trimmed cap now (query_progress query_id percent) s t =
      no_match seen trimmed cap _ (
        if-keeps (Watches seen trimmed cap) (is_running query_id s.status)
          (record {
            session = t.session;
            mode = t.mode;
            bound = t.bound;
            row = t.row;
            tail = t.tail;
          })
          t)
  apply_payload-Watches seen trimmed cap now (query_done query_id events fetched_at truncated) s t =
      no_match seen trimmed cap _ (
        if-keeps (Watches seen trimmed cap) (is_running query_id s.status)
          (record {
            session = t.session;
            mode = t.mode;
            bound = t.bound;
            row = refl;
            tail = t.tail;
          })
          t)
  apply_payload-Watches seen trimmed cap now (query_failed query_id error) s t =
      no_match seen trimmed cap _ (
        if-keeps (Watches seen trimmed cap) (meets query_id s.status)
          (record {
            session = t.session;
            mode = t.mode;
            bound = t.bound;
            row = t.row;
            tail = t.tail;
          })
          t)
  apply_payload-Watches seen trimmed cap now (watch_tick ewma latency scanned found errors) s t =
      no_match seen trimmed cap _ (
        rw t.mode (
          with_session seen trimmed cap s _ t.row t.bound (record {
            buffer = (t.tail).buffer;
            dropped = (t.tail).dropped;
            room = (t.tail).room;
          })))
  apply_payload-Watches seen trimmed cap now (watch_failed error retry_in_ms) s t =
      no_match seen trimmed cap _ (
        rw t.mode (
          with_session seen trimmed cap s _ t.row t.bound (record {
            buffer = (t.tail).buffer;
            dropped = (t.tail).dropped;
            room = (t.tail).room;
          })))

  matched-cons :
      (now : ℕ) (payload : EventsPayload E) (later : List (ℕ × EventsPayload E))
      → matched ((now, payload) ∷ later) ≡ matched ((now, payload) ∷ []) ++ matched later
  unfolding matched
  matched-cons now (watch_match summary attrs) later = refl
  matched-cons now (query_started query_id) later = refl
  matched-cons now (query_progress query_id percent) later = refl
  matched-cons now (query_done query_id events fetched_at truncated) later = refl
  matched-cons now (query_failed query_id error) later = refl
  matched-cons now (watch_tick ewma latency scanned found errors) later = refl
  matched-cons now (watch_failed error retry_in_ms) later = refl

  apply_payloads-Watches :
      (seen : List MatchedEvent) (trimmed cap : ℕ) (payloads : List (ℕ × EventsPayload E))
      (s : EventsState E)
      → Watches seen trimmed cap s
      → Watches (seen ++ matched payloads) trimmed cap (apply_payloads E payloads s)
  unfolding apply_payloads matched
  apply_payloads-Watches seen trimmed cap [] s t = no_match seen trimmed cap s t
  apply_payloads-Watches seen trimmed cap ((now, payload) ∷ later) s t =
      let one = matched ((now, payload) ∷ []) in
      let next = apply_payload-Watches seen trimmed cap now payload s t in
      let all : (seen ++ one) ++ matched later ≡ seen ++ matched ((now, payload) ∷ later) =
        append_assoc seen one (matched later)
        ∙ ap (λ ms. seen ++ ms) (sym (matched-cons now payload later)) in
      rw (sym all) (apply_payloads-Watches (seen ++ one) trimmed cap later _ next)

  shown_tail :
      (seen : List MatchedEvent) (trimmed cap : ℕ) (s : EventsState E)
      → Watches seen trimmed cap s
      → (v : WatchSession E) × (s.mode ≡ watching v)
        × (v.buffer ≡ keep_last cap seen)
        × (v.stats.trimmed_total ≡ min (trimmed + (length seen - cap)) usize_max)
  shown_tail seen trimmed cap s t = (
    t.session,
    t.mode,
    (t.tail).buffer ∙ ap (λ c. keep_last c seen) t.bound,
    (t.tail).dropped ∙ ap (λ c. min (trimmed + (length seen - c)) usize_max) t.bound,
  )

  -- Whatever payloads arrive, a watch whose selection is not on the first row has the last
  -- `buffer_cap` of the events of its buffer and of those that matched, in the order of arrival,
  -- for a buffer within a capacity that is not 0; `trimmed_total` grows by the number of the
  -- others and stops at the end of 64 bits.
  pub watch_keeps_last :
      (payloads : List (ℕ × EventsPayload E)) (w : WatchSession E) (s : EventsState E)
      → s.mode ≡ watching w
      → is_first s.selected_row ≡ false
      → 1 ≤ w.buffer_cap
      → length w.buffer ≤ w.buffer_cap
      → w.stats.trimmed_total ≤ usize_max
      → let arrived = w.buffer ++ matched payloads in
        let over = length arrived - w.buffer_cap in
        (v : WatchSession E) × ((apply_payloads E payloads s).mode ≡ watching v)
        × (v.buffer ≡ keep_last w.buffer_cap arrived)
        × (v.stats.trimmed_total ≡ min (w.stats.trimmed_total + over) usize_max)
  watch_keeps_last payloads w s mode row room h trimmed =
      let tail : IsTail {E = E} w.buffer w.stats.trimmed_total w = record {
        buffer = sym (keep_last_short w.buffer_cap w.buffer h);
        dropped = omega arith;
        room = room;
      } in
      shown_tail (w.buffer ++ matched payloads) w.stats.trimmed_total w.buffer_cap _ (
        apply_payloads-Watches w.buffer w.stats.trimmed_total w.buffer_cap payloads s
          (record { session = w; mode = mode; bound = refl; row = row; tail = tail }))
