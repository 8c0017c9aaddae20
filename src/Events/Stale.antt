-- ===== src/Events/Stale.antt =====
-- Which payloads the status of the query takes, and how a query comes to its end.
use nifi_lens.Base.{
  ℕ, ◌-◌, ◌/◌, ◌%◌, ◌^◌, ◌≡◌, refl, ap, ◌∙◌, Bool, true, false, not, Option, none, some, List, [],
  ◌∷◌, All, arith, if-keeps,
}
use nifi_lens.Base.Text.{Text, text_eq, text_eq_refl}
use nifi_lens.Events.{
  EventsQueryStatus, ProvenanceEventSummary, Parts, EventsState, EventsPayload, query_started,
  query_progress, query_done, query_failed, watch_match, watch_tick, watch_failed,
}
use nifi_lens.Events.Watch.{handle_watch_payload}
use nifi_lens.Events.Payload.{is_running, meets, took_ms, with_percent, apply_payload}

-- A query with the id has been in flight since the time.
pub record IsInFlight {E : Parts} (id : Text) (since : ℕ) (s : EventsState E) : Type 0 where
  pub percent : ℕ
  pub status : s.status ≡ EventsQueryStatus.running (some id) since percent
  pub events : s.events ≡ []

module _ (E : Parts) where
  -- Payloads in the order of arrival, each with the time.
  unfoldable pub apply_payloads : List (ℕ × EventsPayload E) → EventsState E → EventsState E
  apply_payloads [] s = s
  apply_payloads ((now, payload) ∷ later) s = apply_payloads later (apply_payload E now payload s)

  -- Neither starts a query nor ends the one with the id.
  unfoldable pub passes : Text → EventsPayload E → Bool
  passes id (query_started query_id) = false
  passes id (query_progress query_id percent) = true
  passes id (query_done query_id events fetched_at truncated) = not (text_eq id query_id)
  passes id (query_failed none error) = false
  passes id (query_failed (some query_id) error) = not (text_eq id query_id)
  passes id (watch_match summary attrs) = true
  passes id (watch_tick ewma latency scanned matched errors) = true
  passes id (watch_failed error retry_in_ms) = true

  abbrev pub AllPass : Text → List (ℕ × EventsPayload E) → Type 0
  AllPass id = All (λ p. passes id p.1 ≡ true)

  watch_payload-frame :
      (payload : EventsPayload E) (row : Option ℕ) (s : EventsState E)
      → ((handle_watch_payload E payload row s).status ≡ s.status)
        × ((handle_watch_payload E payload row s).events ≡ s.events)
        × ((handle_watch_payload E payload row s).selected_row ≡ s.selected_row)
  unfolding handle_watch_payload
  watch_payload-frame payload row s = ground arith

  others_not_running :
      (id query_id : Text) (since : ℕ) (s : EventsState E)
      → IsInFlight id since s
      → not (text_eq id query_id) ≡ true
      → is_running query_id s.status ≡ false
  unfolding is_running
  others_not_running id query_id since s f h = rw f.status (ground arith)

  progress-IsInFlight :
      (id : Text) (since percent : ℕ) (s : EventsState E)
      → IsInFlight id since s
      → IsInFlight {E = E} id since (record s { status = with_percent percent s.status })
  progress-IsInFlight id since percent s f = record {
    percent = percent;
    status = ap (with_percent percent) f.status;
    events = f.events;
  }

  framed :
      (id : Text) (since : ℕ) (payload : EventsPayload E) (row : Option ℕ) (s : EventsState E)
      → IsInFlight id since s
      → IsInFlight id since (handle_watch_payload E payload row s)
  framed id since payload row s f =
      let same = watch_payload-frame payload row s in
      record { percent = f.percent; status = same.0 ∙ f.status; events = same.1 ∙ f.events }

  passes-IsInFlight :
      (id : Text) (since : ℕ) (now : ℕ) (payload : EventsPayload E) (s : EventsState E)
      → passes id payload ≡ true
      → IsInFlight id since s
      → IsInFlight id since (apply_payload E now payload s)
  unfolding apply_payload passes is_running meets
  passes-IsInFlight id since now (query_started query_id) s h f = absurd (ground arith)
  passes-IsInFlight id since now (query_progress query_id percent) s h f =
      if-keeps (IsInFlight {E = E} id since) (is_running query_id s.status)
        (progress-IsInFlight id since percent s f) f
  passes-IsInFlight id since now (query_done query_id events fetched_at truncated) s h f =
      rw (others_not_running id query_id since s f h) f
  passes-IsInFlight id since now (query_failed none error) s h f = absurd (ground arith)
  passes-IsInFlight id since now (query_failed (some query_id) error) s h f =
      rw (others_not_running id query_id since s f h) f
  passes-IsInFlight id since now (watch_match summary attrs) s h f = framed id since _ _ s f
  passes-IsInFlight id since now (watch_tick ewma latency scanned matched errors) s h f =
      framed id since _ _ s f
  passes-IsInFlight id since now (watch_failed error retry_in_ms) s h f = framed id since _ _ s f

  AllPass-IsInFlight :
      (id : Text) (since : ℕ) (payloads : List (ℕ × EventsPayload E)) (s : EventsState E)
      → AllPass id payloads
      → IsInFlight id since s
      → IsInFlight id since (apply_payloads payloads s)
  unfolding apply_payloads
  AllPass-IsInFlight id since [] s h f = f
  AllPass-IsInFlight id since ((now, payload) ∷ later) s h f =
      AllPass-IsInFlight id since later _ h.1 (passes-IsInFlight id since now payload s h.0 f)

  started-IsInFlight :
      (id : Text) (since : ℕ) (s : EventsState E)
      → IsInFlight id since (apply_payload E since (query_started id) s)
  unfolding apply_payload
  started-IsInFlight id since s = record { percent = 0; status = refl; events = refl }

  end_of_query :
      (id : Text) (since now : ℕ) (s : EventsState E) (events : List ProvenanceEventSummary)
      (fetched_at : ℕ) (truncated : Bool) (error : Text)
      → IsInFlight id since s
      → let shown = apply_payload E now (query_done id events fetched_at truncated) s in
        let broken = apply_payload E now (query_failed (some id) error) s in
        (shown.status
          ≡ EventsQueryStatus.done fetched_at truncated ((fetched_at - since) / 1000000 % 2 ^ 64))
        × (shown.events ≡ events)
        × (shown.selected_row ≡ none)
        × (broken.status ≡ EventsQueryStatus.failed error)
        × (broken.events ≡ [])
  unfolding apply_payload is_running meets took_ms
  end_of_query id since now s events fetched_at truncated error f =
      let meant : is_running id s.status ≡ true = rw f.status (text_eq_refl id) in
      let took =
        ap (λ status. EventsQueryStatus.done fetched_at truncated (took_ms fetched_at status))
          f.status in
      rw meant (took, refl, refl, refl, f.events)

  -- Once a query has started, whatever else arrives that neither starts another nor ends it, its
  -- results are shown when they come, with the time they took, and its error, over no results,
  -- when that comes.
  pub query_comes_to_end :
      (id : Text) (since now : ℕ) (payloads : List (ℕ × EventsPayload E)) (s : EventsState E)
      (events : List ProvenanceEventSummary) (fetched_at : ℕ) (truncated : Bool) (error : Text)
      → AllPass id payloads
      → let waiting = apply_payloads payloads (apply_payload E since (query_started id) s) in
        let shown = apply_payload E now (query_done id events fetched_at truncated) waiting in
        let broken = apply_payload E now (query_failed (some id) error) waiting in
        (shown.status
          ≡ EventsQueryStatus.done fetched_at truncated ((fetched_at - since) / 1000000 % 2 ^ 64))
        × (shown.events ≡ events)
        × (shown.selected_row ≡ none)
        × (broken.status ≡ EventsQueryStatus.failed error)
        × (broken.events ≡ [])
  query_comes_to_end id since now payloads s events fetched_at truncated error h =
      end_of_query id since now _ events fetched_at truncated error
        (AllPass-IsInFlight id since payloads _ h (started-IsInFlight id since s))
