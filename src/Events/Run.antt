-- ===== src/Events/Run.antt =====
-- The inputs of the Events tab and what a sequence of them makes of it.
use nifi_lens.Base.{ℕ, Option, List, [], ◌∷◌, if◌then◌else◌}
use nifi_lens.Base.Text.{Text}
use nifi_lens.Events.{Parts, EventsPayload}
use nifi_lens.Events.Verbs.{ViewVerb, FocusAction, KeyEvent}
use nifi_lens.Events.Payload.{apply_payload}
use nifi_lens.Events.Keys.{AppState, on_events, handle_verb}
use nifi_lens.Events.Keys.Focus.{handle_focus}
use nifi_lens.Events.Keys.Input.{handle_text_input}

module _ (E : Parts) (copied : Text → Option Text → Option Text) where
  pub data Input : Type 0 where
    verb : ViewVerb → Input
    focus : FocusAction → Input
    key : KeyEvent → Input
    payload : EventsPayload E → Input

  unfoldable pub step : ℕ → Input → AppState E → AppState E
  step now (verb v) a = (handle_verb E now v a).0
  step now (focus action) a = (handle_focus E now action a).0
  step now (key k) a = (handle_text_input E copied k a).0
  step now (payload p) a = on_events E (apply_payload E now p) a

  -- Inputs in their order, each with the time. A panic ends the program.
  unfoldable pub run : List (ℕ × Input) → AppState E → AppState E
  run [] a = a
  run ((now, input) ∷ later) a =
      let rest = run later (step now input a) in if a.panicked then a else rest
