-- ===== src/Events/Keys/Input.antt =====
-- src/app/state/events.rs, the keys that go to a text input or to the confirmation of the exit.
use nifi_lens.Base.{
  ℕ, ◌+◌, Bool, true, false, ◌&&◌, ◌||◌, Option, none, some, [], ◌∷◌, is_empty, is_some, ◌==◌,
  if◌then◌else◌,
}
use nifi_lens.Base.Text.{Text, or_empty}
use nifi_lens.Events.{Parts, EventsState, watch}
use nifi_lens.Events.Verbs.{KeyCode, KeyModifiers, KeyEvent, Meaning}
use nifi_lens.Events.Watch.{
  unfocus_predicate, push_predicate_char, pop_predicate_char, confirm_exit_watch, cancel_exit_watch,
}
use nifi_lens.Events.Filters.{
  commit_filter_edit, cancel_filter_edit, push_filter_char, pop_filter_char, current_filter_value,
}
use nifi_lens.Events.Keys.{UpdateResult, redraw, swallowed, AppState, on_events, commit_and_restart}

abbrev pub is_plain : KeyModifiers → Bool
is_plain KeyModifiers.plain = true
is_plain _ = false

unfoldable pub meaning : KeyEvent → Meaning
meaning key = elim (key.code) [
  | KeyCode.esc ↦ Meaning.cancel
  | KeyCode.enter ↦ Meaning.accept
  | KeyCode.backspace ↦ Meaning.erase
  | KeyCode.char ch ↦
      if ch == b'v' && is_plain key.modifiers
      then Meaning.paste
      else if ch == b'x' && is_plain key.modifiers
      then Meaning.cut
      else Meaning.insert ch
  | KeyCode.other ↦ Meaning.ignore
]

-- What a key answers to the question whether the watch may go.
unfoldable pub answer : KeyEvent → Option Bool
answer key = elim (key.code) [
  | KeyCode.esc ↦ some false
  | KeyCode.enter ↦ none
  | KeyCode.backspace ↦ none
  | KeyCode.char ch ↦
      if ch == b'y' || ch == b'Y'
      then some true
      else if ch == b'n' || ch == b'N'
      then some false
      else none
  | KeyCode.other ↦ none
]

module _ (E : Parts) (copied : Text → Option Text → Option Text) where
  -- `copied` is what the clipboard reads as after a copy, which may fail.
  abbrev pub copy_to_clipboard : Text → AppState E → AppState E
  copy_to_clipboard text a =
      if is_empty text then a else record a { clipboard = copied text a.clipboard }

  -- `for ch in text.chars()`.
  unfoldable pub each_char :
      (ℕ → EventsState E → EventsState E) → Text → EventsState E → EventsState E
  each_char push [] s = s
  each_char push (ch ∷ text) s = each_char push text (push ch s)

  unfoldable pub paste : (ℕ → EventsState E → EventsState E) → AppState E → AppState E
  unfolding each_char
  paste push a = elim (a.clipboard) [
    | none ↦ record a { warnings = a.warnings + 1 }
    | some text ↦ on_events E (each_char push text) a
  ]

  abbrev pub predicate_text : EventsState E → Text
  predicate_text s = elim (watch E s) [ none ↦ [] | some w ↦ w.predicate_input ]

  unfoldable pub filter_key : Meaning → AppState E → AppState E × Option UpdateResult
  unfolding paste cancel_filter_edit commit_filter_edit pop_filter_char push_filter_char
  filter_key Meaning.cancel a = (on_events E (cancel_filter_edit E) a, redraw)
  filter_key Meaning.accept a = (on_events E (commit_filter_edit E) a, redraw)
  filter_key Meaning.erase a = (on_events E (pop_filter_char E) a, redraw)
  filter_key Meaning.paste a = (paste (push_filter_char E) a, redraw)
  filter_key Meaning.cut a = (
    on_events E (cancel_filter_edit E)
        (copy_to_clipboard (or_empty (current_filter_value E a.events)) a),
    redraw,
  )
  filter_key (Meaning.insert ch) a = (on_events E (push_filter_char E ch) a, redraw)
  filter_key Meaning.ignore a = (a, swallowed)

  unfoldable pub handle_filter_edit : KeyEvent → AppState E → AppState E × Option UpdateResult
  unfolding filter_key meaning
  handle_filter_edit key = filter_key (meaning key)

  unfoldable pub predicate_key : Meaning → AppState E → AppState E × Option UpdateResult
  unfolding paste unfocus_predicate commit_and_restart
  predicate_key Meaning.cancel a = (on_events E (unfocus_predicate E) a, redraw)
  predicate_key Meaning.accept a = (commit_and_restart E a, redraw)
  predicate_key Meaning.erase a = (on_events E (pop_predicate_char E) a, redraw)
  predicate_key Meaning.paste a = (paste (push_predicate_char E) a, redraw)
  predicate_key Meaning.cut a =
      (on_events E (unfocus_predicate E) (copy_to_clipboard (predicate_text a.events) a), redraw)
  predicate_key (Meaning.insert ch) a = (on_events E (push_predicate_char E ch) a, redraw)
  predicate_key Meaning.ignore a = (a, swallowed)

  unfoldable pub handle_predicate_edit : KeyEvent → AppState E → AppState E × Option UpdateResult
  unfolding predicate_key meaning
  handle_predicate_edit key = predicate_key (meaning key)

  unfoldable pub confirm_key : Option Bool → AppState E → AppState E × Option UpdateResult
  unfolding confirm_exit_watch cancel_exit_watch
  confirm_key (some true) a = (on_events E (confirm_exit_watch E) a, redraw)
  confirm_key (some false) a = (on_events E (cancel_exit_watch E) a, redraw)
  confirm_key none a = (a, swallowed)

  unfoldable pub handle_exit_watch_confirm :
      KeyEvent → AppState E → AppState E × Option UpdateResult
  unfolding confirm_key answer
  handle_exit_watch_confirm key = confirm_key (answer key)

  abbrev pub is_other : KeyModifiers → Bool
  is_other KeyModifiers.other = true
  is_other _ = false

  unfoldable pub handle_text_input : KeyEvent → AppState E → AppState E × Option UpdateResult
  unfolding handle_filter_edit handle_predicate_edit handle_exit_watch_confirm
  handle_text_input key a =
      if is_other key.modifiers
      then (a, none)
      else if a.events.exit_watch_pending
      then handle_exit_watch_confirm key a
      else if a.events.predicate_focus
      then handle_predicate_edit key a
      else if is_some a.events.filter_edit
      then handle_filter_edit key a
      else (a, none)

  -- `is_text_input_focused` and `blocks_app_shortcuts`.
  abbrev pub is_text_input_focused : AppState E → Bool
  is_text_input_focused a =
      is_some a.events.filter_edit || a.events.predicate_focus || a.events.exit_watch_pending
