-- ===== src/Events/Stable/Typed.antt =====
-- The keys of the text inputs, and whole sequences of inputs.
use nifi_lens.Base.{
  ℕ, ◌≡◌, Bool, true, false, not, ◌||◌, Option, none, some, List, [], ◌∷◌, All, is_some, if-keeps,
  if-keeps_test, Option-cases, inl, inr, arith,
}
use nifi_lens.Base.Text.{Text}
use nifi_lens.Events.{Parts, EventsState}
use nifi_lens.Events.Verbs.{Meaning, KeyEvent}
use nifi_lens.Events.Watch.{push_predicate_char}
use nifi_lens.Events.Filters.{push_filter_char}
use nifi_lens.Events.Keys.{AppState}
use nifi_lens.Events.Keys.Input.{
  meaning, answer, filter_key, predicate_key, confirm_key, each_char, paste, is_other,
  handle_filter_edit, handle_predicate_edit, handle_exit_watch_confirm, handle_text_input,
}
use nifi_lens.Events.Run.{Input, verb, focus, key, payload, step, run}
use nifi_lens.Events.Stable.{
  Keeps, Stable, enters, Handles, commit_and_restart-stable, handle_verb-stable,
  handle_focus-stable,
}

module _ (E : Parts) (copied : Text → Option Text → Option Text) where
  -- Whether the input does not enter the watch mode, or may.
  unfoldable pub permits : Bool → Input E copied → Bool
  permits entering (verb v) = not (enters v) || entering
  permits entering (focus action) = true
  permits entering (key k) = true
  permits entering (payload p) = true

  abbrev pub Permitted : Bool → List (ℕ × Input E copied) → Type 0
  Permitted entering = All (λ i. permits entering i.1 ≡ true)

module _ (E : Parts) (copied : Text → Option Text → Option Text) (entering : Bool)
    (P : EventsState E → Type 0) (p : Stable entering P) where
  each_char-stable :
      (push : ℕ → EventsState E → EventsState E)
      → ((ch : ℕ) → Keeps P (push ch))
      → (text : Text) → Keeps P (each_char E copied push text)
  unfolding each_char
  each_char-stable push k [] s h = h
  each_char-stable push k (ch ∷ text) s h = each_char-stable push k text _ (k ch s h)

  paste-stable :
      (push : ℕ → EventsState E → EventsState E)
      → ((ch : ℕ) → Keeps P (push ch))
      → (a : AppState E) → P a.events
      → P (paste E copied push a).events
  unfolding paste
  paste-stable push k a h = elim (Option-cases a.clipboard) [
    | inl e ↦ rw e h
    | inr (text, e) ↦ rw e (each_char-stable push k text a.events h)
  ]

  filter_key-stable :
      (m : Meaning) (a : AppState E) → P a.events → Handles P (filter_key E copied m a)
  unfolding filter_key
  filter_key-stable Meaning.cancel a h = p.cancel_filter_edit a.events h
  filter_key-stable Meaning.accept a h = p.commit_filter_edit a.events h
  filter_key-stable Meaning.erase a h = p.pop_filter_char a.events h
  filter_key-stable Meaning.paste a h = paste-stable (push_filter_char E) p.push_filter_char a h
  filter_key-stable Meaning.cut a h =
      p.cancel_filter_edit _ (if-keeps (λ (t : AppState E). P t.events) _ h h)
  filter_key-stable (Meaning.insert ch) a h = p.push_filter_char ch a.events h
  filter_key-stable Meaning.ignore a h = h

  predicate_key-stable :
      (m : Meaning) (a : AppState E) → P a.events → Handles P (predicate_key E copied m a)
  unfolding predicate_key
  predicate_key-stable Meaning.cancel a h = p.unfocus_predicate a.events h
  predicate_key-stable Meaning.accept a h = commit_and_restart-stable E entering P p a h
  predicate_key-stable Meaning.erase a h = p.pop_predicate_char a.events h
  predicate_key-stable Meaning.paste a h =
      paste-stable (push_predicate_char E) p.push_predicate_char a h
  predicate_key-stable Meaning.cut a h =
      p.unfocus_predicate _ (if-keeps (λ (t : AppState E). P t.events) _ h h)
  predicate_key-stable (Meaning.insert ch) a h = p.push_predicate_char ch a.events h
  predicate_key-stable Meaning.ignore a h = h

  confirm_key-stable :
      (o : Option Bool) (a : AppState E)
      → P a.events
      → a.events.exit_watch_pending ≡ true
      → Handles P (confirm_key E copied o a)
  unfolding confirm_key
  confirm_key-stable none a h e = h
  confirm_key-stable (some true) a h e = p.confirm_exit_watch a.events e h
  confirm_key-stable (some false) a h e = p.cancel_exit_watch a.events e h

  handle_text_input-stable :
      (k : KeyEvent) (a : AppState E) → P a.events → Handles P (handle_text_input E copied k a)
  unfolding handle_text_input handle_filter_edit handle_predicate_edit handle_exit_watch_confirm
  handle_text_input-stable k a h = if-keeps (Handles P) (is_other E copied k.modifiers) h (
      if-keeps_test (Handles P) a.events.exit_watch_pending (confirm_key-stable (answer k) a h) (
        if-keeps (Handles P) a.events.predicate_focus (predicate_key-stable (meaning k) a h) (
          if-keeps (Handles P) (is_some a.events.filter_edit) (filter_key-stable (meaning k) a h)
            h)))

  step-stable :
      (now : ℕ) (input : Input E copied) (a : AppState E)
      → permits E copied entering input ≡ true
      → P a.events
      → P (step E copied now input a).events
  unfolding step permits
  step-stable now (verb v) a e h = handle_verb-stable E entering P p now v a (λ i. ground arith) h
  step-stable now (focus action) a e h = handle_focus-stable E entering P p now action a h
  step-stable now (key k) a e h = handle_text_input-stable k a h
  step-stable now (payload q) a e h = p.apply_payload now q a.events h

  pub run-stable :
      (inputs : List (ℕ × Input E copied)) (a : AppState E)
      → Permitted E copied entering inputs
      → P a.events
      → P (run E copied inputs a).events
  unfolding run
  run-stable [] a e h = h
  run-stable ((now, input) ∷ later) a e h =
      if-keeps (λ (t : AppState E). P t.events) a.panicked h
        (run-stable later _ e.1 (step-stable now input a e.0 h))
