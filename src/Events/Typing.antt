-- ===== src/Events/Typing.antt =====
-- A filter from its entry to Esc, Enter or the key that cuts.
use nifi_lens.Base.{
  ◌≡◌, refl, ap, ◌∙◌, false, Option, none, some, List, is_empty, ◌⊎◌, inl, inr, arith,
  if◌then◌else◌,
}
use nifi_lens.Base.Text.{Text}
use nifi_lens.Events.{FilterField, EventsFilters, get, set, Parts}
use nifi_lens.Events.Verbs.{KeyCode, KeyEvent, Meaning}
use nifi_lens.Events.Filters.{commit_filter_edit, enter_filter_edit, cancel_filter_edit}
use nifi_lens.Events.Keys.{AppState, on_events}
use nifi_lens.Events.Keys.Input.{meaning, filter_key}
use nifi_lens.Events.Edited.{
  set-get, set-set, typed_text, plain_key, press, press_all, AllEdit, IsTyped, press-eq-filter_key,
  press_all-IsTyped, enter-IsEdited,
}

module _ (E : Parts) (copied : Text → Option Text → Option Text) where
  module _ (before : EventsFilters) (field : FilterField) where
    ended_by :
        (m : Meaning) (clip : Option Text) (buf : Text) (a : AppState E)
        → IsTyped E copied before field clip buf a
        → (m ≡ Meaning.cancel) ⊎ (m ≡ Meaning.cut)
        → let b = (filter_key E copied m a).0 in
          (b.events.filters ≡ before) × (b.events.filter_edit ≡ none)
    unfolding filter_key cancel_filter_edit
    ended_by m clip buf a t e = grind (arith, set-set, set-get)

    accepted :
        (clip : Option Text) (buf : Text) (a : AppState E)
        → IsTyped E copied before field clip buf a
        → let b = (filter_key E copied Meaning.accept a).0 in
          (b.events.filters ≡ set field buf before) × (b.events.filter_edit ≡ none)
    unfolding filter_key commit_filter_edit
    accepted clip buf a t = (t.0.filters, refl)

    cut_text :
        (clip : Option Text) (buf : Text) (a : AppState E)
        → IsTyped E copied before field clip buf a
        → (filter_key E copied Meaning.cut a).0.clipboard
          ≡ (if is_empty buf then clip else copied buf clip)
    unfolding filter_key
    cut_text clip buf a t = grind arith

    -- What Esc, Enter and `x` make of the edited field.
    ends_of_edit :
        (clip : Option Text) (buf : Text) (a : AppState E)
        → IsTyped E copied before field clip buf a
        → let back = press E copied (plain_key KeyCode.esc) a in
          let kept = press E copied (plain_key KeyCode.enter) a in
          let cut = press E copied (plain_key (KeyCode.char b'x')) a in
          (back.events.filters ≡ before)
          × (back.events.filter_edit ≡ none)
          × (kept.events.filters ≡ set field buf before)
          × (kept.events.filter_edit ≡ none)
          × (cut.events.filters ≡ before)
          × (cut.events.filter_edit ≡ none)
          × (cut.clipboard ≡ (if is_empty buf then clip else copied buf clip))
    unfolding meaning
    ends_of_edit clip buf a t =
        let back =
          press-eq-filter_key E copied before field (plain_key KeyCode.esc) buf a refl t.0 in
        let kept =
          press-eq-filter_key E copied before field (plain_key KeyCode.enter) buf a refl t.0 in
        let cut =
          press-eq-filter_key E copied before field (plain_key (KeyCode.char b'x')) buf a refl
            t.0 in
        let esc = ended_by Meaning.cancel clip buf a t (inl refl) in
        let enter = accepted clip buf a t in
        let x = ended_by Meaning.cut clip buf a t (inr refl) in
        let filters : AppState E → EventsFilters = λ b. b.events.filters in
        let edit : AppState E → Option (FilterField × Text) = λ b. b.events.filter_edit in
        (
          ap filters back ∙ esc.0,
          ap edit back ∙ esc.1,
          ap filters kept ∙ enter.0,
          ap edit kept ∙ enter.1,
          ap filters cut ∙ x.0,
          ap edit cut ∙ x.1,
          ap (λ (b : AppState E). b.clipboard) cut ∙ cut_text clip buf a t,
        )

  -- With no confirmation open and the focus not in the predicate's input: after a filter is entered
  -- and edited by any keys (a paste inserts what the clipboard reads as), it is shown with the typed
  -- text and the others are as they were; Esc and `x` then restore the filters of before, `x` with
  -- the text copied, unless it is empty, Enter keeps the typed text, and each ends the edit.
  pub filter_typing_round :
      (field : FilterField) (keys : List KeyEvent) (a : AppState E)
      → a.events.exit_watch_pending ≡ false
      → a.events.predicate_focus ≡ false
      → AllEdit E copied keys
      → let before = a.events.filters in
        let text = typed_text keys a.clipboard (get field before) in
        let typed = press_all E copied keys (on_events E (enter_filter_edit E field) a) in
        let back = press E copied (plain_key KeyCode.esc) typed in
        let kept = press E copied (plain_key KeyCode.enter) typed in
        let cut = press E copied (plain_key (KeyCode.char b'x')) typed in
        (typed.events.filters ≡ set field text before)
        × (typed.events.filter_edit ≡ some (field, text))
        × (back.events.filters ≡ before)
        × (back.events.filter_edit ≡ none)
        × (kept.events.filters ≡ set field text before)
        × (kept.events.filter_edit ≡ none)
        × (cut.events.filters ≡ before)
        × (cut.events.filter_edit ≡ none)
        × (cut.clipboard ≡ (if is_empty text then a.clipboard else copied text a.clipboard))
  filter_typing_round field keys a q f e =
      let before = a.events.filters in
      let t =
        press_all-IsTyped E copied before field a.clipboard keys (get field before) _ e
          (enter-IsEdited E copied field a.events q f, refl) in
      let ends = ends_of_edit before field a.clipboard _ _ t in
      (t.0.filters, t.0.edit, ends.0, ends.1, ends.2, ends.3, ends.4, ends.5, ends.6)
