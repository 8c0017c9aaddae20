-- ===== src/Events/Edited.antt =====
-- A filter while it is edited: what each key leaves.
use nifi_lens.Base.{
  ℕ, ◌≡◌, refl, sym, ap, subst, ◌∙◌, Bool, true, false, not, ◌&&◌, Option, none, some, List, [],
  ◌∷◌, ◌++◌, append_assoc, append-nil, All, is_some, if_true, if_false, arith,
}
use nifi_lens.Base.Text.{Text, pop_char, or_empty}
use nifi_lens.Events.{FilterField, EventsFilters, get, set, Parts, EventsState}
use nifi_lens.Events.Verbs.{KeyCode, KeyModifiers, KeyEvent, Meaning}
use nifi_lens.Events.Filters.{
  commit_filter_edit, enter_filter_edit, push_filter_char, pop_filter_char,
}
use nifi_lens.Events.Keys.{UpdateResult, AppState}
use nifi_lens.Events.Keys.Input.{
  meaning, each_char, paste, is_other, filter_key, handle_filter_edit, handle_text_input,
}

pub set-get : (field : FilterField) (f : EventsFilters) → set field (get field f) f ≡ f
unfolding set get
set-get FilterField.time f = refl
set-get FilterField.types f = refl
set-get FilterField.source f = refl
set-get FilterField.uuid f = refl
set-get FilterField.attr f = refl

pub set-set :
    (field : FilterField) (t u : Text) (f : EventsFilters)
    → set field t (set field u f) ≡ set field t f
unfolding set
set-set FilterField.time t u f = refl
set-set FilterField.types t u f = refl
set-set FilterField.source t u f = refl
set-set FilterField.uuid t u f = refl
set-set FilterField.attr t u f = refl

-- Neither Esc, nor Enter, nor the key that cuts.
abbrev pub edits : Meaning → Bool
edits Meaning.cancel = false
edits Meaning.accept = false
edits Meaning.cut = false
edits m = true

-- What a key makes of the text, with what the clipboard reads as.
abbrev pub edited : Meaning → Option Text → Text → Text
edited (Meaning.insert ch) clip buf = buf ++ ch ∷ []
edited Meaning.erase clip buf = pop_char buf
edited Meaning.paste clip buf = buf ++ or_empty clip
edited m clip buf = buf

unfoldable pub typed_text : List KeyEvent → Option Text → Text → Text
unfolding meaning
typed_text [] clip buf = buf
typed_text (k ∷ keys) clip buf = typed_text keys clip (edited (meaning k) clip buf)

abbrev pub plain_key : KeyCode → KeyEvent
plain_key code = record { code = code; modifiers = KeyModifiers.plain }

module _ (E : Parts) (copied : Text → Option Text → Option Text) where
  abbrev pub press : KeyEvent → AppState E → AppState E
  press k a = (handle_text_input E copied k a).0

  unfoldable pub press_all : List KeyEvent → AppState E → AppState E
  unfolding handle_text_input
  press_all [] a = a
  press_all (k ∷ keys) a = press_all keys (press k a)

  -- The keys edit the text, without a modifier or with Shift.
  abbrev pub AllEdit : List KeyEvent → Type 0
  AllEdit = All (λ k. (edits (meaning k) && not (is_other E copied k.modifiers)) ≡ true)

  -- The field is edited and holds the text; `before` were the filters without it.
  pub record IsEdited (before : EventsFilters) (field : FilterField) (buf : Text)
      (s : EventsState E) : Type 0 where
    pub edit : s.filter_edit ≡ some (field, buf)
    pub filters : s.filters ≡ set field buf before
    pub saved : s.pre_edit_value ≡ some (get field before)
    pub quiet : s.exit_watch_pending ≡ false
    pub focus : s.predicate_focus ≡ false

  module _ (before : EventsFilters) (field : FilterField) where
    push-IsEdited :
        (ch : ℕ) (buf : Text) (s : EventsState E)
        → IsEdited before field buf s
        → IsEdited before field (buf ++ ch ∷ []) (push_filter_char E ch s)
    unfolding push_filter_char
    push-IsEdited ch buf s t = grind (arith, set-set)

    pop-IsEdited :
        (buf : Text) (s : EventsState E)
        → IsEdited before field buf s
        → IsEdited before field (pop_char buf) (pop_filter_char E s)
    unfolding pop_filter_char
    pop-IsEdited buf s t = grind (arith, set-set)

    each_char-IsEdited :
        (text buf : Text) (s : EventsState E)
        → IsEdited before field buf s
        → IsEdited before field (buf ++ text) (each_char E copied (push_filter_char E) text s)
    unfolding each_char
    each_char-IsEdited [] buf s t = rw (append-nil {A = ℕ}) t
    each_char-IsEdited (ch ∷ text) buf s t =
        rw (sym (append_assoc buf (ch ∷ []) text))
          (each_char-IsEdited text (buf ++ ch ∷ []) _ (push-IsEdited ch buf s t))

    abbrev pub IsTyped : Option Text → Text → AppState E → Type 0
    IsTyped clip buf a = IsEdited before field buf a.events × (a.clipboard ≡ clip)

    paste-IsTyped :
        (clip : Option Text) (buf : Text) (a : AppState E)
        → IsTyped clip buf a
        → IsTyped clip (buf ++ or_empty clip) (paste E copied (push_filter_char E) a)
    unfolding paste
    paste-IsTyped none buf a t = grind (arith, append-nil buf)
    paste-IsTyped (some text) buf a t = grind (arith, each_char-IsEdited text buf a.events t.0)

    filter_key-IsTyped :
        (clip : Option Text) (m : Meaning) (buf : Text) (a : AppState E)
        → edits m ≡ true
        → IsTyped clip buf a
        → IsTyped clip (edited m clip buf) (filter_key E copied m a).0
    unfolding filter_key
    filter_key-IsTyped clip Meaning.cancel buf a e t = absurd (ground arith)
    filter_key-IsTyped clip Meaning.accept buf a e t = absurd (ground arith)
    filter_key-IsTyped clip Meaning.erase buf a e t = (pop-IsEdited buf a.events t.0, t.1)
    filter_key-IsTyped clip Meaning.paste buf a e t = paste-IsTyped clip buf a t
    filter_key-IsTyped clip Meaning.cut buf a e t = absurd (ground arith)
    filter_key-IsTyped clip (Meaning.insert ch) buf a e t = (push-IsEdited ch buf a.events t.0, t.1)
    filter_key-IsTyped clip Meaning.ignore buf a e t = t

    -- The key goes to the filter.
    pub press-eq-filter_key :
        (k : KeyEvent) (buf : Text) (a : AppState E)
        → is_other E copied k.modifiers ≡ false
        → IsEdited before field buf a.events
        → press k a ≡ (filter_key E copied (meaning k) a).0
    unfolding handle_text_input handle_filter_edit
    press-eq-filter_key k buf a e t =
        ap (λ (r : AppState E × Option UpdateResult). r.0)
          (if_false _ _ e
            ∙ if_false _ _ t.quiet
            ∙ if_false _ _ t.focus
            ∙ if_true _ _ (ap is_some t.edit))

    pub press_all-IsTyped :
        (clip : Option Text) (keys : List KeyEvent) (buf : Text) (a : AppState E)
        → AllEdit keys
        → IsTyped clip buf a
        → IsTyped clip (typed_text keys clip buf) (press_all keys a)
    unfolding press_all typed_text
    press_all-IsTyped clip [] buf a e t = t
    press_all-IsTyped clip (k ∷ keys) buf a e t =
        let same = press-eq-filter_key k buf a (ground arith) t.0 in
        let one = filter_key-IsTyped clip (meaning k) buf a (ground arith) t in
        press_all-IsTyped clip keys _ (press k a) e.1
          (subst (IsTyped clip (edited (meaning k) clip buf)) (sym same) one)

  pub enter-IsEdited :
      (field : FilterField) (s : EventsState E)
      → s.exit_watch_pending ≡ false
      → s.predicate_focus ≡ false
      → IsEdited s.filters field (get field s.filters) (enter_filter_edit E field s)
  unfolding enter_filter_edit commit_filter_edit
  enter-IsEdited field s q f = grind (arith, set-get)
