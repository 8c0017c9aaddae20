-- ===== src/Bulletins/Typing.antt =====
-- The text filter while it is typed: what the keys leave, and what commit and cancel make of it.
use nifi_lens.Base.{
  ℕ, ◌≡◌, refl, Option, none, some, List, [], ◌∷◌, ◌++◌, is_empty, Bool-cases, inl, inr, arith,
}
use nifi_lens.Base.Text.{Text, pop_char, trim}
use nifi_lens.Bulletins.{FilterState, BulletinsState}
use nifi_lens.Bulletins.View.{grouped_view}
use nifi_lens.Bulletins.Selection.{reconcile_selection}
use nifi_lens.Bulletins.Filters.{
  push_text_input, pop_text_input, commit_text_input, cancel_text_input, enter_text_input_mode,
}

-- A key, with the ring index that the caller hands over.
pub data Key : Type 0 where
  push : ℕ → Option ℕ → Key
  pop : Option ℕ → Key

-- What the keys make of the text in the input.
unfoldable pub edit : List Key → Text → Text
edit [] buf = buf
edit (Key.push ch prev ∷ keys) buf = edit keys (buf ++ ch ∷ [])
edit (Key.pop prev ∷ keys) buf = edit keys (pop_char buf)

-- The input is open with the text, which filters already; `before` were the filters without it.
pub record IsTyping (before : FilterState) (buf : Text) (s : BulletinsState) : Type 0 where
  pub input : s.text_input ≡ some buf
  pub filters : s.filters ≡ record before { text = buf }
  pub saved : s.pre_input_text ≡ some before.text

module _ (to_lowercase : Text → Text) where
  unfoldable pub type_keys : List Key → BulletinsState → BulletinsState
  type_keys [] s = s
  type_keys (Key.push ch prev ∷ keys) s = type_keys keys (push_text_input to_lowercase ch prev s)
  type_keys (Key.pop prev ∷ keys) s = type_keys keys (pop_text_input to_lowercase prev s)

  -- The selection's repair leaves the filters and the input alone.
  reconcile_selection-frame :
      (prev : Option ℕ) (s : BulletinsState)
      → ((reconcile_selection to_lowercase prev s).filters ≡ s.filters)
        × ((reconcile_selection to_lowercase prev s).text_input ≡ s.text_input)
        × ((reconcile_selection to_lowercase prev s).pre_input_text ≡ s.pre_input_text)
        × ((reconcile_selection to_lowercase prev s).mutes ≡ s.mutes)
  unfolding reconcile_selection
  reconcile_selection-frame prev s = elim (Bool-cases (is_empty (grouped_view to_lowercase s))) [
    | inl e ↦ rw e (refl, refl, refl, refl)
    | inr e ↦ rw e (refl, refl, refl, refl)
  ]

  push-IsTyping :
      {before : FilterState} {buf : Text} {s : BulletinsState} (ch : ℕ) (prev : Option ℕ)
      → IsTyping before buf s
      → IsTyping before (buf ++ ch ∷ []) (push_text_input to_lowercase ch prev s)
  unfolding push_text_input
  push-IsTyping {s = s} ch prev t =
      grind (arith, t.input, t.filters, t.saved, reconcile_selection-frame prev)

  pop-IsTyping :
      {before : FilterState} {buf : Text} {s : BulletinsState} (prev : Option ℕ)
      → IsTyping before buf s
      → IsTyping before (pop_char buf) (pop_text_input to_lowercase prev s)
  unfolding pop_text_input
  pop-IsTyping {s = s} prev t =
      grind (arith, t.input, t.filters, t.saved, reconcile_selection-frame prev)

  type_keys-IsTyping :
      {before : FilterState} (keys : List Key) {buf : Text} {s : BulletinsState}
      → IsTyping before buf s
      → IsTyping before (edit keys buf) (type_keys keys s)
  unfolding type_keys edit
  type_keys-IsTyping [] t = t
  type_keys-IsTyping (Key.push ch prev ∷ keys) t = type_keys-IsTyping keys (push-IsTyping ch prev t)
  type_keys-IsTyping (Key.pop prev ∷ keys) t = type_keys-IsTyping keys (pop-IsTyping prev t)

  enter-IsTyping :
      (s : BulletinsState) → IsTyping s.filters s.filters.text (enter_text_input_mode s)
  unfolding enter_text_input_mode
  enter-IsTyping s = record { input = refl; filters = refl; saved = refl }

  -- After the text input is entered and any keys are typed, the filter's text is the text in the
  -- input; cancelling then restores the filters of before, committing filters by the typed text
  -- without the white space around it, and both close the input.
  pub typing_round :
      (keys : List Key) (prev : Option ℕ) (s : BulletinsState)
      → let typed = type_keys keys (enter_text_input_mode s) in
        let cancelled = cancel_text_input to_lowercase prev typed in
        let committed = commit_text_input to_lowercase prev typed in
        (typed.filters ≡ record (s.filters) { text = edit keys s.filters.text })
        × (typed.text_input ≡ some (edit keys s.filters.text))
        × (cancelled.filters ≡ s.filters)
        × (cancelled.text_input ≡ none)
        × (committed.filters ≡ record (s.filters) { text = trim (edit keys s.filters.text) })
        × (committed.text_input ≡ none)
  unfolding cancel_text_input commit_text_input
  typing_round keys prev s =
      let t = type_keys-IsTyping keys (enter-IsTyping s) in
      grind (arith, t.input, t.filters, t.saved, reconcile_selection-frame prev)
