-- ===== src/Events/Sound.antt =====
-- The selection stays on a row that is shown, the cap is one of the two, and the edited filter has
-- its former value at hand.
use nifi_lens.Base.{
  ℕ, zero, suc, ◌+◌, ◌≤◌, ◌≡◌, Bool, true, false, ◌||◌, Option, none, some, List, [], ◌∷◌, length,
  length-append, is_some, ltb, leb, ◌==◌, Bool-cases, inl, inr, arith,
}
use nifi_lens.Base.Text.{Text}
use nifi_lens.Events.{
  default_result_cap, expanded_result_cap, MatchedEvent, Parts, WatchSession, EventsState,
  EventsPayload, watch_match,
}
use nifi_lens.Events.Watch.{
  remove, trim_idx, push_event, focus_predicate, unfocus_predicate, push_predicate_char,
  pop_predicate_char, commit_session, commit_predicate, handle_watch_payload,
}
use nifi_lens.Events.Filters.{
  commit_filter_edit, enter_filter_edit, push_filter_char, pop_filter_char, cancel_filter_edit,
  reset_filters, new_query, raise_cap,
}
use nifi_lens.Events.Rows.{
  current_row_count, enter_row_nav, leave_row_nav, move_selection_down, move_selection_up,
}
use nifi_lens.Events.Payload.{apply_payload}
use nifi_lens.Events.Keys.{AppState, clear_buffer, submitted}
use nifi_lens.Events.Run.{Input, run}
use nifi_lens.Events.Stable.{Stable}
use nifi_lens.Events.Stable.Typed.{Permitted, run-stable}

abbrev pub is_within : Option ℕ → ℕ → Bool
is_within none count = true
is_within (some i) count = ltb i count

pub record IsSound {E : Parts} (s : EventsState E) : Type 0 where
  pub row : is_within s.selected_row (current_row_count E s) ≡ true
  pub cap : (s.cap == default_result_cap || s.cap == expanded_result_cap) ≡ true
  pub edit : is_some s.filter_edit ≡ is_some s.pre_edit_value
  pub quiet : s.exit_watch_pending ≡ false

remove_shortens {ℓ} : {A : Type ℓ} (k : ℕ) (xs : List A) → length xs ≤ length (remove k xs) + 1
unfolding remove
remove_shortens k [] = omega arith
remove_shortens zero (x ∷ xs) = omega arith
remove_shortens (suc k) (x ∷ xs) = omega (arith, remove_shortens k xs)

module _ (E : Parts) where
  push_event_grows :
      (ev : MatchedEvent) (row : Option ℕ) (w : WatchSession E)
      → length w.buffer ≤ length (push_event E ev row w).buffer
  unfolding push_event
  push_event_grows ev row w =
      let b = w.buffer in
      let k = trim_idx row (length b) in
      let least = remove_shortens k b in
      let cut = length-append (remove k b) (ev ∷ []) in
      let longer = length-append b (ev ∷ []) in
      elim (Bool-cases (leb w.buffer_cap (length b))) [
        | inl e ↦ rw e (omega arith)
        | inr e ↦ rw e (omega arith)
      ]

  apply_payload-IsSound :
      (now : ℕ) (p : EventsPayload E) (s : EventsState E)
      → IsSound s
      → IsSound (apply_payload E now p s)
  unfolding apply_payload handle_watch_payload current_row_count
  apply_payload-IsSound now (watch_match summary attrs) s k = grind (arith, push_event_grows)
  apply_payload-IsSound now p s k = ground arith

  IsSound-Stable : Stable {E = E} false IsSound
  unfolding focus_predicate unfocus_predicate push_predicate_char commit_session pop_predicate_char
      commit_predicate handle_watch_payload commit_filter_edit enter_filter_edit push_filter_char
      pop_filter_char cancel_filter_edit reset_filters new_query raise_cap enter_row_nav
      leave_row_nav move_selection_down move_selection_up apply_payload clear_buffer submitted
      current_row_count
  IsSound-Stable = record {
    edit_predicate = λ e now s u f k. absurd (ground arith);
    pause = λ s k. ground arith;
    clear_buffer = λ s k. ground arith;
    commit_predicate = λ s k. ground arith;
    unfocus_predicate = λ s k. ground arith;
    push_predicate_char = λ ch s k. ground arith;
    pop_predicate_char = λ s k. ground arith;
    confirm_exit_watch = λ s e k. absurd (ground arith);
    cancel_exit_watch = λ s e k. absurd (ground arith);
    enter_filter_edit = λ field s k. ground arith;
    commit_filter_edit = λ s k. ground arith;
    cancel_filter_edit = λ s k. ground arith;
    push_filter_char = λ ch s k. ground arith;
    pop_filter_char = λ s k. ground arith;
    new_query = λ s k. ground arith;
    reset_filters = λ s k. ground arith;
    raise_cap = λ s k. ground arith;
    submitted = λ now s k. ground arith;
    enter_row_nav = λ s k. ground arith;
    leave_row_nav = λ s k. ground arith;
    move_selection_down = λ s k. ground arith;
    move_selection_up = λ s k. ground arith;
    apply_payload = apply_payload-IsSound;
  }

module _ (E : Parts) (copied : Text → Option Text → Option Text) where
  -- From a sound state, no inputs but the key that enters the watch mode bring the selection
  -- behind the last row, another cap than the two, or a filter that is edited without the value
  -- that cancelling restores.
  pub run-IsSound :
      (inputs : List (ℕ × Input E copied)) (a : AppState E)
      → Permitted E copied false inputs
      → IsSound a.events
      → IsSound (run E copied inputs a).events
  run-IsSound inputs a e k = run-stable E copied false IsSound (IsSound-Stable E) inputs a e k
