-- ===== src/Events/Paired.antt =====
-- Every predicate that a watch has came out of `parse`, and so is one that `matches` expects.
use nifi_lens.Base.{ℕ, ◌≡◌, refl, true, Option, List, [], ◌∷◌, arith}
use nifi_lens.Base.Text.{Text, as_bytes}
use nifi_lens.Predicate.{parse, Parsed, ok, err, Predicate}
use nifi_lens.Predicate.Paired.{AllPaired, Yields, parse-AllPaired}
use nifi_lens.Events.{Parts, WatchSession, EventsMode, one_shot, watching, EventsState}
use nifi_lens.Events.Watch.{
  enter_watch_mode, exit_watch_mode, focus_predicate, unfocus_predicate, push_predicate_char,
  pop_predicate_char, commit_session, commit_predicate, confirm_exit_watch, cancel_exit_watch,
  push_event, from_query, handle_watch_payload,
}
use nifi_lens.Events.Filters.{
  commit_filter_edit, enter_filter_edit, push_filter_char, pop_filter_char, cancel_filter_edit,
  reset_filters, new_query, raise_cap,
}
use nifi_lens.Events.Rows.{enter_row_nav, leave_row_nav, move_selection_down, move_selection_up}
use nifi_lens.Events.Payload.{apply_payload}
use nifi_lens.Events.Keys.{AppState, edit_predicate, clear_buffer, submitted}
use nifi_lens.Events.Run.{Input, run}
use nifi_lens.Events.Stable.{Stable}
use nifi_lens.Events.Stable.Typed.{permits, Permitted, run-stable}

module _ (E : Parts) where
  -- The predicate of the watch, if there is one.
  abbrev pub HasPaired : EventsState E → Type 0
  HasPaired s = elim (s.mode) [ one_shot ↦ Unit | watching w ↦ AllPaired E.patterns w.predicate ]

  commit_session-AllPaired :
      (w : WatchSession E) (r : Parsed (Predicate E.patterns))
      → parse E.patterns (as_bytes w.predicate_input) ≡ r
      → Yields (AllPaired E.patterns) r
      → AllPaired E.patterns w.predicate
      → AllPaired E.patterns (commit_session E w).0.predicate
  unfolding commit_session
  commit_session-AllPaired w (ok predicate) e y h = rw (e, commit_session) y
  commit_session-AllPaired w (err error) e y h = rw (e, commit_session) h

  commit_in :
      (mode : EventsMode E) (s : EventsState E)
      → s.mode ≡ mode
      → HasPaired s
      → HasPaired (commit_predicate E s).0
  unfolding commit_predicate
  commit_in one_shot s e h = grind arith
  commit_in (watching w) s e h = grind (
    arith,
    commit_session-AllPaired w _ refl (parse-AllPaired E.patterns (as_bytes w.predicate_input)),
  )

  commit_predicate-HasPaired :
      (s : EventsState E) → HasPaired s → HasPaired (commit_predicate E s).0
  unfolding commit_predicate
  commit_predicate-HasPaired s h = commit_in s.mode s refl h

  HasPaired-Stable : Stable {E = E} true HasPaired
  unfolding enter_watch_mode focus_predicate unfocus_predicate push_predicate_char
      pop_predicate_char commit_predicate handle_watch_payload commit_filter_edit enter_filter_edit
      push_filter_char pop_filter_char cancel_filter_edit reset_filters new_query raise_cap
      enter_row_nav leave_row_nav move_selection_down move_selection_up apply_payload edit_predicate
      clear_buffer submitted exit_watch_mode confirm_exit_watch cancel_exit_watch push_event
      from_query AllPaired
  HasPaired-Stable = record {
    edit_predicate = λ e now s u f k. ground arith;
    pause = λ s k. ground arith;
    clear_buffer = λ s k. ground arith;
    commit_predicate = commit_predicate-HasPaired;
    unfocus_predicate = λ s k. ground arith;
    push_predicate_char = λ ch s k. ground arith;
    pop_predicate_char = λ s k. ground arith;
    confirm_exit_watch = λ s e k. ground arith;
    cancel_exit_watch = λ s e k. ground arith;
    enter_filter_edit = λ field s k. ground arith;
    commit_filter_edit = λ s k. ground arith;
    cancel_filter_edit = λ s k. ground arith;
    push_filter_char = λ ch s k. ground arith;
    pop_filter_char = λ s k. ground arith;
    new_query = λ s k. ground arith;
    reset_filters = λ s k. ground arith;
    raise_cap = λ s k. ground arith;
    submitted = λ now s k. ground arith;
    enter_row_nav = λ s k. ground arith;
    leave_row_nav = λ s k. ground arith;
    move_selection_down = λ s k. ground arith;
    move_selection_up = λ s k. ground arith;
    apply_payload = λ now p s k. ground arith;
  }

module _ (E : Parts) (copied : Text → Option Text → Option Text) where
  any-Permitted : (inputs : List (ℕ × Input E copied)) → Permitted E copied true inputs
  unfolding permits
  any-Permitted [] = tt
  any-Permitted ((now, input) ∷ later) = (ground arith, any-Permitted later)

  -- Whatever the inputs, from a state without a watch, or with such a predicate, each clause of the
  -- predicate of a watch has a regular expression just if its operator is a regex operator.
  pub run-HasPaired :
      (inputs : List (ℕ × Input E copied)) (a : AppState E)
      → HasPaired E a.events
      → HasPaired E (run E copied inputs a).events
  run-HasPaired inputs a h =
      run-stable E copied true (HasPaired E) (HasPaired-Stable E) inputs a (any-Permitted inputs) h
