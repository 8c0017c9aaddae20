-- ===== src/Events/Kept.antt =====
-- No input ends the watch mode, and none asks whether it may end.
use nifi_lens.Base.{ℕ, ◌≡◌, true, false, Option, List, [], ◌∷◌, is_some, arith}
use nifi_lens.Base.Text.{Text}
use nifi_lens.Events.{Parts, EventsState, watch}
use nifi_lens.Events.Watch.{
  enter_watch_mode, focus_predicate, unfocus_predicate, push_predicate_char, pop_predicate_char,
  commit_predicate, handle_watch_payload,
}
use nifi_lens.Events.Filters.{
  commit_filter_edit, enter_filter_edit, push_filter_char, pop_filter_char, cancel_filter_edit,
  reset_filters, new_query, raise_cap,
}
use nifi_lens.Events.Rows.{enter_row_nav, leave_row_nav, move_selection_down, move_selection_up}
use nifi_lens.Events.Payload.{apply_payload}
use nifi_lens.Events.Keys.{AppState, edit_predicate, clear_buffer, submitted}
use nifi_lens.Events.Run.{Input, run}
use nifi_lens.Events.Stable.{Stable}
use nifi_lens.Events.Stable.Typed.{permits, Permitted, run-stable}

-- The tab watches, and the confirmation is not asked for.
pub record IsKept {E : Parts} (s : EventsState E) : Type 0 where
  pub watches : is_some (watch E s) ≡ true
  pub quiet : s.exit_watch_pending ≡ false

module _ (E : Parts) where
  IsKept-Stable : Stable {E = E} true IsKept
  unfolding enter_watch_mode focus_predicate unfocus_predicate push_predicate_char
      pop_predicate_char commit_predicate handle_watch_payload commit_filter_edit enter_filter_edit
      push_filter_char pop_filter_char cancel_filter_edit reset_filters new_query raise_cap
      enter_row_nav leave_row_nav move_selection_down move_selection_up apply_payload edit_predicate
      clear_buffer submitted
  IsKept-Stable = record {
    edit_predicate = λ e now s u f k. ground arith;
    pause = λ s k. ground arith;
    clear_buffer = λ s k. ground arith;
    commit_predicate = λ s k. ground arith;
    unfocus_predicate = λ s k. ground arith;
    push_predicate_char = λ ch s k. ground arith;
    pop_predicate_char = λ s k. ground arith;
    confirm_exit_watch = λ s e k. ground arith;
    cancel_exit_watch = λ s e k. ground arith;
    enter_filter_edit = λ field s k. ground arith;
    commit_filter_edit = λ s k. ground arith;
    cancel_filter_edit = λ s k. ground arith;
    push_filter_char = λ ch s k. ground arith;
    pop_filter_char = λ s k. ground arith;
    new_query = λ s k. ground arith;
    reset_filters = λ s k. ground arith;
    raise_cap = λ s k. ground arith;
    submitted = λ now s k. ground arith;
    enter_row_nav = λ s k. ground arith;
    leave_row_nav = λ s k. ground arith;
    move_selection_down = λ s k. ground arith;
    move_selection_up = λ s k. ground arith;
    apply_payload = λ now p s k. ground arith;
  }

module _ (E : Parts) (copied : Text → Option Text → Option Text) where
  any-Permitted : (inputs : List (ℕ × Input E copied)) → Permitted E copied true inputs
  unfolding permits
  any-Permitted [] = tt
  any-Permitted ((now, input) ∷ later) = (ground arith, any-Permitted later)

  -- From a tab that watches and does not ask for the confirmation, no inputs leave the watch mode
  -- and none make it ask: nothing that the tab handles calls `request_exit_watch`.
  pub run-IsKept :
      (inputs : List (ℕ × Input E copied)) (a : AppState E)
      → IsKept a.events
      → IsKept (run E copied inputs a).events
  run-IsKept inputs a k =
      run-stable E copied true IsKept (IsKept-Stable E) inputs a (any-Permitted inputs) k
