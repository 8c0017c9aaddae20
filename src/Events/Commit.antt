-- ===== src/Events/Commit.antt =====
-- The predicate of a watch: what Enter makes of it, and what it is made of.
use nifi_lens.Base.{
  ◌≡◌, refl, sym, ap, subst, ◌∙◌, true, false, Option, none, some, if_true, if_false, arith,
}
use nifi_lens.Base.Text.{Text, as_bytes}
use nifi_lens.Predicate.{Parsed, ok, err, Predicate, parse}
use nifi_lens.Events.{Parts, WatchSession, watching}
use nifi_lens.Events.Watch.{commit_session, commit_predicate, unfocus_predicate}
use nifi_lens.Events.Verbs.{KeyCode}
use nifi_lens.Events.Keys.{UpdateResult, AppState, commit_and_restart}
use nifi_lens.Events.Keys.Input.{meaning, predicate_key, handle_predicate_edit, handle_text_input}
use nifi_lens.Events.Edited.{plain_key, press}

module _ (E : Parts) (copied : Text → Option Text → Option Text) where
  -- What Enter leaves of the session, the focus and the request of a new worker.
  abbrev pub Committed :
      Parsed (Predicate E.patterns) → WatchSession E → AppState E → AppState E → Type 0
  Committed (ok predicate) w before after =
      (after.events.mode ≡ watching (record w { predicate = predicate; last_parse_error = none }))
      × (after.events.predicate_focus ≡ false)
      × (after.pending_events_watch_restart ≡ true)
  Committed (err e) w before after =
      (after.events.mode ≡ watching (record w { last_parse_error = some e }))
      × (after.events.predicate_focus ≡ true)
      × (after.pending_events_watch_restart ≡ before.pending_events_watch_restart)

  commit-Committed :
      (r : Parsed (Predicate E.patterns)) (w : WatchSession E) (a : AppState E)
      → a.events.mode ≡ watching w
      → a.events.predicate_focus ≡ true
      → parse E.patterns (as_bytes w.predicate_input) ≡ r
      → Committed r w a (commit_and_restart E a)
  unfolding commit_and_restart commit_predicate commit_session unfocus_predicate
  commit-Committed (ok predicate) w a m f e = grind arith
  commit-Committed (err error) w a m f e = grind arith

  -- Enter in the focused input of the predicate, with no confirmation open: if the text parses it
  -- is the predicate, without an error, the focus leaves the input and a new worker is asked for;
  -- otherwise the error is kept to be shown and nothing else of the session changes, the predicate
  -- included, the focus stays and no worker is asked for.
  pub enter_predicate :
      (w : WatchSession E) (a : AppState E)
      → a.events.mode ≡ watching w
      → a.events.predicate_focus ≡ true
      → a.events.exit_watch_pending ≡ false
      → Committed
          (parse E.patterns (as_bytes w.predicate_input))
          w
          a
          (press E copied (plain_key KeyCode.enter) a)
  unfolding handle_text_input handle_predicate_edit predicate_key meaning
  enter_predicate w a m f q =
      let taken : press E copied (plain_key KeyCode.enter) a ≡ commit_and_restart E a =
        ap (λ (r : AppState E × Option UpdateResult). r.0) (if_false _ _ q ∙ if_true _ _ f) in
      subst (Committed (parse E.patterns (as_bytes w.predicate_input)) w a) (sym taken)
        (commit-Committed _ w a m f refl)
