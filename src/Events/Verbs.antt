-- ===== src/Events/Verbs.antt =====
-- The verbs, actions and keys that the Events tab answers: src/input/verb.rs and action.rs, and the
-- key codes of `crossterm` that src/app/state/events.rs tells apart.
use nifi_lens.Base.{ℕ}
use nifi_lens.Events.{FilterField}

pub data CommonVerb : Type 0 where
  refresh copy open_search search_next search_prev close : CommonVerb

pub data EventsVerb : Type 0 where
  common : CommonVerb → EventsVerb
  edit_field : FilterField → EventsVerb
  new_query reset raise_cap : EventsVerb

pub data EventsWatchVerb : Type 0 where
  common : CommonVerb → EventsWatchVerb
  edit_predicate pause clear_buffer commit_predicate unfocus_predicate : EventsWatchVerb

pub data ViewVerb : Type 0 where
  events : EventsVerb → ViewVerb
  events_watch : EventsWatchVerb → ViewVerb
  -- The verb of another tab.
  other : ViewVerb

pub data FocusAction : Type 0 where
  up down left right page_up page_down first last descend ascend next_pane prev_pane : FocusAction

-- The codes of `crossterm` that the source tells apart.
pub data KeyCode : Type 0 where
  esc enter backspace : KeyCode
  char : ℕ → KeyCode
  other : KeyCode

pub data KeyModifiers : Type 0 where
  plain shift other : KeyModifiers

pub record KeyEvent : Type 0 where
  pub code : KeyCode
  pub modifiers : KeyModifiers

-- What a key does in an input: `v` and `x` without a modifier are the clipboard's.
pub data Meaning : Type 0 where
  cancel accept erase paste cut ignore : Meaning
  insert : ℕ → Meaning
