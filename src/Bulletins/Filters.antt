-- ===== src/Bulletins/Filters.antt =====
-- The functions that change the filters. A function that the source hands `prev_ring_index` takes
-- it here too.
use nifi_lens.Base.{ℕ, not, Option, none, some, List, [], ◌∷◌, ◌++◌, get_elem?, if◌then◌else◌}
use nifi_lens.Base.Text.{Text, text_eq, pop_char, trim, or_empty}
use nifi_lens.Bulletins.{ComponentType, default_filters, BulletinsState}
use nifi_lens.Bulletins.View.{mem_text, selected_ring_index}
use nifi_lens.Bulletins.Selection.{reconcile_selection}

unfoldable pub next_component_type : Option ComponentType → Option ComponentType
next_component_type none = some ComponentType.processor
next_component_type (some ComponentType.processor) = some ComponentType.controller_service
next_component_type (some ComponentType.controller_service) = some ComponentType.reporting_task
next_component_type (some ComponentType.reporting_task) = some ComponentType.other
next_component_type (some ComponentType.other) = none

-- `HashSet::remove`.
unfoldable pub remove_text : Text → List Text → List Text
remove_text t [] = []
remove_text t (u ∷ us) = let rest = remove_text t us in if text_eq u t then rest else u ∷ rest

-- `insert`, and `remove` if the id was there.
unfoldable pub toggle_mute : Text → List Text → List Text
unfolding remove_text
toggle_mute id mutes = if mem_text id mutes then remove_text id mutes else id ∷ mutes

module _ (to_lowercase : Text → Text) where
  -- `reconcile_selection` with the ring index that was selected in `s`, on the changed state.
  abbrev pub reconciled : BulletinsState → BulletinsState → BulletinsState
  reconciled s changed =
      reconcile_selection to_lowercase (selected_ring_index to_lowercase s) changed

  unfoldable pub toggle_error : BulletinsState → BulletinsState
  toggle_error s =
      reconciled s
        (record s { filters = record (s.filters) { show_error = not s.filters.show_error } })

  unfoldable pub toggle_warning : BulletinsState → BulletinsState
  toggle_warning s =
      reconciled s
        (record s { filters = record (s.filters) { show_warning = not s.filters.show_warning } })

  unfoldable pub toggle_info : BulletinsState → BulletinsState
  toggle_info s =
      reconciled s
        (record s { filters = record (s.filters) { show_info = not s.filters.show_info } })

  unfoldable pub cycle_component_type : BulletinsState → BulletinsState
  unfolding next_component_type
  cycle_component_type s = reconciled s (record s {
    filters = record (s.filters) { component_type = next_component_type s.filters.component_type };
  })

  unfoldable pub clear_filters : BulletinsState → BulletinsState
  clear_filters s = reconciled s (record s { filters = default_filters; mutes = [] })

  unfoldable pub set_source_filter : Option Text → BulletinsState → BulletinsState
  set_source_filter source_id s =
      reconciled s (record s { filters = record (s.filters) { source_id = source_id } })

  unfoldable pub mute_selected_source : BulletinsState → BulletinsState
  unfolding toggle_mute
  mute_selected_source s = elim (selected_ring_index to_lowercase s) [
    | none ↦ s
    | some ring_idx ↦ elim (get_elem? s.ring ring_idx) [
      | none ↦ s
      | some b ↦
          reconcile_selection to_lowercase (some ring_idx)
            (record s { mutes = toggle_mute b.source_id s.mutes })
    ]
  ]

  -- The text that the filter searches for, with the selection repaired.
  abbrev pub with_text : Text → Option ℕ → BulletinsState → BulletinsState
  with_text text prev s =
      reconcile_selection to_lowercase prev
        (record s { filters = record (s.filters) { text = text } })

  unfoldable pub push_text_input : ℕ → Option ℕ → BulletinsState → BulletinsState
  push_text_input ch prev s = elim (s.text_input) [
    | none ↦ s
    | some buf ↦ with_text (buf ++ ch ∷ []) prev (record s { text_input = some (buf ++ ch ∷ []) })
  ]

  unfoldable pub pop_text_input : Option ℕ → BulletinsState → BulletinsState
  unfolding pop_char
  pop_text_input prev s = elim (s.text_input) [
    | none ↦ s
    | some buf ↦ with_text (pop_char buf) prev (record s { text_input = some (pop_char buf) })
  ]

  unfoldable pub commit_text_input : Option ℕ → BulletinsState → BulletinsState
  unfolding trim
  commit_text_input prev s = elim (s.text_input) [
    | none ↦ s
    | some buf ↦ with_text (trim buf) prev (record s { text_input = none; pre_input_text = none })
  ]

  -- `unwrap_or_default` of the text before the input.
  unfoldable pub cancel_text_input : Option ℕ → BulletinsState → BulletinsState
  cancel_text_input prev s = elim (s.text_input) [
    | none ↦ s
    | some buf ↦
        with_text (or_empty s.pre_input_text) prev
          (record s { text_input = none; pre_input_text = none })
  ]

unfoldable pub enter_text_input_mode : BulletinsState → BulletinsState
enter_text_input_mode s = record s {
  pre_input_text = some s.filters.text;
  text_input = some s.filters.text;
}
