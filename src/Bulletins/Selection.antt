-- ===== src/Bulletins/Selection.antt =====
-- The selection: `ListNavigation` of the tab, the pause, and the selection's repair after a change
-- of the filters or of the grouping.
use nifi_lens.Base.{
  ℕ, suc, ◌-◌, Bool, true, false, ◌&&◌, Option, none, some, List, [], ◌∷◌, length, is_empty, ltb,
  leb, ◌==◌, if◌then◌else◌,
}
use nifi_lens.Base.Text.{Text}
use nifi_lens.Navigation.{ListNavigation, move_up, move_down, goto_first, goto_last, or_zero}
use nifi_lens.Bulletins.{GroupedRow, BulletinsState, cycle}
use nifi_lens.Bulletins.View.{grouped_view, selected_ring_index}

-- `Iterator::position` and `rposition`.
unfoldable pub position {ℓ} : {A : Type ℓ} → (A → Bool) → List A → Option ℕ
position p [] = none
position p (x ∷ xs) =
    let rest : Option ℕ = elim (position p xs) [ none ↦ none | some i ↦ some (suc i) ] in
    if p x then some 0 else rest

unfoldable pub rposition {ℓ} : {A : Type ℓ} → (A → Bool) → List A → Option ℕ
rposition p [] = none
rposition p (x ∷ xs) = elim (rposition p xs) [
  | some i ↦ some (suc i)
  | none ↦ if p x then some 0 else none
]

abbrev pub spans : ℕ → GroupedRow → Bool
spans prev g = leb g.first_ring_idx prev && leb prev g.latest_ring_idx

-- The row to select among `groups`, which is not empty.
unfoldable pub reconcile : Bool → Option ℕ → List GroupedRow → ℕ
reconcile auto_scroll none groups = if auto_scroll then length groups - 1 else 0
reconcile auto_scroll (some prev) groups = elim (position (spans prev) groups) [
  | some pos ↦ pos
  | none ↦ elim (rposition (λ g. ltb g.latest_ring_idx prev) groups) [
    | some pos ↦ pos
    | none ↦ elim (position (λ g. ltb prev g.first_ring_idx) groups) [
      | some pos ↦ pos
      | none ↦ if auto_scroll then length groups - 1 else 0
    ]
  ]
]

module _ (to_lowercase : Text → Text) where
  abbrev pub bulletins_nav : ListNavigation BulletinsState
  bulletins_nav = record {
    list_len = λ s. length (grouped_view to_lowercase s);
    selected = λ s. if is_empty (grouped_view to_lowercase s) then none else some s.selected;
    set_selected = λ s index. record s { selected = or_zero index };
    wraps = λ s. false;
  }

  unfoldable pub reconcile_selection : Option ℕ → BulletinsState → BulletinsState
  reconcile_selection prev_ring_index s =
      if is_empty (grouped_view to_lowercase s) then record s { selected = 0 } else record s {
        selected = reconcile s.auto_scroll prev_ring_index (grouped_view to_lowercase s);
      }

  unfoldable pub move_selection_up : BulletinsState → BulletinsState
  move_selection_up s =
      let moved = move_up bulletins_nav s in
      if moved.selected == s.selected then moved else record moved { auto_scroll = false }

  unfoldable pub move_selection_down : BulletinsState → BulletinsState
  move_selection_down s =
      let moved = move_down bulletins_nav s in
      let vis_len = length (grouped_view to_lowercase moved) in
      if ltb 0 vis_len && moved.selected == vis_len - 1
      then record moved { auto_scroll = true; new_since_pause = 0 }
      else moved

  unfoldable pub goto_oldest : BulletinsState → BulletinsState
  goto_oldest s = let moved = goto_first bulletins_nav s in record moved { auto_scroll = false }

  unfoldable pub goto_newest : BulletinsState → BulletinsState
  goto_newest s =
      let moved = goto_last bulletins_nav s in
      record moved { auto_scroll = true; new_since_pause = 0 }

  -- Resuming selects the newest group.
  unfoldable pub toggle_pause : BulletinsState → BulletinsState
  toggle_pause s = if s.auto_scroll then record s { auto_scroll = false } else record s {
    auto_scroll = true;
    selected = length (grouped_view to_lowercase s) - 1;
    new_since_pause = 0;
  }

  unfoldable pub cycle_group_mode : BulletinsState → BulletinsState
  cycle_group_mode s =
      reconcile_selection (selected_ring_index to_lowercase s)
        (record s { group_mode = cycle s.group_mode })
