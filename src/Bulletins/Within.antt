-- ===== src/Bulletins/Within.antt =====
-- The selection of the tab stays within its rows, whatever the user does.
use mathlib.Core.Path.{subst}
use nifi_lens.Base.{
  ℕ, ◌<◌, ◌≡◌, refl, max, Bool, Option, none, some, List, [], ◌∷◌, length, sym, get_elem?,
  Option-cases, inl, inr, arith, usize_mod,
}
use nifi_lens.Base.Text.{Text}
use nifi_lens.Navigation.{move_up, move_down, goto_first, goto_last}
use nifi_lens.Bulletins.{GroupedRow, BulletinsState}
use nifi_lens.Bulletins.View.{grouped_view, selected_ring_index}
use nifi_lens.Bulletins.Selection.{
  position, rposition, reconcile, reconcile_selection, move_selection_up, move_selection_down,
  goto_oldest, goto_newest, toggle_pause, cycle_group_mode,
}
use nifi_lens.Bulletins.Filters

pub position-lt {ℓ} :
    {A : Type ℓ} (p : A → Bool) (xs : List A) (i : ℕ) → position p xs ≡ some i → i < length xs
unfolding position
position-lt p [] i h = cc
position-lt p (x ∷ xs) i h = elim (Option-cases (position p xs)) [
  | inl e ↦ ground arith
  | inr (j, e) ↦ ground (arith, position-lt p xs j e)
]

pub rposition-lt {ℓ} :
    {A : Type ℓ} (p : A → Bool) (xs : List A) (i : ℕ) → rposition p xs ≡ some i → i < length xs
unfolding rposition
rposition-lt p [] i h = cc
rposition-lt p (x ∷ xs) i h = elim (Option-cases (rposition p xs)) [
  | inl e ↦ ground arith
  | inr (j, e) ↦ ground (arith, rposition-lt p xs j e)
]

pub reconcile-lt :
    (auto : Bool) (prev : Option ℕ) (groups : List GroupedRow)
    → 0 < length groups
    → reconcile auto prev groups < length groups
unfolding reconcile
reconcile-lt auto none groups h = ground arith
reconcile-lt auto (some prev) groups h =
    grind (arith, position-lt {A = GroupedRow}, rposition-lt {A = GroupedRow})

module _ (to_lowercase : Text → Text) where
  -- The selection names a row that is shown, or is 0 where nothing is shown.
  abbrev pub IsWithin : BulletinsState → Type 0
  IsWithin s = s.selected < max (length (grouped_view to_lowercase s)) 1

  reconcile_selection-IsWithin :
      (prev : Option ℕ) (s : BulletinsState) → IsWithin (reconcile_selection to_lowercase prev s)
  unfolding reconcile_selection
  reconcile_selection-IsWithin prev s =
      ground (arith, reconcile-lt s.auto_scroll prev (grouped_view to_lowercase s))

  -- What the user does; a text edit hands over the ring index that was selected before it.
  pub data Action : Type 0 where
    toggle_error toggle_warning toggle_info cycle_type clear_all mute enter_text : Action
    pop_text commit_text cancel_text up down oldest newest pause cycle_mode : Action
    push_text : ℕ → Action
    pin_source : Option Text → Action

  unfoldable pub act : Action → BulletinsState → BulletinsState
  act Action.toggle_error s = Filters.toggle_error to_lowercase s
  act Action.toggle_warning s = Filters.toggle_warning to_lowercase s
  act Action.toggle_info s = Filters.toggle_info to_lowercase s
  act Action.cycle_type s = Filters.cycle_component_type to_lowercase s
  act Action.clear_all s = Filters.clear_filters to_lowercase s
  act (Action.pin_source id) s = Filters.set_source_filter to_lowercase id s
  act Action.mute s = Filters.mute_selected_source to_lowercase s
  act Action.enter_text s = Filters.enter_text_input_mode s
  act (Action.push_text ch) s =
      Filters.push_text_input to_lowercase ch (selected_ring_index to_lowercase s) s
  act Action.pop_text s = Filters.pop_text_input to_lowercase (selected_ring_index to_lowercase s) s
  act Action.commit_text s =
      Filters.commit_text_input to_lowercase (selected_ring_index to_lowercase s) s
  act Action.cancel_text s =
      Filters.cancel_text_input to_lowercase (selected_ring_index to_lowercase s) s
  act Action.up s = move_selection_up to_lowercase s
  act Action.down s = move_selection_down to_lowercase s
  act Action.oldest s = goto_oldest to_lowercase s
  act Action.newest s = goto_newest to_lowercase s
  act Action.pause s = toggle_pause to_lowercase s
  act Action.cycle_mode s = cycle_group_mode to_lowercase s

  -- The state is left alone, or its selection is repaired.
  data Repairs (s t : BulletinsState) : Type 0 where
    same : t ≡ s → Repairs s t
    repaired :
        (prev : Option ℕ) (x : BulletinsState)
        → t ≡ reconcile_selection to_lowercase prev x
        → Repairs s t

  Repairs-IsWithin : {s t : BulletinsState} → Repairs s t → IsWithin s → IsWithin t
  Repairs-IsWithin (same e) h = subst IsWithin (sym e) h
  Repairs-IsWithin (repaired prev x e) h =
      subst IsWithin (sym e) (reconcile_selection-IsWithin prev x)

  on_some :
      {A : Type 0} {s : BulletinsState} (o : Option A) (f : A → BulletinsState)
      → ((a : A) → Repairs s (f a))
      → Repairs s (elim o [ none ↦ s | some a ↦ f a ])
  on_some none f h = same refl
  on_some (some a) f h = h a

  push-Repairs :
      (ch : ℕ) (prev : Option ℕ) (s : BulletinsState)
      → Repairs s (Filters.push_text_input to_lowercase ch prev s)
  unfolding Filters.push_text_input
  push-Repairs ch prev s = on_some s.text_input _ (λ buf. repaired prev _ refl)

  pop-Repairs :
      (prev : Option ℕ) (s : BulletinsState)
      → Repairs s (Filters.pop_text_input to_lowercase prev s)
  unfolding Filters.pop_text_input
  pop-Repairs prev s = on_some s.text_input _ (λ buf. repaired prev _ refl)

  commit-Repairs :
      (prev : Option ℕ) (s : BulletinsState)
      → Repairs s (Filters.commit_text_input to_lowercase prev s)
  unfolding Filters.commit_text_input
  commit-Repairs prev s = on_some s.text_input _ (λ buf. repaired prev _ refl)

  cancel-Repairs :
      (prev : Option ℕ) (s : BulletinsState)
      → Repairs s (Filters.cancel_text_input to_lowercase prev s)
  unfolding Filters.cancel_text_input
  cancel-Repairs prev s = on_some s.text_input _ (λ buf. repaired prev _ refl)

  mute-Repairs : (s : BulletinsState) → Repairs s (Filters.mute_selected_source to_lowercase s)
  unfolding Filters.mute_selected_source
  mute-Repairs s =
      on_some (selected_ring_index to_lowercase s) _
        (λ i. on_some (get_elem? s.ring i) _ (λ b. repaired (some i) _ refl))

  -- An action from a state with the selection within the rows leads to such a state.
  pub act-IsWithin :
      (a : Action) (s : BulletinsState)
      → length (grouped_view to_lowercase s) < usize_mod
      → IsWithin s
      → IsWithin (act a s)
  unfolding act
  act-IsWithin Action.toggle_error s fits h =
      unfold Filters.toggle_error in reconcile_selection-IsWithin _ _
  act-IsWithin Action.toggle_warning s fits h =
      unfold Filters.toggle_warning in reconcile_selection-IsWithin _ _
  act-IsWithin Action.toggle_info s fits h =
      unfold Filters.toggle_info in reconcile_selection-IsWithin _ _
  act-IsWithin Action.cycle_type s fits h =
      unfold Filters.cycle_component_type in reconcile_selection-IsWithin _ _
  act-IsWithin Action.clear_all s fits h =
      unfold Filters.clear_filters in reconcile_selection-IsWithin _ _
  act-IsWithin (Action.pin_source id) s fits h =
      unfold Filters.set_source_filter in reconcile_selection-IsWithin _ _
  act-IsWithin Action.cycle_mode s fits h =
      unfold cycle_group_mode in reconcile_selection-IsWithin _ _
  act-IsWithin Action.enter_text s fits h = unfold Filters.enter_text_input_mode in h
  act-IsWithin Action.mute s fits h = Repairs-IsWithin (mute-Repairs s) h
  act-IsWithin (Action.push_text ch) s fits h = Repairs-IsWithin (push-Repairs ch _ s) h
  act-IsWithin Action.pop_text s fits h = Repairs-IsWithin (pop-Repairs _ s) h
  act-IsWithin Action.commit_text s fits h = Repairs-IsWithin (commit-Repairs _ s) h
  act-IsWithin Action.cancel_text s fits h = Repairs-IsWithin (cancel-Repairs _ s) h
  act-IsWithin Action.up s fits h = unfold move_selection_up move_up in ground arith
  act-IsWithin Action.down s fits h = unfold move_selection_down move_down in ground arith
  act-IsWithin Action.oldest s fits h = unfold goto_oldest goto_first in ground arith
  act-IsWithin Action.newest s fits h = unfold goto_newest goto_last in ground arith
  act-IsWithin Action.pause s fits h = unfold toggle_pause in ground arith
