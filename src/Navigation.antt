-- ===== src/Navigation.antt =====
-- src/app/navigation.rs: the trait `ListNavigation` as a record of its required methods, its
-- provided methods over it, `CursorRef`, and the scroll window of a list.
-- `&mut self` is the state taken and returned.
pub mod Bounds
pub mod Steps
pub mod Window
use nifi_lens.Base.{
  ℕ, ◌+◌, ◌-◌, min, Bool, true, false, Option, none, some, ltb, leb, ◌==◌, if◌then◌else◌,
  saturating_add, usize_add,
}

pub record ListNavigation {ℓ} (S : Type ℓ) : Type ℓ where
  pub list_len : S → ℕ
  pub selected : S → Option ℕ
  pub set_selected : S → Option ℕ → S
  pub wraps : S → Bool

module _ {ℓ} {S : Type ℓ} (nav : ListNavigation S) where
  open nav use {list_len, selected, set_selected, wraps}

  -- `len - 1` and `current - 1` stand under a test that the number is not 0.
  unfoldable pub move_up : S → S
  move_up s = if list_len s == 0 then s else elim (selected s) [
    | none ↦ set_selected s (some 0)
    | some current ↦
        if current == 0
        then if wraps s then set_selected s (some (list_len s - 1)) else s
        else set_selected s (some (current - 1))
  ]

  unfoldable pub move_down : S → S
  move_down s = if list_len s == 0 then s else elim (selected s) [
    | none ↦ set_selected s (some 0)
    | some current ↦
        if leb (list_len s - 1) current
        then if wraps s then set_selected s (some 0) else s
        else set_selected s (some (usize_add current 1))
  ]

  unfoldable pub page_up : ℕ → S → S
  page_up page_size s = if list_len s == 0 then s else elim (selected s) [
    | none ↦ set_selected s (some 0)
    | some current ↦ set_selected s (some (current - page_size))
  ]

  unfoldable pub page_down : ℕ → S → S
  page_down page_size s = if list_len s == 0 then s else elim (selected s) [
    | none ↦ set_selected s (some 0)
    | some current ↦ set_selected s (some (min (saturating_add current page_size) (list_len s - 1)))
  ]

  unfoldable pub goto_first : S → S
  goto_first s = if list_len s == 0 then s else set_selected s (some 0)

  unfoldable pub goto_last : S → S
  goto_last s = if list_len s == 0 then s else set_selected s (some (list_len s - 1))

-- `CursorRef`: the snapshot of the length, and the number that `selected` refers to.
pub record CursorRef : Type 0 where
  pub len : ℕ
  pub selected : ℕ

-- `Option::unwrap_or(0)`.
abbrev pub or_zero : Option ℕ → ℕ
or_zero none = 0
or_zero (some n) = n

abbrev pub cursor_nav : ListNavigation CursorRef
cursor_nav = record {
  list_len = λ c. c.len;
  selected = λ c. if c.len == 0 then none else some c.selected;
  set_selected = λ c index. record c { selected = or_zero index };
  wraps = λ c. false;
}

pub record ScrollWindow : Type 0 where
  pub offset : ℕ
  pub selected_local : ℕ

unfoldable pub compute_scroll_window : ℕ → ℕ → ℕ → ScrollWindow
compute_scroll_window selected total visible_rows =
    let clamped_selected = min selected (total - 1) in
    let offset : ℕ =
      if leb visible_rows clamped_selected
      then usize_add clamped_selected 1 - visible_rows
      else 0 in
    if total == 0
    then record { offset = 0; selected_local = 0 }
    else if visible_rows == 0
    then record { offset = clamped_selected; selected_local = 0 }
    else record { offset = offset; selected_local = clamped_selected - offset }
