-- ===== src/Navigation/Bounds.antt =====
-- The provided methods of `ListNavigation` keep a selection within the list.
use nifi_lens.Base.{
  ℕ, ◌<◌, ◌+◌, ◌-◌, min, ◌&&◌, ltb, ◌==◌, if◌then◌else◌, ◌≡◌, refl, Bool, Option, none, some, List,
  [], ◌∷◌, arith, Option-cases, Bool-cases, ◌∙◌, inl, inr, usize_mod,
}
use nifi_lens.Navigation.{
  ListNavigation, move_up, move_down, page_up, page_down, goto_first, goto_last,
}

-- What the provided methods rely on in an implementation: a write changes the selection alone, and
-- the selection that is read back is the one written, unless the list is empty.
pub record IsLawful {ℓ} {S : Type ℓ} (nav : ListNavigation S) : Type ℓ where
  pub len_set : (s : S) (i : Option ℕ) → nav.list_len (nav.set_selected s i) ≡ nav.list_len s
  pub wraps_set : (s : S) (i : Option ℕ) → nav.wraps (nav.set_selected s i) ≡ nav.wraps s
  pub selected_set :
      (s : S) (i : ℕ) → 0 < nav.list_len s → nav.selected (nav.set_selected s (some i)) ≡ some i

-- The selection, if there is one, names a row of a list with `n` rows.
abbrev pub IsWithin : ℕ → Option ℕ → Type 0
IsWithin n none = Unit
IsWithin n (some i) = i < n

pub data Move : Type 0 where
  up down first last : Move
  page_up_by page_down_by : ℕ → Move

module _ {ℓ} {S : Type ℓ} (nav : ListNavigation S) where
  unfoldable pub apply : Move → S → S
  apply Move.up s = move_up nav s
  apply Move.down s = move_down nav s
  apply Move.first s = goto_first nav s
  apply Move.last s = goto_last nav s
  apply (Move.page_up_by n) s = page_up nav n s
  apply (Move.page_down_by n) s = page_down nav n s

  unfoldable pub apply_all : List Move → S → S
  unfolding apply
  apply_all [] s = s
  apply_all (m ∷ ms) s = apply_all ms (apply m s)

-- The row that a move selects in a list of `n` rows, `n` not 0.
abbrev pub row : Move → ℕ → Bool → ℕ → ℕ
row Move.up n wraps i = if wraps && i == 0 then n - 1 else i - 1
row Move.down n wraps i = if ltb (i + 1) n then i + 1 else if wraps then 0 else i
row Move.first n wraps i = 0
row Move.last n wraps i = n - 1
row (Move.page_up_by k) n wraps i = i - k
row (Move.page_down_by k) n wraps i = min (i + k) (n - 1)

-- The row that a move selects when none was selected.
abbrev pub start : Move → ℕ → ℕ
start Move.last n = n - 1
start _ n = 0

abbrev pub select : Move → ℕ → Bool → Option ℕ → ℕ
select m n wraps none = start m n
select m n wraps (some i) = row m n wraps i

pub row-lt : (m : Move) (n : ℕ) (w : Bool) (i : ℕ) → i < n → row m n w i < n
row-lt Move.up n w i h = ground arith
row-lt Move.down n w i h = ground arith
row-lt Move.first n w i h = ground arith
row-lt Move.last n w i h = ground arith
row-lt (Move.page_up_by k) n w i h = ground arith
row-lt (Move.page_down_by k) n w i h = ground arith

start-lt : (m : Move) (n : ℕ) → 0 < n → start m n < n
start-lt Move.last n h = omega arith
start-lt _ n h = h

select-lt :
    (m : Move) (n : ℕ) (w : Bool) (sel : Option ℕ) → 0 < n → IsWithin n sel → select m n w sel < n
select-lt m n w none h _ = start-lt m n h
select-lt m n w (some i) h within = row-lt m n w i within

module _ {ℓ} {S : Type ℓ} (nav : ListNavigation S) (law : IsLawful nav) where
  -- From a selected row: the move keeps the length and the wrapping, and selects the row above.
  pub apply-row :
      (m : Move) (s : S) (i : ℕ)
      → nav.list_len s < usize_mod
      → nav.selected s ≡ some i
      → i < nav.list_len s
      → (nav.list_len (apply nav m s) ≡ nav.list_len s)
        × (nav.wraps (apply nav m s) ≡ nav.wraps s)
        × (nav.selected (apply nav m s) ≡ some (row m (nav.list_len s) (nav.wraps s) i))
  unfolding apply move_up move_down page_up page_down goto_first goto_last
  apply-row Move.up s i fits e h = grind (arith, law.len_set, law.wraps_set, law.selected_set)
  apply-row _ s i fits e h = grind (arith, fits, law.len_set, law.wraps_set, law.selected_set)

  apply-none :
      (m : Move) (s : S)
      → nav.selected s ≡ none
      → 0 < nav.list_len s
      → (nav.list_len (apply nav m s) ≡ nav.list_len s)
        × (nav.wraps (apply nav m s) ≡ nav.wraps s)
        × (nav.selected (apply nav m s) ≡ some (start m (nav.list_len s)))
  unfolding apply move_up move_down page_up page_down goto_first goto_last
  apply-none Move.up s e h = grind (arith, law.len_set, law.wraps_set, law.selected_set)
  apply-none _ s e h = grind (arith, law.len_set, law.wraps_set, law.selected_set)

  -- For any implementation whose writes are read back: in a list with a row whose length fits a
  -- `usize`, each of the six moves, from a selection within the list or from none, keeps the length
  -- and the wrapping and selects the row that `select` computes.
  pub apply-select :
      (m : Move) (s : S)
      → nav.list_len s < usize_mod
      → 0 < nav.list_len s
      → IsWithin (nav.list_len s) (nav.selected s)
      → (nav.list_len (apply nav m s) ≡ nav.list_len s)
        × (nav.wraps (apply nav m s) ≡ nav.wraps s)
        × (nav.selected (apply nav m s)
            ≡ some (select m (nav.list_len s) (nav.wraps s) (nav.selected s)))
  apply-select m s fits h within = elim (Option-cases (nav.selected s)) [
    | inl e ↦ rw e (apply-none m s e h)
    | inr (i, e) ↦ rw e (apply-row m s i fits e (rw e at within))
  ]

  -- In an empty list a move does nothing.
  pub apply_empty : (m : Move) (s : S) → nav.list_len s ≡ 0 → apply nav m s ≡ s
  unfolding apply move_up move_down page_up page_down goto_first goto_last
  apply_empty Move.up s e = ground arith
  apply_empty _ s e = ground arith

  apply-IsWithin :
      (m : Move) (s : S)
      → nav.list_len s < usize_mod
      → IsWithin (nav.list_len s) (nav.selected s)
      → (nav.list_len (apply nav m s) ≡ nav.list_len s)
        × IsWithin (nav.list_len s) (nav.selected (apply nav m s))
  apply-IsWithin m s fits h = elim (Bool-cases (nav.list_len s == 0)) [
    | inl e ↦ rw (apply_empty m s (ground arith)) (refl, h)
    | inr e ↦
        let some_row : 0 < nav.list_len s = ground arith in
        let (same, _, chosen) = apply-select m s fits some_row h in
        (same, rw chosen (select-lt m _ _ (nav.selected s) some_row h))
  ]

  -- Any sequence of moves keeps the length, and keeps the selection within the list.
  pub apply_all-IsWithin :
      (ms : List Move) (s : S)
      → nav.list_len s < usize_mod
      → IsWithin (nav.list_len s) (nav.selected s)
      → (nav.list_len (apply_all nav ms s) ≡ nav.list_len s)
        × IsWithin (nav.list_len s) (nav.selected (apply_all nav ms s))
  unfolding apply_all
  apply_all-IsWithin [] s fits h = (refl, h)
  apply_all-IsWithin (m ∷ ms) s fits h =
      let (same, kept) = apply-IsWithin m s fits h in
      let (rest, within) = apply_all-IsWithin ms (apply nav m s) (rw same fits) (rw same kept) in
      (rest ∙ same, rw same at within)
