-- ===== src/History.antt =====
-- src/app/history.rs: the cross-link history. A `Vec` is a list with its newest entry last.
pub mod RoundTrip
pub mod Window
use nifi_lens.Base.{
  ℕ, List, [], ◌∷◌, ◌++◌, Option, none, some, Bool, not, length, is_empty, ltb, if◌then◌else◌,
}
use nifi_lens.Base.Text.{Text}
use nifi_lens.Views.{ViewId}

abbrev pub max_history : ℕ
max_history = 20

pub data SelectionAnchor : Type 0 where
  component_id : Text → SelectionAnchor
  row_index : ℕ → SelectionAnchor

pub record HistoryEntry : Type 0 where
  pub tab : ViewId
  pub anchor : Option SelectionAnchor

pub record TabHistory : Type 0 where
  pub back : List HistoryEntry
  pub forward : List HistoryEntry

abbrev pub tail {ℓ} : {A : Type ℓ} → List A → List A
tail [] = []
tail (x ∷ xs) = xs

-- `v.push(entry)` and, over the limit, `v.remove(0)`.
unfoldable pub push_capped : HistoryEntry → List HistoryEntry → List HistoryEntry
push_capped entry v =
    let grown = v ++ entry ∷ [] in if ltb max_history (length grown) then tail grown else grown

-- `Vec::pop`: the last entry and the entries before it.
unfoldable pub pop_last {ℓ} : {A : Type ℓ} → List A → Option (A × List A)
pop_last [] = none
pop_last (x ∷ xs) = elim (pop_last xs) [ none ↦ some (x, []) | some (y, rest) ↦ some (y, x ∷ rest) ]

unfoldable pub push : HistoryEntry → TabHistory → TabHistory
unfolding push_capped
push entry h = record { forward = []; back = push_capped entry h.back }

-- On an empty stack the history is left alone.
unfoldable pub pop_back : HistoryEntry → TabHistory → Option HistoryEntry × TabHistory
unfolding push_capped pop_last
pop_back current h = elim (pop_last h.back) [
  | none ↦ (none, h)
  | some (entry, rest) ↦
      (some entry, record { back = rest; forward = push_capped current h.forward })
]

unfoldable pub pop_forward : HistoryEntry → TabHistory → Option HistoryEntry × TabHistory
unfolding push_capped pop_last
pop_forward current h = elim (pop_last h.forward) [
  | none ↦ (none, h)
  | some (entry, rest) ↦ (some entry, record { forward = rest; back = push_capped current h.back })
]

unfoldable pub can_go_back : TabHistory → Bool
can_go_back h = not (is_empty h.back)

unfoldable pub can_go_forward : TabHistory → Bool
can_go_forward h = not (is_empty h.forward)
