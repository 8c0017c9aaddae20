-- ===== src/Bulletins/View.antt =====
-- The rows that the tab shows: the filters, and the folding of equal bulletins into groups.
-- `str::to_lowercase` follows the Unicode tables and is a parameter.
use nifi_lens.Base.{
  ℕ, zero, suc, ◌+◌, Bool, true, false, not, ◌||◌, Option, none, some, List, [], ◌∷◌, ◌++◌, map,
  length, is_empty, is_some, get_elem?, ◌==◌, if◌then◌else◌,
}
use mathlib.Core.List.{foldl}
use nifi_lens.Base.Text.{Text, text_eq, find}
use nifi_lens.Bulletins.{
  BulletinSnapshot, Severity, parse_severity, ComponentType, classify, type_index, FilterState,
  GroupMode, GroupedRow, BulletinsState,
}
use nifi_lens.Bulletins.Message.{strip_component_prefix, normalize_dynamic_brackets}

abbrev pub contains : Text → Text → Bool
contains hay needle = is_some (find needle hay)

abbrev pub mem_text : Text → List Text → Bool
mem_text t [] = false
mem_text t (u ∷ us) = text_eq u t || mem_text t us

-- The pin to a source: an unset pin admits all.
abbrev pub source_ok : Option Text → Text → Bool
source_ok none id = true
source_ok (some want_id) id = text_eq id want_id

abbrev pub severity_ok : FilterState → Severity → Bool
severity_ok f Severity.error = f.show_error
severity_ok f Severity.warning = f.show_warning
severity_ok f Severity.info = f.show_info
severity_ok f Severity.unknown = f.show_info

abbrev pub type_ok : Option ComponentType → ComponentType → Bool
type_ok none t = true
type_ok (some want) t = type_index t == type_index want

-- `HashMap::get` on the positions, newest entry first.
unfoldable pub lookup_position : Text → List (Text × ℕ) → Option ℕ
lookup_position key [] = none
lookup_position key ((k, pos) ∷ rest) = if text_eq k key then some pos else lookup_position key rest

unfoldable pub update_at {ℓ} : {A : Type ℓ} → ℕ → (A → A) → List A → List A
update_at i f [] = []
update_at zero f (x ∷ xs) = f x ∷ xs
update_at (suc i) f (x ∷ xs) = x ∷ update_at i f xs

abbrev pub single_row : ℕ → GroupedRow
single_row ring_idx = record { first_ring_idx = ring_idx; latest_ring_idx = ring_idx; count = 1 }

abbrev pub fold_into : ℕ → GroupedRow → GroupedRow
fold_into ring_idx group = record group { latest_ring_idx = ring_idx; count = group.count + 1 }

-- The dedup key; `Off` does not ask for one.
unfoldable pub row_key : GroupMode → BulletinSnapshot → Text
row_key GroupMode.source_and_message b =
    b.source_id ++ (0x1f ∷ normalize_dynamic_brackets (strip_component_prefix b.message))
row_key GroupMode.source b = b.source_id
row_key GroupMode.off b = []

abbrev pub Grouping : Type 0
Grouping = List GroupedRow × List (Text × ℕ)

-- The body of the loop, for a row with its key.
unfoldable pub group_row : Grouping → Text → ℕ → Grouping
group_row (out, positions) key ring_idx = elim (lookup_position key positions) [
  | some pos ↦ (update_at pos (fold_into ring_idx) out, positions)
  | none ↦ (out ++ single_row ring_idx ∷ [], (key, length out) ∷ positions)
]

-- An index outside the ring would panic; `filtered_indices` has none.
unfoldable pub group_index : GroupMode → List BulletinSnapshot → Grouping → ℕ → Grouping
group_index mode ring g ring_idx = elim (get_elem? ring ring_idx) [
  | none ↦ g
  | some b ↦ group_row g (row_key mode b) ring_idx
]

-- `grouped_view` from the filtered rows.
unfoldable pub group_filtered : GroupMode → List BulletinSnapshot → List ℕ → List GroupedRow
group_filtered GroupMode.off ring rows = map single_row rows
group_filtered mode ring rows = (foldl (group_index mode ring) ([], []) rows).0

module _ (to_lowercase : Text → Text) where
  unfoldable pub row_matches : FilterState → List Text → BulletinSnapshot → Bool
  row_matches filters mutes b =
      let needle = to_lowercase filters.text in
      if not (source_ok filters.source_id b.source_id)
      then false
      else if not (severity_ok filters (parse_severity b.level))
      then false
      else if mem_text b.source_id mutes
      then false
      else if not (type_ok filters.component_type (classify b.source_type))
      then false
      else if not (is_empty filters.text)
      then contains (to_lowercase b.message) needle || contains (to_lowercase b.source_name) needle
      else true

  -- The ring indices from `i` on of the rows that match.
  unfoldable pub indices_from : FilterState → List Text → ℕ → List BulletinSnapshot → List ℕ
  indices_from filters mutes i [] = []
  indices_from filters mutes i (b ∷ ring) =
      let rest = indices_from filters mutes (suc i) ring in
      if row_matches filters mutes b then i ∷ rest else rest

  -- `filtered_indices` over the fields that it reads.
  unfoldable pub filtered : FilterState → List Text → List BulletinSnapshot → List ℕ
  filtered filters mutes ring = indices_from filters mutes 0 ring

  abbrev pub filtered_indices : BulletinsState → List ℕ
  filtered_indices s = filtered s.filters s.mutes s.ring

  abbrev pub grouped_view : BulletinsState → List GroupedRow
  grouped_view s = group_filtered s.group_mode s.ring (filtered_indices s)

  abbrev pub selected_ring_index : BulletinsState → Option ℕ
  selected_ring_index s = elim (get_elem? (grouped_view s) s.selected) [
    | none ↦ none
    | some g ↦ some g.latest_ring_idx
  ]
