-- ===== src/Bulletins/Anchor.antt =====
-- Where `reconcile_selection` puts the selection.
use nifi_lens.Base.{
  ℕ, zero, suc, ◌≤◌, ◌≡◌, ap, ◌∙◌, Bool, true, Option, some, List, [], ◌∷◌, map, get_elem?,
  Bool-cases, Option-cases, inl, inr, ◌==◌, arith,
}
use nifi_lens.Base.Text.{Text}
use nifi_lens.Bulletins.{GroupMode, GroupedRow, BulletinsState}
use nifi_lens.Bulletins.View.{
  single_row, group_filtered, filtered_indices, grouped_view, selected_ring_index,
}
use nifi_lens.Bulletins.Selection.{position, spans, reconcile, reconcile_selection}
use nifi_lens.Bulletins.Visible.{member}

-- `position` gives the first element that passes the test.
pub position-found {ℓ} :
    {A : Type ℓ} (p : A → Bool) (xs : List A) (i : ℕ)
    → position p xs ≡ some i
    → (x : A) × (get_elem? xs i ≡ some x) × (p x ≡ true)
unfolding position
position-found p [] i h = cc
position-found p (x ∷ xs) i h = elim (Bool-cases (p x)) [
  | inl e ↦ (x, ground arith, e)
  | inr e ↦ elim (Option-cases (position p xs)) [
    | inl missing ↦ absurd (ground arith)
    | inr (j, found) ↦ let (y, at, holds) = position-found p xs j found in (y, ground arith, holds)
  ]
]

pub position-le {ℓ} :
    {A : Type ℓ} (p : A → Bool) (xs : List A) (q : ℕ) (x : A)
    → get_elem? xs q ≡ some x
    → p x ≡ true
    → (i : ℕ) × (position p xs ≡ some i) × (i ≤ q)
unfolding position
position-le p [] q x at holds = cc
position-le p (y ∷ xs) zero x at holds = (0, ground arith, ground arith)
position-le p (y ∷ xs) (suc q) x at holds =
    let (j, found, le) = position-le p xs q x at holds in
    elim (Bool-cases (p y)) [
      | inl e ↦ (0, ground arith, ground arith)
      | inr e ↦ (suc j, ground arith, omega arith)
    ]

-- If the index range of some group covers the index that was selected, the selection goes to the
-- earliest group whose range covers it, whether or not that group has the bulletin.
pub reconcile_earliest :
    (auto : Bool) (prev q : ℕ) (g : GroupedRow) (groups : List GroupedRow)
    → get_elem? groups q ≡ some g
    → spans prev g ≡ true
    → (reconcile auto (some prev) groups ≤ q)
      × ((h : GroupedRow) × (get_elem? groups (reconcile auto (some prev) groups) ≡ some h)
          × (spans prev h ≡ true))
unfolding reconcile
reconcile_earliest auto prev q g groups at covers =
    let (i, found, le) = position-le (spans prev) groups q g at covers in
    let (h, there, holds) = position-found (spans prev) groups i found in
    rw (found, reconcile) (le, (h, there, holds))

member-single_row :
    (prev : ℕ) (rows : List ℕ)
    → member prev rows ≡ true
    → (q : ℕ) × (get_elem? (map single_row rows) q ≡ some (single_row prev))
unfolding member
member-single_row prev [] h = cc
member-single_row prev (i ∷ rows) h = elim (Bool-cases (i == prev)) [
  | inl e ↦ (0, ground arith)
  | inr e ↦ let (q, at) = member-single_row prev rows (ground arith) in (suc q, at)
]

get_elem?-single_row :
    (prev q : ℕ) (h : GroupedRow) (rows : List ℕ)
    → get_elem? (map single_row rows) q ≡ some h
    → spans prev h ≡ true
    → h.latest_ring_idx ≡ prev
get_elem?-single_row prev q h [] at covers = cc
get_elem?-single_row prev zero h (i ∷ rows) at covers = ground arith
get_elem?-single_row prev (suc q) h (i ∷ rows) at covers =
    get_elem?-single_row prev q h rows at covers

group_filtered-off :
    (s : BulletinsState) (rows : List ℕ)
    → s.group_mode ≡ GroupMode.off
    → group_filtered s.group_mode s.ring rows ≡ map single_row rows
unfolding group_filtered
group_filtered-off s rows off = ap (λ mode. group_filtered mode s.ring rows) off

-- The repair of the selection reads and keeps the shown groups.
pub reconcile_selection-some :
    (to_lowercase : Text → Text) (prev q : ℕ) (g : GroupedRow) (s : BulletinsState)
    → get_elem? (grouped_view to_lowercase s) q ≡ some g
    → (reconcile_selection to_lowercase (some prev) s).selected
      ≡ reconcile s.auto_scroll (some prev) (grouped_view to_lowercase s)
unfolding reconcile_selection
reconcile_selection-some to_lowercase prev q g s at = ground arith

-- The row that is selected after the repair is looked up in the same groups.
pub grouped_view-reconcile_selection :
    (to_lowercase : Text → Text) (prev : Option ℕ) (s : BulletinsState)
    → grouped_view to_lowercase (reconcile_selection to_lowercase prev s)
      ≡ grouped_view to_lowercase s
unfolding reconcile_selection
grouped_view-reconcile_selection to_lowercase prev s = ground arith

pub selected_ring_index-at :
    (to_lowercase : Text → Text) (t : BulletinsState) (groups : List GroupedRow) (pos : ℕ)
    (h : GroupedRow)
    → grouped_view to_lowercase t ≡ groups
    → t.selected ≡ pos
    → get_elem? groups pos ≡ some h
    → selected_ring_index to_lowercase t ≡ some h.latest_ring_idx
selected_ring_index-at to_lowercase t groups pos h shown chosen found = ground arith

-- With the grouping off, a bulletin that was selected and still passes the filters is selected
-- again.
pub reconcile_selection-selected_ring_index :
    (to_lowercase : Text → Text) (prev : ℕ) (s : BulletinsState)
    → s.group_mode ≡ GroupMode.off
    → member prev (filtered_indices to_lowercase s) ≡ true
    → selected_ring_index to_lowercase (reconcile_selection to_lowercase (some prev) s) ≡ some prev
reconcile_selection-selected_ring_index to_lowercase prev s off there =
    let rows = filtered_indices to_lowercase s in
    let (q, at) = member-single_row prev rows there in
    let shown = group_filtered-off s rows off in
    let at_view : get_elem? (grouped_view to_lowercase s) q ≡ some (single_row prev) =
      rw shown at in
    let (le, (h, found, covers)) =
      reconcile_earliest s.auto_scroll prev q (single_row prev) _ at_view (ground arith) in
    let same = get_elem?-single_row prev _ h rows (rw shown at found) covers in
    selected_ring_index-at to_lowercase (reconcile_selection to_lowercase (some prev) s) _ _ h
      (grouped_view-reconcile_selection to_lowercase (some prev) s)
      (reconcile_selection-some to_lowercase prev q (single_row prev) s at_view) found
    ∙ ap some same
