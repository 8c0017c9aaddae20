-- ===== src/Browser.antt =====
-- src/view/browser/state/mod.rs: the flow as an arena of nodes, the rows of its tree, and the moves
-- of the selection along it. Of `BrowserState` it has the arena, the rows, the selection, the
-- expanded nodes and the focus of the detail pane; of a node what these read.
pub mod Forest
pub mod Rows
pub mod Moves
pub mod Steps
pub mod Snapshot
pub mod Kept
use nifi_lens.Base.{
  ℕ, zero, suc, ◌+◌, Bool, true, false, Option, none, some, List, [], ◌∷◌, ◌++◌, length, get_elem?,
  ◌==◌, ◌&&◌, ◌||◌, not, if◌then◌else◌,
}
use nifi_lens.Base.Text.{Text, text_eq}

pub data FolderKind : Type 0 where
  queues controller_services : FolderKind

pub data NodeKind : Type 0 where
  process_group processor connection input_port output_port : NodeKind
  controller_service remote_process_group : NodeKind
  folder : FolderKind → NodeKind

abbrev pub is_group : NodeKind → Bool
is_group NodeKind.process_group = true
is_group kind = false

abbrev pub is_folder : NodeKind → Bool
is_folder (NodeKind.folder kind) = true
is_folder kind = false

pub record TreeNode : Type 0 where
  pub parent : Option ℕ
  pub children : List ℕ
  pub kind : NodeKind
  pub id : Text
  pub group_id : Text
  pub name : Text

pub data DetailFocus : Type 0 where
  tree : DetailFocus
  -- `idx`, `rows` and `x_offsets`.
  section : ℕ → List ℕ → List ℕ → DetailFocus

pub record BrowserState : Type 0 where
  pub nodes : List TreeNode
  pub visible : List ℕ
  pub selected : ℕ
  -- A set.
  pub expanded : List ℕ
  pub detail_focus : DetailFocus

-- `contains` of a set, and `remove`.
unfoldable pub contains : ℕ → List ℕ → Bool
contains a [] = false
contains a (x ∷ xs) = a == x || contains a xs

unfoldable pub remove : ℕ → List ℕ → List ℕ
remove a [] = []
remove a (x ∷ xs) = let rest = remove a xs in if a == x then rest else x ∷ rest

-- `iter().position(|&i| i == a)`.
unfoldable pub position : ℕ → List ℕ → Option ℕ
position a [] = none
position a (x ∷ xs) =
    let later : Option ℕ = elim (position a xs) [ none ↦ none | some i ↦ some (suc i) ] in
    if a == x then some zero else later

-- What the source reads at an index, which panics out of range: here nothing.
unfoldable pub parent_of : List TreeNode → ℕ → Option ℕ
parent_of nodes i = elim (get_elem? nodes i) [ none ↦ none | some n ↦ n.parent ]

unfoldable pub children_of : List TreeNode → ℕ → List ℕ
children_of nodes i = elim (get_elem? nodes i) [ none ↦ [] | some n ↦ n.children ]

unfoldable pub flat_map : (ℕ → List ℕ) → List ℕ → List ℕ
flat_map f [] = []
flat_map f (x ∷ xs) = f x ++ flat_map f xs

-- The rows of a subtree. The fuel bounds its depth.
unfoldable pub push_visible_subtree : ℕ → List TreeNode → List ℕ → ℕ → List ℕ
unfolding contains children_of flat_map
push_visible_subtree zero nodes expanded idx = []
push_visible_subtree (suc fuel) nodes expanded idx =
    let below = flat_map (push_visible_subtree fuel nodes expanded) (children_of nodes idx) in
    idx ∷ (if contains idx expanded then below else [])

abbrev pub with_root : ℕ → List ℕ → Option ℕ → List ℕ
with_root i later none = i ∷ later
with_root i later (some p) = later

-- The indices from `i` on whose node has no parent.
unfoldable pub roots : ℕ → List TreeNode → List ℕ
roots i [] = []
roots i (n ∷ nodes) = with_root i (roots (suc i) nodes) n.parent

unfoldable pub visible_rows : List TreeNode → List ℕ → List ℕ
unfolding flat_map push_visible_subtree roots
visible_rows nodes expanded =
    flat_map (push_visible_subtree (suc (length nodes)) nodes expanded) (roots 0 nodes)

unfoldable pub rebuild_visible : BrowserState → BrowserState
unfolding visible_rows
rebuild_visible s = record s { visible = visible_rows s.nodes s.expanded }

abbrev pub reset_detail_focus : BrowserState → BrowserState
reset_detail_focus s = record s { detail_focus = DetailFocus.tree }

-- The selection on the row of the node, if there is one.
unfoldable pub select_node : ℕ → BrowserState → BrowserState
unfolding position
select_node idx s = elim (position idx s.visible) [
  | none ↦ s
  | some pos ↦ record s { selected = pos }
]

-- The `(arena_idx, node)` of the selected row.
abbrev pub selected_node : BrowserState → Option (ℕ × TreeNode)
selected_node s = elim (get_elem? s.visible s.selected) [
  | none ↦ none
  | some idx ↦ elim (get_elem? s.nodes idx) [ none ↦ none | some n ↦ some (idx, n) ]
]

abbrev pub select_first : List ℕ → BrowserState → BrowserState
select_first [] s = s
select_first (child ∷ children) s = select_node child s

abbrev pub expand : ℕ → BrowserState → BrowserState
expand idx s =
    if contains idx s.expanded
    then s
    else rebuild_visible (record s { expanded = idx ∷ s.expanded })

unfoldable pub enter_selection : BrowserState → BrowserState
unfolding contains rebuild_visible select_node
enter_selection s = elim (selected_node s) [
  | none ↦ s
  | some (idx, n) ↦
      if is_group n.kind then reset_detail_focus (select_first n.children (expand idx s)) else s
]

abbrev pub collapse : ℕ → BrowserState → BrowserState
collapse idx s = select_node idx (rebuild_visible (record s { expanded = remove idx s.expanded }))

abbrev pub to_parent : Option ℕ → BrowserState → BrowserState
to_parent none s = s
to_parent (some p) s = select_node p s

unfoldable pub backspace_selection : BrowserState → BrowserState
unfolding contains remove rebuild_visible select_node
backspace_selection s = elim (selected_node s) [
  | none ↦ s
  | some (idx, n) ↦
      reset_detail_focus (
        if is_group n.kind && contains idx s.expanded then collapse idx s else to_parent n.parent s)
]

-- The walk up from the cursor, with every node on it expanded. The fuel bounds the depth.
unfoldable pub expand_ancestors : ℕ → List TreeNode → Option ℕ → List ℕ → List ℕ
unfolding parent_of
expand_ancestors fuel nodes none expanded = expanded
expand_ancestors zero nodes (some p) expanded = expanded
expand_ancestors (suc fuel) nodes (some p) expanded =
    expand_ancestors fuel nodes (parent_of nodes p) (p ∷ expanded)

-- The first group with the id, from index `i` on.
unfoldable pub find_group : Text → ℕ → List TreeNode → Option ℕ
find_group group_id i [] = none
find_group group_id i (n ∷ nodes) =
    let later = find_group group_id (suc i) nodes in
    if is_group n.kind && text_eq n.id group_id then some i else later

-- The group's row selected, with its ancestors expanded.
unfoldable pub reveal : ℕ → BrowserState → BrowserState
unfolding expand_ancestors rebuild_visible select_node parent_of
reveal target s =
    let expanded =
      expand_ancestors (length s.nodes) s.nodes (parent_of s.nodes target) s.expanded in
    select_node target (rebuild_visible (record s { expanded = expanded }))

unfoldable pub drill_into_group : Text → BrowserState → BrowserState × Bool
unfolding find_group reveal
drill_into_group group_id s = elim (find_group group_id 0 s.nodes) [
  | none ↦ (s, false)
  | some target ↦ (reset_detail_focus (reveal target s), true)
]
