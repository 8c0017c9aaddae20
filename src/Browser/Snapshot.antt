-- ===== src/Browser/Snapshot.antt =====
-- src/view/browser/state/mod.rs, `apply_tree_snapshot`: a new arena, with a folder for the queues and
-- one for the services of a group, and what of the old state is carried over to it.
use nifi_lens.Base.{
  ℕ, zero, suc, ◌-◌, Bool, false, ◌&&◌, ◌||◌, not, Option, none, some, List, [], ◌∷◌, ◌++◌, map,
  length, get_elem?, is_empty, leb, ◌==◌, if◌then◌else◌,
}
use nifi_lens.Base.Text.{Text, codes, text_eq}
use nifi_lens.Browser.{
  FolderKind, NodeKind, is_group, TreeNode, DetailFocus, BrowserState, children_of, rebuild_visible,
  selected_node,
}

-- `RawNode` of src/client/browser.rs.
pub record RawNode : Type 0 where
  pub parent_idx : Option ℕ
  pub kind : NodeKind
  pub id : Text
  pub group_id : Text
  pub name : Text

-- `(id, kind)`, by which nodes are told apart across snapshots.
pub record Key : Type 0 where
  pub id : Text
  pub kind : NodeKind

abbrev pub kind_index : NodeKind → ℕ
kind_index NodeKind.process_group = 0
kind_index NodeKind.processor = 1
kind_index NodeKind.connection = 2
kind_index NodeKind.input_port = 3
kind_index NodeKind.output_port = 4
kind_index NodeKind.controller_service = 5
kind_index NodeKind.remote_process_group = 6
kind_index (NodeKind.folder FolderKind.queues) = 7
kind_index (NodeKind.folder FolderKind.controller_services) = 8

unfoldable pub key_eq : Key → Key → Bool
key_eq j k = text_eq j.id k.id && kind_index j.kind == kind_index k.kind

abbrev pub key_of : TreeNode → Key
key_of n = record { id = n.id; kind = n.kind }

unfoldable pub has_key : Key → List Key → Bool
unfolding key_eq
has_key k [] = false
has_key k (j ∷ keys) = key_eq j k || has_key k keys

-- The keys of the nodes at the indices that the arena has.
unfoldable pub keys_at : List TreeNode → List ℕ → List Key
keys_at nodes [] = []
keys_at nodes (i ∷ is) =
    let later = keys_at nodes is in
    elim (get_elem? nodes i) [ none ↦ later | some n ↦ key_of n ∷ later ]

abbrev pub selected_key : BrowserState → Option Key
selected_key s = elim (selected_node s) [ none ↦ none | some (idx, n) ↦ some (key_of n) ]

abbrev pub to_tree_node : RawNode → TreeNode
to_tree_node r = record {
  parent = r.parent_idx;
  children = [];
  kind = r.kind;
  id = r.id;
  group_id = r.group_id;
  name = r.name;
}

-- An assignment to `nodes[i]`.
unfoldable pub update : ℕ → (TreeNode → TreeNode) → List TreeNode → List TreeNode
update i f [] = []
update zero f (n ∷ nodes) = f n ∷ nodes
update (suc i) f (n ∷ nodes) = n ∷ update i f nodes

abbrev pub adopt : ℕ → Option ℕ → List TreeNode → List TreeNode
adopt i none nodes = nodes
adopt i (some p) nodes = update p (λ n. record n { children = n.children ++ i ∷ [] }) nodes

-- The loop that fills the children, from index `i` on.
unfoldable pub fill_children : ℕ → List RawNode → List TreeNode → List TreeNode
unfolding update
fill_children i [] nodes = nodes
fill_children i (r ∷ raw) nodes = fill_children (suc i) raw (adopt i r.parent_idx nodes)

-- The children whose kind passes the test.
unfoldable pub of_kind : (NodeKind → Bool) → List TreeNode → List ℕ → List ℕ
of_kind test nodes [] = []
of_kind test nodes (c ∷ cs) =
    let later = of_kind test nodes cs in
    elim (get_elem? nodes c) [ none ↦ later | some n ↦ if test n.kind then c ∷ later else later ]

abbrev pub is_processor : NodeKind → Bool
is_processor kind = kind_index kind == 1

abbrev pub is_connection : NodeKind → Bool
is_connection kind = kind_index kind == 2

abbrev pub is_service : NodeKind → Bool
is_service kind = kind_index kind == 5

abbrev pub is_rest : NodeKind → Bool
is_rest kind = not (is_processor kind || is_connection kind || is_service kind)

unfoldable pub reparent : ℕ → List ℕ → List TreeNode → List TreeNode
unfolding update
reparent folder_idx [] nodes = nodes
reparent folder_idx (k ∷ kids) nodes =
    reparent folder_idx kids (update k (λ n. record n { parent = some folder_idx }) nodes)

abbrev pub suffix : FolderKind → Text
suffix FolderKind.queues = codes "::folder::queues"
suffix FolderKind.controller_services = codes "::folder::cs"

abbrev pub title : FolderKind → Text
title FolderKind.queues = codes "Queues ("
title FolderKind.controller_services = codes "Controller services ("

abbrev pub id_at : List TreeNode → ℕ → Text
id_at nodes i = elim (get_elem? nodes i) [ none ↦ [] | some n ↦ n.id ]

-- The indices of the groups, from `i` on.
unfoldable pub group_indices : ℕ → List TreeNode → List ℕ
group_indices i [] = []
group_indices i (n ∷ nodes) =
    let later = group_indices (suc i) nodes in if is_group n.kind then i ∷ later else later

unfoldable pub is_node : Key → Option TreeNode → Bool
unfolding key_eq
is_node k none = false
is_node k (some n) = key_eq (key_of n) k

-- The first row whose node has the key.
unfoldable pub position_key : Key → List TreeNode → List ℕ → Option ℕ
unfolding is_node
position_key k nodes [] = none
position_key k nodes (i ∷ is) =
    let later : Option ℕ = elim (position_key k nodes is) [ none ↦ none | some p ↦ some (suc p) ] in
    if is_node k (get_elem? nodes i) then some zero else later

-- The indices whose key is in the list, from `i` on.
unfoldable pub indices_with : ℕ → List Key → List TreeNode → List ℕ
unfolding has_key
indices_with i keys [] = []
indices_with i keys (n ∷ nodes) =
    let later = indices_with (suc i) keys nodes in
    if has_key (key_of n) keys then i ∷ later else later

unfoldable pub carried_expanded : BrowserState → List TreeNode → List ℕ
unfolding keys_at indices_with
carried_expanded s nodes =
    let same = indices_with 0 (keys_at s.nodes s.expanded) nodes in
    if is_empty s.nodes && not (is_empty nodes) then 0 ∷ same else same

-- The new position of the key, if the old state had one.
abbrev pub carried_selection : Option Key → BrowserState → Option ℕ
carried_selection none s = none
carried_selection (some k) s = position_key k s.nodes s.visible

abbrev pub clamped : ℕ → ℕ → ℕ
clamped selected len = if len == 0 then 0 else if leb len selected then len - 1 else selected

abbrev pub settle : Option ℕ → DetailFocus → BrowserState → BrowserState
settle none focus s = record s {
  selected = clamped 0 (length s.visible);
  detail_focus = DetailFocus.tree;
}
settle (some p) focus s = record s { selected = clamped p (length s.visible); detail_focus = focus }

-- The state on a new arena, with what is carried over by the keys.
unfoldable pub carry : List TreeNode → BrowserState → BrowserState
unfolding carried_expanded rebuild_visible position_key
carry nodes s =
    let rebuilt =
      rebuild_visible (record s { nodes = nodes; expanded = carried_expanded s nodes }) in
    settle (carried_selection (selected_key s) rebuilt) s.detail_focus rebuilt

-- `to_string` prints a number.
module _ (to_string : ℕ → Text) where
  abbrev pub folder_node : FolderKind → ℕ → List ℕ → List TreeNode → TreeNode
  folder_node kind pg_idx kids nodes = record {
    parent = some pg_idx;
    children = kids;
    kind = NodeKind.folder kind;
    id = id_at nodes pg_idx ++ suffix kind;
    group_id = id_at nodes pg_idx;
    name = title kind ++ to_string (length kids) ++ codes ")";
  }

  -- The arena and the new children of the group.
  unfoldable pub add_folder :
      FolderKind → ℕ → List ℕ → List TreeNode × List ℕ → List TreeNode × List ℕ
  unfolding reparent
  add_folder kind pg_idx kids (nodes, new_children) =
      if is_empty kids then (nodes, new_children) else (
        reparent (length nodes) kids (nodes ++ folder_node kind pg_idx kids nodes ∷ []),
        new_children ++ length nodes ∷ [],
      )

  unfoldable pub add_folders : ℕ → List TreeNode → List TreeNode
  unfolding update of_kind children_of add_folder
  add_folders pg_idx nodes =
      let children = children_of nodes pg_idx in
      let with_queues =
        add_folder FolderKind.queues pg_idx (of_kind is_connection nodes children)
          (nodes, of_kind is_processor nodes children) in
      let with_services =
        add_folder FolderKind.controller_services pg_idx (of_kind is_service nodes children)
          with_queues in
      update pg_idx (λ n. record n { children = with_services.1 ++ of_kind is_rest nodes children })
        with_services.0

  unfoldable pub all_folders : List ℕ → List TreeNode → List TreeNode
  unfolding add_folders
  all_folders [] nodes = nodes
  all_folders (pg_idx ∷ groups) nodes = all_folders groups (add_folders pg_idx nodes)

  unfoldable pub build_arena : List RawNode → List TreeNode
  unfolding fill_children all_folders group_indices
  build_arena raw =
      let linked = fill_children 0 raw (map to_tree_node raw) in
      all_folders (group_indices 0 linked) linked

  unfoldable pub apply_tree_snapshot : List RawNode → BrowserState → BrowserState
  unfolding build_arena carry
  apply_tree_snapshot raw s = carry (build_arena raw) s
