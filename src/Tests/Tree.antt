-- ===== src/Tests/Tree.antt =====
-- The Browser's tree at concrete inputs.
use nifi_lens.Base.{
  ℕ, zero, suc, ◌<◌, ◌≡◌, refl, subst, true, false, Option, none, some, List, [], ◌∷◌, get_elem?,
  ◌↔◌, arith, if◌then◌else◌,
}
use nifi_lens.Base.Text.{Text, codes, text_eq}
use nifi_lens.Browser.{
  NodeKind, TreeNode, DetailFocus, BrowserState, contains, parent_of, children_of, visible_rows,
  find_group, drill_into_group, enter_selection, backspace_selection,
}
use nifi_lens.Browser.Forest.{IsForest, IsShown}
use nifi_lens.Browser.Rows.{visible_rows-IsShown}
use nifi_lens.Browser.Moves.{row_node, IsTree, drill_into_group-row_node}
use nifi_lens.Browser.Steps.{or_self, enter_selection-row_node, backspace_selection-row_node}
use nifi_lens.Browser.Snapshot.{
  RawNode, key_of, has_key, keys_at, selected_key, build_arena, carried_expanded,
  apply_tree_snapshot,
}
use nifi_lens.Browser.Kept.{apply_tree_snapshot-selected_key, apply_tree_snapshot-expanded}

abbrev node : Option ℕ → List ℕ → NodeKind → Text → TreeNode
node parent children kind id = record {
  parent = parent;
  children = children;
  kind = kind;
  id = id;
  group_id = [];
  name = id;
}

-- A group in a group, with a processor.
abbrev chain : List TreeNode
chain =
    node none (1 ∷ []) NodeKind.process_group (codes "r")
    ∷ node (some 0) (2 ∷ []) NodeKind.process_group (codes "a")
    ∷ node (some 1) [] NodeKind.processor (codes "p")
    ∷ []

chain_deeper : (i p : ℕ) → parent_of chain i ≡ some p → (p < i) × (p < 3)
unfolding parent_of
chain_deeper zero p h = absurd (ground arith)
chain_deeper (suc zero) p h = ground arith
chain_deeper (suc (suc zero)) p h = ground arith
chain_deeper (suc (suc (suc i))) p h = absurd (ground arith)

chain_down : (i p : ℕ) → parent_of chain i ≡ some p → contains i (children_of chain p) ≡ true
unfolding parent_of children_of contains
chain_down zero p h = absurd (ground arith)
chain_down (suc zero) p h =
    let here : 0 ≡ p = ground arith in
    subst (λ q. contains 1 (children_of chain q) ≡ true) here refl
chain_down (suc (suc zero)) p h =
    let here : 1 ≡ p = ground arith in
    subst (λ q. contains 2 (children_of chain q) ≡ true) here refl
chain_down (suc (suc (suc i))) p h = absurd (ground arith)

chain_up :
    (i p : ℕ) → contains i (children_of chain p) ≡ true → (parent_of chain i ≡ some p) × (i < 3)
unfolding parent_of children_of contains
chain_up i zero h =
    let here : 1 ≡ i = ground arith in
    subst (λ k. (parent_of chain k ≡ some 0) × (k < 3)) here (refl, omega arith)
chain_up i (suc zero) h =
    let here : 2 ≡ i = ground arith in
    subst (λ k. (parent_of chain k ≡ some 1) × (k < 3)) here (refl, omega arith)
chain_up i (suc (suc zero)) h = absurd (ground arith)
chain_up i (suc (suc (suc p))) h = absurd (ground arith)

chain-IsForest : IsForest chain
chain-IsForest = record {
  depth = λ i. i;
  bound = λ i h. h;
  deeper = chain_deeper;
  down = chain_down;
  up = chain_up;
}

-- The root is expanded, and its child selected.
abbrev opened : BrowserState
opened = record {
  nodes = chain;
  visible = 0 ∷ 1 ∷ [];
  selected = 1;
  expanded = 0 ∷ [];
  detail_focus = DetailFocus.section 0 [] [];
}

opened_rows : opened.visible ≡ visible_rows chain (0 ∷ [])
unfolding visible_rows
opened_rows = refl

abbrev group_a : TreeNode
group_a = node (some 0) (2 ∷ []) NodeKind.process_group (codes "a")

visible_rows-IsShown_example :
    (contains 1 (visible_rows chain (0 ∷ [])) ≡ true) ↔ IsShown chain (0 ∷ []) 1
visible_rows-IsShown_example = visible_rows-IsShown chain chain-IsForest (0 ∷ []) 1

first_a : find_group (codes "a") 0 chain ≡ some 1
unfolding find_group text_eq
first_a = refl

drill_into_group-row_node_example :
    let drilled = drill_into_group (codes "a") (record opened { selected = 0; expanded = [] }) in
    (drilled.1 ≡ true) × (row_node drilled.0 ≡ some 1) × (drilled.0.detail_focus ≡ DetailFocus.tree)
drill_into_group-row_node_example =
    drill_into_group-row_node (codes "a") 1 (record opened { selected = 0; expanded = [] })
      chain-IsForest first_a

enter_selection-row_node_example :
    let entered = enter_selection opened in
    (row_node entered ≡ some 2)
    × (contains 1 entered.expanded ≡ true)
    × (entered.detail_focus ≡ DetailFocus.tree)
    × IsTree entered
enter_selection-row_node_example =
    enter_selection-row_node 1 2 group_a [] opened
      (record { forest = chain-IsForest; rows = opened_rows }) (record { row = refl; node = refl })
      refl refl

backspace_selection-row_node_example :
    let after = backspace_selection opened in
    (row_node after ≡ some (if contains 1 opened.expanded then 1 else or_self (some 0) 1))
    × (contains 1 after.expanded ≡ false)
    × (after.detail_focus ≡ DetailFocus.tree)
    × IsTree after
backspace_selection-row_node_example =
    backspace_selection-row_node 1 group_a opened
      (record { forest = chain-IsForest; rows = opened_rows }) (record { row = refl; node = refl })

-- The next snapshot has another group in front.
abbrev raw : List RawNode
raw =
    record {
      parent_idx = none;
      kind = NodeKind.process_group;
      id = codes "r";
      group_id = [];
      name = codes "r";
    }
    ∷ record {
      parent_idx = some 0;
      kind = NodeKind.process_group;
      id = codes "b";
      group_id = [];
      name = codes "b";
    }
    ∷ record {
      parent_idx = some 0;
      kind = NodeKind.process_group;
      id = codes "a";
      group_id = [];
      name = codes "a";
    }
    ∷ []

abbrev in_words : ℕ → Text
in_words n = codes "some"

apply_tree_snapshot-selected_key_example :
    let after = apply_tree_snapshot in_words raw opened in
    (selected_key after ≡ some (key_of group_a)) × (after.detail_focus ≡ opened.detail_focus)
unfolding build_arena visible_rows carried_expanded text_eq
apply_tree_snapshot-selected_key_example =
    apply_tree_snapshot-selected_key in_words raw (key_of group_a) opened refl (record {
      row = 2;
      idx = 2;
      node = node (some 0) [] NodeKind.process_group (codes "a");
      at = refl;
      is = refl;
      same = refl;
    })

apply_tree_snapshot-expanded_example :
    let after = apply_tree_snapshot in_words raw opened in
    (contains 2 after.expanded ≡ has_key (key_of group_a) (keys_at chain (0 ∷ [])))
    × (after.visible ≡ visible_rows after.nodes after.expanded)
    × (get_elem? after.nodes 2 ≡ some (node (some 0) [] NodeKind.process_group (codes "a")))
unfolding build_arena
apply_tree_snapshot-expanded_example =
    apply_tree_snapshot-expanded in_words raw 2
      (node (some 0) [] NodeKind.process_group (codes "a")) opened refl refl
