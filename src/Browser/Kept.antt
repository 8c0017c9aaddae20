-- ===== src/Browser/Kept.antt =====
-- What a new snapshot keeps of the selection, the focus and the expanded nodes.
use nifi_lens.Base.{
  ℕ, zero, suc, ◌+◌, ◌<◌, ◌≡◌, refl, sym, ap, subst, ◌∙◌, true, false, ◌&&◌, not, Option, none,
  some, List, [], ◌∷◌, length, get_elem?, is_empty, ◌==◌, ==_refl, Bool-cases, inl, inr, arith,
  if_true, if_false,
}
use nifi_lens.Base.Text.{Text, text_eq_sound, text_eq_refl}
use nifi_lens.Browser.{
  NodeKind, TreeNode, DetailFocus, BrowserState, contains, rebuild_visible, visible_rows,
}
use nifi_lens.Browser.Moves.{row_node}
use nifi_lens.Browser.Snapshot.{
  RawNode, Key, kind_index, key_eq, key_of, has_key, keys_at, selected_key, position_key,
  indices_with, build_arena, carried_expanded, carried_selection, is_node, clamped, settle, carry,
  apply_tree_snapshot,
}

kind_index_injective : (a b : NodeKind) → (kind_index a == kind_index b) ≡ true → a ≡ b
kind_index_injective a b h = ground arith

key_eq_sound : (j k : Key) → key_eq j k ≡ true → j ≡ k
unfolding key_eq
key_eq_sound j k h =
    let same_id : j.id ≡ k.id = text_eq_sound j.id k.id (ground arith) in
    let same_kind : j.kind ≡ k.kind = kind_index_injective j.kind k.kind (ground arith) in cc

key_eq_refl : (k : Key) → key_eq k k ≡ true
unfolding key_eq
key_eq_refl k = ground (arith, text_eq_refl k.id, ==_refl (kind_index k.kind))

-- A row whose node has the key.
pub record HasRow (k : Key) (nodes : List TreeNode) (rows : List ℕ) : Type 0 where
  pub row : ℕ
  pub idx : ℕ
  pub node : TreeNode
  pub at : get_elem? rows row ≡ some idx
  pub is : get_elem? nodes idx ≡ some node
  pub same : key_of node ≡ k

clash : ¬ (false ≡ true)
clash h = ground arith

is_node_sound :
    (k : Key) (o : Option TreeNode)
    → is_node k o ≡ true
    → (n : TreeNode) × (o ≡ some n) × (key_of n ≡ k)
unfolding is_node
is_node_sound k none h = absurd (ground arith)
is_node_sound k (some n) h = (n, refl, key_eq_sound (key_of n) k h)

is_node_refl : (k : Key) (n : TreeNode) → key_of n ≡ k → is_node k (some n) ≡ true
unfolding is_node
is_node_refl k n e = subst (λ j. key_eq (key_of n) j ≡ true) e (key_eq_refl (key_of n))

abbrev behind_row : Option ℕ → Option ℕ
behind_row none = none
behind_row (some p) = some (suc p)

-- The first row is none of the key's, so that a later one is.
later_row :
    (k : Key) (nodes : List TreeNode) (i : ℕ) (rows : List ℕ) (row idx : ℕ) (n : TreeNode)
    → get_elem? (i ∷ rows) row ≡ some idx
    → get_elem? nodes idx ≡ some n
    → key_of n ≡ k
    → is_node k (get_elem? nodes i) ≡ false
    → HasRow k nodes rows
later_row k nodes i rows zero idx n at is same e =
    let here : i ≡ idx = ground arith in
    let shown = is_node_refl k n same in
    let found : get_elem? nodes i ≡ some n = ap (get_elem? nodes) here ∙ is in
    absurd (clash (sym e ∙ ap (is_node k) found ∙ shown))
later_row k nodes i rows (suc row) idx n at is same e = record {
  row = row;
  idx = idx;
  node = n;
  at = at;
  is = is;
  same = same;
}

position_key-HasRow :
    (k : Key) (nodes : List TreeNode) (rows : List ℕ)
    → HasRow k nodes rows
    → (found : HasRow k nodes rows) × (position_key k nodes rows ≡ some found.row)
unfolding position_key
position_key-HasRow k nodes [] h = absurd (ground (arith, h.at))
position_key-HasRow k nodes (i ∷ rows) h = elim (Bool-cases (is_node k (get_elem? nodes i))) [
  | inl e ↦
      let (n, is, same) = is_node_sound k (get_elem? nodes i) e in
      (record { row = zero; idx = i; node = n; at = refl; is = is; same = same }, if_true _ _ e)
  | inr e ↦
      let l = later_row k nodes i rows h.row h.idx h.node h.at h.is h.same e in
      let (f, p) = position_key-HasRow k nodes rows l in
      (
        record { row = suc f.row; idx = f.idx; node = f.node; at = f.at; is = f.is; same = f.same },
        if_false _ _ e ∙ ap behind_row p,
      )
]

row_bound : {A : Type 0} (xs : List A) (i : ℕ) (a : A) → get_elem? xs i ≡ some a → i < length xs
row_bound [] i a h = absurd (ground arith)
row_bound (x ∷ xs) zero a h = omega arith
row_bound (x ∷ xs) (suc i) a h = omega (arith, row_bound xs i a h)

clamped_inside : (i len : ℕ) → i < len → clamped i len ≡ i
clamped_inside i len h = ground arith

row_key :
    (u : BrowserState) (idx : ℕ) (n : TreeNode) (k : Key)
    → row_node u ≡ some idx
    → get_elem? u.nodes idx ≡ some n
    → key_of n ≡ k
    → selected_key u ≡ some k
row_key u idx n k at is same = grind arith

settled :
    (k : Key) (u : BrowserState) (focus : DetailFocus)
    → HasRow k u.nodes u.visible
    → (selected_key (settle (carried_selection (some k) u) focus u) ≡ some k)
      × ((settle (carried_selection (some k) u) focus u).detail_focus ≡ focus)
settled k u focus h =
    let (f, p) = position_key-HasRow k u.nodes u.visible h in
    let on_row = clamped_inside f.row (length u.visible) (row_bound u.visible f.row f.idx f.at) in
    let key : selected_key (record u { selected = f.row; detail_focus = focus }) ≡ some k =
      row_key (record u { selected = f.row; detail_focus = focus }) f.idx f.node k f.at f.is
        f.same in
    rw p (rw on_row (key, refl))

-- If a row of the new arena has the id and the kind of the node that was selected, such a node is
-- selected after a snapshot, and the focus of the detail pane stays as it was.
pub apply_tree_snapshot-selected_key :
    (to_string : ℕ → Text) (raw : List RawNode) (k : Key) (s : BrowserState)
    → selected_key s ≡ some k
    → let nodes = build_arena to_string raw in
      HasRow k nodes (visible_rows nodes (carried_expanded s nodes))
      → let after = apply_tree_snapshot to_string raw s in
        (selected_key after ≡ some k) × (after.detail_focus ≡ s.detail_focus)
unfolding apply_tree_snapshot carry rebuild_visible
apply_tree_snapshot-selected_key to_string raw k s e h =
    let nodes = build_arena to_string raw in
    let rebuilt =
      rebuild_visible (record s { nodes = nodes; expanded = carried_expanded s nodes }) in
    subst
      (λ o.
        let after = settle (carried_selection o rebuilt) s.detail_focus rebuilt in
        (selected_key after ≡ some k) × (after.detail_focus ≡ s.detail_focus))
      (sym e) (settled k rebuilt s.detail_focus h)

none_below :
    (x j : ℕ) (keys : List Key) (nodes : List TreeNode)
    → x < j
    → contains x (indices_with j keys nodes) ≡ false
unfolding indices_with contains
none_below x j keys [] h = refl
none_below x j keys (n ∷ nodes) h = ground (arith, none_below x (suc j) keys nodes)

-- Of the arena's nodes those with one of the keys.
indices_with-has_key :
    (i x j : ℕ) (keys : List Key) (nodes : List TreeNode) (n : TreeNode)
    → x ≡ j + i
    → get_elem? nodes i ≡ some n
    → contains x (indices_with j keys nodes) ≡ has_key (key_of n) keys
unfolding indices_with contains
indices_with-has_key i x j keys [] n s e = absurd (ground arith)
indices_with-has_key zero x j keys (m ∷ nodes) n s e =
    let here : m ≡ n = ground arith in
    let first : contains x (indices_with j keys (m ∷ nodes)) ≡ has_key (key_of m) keys =
      ground (arith, none_below x (suc j) keys nodes) in
    first ∙ ap (λ u. has_key (key_of u) keys) here
indices_with-has_key (suc i) x j keys (m ∷ nodes) n s e =
    ground (arith, indices_with-has_key i x (suc j) keys nodes n (omega arith) e)

settle-frame :
    (o : Option ℕ) (focus : DetailFocus) (u : BrowserState)
    → ((settle o focus u).nodes ≡ u.nodes)
      × ((settle o focus u).visible ≡ u.visible)
      × ((settle o focus u).expanded ≡ u.expanded)
settle-frame none focus u = (refl, refl, refl)
settle-frame (some p) focus u = (refl, refl, refl)

-- After a snapshot that is not the first, a node of the new arena is expanded just if a node with
-- its id and its kind was, and the rows are those of the new arena.
pub apply_tree_snapshot-expanded :
    (to_string : ℕ → Text) (raw : List RawNode) (i : ℕ) (n : TreeNode) (s : BrowserState)
    → is_empty s.nodes ≡ false
    → get_elem? (build_arena to_string raw) i ≡ some n
    → let after = apply_tree_snapshot to_string raw s in
      (contains i after.expanded ≡ has_key (key_of n) (keys_at s.nodes s.expanded))
      × (after.visible ≡ visible_rows after.nodes after.expanded)
      × (get_elem? after.nodes i ≡ some n)
unfolding apply_tree_snapshot carry rebuild_visible carried_expanded
apply_tree_snapshot-expanded to_string raw i n s f e =
    let nodes = build_arena to_string raw in
    let rebuilt =
      rebuild_visible (record s { nodes = nodes; expanded = carried_expanded s nodes }) in
    let after = apply_tree_snapshot to_string raw s in
    let (same_nodes, same_rows, same_expanded) =
      settle-frame (carried_selection (selected_key s) rebuilt) s.detail_focus rebuilt in
    let later : (is_empty s.nodes && not (is_empty nodes)) ≡ false = ground arith in
    (
      ap (contains i) (same_expanded ∙ if_false _ _ later)
          ∙ indices_with-has_key i i 0 (keys_at s.nodes s.expanded) nodes n (omega arith) e,
      same_rows
          ∙ sym (
              ap (λ arena. visible_rows arena after.expanded) same_nodes
              ∙ ap (visible_rows nodes) same_expanded),
      ap (λ arena. get_elem? arena i) same_nodes ∙ e,
    )
