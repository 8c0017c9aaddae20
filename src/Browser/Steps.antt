-- ===== src/Browser/Steps.antt =====
-- Enter and Backspace on the tree.
use nifi_lens.Base.{
  ℕ, ◌≡◌, refl, sym, ap, subst, ◌∙◌, true, false, ◌&&◌, Option, none, some, List, ◌∷◌, get_elem?,
  Bool-cases, if-keeps, inl, inr, arith, if◌then◌else◌, if_true, if_false, ==_refl,
}
use nifi_lens.Browser.{
  TreeNode, DetailFocus, BrowserState, is_group, contains, remove, parent_of, children_of,
  visible_rows, rebuild_visible, select_node, enter_selection, backspace_selection, expand,
  collapse, to_parent, reset_detail_focus,
}
use nifi_lens.Browser.Forest.{IsForest, IsShown, root, child}
use nifi_lens.Browser.Moves.{
  row_node, select_node-row_node, IsTree, row-IsShown, listed, expand-row_node, rebuilt-IsTree,
  removed, IsShown-collapsed,
}

-- The node `n` at index `i` is on the selected row.
pub record IsAt (i : ℕ) (n : TreeNode) (s : BrowserState) : Type 0 where
  pub row : row_node s ≡ some i
  pub node : get_elem? s.nodes i ≡ some n

first_child :
    (i c : ℕ) (n : TreeNode) (cs : List ℕ) (s : BrowserState)
    → IsTree s
    → IsAt i n s
    → n.children ≡ c ∷ cs
    → parent_of s.nodes c ≡ some i
unfolding children_of contains
first_child i c n cs s t at e =
    let below : contains c (children_of s.nodes i) ≡ true = ground (arith, at.node, ==_refl c) in
    ((t.forest).up c i below).0

entered :
    (i c : ℕ) (n : TreeNode) (cs : List ℕ) (s : BrowserState)
    → IsAt i n s
    → is_group n.kind ≡ true
    → n.children ≡ c ∷ cs
    → enter_selection s ≡ reset_detail_focus (select_node c (expand i s))
unfolding enter_selection
entered i c n cs s at g e = grind (arith, at.row, at.node)

backspaced :
    (i : ℕ) (n : TreeNode) (s : BrowserState)
    → IsAt i n s
    → backspace_selection s
      ≡ reset_detail_focus
          (if is_group n.kind && contains i s.expanded then collapse i s else to_parent n.parent s)
unfolding backspace_selection
backspaced i n s at = grind (arith, at.row, at.node)

select_node-frame :
    (i : ℕ) (s : BrowserState)
    → ((select_node i s).nodes ≡ s.nodes)
      × ((select_node i s).visible ≡ s.visible)
      × ((select_node i s).expanded ≡ s.expanded)
unfolding select_node
select_node-frame i s = ground arith

-- What keeps the arena, the rows and the expanded nodes keeps the tree.
same-IsTree :
    (s u : BrowserState)
    → u.nodes ≡ s.nodes
    → u.visible ≡ s.visible
    → u.expanded ≡ s.expanded
    → IsTree s
    → IsTree u
same-IsTree s u n v e t = record {
  forest = subst IsForest (sym n) t.forest;
  rows =
      v
      ∙ t.rows
      ∙ ap (visible_rows s.nodes) (sym e)
      ∙ ap (λ nodes. visible_rows nodes u.expanded) (sym n);
}

select_node-IsTree :
    (i : ℕ) (s : BrowserState) → IsTree s → IsTree (reset_detail_focus (select_node i s))
select_node-IsTree i s t =
    let f = select_node-frame i s in
    same-IsTree s (reset_detail_focus (select_node i s)) f.0 f.1 f.2 t

expand-IsTree : (i : ℕ) (s : BrowserState) → IsTree s → IsTree (expand i s)
expand-IsTree i s t =
    if-keeps IsTree (contains i s.expanded) t
      (rebuilt-IsTree (record s { expanded = i ∷ s.expanded }) t.forest)

-- Enter on a group with a child, in a tree whose rows are up to date: the row of its first child is
-- selected, the group is expanded, the focus is in the tree and the rows are up to date again.
pub enter_selection-row_node :
    (i c : ℕ) (n : TreeNode) (cs : List ℕ) (s : BrowserState)
    → IsTree s
    → IsAt i n s
    → is_group n.kind ≡ true
    → n.children ≡ c ∷ cs
    → let entered = enter_selection s in
      (row_node entered ≡ some c)
      × (contains i entered.expanded ≡ true)
      × (entered.detail_focus ≡ DetailFocus.tree)
      × IsTree entered
enter_selection-row_node i c n cs s t at g e =
    let shown = row-IsShown i s t at.row in
    let r = expand-row_node i c s t shown (first_child i c n cs s t at e) in
    let f = select_node-frame c (expand i s) in
    let open_ : contains i (select_node c (expand i s)).expanded ≡ true =
      ap (contains i) f.2 ∙ r.1 in
    subst
      (λ u.
        (row_node u ≡ some c)
        × (contains i u.expanded ≡ true)
        × (u.detail_focus ≡ DetailFocus.tree)
        × IsTree u)
      (sym (entered i c n cs s at g e))
      (r.0, open_, refl, select_node-IsTree c (expand i s) (expand-IsTree i s t))

IsShown-parent :
    (nodes : List TreeNode) (expanded : List ℕ) (p : ℕ) {i : ℕ}
    → IsShown nodes expanded i
    → parent_of nodes i ≡ some p
    → IsShown nodes expanded p
IsShown-parent nodes expanded p (root i b e) l = absurd (ground arith)
IsShown-parent nodes expanded p (child i q k e s) l =
    let same : q ≡ p = ground arith in subst (IsShown nodes expanded) same s

-- The parent, or the node itself.
abbrev pub or_self : Option ℕ → ℕ → ℕ
or_self none i = i
or_self (some p) i = p

to_parent-row_node :
    (o : Option ℕ) (i : ℕ) (s : BrowserState)
    → IsTree s
    → row_node s ≡ some i
    → parent_of s.nodes i ≡ o
    → (row_node (to_parent o s) ≡ some (or_self o i))
      × IsTree (reset_detail_focus (to_parent o s))
      × ((to_parent o s).expanded ≡ s.expanded)
to_parent-row_node none i s t e l = (e, same-IsTree s (reset_detail_focus s) refl refl refl t, refl)
to_parent-row_node (some p) i s t e l =
    let shown = IsShown-parent s.nodes s.expanded p (row-IsShown i s t e) l in
    (
      select_node-row_node p s (listed p s t shown),
      select_node-IsTree p s t,
      (select_node-frame p s).2,
    )

collapse-row_node :
    (i : ℕ) (s : BrowserState)
    → IsTree s
    → row_node s ≡ some i
    → (row_node (collapse i s) ≡ some i)
      × IsTree (reset_detail_focus (collapse i s))
      × (contains i (collapse i s).expanded ≡ false)
unfolding rebuild_visible
collapse-row_node i s t e =
    let narrow = remove i s.expanded in
    let shown =
      IsShown-collapsed s.nodes t.forest s.expanded i (omega arith) (row-IsShown i s t e) in
    let u : BrowserState = record s { expanded = narrow; visible = visible_rows s.nodes narrow } in
    let tree : IsTree u = record { forest = t.forest; rows = refl } in
    (
      select_node-row_node i u (listed i u tree shown),
      select_node-IsTree i u tree,
      ap (contains i) (select_node-frame i u).2 ∙ removed i s.expanded,
    )

-- What Backspace leaves, if it collapses the node or not.
record Backspaced (i : ℕ) (n : TreeNode) (to : ℕ) (u : BrowserState) : Type 0 where
  row : row_node u ≡ some to
  closed : (is_group n.kind && contains i u.expanded) ≡ false
  tree : IsTree (reset_detail_focus u)

abbrev Outcome : ℕ → TreeNode → ℕ → BrowserState → Type 0
Outcome i n to after =
    (row_node after ≡ some to)
    × ((is_group n.kind && contains i after.expanded) ≡ false)
    × (after.detail_focus ≡ DetailFocus.tree)
    × IsTree after

outcome :
    (i : ℕ) (n : TreeNode) (to shown : ℕ) (u after : BrowserState)
    → Backspaced i n to u
    → after ≡ reset_detail_focus u
    → shown ≡ to
    → Outcome i n shown after
outcome i n to shown u after b e same =
    subst (Outcome i n shown) (sym e) (b.row ∙ ap some (sym same), b.closed, refl, b.tree)

collapsed :
    (i : ℕ) (n : TreeNode) (s : BrowserState)
    → IsTree s
    → IsAt i n s
    → Backspaced i n i (collapse i s)
collapsed i n s t at =
    let (row, tree, gone) = collapse-row_node i s t at.row in
    record { row = row; closed = ground arith; tree = tree }

gone_up :
    (i : ℕ) (n : TreeNode) (s : BrowserState)
    → IsTree s
    → IsAt i n s
    → (is_group n.kind && contains i s.expanded) ≡ false
    → Backspaced i n (or_self n.parent i) (to_parent n.parent s)
unfolding parent_of
gone_up i n s t at e =
    let link : parent_of s.nodes i ≡ n.parent = ground (arith, at.node) in
    let (row, tree, same) = to_parent-row_node n.parent i s t at.row link in
    record {
      row = row;
      closed = ap (λ expanded. is_group n.kind && contains i expanded) same ∙ e;
      tree = tree;
    }

-- Backspace in a tree whose rows are up to date: on an expanded group it stays on the row, and on
-- another node it goes to the row of the parent, or stays where there is none; the node is then no
-- expanded group, the focus is in the tree and the rows are up to date again.
pub backspace_selection-row_node :
    (i : ℕ) (n : TreeNode) (s : BrowserState)
    → IsTree s
    → IsAt i n s
    → let after = backspace_selection s in
      let collapses = is_group n.kind && contains i s.expanded in
      (row_node after ≡ some (if collapses then i else or_self n.parent i))
      × ((is_group n.kind && contains i after.expanded) ≡ false)
      × (after.detail_focus ≡ DetailFocus.tree)
      × IsTree after
backspace_selection-row_node i n s t at =
    let left = backspaced i n s at in
    elim (Bool-cases (is_group n.kind && contains i s.expanded)) [
      | inl e ↦
          outcome i n i _ (collapse i s) (backspace_selection s) (collapsed i n s t at)
            (left ∙ ap reset_detail_focus (if_true _ _ e)) (if_true _ _ e)
      | inr e ↦
          outcome i n (or_self n.parent i) _ (to_parent n.parent s) (backspace_selection s)
            (gone_up i n s t at e) (left ∙ ap reset_detail_focus (if_false _ _ e)) (if_false _ _ e)
    ]
