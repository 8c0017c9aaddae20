-- ===== src/Browser/Moves.antt =====
-- Where the selection is after the moves along the tree.
use nifi_lens.Base.{
  ℕ, zero, suc, ◌+◌, ◌≤◌, ◌<◌, ◌≡◌, refl, sym, ap, subst, true, false, Option, none, some, List, [],
  ◌∷◌, length, get_elem?, Bool-cases, inl, inr, arith, ==_refl,
}
use nifi_lens.Base.Text.{Text}
use nifi_lens.Browser.{
  TreeNode, DetailFocus, BrowserState, contains, remove, parent_of, visible_rows, rebuild_visible,
  select_node, expand_ancestors, reveal, find_group, drill_into_group, expand,
}
use nifi_lens.Browser.Forest.{IsForest, IsShown, root, child}
use nifi_lens.Browser.Rows.{position-contains, visible_rows-IsShown}

-- The node of the selected row.
abbrev pub row_node : BrowserState → Option ℕ
row_node s = get_elem? s.visible s.selected

pub select_node-row_node :
    (i : ℕ) (s : BrowserState) → contains i s.visible ≡ true → row_node (select_node i s) ≡ some i
unfolding select_node
select_node-row_node i s h = let (k, p, g) = position-contains i s.visible h in grind (arith, p, g)

module _ (nodes : List TreeNode) (forest : IsForest nodes) where
  -- What is expanded stays so on the way up.
  expand_ancestors_keeps :
      (fuel i : ℕ) (o : Option ℕ) (expanded : List ℕ)
      → contains i expanded ≡ true
      → contains i (expand_ancestors fuel nodes o expanded) ≡ true
  unfolding expand_ancestors contains
  expand_ancestors_keeps fuel i none expanded h = h
  expand_ancestors_keeps zero i (some p) expanded h = h
  expand_ancestors_keeps (suc fuel) i (some p) expanded h =
      expand_ancestors_keeps fuel i (parent_of nodes p) (p ∷ expanded) (ground arith)

  -- The way up from a node shows it, where the fuel reaches to its depth.
  expand_ancestors-IsShown :
      (fuel i : ℕ) (o : Option ℕ) (expanded : List ℕ)
      → i < length nodes
      → parent_of nodes i ≡ o
      → forest.depth i ≤ fuel
      → IsShown nodes (expand_ancestors fuel nodes o expanded) i
  unfolding expand_ancestors contains
  expand_ancestors-IsShown fuel i none expanded b e f = root i b e
  expand_ancestors-IsShown zero i (some p) expanded b e f =
      let lower = (forest.deeper i p e).0 in absurd (omega arith)
  expand_ancestors-IsShown (suc fuel) i (some p) expanded b e f =
      let lower = forest.deeper i p e in
      child i p e
        (expand_ancestors_keeps fuel p (parent_of nodes p) (p ∷ expanded)
          (ground (arith, ==_refl p)))
        (expand_ancestors-IsShown fuel p (parent_of nodes p) (p ∷ expanded) lower.1 refl
          (omega arith))

find_group_bound :
    (id : Text) (i k : ℕ) (nodes : List TreeNode)
    → find_group id i nodes ≡ some k
    → k < i + length nodes
unfolding find_group
find_group_bound id i k [] h = absurd (ground arith)
find_group_bound id i k (n ∷ nodes) h = ground (arith, find_group_bound id (suc i) k nodes)

-- The rows are those of the arena and the expanded nodes.
pub record IsTree (s : BrowserState) : Type 0 where
  pub forest : IsForest s.nodes
  pub rows : s.visible ≡ visible_rows s.nodes s.expanded

reveal-row_node :
    (target : ℕ) (s : BrowserState)
    → IsForest s.nodes
    → target < length s.nodes
    → row_node (reveal target s) ≡ some target
unfolding reveal rebuild_visible
reveal-row_node target s forest inside =
    let wide = expand_ancestors (length s.nodes) s.nodes (parent_of s.nodes target) s.expanded in
    let shown =
      expand_ancestors-IsShown s.nodes forest (length s.nodes) target (parent_of s.nodes target)
        s.expanded inside refl (omega (arith, forest.bound target inside)) in
    select_node-row_node target _ ((visible_rows-IsShown s.nodes forest wide target).1 shown)

-- Drilling into a group that the arena has, in an arena that is a forest, selects its row, whatever
-- was expanded before, and takes the focus back to the tree.
pub drill_into_group-row_node :
    (id : Text) (target : ℕ) (s : BrowserState)
    → IsForest s.nodes
    → find_group id 0 s.nodes ≡ some target
    → let drilled = drill_into_group id s in
      (drilled.1 ≡ true)
      × (row_node drilled.0 ≡ some target)
      × (drilled.0.detail_focus ≡ DetailFocus.tree)
unfolding drill_into_group
drill_into_group-row_node id target s forest e =
    let inside : target < length s.nodes = omega (arith, find_group_bound id 0 target s.nodes e) in
    rw (e, drill_into_group) (refl, reveal-row_node target s forest inside, refl)

IsShown-wider :
    (nodes : List TreeNode) (narrow wide : List ℕ) {i : ℕ}
    → ((p : ℕ) → contains p narrow ≡ true → contains p wide ≡ true)
    → IsShown nodes narrow i
    → IsShown nodes wide i
IsShown-wider nodes narrow wide w (root i b e) = root i b e
IsShown-wider nodes narrow wide w (child i p l e s) =
    child i p l (w p e) (IsShown-wider nodes narrow wide w s)

contains-remove :
    (a b : ℕ) (xs : List ℕ) → ¬ (a ≡ b) → contains b xs ≡ true → contains b (remove a xs) ≡ true
unfolding contains remove
contains-remove a b [] l h = h
contains-remove a b (x ∷ xs) l h = ground (arith, contains-remove a b xs l)

pub removed : (a : ℕ) (xs : List ℕ) → contains a (remove a xs) ≡ false
unfolding contains remove
removed a [] = refl
removed a (x ∷ xs) = ground (arith, removed a xs)

-- A node no deeper than another stays shown when the other collapses.
pub IsShown-collapsed :
    (nodes : List TreeNode) (forest : IsForest nodes) (expanded : List ℕ) (a : ℕ) {i : ℕ}
    → forest.depth i ≤ forest.depth a
    → IsShown nodes expanded i
    → IsShown nodes (remove a expanded) i
IsShown-collapsed nodes forest expanded a f (root i b e) = root i b e
IsShown-collapsed nodes forest expanded a f (child i p l e s) =
    let lower = (forest.deeper i p l).0 in
    child i p l
      (contains-remove a p expanded (λ same. let same_depth = ap forest.depth same in omega arith)
        e)
      (IsShown-collapsed nodes forest expanded a (omega arith) s)

contains-row : (i k : ℕ) (xs : List ℕ) → get_elem? xs k ≡ some i → contains i xs ≡ true
unfolding contains
contains-row i k [] h = absurd (ground arith)
contains-row i zero (x ∷ xs) h = ground arith
contains-row i (suc k) (x ∷ xs) h = ground (arith, contains-row i k xs h)

pub row-IsShown :
    (i : ℕ) (s : BrowserState) → IsTree s → row_node s ≡ some i → IsShown s.nodes s.expanded i
row-IsShown i s t e =
    (visible_rows-IsShown s.nodes t.forest s.expanded i).0
      (subst (λ rows. contains i rows ≡ true) t.rows (contains-row i s.selected s.visible e))

pub listed :
    (i : ℕ) (s : BrowserState)
    → IsTree s
    → IsShown s.nodes s.expanded i
    → contains i s.visible ≡ true
listed i s t h =
    subst (λ rows. contains i rows ≡ true) (sym t.rows)
      ((visible_rows-IsShown s.nodes t.forest s.expanded i).1 h)

pub rebuilt-IsTree : (s : BrowserState) → IsForest s.nodes → IsTree (rebuild_visible s)
unfolding rebuild_visible
rebuilt-IsTree s forest = record { forest = forest; rows = refl }

-- The child of a shown node, once the node is expanded.
pub expand-row_node :
    (i c : ℕ) (s : BrowserState)
    → IsTree s
    → IsShown s.nodes s.expanded i
    → parent_of s.nodes c ≡ some i
    → (row_node (select_node c (expand i s)) ≡ some c) × (contains i (expand i s).expanded ≡ true)
unfolding rebuild_visible contains
expand-row_node i c s t h l = elim (Bool-cases (contains i s.expanded)) [
  | inl e ↦ rw e (select_node-row_node c s (listed c s t (child c i l e h)), e)
  | inr e ↦
      let wide = i ∷ s.expanded in
      let self : contains i wide ≡ true = ground (arith, ==_refl i) in
      let shown = IsShown-wider s.nodes s.expanded wide (λ p k. ground arith) h in
      let u : BrowserState = record s { expanded = wide; visible = visible_rows s.nodes wide } in
      let tree : IsTree u = record { forest = t.forest; rows = refl } in
      rw e (select_node-row_node c u (listed c u tree (child c i l self shown)), self)
]
