-- ===== src/Browser/Forest.antt =====
-- An arena that is a forest, and the nodes of it that are shown.
use nifi_lens.Base.{ℕ, ◌<◌, ◌≡◌, true, none, some, List, length}
use nifi_lens.Browser.{TreeNode, contains, parent_of, children_of}

-- The links go both ways, and lead up along a depth below the number of nodes.
pub record IsForest (nodes : List TreeNode) : Type 0 where
  pub depth : ℕ → ℕ
  pub bound : (i : ℕ) → i < length nodes → depth i < length nodes
  pub deeper : (i p : ℕ) → parent_of nodes i ≡ some p → (depth p < depth i) × (p < length nodes)
  pub down : (i p : ℕ) → parent_of nodes i ≡ some p → contains i (children_of nodes p) ≡ true
  pub up :
      (i p : ℕ)
      → contains i (children_of nodes p) ≡ true
      → (parent_of nodes i ≡ some p) × (i < length nodes)

-- Every ancestor is expanded.
pub data IsShown (nodes : List TreeNode) (expanded : List ℕ) : ℕ → Type 0 where
  root : (i : ℕ) → i < length nodes → parent_of nodes i ≡ none → IsShown nodes expanded i
  child :
      (i p : ℕ)
      → parent_of nodes i ≡ some p
      → contains p expanded ≡ true
      → IsShown nodes expanded p
      → IsShown nodes expanded i
