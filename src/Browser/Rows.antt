-- ===== src/Browser/Rows.antt =====
-- The rows of the tree are the nodes whose ancestors are all expanded.
use nifi_lens.Base.{
  ℕ, zero, suc, ◌+◌, ◌≤◌, ◌<◌, ◌≡◌, sym, ap, ◌∙◌, true, Option, none, some, List, [], ◌∷◌, ◌++◌,
  length, get_elem?, ◌==◌, Bool-cases, Option-cases, subst, inl, inr, ◌⊎◌, arith, ◌↔◌, if_true,
  if_false, ==_refl,
}
use nifi_lens.Browser.{
  TreeNode, contains, position, parent_of, children_of, flat_map, push_visible_subtree, with_root,
  roots, visible_rows,
}
use nifi_lens.Browser.Forest.{IsForest, IsShown, root, child}

contains-left : (a : ℕ) (xs ys : List ℕ) → contains a xs ≡ true → contains a (xs ++ ys) ≡ true
unfolding contains
contains-left a [] ys h = absurd (ground arith)
contains-left a (x ∷ xs) ys h = ground (arith, contains-left a xs ys)

contains-right : (a : ℕ) (xs ys : List ℕ) → contains a ys ≡ true → contains a (xs ++ ys) ≡ true
unfolding contains
contains-right a [] ys h = h
contains-right a (x ∷ xs) ys h = ground (arith, contains-right a xs ys)

contains-append :
    (a : ℕ) (xs ys : List ℕ)
    → contains a (xs ++ ys) ≡ true
    → (contains a xs ≡ true) ⊎ (contains a ys ≡ true)
unfolding contains
contains-append a [] ys h = inr h
contains-append a (x ∷ xs) ys h = ground (arith, contains-append a xs ys)

-- The head, or in the tail.
pub contains-cons :
    (a x : ℕ) (xs : List ℕ) → contains a (x ∷ xs) ≡ true → (a ≡ x) ⊎ (contains a xs ≡ true)
unfolding contains
contains-cons a x xs h = ground arith

nothing_in : (a : ℕ) → ¬ (contains a [] ≡ true)
unfolding contains
nothing_in a h = ground arith

contains_behind : (a x : ℕ) (xs : List ℕ) → contains a xs ≡ true → contains a (x ∷ xs) ≡ true
unfolding contains
contains_behind a x xs h = ground arith

contains-flat_map :
    (f : ℕ → List ℕ) (a d : ℕ) (xs : List ℕ)
    → contains d xs ≡ true
    → contains a (f d) ≡ true
    → contains a (flat_map f xs) ≡ true
unfolding flat_map contains
contains-flat_map f a d [] h k = absurd (ground arith)
contains-flat_map f a d (x ∷ xs) h k = elim (contains-cons d x xs h) [
  | inl e ↦ contains-left a (f x) (flat_map f xs) (rw (sym e) k)
  | inr e ↦ contains-right a (f x) (flat_map f xs) (contains-flat_map f a d xs e k)
]

flat_map_source :
    (f : ℕ → List ℕ) (a : ℕ) (xs : List ℕ)
    → contains a (flat_map f xs) ≡ true
    → (d : ℕ) × (contains d xs ≡ true) × (contains a (f d) ≡ true)
unfolding flat_map contains
flat_map_source f a [] h = absurd (ground arith)
flat_map_source f a (x ∷ xs) h = elim (contains-append a (f x) (flat_map f xs) h) [
  | inl e ↦ (x, ground arith, e)
  | inr e ↦ let (d, m, k) = flat_map_source f a xs e in (d, ground arith, k)
]

abbrev next_row : Option ℕ → Option ℕ
next_row none = none
next_row (some i) = some (suc i)

pub position-contains :
    (a : ℕ) (xs : List ℕ)
    → contains a xs ≡ true
    → (i : ℕ) × (position a xs ≡ some i) × (get_elem? xs i ≡ some a)
unfolding position contains
position-contains a [] h = absurd (ground arith)
position-contains a (x ∷ xs) h = elim (Bool-cases (a == x)) [
  | inl e ↦ (zero, if_true _ _ e, ground arith)
  | inr e ↦
      let (i, p, g) = position-contains a xs (ground arith) in
      (suc i, if_false _ _ e ∙ ap next_row p, g)
]

roots-cons :
    (i j : ℕ) (n : TreeNode) (nodes : List TreeNode)
    → contains i (roots j (n ∷ nodes)) ≡ true
    → ((i ≡ j) × (n.parent ≡ none)) ⊎ (contains i (roots (suc j) nodes) ≡ true)
unfolding roots contains
roots-cons i j n nodes h =
    let later = roots (suc j) nodes in
    let listed : Option ℕ → Type 0 = λ o. contains i (with_root j later o) ≡ true in
    elim (Option-cases n.parent) [
      | inl e ↦ elim (contains-cons i j later (subst listed e h)) [
        | inl same ↦ inl (same, e)
        | inr behind ↦ inr behind
      ]
      | inr (p, e) ↦ inr (subst listed e h)
    ]

contains-roots :
    (i j k : ℕ) (nodes : List TreeNode)
    → j ≡ i + k
    → i < length nodes
    → parent_of nodes i ≡ none
    → contains j (roots k nodes) ≡ true
unfolding roots contains parent_of
contains-roots i j k [] s h e = absurd (omega arith)
contains-roots zero j k (n ∷ nodes) s h e = ground arith
contains-roots (suc i) j k (n ∷ nodes) s h e =
    ground (arith, contains-roots i j (suc k) nodes (omega arith) (omega arith) e)

roots_have_none :
    (j i : ℕ) (nodes : List TreeNode)
    → contains i (roots j nodes) ≡ true
    → (k : ℕ) × (i ≡ j + k) × (k < length nodes) × (parent_of nodes k ≡ none)
unfolding parent_of roots contains
roots_have_none j i [] h = absurd (ground arith)
roots_have_none j i (n ∷ nodes) h = elim (roots-cons i j n nodes h) [
  | inl e ↦ (zero, omega arith, omega arith, e.1)
  | inr later ↦
      let (k, s, b, e) = roots_have_none (suc j) i nodes later in
      (suc k, omega arith, omega arith, e)
]

module _ (nodes : List TreeNode) (forest : IsForest nodes) (expanded : List ℕ) where
  subtree : ℕ → ℕ → List ℕ
  subtree fuel i = push_visible_subtree fuel nodes expanded i

  subtree_self : (fuel i : ℕ) → 1 ≤ fuel → contains i (subtree fuel i) ≡ true
  unfolding subtree push_visible_subtree contains
  subtree_self zero i h = absurd (omega arith)
  subtree_self (suc fuel) i h = ground (arith, ==_refl i)

  -- In the subtree of an expanded node are those of its children.
  subtree_below :
      (fuel a d i : ℕ)
      → contains i expanded ≡ true
      → contains d (children_of nodes i) ≡ true
      → contains a (subtree fuel d) ≡ true
      → contains a (subtree (suc fuel) i) ≡ true
  unfolding subtree push_visible_subtree contains
  subtree_below fuel a d i e m h =
      let inside = contains-flat_map (subtree fuel) a d (children_of nodes i) m h in
      contains_behind a i _ (ap (contains a) (if_true _ _ e) ∙ inside)

  -- A member of a subtree is its root, or in the subtree of a child of the root, which is expanded.
  subtree_source :
      (fuel a i : ℕ)
      → contains a (subtree (suc fuel) i) ≡ true
      → (a ≡ i)
        ⊎ ((d : ℕ) × (contains i expanded ≡ true)
            × (contains d (children_of nodes i) ≡ true)
            × (contains a (subtree fuel d) ≡ true))
  unfolding subtree push_visible_subtree
  subtree_source fuel a i h = elim (contains-cons a i _ h) [
    | inl same ↦ inl same
    | inr k ↦ elim (Bool-cases (contains i expanded)) [
      | inl e ↦
          let (d, m, g) =
            flat_map_source (subtree fuel) a (children_of nodes i)
              (sym (ap (contains a) (if_true _ _ e)) ∙ k) in
          inr (d, e, m, g)
      | inr e ↦ absurd (nothing_in a (sym (ap (contains a) (if_false _ _ e)) ∙ k))
    ]
  ]

  -- The child of an expanded member is one, where the fuel reaches to the depth of the forest.
  subtree_closed :
      (fuel a p i : ℕ)
      → length nodes < fuel + forest.depth i
      → contains p (subtree fuel i) ≡ true
      → contains p expanded ≡ true
      → parent_of nodes a ≡ some p
      → contains a (subtree fuel i) ≡ true
  unfolding subtree push_visible_subtree
  subtree_closed zero a p i f h e l = absurd (nothing_in p h)
  subtree_closed (suc fuel) a p i f h e l = elim (subtree_source fuel p i h) [
    | inl same ↦
        let link : parent_of nodes a ≡ some i = l ∙ ap some same in
        let m = forest.down a i link in
        let lower = (forest.deeper a i link).0 in
        let bound = forest.bound a (forest.up a i m).1 in
        subtree_below fuel a a i (subst (λ q. contains q expanded ≡ true) same e) m
          (subtree_self fuel a (omega arith))
    | inr (d, x, m, g) ↦
        let lower = (forest.deeper d i (forest.up d i m).0).0 in
        subtree_below fuel a d i x m (subtree_closed fuel a p d (omega arith) g e l)
  ]

  subtree-IsShown :
      (fuel a i : ℕ)
      → IsShown nodes expanded i
      → contains a (subtree fuel i) ≡ true
      → IsShown nodes expanded a
  unfolding subtree push_visible_subtree
  subtree-IsShown zero a i s h = absurd (nothing_in a h)
  subtree-IsShown (suc fuel) a i s h = elim (subtree_source fuel a i h) [
    | inl same ↦ subst (IsShown nodes expanded) (sym same) s
    | inr (d, x, m, g) ↦ subtree-IsShown fuel a d (child d i (forest.up d i m).0 x s) g
  ]

  IsShown-visible_rows :
      {i : ℕ} → IsShown nodes expanded i → contains i (visible_rows nodes expanded) ≡ true
  unfolding visible_rows subtree
  IsShown-visible_rows (root i b e) =
      contains-flat_map (subtree (suc (length nodes))) i i (roots 0 nodes)
        (contains-roots i i 0 nodes (omega arith) b e)
        (subtree_self (suc (length nodes)) i (omega arith))
  IsShown-visible_rows (child i p l e s) =
      let (r, m, g) =
        flat_map_source (subtree (suc (length nodes))) p (roots 0 nodes) (IsShown-visible_rows s) in
      contains-flat_map (subtree (suc (length nodes))) i r (roots 0 nodes) m
        (subtree_closed (suc (length nodes)) i p r (omega arith) g e l)

  -- A node is a row just if it is in the arena and every ancestor of it is expanded.
  pub visible_rows-IsShown :
      (i : ℕ) → (contains i (visible_rows nodes expanded) ≡ true) ↔ IsShown nodes expanded i
  unfolding visible_rows subtree
  visible_rows-IsShown i = (
    λ h.
        let (r, m, g) = flat_map_source (subtree (suc (length nodes))) i (roots 0 nodes) h in
        let (k, s, b, e) = roots_have_none 0 r nodes m in
        let same : k ≡ r = omega arith in
        subtree-IsShown (suc (length nodes)) i r (subst (IsShown nodes expanded) same (root k b e))
          g,
    λ s. IsShown-visible_rows s,
  )
