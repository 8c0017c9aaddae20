-- ===== src/Bulletins/Visible.antt =====
-- Which rows pass the filters: `filtered_indices` against the test of a single row, and what
-- muting a source does to the rows.
use nifi_lens.Base.{
  ℕ, zero, suc, ◌+◌, ◌≤◌, ◌<◌, ◌≡◌, refl, Bool, false, not, ◌&&◌, ◌||◌, Option, none, some, List,
  [], ◌∷◌, get_elem?, Bool-cases, inl, inr, ◌==◌, if◌then◌else◌, arith,
}
use nifi_lens.Base.Text.{Text, text_eq, text_eq_sound, text_eq_refl}
use nifi_lens.Bulletins.{BulletinSnapshot, FilterState}
use nifi_lens.Bulletins.View.{mem_text, row_matches, indices_from, filtered}
use nifi_lens.Bulletins.Filters.{remove_text, toggle_mute}

unfoldable pub member : ℕ → List ℕ → Bool
member k [] = false
member k (i ∷ rows) = i == k || member k rows

-- Each index is above the one before it, and the first is at least the bound.
abbrev pub IsAscendingFrom : ℕ → List ℕ → Type 0
IsAscendingFrom bound [] = Unit
IsAscendingFrom bound (i ∷ rows) = (bound ≤ i) × IsAscendingFrom (suc i) rows

weaken : (a b : ℕ) (rows : List ℕ) → a ≤ b → IsAscendingFrom b rows → IsAscendingFrom a rows
weaken a b [] h asc = asc
weaken a b (i ∷ rows) h (le, asc) = (omega arith, asc)

member_below :
    (k bound : ℕ) (rows : List ℕ) → k < bound → IsAscendingFrom bound rows → member k rows ≡ false
unfolding member
member_below k bound [] h asc = refl
member_below k bound (i ∷ rows) h (le, asc) =
    ground (arith, member_below k (suc i) rows (omega arith) asc)

module _ (to_lowercase : Text → Text) (filters : FilterState) (mutes : List Text) where
  -- The row at the index, if there is one, passes the filters.
  unfoldable pub passes : Option BulletinSnapshot → Bool
  passes none = false
  passes (some b) = row_matches to_lowercase filters mutes b

  indices_from-IsAscendingFrom :
      (i : ℕ) (ring : List BulletinSnapshot)
      → IsAscendingFrom i (indices_from to_lowercase filters mutes i ring)
  unfolding indices_from
  indices_from-IsAscendingFrom i [] = tt
  indices_from-IsAscendingFrom i (b ∷ ring) =
      let rest = indices_from-IsAscendingFrom (suc i) ring in
      elim (Bool-cases (row_matches to_lowercase filters mutes b)) [
        | inl e ↦ rw e (omega arith, rest)
        | inr e ↦ rw e (weaken i (suc i) _ (omega arith) rest)
      ]

  member-indices_from :
      (i k : ℕ) (ring : List BulletinSnapshot)
      → member (i + k) (indices_from to_lowercase filters mutes i ring) ≡ passes (get_elem? ring k)
  unfolding indices_from member passes
  member-indices_from i k [] = refl
  member-indices_from i zero (b ∷ ring) = ground (
    arith,
    member_below i (suc i) (indices_from to_lowercase filters mutes (suc i) ring),
    indices_from-IsAscendingFrom (suc i) ring,
  )
  member-indices_from i (suc k) (b ∷ ring) = ground (arith, member-indices_from (suc i) k ring)

  -- The filtered indices ascend, so that none is there twice, and an index is among them just if
  -- the ring has a bulletin there that passes the filters.
  pub filtered-member :
      (ring : List BulletinSnapshot)
      → IsAscendingFrom 0 (filtered to_lowercase filters mutes ring)
        × ((k : ℕ)
            → member k (filtered to_lowercase filters mutes ring) ≡ passes (get_elem? ring k))
  unfolding filtered
  filtered-member ring =
      (indices_from-IsAscendingFrom 0 ring, λ k. ground (arith, member-indices_from 0 k ring))

mem_text-remove_text :
    (t id : Text) (mutes : List Text)
    → mem_text t (remove_text id mutes) ≡ (not (text_eq id t) && mem_text t mutes)
unfolding remove_text
mem_text-remove_text t id [] = ground arith
mem_text-remove_text t id (u ∷ us) = elim (Bool-cases (text_eq u id)) [
  | inl e ↦
      rw (text_eq_sound u id e, text_eq_refl id) (ground (arith, mem_text-remove_text t id us))
  | inr e ↦ elim (Bool-cases (text_eq u t)) [
    | inl f ↦ elim (Bool-cases (text_eq id t)) [
      | inl g ↦ absurd (ground (arith, text_eq_sound u t f, text_eq_sound id t g, text_eq_refl t))
      | inr g ↦ ground (arith, mem_text-remove_text t id us)
    ]
    | inr f ↦ ground (arith, mem_text-remove_text t id us)
  ]
]

-- Toggling a mute flips the membership of that id and of no other.
pub mem_text-toggle_mute :
    (t id : Text) (mutes : List Text)
    → mem_text t (toggle_mute id mutes)
      ≡ (if text_eq id t then not (mem_text t mutes) else mem_text t mutes)
unfolding toggle_mute
mem_text-toggle_mute t id mutes = elim (Bool-cases (text_eq id t)) [
  | inl e ↦
      rw (text_eq_sound id t e, text_eq_refl t)
        (ground (arith, mem_text-remove_text t t mutes, text_eq_refl t))
  | inr e ↦ ground (arith, mem_text-remove_text t id mutes)
]

-- Toggling the mute of a source hides its rows, or shows those again that the other filters let
-- pass; the rows of every other source stay as they are.
pub row_matches-toggle_mute :
    (to_lowercase : Text → Text) (f : FilterState) (id : Text) (mutes : List Text)
    (b : BulletinSnapshot)
    → row_matches to_lowercase f (toggle_mute id mutes) b ≡ (
        if text_eq id b.source_id
        then row_matches to_lowercase f [] b && mem_text b.source_id mutes
        else row_matches to_lowercase f mutes b)
unfolding row_matches
row_matches-toggle_mute to_lowercase f id mutes b =
    ground (arith, mem_text-toggle_mute b.source_id id mutes)
