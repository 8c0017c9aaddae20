-- ===== src/Bulletins/Mirror.antt =====
-- `redraw_bulletins`: what a new ring does to the selection and to the badge of the pause.
use nifi_lens.Base.{
  ℕ, ◌+◌, ◌-◌, ◌^◌, ◌<◌, ◌≤◌, ◌≡◌, refl, sym, ap, ◌∙◌, if_true, ==_refl, min, true, false, not,
  ◌&&◌, Option, some, List, [], ◌∷◌, length, get_elem?, Bool-cases, Option-cases, inl, inr, ◌==◌,
  if◌then◌else◌, arith,
}
use nifi_lens.Base.Text.{Text, text_eq_sound, text_eq_refl}
use nifi_lens.Bulletins.{
  BulletinSnapshot, GroupMode, mode_index, GroupedRow, GroupKey, BulletinsState,
}
use nifi_lens.Bulletins.View.{row_matches, grouped_view}
use nifi_lens.Bulletins.Selection.{position}
use nifi_lens.Bulletins.Detail.{
  message_stem, row_group_key, has_group_key, selected_group_key, position_for_group_key,
}
use nifi_lens.Bulletins.Redraw.{has_id, count_new, redraw_bulletins}
use nifi_lens.Bulletins.Anchor.{position-found, position-le}

mode_index-injective : (a b : GroupMode) → (mode_index a == mode_index b) ≡ true → a ≡ b
mode_index-injective GroupMode.source_and_message GroupMode.source_and_message h = refl
mode_index-injective GroupMode.source GroupMode.source h = refl
mode_index-injective GroupMode.off GroupMode.off h = refl
mode_index-injective GroupMode.source_and_message GroupMode.source h = cc
mode_index-injective GroupMode.source_and_message GroupMode.off h = cc
mode_index-injective GroupMode.source GroupMode.source_and_message h = cc
mode_index-injective GroupMode.source GroupMode.off h = cc
mode_index-injective GroupMode.off GroupMode.source_and_message h = cc
mode_index-injective GroupMode.off GroupMode.source h = cc

-- The test of a row for a key is a test of the row's own key.
has_group_key_sound :
    (ring : List BulletinSnapshot) (mode : GroupMode) (key : GroupKey) (g : GroupedRow)
    → key.mode ≡ mode
    → has_group_key ring mode key g ≡ true
    → row_group_key ring mode g ≡ some key
unfolding has_group_key row_group_key
has_group_key_sound ring mode key g same h =
    elim (Option-cases (get_elem? ring g.latest_ring_idx)) [
      | inl e ↦ absurd (ground arith)
      | inr (b, e) ↦ grind (
        arith,
        text_eq_sound b.source_id key.source_id,
        text_eq_sound (message_stem mode b.message) key.message_stem,
      )
    ]

has_group_key_complete :
    (ring : List BulletinSnapshot) (mode : GroupMode) (key : GroupKey) (g : GroupedRow)
    → row_group_key ring mode g ≡ some key
    → has_group_key ring mode key g ≡ true
unfolding has_group_key row_group_key
has_group_key_complete ring mode key g h = elim (Option-cases (get_elem? ring g.latest_ring_idx)) [
  | inl e ↦ absurd (ground arith)
  | inr (b, e) ↦ grind (arith, text_eq_refl key.source_id, text_eq_refl key.message_stem)
]

row_group_key-mode :
    (ring : List BulletinSnapshot) (mode : GroupMode) (key : GroupKey) (g : GroupedRow)
    → row_group_key ring mode g ≡ some key
    → key.mode ≡ mode
unfolding row_group_key
row_group_key-mode ring mode key g h = elim (Option-cases (get_elem? ring g.latest_ring_idx)) [
  | inl e ↦ absurd (ground arith)
  | inr (b, e) ↦ grind arith
]

stem_off : (message : Text) → message_stem GroupMode.off message ≡ []
unfolding message_stem
stem_off message = refl

has_group_key_off :
    (ring : List BulletinSnapshot) (mode : GroupMode) (key : GroupKey) (g : GroupedRow)
    (b : BulletinSnapshot)
    → mode ≡ GroupMode.off
    → key.message_stem ≡ []
    → get_elem? ring g.latest_ring_idx ≡ some b
    → b.source_id ≡ key.source_id
    → has_group_key ring mode key g ≡ true
unfolding has_group_key
has_group_key_off ring mode key g b off stem at same =
    grind (arith, stem_off b.message, text_eq_refl key.source_id, text_eq_refl [])

row_group_key_off :
    (ring : List BulletinSnapshot) (mode : GroupMode) (key : GroupKey) (g : GroupedRow)
    → mode ≡ GroupMode.off
    → row_group_key ring mode g ≡ some key
    → (key.mode ≡ GroupMode.off) × (key.message_stem ≡ [])
unfolding row_group_key
row_group_key_off ring mode key g off h = elim (Option-cases (get_elem? ring g.latest_ring_idx)) [
  | inl e ↦ absurd (ground arith)
  | inr (b, e) ↦ grind (arith, stem_off b.message)
]

module _ (to_lowercase : Text → Text) where
  position_for_group_key_sound :
      (s : BulletinsState) (key : GroupKey) (pos : ℕ)
      → position_for_group_key to_lowercase s key ≡ some pos
      → (g : GroupedRow) × (get_elem? (grouped_view to_lowercase s) pos ≡ some g)
        × (row_group_key s.ring s.group_mode g ≡ some key)
  unfolding position_for_group_key
  position_for_group_key_sound s key pos h =
      elim (Bool-cases (mode_index key.mode == mode_index s.group_mode)) [
        | inl e ↦
            let (g, at, holds) = position-found _ (grouped_view to_lowercase s) pos (rw e at h) in
            (
              g,
              at,
              has_group_key_sound s.ring s.group_mode key g (mode_index-injective _ _ e) holds,
            )
        | inr e ↦ absurd (ground arith)
      ]

  redraw_bulletins_places :
      (new_ring : List BulletinSnapshot) (fetched : Option ℕ) (s : BulletinsState) (key : GroupKey)
      (pos : ℕ)
      → s.auto_scroll ≡ false
      → selected_group_key to_lowercase s ≡ some key
      → position_for_group_key to_lowercase (record s { ring = new_ring }) key ≡ some pos
      → ((redraw_bulletins to_lowercase new_ring fetched s).selected ≡ pos)
        × (selected_group_key to_lowercase (redraw_bulletins to_lowercase new_ring fetched s)
            ≡ some key)
  unfolding redraw_bulletins selected_group_key position_for_group_key
  redraw_bulletins_places new_ring fetched s key pos paused selected there =
      let (g, at, named) =
        position_for_group_key_sound (record s { ring = new_ring }) key pos there in
      (ground arith, ground arith)

  -- A tab that follows has, after the redraw, the ring of the store, the newest group selected and
  -- no badge.
  pub redraw_bulletins_follows :
      (new_ring : List BulletinSnapshot) (fetched : Option ℕ) (s : BulletinsState)
      → s.auto_scroll ≡ true
      → let t = redraw_bulletins to_lowercase new_ring fetched s in
        (t.ring ≡ new_ring)
        × (t.selected ≡ length (grouped_view to_lowercase t) - 1)
        × (t.new_since_pause ≡ 0)
        × (t.auto_scroll ≡ true)
  unfolding redraw_bulletins
  redraw_bulletins_follows new_ring fetched s follows =
      (ground arith, ground arith, ground arith, ground arith)

  -- The rows of a ring that the state lacks by id and that pass its filters.
  pub fresh : BulletinsState → List BulletinSnapshot → List BulletinSnapshot
  fresh s [] = []
  fresh s (b ∷ ring) =
      let rest = fresh s ring in
      if not (has_id b.id s.ring) && row_matches to_lowercase s.filters s.mutes b
      then b ∷ rest
      else rest

  count_new-length :
      (s : BulletinsState) (ring : List BulletinSnapshot) (n : ℕ)
      → n < 2 ^ 32
      → count_new to_lowercase s ring n ≡ min (n + length (fresh s ring)) (2 ^ 32 - 1)
  unfolding count_new fresh
  count_new-length s [] n h = ground arith
  count_new-length s (b ∷ ring) n h =
      elim (Bool-cases (not (has_id b.id s.ring) && row_matches to_lowercase s.filters s.mutes b)) [
        | inl e ↦ ground (arith, count_new-length s ring (min (n + 1) (2 ^ 32 - 1)) (ground arith))
        | inr e ↦ ground (arith, count_new-length s ring n h)
      ]

  -- In a paused tab the badge grows by the number of rows that are new to the tab and pass its
  -- filters, and stops at the largest `u32`; the pause goes on.
  pub redraw_bulletins-new_since_pause :
      (new_ring : List BulletinSnapshot) (fetched : Option ℕ) (s : BulletinsState)
      → s.auto_scroll ≡ false
      → s.new_since_pause < 2 ^ 32
      → let t = redraw_bulletins to_lowercase new_ring fetched s in
        (t.ring ≡ new_ring)
        × (t.auto_scroll ≡ false)
        × (t.new_since_pause ≡ min (s.new_since_pause + length (fresh s new_ring)) (2 ^ 32 - 1))
  unfolding redraw_bulletins
  redraw_bulletins-new_since_pause new_ring fetched s paused h =
      (ground arith, ground arith, ground (arith, count_new-length s new_ring 0))

  off_key :
      (s : BulletinsState) (key : GroupKey)
      → s.group_mode ≡ GroupMode.off
      → selected_group_key to_lowercase s ≡ some key
      → (key.mode ≡ GroupMode.off) × (key.message_stem ≡ [])
  unfolding selected_group_key
  off_key s key off selected =
      elim (Option-cases (get_elem? (grouped_view to_lowercase s) s.selected)) [
        | inl e ↦ absurd (ground arith)
        | inr (g, e) ↦ row_group_key_off s.ring s.group_mode key g off (ground arith)
      ]

  position_for_group_key-position :
      (s : BulletinsState) (key : GroupKey)
      → key.mode ≡ s.group_mode
      → position_for_group_key to_lowercase s key
        ≡ position (has_group_key s.ring s.group_mode key) (grouped_view to_lowercase s)
  unfolding position_for_group_key
  position_for_group_key-position s key same = if_true _ _ (
      ap (λ mode. mode_index mode == mode_index s.group_mode) same
      ∙ ==_refl (mode_index s.group_mode))

  -- In a paused tab whose selected group has the key: if some group of the new ring has the same
  -- key, the redraw selects a group with that key, and none behind that one; so it is the first of
  -- the new groups with the key.
  pub redraw_bulletins-selected_group_key :
      (new_ring : List BulletinSnapshot) (fetched : Option ℕ) (s : BulletinsState) (key : GroupKey)
      (q : ℕ) (g : GroupedRow)
      → s.auto_scroll ≡ false
      → selected_group_key to_lowercase s ≡ some key
      → get_elem? (grouped_view to_lowercase (record s { ring = new_ring })) q ≡ some g
      → row_group_key new_ring s.group_mode g ≡ some key
      → let t = redraw_bulletins to_lowercase new_ring fetched s in
        (selected_group_key to_lowercase t ≡ some key) × (t.selected ≤ q)
  redraw_bulletins-selected_group_key new_ring fetched s key q g paused selected at same =
      let mirrored : BulletinsState = record s { ring = new_ring } in
      let named = has_group_key_complete new_ring s.group_mode key g same in
      let (i, found, le) =
        position-le (has_group_key new_ring s.group_mode key) (grouped_view to_lowercase mirrored) q
          g at named in
      let mode = row_group_key-mode new_ring s.group_mode key g same in
      let placed = position_for_group_key-position mirrored key mode ∙ found in
      let (chosen, kept) =
        redraw_bulletins_places new_ring fetched s key i paused selected placed in
      (kept, omega (arith, chosen, le))

  -- In a paused tab with the grouping off, the redraw selects no row behind the first row of the
  -- source of the selected bulletin, whichever of the source's bulletins was selected.
  pub redraw_bulletins_first_of_source :
      (new_ring : List BulletinSnapshot) (fetched : Option ℕ) (s : BulletinsState) (key : GroupKey)
      (q : ℕ) (g : GroupedRow) (b : BulletinSnapshot)
      → s.auto_scroll ≡ false
      → s.group_mode ≡ GroupMode.off
      → selected_group_key to_lowercase s ≡ some key
      → get_elem? (grouped_view to_lowercase (record s { ring = new_ring })) q ≡ some g
      → get_elem? new_ring g.latest_ring_idx ≡ some b
      → b.source_id ≡ key.source_id
      → (redraw_bulletins to_lowercase new_ring fetched s).selected ≤ q
  redraw_bulletins_first_of_source new_ring fetched s key q g b paused off selected at there same =
      let mirrored : BulletinsState = record s { ring = new_ring } in
      let (mode, stem) = off_key s key off selected in
      let named = has_group_key_off new_ring s.group_mode key g b off stem there same in
      let (i, found, le) =
        position-le (has_group_key new_ring s.group_mode key) (grouped_view to_lowercase mirrored) q
          g at named in
      let placed = position_for_group_key-position mirrored key (mode ∙ sym off) ∙ found in
      let (chosen, _) = redraw_bulletins_places new_ring fetched s key i paused selected placed in
      omega (arith, chosen, le)
