-- ===== src/Bulletins/Redraw.antt =====
-- `redraw_bulletins`: the tab's mirror of the ring that the cluster store owns.
use nifi_lens.Base.{
  ℕ, ◌+◌, ◌-◌, ◌^◌, min, Bool, false, not, ◌&&◌, ◌||◌, Option, none, some, List, [], ◌∷◌, length,
  if◌then◌else◌, ℤ, eq_ℤ,
}
use nifi_lens.Base.Text.{Text}
use nifi_lens.Bulletins.{BulletinSnapshot, BulletinsState}
use nifi_lens.Bulletins.View.{row_matches, grouped_view}
use nifi_lens.Bulletins.Detail.{selected_group_key, position_for_group_key}

-- `u32::saturating_add`.
abbrev pub saturating_add_u32 : ℕ → ℕ → ℕ
saturating_add_u32 a b = min (a + b) (2 ^ 32 - 1)

abbrev pub has_id : ℤ → List BulletinSnapshot → Bool
has_id id [] = false
has_id id (b ∷ ring) = eq_ℤ b.id id || has_id id ring

module _ (to_lowercase : Text → Text) where
  -- The rows of the new ring that the old one lacks and that pass the filters.
  unfoldable pub count_new : BulletinsState → List BulletinSnapshot → ℕ → ℕ
  count_new s [] n = n
  count_new s (b ∷ new_ring) n = count_new s new_ring (
      if not (has_id b.id s.ring) && row_matches to_lowercase s.filters s.mutes b
      then saturating_add_u32 n 1
      else n)

  -- `fetched` is the time of the last fetch, if the store has one.
  unfoldable pub redraw_bulletins :
      List BulletinSnapshot → Option ℕ → BulletinsState → BulletinsState
  redraw_bulletins new_ring fetched s =
      let mirrored = record s {
        ring = new_ring;
        last_fetched_at = elim fetched [ none ↦ s.last_fetched_at | some t ↦ some t ];
      } in
      if s.auto_scroll
      then record mirrored {
        selected = length (grouped_view to_lowercase mirrored) - 1;
        new_since_pause = 0;
      }
      else record mirrored {
        new_since_pause = saturating_add_u32 s.new_since_pause (count_new s new_ring 0);
        selected = elim (selected_group_key to_lowercase s) [
          | none ↦ s.selected
          | some key ↦ elim (position_for_group_key to_lowercase mirrored key) [
            | none ↦ s.selected
            | some pos ↦ pos
          ]
        ];
      }
