-- ===== src/Navigation/Steps.antt =====
-- Repeated `move_down`: a wrapping list counts modulo its length, a clamping one stops at its end.
use native.Mathlib.Nat.{mod-eq_of_lt, add-mod_left}
use nifi_lens.Base.{
  ℕ, zero, suc, ◌<◌, ◌+◌, ◌-◌, ◌%◌, min, ◌≡◌, true, false, some, ap, arith, ◌∙◌, replicate,
  usize_mod,
}
use nifi_lens.Navigation.{ListNavigation}
use nifi_lens.Navigation.Bounds.{Move, IsLawful, apply, apply_all, apply-row, row, row-lt}

wrap_step : (n i k : ℕ) → i < n → (row Move.down n true i + k) % n ≡ (i + suc k) % n
wrap_step n i k h = grind (arith, add-mod_left n k)

clamp_step :
    (n i k : ℕ) → i < n → min (row Move.down n false i + k) (n - 1) ≡ min (i + suc k) (n - 1)
clamp_step n i k h = ground arith

module _ {ℓ} {S : Type ℓ} (nav : ListNavigation S) (law : IsLawful nav) where
  -- In a wrapping list with a selection in range, `k` steps down select row `(i + k) % len`.
  pub move_down_wraps :
      (k : ℕ) (s : S) (i : ℕ)
      → nav.list_len s < usize_mod
      → nav.wraps s ≡ true
      → nav.selected s ≡ some i
      → i < nav.list_len s
      → nav.selected (apply_all nav (replicate k Move.down) s) ≡ some ((i + k) % nav.list_len s)
  unfolding apply_all
  move_down_wraps zero s i fits w e h = grind (arith, mod-eq_of_lt)
  move_down_wraps (suc k) s i fits w e h =
      let (same, w', e') = apply-row nav law Move.down s i fits e h in
      let lt = row-lt Move.down (nav.list_len s) (nav.wraps s) i h in
      let rest =
        move_down_wraps k (apply nav Move.down s) _ (rw same fits) (w' ∙ w) e' (rw same lt) in
      rest ∙ rw (same, w) (ap some (wrap_step (nav.list_len s) i k h))

  -- In a clamping list `k` steps down stop at the last row.
  pub move_down_clamps :
      (k : ℕ) (s : S) (i : ℕ)
      → nav.list_len s < usize_mod
      → nav.wraps s ≡ false
      → nav.selected s ≡ some i
      → i < nav.list_len s
      → nav.selected (apply_all nav (replicate k Move.down) s)
        ≡ some (min (i + k) (nav.list_len s - 1))
  unfolding apply_all
  move_down_clamps zero s i fits w e h = ground arith
  move_down_clamps (suc k) s i fits w e h =
      let (same, w', e') = apply-row nav law Move.down s i fits e h in
      let lt = row-lt Move.down (nav.list_len s) (nav.wraps s) i h in
      let rest =
        move_down_clamps k (apply nav Move.down s) _ (rw same fits) (w' ∙ w) e' (rw same lt) in
      rest ∙ rw (same, w) (ap some (clamp_step (nav.list_len s) i k h))
