-- ===== src/Cluster/Ring.antt =====
-- `BulletinRing::merge`: the ring is the window of the newest bulletins that ever arrived.
use nifi_lens.Base.{
  ℕ, ◌≤◌, ◌≡◌, refl, sym, ap, ◌∙◌, false, Bool-cases, Option-cases, pos, negsuc, inl, inr, List, [],
  ◌∷◌, ◌++◌, length, Option, append_assoc, append-nil, length-append, ltb, ℤ, ltb_ℤ, arith, if_true,
  if_false,
}
use nifi_lens.Base.Window.{
  keep_last, keep_last_short, keep_last-cons, keep_last-append, length-keep_last,
}
use nifi_lens.Bulletins.{BulletinSnapshot}
use nifi_lens.Cluster.{BulletinRing, is_newer, trim_front, merge_one, merge}

trim_front-keep_last :
    (capacity : ℕ) (buf : List BulletinSnapshot) → trim_front capacity buf ≡ keep_last capacity buf
unfolding trim_front
trim_front-keep_last capacity [] = sym (keep_last_short capacity [] (omega arith))
trim_front-keep_last capacity (b ∷ buf) = elim (Bool-cases (ltb capacity (length (b ∷ buf)))) [
  | inl over ↦
      if_true _ _ over
      ∙ trim_front-keep_last capacity buf
      ∙ sym (keep_last-cons capacity b buf (ground arith))
  | inr fits ↦ if_false _ _ fits ∙ (sym (keep_last_short capacity (b ∷ buf) (ground arith)))
]

merge_one-keep_last :
    (b : BulletinSnapshot) (r : BulletinRing)
    → ((merge_one b r).buf ≡ keep_last r.capacity (r.buf ++ b ∷ []))
      × ((merge_one b r).capacity ≡ r.capacity)
unfolding merge_one
merge_one-keep_last b r = (trim_front-keep_last r.capacity (r.buf ++ b ∷ []), refl)

-- A batch that is merged into a ring within its capacity leaves the last `capacity` of the ring's
-- bulletins and the batch's, in order of arrival.
pub merge-keep_last :
    (batch : List BulletinSnapshot) (r : BulletinRing)
    → length r.buf ≤ r.capacity
    → ((merge batch r).buf ≡ keep_last r.capacity (r.buf ++ batch))
      × ((merge batch r).capacity ≡ r.capacity)
unfolding merge
merge-keep_last [] r h = (
  sym (
      keep_last_short r.capacity (r.buf ++ []) (omega (arith, length-append r.buf []))
      ∙ append-nil r.buf),
  refl,
)
merge-keep_last (b ∷ batch) r h =
    let (window, same) = merge_one-keep_last b r in
    let short : length (merge_one b r).buf ≤ (merge_one b r).capacity =
      rw (window, same) (length-keep_last r.capacity (r.buf ++ b ∷ [])) in
    let (rest, all_same) = merge-keep_last batch (merge_one b r) short in
    (
      rest
          ∙ rw (window, same)
              (keep_last-append r.capacity (r.buf ++ b ∷ []) batch
                ∙ ap (keep_last r.capacity) (append_assoc r.buf (b ∷ []) batch)),
      all_same ∙ same,
    )

newer_step :
    (id : ℤ) (b : BulletinSnapshot) (r : BulletinRing)
    → is_newer id r.last_id ≡ false
    → is_newer id (merge_one b r).last_id ≡ false
unfolding merge_one
newer_step id b r h = elim (Option-cases r.last_id) [
  | inl e ↦ absurd (ground arith)
  | inr (last, e) ↦ ground arith
]

newer_irrefl : (id : ℤ) → ltb_ℤ id id ≡ false
newer_irrefl (pos n) = ground arith
newer_irrefl (negsuc n) = ground arith

newer_own :
    (b : BulletinSnapshot) (r : BulletinRing) → is_newer b.id (merge_one b r).last_id ≡ false
unfolding merge_one
newer_own b r = ground (arith, newer_irrefl b.id)

newer_merge :
    (id : ℤ) (batch : List BulletinSnapshot) (r : BulletinRing)
    → is_newer id r.last_id ≡ false
    → is_newer id (merge batch r).last_id ≡ false
unfolding merge
newer_merge id [] r h = h
newer_merge id (b ∷ batch) r h = newer_merge id batch (merge_one b r) (newer_step id b r h)

-- No id of the list is above the bound.
abbrev pub IsNewest : Option ℤ → List BulletinSnapshot → Type 0
IsNewest last [] = Unit
IsNewest last (b ∷ bs) = (is_newer b.id last ≡ false) × IsNewest last bs

-- After a merge the cursor is at least every id of the batch, and at least what it was.
pub merge-IsNewest :
    (batch : List BulletinSnapshot) (r : BulletinRing)
    → IsNewest (merge batch r).last_id batch
      × ((id : ℤ) → is_newer id r.last_id ≡ false → is_newer id (merge batch r).last_id ≡ false)
unfolding merge
merge-IsNewest [] r = (tt, λ id h. h)
merge-IsNewest (b ∷ batch) r = (
  (
    newer_merge b.id batch (merge_one b r) (newer_own b r),
    (merge-IsNewest batch (merge_one b r)).0,
  ),
  λ id h. newer_merge id (b ∷ batch) r h,
)
