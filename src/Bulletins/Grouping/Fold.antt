-- ===== src/Bulletins/Grouping/Fold.antt =====
-- The loop of `grouped_view` computes the reference.
use mathlib.Core.List.{foldl, map-append}
use mathlib.Core.Path.{subst}
use nifi_lens.Base.{
  ℕ, ◌≡◌, ◌≢◌, refl, ap, sym, ◌∙◌, inl, inr, true, false, Bool-cases, Option-cases, Option, none,
  some, List, [], ◌∷◌, ◌++◌, map, length, is_some, get_elem?, if◌then◌else◌, arith, length-map,
  append_assoc, append-nil,
}
use nifi_lens.Base.Text.{Text, text_eq, text_eq_iff}
use nifi_lens.Bulletins.{BulletinSnapshot, GroupMode, GroupedRow}
use nifi_lens.Bulletins.View.{
  mem_text, lookup_position, update_at, single_row, fold_into, row_key, Grouping, group_row,
  group_index, group_filtered,
}
use nifi_lens.Bulletins.Selection.{position}
use nifi_lens.Bulletins.Grouping.Keys.{
  mem_text-distinct_keys, distinct_keys-snoc, IsDistinct, distinct_keys-IsDistinct, summary-ne,
  summary-fold, summary-single,
}
use nifi_lens.Bulletins.Grouping.{Keyed, summary, distinct_keys, keyed_rows}

-- Where a key stands.
place : Text → List Text → Option ℕ
place k ks = position (λ j. text_eq j k) ks

place-mem : (k : Text) (ks : List Text) → is_some (place k ks) ≡ mem_text k ks
unfolding place position
place-mem k [] = refl
place-mem k (j ∷ ks) = ground (arith, place-mem k ks)

map-absent :
    (k : Text) (g g' : Text → GroupedRow) (ks : List Text)
    → ((j : Text) → text_eq j k ≡ false → g' j ≡ g j)
    → mem_text k ks ≡ false
    → map g' ks ≡ map g ks
map-absent k g g' [] same h = refl
map-absent k g g' (j ∷ ks) same h =
    let differs : text_eq j k ≡ false = ground arith in
    let rest : mem_text k ks ≡ false = ground arith in
    cc (same j differs, map-absent k g g' ks same rest)

update_at-map :
    (k : Text) (f : GroupedRow → GroupedRow) (g g' : Text → GroupedRow) (ks : List Text) (pos : ℕ)
    → IsDistinct ks
    → place k ks ≡ some pos
    → ((j : Text) → text_eq j k ≡ false → g' j ≡ g j)
    → g' k ≡ f (g k)
    → update_at pos f (map g ks) ≡ map g' ks
unfolding place position update_at
update_at-map k f g g' [] pos d h same here = cc
update_at-map k f g g' (j ∷ ks) pos d h same here = elim (Bool-cases (text_eq j k)) [
  | inl e ↦
      let j≡k : j ≡ k = (text_eq_iff j k).0 e in
      let fresh : mem_text k ks ≡ false = rw (← j≡k) d.0 in
      ground (arith, map-absent k g g' ks same fresh, j≡k)
  | inr e ↦ elim (Option-cases (place k ks)) [
    | inl missing ↦ absurd (ground arith)
    | inr (p, there) ↦ ground (arith, same j e, update_at-map k f g g' ks p d.1 there same here)
  ]
]

place-append :
    (k j : Text) (ks : List Text)
    → place j (ks ++ k ∷ [])
      ≡ (if mem_text j ks then place j ks else if text_eq k j then some (length ks) else none)
unfolding place position
place-append k j [] = ground arith
place-append k j (l ∷ ks) = ground (arith, place-append k j ks, place-mem j ks)

-- After the rows `ps`: the groups are the summaries of the keys, and the positions find each key's
-- group.
record Tracks (ps : Keyed) (g : Grouping) : Type 0 where
  rows : g.0 ≡ map (summary ps) (distinct_keys ps)
  positions : (k : Text) → lookup_position k g.1 ≡ place k (distinct_keys ps)

group_row_known :
    (g : Grouping) (k : Text) (i pos : ℕ)
    → lookup_position k g.1 ≡ some pos
    → group_row g k i ≡ (update_at pos (fold_into i) g.0, g.1)
unfolding group_row
group_row_known g k i pos e = rw (e, group_row)

group_row_new :
    (g : Grouping) (k : Text) (i : ℕ)
    → lookup_position k g.1 ≡ none
    → group_row g k i ≡ (g.0 ++ single_row i ∷ [], (k, length g.0) ∷ g.1)
unfolding group_row
group_row_new g k i e = rw (e, group_row)

place_new :
    (k j : Text) (positions : List (Text × ℕ)) (pos : ℕ) (ks : List Text)
    → mem_text k ks ≡ false
    → lookup_position j positions ≡ place j ks
    → pos ≡ length ks
    → lookup_position j ((k, pos) ∷ positions) ≡ place j (ks ++ k ∷ [])
unfolding lookup_position
place_new k j positions pos ks absent h e =
    ground (arith, place-append k j ks, text_eq_iff k j, place-mem j ks)

group_row-Tracks :
    (ps : Keyed) (g : Grouping) (k : Text) (i : ℕ)
    → Tracks ps g
    → Tracks (ps ++ (k, i) ∷ []) (group_row g k i)
group_row-Tracks ps g k i t = elim (Option-cases (place k (distinct_keys ps))) [
  | inl missing ↦
      let absent : mem_text k (distinct_keys ps) ≡ false =
        ground (arith, place-mem k (distinct_keys ps)) in
      let unseen : mem_text k (map (λ p. p.0) ps) ≡ false =
        sym (mem_text-distinct_keys k ps) ∙ absent in
      let keys : distinct_keys (ps ++ (k, i) ∷ []) ≡ distinct_keys ps ++ k ∷ [] =
        distinct_keys-snoc k i ps
        ∙ ap (λ b. if b then distinct_keys ps else distinct_keys ps ++ k ∷ []) unseen in
      rw (group_row_new g k i (t.positions k ∙ missing)) (record {
        rows = rw keys (
            cc (
              t.rows,
              map-append (summary (ps ++ (k, i) ∷ [])) (distinct_keys ps) (k ∷ []),
              map-absent k (summary ps) (summary (ps ++ (k, i) ∷ [])) (distinct_keys ps)
                  (λ j e. summary-ne k j i ps e) absent,
              summary-single k i ps unseen,
            ));
        positions = λ j. rw keys (
            place_new k j g.1 (length g.0) (distinct_keys ps) absent (t.positions j)
              (ap length t.rows ∙ length-map (distinct_keys ps) (summary ps)));
      })
  | inr (pos, there) ↦
      let known : mem_text k (distinct_keys ps) ≡ true =
        ground (arith, place-mem k (distinct_keys ps)) in
      let seen : mem_text k (map (λ p. p.0) ps) ≡ true =
        sym (mem_text-distinct_keys k ps) ∙ known in
      let keys : distinct_keys (ps ++ (k, i) ∷ []) ≡ distinct_keys ps =
        distinct_keys-snoc k i ps
        ∙ ap (λ b. if b then distinct_keys ps else distinct_keys ps ++ k ∷ []) seen in
      rw (group_row_known g k i pos (t.positions k ∙ there)) (record {
        rows =
            rw (keys, t.rows)
              (update_at-map k (fold_into i) (summary ps) (summary (ps ++ (k, i) ∷ []))
                (distinct_keys ps) pos (distinct_keys-IsDistinct ps) there
                (λ j e. summary-ne k j i ps e) (summary-fold k i ps seen));
        positions = λ j. rw keys (t.positions j);
      })
]

fold_keyed : Grouping → Keyed → Grouping
fold_keyed g [] = g
fold_keyed g ((k, i) ∷ ps) = fold_keyed (group_row g k i) ps

fold_keyed-Tracks :
    (ps qs : Keyed) (g : Grouping) → Tracks ps g → Tracks (ps ++ qs) (fold_keyed g qs)
unfolding fold_keyed
fold_keyed-Tracks ps [] g t = rw append-nil t
fold_keyed-Tracks ps ((k, i) ∷ qs) g t =
    subst (λ all. Tracks all (fold_keyed (group_row g k i) qs)) (append_assoc ps ((k, i) ∷ []) qs)
      (fold_keyed-Tracks (ps ++ (k, i) ∷ []) qs (group_row g k i) (group_row-Tracks ps g k i t))

foldl-fold_keyed :
    (mode : GroupMode) (ring : List BulletinSnapshot) (g : Grouping) (rows : List ℕ)
    → foldl (group_index mode ring) g rows ≡ fold_keyed g (keyed_rows mode ring rows)
unfolding fold_keyed keyed_rows group_index
foldl-fold_keyed mode ring g [] = refl
foldl-fold_keyed mode ring g (i ∷ rows) = elim (Option-cases (get_elem? ring i)) [
  | inl e ↦ rw (e, group_index, keyed_rows) (foldl-fold_keyed mode ring g rows)
  | inr (b, e) ↦
      rw (e, group_index, keyed_rows)
        (foldl-fold_keyed mode ring (group_row g (row_key mode b) i) rows)
]

nothing-Tracks : Tracks [] ([], [])
unfolding distinct_keys lookup_position place position
nothing-Tracks = record { rows = refl; positions = λ k. refl }

grouped-summary :
    (mode : GroupMode) (ring : List BulletinSnapshot) (rows : List ℕ)
    → (foldl (group_index mode ring) ([], []) rows).0
      ≡ map (summary (keyed_rows mode ring rows)) (distinct_keys (keyed_rows mode ring rows))
grouped-summary mode ring rows =
    rw foldl-fold_keyed
      (fold_keyed-Tracks [] (keyed_rows mode ring rows) ([], []) nothing-Tracks).rows

-- With a grouping on, the groups are one for each distinct key of the filtered rows, in the order
-- in which the keys come first, each with the first and the last row of its key and their number.
pub group_filtered-summary :
    (mode : GroupMode) (ring : List BulletinSnapshot) (rows : List ℕ)
    → mode ≢ GroupMode.off
    → group_filtered mode ring rows
      ≡ map (summary (keyed_rows mode ring rows)) (distinct_keys (keyed_rows mode ring rows))
unfolding group_filtered
group_filtered-summary GroupMode.off ring rows h = absurd (h refl)
group_filtered-summary GroupMode.source ring rows h = grouped-summary GroupMode.source ring rows
group_filtered-summary GroupMode.source_and_message ring rows h =
    grouped-summary GroupMode.source_and_message ring rows
