-- ===== src/Bulletins/Grouping/Keys.antt =====
-- How an appended row changes the keys and the summaries.
use nifi_lens.Base.{
  ℕ, suc, ◌≡◌, refl, sym, ◌∙◌, inl, inr, true, false, Bool-cases, List, [], ◌∷◌, ◌++◌, map,
  if◌then◌else◌, arith, append-nil,
}
use nifi_lens.Base.Text.{Text, text_eq, text_eq_iff, text_eq_refl}
use nifi_lens.Bulletins.View.{mem_text, single_row, fold_into}
use nifi_lens.Bulletins.Grouping.{
  Keyed, count_of, first_of, last_of, summary, without, distinct_keys,
}

pub text_eq_sym : (s t : Text) → text_eq s t ≡ text_eq t s
text_eq_sym s t = elim (Bool-cases (text_eq s t)) [
  | inl e ↦ e ∙ sym ((text_eq_iff t s).1 (sym ((text_eq_iff s t).0 e)))
  | inr e ↦ elim (Bool-cases (text_eq t s)) [
    | inl e' ↦ (text_eq_iff s t).1 (sym ((text_eq_iff t s).0 e')) ∙ sym e'
    | inr e' ↦ e ∙ sym e'
  ]
]

-- Appending a row with its key.
pub count_of-snoc :
    (k j : Text) (i : ℕ) (ps : Keyed)
    → count_of k (ps ++ (j, i) ∷ []) ≡ (if text_eq j k then suc (count_of k ps) else count_of k ps)
unfolding count_of
count_of-snoc k j i [] = refl
count_of-snoc k j i ((l, m) ∷ ps) = ground (arith, count_of-snoc k j i ps)

pub last_of-snoc :
    (d : ℕ) (k j : Text) (i : ℕ) (ps : Keyed)
    → last_of d k (ps ++ (j, i) ∷ []) ≡ (if text_eq j k then i else last_of d k ps)
unfolding last_of
last_of-snoc d k j i [] = refl
last_of-snoc d k j i ((l, m) ∷ ps) = last_of-snoc (if text_eq l k then m else d) k j i ps

pub first_of-snoc :
    (k j : Text) (i : ℕ) (ps : Keyed)
    → first_of k (ps ++ (j, i) ∷ [])
      ≡ (if mem_text k (map (λ p. p.0) ps) then first_of k ps else if text_eq j k then i else 0)
unfolding first_of
first_of-snoc k j i [] = refl
first_of-snoc k j i ((l, m) ∷ ps) = ground (arith, first_of-snoc k j i ps)

pub mem_text-without :
    (k j : Text) (ks : List Text)
    → mem_text k (without j ks) ≡ (if text_eq j k then false else mem_text k ks)
unfolding without
mem_text-without k j [] = ground arith
mem_text-without k j (l ∷ ks) =
    ground (arith, mem_text-without k j ks, text_eq_iff l j, text_eq_iff j k, text_eq_iff l k)

pub mem_text-distinct_keys :
    (k : Text) (ps : Keyed) → mem_text k (distinct_keys ps) ≡ mem_text k (map (λ p. p.0) ps)
unfolding distinct_keys
mem_text-distinct_keys k [] = refl
mem_text-distinct_keys k ((j, i) ∷ ps) =
    ground (arith, mem_text-without k j (distinct_keys ps), mem_text-distinct_keys k ps)

pub without-append :
    (k j : Text) (ks : List Text)
    → without k (ks ++ j ∷ []) ≡ without k ks ++ (if text_eq j k then [] else j ∷ [])
unfolding without
without-append k j [] = ground arith
without-append k j (l ∷ ks) = ground (arith, without-append k j ks)

pub distinct_keys-snoc :
    (j : Text) (i : ℕ) (ps : Keyed)
    → distinct_keys (ps ++ (j, i) ∷ [])
      ≡ (if mem_text j (map (λ p. p.0) ps) then distinct_keys ps else distinct_keys ps ++ j ∷ [])
unfolding distinct_keys
distinct_keys-snoc j i [] = unfold without in refl
distinct_keys-snoc j i ((l, m) ∷ ps) = ground (
  arith,
  distinct_keys-snoc j i ps,
  without-append l j (distinct_keys ps),
  append-nil (without l (distinct_keys ps)),
  text_eq_sym l j,
)

abbrev pub IsDistinct : List Text → Type 0
IsDistinct [] = Unit
IsDistinct (k ∷ ks) = (mem_text k ks ≡ false) × IsDistinct ks

pub without-IsDistinct : (k : Text) (ks : List Text) → IsDistinct ks → IsDistinct (without k ks)
unfolding without
without-IsDistinct k [] d = tt
without-IsDistinct k (j ∷ ks) (fresh, d) = elim (Bool-cases (text_eq j k)) [
  | inl e ↦ rw e (without-IsDistinct k ks d)
  | inr e ↦ rw e (ground (arith, mem_text-without j k ks), without-IsDistinct k ks d)
]

pub distinct_keys-IsDistinct : (ps : Keyed) → IsDistinct (distinct_keys ps)
unfolding distinct_keys
distinct_keys-IsDistinct [] = tt
distinct_keys-IsDistinct ((k, i) ∷ ps) = (
  ground (arith, mem_text-without k k (distinct_keys ps), text_eq_refl k),
  without-IsDistinct k (distinct_keys ps) (distinct_keys-IsDistinct ps),
)

pub count_of-absent :
    (k : Text) (ps : Keyed) → mem_text k (map (λ p. p.0) ps) ≡ false → count_of k ps ≡ 0
unfolding count_of
count_of-absent k [] h = refl
count_of-absent k ((j, i) ∷ ps) h = ground (arith, count_of-absent k ps)

pub first_of-absent :
    (k : Text) (ps : Keyed) → mem_text k (map (λ p. p.0) ps) ≡ false → first_of k ps ≡ 0
unfolding first_of
first_of-absent k [] h = refl
first_of-absent k ((j, i) ∷ ps) h = ground (arith, first_of-absent k ps)

-- A row with another key changes no summary; a row with a known key is folded in, and the first row
-- with a key makes a group of its own.
pub summary-ne :
    (k j : Text) (i : ℕ) (ps : Keyed)
    → text_eq j k ≡ false
    → summary (ps ++ (k, i) ∷ []) j ≡ summary ps j
unfolding summary
summary-ne k j i ps e =
    let e' : text_eq k j ≡ false = text_eq_sym k j ∙ e in
    ground (
      arith,
      count_of-snoc j k i ps,
      first_of-snoc j k i ps,
      last_of-snoc 0 j k i ps,
      first_of-absent j ps,
    )

pub summary-fold :
    (k : Text) (i : ℕ) (ps : Keyed)
    → mem_text k (map (λ p. p.0) ps) ≡ true
    → summary (ps ++ (k, i) ∷ []) k ≡ fold_into i (summary ps k)
unfolding summary
summary-fold k i ps h =
    ground (
      arith,
      count_of-snoc k k i ps,
      first_of-snoc k k i ps,
      last_of-snoc 0 k k i ps,
      text_eq_refl k,
    )

pub summary-single :
    (k : Text) (i : ℕ) (ps : Keyed)
    → mem_text k (map (λ p. p.0) ps) ≡ false
    → summary (ps ++ (k, i) ∷ []) k ≡ single_row i
unfolding summary
summary-single k i ps h = ground (
  arith,
  count_of-absent k ps h,
  count_of-snoc k k i ps,
  first_of-snoc k k i ps,
  last_of-snoc 0 k k i ps,
  text_eq_refl k,
)
