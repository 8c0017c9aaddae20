-- ===== src/Bulletins/Message/Normal.antt =====
-- `normalize_dynamic_brackets` against a scan by characters, and that it is idempotent.
use mathlib.Core.Option
use nifi_lens.Base.{
  ℕ, zero, suc, ◌≤◌, ◌<◌, ◌≡◌, refl, ap, sym, ◌∙◌, inl, inr, Bool, true, false, Bool-cases,
  Option-cases, Option, none, some, [], ◌∷◌, ◌++◌, append_assoc, append-nil, length, ◌==◌,
  if◌then◌else◌, arith,
}
use nifi_lens.Base.Text.{Text, find_char}
use nifi_lens.Bulletins.Message.{span_char, ellipsis, normalize_loop, normalize_dynamic_brackets}

-- Reads one character at a time; the flag says that a bracket is open. `none` means that the text
-- ends inside a bracket.
pub collapse : Bool → Text → Option Text
collapse false [] = some []
collapse true [] = none
collapse false (c ∷ s) =
    if c == b'['
    then Option.map (λ t. ellipsis ++ t) (collapse true s)
    else Option.map (λ t. c ∷ t) (collapse false s)
collapse true (c ∷ s) = if c == b']' then collapse false s else collapse true s

abbrev or_else : Option Text → Text → Text
or_else none s = s
or_else (some t) s = t

find_char-collapse : (s : Text) → find_char b']' s ≡ none → collapse true s ≡ none
unfolding find_char collapse
find_char-collapse [] h = refl
find_char-collapse (c ∷ s) h = elim (Option-cases (find_char b']' s)) [
  | inl e ↦ ground (arith, find_char-collapse s e)
  | inr ((b, a), e) ↦ absurd (ground arith)
]

find_char-cons :
    (d c : ℕ) (s : Text)
    → find_char d (c ∷ s) ≡ (
        if c == d
        then some ([], s)
        else Option.map (λ split. (c ∷ split.0, split.1)) (find_char d s))
unfolding find_char
find_char-cons d c s = ground arith

find_char_tail :
    (d c : ℕ) (s before after : Text)
    → find_char d (c ∷ s) ≡ some (before, after)
    → (c == d) ≡ false
    → (b : Text) × (find_char d s ≡ some (b, after))
find_char_tail d c s before after h e = elim (Option-cases (find_char d s)) [
  | inl missing ↦ absurd (ground (arith, find_char-cons d c s))
  | inr ((b, a), there) ↦ (b, ground (arith, find_char-cons d c s))
]

find_char-collapse-some :
    (s before after : Text)
    → find_char b']' s ≡ some (before, after)
    → (collapse true s ≡ collapse false after) × (length after < length s)
unfolding collapse
find_char-collapse-some [] before after h = unfold find_char in cc
find_char-collapse-some (c ∷ s) before after h = elim (Bool-cases (c == b']')) [
  | inl e ↦
      let here : s ≡ after = ground (arith, find_char-cons b']' c s) in
      ground (arith, here, ap length here)
  | inr e ↦
      let (b, there) = find_char_tail b']' c s before after h e in
      ground (arith, find_char-collapse-some s b after there)
]

-- A text put before the result of a scan that ended.
abbrev prepend : Text → Option Text → Option Text
prepend u none = none
prepend u (some t) = some (u ++ t)

prepend-nil : (o : Option Text) → prepend [] o ≡ o
prepend-nil none = refl
prepend-nil (some t) = refl

prepend-append : (u v : Text) (o : Option Text) → prepend u (prepend v o) ≡ prepend (u ++ v) o
prepend-append u v none = refl
prepend-append u v (some t) = ap some (sym (append_assoc u v t))

span_char_stop : (d c : ℕ) (s : Text) → (c == d) ≡ true → span_char d (c ∷ s) ≡ ([], c ∷ s)
unfolding span_char
span_char_stop d c s e = ground arith

span_char_go :
    (d c : ℕ) (s : Text)
    → (c == d) ≡ false
    → span_char d (c ∷ s) ≡ (c ∷ (span_char d s).0, (span_char d s).1)
unfolding span_char
span_char_go d c s e = ground arith

collapse_copy :
    (c : ℕ) (s : Text)
    → (c == b'[') ≡ false
    → collapse false (c ∷ s) ≡ prepend (c ∷ []) (collapse false s)
unfolding collapse
collapse_copy c s e = ground arith

collapse_open :
    (c : ℕ) (s : Text)
    → (c == b'[') ≡ true
    → collapse false (c ∷ s) ≡ prepend ellipsis (collapse true s)
unfolding collapse
collapse_open c s e = ground arith

-- The characters before the next bracket are copied.
span_char-collapse :
    (s : Text)
    → (collapse false s ≡ prepend (span_char b'[' s).0 (collapse false (span_char b'[' s).1))
      × (length (span_char b'[' s).1 ≤ length s)
span_char-collapse [] = unfold collapse span_char in (refl, omega arith)
span_char-collapse (c ∷ s) = elim (Bool-cases (c == b'[')) [
  | inl e ↦ rw (span_char_stop b'[' c s e) (sym (prepend-nil _), omega arith)
  | inr e ↦
      let (copied, shorter) = span_char-collapse s in
      rw (span_char_go b'[' c s e) (
        collapse_copy c s e ∙ ap (prepend (c ∷ [])) copied ∙ prepend-append (c ∷ []) _ _,
        omega arith,
      )
]

-- With fuel for every character, the loop appends what the scan collects, or gives the text back.
normalize_loop-collapse :
    (fuel : ℕ) (s rest out : Text)
    → length rest < fuel
    → normalize_loop fuel s rest out ≡ or_else (prepend out (collapse false rest)) s
unfolding normalize_loop
normalize_loop-collapse zero s rest out h = absurd (omega arith)
normalize_loop-collapse (suc fuel) s [] out h = unfold collapse in sym (append-nil out)
normalize_loop-collapse (suc fuel) s (c ∷ rest) out h = elim (Bool-cases (c == b'[')) [
  | inl e ↦ elim (Option-cases (find_char b']' rest)) [
    | inl missing ↦ ground (arith, collapse_open c rest e, find_char-collapse rest missing)
    | inr ((b, after), there) ↦
        let (closes, shorter) = find_char-collapse-some rest b after there in
        ground (
          arith,
          closes,
          collapse_open c rest e,
          normalize_loop-collapse fuel s after (out ++ ellipsis) (omega arith),
          prepend-append out ellipsis (collapse false after),
        )
  ]
  | inr e ↦
      let next = span_char b'[' rest in
      let (copied, _) = span_char-collapse (c ∷ rest) in
      let shorter : length next.1 < fuel = omega (arith, (span_char-collapse rest).1) in
      ground (
        arith,
        copied,
        span_char_go b'[' c rest e,
        normalize_loop-collapse fuel s next.1 (out ++ c ∷ next.0) shorter,
        prepend-append out (c ∷ next.0) (collapse false next.1),
      )
]

-- Without a bracket the scan copies the text.
find_char-none : (s : Text) → find_char b'[' s ≡ none → collapse false s ≡ some s
unfolding collapse
find_char-none [] h = refl
find_char-none (c ∷ s) h = elim (Bool-cases (c == b'[')) [
  | inl e ↦ absurd (ground (arith, find_char-cons b'[' c s))
  | inr e ↦ elim (Option-cases (find_char b'[' s)) [
    | inl missing ↦ ground (arith, find_char-none s missing)
    | inr (split, there) ↦ absurd (ground (arith, find_char-cons b'[' c s))
  ]
]

-- The function is the scan by characters: each bracketed region becomes `[…]`, all else is copied,
-- and a text that ends inside a bracket is returned as it is. The loop never runs out of fuel.
pub normalize_dynamic_brackets_lem :
    (s : Text) → normalize_dynamic_brackets s ≡ or_else (collapse false s) s
unfolding normalize_dynamic_brackets
normalize_dynamic_brackets_lem s = elim (Option-cases (find_char b'[' s)) [
  | inl missing ↦ ground (arith, find_char-none s missing)
  | inr (split, there) ↦ ground (
    arith,
    normalize_loop-collapse (suc (length s)) s s [] (omega arith),
    prepend-nil (collapse false s),
  )
]

-- A scan's result is scanned to itself, whether or not a bracket was open.
collapse-collapse :
    (inside : Bool) (s t : Text) → collapse inside s ≡ some t → collapse false t ≡ some t
unfolding collapse
collapse-collapse false [] t h = ground arith
collapse-collapse true [] t h = cc
collapse-collapse true (c ∷ s) t h = elim (Bool-cases (c == b']')) [
  | inl e ↦ collapse-collapse false s t (ground arith)
  | inr e ↦ collapse-collapse true s t (ground arith)
]
collapse-collapse false (c ∷ s) t h = elim (Bool-cases (c == b'[')) [
  | inl e ↦ elim (Option-cases (collapse true s)) [
    | inl unclosed ↦ absurd (ground arith)
    | inr (u, ends) ↦ ground (arith, collapse-collapse true s u ends)
  ]
  | inr e ↦ elim (Option-cases (collapse false s)) [
    | inl unclosed ↦ absurd (ground arith)
    | inr (u, ends) ↦ ground (arith, collapse-collapse false s u ends)
  ]
]

-- Normalizing a message twice is normalizing it once, so the dedup key of a shape is stable.
pub normalize_dynamic_brackets_idem :
    (s : Text)
    → normalize_dynamic_brackets (normalize_dynamic_brackets s) ≡ normalize_dynamic_brackets s
normalize_dynamic_brackets_idem s = elim (Option-cases (collapse false s)) [
  | inl unclosed ↦
      rw (normalize_dynamic_brackets_lem s, unclosed)
        (rw (normalize_dynamic_brackets_lem s, unclosed))
  | inr (t, ends) ↦
      rw (normalize_dynamic_brackets_lem s, ends)
        (rw (normalize_dynamic_brackets_lem t, collapse-collapse false s t ends))
]
